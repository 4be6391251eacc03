-- ===== src/Hashtable/Uses.antt =====
-- src/hashtable.c: the tables that its functions lead to.
use circ.Base.{
  ℕ, zero, suc, ◌<◌, ◌≡◌, refl, sym, ap, ◌∙◌, subst, Bool, Option, none, some, some_inj,
  none_absurd, List, [], ◌∷◌, Bytes, length-replicate, replicate, arith,
}
use circ.Hashtable.{
  word, returned, HashtableItem, HashtableTable, next_prime, hashtable_new_table, hashtable_insert,
  hashtable_remove, hashtable_delete_table, hashtable_search,
}
use circ.Hashtable.Counters.{
  is_live, is_filled, IsCounted, hashtable_insert-IsCounted, hashtable_remove-IsCounted,
}
use circ.Hashtable.Map.{IsTable, Represents}
use circ.Hashtable.Map.Insert.{insert-IsTable}
use circ.Hashtable.Map.Remove.{remove-IsTable}
use circ.Hashtable.Placing.{hashtable_insert-Stopped}
use circ.Hashtable.Primes.{next_prime_bounds}
use circ.Hashtable.Searching.{hashtable_search-returns, search_from-none, Matched}
use circ.Hashtable.Slots.{total, slot-replicate}
use circ.Hashtable.Values.{sum, held, delete_table-sum, insert-released, remove-released}

module _ {V : Type 0} where
  -- A table from its creation on, with the values that were stored in it, the last first. An
  -- insertion that does not return 0 leaves the table as it is.
  pub data Uses : HashtableTable V → List V → Type 0 where
    made :
        (floor_sqrt : ℕ → ℕ) (rounds cap_hint : ℕ) (destructor : Bool) {table : HashtableTable V}
        → cap_hint < word
        → hashtable_new_table floor_sqrt rounds cap_hint destructor ≡ some table
        → Uses table []
    inserts :
        {table : HashtableTable V} {values : List V}
        → Uses table values
        → (rounds : ℕ) (key : Bytes) (value : V) {result : HashtableTable V}
        → hashtable_insert rounds table key value ≡ returned (0, result)
        → Uses result (value ∷ values)
    removes :
        {table : HashtableTable V} {values : List V}
        → Uses table values
        → (rounds : ℕ) (key : Bytes) {code : ℕ} {result : HashtableTable V}
        → hashtable_remove rounds table key ≡ returned (code, result)
        → Uses result values

  abbrev empty_table : ℕ → Bool → HashtableTable V
  empty_table cap destructor = record {
    size = 0;
    occupied = 0;
    cap = cap;
    items = replicate cap none;
    destructor = destructor;
    released = [];
  }

  sized :
      (o : Option ℕ) (destructor : Bool) {table : HashtableTable V}
      → (elim o [ none ↦ none | some cap ↦ some (empty_table cap destructor) ]) ≡ some table
      → (cap : ℕ) × (o ≡ some cap) × (table ≡ empty_table cap destructor)
  sized none destructor e = none_absurd e
  sized (some cap) destructor e = (cap, refl, sym (some_inj.0 e))

  new_table_lem :
      (floor_sqrt : ℕ → ℕ) (rounds cap_hint : ℕ) (destructor : Bool) {table : HashtableTable V}
      → cap_hint < word
      → hashtable_new_table floor_sqrt rounds cap_hint destructor ≡ some table
      → (cap : ℕ) × (0 < cap) × (cap < word) × (table ≡ empty_table cap destructor)
  unfolding hashtable_new_table
  new_table_lem floor_sqrt rounds cap_hint destructor low e =
      let (cap, found, at) = sized (next_prime floor_sqrt rounds cap_hint) destructor e in
      let (positive, small) = next_prime_bounds floor_sqrt rounds cap_hint low found in
      (cap, positive, small, at)

  total-replicate :
      (g : Option (HashtableItem V) → ℕ) → g none ≡ 0 → (n : ℕ) → total g (replicate n none) ≡ 0
  total-replicate g h zero = refl
  total-replicate g h (suc n) = omega (arith, h, total-replicate g h n)

  empty-IsCounted :
      (cap : ℕ) (destructor : Bool) → 0 < cap → cap < word → IsCounted (empty_table cap destructor)
  unfolding is_live is_filled
  empty-IsCounted cap destructor positive small = record {
    slots = length-replicate cap none;
    some_slots = positive;
    small = small;
    size = sym (total-replicate is_live refl cap);
    occupied = sym (total-replicate is_filled refl cap);
  }

  empty-IsTable : (cap : ℕ) (destructor : Bool) → 0 < cap → IsTable (empty_table cap destructor)
  empty-IsTable cap destructor positive = record {
    slots = length-replicate cap none;
    some_slots = positive;
    reached = λ loc item there live. none_absurd (sym (slot-replicate cap loc) ∙ there);
  }

  -- A new table stands for the map that has nothing.
  pub new_table-Represents :
      (floor_sqrt : ℕ → ℕ) (rounds cap_hint : ℕ) (destructor : Bool) {table : HashtableTable V}
      → cap_hint < word
      → hashtable_new_table floor_sqrt rounds cap_hint destructor ≡ some table
      → Represents table (λ name. none)
  unfolding hashtable_search
  new_table-Represents floor_sqrt rounds cap_hint destructor low e =
      let (cap, positive, small, at) = new_table_lem floor_sqrt rounds cap_hint destructor low e in
      subst (λ t. Represents t (λ name. none)) (sym at)
        (record {
          found = λ key room.
              let (v, searched) =
                hashtable_search-returns (empty_table cap destructor) key positive room in
              searched ∙ ap returned (nothing cap destructor key v searched);
        })
    where
      nothing :
          (cap : ℕ) (destructor : Bool) (key : Bytes) (v : Option V)
          → hashtable_search cap (empty_table cap destructor) key ≡ returned v
          → v ≡ none
      nothing cap destructor key v searched =
          search_from-none (empty_table cap destructor) key
            (λ loc u there. subst (λ s. Matched key s u) (slot-replicate cap loc) there) cap _ _
            searched

  -- In every table that comes from `hashtable_new_table` with a hint below 2 ^ 64 by insertions
  -- and removals that return, there are as many slots as its capacity says and at least one,
  -- every item that is not deleted can be reached past no empty slot, `size` is the number of
  -- these items, and `occupied` the number of slots that are not empty.
  pub Uses-IsTable :
      {table : HashtableTable V} {values : List V}
      → Uses table values
      → IsTable table × IsCounted table
  Uses-IsTable (Uses.made floor_sqrt rounds cap_hint destructor low e) =
      let (cap, positive, small, at) = new_table_lem floor_sqrt rounds cap_hint destructor low e in
      subst (λ t. IsTable t × IsCounted t) (sym at)
        (empty-IsTable cap destructor positive, empty-IsCounted cap destructor positive small)
  Uses-IsTable (Uses.inserts {table} before rounds key value e) =
      let (t, c) = Uses-IsTable before in
      (
        insert-IsTable table key value t (hashtable_insert-Stopped table key value rounds e),
        hashtable_insert-IsCounted table key value rounds c e,
      )
  Uses-IsTable (Uses.removes {table} before rounds key e) =
      let (t, c) = Uses-IsTable before in
      (remove-IsTable table key t rounds e, hashtable_remove-IsCounted table key rounds c e)

  -- For every table that comes from `hashtable_new_table` with a hint below 2 ^ 64 by insertions
  -- and removals that return, once it is deleted, the values that were released are those that
  -- were stored, each as often as it was stored: for every weight the sums are the same.
  pub Uses-released :
      {table : HashtableTable V} {values : List V}
      → Uses table values
      → (f : V → ℕ) → sum f (hashtable_delete_table table) ≡ sum f values
  Uses-released (Uses.made floor_sqrt rounds cap_hint destructor low e) f =
      let (cap, positive, small, at) = new_table_lem floor_sqrt rounds cap_hint destructor low e in
      rw at (
        omega (
          arith,
          delete_table-sum f (empty_table cap destructor),
          total-replicate (held f) refl cap,
        ))
  Uses-released (Uses.inserts {table} before rounds key value e) f = omega (
    arith,
    insert-released f table key value rounds (Uses-IsTable before).1 e,
    Uses-released before f,
  )
  Uses-released (Uses.removes {table} before rounds key e) f =
      remove-released f table key rounds (Uses-IsTable before).1 e ∙ Uses-released before f
