-- ===== src/Hashtable/Removing.antt =====
-- `hashtable_remove` of src/hashtable.c: what its loop finds, and a loop that does not end.
use circ.Base.{
  none_absurd, ℕ, zero, suc, ◌+◌, ◌-◌, ◌%◌, ◌<◌, ◌≤◌, ◌≡◌, refl, sym, ap, ◌∙◌, ◌⊎◌, inl, inr, true,
  Option, none, some, Bytes, set, arith, Bool-cases, ◌==◌, ==_iff,
}
use circ.Hashtable.{
  first_loc, next_loc, Outcome, running, returned, HashtableItem, HashtableTable, word, slot,
  matches, remove_here, remove_from, hashtable_remove, search_from,
}
use circ.Hashtable.Placing.{returned_inj, running_absurd, below_suc}
use circ.Hashtable.Probing.{path, path-lt}
use circ.Hashtable.Searching.{search_from-zero, Skipped, round_empty, round_back, round_forth}

module _ {V : Type 0} (table : HashtableTable V) (key : Bytes) where
  -- The table once the item in the slot is marked as deleted.
  abbrev pub marked : ℕ → HashtableItem V → HashtableTable V
  marked loc item = record table {
    size = (table.size + (word - 1)) % word;
    items = set table.items loc (some (record item { deleted = true }));
  }

  remove_here-cases :
      (loc : ℕ) (s : Option (HashtableItem V)) (r : Outcome (ℕ × HashtableTable V))
      → ((s ≡ none) × (remove_here table key loc s r ≡ returned (1, table)))
        ⊎ ((item : HashtableItem V) × (s ≡ some item)
            × (matches key item ≡ true)
            × (remove_here table key loc s r ≡ returned (0, marked loc item)))
        ⊎ (Skipped key s × (remove_here table key loc s r ≡ r))
  unfolding remove_here
  remove_here-cases loc none r = inl (refl, refl)
  remove_here-cases loc (some item) r = elim (Bool-cases (matches key item)) [
    | inl same ↦ inr (inl (item, refl, same, rw same refl))
    | inr other ↦ inr (inr (other, rw other refl))
  ]

  remove_here-skip :
      (loc : ℕ) (s : Option (HashtableItem V)) (r : Outcome (ℕ × HashtableTable V))
      → Skipped key s
      → remove_here table key loc s r ≡ r
  unfolding remove_here
  remove_here-skip loc none r h = elim h [ ]
  remove_here-skip loc (some item) r h = rw h refl

  -- The loop finds an item with the key, or an empty slot behind items with other keys.
  pub data Removal : ℕ → HashtableTable V → Type 0 where
    found :
        (loc : ℕ) (item : HashtableItem V)
        → loc < table.cap
        → slot table.items loc ≡ some item
        → matches key item ≡ true
        → {code : ℕ} → code ≡ 0
        → {result : HashtableTable V} → result ≡ marked loc item
        → Removal code result
    missing :
        (steps : ℕ)
        → ((j : ℕ) → j < steps → Skipped key (slot table.items (path table.cap key j)))
        → slot table.items (path table.cap key steps) ≡ none
        → {code : ℕ} → code ≡ 1
        → {result : HashtableTable V} → result ≡ table
        → Removal code result

  remove_from-Removal :
      (n i : ℕ) {code : ℕ} {result : HashtableTable V}
      → 0 < table.cap
      → ((j : ℕ) → j < i → Skipped key (slot table.items (path table.cap key j)))
      → remove_from n table key (path table.cap key i) ≡ returned (code, result)
      → Removal code result
  unfolding remove_from path
  remove_from-Removal zero i some_slots before e = running_absurd e
  remove_from-Removal (suc n) i some_slots before e =
      let loc = path table.cap key i in
      elim (remove_here-cases loc (slot table.items loc)
        (remove_from n table key (path table.cap key (suc i)))) [
          | inl (empty, stop) ↦
              let at = returned_inj (sym stop ∙ e) in
              Removal.missing i before empty (ap (λ x. x.0) (sym at)) (ap (λ x. x.1) (sym at))
          | inr (inl (item, there, match, stop)) ↦
              let at = returned_inj (sym stop ∙ e) in
              Removal.found loc item (path-lt table.cap key i some_slots) there match
                (ap (λ x. x.0) (sym at)) (ap (λ x. x.1) (sym at))
          | inr (inr (other, on)) ↦
              remove_from-Removal n (suc i) some_slots
                (below_suc (λ j. Skipped key (slot table.items (path table.cap key j))) i before
                  other)
                (sym on ∙ e)
        ]

  pub hashtable_remove-Removal :
      (rounds : ℕ) {code : ℕ} {result : HashtableTable V}
      → 0 < table.cap
      → hashtable_remove rounds table key ≡ returned (code, result)
      → Removal code result
  unfolding hashtable_remove path
  hashtable_remove-Removal rounds some_slots e =
      remove_from-Removal rounds 0 some_slots (λ j low. absurd (omega arith)) e

  -- Behind items with other keys an empty slot: the search finds nothing.
  pub search_from-misses :
      (steps : ℕ)
      → ((j : ℕ) → j < steps → Skipped key (slot table.items (path table.cap key j)))
      → slot table.items (path table.cap key steps) ≡ none
      → (n i init : ℕ) {a : Option V} → i ≤ steps
      → search_from n table key init (path table.cap key i) ≡ returned a
      → a ≡ none
  unfolding search_from path
  search_from-misses steps before empty zero i init low e = running_absurd e
  search_from-misses steps before empty (suc n) i init low e = elim (Bool-cases (i == steps)) [
    | inl now ↦ round_empty table key n init _ e (rw ((==_iff i steps).0 now) empty)
    | inr later ↦
        let on : i < steps = ground arith in
        elim (Bool-cases (path table.cap key (suc i) == init)) [
          | inl back ↦ round_back table key n init _ e (before i on) back
          | inr forth ↦
              search_from-misses steps before empty n (suc i) init (omega arith)
                (round_forth table key n init _ e (before i on) forth)
        ]
  ]

  -- What a search finds, a removal finds in as many rounds.
  pub search-remove :
      (n i : ℕ) (v : V)
      → search_from n table key (first_loc table.cap key) (path table.cap key i) ≡ returned (some v)
      → (result : HashtableTable V) × (remove_from n table key (path table.cap key i)
          ≡ returned (0, result))
  unfolding remove_from path
  search-remove zero i v e = running_absurd (sym (search_from-zero table key _ _) ∙ e)
  search-remove (suc n) i v e =
      let loc = path table.cap key i in
      let init = first_loc table.cap key in
      elim (remove_here-cases loc (slot table.items loc)
        (remove_from n table key (path table.cap key (suc i)))) [
          | inl (empty, stop) ↦ none_absurd (sym (round_empty table key n init loc e empty))
          | inr (inl (item, there, match, stop)) ↦ (marked loc item, stop)
          | inr (inr (other, on)) ↦ elim (Bool-cases (next_loc table.cap key loc == init)) [
            | inl back ↦ none_absurd (sym (round_back table key n init loc e other back))
            | inr forth ↦
                let (result, run) =
                  search-remove n (suc i) v (round_forth table key n init loc e other forth) in
                (result, on ∙ run)
          ]
        ]

  remove_from-runs :
      0 < table.cap
      → ((loc : ℕ) → loc < table.cap → Skipped key (slot table.items loc))
      → (n i : ℕ) → remove_from n table key (path table.cap key i) ≡ running
  unfolding remove_from remove_here path
  remove_from-runs some_slots all zero i = refl
  remove_from-runs some_slots all (suc n) i =
      remove_here-skip _ _ _ (all _ (path-lt table.cap key i some_slots))
      ∙ remove_from-runs some_slots all n (suc i)

  -- In a table with a slot, none of whose slots is empty and none of whose items that are not
  -- deleted has the key, `hashtable_remove` does not end: it still runs after any number of rounds.
  pub hashtable_remove-runs :
      0 < table.cap
      → ((loc : ℕ) → loc < table.cap → Skipped key (slot table.items loc))
      → (rounds : ℕ) → hashtable_remove rounds table key ≡ running
  unfolding hashtable_remove path
  hashtable_remove-runs some_slots all rounds = remove_from-runs some_slots all rounds 0
