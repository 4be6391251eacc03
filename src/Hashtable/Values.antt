-- ===== src/Hashtable/Values.antt =====
-- src/hashtable.c: which values are given to the destructor, or to `free`.
use circ.Base.{
  ℕ, ◌+◌, ◌<◌, ◌≡◌, refl, true, Option, none, some, List, [], ◌∷◌, Bytes, length, arith,
}
use circ.Hashtable.{
  returned, HashtableItem, HashtableTable, slot, new_hashtable_item, delete_hashtable_item,
  fill_slot, hashtable_insert, hashtable_remove, delete_items, hashtable_delete_table,
}
use circ.Hashtable.Counters.{IsCounted}
use circ.Hashtable.Inserting.{Inserted, here-Inserted}
use circ.Hashtable.Placing.{hashtable_insert-Stopped}
use circ.Hashtable.Probing.{path, path-lt}
use circ.Hashtable.Removing.{Removal, marked, hashtable_remove-Removal}
use circ.Hashtable.Slots.{total, total-set}

-- The sum of a weight over a list of values.
abbrev pub sum : {V : Type 0} → (V → ℕ) → List V → ℕ
sum f [] = 0
sum f (v ∷ vs) = f v + sum f vs

module _ {V : Type 0} (f : V → ℕ) where
  -- Of a slot, the weight of its value, deleted or not.
  abbrev pub held : Option (HashtableItem V) → ℕ
  held none = 0
  held (some item) = f item.value

  delete_items-sum :
      (items : List (Option (HashtableItem V))) (table : HashtableTable V)
      → sum f (delete_items items table).released ≡ total held items + sum f table.released
  unfolding delete_items delete_hashtable_item
  delete_items-sum [] table = omega arith
  delete_items-sum (none ∷ items) table = omega (arith, delete_items-sum items table)
  delete_items-sum (some item ∷ items) table =
      omega (arith, delete_items-sum items (delete_hashtable_item item table))

  pub delete_table-sum :
      (table : HashtableTable V)
      → sum f (hashtable_delete_table table) ≡ total held table.items + sum f table.released
  unfolding hashtable_delete_table
  delete_table-sum table = delete_items-sum table.items table

  inserted-sum :
      (table : HashtableTable V) (key : Bytes) (value : V) (loc : ℕ) {result : HashtableTable V}
      → loc < length table.items
      → Inserted table key value loc result (slot table.items loc)
      → total held result.items + sum f result.released
        ≡ f value + (total held table.items + sum f table.released)
  unfolding fill_slot new_hashtable_item delete_hashtable_item
  inserted-sum table key value loc low (Inserted.fresh empty e) =
      let s =
        rw empty at (total-set held table.items loc (some (new_hashtable_item key value)) low) in
      rw e (omega (arith, s))
  inserted-sum table key value loc low (Inserted.reuses item there gone e) =
      let s =
        rw there at (total-set held table.items loc (some (new_hashtable_item key value)) low) in
      rw e (omega (arith, s))
  inserted-sum table key value loc low (Inserted.replaces item there live same e) =
      let s =
        rw there at (total-set held table.items loc (some (record item { value = value })) low) in
      rw e (omega (arith, s))

  -- A value that is stored is released once more when the table is deleted.
  pub insert-released :
      (table : HashtableTable V) (key : Bytes) (value : V) (rounds : ℕ) {result : HashtableTable V}
      → IsCounted table
      → hashtable_insert rounds table key value ≡ returned (0, result)
      → sum f (hashtable_delete_table result) ≡ f value + sum f (hashtable_delete_table table)
  insert-released table key value rounds {result} h e =
      let s = hashtable_insert-Stopped table key value rounds e in
      let loc = path table.cap key s.steps in
      let low : loc < length table.items =
        omega (arith, h.slots, path-lt table.cap key s.steps h.some_slots) in
      omega (
        arith,
        delete_table-sum table,
        delete_table-sum result,
        inserted-sum table key value loc low (here-Inserted table key value loc _ s.here),
      )

  marked-sum :
      (table : HashtableTable V) (key : Bytes) (loc : ℕ) (item : HashtableItem V)
      → loc < length table.items
      → slot table.items loc ≡ some item
      → total held (marked table key loc item).items ≡ total held table.items
  marked-sum table key loc item low there =
      let s =
        rw there at (total-set held table.items loc (some (record item { deleted = true })) low) in
      omega (arith, s)

  -- A removal keeps the value in the slot.
  pub remove-released :
      (table : HashtableTable V) (key : Bytes) (rounds : ℕ) {code : ℕ} {result : HashtableTable V}
      → IsCounted table
      → hashtable_remove rounds table key ≡ returned (code, result)
      → sum f (hashtable_delete_table result) ≡ sum f (hashtable_delete_table table)
  remove-released table key rounds {result = result} h e =
      elim (hashtable_remove-Removal table key rounds h.some_slots e) [
        | Removal.found loc item low at match code left ↦ rw left (
            omega (
              arith,
              delete_table-sum table,
              delete_table-sum (marked table key loc item),
              marked-sum table key loc item (omega (arith, h.slots, low)) at,
            ))
        | Removal.missing steps before empty code left ↦ rw left refl
      ]
