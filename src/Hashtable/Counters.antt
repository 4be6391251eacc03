-- ===== src/Hashtable/Counters.antt =====
-- src/hashtable.c: the counters of the table.
use circ.Base.{
  ℕ, ◌+◌, ◌<◌, ◌≤◌, ◌≡◌, refl, sym, ap, ◌∙◌, subst, true, false, Option, none, some, List, [], ◌∷◌,
  Bytes, length, length-set, set, arith, if◌then◌else◌,
}
use circ.Hashtable.{
  returned, HashtableItem, HashtableTable, word, slot, new_hashtable_item, delete_hashtable_item,
  fill_slot, hashtable_insert, hashtable_remove, matches,
}
use circ.Hashtable.Inserting.{reused, replaced, Inserted, here-Inserted}
use circ.Hashtable.Placing.{hashtable_insert-Stopped}
use circ.Hashtable.Probing.{path, path-lt}
use circ.Hashtable.Removing.{Removal, marked, hashtable_remove-Removal}
use circ.Hashtable.Slots.{total, total-set}

module _ {V : Type 0} where
  unfoldable pub is_live : Option (HashtableItem V) → ℕ
  is_live none = 0
  is_live (some item) = if item.deleted then 0 else 1

  unfoldable pub is_filled : Option (HashtableItem V) → ℕ
  is_filled none = 0
  is_filled (some item) = 1

  total-le :
      (g : Option (HashtableItem V) → ℕ)
      → ((s : Option (HashtableItem V)) → g s ≤ 1)
      → (items : List (Option (HashtableItem V))) → total g items ≤ length items
  total-le g h [] = omega arith
  total-le g h (x ∷ items) = omega (arith, h x, total-le g h items)

  live-le : (s : Option (HashtableItem V)) → is_live s ≤ 1
  unfolding is_live
  live-le none = omega arith
  live-le (some item) = ground arith

  filled-le : (s : Option (HashtableItem V)) → is_filled s ≤ 1
  unfolding is_filled
  filled-le none = omega arith
  filled-le (some item) = omega arith

  -- `size` counts the items that are not deleted, and `occupied` the slots that are not empty.
  pub record IsCounted (table : HashtableTable V) : Type 0 where
    pub slots : length table.items ≡ table.cap
    pub some_slots : 0 < table.cap
    pub small : table.cap < word
    pub size : table.size ≡ total is_live table.items
    pub occupied : table.occupied ≡ total is_filled table.items

  module _ (table : HashtableTable V) (key : Bytes) (value : V) (h : IsCounted table) (loc : ℕ)
      (low : loc < length table.items) where
    low_live : (x : Option (HashtableItem V)) → total is_live (set table.items loc x) ≤ table.cap
    low_live x = omega (
      arith,
      total-le is_live live-le (set table.items loc x),
      length-set table.items loc x,
      h.slots,
    )

    low_filled :
        (x : Option (HashtableItem V)) → total is_filled (set table.items loc x) ≤ table.cap
    low_filled x = omega (
      arith,
      total-le is_filled filled-le (set table.items loc x),
      length-set table.items loc x,
      h.slots,
    )

    filled-IsCounted : slot table.items loc ≡ none → IsCounted (fill_slot table loc key value)
    unfolding fill_slot is_live is_filled new_hashtable_item
    filled-IsCounted empty =
        let x = some (new_hashtable_item key value) in
        let l = rw empty at (total-set is_live table.items loc x low) in
        let f = rw empty at (total-set is_filled table.items loc x low) in
        record {
          slots = length-set table.items loc x ∙ h.slots;
          some_slots = h.some_slots;
          small = h.small;
          size = omega (arith, l, h.size, low_live x, h.small);
          occupied = omega (arith, f, h.occupied, low_filled x, h.small);
        }

    module _ (item : HashtableItem V) (at : slot table.items loc ≡ some item) where
      pub total-set_at :
          (g : Option (HashtableItem V) → ℕ) (x : Option (HashtableItem V))
          → total g (set table.items loc x) + g (some item) ≡ total g table.items + g x
      total-set_at g x =
          ap (λ y. total g (set table.items loc x) + g y) (sym at)
          ∙ total-set g table.items loc x low

      reused-IsCounted : item.deleted ≡ true → IsCounted (reused table key value loc item)
      unfolding fill_slot is_live is_filled new_hashtable_item delete_hashtable_item
      reused-IsCounted gone =
          let x = some (new_hashtable_item key value) in
          let was : is_live (some item) ≡ 0 = rw gone refl in
          let l = total-set_at is_live x in
          let f = total-set_at is_filled x in
          record {
            slots = length-set table.items loc x ∙ h.slots;
            some_slots = h.some_slots;
            small = h.small;
            size = omega (arith, l, was, h.size, low_live x, h.small);
            occupied = omega (arith, f, h.occupied, low_filled x, h.small);
          }

      replaced-IsCounted : item.deleted ≡ false → IsCounted (replaced table key value loc item)
      unfolding is_live is_filled
      replaced-IsCounted live =
          let x = some (record item { value = value }) in
          let was : is_live (some item) ≡ is_live x = refl in
          record {
            slots = length-set table.items loc x ∙ h.slots;
            some_slots = h.some_slots;
            small = h.small;
            size = omega (arith, total-set_at is_live x, was, h.size);
            occupied = omega (arith, total-set_at is_filled x, h.occupied);
          }

      marked-IsCounted : item.deleted ≡ false → IsCounted (marked table key loc item)
      unfolding is_live is_filled
      marked-IsCounted live =
          let x = some (record item { deleted = true }) in
          let was : is_live (some item) ≡ 1 = rw live refl in
          record {
            slots = length-set table.items loc x ∙ h.slots;
            some_slots = h.some_slots;
            small = h.small;
            size = omega (arith, total-set_at is_live x, was, h.size, low_live x, h.small);
            occupied = omega (arith, total-set_at is_filled x, h.occupied);
          }

  inserted-IsCounted :
      (table : HashtableTable V) (key : Bytes) (value : V) (loc : ℕ) {result : HashtableTable V}
      → IsCounted table
      → loc < length table.items
      → Inserted table key value loc result (slot table.items loc)
      → IsCounted result
  inserted-IsCounted table key value loc h low (Inserted.fresh empty e) =
      subst IsCounted (sym e) (filled-IsCounted table key value h loc low empty)
  inserted-IsCounted table key value loc h low (Inserted.reuses item at gone e) =
      subst IsCounted (sym e) (reused-IsCounted table key value h loc low item at gone)
  inserted-IsCounted table key value loc h low (Inserted.replaces item at live same e) =
      subst IsCounted (sym e) (replaced-IsCounted table key value h loc low item at live)

  pub hashtable_insert-IsCounted :
      (table : HashtableTable V) (key : Bytes) (value : V) (rounds : ℕ) {result : HashtableTable V}
      → IsCounted table
      → hashtable_insert rounds table key value ≡ returned (0, result)
      → IsCounted result
  hashtable_insert-IsCounted table key value rounds h e =
      let s = hashtable_insert-Stopped table key value rounds e in
      let loc = path table.cap key s.steps in
      inserted-IsCounted table key value loc h
        (omega (arith, h.slots, path-lt table.cap key s.steps h.some_slots))
        (here-Inserted table key value loc _ s.here)

  match_live :
      (key : Bytes) (item : HashtableItem V) → matches key item ≡ true → item.deleted ≡ false
  unfolding matches
  match_live key item e = ground (arith, e)

  pub hashtable_remove-IsCounted :
      (table : HashtableTable V) (key : Bytes) (rounds : ℕ) {code : ℕ} {result : HashtableTable V}
      → IsCounted table
      → hashtable_remove rounds table key ≡ returned (code, result)
      → IsCounted result
  hashtable_remove-IsCounted table key rounds h e =
      elim (hashtable_remove-Removal table key rounds h.some_slots e) [
        | Removal.found loc item low at match code left ↦ subst IsCounted (sym left) (
            marked-IsCounted table key item.value h loc (omega (arith, h.slots, low)) item at
              (match_live key item match))
        | Removal.missing steps before empty code left ↦ subst IsCounted (sym left) h
      ]
