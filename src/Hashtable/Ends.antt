-- ===== src/Hashtable/Ends.antt =====
-- `hashtable_insert` of src/hashtable.c: its loop ends.
use circ.Base.{
  ℕ, zero, suc, ◌+◌, ◌≤◌, ◌<◌, ◌≡◌, refl, sym, ◌∙◌, subst, inl, inr, ◌⊎◌, true, Option, none, some,
  Bytes, arith, Bool-cases, ◌==◌, c_string, str_eq,
}
use circ.Hashtable.{
  Outcome, returned, HashtableItem, HashtableTable, first_loc, fill_slot, replace_value,
  insert_here, insert_from, hashtable_insert,
}
use circ.Hashtable.Inserting.{reused, replaced, here-reuse, here-match, here-other, replace-there}
use circ.Hashtable.Probing.{path, NoWrap, path-back}

module _ {V : Type 0} (table : HashtableTable V) (key : Bytes) (value : V)
    (has_destructor : table.destructor ≡ true) (some_slots : 0 < table.cap)
    (room : NoWrap table.cap key) where
  -- 1 and the same table, or 0 and another one.
  abbrev Settled : Outcome (ℕ × HashtableTable V) → Type 0
  Settled r = (r ≡ returned (1, table)) ⊎ ((result : HashtableTable V) × (r ≡ returned (0, result)))

  here-Settled :
      (loc : ℕ) (s : Option (HashtableItem V)) (r : Outcome (ℕ × HashtableTable V))
      → Settled r
      → Settled (insert_here table key value loc s r)
  unfolding insert_here replace_value
  here-Settled loc none r h = inr (fill_slot table loc key value, refl)
  here-Settled loc (some item) r h = elim (Bool-cases item.deleted) [
    | inl gone ↦ inr (reused table key value loc item, here-reuse table key value loc r item gone)
    | inr live ↦ elim (Bool-cases (str_eq (c_string key) item.key)) [
      | inl same ↦ inr (
        replaced table key value loc item,
        here-match table key value loc r item live same
            ∙ replace-there table key value loc item has_destructor,
      )
      | inr other ↦ subst Settled (sym (here-other table key value loc r item live other)) h
    ]
  ]

  insert_ends :
      (n i : ℕ)
      → i < table.cap
      → table.cap ≤ i + n
      → Settled (insert_from n table key value (first_loc table.cap key) (path table.cap key i))
  unfolding insert_from path
  insert_ends zero i low enough = absurd (omega arith)
  insert_ends (suc n) i low enough =
      here-Settled _ _ _
        (elim (Bool-cases (path table.cap key (suc i) == first_loc table.cap key)) [
          | inl back ↦ inl (rw back refl)
          | inr forth ↦ elim (Bool-cases (suc i == table.cap)) [
            | inl last ↦
                absurd (ground (arith, path-back table.cap key i some_slots room last, forth))
            | inr inside ↦ rw forth (insert_ends n (suc i) (ground arith) (omega arith))
          ]
        ])

  -- In a table that has a destructor and a slot, for a key with which the sum for the next slot
  -- does not wrap, as many rounds as there are slots, or more, are enough for `hashtable_insert`:
  -- it returns 1 and leaves the table as it is, or it returns 0.
  pub hashtable_insert-ends :
      (k : ℕ)
      → (hashtable_insert (table.cap + k) table key value ≡ returned (1, table))
        ⊎ ((result : HashtableTable V) × (hashtable_insert (table.cap + k) table key value
              ≡ returned (0, result)))
  unfolding hashtable_insert path
  hashtable_insert-ends k = elim (Bool-cases (table.size == table.cap)) [
    | inl full ↦ inl (rw full refl)
    | inr free ↦ rw free (insert_ends (table.cap + k) 0 some_slots (omega arith))
  ]
