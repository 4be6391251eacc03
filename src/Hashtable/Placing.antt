-- ===== src/Hashtable/Placing.antt =====
-- `hashtable_insert` of src/hashtable.c: where its loop stops, and what it writes there.
use circ.Base.{
  ℕ, zero, suc, ◌<◌, ◌≡◌, ◌≢◌, refl, sym, ◌∙◌, false, Option, none, some, ◌⊎◌, inl, inr, Bytes,
  c_string, str_eq, ◌==◌, ==_iff, arith, Bool-cases,
}
use circ.Hashtable.{
  Outcome, running, returned, HashtableItem, HashtableTable, slot, first_loc, insert_here,
  insert_from, hashtable_insert,
}
use circ.Hashtable.Probing.{path}

pub returned_inj : {A : Type 0} {a b : A} → returned a ≡ returned b → a ≡ b
returned_inj h = cc

pub running_absurd : {A : Type 0} {B : Type 0} {a : A} → running ≡ returned a → B
running_absurd h = ground arith

pub below_suc : (P : ℕ → Type 0) (i : ℕ) → ((j : ℕ) → j < i → P j) → P i → (j : ℕ) → j < suc i → P j
below_suc P i before now j low = elim (Bool-cases (j == i)) [
  | inl same ↦ rw ((==_iff j i).0 same) now
  | inr other ↦ before j (ground arith)
]

module _ {V : Type 0} where
  -- An item that is not deleted and has another key: the loop goes on.
  abbrev pub Passed : Bytes → Option (HashtableItem V) → Type 0
  Passed key none = ⊥
  Passed key (some item) = (item.deleted ≡ false) × (str_eq (c_string key) item.key ≡ false)

  module _ (table : HashtableTable V) (key : Bytes) (value : V) where
    pub insert_here-cases :
        (loc : ℕ) (s : Option (HashtableItem V))
        → (Passed key s
            × ((r : Outcome (ℕ × HashtableTable V)) → insert_here table key value loc s r ≡ r))
          ⊎ ((r : Outcome (ℕ × HashtableTable V))
              → insert_here table key value loc s r ≡ insert_here table key value loc s running)
    unfolding insert_here
    insert_here-cases loc none = inr (λ r. refl)
    insert_here-cases loc (some item) = elim (Bool-cases item.deleted) [
      | inl gone ↦ inr (λ r. rw gone refl)
      | inr live ↦ elim (Bool-cases (str_eq (c_string key) item.key)) [
        | inl same ↦ inr (λ r. rw (live, same) refl)
        | inr other ↦ inl ((live, other), λ r. rw (live, other) refl)
      ]
    ]

    -- The loop stops after `steps` items with other keys.
    pub record Stopped (result : HashtableTable V) : Type 0 where
      pub steps : ℕ
      pub before : (j : ℕ) → j < steps → Passed key (slot table.items (path table.cap key j))
      pub forth :
          (j : ℕ) → j < steps → (path table.cap key (suc j) == first_loc table.cap key) ≡ false
      pub here :
          (let loc = path table.cap key steps in
            insert_here table key value loc (slot table.items loc) running)
          ≡ returned (0, result)

    insert_from-Stopped :
        (n i : ℕ) {result : HashtableTable V}
        → ((j : ℕ) → j < i → Passed key (slot table.items (path table.cap key j)))
        → ((j : ℕ) → j < i → (path table.cap key (suc j) == first_loc table.cap key) ≡ false)
        → insert_from n table key value (first_loc table.cap key) (path table.cap key i)
          ≡ returned (0, result)
        → Stopped result
    unfolding insert_from path
    insert_from-Stopped zero i before forth e = running_absurd e
    insert_from-Stopped (suc n) i before forth e =
        let loc = path table.cap key i in
        elim (insert_here-cases loc (slot table.items loc)) [
          | inl (passed, next) ↦
              elim (Bool-cases (path table.cap key (suc i) == first_loc table.cap key)) [
                | inl back ↦ absurd (ground (arith, sym (next _) ∙ e, back))
                | inr on ↦
                    insert_from-Stopped n (suc i)
                      (below_suc (λ j. Passed key (slot table.items (path table.cap key j))) i
                        before passed)
                      (below_suc
                        (λ j. path table.cap key (suc j) == first_loc table.cap key ≡ false) i forth
                        on)
                      (rw on at (sym (next _) ∙ e))
              ]
          | inr stop ↦ record { steps = i; before = before; forth = forth; here = sym (stop _) ∙ e }
        ]

    pub hashtable_insert-Stopped :
        (rounds : ℕ) {result : HashtableTable V}
        → hashtable_insert rounds table key value ≡ returned (0, result)
        → Stopped result
    unfolding hashtable_insert path
    hashtable_insert-Stopped rounds e = elim (Bool-cases (table.size == table.cap)) [
      | inl full ↦ absurd (ground (arith, e, full))
      | inr room ↦
          insert_from-Stopped rounds 0 (λ j low. absurd (omega arith))
            (λ j low. absurd (omega arith)) (rw room at e)
    ]

    stops_not :
        (loc : ℕ) (x : Option (HashtableItem V)) {result : HashtableTable V}
        → Passed key x
        → insert_here table key value loc x running ≡ returned (0, result)
        → ⊥
    unfolding insert_here
    stops_not loc none passed e = elim passed [ ]
    stops_not loc (some item) (live, other) e =
        running_absurd (sym (ground (arith, live, other)) ∙ e)

    -- A slot on the way is not the one where the loop stops.
    pub Stopped-ne :
        {result : HashtableTable V} (s : Stopped result) (j : ℕ)
        → j < s.steps
        → path table.cap key s.steps ≢ path table.cap key j
    Stopped-ne {result} s j low same =
        stops_not (path table.cap key j) _ (s.before j low) (rw same at s.here)
