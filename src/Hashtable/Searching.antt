-- ===== src/Hashtable/Searching.antt =====
-- `hashtable_search` of src/hashtable.c: its loop ends, and what it finds.
use circ.Base.{
  ℕ, zero, suc, ◌+◌, ◌≤◌, ◌<◌, ◌≡◌, refl, sym, ap, ◌∙◌, true, false, Option, none, some, ◌⊎◌, inl,
  inr, Bytes, ◌==◌, ==_iff, arith, Bool-cases,
}
use circ.Hashtable.{
  running, Outcome, returned, HashtableItem, HashtableTable, slot, first_loc, next_loc, matches,
  search_here, search_from, hashtable_search,
}
use circ.Hashtable.Placing.{returned_inj, running_absurd}
use circ.Hashtable.Probing.{path, NoWrap, path-back}

module _ {V : Type 0} (key : Bytes) where
  -- The search goes on at an item that is deleted or has another key.
  abbrev pub Skipped : Option (HashtableItem V) → Type 0
  Skipped none = ⊥
  Skipped (some item) = matches key item ≡ false

  abbrev pub Matched : Option (HashtableItem V) → V → Type 0
  Matched none v = ⊥
  Matched (some item) v = (matches key item ≡ true) × (item.value ≡ v)

  pub search_here-cases :
      (s : Option (HashtableItem V))
      → (s ≡ none)
        ⊎ ((v : V) × Matched s v
            × ((r : Outcome (Option V)) → search_here key s r ≡ returned (some v)))
        ⊎ (Skipped s × ((r : Outcome (Option V)) → search_here key s r ≡ r))
  unfolding search_here
  search_here-cases none = inl refl
  search_here-cases (some item) = elim (Bool-cases (matches key item)) [
    | inl same ↦ inr (inl (item.value, (same, refl), λ r. rw same refl))
    | inr other ↦ inr (inr (other, λ r. rw other refl))
  ]

  pub search_here-skip :
      (s : Option (HashtableItem V)) (r : Outcome (Option V)) → Skipped s → search_here key s r ≡ r
  unfolding search_here
  search_here-skip none r h = elim h [ ]
  search_here-skip (some item) r h = rw h refl

  pub search_here-match :
      (s : Option (HashtableItem V)) (r : Outcome (Option V)) (v : V)
      → Matched s v
      → search_here key s r ≡ returned (some v)
  unfolding search_here
  search_here-match none r v h = elim h [ ]
  search_here-match (some item) r v (same, e) = ground (arith, same, e)

module _ {V : Type 0} (table : HashtableTable V) (key : Bytes) where
  -- A search that comes past items with other keys to one with its key returns that value.
  pub search_from-reaches :
      (steps : ℕ) (v : V)
      → ((j : ℕ) → j < steps → Skipped key (slot table.items (path table.cap key j)))
      → ((j : ℕ) → j < steps → (path table.cap key (suc j) == first_loc table.cap key) ≡ false)
      → Matched key (slot table.items (path table.cap key steps)) v
      → (n i : ℕ) {a : Option V} → i ≤ steps
      → search_from n table key (first_loc table.cap key) (path table.cap key i) ≡ returned a
      → a ≡ some v
  unfolding search_from path
  search_from-reaches steps v before forth there zero i low e = running_absurd e
  search_from-reaches steps v before forth there (suc n) i low e = elim (Bool-cases (i == steps)) [
    | inl now ↦
        let at : i ≡ steps = (==_iff i steps).0 now in
        returned_inj (sym e ∙ search_here-match key _ _ v (rw at there))
    | inr later ↦
        let on : i < steps = ground arith in
        search_from-reaches steps v before forth there n (suc i) (omega arith)
          (rw (forth i on) at (sym (search_here-skip key _ _ (before i on)) ∙ e))
  ]

  pub search_from-zero : (init loc : ℕ) → search_from 0 table key init loc ≡ running
  unfolding search_from
  search_from-zero init loc = refl

  -- One round, by what stands in the slot.
  module _ (n init loc : ℕ) {a : Option V}
      (e : search_from (suc n) table key init loc ≡ returned a) where
    pub round_empty : slot table.items loc ≡ none → a ≡ none
    unfolding search_from search_here
    round_empty empty = returned_inj (sym e ∙ rw empty refl)

    pub round_match : (v : V) → Matched key (slot table.items loc) v → a ≡ some v
    unfolding search_from
    round_match v there = returned_inj (sym e ∙ search_here-match key _ _ v there)

    pub round_back :
        Skipped key (slot table.items loc) → (next_loc table.cap key loc == init) ≡ true → a ≡ none
    unfolding search_from
    round_back other back =
        returned_inj (sym (rw back at (sym (search_here-skip key _ _ other) ∙ e)))

    pub round_forth :
        Skipped key (slot table.items loc)
        → (next_loc table.cap key loc == init) ≡ false
        → search_from n table key init (next_loc table.cap key loc) ≡ returned a
    unfolding search_from
    round_forth other forth = rw forth at (sym (search_here-skip key _ _ other) ∙ e)

  -- Where no item has the key, nothing is found.
  pub search_from-none :
      ((loc : ℕ) (v : V) → Matched key (slot table.items loc) v → ⊥)
      → (n init loc : ℕ) {a : Option V} → search_from n table key init loc ≡ returned a
      → a ≡ none
  unfolding search_from
  search_from-none nowhere zero init loc e = running_absurd e
  search_from-none nowhere (suc n) init loc {a} e =
      let next = next_loc table.cap key loc in
      elim (search_here-cases key (slot table.items loc)) [
        | inl empty ↦ round_empty n init loc e empty
        | inr (inl (v, there, stop)) ↦ absurd (nowhere loc v there)
        | inr (inr (other, on)) ↦ elim (Bool-cases (next == init)) [
          | inl back ↦ round_back n init loc e other back
          | inr forth ↦ search_from-none nowhere n init next (round_forth n init loc e other forth)
        ]
      ]

module _ {V : Type 0} (table : HashtableTable V) (key : Bytes) (some_slots : 0 < table.cap)
    (room : NoWrap table.cap key) where
  here_ends :
      (s : Option (HashtableItem V)) (r : Outcome (Option V))
      → ((v : Option V) × (r ≡ returned v))
      → (v : Option V) × (search_here key s r ≡ returned v)
  unfolding search_here
  here_ends none r h = (none, refl)
  here_ends (some item) r (v, e) = elim (Bool-cases (matches key item)) [
    | inl same ↦ (some item.value, rw same refl)
    | inr other ↦ (v, rw other e)
  ]

  search_ends :
      (n i : ℕ)
      → i < table.cap
      → table.cap ≤ i + n
      → (v : Option V) × (search_from n table key (first_loc table.cap key) (path table.cap key i)
          ≡ returned v)
  unfolding search_from path
  search_ends zero i low enough = absurd (omega arith)
  search_ends (suc n) i low enough =
      here_ends _ _ (elim (Bool-cases (path table.cap key (suc i) == first_loc table.cap key)) [
        | inl back ↦ (none, rw back refl)
        | inr forth ↦ elim (Bool-cases (suc i == table.cap)) [
          | inl last ↦
              absurd (ground (arith, path-back table.cap key i some_slots room last, forth))
          | inr inside ↦
              let (v, e) = search_ends n (suc i) (ground arith) (omega arith) in (v, rw forth e)
        ]
      ])

  -- In a table that has a slot, for a key with which the sum for the next slot does not wrap, as
  -- many rounds as there are slots are enough for `hashtable_search`: on this or a greater number
  -- it returns.
  pub hashtable_search-ends :
      (k : ℕ) → (v : Option V) × (hashtable_search (table.cap + k) table key ≡ returned v)
  unfolding hashtable_search path
  hashtable_search-ends k = search_ends (table.cap + k) 0 some_slots (omega arith)

  pub hashtable_search-returns :
      (v : Option V) × (hashtable_search table.cap table key ≡ returned v)
  hashtable_search-returns =
      let (v, e) = hashtable_search-ends 0 in
      (v, ap (λ n. hashtable_search n table key) (omega arith) ∙ e)
