-- ===== src/Hashtable/Map/Others.antt =====
-- src/hashtable.c: `hashtable_search` for a key in two tables that differ only for other keys.
use circ.Base.{
  ltb, ==_iff, ℕ, zero, suc, ◌<◌, ◌≡◌, ◌⊎◌, inl, inr, refl, sym, ap, ◌∙◌, true, false, Option, none,
  some, none_absurd, Bytes, c_string, str_eq, str_eq_iff, arith, Bool-cases, ◌==◌,
}
use circ.Hashtable.{
  returned, HashtableItem, HashtableTable, slot, first_loc, next_loc, matches, search_from,
  hashtable_search,
}
use circ.Hashtable.Map.{IsTable}
use circ.Hashtable.Placing.{running_absurd, below_suc}
use circ.Hashtable.Probing.{path, path-c_string}
use circ.Hashtable.Searching.{
  Skipped, Matched, search_here-cases, round_empty, round_match, round_back, round_forth,
  search_from-none,
}

module _ {V : Type 0} (name : Bytes) where
  -- The same, or in the second table an item with another key.
  abbrev pub Alike : Option (HashtableItem V) → Option (HashtableItem V) → Type 0
  Alike s s' = (s ≡ s') ⊎ (Skipped name s' × ((s ≡ none) ⊎ Skipped name s))

  -- What a match says.
  pub Matched-item :
      (s : Option (HashtableItem V)) (v : V)
      → Matched name s v
      → (item : HashtableItem V) × (s ≡ some item)
        × (item.deleted ≡ false)
        × (c_string name ≡ item.key)
        × (matches name item ≡ true)
  unfolding matches
  Matched-item none v h = elim h [ ]
  Matched-item (some item) v (same, e) = elim (Bool-cases item.deleted) [
    | inl gone ↦ absurd (ground (arith, same, gone))
    | inr live ↦
        let eq : str_eq item.key (c_string name) ≡ true = ground (arith, same, live) in
        (item, refl, live, sym ((str_eq_iff item.key (c_string name)).0 eq), same)
  ]

  skip_not : (s : Option (HashtableItem V)) (v : V) → Skipped name s → Matched name s v → ⊥
  skip_not none v h m = elim h [ ]
  skip_not (some item) v h (same, e) = ground (arith, h, same)

  match_none : (s : Option (HashtableItem V)) (v : V) → s ≡ none → Matched name s v → ⊥
  match_none none v e h = h
  match_none (some item) v e h = none_absurd (sym e)

  module _ (table result : HashtableTable V) (h : IsTable table) (same_cap : result.cap ≡ table.cap)
      (alike : (loc : ℕ) → Alike (slot table.items loc) (slot result.items loc)) where
    -- An empty slot on the way, with only other keys before it: the key is nowhere.
    nowhere :
        (i : ℕ)
        → ((j : ℕ) → j < i → Skipped name (slot table.items (path table.cap name j)))
        → slot table.items (path table.cap name i) ≡ none
        → (loc : ℕ) (v : V) → Matched name (slot result.items loc) v
        → ⊥
    nowhere i before empty loc v there = elim (alike loc) [
      | inr (skipped, was) ↦ skip_not (slot result.items loc) v skipped there
      | inl unchanged ↦
          let (item, at, live, mine, match) = Matched-item _ v there in
          let old = unchanged ∙ at in
          let reach = h.reached loc item old live in
          let way : (j : ℕ) → path table.cap name j ≡ path table.cap item.key j =
            λ j. sym (path-c_string table.cap name j) ∙ ap (λ k. path table.cap k j) mine in
          elim (Bool-cases (ltb i reach.steps)) [
            | inl later ↦ reach.before i (ground arith) (rw (way i) at empty)
            | inr sooner ↦
                let here : slot table.items (path table.cap name reach.steps) ≡ some item =
                  rw (way reach.steps, reach.at) old in
                elim (Bool-cases (reach.steps == i)) [
                  | inl now ↦ none_absurd (
                      sym empty
                      ∙ ap (λ j. slot table.items (path table.cap name j))
                          (sym ((==_iff reach.steps i).0 now))
                      ∙ here)
                  | inr before_it ↦
                      skip_not (some item) item.value
                        (rw here at (before reach.steps (ground arith))) (match, refl)
                ]
          ]
    ]

    -- From the same slot on, past items with other keys, both searches return the same.
    search_agree :
        (n m i : ℕ) {a b : Option V}
        → ((j : ℕ) → j < i → Skipped name (slot table.items (path table.cap name j)))
        → search_from n table name (first_loc table.cap name) (path table.cap name i) ≡ returned a
        → search_from m result name (first_loc table.cap name) (path table.cap name i) ≡ returned b
        → a ≡ b
    unfolding search_from path
    search_agree zero m i before e e' = running_absurd e
    search_agree (suc n) zero i before e e' = running_absurd e'
    search_agree (suc n) (suc m) i {a} {b} before e e' =
        let loc = path table.cap name i in
        let init = first_loc table.cap name in
        let cap : next_loc result.cap name loc ≡ next_loc table.cap name loc =
          ap (λ c. next_loc c name loc) same_cap in
        let onwards : Skipped name (slot table.items loc)
            → Skipped name (slot result.items loc)
            → a ≡ b =
          λ old new. elim (Bool-cases (next_loc table.cap name loc == init)) [
            | inl back ↦
                round_back table name n init loc e old back
                ∙ sym (round_back result name m init loc e' new (rw cap back))
            | inr forth ↦
                search_agree n m (suc i)
                  (below_suc (λ j. Skipped name (slot table.items (path table.cap name j))) i before
                    old)
                  (round_forth table name n init loc e old forth)
                  (rw cap at (round_forth result name m init loc e' new (rw cap forth)))
          ] in
        elim (search_here-cases name (slot table.items loc)) [
          | inl empty ↦
              round_empty table name n init loc e empty
              ∙ sym (search_from-none result name (nowhere i before empty) (suc m) init loc e')
          | inr (inl (v, there, stop)) ↦ elim (alike loc) [
            | inl same ↦
                round_match table name n init loc e v there
                ∙ sym (round_match result name m init loc e' v (rw same at there))
            | inr (skipped, was) ↦ elim was [
              | inl empty ↦ absurd (match_none (slot table.items loc) v empty there)
              | inr old ↦ absurd (skip_not (slot table.items loc) v old there)
            ]
          ]
          | inr (inr (other, on)) ↦ elim (alike loc) [
            | inl same ↦ onwards other (rw same at other)
            | inr (skipped, was) ↦ onwards other skipped
          ]
        ]

    -- The same is found in both tables.
    pub hashtable_search-agree :
        (n m : ℕ) {a b : Option V}
        → hashtable_search n table name ≡ returned a
        → hashtable_search m result name ≡ returned b
        → a ≡ b
    unfolding hashtable_search path
    hashtable_search-agree n m e e' =
        search_agree n m 0 (λ j low. absurd (omega arith)) e
          (ap (λ c. search_from m result name (first_loc c name) (first_loc c name)) (sym same_cap)
            ∙ e')
