-- ===== src/Hashtable/Map/Remove.antt =====
-- `hashtable_remove` of src/hashtable.c on the map that the table stands for.
use circ.Base.{
  none_absurd, ℕ, ◌<◌, ◌≡◌, ◌⊎◌, inl, inr, refl, sym, ap, ◌∙◌, subst, not, ◌&&◌, true, false,
  Option, none, some, some_inj, Bytes, length, set, c_string, str_eq, str_eq_iff, arith, Bool-cases,
  if◌then◌else◌,
}
use circ.Hashtable.{
  returned, HashtableItem, HashtableTable, slot, matches, hashtable_remove, hashtable_search,
}
use circ.Hashtable.Map.{IsTable, Represents}
use circ.Hashtable.Map.Others.{Alike, Matched-item, hashtable_search-agree}
use circ.Hashtable.Map.Writes.{slot-set_cases, write-IsTable, write-Alike}
use circ.Hashtable.Probing.{path, NoWrap}
use circ.Hashtable.Removing.{
  Removal, marked, hashtable_remove-Removal, search_from-misses, search-remove,
}
use circ.Hashtable.Slots.{slot-set_self}
use circ.Hashtable.Searching.{Skipped, Matched, hashtable_search-returns, search_from-none}

module _ {V : Type 0} (table : HashtableTable V) (key : Bytes) where
  -- No two items that are not deleted have the key.
  abbrev pub Single : Type 0
  Single =
      (i j : ℕ) (a b : HashtableItem V)
      → slot table.items i ≡ some a
      → slot table.items j ≡ some b
      → matches key a ≡ true
      → matches key b ≡ true
      → i ≡ j

  matched :
      (item : HashtableItem V)
      → matches key item ≡ true
      → (item.deleted ≡ false) × (item.key ≡ c_string key)
  unfolding matches
  matched item e = elim (Bool-cases item.deleted) [
    | inl gone ↦ absurd (ground (arith, e, gone))
    | inr live ↦
        let eq : str_eq item.key (c_string key) ≡ true = ground (arith, e, live) in
        (live, (str_eq_iff item.key (c_string key)).0 eq)
  ]

  deleted_skipped :
      (name : Bytes) (s : Option (HashtableItem V)) (item : HashtableItem V) (v : V)
      → s ≡ some (record item { deleted = true })
      → Matched name s v
      → ⊥
  unfolding matches
  deleted_skipped name none item v e h = h
  deleted_skipped name (some x) item v e (same, at) =
      let gone : x.deleted ≡ true = ap (λ (y : HashtableItem V). y.deleted) (some_inj.0 e) in
      ground (arith, same, gone)

  true_ne_false : true ≡ false → ⊥
  true_ne_false h = ground (arith, h)

  -- For another key, a deleted item is like the item that it was.
  gone_Alike :
      (name : Bytes) (s : Option (HashtableItem V)) (item : HashtableItem V)
      → s ≡ some item
      → matches key item ≡ true
      → str_eq (c_string key) (c_string name) ≡ false
      → Alike name s (some (record item { deleted = true }))
  unfolding matches
  gone_Alike name s item at match other =
      let (live, mine) = matched item match in
      let d : str_eq item.key (c_string name) ≡ false =
        ap (λ k. str_eq k (c_string name)) mine ∙ other in
      let skipped : matches name item ≡ false = ground (arith, live, d) in
      inr (refl, inr (subst (Skipped name) (sym at) skipped))

  nowhere_left :
      (name : Bytes) (loc : ℕ) (item : HashtableItem V)
      → loc < length table.items
      → slot table.items loc ≡ some item
      → matches key item ≡ true
      → Single
      → c_string name ≡ c_string key
      → (l : ℕ) (v : V) → Matched name (slot (marked table key loc item).items l) v
      → ⊥
  unfolding matches
  nowhere_left name loc item low at match single same l v there =
      let gone = some (record item { deleted = true }) in
      elim (slot-set_cases table.items loc l gone low) [
        | inl (e, here) ↦ deleted_skipped name _ item v here there
        | inr old ↦
            let (other, at', live, mine, match') = Matched-item name _ v there in
            let match'' : matches key other ≡ true =
              ap (λ k. not other.deleted && str_eq other.key k) (sym same) ∙ match' in
            let e = single loc l item other at (sym old ∙ at') match match'' in
            deleted_skipped name _ item v
              (ap (slot (set table.items loc gone)) (sym e)
                ∙ slot-set_self table.items loc gone low)
              there
      ]

  nothing :
      (name : Bytes)
      → c_string name ≡ c_string key
      → (loc : ℕ) (item : HashtableItem V) → IsTable table
      → loc < table.cap
      → slot table.items loc ≡ some item
      → matches key item ≡ true
      → Single
      → (n : ℕ) {a : Option V} → hashtable_search n (marked table key loc item) name ≡ returned a
      → a ≡ none
  unfolding hashtable_search
  nothing name names loc item h low at match single n searched =
      search_from-none (marked table key loc item) name
        (nowhere_left name loc item (omega (arith, h.slots, low)) at match single names) n _ _
        searched

  marked-Represents :
      (m : Bytes → Option V)
      → IsTable table
      → Represents table m
      → Single
      → (loc : ℕ) (item : HashtableItem V) → loc < table.cap
      → slot table.items loc ≡ some item
      → matches key item ≡ true
      → IsTable (marked table key loc item)
        × Represents
            (marked table key loc item)
            (λ name. if str_eq (c_string key) name then none else m name)
  marked-Represents m h r single loc item low at match =
      let after = marked table key loc item in
      let gone : HashtableItem V = record item { deleted = true } in
      let h' =
        write-IsTable table after h loc gone refl refl low (λ live. absurd (true_ne_false live)) in
      (
        h',
        record {
          found = λ name room.
              let (b, searched) = hashtable_search-returns after name h'.some_slots room in
              searched
              ∙ ap returned (elim (Bool-cases (str_eq (c_string key) (c_string name))) [
                | inl same ↦
                    let names : c_string name ≡ c_string key =
                      sym ((str_eq_iff (c_string key) (c_string name)).0 same) in
                    nothing name names loc item h low at match single after.cap searched
                    ∙ rw same refl
                | inr other ↦
                    sym (
                      hashtable_search-agree name table after h refl
                        (write-Alike table after h loc gone refl refl low name
                          (gone_Alike name _ item at match other))
                        table.cap after.cap (r.found name room) searched)
                    ∙ rw other refl
              ]);
        },
      )

  pub remove-IsTable :
      IsTable table
      → (rounds : ℕ) {code : ℕ} {result : HashtableTable V}
      → hashtable_remove rounds table key ≡ returned (code, result)
      → IsTable result
  remove-IsTable h rounds e = elim (hashtable_remove-Removal table key rounds h.some_slots e) [
    | Removal.found loc item low at match code left ↦
        let after = marked table key loc item in
        let gone : HashtableItem V = record item { deleted = true } in
        subst IsTable (sym left)
          (write-IsTable table after h loc gone refl refl low (λ live. absurd (true_ne_false live)))
    | Removal.missing steps before empty code left ↦ subst IsTable (sym left) h
  ]

  -- Whatever the map has for the key, the removal is one from the map, or it finds nothing.
  remove_outcome :
      (m : Bytes → Option V)
      → IsTable table
      → Represents table m
      → Single
      → NoWrap table.cap key
      → (rounds : ℕ) {code : ℕ} {result : HashtableTable V}
      → hashtable_remove rounds table key ≡ returned (code, result)
      → ((code ≡ 0)
          × IsTable result
          × Represents result (λ name. if str_eq (c_string key) name then none else m name))
        ⊎ ((code ≡ 1) × (result ≡ table) × (m (c_string key) ≡ none))
  unfolding hashtable_search path
  remove_outcome m h r single room rounds e =
      elim (hashtable_remove-Removal table key rounds h.some_slots e) [
        | Removal.found loc item low at match zero_code left ↦
            let (h', r') = marked-Represents m h r single loc item low at match in
            inl (
              zero_code,
              subst IsTable (sym left) h',
              subst
                  (λ t. Represents t (λ name. if str_eq (c_string key) name then none else m name))
                  (sym left) r',
            )
        | Removal.missing steps before empty one_code left ↦ inr (
          one_code,
          left,
          search_from-misses table key steps before empty table.cap 0 _ (omega arith)
              (r.found key room),
        )
      ]

  -- If the table is well formed and stands for a map that has a value for the key, no two items that
  -- are not deleted have the key, and the sum for the next slot does not wrap for it, then with as
  -- many rounds as there are slots `hashtable_remove` returns 0, and leaves a well-formed table
  -- that stands for the map without the key. Keys are compared as strings.
  pub hashtable_remove-Represents :
      (m : Bytes → Option V) (v : V)
      → IsTable table
      → Represents table m
      → Single
      → NoWrap table.cap key
      → m (c_string key) ≡ some v
      → (result : HashtableTable V) × (hashtable_remove table.cap table key ≡ returned (0, result))
        × IsTable result
        × Represents result (λ name. if str_eq (c_string key) name then none else m name)
  unfolding hashtable_search hashtable_remove path
  hashtable_remove-Represents m v h r single room has =
      let (result, run) =
        search-remove table key table.cap 0 v (r.found key room ∙ ap returned has) in
      elim (remove_outcome m h r single room table.cap run) [
        | inl (zero_code, h', r') ↦ (result, run, h', r')
        | inr (one_code, left, missing) ↦ none_absurd (sym missing ∙ has)
      ]
