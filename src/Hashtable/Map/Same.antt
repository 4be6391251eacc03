-- ===== src/Hashtable/Map/Same.antt =====
-- src/hashtable.c: `hashtable_search` after `hashtable_insert` of the same key.
use circ.Base.{
  ℕ, suc, ◌≡◌, sym, ap, ◌∙◌, true, false, Option, none, some, Bytes, c_string, str_eq, str_eq_iff,
  str_eq-sym, arith,
}
use circ.Hashtable.{
  returned, HashtableItem, HashtableTable, matches, hashtable_insert, hashtable_search,
}
use circ.Hashtable.Map.{IsTable}
use circ.Hashtable.Inserting.{here-Placed}
use circ.Hashtable.Placing.{Passed, hashtable_insert-Stopped, Stopped-ne}
use circ.Hashtable.Probing.{path, path-lt, path_same}
use circ.Hashtable.Searching.{Skipped, Matched, search_from-reaches}
use circ.Hashtable.Slots.{slot-set_self, slot-set_other}

-- The strings are the same, the buffers perhaps not.
module _ {V : Type 0} (key name : Bytes) (same : c_string name ≡ c_string key) where
  Passed-Skipped : (s : Option (HashtableItem V)) → Passed key s → Skipped name s
  unfolding matches
  Passed-Skipped none h = elim h [ ]
  Passed-Skipped (some item) (live, other) =
      let d : str_eq item.key (c_string name) ≡ false =
        ap (str_eq item.key) same ∙ str_eq-sym item.key (c_string key) ∙ other in
      ground (arith, live, d)

  new-Matched :
      (item : HashtableItem V) (value : V)
      → item.key ≡ c_string key
      → item.value ≡ value
      → item.deleted ≡ false
      → Matched name (some item) value
  unfolding matches
  new-Matched item value k v live =
      let e : str_eq item.key (c_string name) ≡ true = (str_eq_iff _ _).1 (k ∙ sym same) in
      (ground (arith, live, e), v)

  -- Once `hashtable_insert` has returned 0, a search that returns finds the value that was given.
  pub insert-search_same :
      (table result : HashtableTable V) (value : V)
      → IsTable table
      → (rounds n : ℕ) {a : Option V}
      → hashtable_insert rounds table key value ≡ returned (0, result)
      → hashtable_search n result name ≡ returned a
      → a ≡ some value
  unfolding hashtable_search path
  insert-search_same table result value h rounds n inserted searched =
      let s = hashtable_insert-Stopped table key value rounds inserted in
      let p = here-Placed table key value _ _ s.here in
      let way = λ (j : ℕ). ap (λ c. path c name j) p.cap ∙ path_same table.cap name key j same in
      search_from-reaches result name s.steps value
        (λ j low.
          rw
            (
              way j,
              p.items,
              slot-set_other table.items _ _ (some p.item) (Stopped-ne table key value s j low),
            )
            (Passed-Skipped _ (s.before j low)))
        (λ j low. rw (way (suc j), way 0) (s.forth j low))
        (rw
          (
            way s.steps,
            p.items,
            slot-set_self table.items (path table.cap key s.steps) (some p.item)
                (omega (arith, h.slots, path-lt table.cap key s.steps h.some_slots)),
          )
          (new-Matched p.item value p.item_key p.item_value p.live))
        n 0 (omega arith) searched
