-- ===== src/Hashtable/Map/Insert.antt =====
-- `hashtable_insert` of src/hashtable.c on the map that the table stands for.
use circ.Base.{
  ℕ, ◌≡◌, ◌≢◌, inl, inr, refl, sym, ap, ◌∙◌, false, Option, none, some, none_absurd, Bytes,
  c_string, str_eq, str_eq_iff, arith, Bool-cases, if◌then◌else◌,
}
use circ.Hashtable.{
  running, returned, HashtableItem, HashtableTable, matches, insert_here, hashtable_insert,
}
use circ.Hashtable.Map.{IsTable, Represents}
use circ.Hashtable.Map.Same.{insert-search_same}
use circ.Hashtable.Map.Writes.{write-IsTable, write-Alike}
use circ.Hashtable.Map.Others.{Alike, hashtable_search-agree}
use circ.Hashtable.Inserting.{here-Placed}
use circ.Hashtable.Placing.{Passed, Stopped, running_absurd, hashtable_insert-Stopped}
use circ.Hashtable.Probing.{path, path-lt, path-c_string}
use circ.Hashtable.Searching.{hashtable_search-returns}

module _ {V : Type 0} (table : HashtableTable V) (key : Bytes) (value : V) where
  -- The loop of an insertion does not stop at an item with another key.
  open_Alike :
      (name : Bytes) (loc : ℕ) (s : Option (HashtableItem V)) (item : HashtableItem V)
      {result : HashtableTable V}
      → str_eq (c_string key) (c_string name) ≡ false
      → item.key ≡ c_string key
      → insert_here table key value loc s running ≡ returned (0, result)
      → Alike name s (some item)
  unfolding insert_here matches
  open_Alike name loc none item other mine stop = inr (ground (arith, mine, other), inl refl)
  open_Alike name loc (some old) item other mine stop = elim (Bool-cases old.deleted) [
    | inl gone ↦ inr (ground (arith, mine, other), inr (ground (arith, gone)))
    | inr live ↦ elim (Bool-cases (str_eq (c_string key) old.key)) [
      | inl same ↦
          let e = (str_eq_iff (c_string key) old.key).0 same in
          inr (ground (arith, mine, other), inr (ground (arith, e, other)))
      | inr different ↦ running_absurd (sym (ground (arith, live, different)) ∙ stop)
    ]
  ]

  Passed-some : (s : Option (HashtableItem V)) → Passed key s → s ≢ none
  Passed-some none h = elim h [ ]
  Passed-some (some item) h = λ e. none_absurd (sym e)

  module _ {result : HashtableTable V} (h : IsTable table)
      (s : Stopped table key value result) where
    pub insert-IsTable : IsTable result
    insert-IsTable =
        let p = here-Placed table key value _ _ s.here in
        write-IsTable table result h (path table.cap key s.steps) p.item p.cap p.items
          (path-lt table.cap key s.steps h.some_slots)
          (λ live. record {
            steps = s.steps;
            at =
                ap (λ k. path table.cap k s.steps) p.item_key ∙ path-c_string table.cap key s.steps;
            before = λ j low.
                rw (p.item_key, path-c_string table.cap key j) (Passed-some _ (s.before j low));
          })

  -- If the table is well formed and stands for a map, so that a search for any key with which the sum
  -- for the next slot does not wrap finds what the map has, and `hashtable_insert` returns 0, then
  -- the new table is well formed and stands in the same way for the map in which the key has the
  -- value and all else is as before. Keys are compared as strings.
  pub hashtable_insert-Represents :
      (m : Bytes → Option V)
      → IsTable table
      → Represents table m
      → (rounds : ℕ) {result : HashtableTable V}
      → hashtable_insert rounds table key value ≡ returned (0, result)
      → IsTable result
        × Represents result (λ name. if str_eq (c_string key) name then some value else m name)
  hashtable_insert-Represents m h r rounds {result} e =
      let s = hashtable_insert-Stopped table key value rounds e in
      let p = here-Placed table key value _ _ s.here in
      let loc = path table.cap key s.steps in
      let h' = insert-IsTable h s in
      (
        h',
        record {
          found = λ name room.
              let (b, searched) = hashtable_search-returns result name h'.some_slots room in
              searched
              ∙ ap returned (elim (Bool-cases (str_eq (c_string key) (c_string name))) [
                | inl same ↦
                    let names : c_string name ≡ c_string key =
                      sym ((str_eq_iff (c_string key) (c_string name)).0 same) in
                    insert-search_same key name names table result value h rounds result.cap e
                      searched
                    ∙ rw same refl
                | inr other ↦
                    sym (
                      hashtable_search-agree name table result h p.cap
                        (write-Alike table result h loc p.item p.cap p.items
                          (path-lt table.cap key s.steps h.some_slots) name
                          (open_Alike name loc _ p.item other p.item_key s.here))
                        table.cap result.cap (r.found name (rw p.cap at room)) searched)
                    ∙ rw other refl
              ]);
        },
      )
