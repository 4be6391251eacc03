-- ===== src/Hashtable/Inserting.antt =====
-- `hashtable_insert` of src/hashtable.c: the three ways to store a value.
use circ.Base.{
  ℕ, ◌+◌, ◌-◌, ◌%◌, ◌≡◌, refl, sym, ap, ◌∙◌, true, false, Option, none, some, ◌∷◌, inl, inr, Bytes,
  set, c_string, str_eq, str_eq_iff, arith, Bool-cases,
}
use circ.Hashtable.{
  Outcome, running, returned, HashtableItem, HashtableTable, word, new_hashtable_item,
  delete_hashtable_item, fill_slot, replace_value, insert_here,
}
use circ.Hashtable.Placing.{returned_inj, running_absurd}

module _ {V : Type 0} (table : HashtableTable V) (key : Bytes) (value : V) (loc : ℕ) where
  -- The slot of a deleted item is taken.
  abbrev pub reused : HashtableItem V → HashtableTable V
  reused item =
      let cleared = delete_hashtable_item item table in
      fill_slot (record cleared { occupied = (cleared.occupied + (word - 1)) % word }) loc key value

  -- An item gets another value.
  abbrev pub replaced : HashtableItem V → HashtableTable V
  replaced item = record table {
    items = set table.items loc (some (record item { value = value }));
    released = item.value ∷ table.released;
  }

  pub data Inserted (result : HashtableTable V) (s : Option (HashtableItem V)) : Type 0 where
    fresh : s ≡ none → result ≡ fill_slot table loc key value → Inserted result s
    reuses :
        (item : HashtableItem V)
        → s ≡ some item
        → item.deleted ≡ true
        → result ≡ reused item
        → Inserted result s
    replaces :
        (item : HashtableItem V)
        → s ≡ some item
        → item.deleted ≡ false
        → c_string key ≡ item.key
        → result ≡ replaced item
        → Inserted result s

  pub here-match :
      (r : Outcome (ℕ × HashtableTable V)) (item : HashtableItem V)
      → item.deleted ≡ false
      → str_eq (c_string key) item.key ≡ true
      → insert_here table key value loc (some item) r ≡ replace_value table loc item value
  unfolding insert_here
  here-match r item live same = ground (arith, live, same)

  pub here-other :
      (r : Outcome (ℕ × HashtableTable V)) (item : HashtableItem V)
      → item.deleted ≡ false
      → str_eq (c_string key) item.key ≡ false
      → insert_here table key value loc (some item) r ≡ r
  unfolding insert_here
  here-other r item live other = ground (arith, live, other)

  pub here-reuse :
      (r : Outcome (ℕ × HashtableTable V)) (item : HashtableItem V)
      → item.deleted ≡ true
      → insert_here table key value loc (some item) r ≡ returned (0, reused item)
  unfolding insert_here
  here-reuse r item gone = ground (arith, gone)

  pub replace-there :
      (item : HashtableItem V)
      → table.destructor ≡ true
      → replace_value table loc item value ≡ returned (0, replaced item)
  unfolding replace_value
  replace-there item there = ground (arith, there)

  replace-Inserted :
      (item : HashtableItem V) {result : HashtableTable V}
      → replace_value table loc item value ≡ returned (0, result)
      → result ≡ replaced item
  unfolding replace_value
  replace-Inserted item e = elim (Bool-cases table.destructor) [
    | inl there ↦ ap (λ x. x.1) (returned_inj (sym e ∙ replace-there item there))
    | inr missing ↦ absurd (ground (arith, e, missing))
  ]

  pub here-Inserted :
      (s : Option (HashtableItem V)) {result : HashtableTable V}
      → insert_here table key value loc s running ≡ returned (0, result)
      → Inserted result s
  unfolding insert_here
  here-Inserted none e = fresh refl (ap (λ x. x.1) (sym (returned_inj e)))
  here-Inserted (some item) e = elim (Bool-cases item.deleted) [
    | inl gone ↦
        reuses item refl gone (ap (λ x. x.1) (returned_inj (sym e ∙ here-reuse running item gone)))
    | inr live ↦ elim (Bool-cases (str_eq (c_string key) item.key)) [
      | inl same ↦
          replaces item refl live ((str_eq_iff (c_string key) item.key).0 same)
            (replace-Inserted item (sym (here-match running item live same) ∙ e))
      | inr other ↦ running_absurd (sym (here-other running item live other) ∙ e)
    ]
  ]

  -- What is written: an item that is not deleted, with the key and the value.
  pub record Placed (result : HashtableTable V) : Type 0 where
    pub item : HashtableItem V
    pub item_key : item.key ≡ c_string key
    pub item_value : item.value ≡ value
    pub live : item.deleted ≡ false
    pub items : result.items ≡ set table.items loc (some item)
    pub cap : result.cap ≡ table.cap

  pub Inserted-Placed :
      {result : HashtableTable V} (s : Option (HashtableItem V)) → Inserted result s → Placed result
  unfolding fill_slot new_hashtable_item delete_hashtable_item
  Inserted-Placed s (fresh empty e) = record {
    item = new_hashtable_item key value;
    item_key = refl;
    item_value = refl;
    live = refl;
    items = ap (λ t. t.items) e;
    cap = ap (λ t. t.cap) e;
  }
  Inserted-Placed s (reuses item at gone e) = record {
    item = new_hashtable_item key value;
    item_key = refl;
    item_value = refl;
    live = refl;
    items = ap (λ t. t.items) e;
    cap = ap (λ t. t.cap) e;
  }
  Inserted-Placed s (replaces item at live same e) = record {
    item = record item { value = value };
    item_key = sym same;
    item_value = refl;
    live = live;
    items = ap (λ t. t.items) e;
    cap = ap (λ t. t.cap) e;
  }

  pub here-Placed :
      (s : Option (HashtableItem V)) {result : HashtableTable V}
      → insert_here table key value loc s running ≡ returned (0, result)
      → Placed result
  here-Placed s e = Inserted-Placed s (here-Inserted s e)
