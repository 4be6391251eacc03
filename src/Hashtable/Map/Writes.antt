-- ===== src/Hashtable/Map/Writes.antt =====
-- src/hashtable.c: tables that differ in one slot, in which the second has an item.
use circ.Base.{
  ℕ, ◌<◌, ◌≡◌, ◌⊎◌, inl, inr, sym, ap, ◌∙◌, subst, false, Option, some, some_inj, none_absurd, List,
  Bytes, length, length-set, set, arith, Bool-cases, ◌==◌, ==_iff,
}
use circ.Hashtable.{HashtableItem, HashtableTable, slot}
use circ.Hashtable.Map.{IsTable, Reach}
use circ.Hashtable.Map.Others.{Alike}
use circ.Hashtable.Probing.{path}
use circ.Hashtable.Slots.{slot-set_self, slot-set_other}

module _ {V : Type 0} where
  -- The slot that is written, or another one.
  pub slot-set_cases :
      (items : List (Option (HashtableItem V))) (i j : ℕ) (x : Option (HashtableItem V))
      → i < length items
      → ((i ≡ j) × (slot (set items i x) j ≡ x)) ⊎ (slot (set items i x) j ≡ slot items j)
  slot-set_cases items i j x low = elim (Bool-cases (i == j)) [
    | inl same ↦
        let e : i ≡ j = (==_iff i j).0 same in
        inl (e, ap (slot (set items i x)) (sym e) ∙ slot-set_self items i x low)
    | inr other ↦ inr (slot-set_other items i j x (ground (arith, (==_iff i j).1)))
  ]

  Reach-set :
      (cap : ℕ) (items : List (Option (HashtableItem V))) (i : ℕ) (x : HashtableItem V)
      (key : Bytes) (loc : ℕ)
      → i < length items
      → Reach cap items key loc
      → Reach cap (set items i (some x)) key loc
  Reach-set cap items i x key loc low reach = record {
    steps = reach.steps;
    at = reach.at;
    before = λ j before empty. elim (slot-set_cases items i (path cap key j) (some x) low) [
      | inl (e, here) ↦ none_absurd (sym empty ∙ here)
      | inr there ↦ reach.before j before (sym there ∙ empty)
    ];
  }

  module _ (table result : HashtableTable V) (h : IsTable table) (loc : ℕ) (item : HashtableItem V)
      (same_cap : result.cap ≡ table.cap) (written : result.items ≡ set table.items loc (some item))
      (low : loc < table.cap) where
    inside : loc < length table.items
    inside = omega (arith, h.slots, low)

    -- The item that is written can be reached, if it is not deleted.
    pub write-IsTable :
        (item.deleted ≡ false → Reach table.cap table.items item.key loc) → IsTable result
    write-IsTable reach = record {
      slots = ap length written ∙ length-set table.items loc (some item) ∙ h.slots ∙ sym same_cap;
      some_slots = rw same_cap h.some_slots;
      reached = λ l other at live.
          let at' : slot (set table.items loc (some item)) l ≡ some other =
            ap (λ items. slot items l) (sym written) ∙ at in
          let before : Reach table.cap table.items other.key l =
            elim (slot-set_cases table.items loc l (some item) inside) [
              | inl (e, here) ↦
                  let same : item ≡ other = some_inj.0 (sym here ∙ at') in
                  subst (λ k. Reach table.cap table.items other.key k) e
                    (subst (λ (o : HashtableItem V). Reach table.cap table.items o.key loc) same
                      (reach (ap (λ o. o.deleted) same ∙ live)))
              | inr there ↦ h.reached l other (sym there ∙ at') live
            ] in
          rw (same_cap, written)
            (Reach-set table.cap table.items loc item other.key l inside before);
    }

    pub write-Alike :
        (name : Bytes)
        → Alike name (slot table.items loc) (some item)
        → (l : ℕ) → Alike name (slot table.items l) (slot result.items l)
    write-Alike name now l = elim (slot-set_cases table.items loc l (some item) inside) [
      | inl (e, here) ↦ rw (written, sym e, slot-set_self table.items loc (some item) inside) now
      | inr there ↦ inl (sym there ∙ ap (λ items. slot items l) (sym written))
    ]
