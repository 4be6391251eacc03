-- ===== src/Hashtable/Slots.antt =====
-- The array of slots of src/hashtable.c, and sums over it.
use circ.Base.{
  ℕ, zero, suc, ◌+◌, ◌<◌, ◌≡◌, ◌≢◌, refl, Option, none, List, [], ◌∷◌, length, set, replicate,
  arith,
}
use circ.Hashtable.{HashtableItem, slot}

module _ {V : Type 0} where
  pub slot-set_self :
      (items : List (Option (HashtableItem V))) (i : ℕ) (x : Option (HashtableItem V))
      → i < length items
      → slot (set items i x) i ≡ x
  slot-set_self [] i x h = absurd (omega arith)
  slot-set_self (y ∷ items) zero x h = refl
  slot-set_self (y ∷ items) (suc i) x h = slot-set_self items i x (omega arith)

  pub slot-set_other :
      (items : List (Option (HashtableItem V))) (i j : ℕ) (x : Option (HashtableItem V))
      → i ≢ j
      → slot (set items i x) j ≡ slot items j
  slot-set_other [] i j x h = refl
  slot-set_other (y ∷ items) zero zero x h = absurd (h refl)
  slot-set_other (y ∷ items) zero (suc j) x h = refl
  slot-set_other (y ∷ items) (suc i) zero x h = refl
  slot-set_other (y ∷ items) (suc i) (suc j) x h = slot-set_other items i j x (omega (arith, h))

  pub slot-replicate : (n i : ℕ) → slot {V = V} (replicate n none) i ≡ none
  slot-replicate zero i = refl
  slot-replicate (suc n) zero = refl
  slot-replicate (suc n) (suc i) = slot-replicate n i

  -- The sum of a number for each slot.
  abbrev pub total : (Option (HashtableItem V) → ℕ) → List (Option (HashtableItem V)) → ℕ
  total g [] = 0
  total g (x ∷ items) = g x + total g items

  pub total-set :
      (g : Option (HashtableItem V) → ℕ) (items : List (Option (HashtableItem V))) (i : ℕ)
      (x : Option (HashtableItem V))
      → i < length items
      → total g (set items i x) + g (slot items i) ≡ total g items + g x
  total-set g [] i x h = absurd (omega arith)
  total-set g (y ∷ items) zero x h = omega arith
  total-set g (y ∷ items) (suc i) x h = omega (arith, total-set g items i x (omega arith))
