-- ===== src/Vector/Pushes.antt =====
-- src/vector.c: how many items can be pushed.
use circ.Base.{
  ℕ, ◌+◌, ◌≤◌, ◌<◌, ◌≡◌, ap, ◌∙◌, inl, inr, Bool, Bool-cases, true, false, Option, none, some, List,
  [], ◌∷◌, length, length-replicate, length-set, set, ltb, leb, arith, ◌==◌,
}
use circ.Vector.{Vector, vector_new, vector_push_back}

-- One push after another; `none` once a write is behind the block.
abbrev pub push_all : List ℕ → Vector → Option Vector
push_all [] v = some v
push_all (x ∷ xs) v = elim (vector_push_back v x []) [ none ↦ none | some u ↦ push_all xs u ]

abbrev then_push : List ℕ → Option Vector → Option Vector
then_push xs o = elim o [ none ↦ none | some u ↦ push_all xs u ]

abbrev pub stays : Option Vector → Bool
stays none = false
stays (some v) = true

-- The vector once an item is stored at `sp`.
abbrev stored : Vector → ℕ → Vector
stored v x = record v { items = set v.items v.sp x; sp = v.sp + 1 }

push_inside :
    (v : Vector) (x : ℕ)
    → v.size == v.cap ≡ false
    → ltb v.sp (length v.items) ≡ true
    → vector_push_back v x [] ≡ some (stored v x)
unfolding vector_push_back
push_inside v x not_full inside = ground (arith, not_full, inside)

push_outside :
    (v : Vector) (x : ℕ)
    → v.size == v.cap ≡ false
    → ltb v.sp (length v.items) ≡ false
    → vector_push_back v x [] ≡ none
unfolding vector_push_back
push_outside v x not_full outside = ground (arith, not_full, outside)

pushes :
    (xs : List ℕ) (v : Vector)
    → v.size == v.cap ≡ false
    → v.sp ≤ length v.items
    → stays (push_all xs v) ≡ leb (length xs + v.sp) (length v.items)
pushes [] v not_full inside = ground arith
pushes (x ∷ xs) v not_full inside = elim (Bool-cases (ltb v.sp (length v.items))) [
  | inl room ↦
      let len = length-set v.items v.sp x in
      ap (λ o. stays (then_push xs o)) (push_inside v x not_full room)
      ∙ pushes xs (stored v x) not_full (ground (arith, len, room))
      ∙ ap (leb (length xs + (v.sp + 1))) len
      ∙ ap (λ n. leb n (length v.items)) (omega arith)
  | inr none_left ↦
      ap (λ o. stays (then_push xs o)) (push_outside v x not_full none_left)
      ∙ ground (arith, none_left)
]

-- On a new vector with a capacity of at least 1, the writes of `vector_push_back` stay inside the
-- block exactly if there are no more pushes than the capacity.
pub vector_push_back-fits :
    (cap : ℕ) (xs : List ℕ) → 0 < cap → stays (push_all xs (vector_new cap)) ≡ leb (length xs) cap
unfolding vector_new
vector_push_back-fits cap xs positive =
    pushes xs (vector_new cap) (ground arith) (omega arith)
    ∙ ap (λ n. leb (length xs + 0) n) (length-replicate cap 0)
    ∙ ap (λ n. leb n cap) (omega arith)
