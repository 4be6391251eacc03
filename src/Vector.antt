-- ===== src/Vector.antt =====
-- src/vector.c and include/vector.h. A write or a read behind the allocated block is `none`.
pub mod Pushes
use circ.Base.{
  ℕ, zero, suc, ◌+◌, ◌-◌, ◌*◌, ◌/◌, ◌%◌, ◌^◌, Bool, true, false, Option, none, some, List, [], ◌∷◌,
  ◌++◌, length, set, get_or, take, replicate, ltb, if◌then◌else◌, ◌==◌,
}

-- `items` has the slots that fit in the block; `sp` is an index of slots into it. An address is a
-- number and NULL is 0.
pub record Vector : Type 0 where
  pub size : ℕ
  pub cap : ℕ
  pub items : List ℕ
  pub sp : ℕ

-- With no capacity `items` is NULL: a block with no slot.
unfoldable pub vector_new : ℕ → Vector
vector_new cap = record { size = 0; cap = cap; items = replicate cap 0; sp = 0 }

-- `free(vector)`: the struct is gone. The result is what stays allocated, the block of items.
unfoldable pub vector_free : Vector → List ℕ
vector_free vector = vector.items

-- `realloc` to a number of bytes keeps the slots that fit; what is new has no known content, and
-- is taken from `fresh`.
unfoldable pub realloc : List ℕ → ℕ → List ℕ → List ℕ
realloc items bytes fresh =
    let slots = bytes / 8 in take slots (items ++ (fresh ++ replicate slots 0))

-- The block is given `cap` bytes, not `cap` slots, and `items + size * sizeof(void *)` is
-- counted in slots.
unfoldable pub vector_grow : Vector → List ℕ → Vector
unfolding realloc
vector_grow vector fresh =
    let cap = if vector.cap == 0 then 1 else (vector.cap * 2) % 2 ^ 64 in
    record vector { cap = cap; items = realloc vector.items cap fresh; sp = vector.size * 8 }

-- The size is not counted up.
unfoldable pub vector_push_back : Vector → ℕ → List ℕ → Option Vector
unfolding vector_grow
vector_push_back vector item fresh =
    let v = if vector.size == vector.cap then vector_grow vector fresh else vector in
    if ltb v.sp (length v.items)
    then some (record v { items = set v.items v.sp item; sp = v.sp + 1 })
    else none

unfoldable pub vector_peek_back : Vector → Option ℕ
vector_peek_back vector =
    if vector.size == 0
    then some 0
    else if ltb vector.sp (length vector.items)
    then some (get_or vector.items vector.sp 0)
    else none

-- The size is what it was before, less 1 if it was not 0. The item is read at `sp`, which stays.
unfoldable pub vector_pop_back : Vector → Option (ℕ × Vector)
vector_pop_back vector =
    let v : Vector = record vector { size = vector.size - 1 } in
    if ltb v.sp (length v.items) then some (get_or v.items v.sp 0, v) else none
