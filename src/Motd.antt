-- ===== src/Motd.antt =====
-- src/motd.c: the message of the day, from a file. What the calls of <stdio.h> give is an argument.
pub mod Contents
use circ.Base.{
  ℕ, ◌+◌, Bool, Option, none, some, ◌++◌, Bytes, length, drop, replicate, if◌then◌else◌, ◌==◌,
}

-- What is answered for an open file: whether `fseek` to the end, `calloc` and `fseek` to the start
-- succeed, the result of `ftell`, `none` for -1, and for `fread` of one item of a size the number
-- of items with the bytes that are put into the array.
pub record Stream : Type 0 where
  pub sought_end : Bool
  pub tell : Option ℕ
  pub allocated : Bool
  pub sought_start : Bool
  pub fread : ℕ → ℕ × Bytes

-- The array of `offset + 1` bytes that is returned, and `*len`.
unfoldable pub read_contents : Stream → ℕ → Option (Bytes × ℕ)
read_contents f offset =
    let (items, bytes) = f.fread offset in
    if items == 1
    then some (bytes ++ drop (length bytes) (replicate (offset + 1) 0), offset)
    else none

unfoldable pub with_offset : Stream → Option ℕ → Option (Bytes × ℕ)
unfolding read_contents
with_offset f none = none
with_offset f (some offset) =
    if f.allocated then (if f.sought_start then read_contents f offset else none) else none

-- `fopen` gives NULL or a file.
unfoldable pub motd_get : Option Stream → Option (Bytes × ℕ)
unfolding with_offset
motd_get none = none
motd_get (some f) = if f.sought_end then with_offset f f.tell else none
