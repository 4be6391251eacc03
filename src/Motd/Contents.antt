-- ===== src/Motd/Contents.antt =====
-- src/motd.c: what is read is the contents of the file.
use circ.Base.{
  ℕ, ◌+◌, ◌-◌, ◌≡◌, refl, sym, ap, ◌∙◌, true, false, Option, none, some, [], ◌∷◌, ◌++◌, Bytes,
  length, drop, replicate, leb, take, take_all, drop-replicate, if◌then◌else◌, ◌==◌, arith,
}
use circ.Motd.{Stream, motd_get, with_offset, read_contents}

-- A file that can be read, with these bytes. `fread` of an item of size 0 reads no item.
pub record IsFile (f : Stream) (contents : Bytes) : Type 0 where
  pub sought_end : f.sought_end ≡ true
  pub tell : f.tell ≡ some (length contents)
  pub allocated : f.allocated ≡ true
  pub sought_start : f.sought_start ≡ true
  pub fread :
      (n : ℕ)
      → f.fread n ≡ (
          if n == 0
          then (0, [])
          else if leb n (length contents)
          then (1, take n contents)
          else (0, contents))

-- What is made of the result of `fread`.
abbrev made_of : ℕ → ℕ × Bytes → Option (Bytes × ℕ)
made_of offset (items, bytes) =
    if items == 1
    then some (bytes ++ drop (length bytes) (replicate (offset + 1) 0), offset)
    else none

fread_contents :
    (contents : Bytes)
    → let n = length contents in
      made_of n (
        if n == 0
        then (0, [])
        else if leb n (length contents)
        then (1, take n contents)
        else (0, contents))
      ≡ (if n == 0 then none else some (contents ++ (0 ∷ []), n))
fread_contents [] = refl
fread_contents (c ∷ cs) =
    let n = length (c ∷ cs) in
    let filled : n == 0 ≡ false = ground arith in
    let whole : leb n n ≡ true = ground arith in
    let one : n + 1 - n ≡ 1 = omega arith in
    let nul : drop n (replicate (n + 1) 0) ≡ 0 ∷ [] =
      drop-replicate n (n + 1) 0 ∙ ap (λ k. replicate k 0) one in
    ap
      (λ b.
        made_of n (if b then (0, []) else if leb n n then (1, take n (c ∷ cs)) else (0, c ∷ cs)))
      filled
    ∙ ap (λ b. made_of n (if b then (1, take n (c ∷ cs)) else (0, c ∷ cs))) whole
    ∙ ap (λ s. made_of n (1, s)) (take_all n (c ∷ cs) (omega arith))
    ∙ ap (λ s. some ((c ∷ cs) ++ s, n)) nul
    ∙ ap (λ b. if b then none else some ((c ∷ cs) ++ (0 ∷ []), n)) (sym filled)

-- `Motd_Get` on a file that can be read gives NULL if the file is empty, and else an array with the
-- bytes of the file and a NUL behind them, and their number.
pub motd_get-contents :
    (f : Stream) (contents : Bytes)
    → IsFile f contents
    → motd_get (some f)
      ≡ (if length contents == 0 then none else some (contents ++ (0 ∷ []), length contents))
unfolding motd_get with_offset read_contents
motd_get-contents f contents h =
    let n = length contents in
    ap (λ b. if b then with_offset f f.tell else none) h.sought_end
    ∙ ap (with_offset f) h.tell
    ∙ ap (λ b. if b then (if f.sought_start then read_contents f n else none) else none) h.allocated
    ∙ ap (λ b. if b then read_contents f n else none) h.sought_start
    ∙ ap (made_of n) (h.fread n)
    ∙ fread_contents contents
