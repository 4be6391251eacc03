-- ===== src/Msgtok/Tokens.antt =====
-- src/msgtok.c: the result of one call of `msgtok_r`, on any buffer.
use circ.Base.{
  ℕ, ◌+◌, ◌-◌, ◌<◌, ◌≡◌, refl, inl, inr, true, none, some, Bytes, Ptr, drop, take, set, get_or,
  length, string_at, ◌==◌, arith, drop-set, drop-drop, length-set, length-drop, Bool-cases,
  Option-cases,
}
use circ.Msgtok.{Token, strstr_crlf, find_space, token_before, token_at, msgtok_r}
use circ.Msgtok.Scan.{colon-Cuts, Cuts, strstr_crlf-Cuts, find_space-Cuts}

-- The token at `p` is the run of `toklen` bytes that stood there, ends in a NUL inside the
-- buffer, and the buffer keeps its size.
pub record IsToken (buf : Bytes) (t : Token) (p : ℕ) : Type 0 where
  pub text : string_at t.buf p ≡ take t.toklen (drop p buf)
  pub strlen : length (string_at t.buf p) ≡ t.toklen
  pub inside : p + t.toklen < length buf
  pub size : length t.buf ≡ length buf

module _ (buf : Bytes) (str : ℕ) where
  cut-IsToken :
      (k : ℕ) (saveptr : Ptr)
      → Cuts (drop str buf) k
      → IsToken buf
          (record { tok = some str; toklen = k; saveptr = saveptr; buf = set buf (str + k) 0 })
          str
  cut-IsToken k saveptr c = record {
    text = rw drop-set c.0;
    strlen = rw (drop-set, c.0) c.1;
    inside = omega (arith, c.2, length-drop str buf);
    size = length-set buf (str + k) 0;
  }

colon-IsToken :
    (buf : Bytes) (str e : ℕ)
    → strstr_crlf (drop str buf) ≡ some e
    → (get_or (drop str buf) 0 0 == b':') ≡ true
    → IsToken buf
        (record { tok = some (str + 1); toklen = e - 1; saveptr = none; buf = set buf (str + e) 0 })
        (str + 1)
colon-IsToken buf str e h colon =
    let c = colon-Cuts (drop str buf) e h colon in
    let k : str + e ≡ str + 1 + (e - 1) = omega (arith, c.1) in
    rw k (cut-IsToken buf (str + 1) (e - 1) none (rw drop-drop at c.0))

-- NULL comes with the length 0 and an untouched buffer.
abbrev Result : Bytes → Token → Ptr → Type 0
Result buf t none = (t.toklen ≡ 0) × (t.buf ≡ buf)
Result buf t (some p) = IsToken buf t p

abbrev pub IsResult : Bytes → Token → Type 0
IsResult buf t = Result buf t t.tok

token_before-IsResult :
    (buf : Bytes) (str e : ℕ)
    → strstr_crlf (drop str buf) ≡ some e
    → IsResult buf (token_before buf str e)
unfolding token_before
token_before-IsResult buf str e h = elim (Bool-cases (get_or (drop str buf) 0 0 == b':')) [
  | inl colon ↦ rw colon (colon-IsToken buf str e h colon)
  | inr word ↦ rw word (elim (Option-cases (find_space (drop str buf) e)) [
    | inl last ↦ rw last (cut-IsToken buf str e none (strstr_crlf-Cuts (drop str buf) e h))
    | inr (k, space) ↦
        rw space (cut-IsToken buf str k _ (find_space-Cuts (drop str buf) e k space).0)
  ])
]

token_at-IsResult :
    (buf : Bytes) (str : ℕ) (saveptr : Ptr) → IsResult buf (token_at buf str saveptr)
unfolding token_at
token_at-IsResult buf str saveptr = elim (Option-cases (strstr_crlf (drop str buf))) [
  | inl absent ↦ rw (absent, token_at) (refl, refl)
  | inr (e, found) ↦ rw (found, token_at) (token_before-IsResult buf str e found)
]

-- Whatever the buffer and the two pointers hold, `msgtok_r` returns NULL with `toklen` 0 and the
-- buffer as it was, or a token inside the buffer: the string at the returned pointer has exactly
-- `toklen` bytes, they are the bytes that stood there before the call, the byte behind them is
-- in the buffer, and the buffer keeps its size.
pub msgtok_r-IsResult : (buf : Bytes) (str saveptr : Ptr) → IsResult buf (msgtok_r buf str saveptr)
unfolding msgtok_r
msgtok_r-IsResult buf none none = (refl, refl)
msgtok_r-IsResult buf none (some p) = token_at-IsResult buf p (some p)
msgtok_r-IsResult buf (some p) saveptr = token_at-IsResult buf _ saveptr
