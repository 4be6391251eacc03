-- ===== src/Msgtok.antt =====
-- src/msgtok.c: `msgtok_r`, which cuts an IRC message into tokens in place. A pointer into the
-- buffer is its index, and what the function stores through `toklen`, `saveptr` and `str` is returned.
pub mod Scan
pub mod Tokens
pub mod Line
pub mod Message
use circ.Base.{
  ℕ, zero, suc, ◌+◌, ◌-◌, Bool, true, false, ◌&&◌, Option, none, some, List, [], ◌∷◌, Bytes, Ptr,
  drop, set, get_or, ◌==◌, if◌then◌else◌,
}
use mathlib.Core.Option

-- The result, `*toklen`, `*saveptr` and the buffer after a call.
pub record Token : Type 0 where
  pub tok : Ptr
  pub toklen : ℕ
  pub saveptr : Ptr
  pub buf : Bytes

-- `while (*str == ' ') str++`: how far the pointer moves.
unfoldable pub skip_spaces : Bytes → ℕ
skip_spaces [] = 0
skip_spaces (c ∷ cs) = if c == b' ' then suc (skip_spaces cs) else 0

-- `strstr(str, "\r\n") - str`, if the string holds it.
unfoldable pub strstr_crlf : Bytes → Option ℕ
strstr_crlf [] = none
strstr_crlf (c ∷ []) = none
strstr_crlf (c ∷ d ∷ cs) =
    if c == 0
    then none
    else if c == b'\r' && d == b'\n'
    then some 0
    else Option.map suc (strstr_crlf (d ∷ cs))

-- `for (i = str; *i != 0 && i != end; i++) if (*i == ' ')`: the `i - str` of the first space,
-- with `end - str` bytes to look at.
unfoldable pub find_space : Bytes → ℕ → Option ℕ
find_space [] n = none
find_space (c ∷ cs) zero = none
find_space (c ∷ cs) (suc n) =
    if c == 0 then none else if c == b' ' then some 0 else Option.map suc (find_space cs n)

-- The part of `msgtok_r` behind the choice of `str`; `e` is `end - str`.
unfoldable pub token_before : Bytes → ℕ → ℕ → Token
unfolding skip_spaces find_space
token_before buf str e =
    if get_or (drop str buf) 0 0 == b':'
    then record { tok = some (str + 1); toklen = e - 1; saveptr = none; buf = set buf (str + e) 0 }
    else elim (find_space (drop str buf) e) [
      | some k ↦
          let cut = set buf (str + k) 0 in
          let next = str + k + 1 in
          record {
            tok = some str;
            toklen = k;
            saveptr = some (next + skip_spaces (drop next cut));
            buf = cut;
          }
      | none ↦ record { tok = some str; toklen = e; saveptr = none; buf = set buf (str + e) 0 }
    ]

unfoldable pub token_at : Bytes → ℕ → Ptr → Token
unfolding strstr_crlf token_before
token_at buf str saveptr = elim (strstr_crlf (drop str buf)) [
  | none ↦ record { tok = none; toklen = 0; saveptr = saveptr; buf = buf }
  | some e ↦ token_before buf str e
]

unfoldable pub msgtok_r : Bytes → Ptr → Ptr → Token
unfolding token_at
msgtok_r buf none none = record { tok = none; toklen = 0; saveptr = none; buf = buf }
msgtok_r buf none (some p) = token_at buf p (some p)
msgtok_r buf (some p) saveptr = token_at buf (p + skip_spaces (drop p buf)) saveptr

-- `msgtok` is the same code with the static `msgtok_ptr` for `*saveptr`: here it is passed in, and
-- the field `saveptr` of the result is what is stored back.
unfoldable pub msgtok : Bytes → Ptr → Ptr → Token
unfolding token_at
msgtok buf none none = record { tok = none; toklen = 0; saveptr = none; buf = buf }
msgtok buf none (some msgtok_ptr) = token_at buf msgtok_ptr (some msgtok_ptr)
msgtok buf (some p) msgtok_ptr = token_at buf (p + skip_spaces (drop p buf)) msgtok_ptr
