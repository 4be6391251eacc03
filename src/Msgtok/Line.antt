-- ===== src/Msgtok/Line.antt =====
-- The parameters of a well-formed IRC message, and where they stand in the buffer that src/msgtok.c
-- cuts.
use circ.Base.{
  ℕ, zero, suc, ◌+◌, ◌<◌, ◌≡◌, refl, ap, ◌∙◌, Bool, true, false, not, ◌&&◌, none, some, List, [],
  ◌∷◌, ◌++◌, Bytes, drop, get_or, length, c_string, string_at, ◌==◌, All, arith, drop-append,
  drop-append_right, append_assoc,
}
use native.Mathlib.Nat.{add_assoc}
use circ.Msgtok.{skip_spaces, strstr_crlf, find_space}

-- A byte of the last parameter; one of the other parameters.
abbrev pub is_text : ℕ → Bool
is_text c = not (c == 0) && not (c == b'\r')

abbrev pub is_middle : ℕ → Bool
is_middle c = is_text c && not (c == b' ')

abbrev pub IsText : Bytes → Type 0
IsText = All (λ c. is_text c ≡ true)

-- A parameter that stands before others: not empty, no space in it, and no colon in front.
pub record IsMiddle (w : Bytes) : Type 0 where
  pub middle : All (λ c. is_middle c ≡ true) w
  pub filled : 0 < length w
  pub no_colon : (get_or w 0 0 == b':') ≡ false

-- The last parameter: any text behind a colon, or a word with none.
pub data Last : Type 0 where
  trailing : Bytes → Last
  word : Bytes → Last

abbrev pub IsLast : Last → Type 0
IsLast (trailing text) = IsText text
IsLast (word w) = IsMiddle w

abbrev pub last_text : Last → Bytes
last_text (trailing text) = text
last_text (word w) = w

-- The bytes in front of the last parameter's text.
abbrev pub colon : Last → Bytes
colon (trailing text) = b':' ∷ []
colon (word w) = []

-- `<middle> ... <middle> <last> CRLF`, and what follows in the buffer.
abbrev pub line : List Bytes → Last → Bytes → Bytes
line [] last rest = colon last ++ (last_text last ++ (b'\r' ∷ b'\n' ∷ rest))
line (w ∷ ws) last rest = w ++ (b' ' ∷ line ws last rest)

strstr_crlf-append :
    (text rest : Bytes) (e : ℕ)
    → IsText text
    → strstr_crlf rest ≡ some e
    → strstr_crlf (text ++ rest) ≡ some (length text + e)
unfolding strstr_crlf
strstr_crlf-append [] rest e h r = ground arith
strstr_crlf-append (c ∷ []) [] e h r = cc
strstr_crlf-append (c ∷ []) (d ∷ rest) e h r = ground arith
strstr_crlf-append (c ∷ d ∷ text) rest e h r =
    ground (arith, strstr_crlf-append (d ∷ text) rest e h.1 r)

pub find_space-append :
    (w rest : Bytes) (n : ℕ)
    → All (λ c. is_middle c ≡ true) w
    → length w < n
    → find_space (w ++ (b' ' ∷ rest)) n ≡ some (length w)
unfolding find_space
find_space-append w rest zero h l = elim l [ ]
find_space-append [] rest (suc n) h l = refl
find_space-append (c ∷ w) rest (suc n) h l = ground (arith, find_space-append w rest n)

pub middle-IsText : (w : Bytes) → All (λ c. is_middle c ≡ true) w → IsText w
middle-IsText [] h = tt
middle-IsText (c ∷ w) h = ground (arith, middle-IsText w)

-- The NUL behind a token ends its string.
pub c_string-text : (w rest : Bytes) → IsText w → c_string (w ++ (0 ∷ rest)) ≡ w
c_string-text [] rest h = refl
c_string-text (c ∷ w) rest h = ground (arith, c_string-text w rest h.1)

pub find_space-eq-none :
    (w rest : Bytes)
    → All (λ c. is_middle c ≡ true) w
    → find_space (w ++ (b'\r' ∷ rest)) (length w) ≡ none
unfolding find_space
find_space-eq-none [] rest h = refl
find_space-eq-none (c ∷ w) rest h = ground (arith, find_space-eq-none w rest)

-- Where the CRLF of a line stands.
abbrev pub line_end : List Bytes → Last → ℕ
line_end [] last = length (colon last) + length (last_text last)
line_end (w ∷ ws) last = length w + suc (line_end ws last)

pub strstr_crlf-line :
    (ws : List Bytes) (last : Last) (rest : Bytes)
    → All IsMiddle ws
    → IsLast last
    → strstr_crlf (line ws last rest) ≡ some (line_end ws last)
unfolding strstr_crlf
strstr_crlf-line [] (trailing text) rest hs h =
    strstr_crlf-append (b':' ∷ text) (b'\r' ∷ b'\n' ∷ rest) 0 (refl, h) refl ∙ ap some (omega arith)
strstr_crlf-line [] (word w) rest hs h =
    strstr_crlf-append w (b'\r' ∷ b'\n' ∷ rest) 0 (middle-IsText w h.middle) refl
    ∙ ap some (omega arith)
strstr_crlf-line (w ∷ ws) last rest hs h =
    strstr_crlf-append w (b' ' ∷ line ws last rest) _ (middle-IsText w hs.0.middle) (
      strstr_crlf-append (b' ' ∷ []) (line ws last rest) _ (refl, tt)
        (strstr_crlf-line ws last rest hs.1 h)
      ∙ ap some (omega arith))

skip_spaces-IsMiddle : (w rest : Bytes) → IsMiddle w → skip_spaces (w ++ rest) ≡ 0
unfolding skip_spaces
skip_spaces-IsMiddle [] rest m = absurd (omega (arith, m.filled))
skip_spaces-IsMiddle (c ∷ w) rest m = ground (arith, m.middle)

pub skip_spaces-line :
    (ws : List Bytes) (last : Last) (rest : Bytes)
    → All IsMiddle ws
    → IsLast last
    → skip_spaces (line ws last rest) ≡ 0
unfolding skip_spaces
skip_spaces-line [] (trailing text) rest hs h = refl
skip_spaces-line [] (word w) rest hs h = skip_spaces-IsMiddle w _ h
skip_spaces-line (w ∷ ws) last rest hs h = skip_spaces-IsMiddle w _ hs.0

-- The string of a parameter that has been cut off.
pub middle-string :
    (pre w more : Bytes)
    → IsMiddle w
    → string_at ((pre ++ (w ++ (0 ∷ []))) ++ more) (length pre) ≡ w
middle-string pre w more m =
    rw (append_assoc, append_assoc, drop-append) (c_string-text w more (middle-IsText w m.middle))

pub get_or-word : (w rest : Bytes) → 0 < length w → get_or (w ++ rest) 0 0 ≡ get_or w 0 0
get_or-word [] rest h = absurd (omega arith)
get_or-word (c ∷ w) rest h = refl

pub behind :
    (pre w more : Bytes) → drop (length pre + length w + 1) (pre ++ (w ++ (0 ∷ more))) ≡ more
behind pre w more =
    rw (add_assoc, drop-append_right pre (w ++ (0 ∷ more)) (length w + 1))
      (drop-append_right w (0 ∷ more) 1)

-- The conditions as tests, which concrete texts pass by evaluation.
abbrev pub every : (ℕ → Bool) → Bytes → Bool
every p [] = true
every p (c ∷ cs) = p c && every p cs

every-All : (p : ℕ → Bool) (s : Bytes) → every p s ≡ true → All (λ c. p c ≡ true) s
every-All p [] h = tt
every-All p (c ∷ cs) h = ground (arith, every-All p cs)

pub every-IsText : (s : Bytes) → every is_text s ≡ true → IsText s
every-IsText s h = every-All is_text s h

pub word-IsMiddle :
    (c : ℕ) (s : Bytes) → (every is_middle (c ∷ s) && not (c == b':')) ≡ true → IsMiddle (c ∷ s)
word-IsMiddle c s h = record {
  middle = every-All is_middle (c ∷ s) (ground arith);
  filled = omega arith;
  no_colon = ground arith;
}
