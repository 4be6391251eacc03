-- ===== src/Base/Text.antt =====
-- C strings: the bytes of a buffer from an index up to the first NUL, and the functions of
-- <string.h> and <ctype.h> that the program calls, in the C locale.
use Prim.Native.Char.{code}
use Prim.Native.String.{String}
use Prim.Native.Nat.{ℕ, ◌+◌}
use mathlib.Core.Path.{◌≡◌, refl}
use mathlib.Core.Logic.{◌↔◌}
use mathlib.Core.Bool.{Bool, true, false, ◌&&◌}
use mathlib.Core.List.{List, [], ◌∷◌, map}
use mathlib.Core.Option.{Option}
use native.Mathlib.Omega.{arith}
use circ.Base.Logic.{leb, ◌==◌, if◌then◌else◌}
use circ.Base.Lists.{drop}

abbrev pub Bytes : Type 0
Bytes = List ℕ

-- The code points of a text: its bytes, if it is ASCII.
abbrev pub codes : String → Bytes
codes String.[] = []
codes (String.◌∷◌ c s) = code c ∷ codes s

-- A `char *` into one buffer: NULL, or an index.
abbrev pub Ptr : Type 0
Ptr = Option ℕ

-- The string that stands at the front of a run of bytes.
abbrev pub c_string : Bytes → Bytes
c_string [] = []
c_string (c ∷ cs) = if c == 0 then [] else c ∷ c_string cs

abbrev pub string_at : Bytes → ℕ → Bytes
string_at buf p = c_string (drop p buf)

-- `strcmp(a, b) == 0`
unfoldable pub str_eq : Bytes → Bytes → Bool
str_eq [] [] = true
str_eq (x ∷ xs) (y ∷ ys) = x == y && str_eq xs ys
str_eq _ _ = false

pub str_eq_iff : (a b : Bytes) → (str_eq a b ≡ true) ↔ (a ≡ b)
unfolding str_eq
str_eq_iff (x ∷ a) (y ∷ b) = ground (arith, str_eq_iff a b)
str_eq_iff _ _ = ground arith

pub str_eq-sym : (a b : Bytes) → str_eq a b ≡ str_eq b a
unfolding str_eq
str_eq-sym (x ∷ a) (y ∷ b) = ground (arith, str_eq-sym a b)
str_eq-sym [] [] = refl
str_eq-sym [] (y ∷ b) = refl
str_eq-sym (x ∷ a) [] = refl

-- `(char) tolower((int) c)`
unfoldable pub to_lower : ℕ → ℕ
to_lower c = if leb b'A' c && leb c b'Z' then c + 32 else c

pub to_lower-to_lower : (c : ℕ) → to_lower (to_lower c) ≡ to_lower c
unfolding to_lower
to_lower-to_lower c = ground arith

pub map-to_lower_idem : (s : Bytes) → map to_lower (map to_lower s) ≡ map to_lower s
map-to_lower_idem [] = refl
map-to_lower_idem (c ∷ s) = ground (arith, to_lower-to_lower c, map-to_lower_idem s)
