-- ===== src/Msgtok/Scan.antt =====
-- What the scans of src/msgtok.c find.
use circ.Base.{
  ℕ, zero, suc, ◌-◌, ◌<◌, ◌≡◌, refl, true, some, [], ◌∷◌, Bytes, drop, take, set, get_or, length,
  c_string, ◌==◌, arith,
}
use circ.Msgtok.{strstr_crlf, find_space}

-- A NUL written at `k` ends the string there, if no NUL stands before.
abbrev pub Cuts : Bytes → ℕ → Type 0
Cuts s k = (c_string (set s k 0) ≡ take k s) × (length (take k s) ≡ k) × (k < length s)

pub strstr_crlf-Cuts : (s : Bytes) (e : ℕ) → strstr_crlf s ≡ some e → Cuts s e
unfolding strstr_crlf
strstr_crlf-Cuts [] e h = cc
strstr_crlf-Cuts (c ∷ []) e h = cc
strstr_crlf-Cuts (c ∷ d ∷ cs) zero h = (refl, refl, omega arith)
strstr_crlf-Cuts (c ∷ d ∷ cs) (suc e) h = ground (arith, strstr_crlf-Cuts (d ∷ cs) e)

pub find_space-Cuts : (s : Bytes) (n k : ℕ) → find_space s n ≡ some k → Cuts s k × (k < n)
unfolding find_space
find_space-Cuts [] n k h = cc
find_space-Cuts (c ∷ cs) zero k h = cc
find_space-Cuts (c ∷ cs) (suc n) zero h = ((refl, refl, omega arith), omega arith)
find_space-Cuts (c ∷ cs) (suc n) (suc k) h = ground (arith, find_space-Cuts cs n k)

-- Behind a leading colon the string still ends at the CRLF.
pub colon-Cuts :
    (s : Bytes) (e : ℕ)
    → strstr_crlf s ≡ some e
    → (get_or s 0 0 == b':') ≡ true
    → Cuts (drop 1 s) (e - 1) × (0 < e)
unfolding strstr_crlf
colon-Cuts [] e h colon = cc
colon-Cuts (c ∷ []) e h colon = cc
colon-Cuts (c ∷ d ∷ cs) zero h colon = absurd (ground arith)
colon-Cuts (c ∷ d ∷ cs) (suc e) h colon =
    let k : suc e - 1 ≡ e = omega arith in rw k (ground (arith, strstr_crlf-Cuts (d ∷ cs) e))
