-- ===== src/Hashtable/Probing.antt =====
-- The sequence of slots that the loops of src/hashtable.c try for a key.
use Prim.Native.Nat.{bit_xor}
use native.Mathlib.Nat.{mod-lt, mod-add-mod, mod-eq_of_lt, add-mul-mod_self_left}
use circ.Base.{
  ℕ, zero, suc, ◌+◌, ◌*◌, ◌%◌, ◌<◌, ◌≡◌, refl, sym, ap, ◌∙◌, [], ◌∷◌, Bytes, c_string, arith,
  Bool-cases, inl, inr, ◌==◌, ==_iff, true,
}
use circ.Hashtable.{djb2_from, djb2a_from, djb2, djb2a, word, first_loc, next_loc}

djb2_from-c_string : (hash : ℕ) (str : Bytes) → djb2_from hash (c_string str) ≡ djb2_from hash str
unfolding djb2_from
djb2_from-c_string hash [] = refl
djb2_from-c_string hash (c ∷ str) = elim (Bool-cases (c == 0)) [
  | inl end ↦ rw end refl
  | inr on ↦ rw (on, on) (djb2_from-c_string (((hash * 32) % word + hash + c) % word) str)
]

djb2a_from-c_string :
    (hash : ℕ) (str : Bytes) → djb2a_from hash (c_string str) ≡ djb2a_from hash str
unfolding djb2a_from
djb2a_from-c_string hash [] = refl
djb2a_from-c_string hash (c ∷ str) = elim (Bool-cases (c == 0)) [
  | inl end ↦ rw end refl
  | inr on ↦ rw (on, on) (djb2a_from-c_string (bit_xor (((hash * 32) % word + hash) % word) c) str)
]

unfoldable pub path : ℕ → Bytes → ℕ → ℕ
path cap key zero = first_loc cap key
path cap key (suc i) = next_loc cap key (path cap key i)

-- The sum that gives the next slot does not wrap.
abbrev pub NoWrap : ℕ → Bytes → Type 0
NoWrap cap key = djb2a key + cap < word

pub path-lt : (cap : ℕ) (key : Bytes) (i : ℕ) → 0 < cap → path cap key i < cap
unfolding path first_loc next_loc
path-lt cap key zero h = mod-lt _ h
path-lt cap key (suc i) h = mod-lt _ h

path_lem :
    (cap : ℕ) (key : Bytes) (i : ℕ)
    → 0 < cap
    → NoWrap cap key
    → path cap key i ≡ (djb2 key + i * (djb2a key + 1)) % cap
unfolding path first_loc next_loc
path_lem cap key zero h room = ap (λ n. n % cap) (omega arith)
path_lem cap key (suc i) h room =
    let low : path cap key i + djb2a key + 1 < word = omega (arith, path-lt cap key i h) in
    ap (λ n. n % cap) (mod-eq_of_lt low)
    ∙ ap (λ n. (n + djb2a key + 1) % cap) (path_lem cap key i h room)
    ∙ ap (λ n. n % cap) (plus_assoc _ (djb2a key))
    ∙ mod-add-mod (djb2 key + i * (djb2a key + 1)) cap (djb2a key + 1)
    ∙ ap (λ n. n % cap) (one_more (djb2 key) i (djb2a key + 1))
  where
    plus_assoc : (n d : ℕ) → n + d + 1 ≡ n + (d + 1)
    plus_assoc n d = omega arith

    one_more : (h i d : ℕ) → h + i * d + d ≡ h + suc i * d
    one_more h i d = grind arith

-- After as many slots as there are, the loops are back at the first one.
pub path-cap :
    (cap : ℕ) (key : Bytes) → 0 < cap → NoWrap cap key → path cap key cap ≡ first_loc cap key
unfolding first_loc
path-cap cap key h room =
    path_lem cap key cap h room ∙ add-mul-mod_self_left (djb2 key) cap (djb2a key + 1)

pub path-back :
    (cap : ℕ) (key : Bytes) (i : ℕ)
    → 0 < cap
    → NoWrap cap key
    → suc i == cap ≡ true
    → path cap key (suc i) == first_loc cap key ≡ true
path-back cap key i h room last =
    (==_iff (path cap key (suc i)) (first_loc cap key)).1
      (ap (path cap key) ((==_iff (suc i) cap).0 last) ∙ path-cap cap key h room)

pub djb2a-c_string : (key : Bytes) → djb2a (c_string key) ≡ djb2a key
unfolding djb2a
djb2a-c_string key = djb2a_from-c_string 5381 key

-- What stands behind the end of the string does not matter.
pub path-c_string : (cap : ℕ) (key : Bytes) (i : ℕ) → path cap (c_string key) i ≡ path cap key i
unfolding path first_loc next_loc djb2 djb2a
path-c_string cap key zero = ap (λ h. h % cap) (djb2_from-c_string 5381 key)
path-c_string cap key (suc i) = rw (path-c_string cap key i, djb2a_from-c_string 5381 key) refl

-- Two buffers that hold the same string.
pub path_same :
    (cap : ℕ) (a b : Bytes) (i : ℕ) → c_string a ≡ c_string b → path cap a i ≡ path cap b i
path_same cap a b i same =
    sym (path-c_string cap a i) ∙ ap (λ k. path cap k i) same ∙ path-c_string cap b i
