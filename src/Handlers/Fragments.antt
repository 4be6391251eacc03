-- ===== src/Handlers/Fragments.antt =====
-- `Handler_Motd` of src/handlers.c: the parts into which the message of the day is cut.
use circ.Base.{
  true, false, ℕ, zero, suc, ◌+◌, ◌-◌, ◌*◌, ◌/◌, ◌%◌, ◌≤◌, ◌<◌, ◌≡◌, refl, sym, ap, ◌∙◌, [], ◌∷◌,
  ◌++◌, Bytes, arith, length, length-drop, length-take, take, drop, All, ◌==◌, append-nil,
}
use circ.Handlers.Basic.{motd_fragment_max, num_parts, motd_parts}
use circ.Replies.{concat}

take-drop : (n : ℕ) (s : Bytes) → take n s ++ drop n s ≡ s
take-drop zero s = refl
take-drop (suc n) [] = refl
take-drop (suc n) (c ∷ s) = ap (◌∷◌ c) (take-drop n s)

take-nil : (m : ℕ) → take {A = ℕ} m [] ≡ []
take-nil zero = refl
take-nil (suc m) = refl

take-all : (n : ℕ) (s : Bytes) → length s ≤ n → take n s ≡ s
take-all zero [] h = refl
take-all zero (c ∷ s) h = absurd (omega arith)
take-all (suc n) [] h = refl
take-all (suc n) (c ∷ s) h = ap (◌∷◌ c) (take-all n s (omega arith))

take-add : (n m : ℕ) (s : Bytes) → take (n + m) s ≡ take n s ++ take m (drop n s)
take-add zero m s = let e : 0 + m ≡ m = omega arith in ap (λ k. take k s) e
take-add (suc n) m [] = let e : suc n + m ≡ suc (n + m) = omega arith in rw e (sym (take-nil m))
take-add (suc n) m (c ∷ s) =
    let e : suc n + m ≡ suc (n + m) = omega arith in rw e (ap (◌∷◌ c) (take-add n m s))

parts-concat :
    (n len : ℕ) (rest : Bytes)
    → length rest ≡ n * 80 + len % 80
    → concat (motd_parts (suc n) len rest) ≡ rest
unfolding motd_parts
parts-concat zero len rest h =
    append-nil _
    ∙ ap (take (len % 80)) (take-all 80 rest (omega arith))
    ∙ take-all (len % 80) rest (omega arith)
parts-concat (suc n) len rest h =
    let shorter : length (drop 80 rest) ≡ n * 80 + len % 80 = omega (arith, length-drop 80 rest) in
    let more : suc n == 0 ≡ false = ground arith in
    rw more
      (ap (◌++◌ (take 80 rest)) (parts-concat n len (drop 80 rest) shorter) ∙ take-drop 80 rest)

parts-All :
    (n len : ℕ) (rest : Bytes)
    → All (λ part. length part ≤ motd_fragment_max) (motd_parts n len rest)
unfolding motd_parts
parts-All zero len rest = tt
parts-All (suc zero) len rest =
    (omega (arith, length-take (len % 80) (take 80 rest), length-take 80 rest), tt)
parts-All (suc (suc n)) len rest =
    let more : suc n == 0 ≡ false = ground arith in
    (rw more (omega (arith, length-take 80 rest)), parts-All (suc n) len (drop 80 rest))

-- Where the length of the message of the day is not a multiple of 80, the parts that MOTD sends
-- are, one after the other, the message; none has more than 80 bytes.
pub motd_parts-concat :
    (motd : Bytes)
    → 0 < length motd % motd_fragment_max
    → let parts = motd_parts (num_parts (length motd)) (length motd) motd in
      (concat parts ≡ motd) × All (λ part. length part ≤ motd_fragment_max) parts
unfolding num_parts
motd_parts-concat motd h =
    let apart : length motd % 80 == 0 ≡ false = ground arith in
    let count : num_parts (length motd) ≡ suc (length motd / 80) = rw apart (omega arith) in
    (
      rw count (parts-concat (length motd / 80) (length motd) motd (omega arith)),
      parts-All _ (length motd) motd,
    )

parts-lost :
    (n len : ℕ) (rest : Bytes)
    → len % 80 ≡ 0
    → concat (motd_parts (suc n) len rest) ≡ take (n * 80) rest
unfolding motd_parts
parts-lost zero len rest h = rw h refl
parts-lost (suc n) len rest h =
    let more : suc n == 0 ≡ false = ground arith in
    let e : suc n * 80 ≡ 80 + n * 80 = omega arith in
    rw more (
      ap (◌++◌ (take 80 rest)) (parts-lost n len (drop 80 rest) h)
      ∙ sym (ap (λ k. take k rest) e ∙ take-add 80 (n * 80) rest))

-- Where the length is a positive multiple of 80, the last 80 bytes are not in the parts.
pub motd_parts-lost :
    (motd : Bytes)
    → 0 < length motd
    → length motd % motd_fragment_max ≡ 0
    → concat (motd_parts (num_parts (length motd)) (length motd) motd)
      ≡ take (length motd - motd_fragment_max) motd
unfolding num_parts
motd_parts-lost motd filled h =
    let whole : length motd % 80 == 0 ≡ true = ground arith in
    let count : num_parts (length motd) ≡ suc (length motd / 80 - 1) = rw whole (omega arith) in
    let e : (length motd / 80 - 1) * 80 ≡ length motd - 80 = omega arith in
    rw count (parts-lost (length motd / 80 - 1) (length motd) motd h ∙ ap (λ k. take k motd) e)
