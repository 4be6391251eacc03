-- ===== src/Hashtable/Primes.antt =====
-- `is_prime` and `next_prime` of src/hashtable.c.
use native.Mathlib.Nat.{div-add-mod, mul-mod_left, mul-le-mul}
use circ.Base.{
  ℕ, zero, suc, ◌+◌, ◌*◌, ◌/◌, ◌%◌, ◌<◌, ◌≤◌, ◌≡◌, ◌≢◌, ◌↔◌, refl, sym, ap, ◌∙◌, subst, inl, inr,
  true, false, some, some_inj, none_absurd, arith, Bool-cases, ◌==◌, ==_iff, leb,
}
use circ.Hashtable.{word, is_prime_from, is_prime, next_prime}

-- Nothing between 1 and `x` divides `x`.
abbrev pub Undivided : ℕ → Type 0
Undivided x = (d : ℕ) → 2 ≤ d → d < x → x % d ≢ 0

no_divisor :
    (n x root i : ℕ)
    → root < i + n
    → is_prime_from n x root i ≡ true
    → (d : ℕ) → i ≤ d
    → d ≤ root
    → x % d ≡ 0
    → ⊥
unfolding is_prime_from
no_divisor zero x root i enough e d low high divides = absurd (omega arith)
no_divisor (suc n) x root i enough e d low high divides = elim (Bool-cases (leb i root)) [
  | inr out ↦ ground (arith, out)
  | inl more ↦ elim (Bool-cases (x % i == 0)) [
    | inl found ↦ ground (arith, e, more, found)
    | inr not_i ↦ elim (Bool-cases (i == d)) [
      | inl same ↦ ground (arith, ap (λ k. x % k) ((==_iff i d).0 same), divides, not_i)
      | inr other ↦
          no_divisor n x root (i + 1) (omega arith) (rw (more, not_i) at e) d (ground arith) high
            divides
    ]
  ]
]

some_divisor :
    (n x root i : ℕ)
    → is_prime_from n x root i ≡ false
    → (d : ℕ) × (i ≤ d) × (d ≤ root) × (x % d ≡ 0)
unfolding is_prime_from
some_divisor zero x root i e = absurd (ground (arith, e))
some_divisor (suc n) x root i e = elim (Bool-cases (leb i root)) [
  | inr out ↦ absurd (ground (arith, e, out))
  | inl more ↦ elim (Bool-cases (x % i == 0)) [
    | inl found ↦ (i, omega arith, ground arith, (==_iff (x % i) 0).0 found)
    | inr not_i ↦
        let (d, low, high, divides) = some_divisor n x root (i + 1) (rw (more, not_i) at e) in
        (d, omega arith, high, divides)
  ]
]

-- Of two numbers beyond the root the product is too large.
beyond_root : (x root d q : ℕ) → x < (root + 1) * (root + 1) → d * q ≡ x → root < d → root < q → ⊥
beyond_root x root d q low product hd hq = absurd (
    omega (
      arith,
      low,
      product,
      mul-le-mul {n₁ = root + 1} {m₁ = root + 1} {n₂ = d} {m₂ = q} (omega arith) (omega arith),
    ))

-- The cofactor of a divisor beyond the root.
cofactor :
    (x root d : ℕ)
    → x < (root + 1) * (root + 1)
    → x % d ≡ 0
    → root < d
    → 2 ≤ d
    → d < x
    → (q : ℕ) × (2 ≤ q) × (q ≤ root) × (x % q ≡ 0)
cofactor x root d low divides over two proper =
    let q = x / d in
    let product : d * q ≡ x = omega (arith, div-add-mod x d, divides) in
    (
      q,
      at_least_two q product,
      elim (Bool-cases (leb q root)) [
        | inl small ↦ ground arith
        | inr large ↦ absurd (beyond_root x root d q low product over (ground arith))
      ],
      ap (λ y. y % q) (sym product) ∙ mul-mod_left d q,
    )
  where
    at_least_two : (q : ℕ) → d * q ≡ x → 2 ≤ q
    at_least_two zero product = absurd (omega (arith, product))
    at_least_two (suc zero) product = absurd (omega (arith, product, proper))
    at_least_two (suc (suc q)) product = omega arith

-- If `floor(sqrt(x))` is exact at `x`, at least 2, then `is_prime` says whether nothing between 1
-- and `x` divides it.
pub is_prime_lem :
    (floor_sqrt : ℕ → ℕ) (x : ℕ)
    → 2 ≤ x
    → floor_sqrt x * floor_sqrt x ≤ x
    → x < (floor_sqrt x + 1) * (floor_sqrt x + 1)
    → (is_prime floor_sqrt x ≡ true) ↔ Undivided x
unfolding is_prime
is_prime_lem floor_sqrt x two below above =
    let root = floor_sqrt x in
    let not_zero : x == 0 ≡ false = ground arith in
    let not_one : x == 1 ≡ false = ground arith in
    (
      λ prime d low high divides.
          let loop : is_prime_from root x root 2 ≡ true = rw (not_zero, not_one) at prime in
          let none_below = no_divisor root x root 2 (omega arith) loop in
          elim (Bool-cases (leb d root)) [
            | inl inside ↦ none_below d low (ground arith) divides
            | inr beyond ↦
                let (q, low', high', divides') =
                  cofactor x root d above divides (ground arith) low high in
                none_below q low' high' divides'
          ],
      λ undivided. elim (Bool-cases (is_prime floor_sqrt x)) [
        | inl prime ↦ prime
        | inr composite ↦
            let loop : is_prime_from root x root 2 ≡ false = rw (not_zero, not_one) at composite in
            let (d, low, high, divides) = some_divisor root x root 2 loop in
            absurd (undivided d low (below_square root d x below low high) divides)
      ],
    )
  where
    below_square : (root d x : ℕ) → root * root ≤ x → 2 ≤ d → d ≤ root → d < x
    below_square root d x below low high = omega (
      arith,
      below,
      low,
      high,
      mul-le-mul {n₁ = 2} {m₁ = root} {n₂ = root} {m₂ = root} (omega arith) (omega arith),
    )

zero_composite : (floor_sqrt : ℕ → ℕ) → is_prime floor_sqrt 0 ≡ false
unfolding is_prime
zero_composite floor_sqrt = refl

-- `next_prime` gives a number that is at least 1 and fits in a word, if it starts with one that does.
pub next_prime_bounds :
    (floor_sqrt : ℕ → ℕ) (n start : ℕ) {cap : ℕ}
    → start < word
    → next_prime floor_sqrt n start ≡ some cap
    → (0 < cap) × (cap < word)
unfolding next_prime
next_prime_bounds floor_sqrt zero start low e = none_absurd e
next_prime_bounds floor_sqrt (suc n) start {cap} low e =
    elim (Bool-cases (is_prime floor_sqrt start)) [
      | inl prime ↦
          let at : start ≡ cap = some_inj.0 (rw prime at e) in
          (positive start cap at prime, omega (arith, at, low))
      | inr composite ↦
          next_prime_bounds floor_sqrt n ((start + 1) % word) (omega arith) (rw composite at e)
    ]
  where
    positive : (start cap : ℕ) → start ≡ cap → is_prime floor_sqrt start ≡ true → 0 < cap
    positive zero cap at prime = absurd (ground (arith, prime, zero_composite floor_sqrt))
    positive (suc k) cap at prime = omega (arith, at)

-- If `next_prime` returns within rounds that do not take it to the end of a word, then what it
-- returns is the least number from its start on that `is_prime` accepts.
pub next_prime_lem :
    (floor_sqrt : ℕ → ℕ) (n start : ℕ) {p : ℕ}
    → start + n < word
    → next_prime floor_sqrt n start ≡ some p
    → (start ≤ p)
      × (is_prime floor_sqrt p ≡ true)
      × ((k : ℕ) → start ≤ k → k < p → is_prime floor_sqrt k ≡ false)
unfolding next_prime
next_prime_lem floor_sqrt zero start room e = none_absurd e
next_prime_lem floor_sqrt (suc n) start {p} room e = elim (Bool-cases (is_prime floor_sqrt start)) [
  | inl prime ↦
      let at : start ≡ p = some_inj.0 (rw prime at e) in
      (
        omega (arith, at),
        subst (λ k. is_prime floor_sqrt k ≡ true) at prime,
        λ k low high. absurd (omega (arith, at, low, high)),
      )
  | inr composite ↦
      let step : (start + 1) % word ≡ start + 1 = omega (arith, room) in
      let (low, prime, least) =
        next_prime_lem floor_sqrt n (start + 1) (omega (arith, room)) (rw (composite, step) at e) in
      (
        omega (arith, low),
        prime,
        λ k from below. elim (Bool-cases (start == k)) [
          | inl here ↦
              subst (λ j. is_prime floor_sqrt j ≡ false) ((==_iff start k).0 here) composite
          | inr beyond ↦ least k (ground arith) below
        ],
      )
]
