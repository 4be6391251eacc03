-- ===== src/Replies/Decimal.antt =====
-- The conversions `%d` and `%03d` of `sprintf` for an `int`.
use circ.Base.{ℕ, zero, suc, ◌+◌, ◌-◌, ◌/◌, ◌%◌, ◌^◌, [], ◌∷◌, Bytes, ltb, if◌then◌else◌}

-- Ten digits are enough below 2 ^ 32.
digits_onto : ℕ → ℕ → Bytes → Bytes
digits_onto zero n acc = acc
digits_onto (suc f) n acc =
    let here = (b'0' + n % 10) ∷ acc in
    let more = digits_onto f (n / 10) here in if ltb n 10 then here else more

unfoldable pub decimal : ℕ → Bytes
unfolding digits_onto
decimal n = digits_onto 10 n []

-- A `uint32_t` that is printed as an `int`.
unfoldable pub signed_decimal : ℕ → Bytes
unfolding decimal
signed_decimal n = if ltb n (2 ^ 31) then decimal n else b'-' ∷ decimal (2 ^ 32 - n)

-- `%03d`
unfoldable pub decimal3 : ℕ → Bytes
unfolding decimal
decimal3 n =
    if ltb n 10 then b'0' ∷ b'0' ∷ decimal n else if ltb n 100 then b'0' ∷ decimal n else decimal n
