-- ===== src/Text/Numbers.antt =====
-- Decimal numbers as the program prints them.
use naemon_livestatus.Prelude.{
  ℕ, zero, suc, ◌+◌, ◌*◌, ◌/◌, ◌%◌, ◌<◌, ◌≡◌, ap, ◌∙◌, true, false, Bool-cases, inl, inr, ◌∷◌,
  arith, ltb, ◌==◌,
}
use naemon_livestatus.Text.{Bytes, is_digit, is_space, digits_value, decimal_onto}

is_digit_lem : (d : ℕ) → d < 10 → is_digit (b'0' + d) ≡ true
unfolding is_digit
is_digit_lem d h = ground arith

digits_value-digit :
    (v d : ℕ) (acc : Bytes)
    → d < 10
    → digits_value v ((b'0' + d) ∷ acc) ≡ digits_value (10 * v + d) acc
unfolding digits_value
digits_value-digit v d acc h = ground (arith, is_digit_lem d)

-- Reading the digits of `n` onto nothing gives `n`, whatever stands behind them.
pub digits_value-decimal_onto :
    (fuel n : ℕ) (acc : Bytes)
    → n < fuel
    → digits_value 0 (decimal_onto fuel n acc) ≡ digits_value n acc
unfolding decimal_onto
digits_value-decimal_onto zero n acc h = absurd (omega arith)
digits_value-decimal_onto (suc fuel) n acc h = elim (Bool-cases (ltb n 10)) [
  | inl e ↦
      rw e (digits_value-digit 0 n acc (ground arith) ∙ ap (λ k. digits_value k acc) (omega arith))
  | inr e ↦ rw e (
      digits_value-decimal_onto fuel (n / 10) ((b'0' + n % 10) ∷ acc) (ground arith)
      ∙ digits_value-digit (n / 10) (n % 10) acc (omega arith)
      ∙ ap (λ k. digits_value k acc) (omega arith))
]

-- the first byte of a number is a digit
pub decimal_onto_head :
    (fuel n : ℕ) (acc : Bytes)
    → n < fuel
    → (d : ℕ) × (t : Bytes) × (d < 10) × (decimal_onto fuel n acc ≡ (b'0' + d) ∷ t)
unfolding decimal_onto
decimal_onto_head zero n acc h = absurd (omega arith)
decimal_onto_head (suc fuel) n acc h = elim (Bool-cases (ltb n 10)) [
  | inl e ↦ (n, acc, ground arith, rw e)
  | inr e ↦
      let (d, t, less, f) =
        decimal_onto_head fuel (n / 10) ((b'0' + n % 10) ∷ acc) (ground arith) in
      (d, t, less, rw e f)
]

pub digit_lem :
    (d : ℕ)
    → d < 10
    → (is_space (b'0' + d) ≡ false)
      × (((b'0' + d) == b'-') ≡ false)
      × (((b'0' + d) == b'+') ≡ false)
unfolding is_space
digit_lem d h = (ground arith, ground arith, ground arith)
