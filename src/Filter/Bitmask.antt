-- ===== src/Filter/Bitmask.antt =====
-- `optimizeBitmask`: which bits of the mask a filter leaves.
use mathlib.Core.Bool.{true≢false}
use native.Mathlib.Nat.{pow-suc}
use naemon_livestatus.Prelude.{
  ℕ, zero, suc, ◌+◌, ◌-◌, ◌*◌, ◌/◌, ◌^◌, ◌<◌, ◌≡◌, refl, ap, sym, ◌∙◌, subst, Bool, true, false,
  not, ◌&&◌, Bool-cases, inl, inr, leb, ◌==◌, if◌then◌else◌, arith, pos, and_not32, test_bit,
  test_bit-bitwise, test_bit-pow, check_below, check_below_sound, xor,
}
use naemon_livestatus.Filter.{
  Op, equal, regex, equal_icase, regex_icase, greater, less, accepts_ordered,
}
use naemon_livestatus.Filter.Narrowing.{clear_down, clear_up, optimize_int_at}

clear_at :
    (mask r k : ℕ) → k < 32 → test_bit (and_not32 mask (2 ^ r)) k ≡ test_bit mask k && not (r == k)
clear_at mask r k h =
    test_bit-bitwise _ 32 mask (2 ^ r) k h ∙ ap (λ b. test_bit mask k && not b) (test_bit-pow r k)

pow-pos : (r : ℕ) → 0 < 2 ^ r
pow-pos zero = omega arith
pow-pos (suc r) = omega (arith, pow-suc 2 r, pow-pos r)

below_suc :
    (b : Bool) (r k : ℕ) → (b && not (suc r == k)) && not (leb k r) ≡ b && not (leb k (suc r))
below_suc true r k = ground arith
below_suc false r k = refl

clear_down_zero : (fuel mask : ℕ) → clear_down fuel mask 0 ≡ mask
unfolding clear_down
clear_down_zero zero mask = refl
clear_down_zero (suc fuel) mask = refl

clear_down_step :
    (r fuel mask : ℕ)
    → clear_down (suc fuel) mask (2 ^ r) ≡ clear_down fuel (and_not32 mask (2 ^ r)) (2 ^ r / 2)
unfolding clear_down
clear_down_step r fuel mask =
    let nonzero : (2 ^ r == 0) ≡ false = ground (arith, pow-pos r) in
    ap (λ b. if b then mask else clear_down fuel (and_not32 mask (2 ^ r)) (2 ^ r / 2)) nonzero

half-pow : (r : ℕ) → 2 ^ suc r / 2 ≡ 2 ^ r
half-pow r = omega (arith, pow-suc 2 r)

-- the loop over the falling bits clears them all
clear_down_lem :
    (r fuel mask k : ℕ)
    → r < fuel
    → k < 32
    → test_bit (clear_down fuel mask (2 ^ r)) k ≡ test_bit mask k && not (leb k r)
clear_down_lem r zero mask k f h = absurd (omega arith)
clear_down_lem zero (suc fuel) mask k f h =
    ap (λ m. test_bit m k) (clear_down_step zero fuel mask ∙ clear_down_zero fuel _)
    ∙ clear_at mask zero k h
    ∙ ap (λ b. test_bit mask k && not b) (ground arith)
clear_down_lem (suc r) (suc fuel) mask k f h =
    ap (λ m. test_bit m k)
      (clear_down_step (suc r) fuel mask
        ∙ ap (clear_down fuel (and_not32 mask (2 ^ suc r))) (half-pow r))
    ∙ clear_down_lem r fuel (and_not32 mask (2 ^ suc r)) k (omega arith) h
    ∙ ap (λ b. b && not (leb k r)) (clear_at mask (suc r) k h)
    ∙ below_suc (test_bit mask k) r k

pow_ne_table : check_below 31 (λ r. not (2 ^ r == 2 ^ 31)) ≡ true
unfolding check_below
pow_ne_table = refl

pow_ne_lem : (r : ℕ) → r < 31 → (2 ^ r == 2 ^ 31) ≡ false
pow_ne_lem r h =
    let table = check_below_sound 31 (λ r. not (2 ^ r == 2 ^ 31)) r pow_ne_table h in
    elim (Bool-cases (2 ^ r == 2 ^ 31)) [
      | inl e ↦ absurd (true≢false (sym table ∙ ap not e))
      | inr e ↦ e
    ]

clear_up_step :
    (r fuel mask : ℕ)
    → r < 31
    → clear_up (suc fuel) mask (2 ^ r) ≡ clear_up fuel (and_not32 mask (2 ^ r)) (2 ^ r * 2)
unfolding clear_up
clear_up_step r fuel mask h =
    ap
      (λ b.
        if b then and_not32 mask (2 ^ r) else clear_up fuel (and_not32 mask (2 ^ r)) (2 ^ r * 2))
      (pow_ne_lem r h)

clear_up_last : (fuel mask : ℕ) → clear_up (suc fuel) mask (2 ^ 31) ≡ and_not32 mask (2 ^ 31)
unfolding clear_up
clear_up_last fuel mask = refl

above_suc : (b : Bool) (r k : ℕ) → (b && not (r == k)) && not (leb (suc r) k) ≡ b && not (leb r k)
above_suc true r k = ground arith
above_suc false r k = refl

above_last : (b : Bool) (k : ℕ) → k < 32 → b && not (31 == k) ≡ b && not (leb 31 k)
above_last true k h = ground arith
above_last false k h = refl

-- the loop over the rising bits, with `n` of them after the first
clear_up_lem :
    (n r fuel mask k : ℕ)
    → r + n ≡ 31
    → n < fuel
    → k < 32
    → test_bit (clear_up fuel mask (2 ^ r)) k ≡ test_bit mask k && not (leb r k)
clear_up_lem n r zero mask k e f h = absurd (omega arith)
clear_up_lem zero r (suc fuel) mask k e f h =
    let r_is : 31 ≡ r = omega arith in
    subst (λ r. test_bit (clear_up (suc fuel) mask (2 ^ r)) k ≡ test_bit mask k && not (leb r k))
      r_is
      (ap (λ m. test_bit m k) (clear_up_last fuel mask)
        ∙ clear_at mask 31 k h
        ∙ above_last (test_bit mask k) k h)
clear_up_lem (suc n) r (suc fuel) mask k e f h =
    let doubled : 2 ^ r * 2 ≡ 2 ^ suc r = omega (arith, pow-suc 2 r) in
    ap (λ m. test_bit m k)
      (clear_up_step r fuel mask (omega arith)
        ∙ ap (clear_up fuel (and_not32 mask (2 ^ r))) doubled)
    ∙ clear_up_lem n (suc r) fuel (and_not32 mask (2 ^ r)) k (omega arith) (omega arith) h
    ∙ ap (λ b. b && not (leb (suc r) k)) (clear_at mask r k h)
    ∙ above_suc (test_bit mask k) r k

to_keeps :
    (op : Op) (negate : Bool) (ref v mask : ℕ) {b : Bool}
    → b ≡ xor (accepts_ordered op (pos v) (pos ref)) negate
    → test_bit mask v && b ≡ test_bit mask v && xor (accepts_ordered op (pos v) (pos ref)) negate
to_keeps op negate ref v mask e = ap (λ b. test_bit mask v && b) e

keeps_all : (b : Bool) {c : Bool} → c ≡ true → b ≡ b && c
keeps_all true e = sym e
keeps_all false e = refl

-- For a value and a reference below 32: where the switch of the integer filter returns true, a bit
-- of the new mask is set exactly when it was set before and the filter accepts its value.
pub optimize_int_at-IsExact :
    (op : Op) (negate : Bool) (ref v mask : ℕ)
    → ref < 32
    → v < 32
    → (optimize_int_at op negate ref mask).0 ≡ true
    → test_bit (optimize_int_at op negate ref mask).1 v
      ≡ test_bit mask v && xor (accepts_ordered op (pos v) (pos ref)) negate
unfolding optimize_int_at
optimize_int_at-IsExact equal false ref v mask hr hv done =
    test_bit-bitwise _ 32 mask (2 ^ ref) v hv
    ∙ ap (λ b. test_bit mask v && b) (test_bit-pow ref v)
    ∙ to_keeps equal false ref v mask (ground arith)
optimize_int_at-IsExact equal true ref v mask hr hv done =
    clear_at mask ref v hv ∙ to_keeps equal true ref v mask (ground arith)
optimize_int_at-IsExact less true zero v mask hr hv done =
    ap (λ m. test_bit m v) (clear_down_zero 33 mask) ∙ keeps_all (test_bit mask v) (ground arith)
optimize_int_at-IsExact less true (suc ref) v mask hr hv done =
    ap (λ m. test_bit (clear_down 33 mask m) v) (half-pow ref)
    ∙ clear_down_lem ref 33 mask v (omega arith) hv
    ∙ to_keeps less true (suc ref) v mask (ground arith)
optimize_int_at-IsExact greater false ref v mask hr hv done =
    clear_down_lem ref 33 mask v (omega arith) hv ∙ to_keeps greater false ref v mask (ground arith)
optimize_int_at-IsExact greater true ref v mask hr hv done = elim (Bool-cases (ref == 31)) [
  | inl e ↦
      ap (λ b. test_bit (if b then mask else clear_up 33 mask (2 ^ ref * 2)) v) e
      ∙ keeps_all (test_bit mask v) (ground arith)
  | inr e ↦
      let doubled : 2 ^ ref * 2 ≡ 2 ^ suc ref = omega (arith, pow-suc 2 ref) in
      let small : ref < 31 = ground arith in
      ap (λ b. test_bit (if b then mask else clear_up 33 mask (2 ^ ref * 2)) v) e
      ∙ ap (λ m. test_bit (clear_up 33 mask m) v) doubled
      ∙ clear_up_lem (30 - ref) (suc ref) 33 mask v (omega arith) (omega arith) hv
      ∙ to_keeps greater true ref v mask (ground arith)
]
optimize_int_at-IsExact less false ref v mask hr hv done =
    clear_up_lem (31 - ref) ref 33 mask v (omega arith) (omega arith) hv
    ∙ to_keeps less false ref v mask (ground arith)
optimize_int_at-IsExact regex negate ref v mask hr hv done = absurd (true≢false (sym done))
optimize_int_at-IsExact equal_icase negate ref v mask hr hv done = absurd (true≢false (sym done))
optimize_int_at-IsExact regex_icase negate ref v mask hr hv done = absurd (true≢false (sym done))

-- a case that is not done leaves the mask alone
pub optimize_int_at_skips :
    (op : Op) (negate : Bool) (ref mask : ℕ)
    → (optimize_int_at op negate ref mask).0 ≡ false
    → (optimize_int_at op negate ref mask).1 ≡ mask
unfolding optimize_int_at
optimize_int_at_skips equal false ref mask e = absurd (true≢false e)
optimize_int_at_skips equal true ref mask e = absurd (true≢false e)
optimize_int_at_skips less true ref mask e = absurd (true≢false e)
optimize_int_at_skips less false ref mask e = absurd (true≢false e)
optimize_int_at_skips greater true ref mask e = absurd (true≢false e)
optimize_int_at_skips greater false ref mask e = absurd (true≢false e)
optimize_int_at_skips regex negate ref mask e = refl
optimize_int_at_skips equal_icase negate ref mask e = refl
optimize_int_at_skips regex_icase negate ref mask e = refl
