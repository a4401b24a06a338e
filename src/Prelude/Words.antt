-- ===== src/Prelude/Words.antt =====
-- `uint32_t` as a number below 2 ^ 32, its bits, and the operations on them, bit by bit.
use Prim.Native.Nat.{ℕ, zero, suc, ◌+◌, ◌*◌, ◌/◌, ◌%◌, ◌^◌, ◌<◌}
use mathlib.Core.Path.{◌≡◌, refl, ◌∙◌, ap, ap₂}
use mathlib.Core.Bool.{Bool, true, false, ◌&&◌, ◌||◌, not}
use native.Mathlib.Omega.{arith}
use native.Mathlib.Nat.{pow-suc}
use naemon_livestatus.Prelude.Tests.{◌==◌, check_below, check_below_sound}

abbrev pub all_ones : ℕ
all_ones = 0xffff_ffff

-- the bit at a place
unfoldable pub test_bit : ℕ → ℕ → Bool
test_bit m zero = m % 2 == 1
test_bit m (suc k) = test_bit (m / 2) k

abbrev bit : Bool → ℕ
bit true = 1
bit false = 0

-- a bitwise operation on the lowest `n` bits
unfoldable pub bitwise : (Bool → Bool → Bool) → ℕ → ℕ → ℕ → ℕ
bitwise f zero a b = 0
bitwise f (suc n) a b = bitwise f n (a / 2) (b / 2) * 2 + bit (f (a % 2 == 1) (b % 2 == 1))

-- `a & b`, `a | b` and `a & ~b`
abbrev pub and32 : ℕ → ℕ → ℕ
and32 = bitwise (λ x y. x && y) 32

abbrev pub or32 : ℕ → ℕ → ℕ
or32 = bitwise (λ x y. x || y) 32

abbrev pub and_not32 : ℕ → ℕ → ℕ
and_not32 = bitwise (λ x y. x && not y) 32

half_of : (m : ℕ) (b : Bool) → (m * 2 + bit b) / 2 ≡ m
half_of m true = omega arith
half_of m false = omega arith

low_of : (m : ℕ) (b : Bool) → ((m * 2 + bit b) % 2 == 1) ≡ b
low_of m true = ground arith
low_of m false = ground arith

pub test_bit-bitwise :
    (f : Bool → Bool → Bool) (n a b k : ℕ)
    → k < n
    → test_bit (bitwise f n a b) k ≡ f (test_bit a k) (test_bit b k)
unfolding test_bit bitwise
test_bit-bitwise f zero a b k h = absurd (omega arith)
test_bit-bitwise f (suc n) a b zero h = low_of (bitwise f n (a / 2) (b / 2)) _
test_bit-bitwise f (suc n) a b (suc k) h =
    ap (λ m. test_bit m k) (half_of (bitwise f n (a / 2) (b / 2)) _)
    ∙ test_bit-bitwise f n (a / 2) (b / 2) k (omega arith)

pub bitwise_none :
    (f : Bool → Bool → Bool) (n a b : ℕ)
    → ((k : ℕ) → k < n → f (test_bit a k) (test_bit b k) ≡ false)
    → bitwise f n a b ≡ 0
unfolding test_bit bitwise
bitwise_none f zero a b h = refl
bitwise_none f (suc n) a b h =
    let rest = bitwise_none f n (a / 2) (b / 2) (λ k l. h (suc k) (omega arith)) in
    let low = ap bit (h 0 (omega arith)) in ap₂ (λ m l. m * 2 + l) rest low

pub test_bit-zero : (k : ℕ) → test_bit 0 k ≡ false
unfolding test_bit
test_bit-zero zero = refl
test_bit-zero (suc k) = test_bit-zero k

pub test_bit-pow : (r k : ℕ) → test_bit (2 ^ r) k ≡ (r == k)
unfolding test_bit
test_bit-pow zero zero = refl
test_bit-pow zero (suc k) = test_bit-zero k ∙ ground arith
test_bit-pow (suc r) zero =
    let even : 2 ^ suc r % 2 ≡ 0 = omega (arith, pow-suc 2 r) in ground arith
test_bit-pow (suc r) (suc k) =
    let half : 2 ^ suc r / 2 ≡ 2 ^ r = omega (arith, pow-suc 2 r) in
    ap (λ m. test_bit m k) half ∙ test_bit-pow r k ∙ ground arith

all_ones_table : check_below 32 (λ k. test_bit all_ones k) ≡ true
unfolding check_below test_bit
all_ones_table = refl

pub test_bit-all_ones : (k : ℕ) → k < 32 → test_bit all_ones k ≡ true
test_bit-all_ones k h = check_below_sound 32 (test_bit all_ones) k all_ones_table h
