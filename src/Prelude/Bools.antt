-- ===== src/Prelude/Bools.antt =====
-- Lemmas on the Boolean operators.
use mathlib.Core.Path.{◌≡◌, refl, sym}
use mathlib.Core.Logic.{◌⊎◌, inl, inr}
use mathlib.Core.Bool.{Bool, true, false, ◌&&◌, ◌||◌, not, true≢false}

abbrev pub xor : Bool → Bool → Bool
xor true b = not b
xor false b = b

pub xor-false : (b : Bool) → xor b false ≡ b
xor-false true = refl
xor-false false = refl

pub xor-true : (b : Bool) → xor b true ≡ not b
xor-true true = refl
xor-true false = refl

pub and_both : (a b : Bool) → a && b ≡ true → (a ≡ true) × (b ≡ true)
and_both true b e = (refl, e)
and_both false b e = absurd (true≢false (sym e))

pub or_neither : (a b : Bool) → a || b ≡ false → (a ≡ false) × (b ≡ false)
or_neither true b e = absurd (true≢false e)
or_neither false b e = (refl, e)

pub or_either : (a b : Bool) → a || b ≡ true → (a ≡ true) ⊎ (b ≡ true)
or_either true b e = inl refl
or_either false b e = inr e

pub or_true : (b : Bool) → b || true ≡ true
or_true true = refl
or_true false = refl

pub not-true : (b : Bool) → not b ≡ true → b ≡ false
not-true true e = absurd (true≢false (sym e))
not-true false e = refl
