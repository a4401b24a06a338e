-- ===== src/Query/Operators.antt =====
-- `lookupOperator`: what the comparisons of a `Filter:` header mean for a column of numbers.
use naemon_livestatus.Prelude.{
  ◌≡◌, refl, Bool, true, false, not, ◌&&◌, some, arith, ℤ, leb_ℤ, ltb_ℤ, xor, xor-false, xor-true,
}
use naemon_livestatus.Text.{Bytes, codes, str_equal}
use naemon_livestatus.Filter.{Op, equal, greater, less, accepts_ordered}
use naemon_livestatus.Query.FilterHeaders.{lookup_operator, operator_named}

-- the comparisons of two numbers, as the documentation of the query language lists them
pub data Comparison : Type 0 where
  is_equal is_unequal is_less is_less_or_equal is_greater is_greater_or_equal : Comparison

abbrev pub written : Comparison → Bytes
written is_equal = codes "="
written is_unequal = codes "!="
written is_less = codes "<"
written is_less_or_equal = codes "<="
written is_greater = codes ">"
written is_greater_or_equal = codes ">="

abbrev pub holds : Comparison → ℤ → ℤ → Bool
holds is_equal a b = leb_ℤ a b && leb_ℤ b a
holds is_unequal a b = not (leb_ℤ a b && leb_ℤ b a)
holds is_less a b = ltb_ℤ a b
holds is_less_or_equal a b = leb_ℤ a b
holds is_greater a b = ltb_ℤ b a
holds is_greater_or_equal a b = leb_ℤ b a

-- Each of =, !=, <, <=, > and >= is found by lookupOperator as an operator with or without a
-- negation, with which a filter of numbers accepts exactly what the comparison says.
lookup_operator-holds :
    (c : Comparison)
    → (op : Op) × (negate : Bool) × (lookup_operator (written c) ≡ some (op, negate))
      × ((a b : ℤ) → xor (accepts_ordered op a b) negate ≡ holds c a b)
unfolding lookup_operator operator_named str_equal
lookup_operator-holds is_equal = (equal, false, refl, λ a b. xor-false _)
lookup_operator-holds is_unequal = (equal, true, refl, λ a b. xor-true _)
lookup_operator-holds is_less = (less, false, refl, λ a b. xor-false _)
lookup_operator-holds is_less_or_equal = (greater, true, refl, λ a b. ground arith)
lookup_operator-holds is_greater = (greater, false, refl, λ a b. xor-false _)
lookup_operator-holds is_greater_or_equal = (less, true, refl, λ a b. ground arith)
