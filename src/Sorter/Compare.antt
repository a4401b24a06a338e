-- ===== src/Sorter/Compare.antt =====
-- `RowSortedSet::compare` and the comparisons of `IntColumn.cc` and `StringColumn.cc`.
use naemon_livestatus.Prelude.{ℤ, pos, neg, if◌then◌else◌, zero}
use naemon_livestatus.Sorter.{SortColumn}

-- a comparison that falls back on another one where it sees no difference
abbrev lex : ℤ → ℤ → ℤ
lex diff rest = elim diff [ pos zero ↦ rest | other ↦ other ]

module _ {ℓ} {Row : Type ℓ} where
  -- the comparison of one sort column, in its direction
  abbrev directed : SortColumn Row → Row → Row → ℤ
  directed c a b = if c.desc then neg (c.compare a b) else c.compare a b
