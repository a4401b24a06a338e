-- ===== src/Aggregators.antt =====
-- src/IntAggregator.cc and src/CountAggregator.cc: the statistics of a query over the rows of a group. The
-- sum of the squares and that of the inverses are in floating point and are left out; the sums of
-- 32-bit values stay within the 64 bits of `_aggr`.
pub mod Totals
use naemon_livestatus.Prelude.{
  ℕ, zero, suc, Bool, true, false, List, [], ◌∷◌, Option, none, some, if◌then◌else◌, ◌==◌, ℤ, pos,
  ltb_ℤ, ◌+ℤ◌,
}
use naemon_livestatus.Filter.{Filter, accepts}
use naemon_livestatus.Query.{
  StatsOperation, stats_count, stats_sum, stats_min, stats_max, stats_avg, stats_std, stats_suminv,
  stats_avginv,
}

-- `CountAggregator`
pub record CountAggregator (Row : Type 0) : Type 0 where
  pub filter : Option (Filter Row)
  pub count : ℕ

-- without a filter, every row is accepted
abbrev pub is_counted : {Row : Type 0} → Option (Filter Row) → Row → Bool
is_counted none row = true
is_counted (some f) row = accepts f row

unfoldable pub consume_count : {Row : Type 0} → CountAggregator Row → Row → CountAggregator Row
consume_count a row = if is_counted a.filter row then record a { count = suc a.count } else a

-- `IntAggregator`, on the values of its column
pub record IntAggregator : Type 0 where
  pub operation : StatsOperation
  pub count : ℕ
  pub aggr : ℤ

-- `_aggr` after a value; `count` is already that with the value
unfoldable pub next_aggr : StatsOperation → ℕ → ℤ → ℤ → ℤ
next_aggr stats_sum count aggr value = aggr +ℤ value
next_aggr stats_avg count aggr value = aggr +ℤ value
next_aggr stats_std count aggr value = aggr +ℤ value
next_aggr stats_min count aggr value =
    if count == 1 then value else if ltb_ℤ value aggr then value else aggr
next_aggr stats_max count aggr value =
    if count == 1 then value else if ltb_ℤ aggr value then value else aggr
next_aggr _ count aggr value = aggr

unfoldable pub consume_int : IntAggregator → ℤ → IntAggregator
consume_int a value = record a {
  count = suc a.count;
  aggr = next_aggr a.operation (suc a.count) a.aggr value;
}

-- the calls for the rows of a group
unfoldable pub consume_ints : IntAggregator → List ℤ → IntAggregator
consume_ints a [] = a
consume_ints a (value ∷ values) = consume_ints (consume_int a value) values

unfoldable pub consume_counts :
    {Row : Type 0} → CountAggregator Row → List Row → CountAggregator Row
consume_counts a [] = a
consume_counts a (row ∷ rows) = consume_counts (consume_count a row) rows
