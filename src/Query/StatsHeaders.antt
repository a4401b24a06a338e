-- ===== src/Query/StatsHeaders.antt =====
-- src/Query.cc: the headers `Stats:`, `StatsAnd:`, `StatsOr:` and `StatsNegate:`.
use naemon_livestatus.Prelude.{
  ℕ, zero, suc, Bool, true, false, List, [], ◌∷◌, ◌++◌, Option, none, some, if◌then◌else◌, pos_part,
}
use naemon_livestatus.Text.{Bytes, codes, str_equal, next_field, atoi, lstrip}
use naemon_livestatus.Sorter.{back, pop_back}
use naemon_livestatus.Filter.{Op, Filter, Filters, nil, negating, AndOr, combined, add_subfilter}
use naemon_livestatus.Query.{
  Query, Table, TableColumn, StatsColumn, counting, aggregating, StatsOperation, stats_count,
  stats_sum, stats_min, stats_max, stats_avg, stats_std, stats_suminv, stats_avginv, refuse,
}
use naemon_livestatus.Query.Headers.{is_bad_number}
use naemon_livestatus.Query.FilterHeaders.{
  lookup_operator, column_or_dummy, create_filter, and_or_name,
}

unfoldable pub stats_operation : Bytes → StatsOperation
stats_operation s =
    if str_equal s (codes "sum")
    then stats_sum
    else if str_equal s (codes "min")
    then stats_min
    else if str_equal s (codes "max")
    then stats_max
    else if str_equal s (codes "avg")
    then stats_avg
    else if str_equal s (codes "std")
    then stats_std
    else if str_equal s (codes "suminv")
    then stats_suminv
    else if str_equal s (codes "avginv")
    then stats_avginv
    else stats_count

-- `operation == STATS_OP_COUNT`
abbrev pub is_count : StatsOperation → Bool
is_count stats_count = true
is_count _ = false

module _ {Row : Type 0} where
  abbrev pub push_stats : Query Row → StatsColumn Row → Query Row
  push_stats q c = record q {
    stats_columns = q.stats_columns ++ c ∷ [];
    show_column_headers = false;
  }

  unfoldable pub stats_filter : TableColumn Row → Query Row × Option (Filter Row) → Query Row
  stats_filter column (q, none) = q
  stats_filter column (q, some f) = push_stats q (counting (some column) f)

  unfoldable pub stats_with :
      Query Row → Table Row → TableColumn Row → Bytes → Bytes → Option (Op × Bool) → Query Row
  stats_with q table column name line none =
      refuse q (codes "invalid stats operator '" ++ name ++ codes "'")
  stats_with q table column name line (some (op, negate)) =
      stats_filter column (create_filter q table (column.create_filter op negate (lstrip line)))

  unfoldable pub stats_operator : Query Row → Table Row → Bytes → Option Bytes × Bytes → Query Row
  stats_operator q table column_name (none, line) =
      refuse q
        (codes "invalid stats header: missing operator after table '" ++ column_name ++ codes "'")
  stats_operator q table column_name (some name, line) =
      stats_with q table (column_or_dummy table column_name) name line (lookup_operator name)

  unfoldable pub stats_aggregate : Query Row → Table Row → StatsOperation → Option Bytes → Query Row
  stats_aggregate q table operation none = refuse q (codes "missing column name in stats header")
  stats_aggregate q table operation (some column_name) =
      push_stats q (aggregating (column_or_dummy table column_name) operation)

  unfoldable pub stats_field : Query Row → Table Row → Option Bytes × Bytes → Query Row
  stats_field q table (none, line) = refuse q (codes "empty stats line")
  stats_field q table (some col_or_op, line) =
      if is_count (stats_operation col_or_op)
      then stats_operator q table col_or_op (next_field line)
      else stats_aggregate q table (stats_operation col_or_op) (next_field line).0

  unfoldable pub stats_in : Query Row → Option (Table Row) → Bytes → Query Row
  stats_in q none line = q
  stats_in q (some table) line = stats_field q table (next_field line)

  unfoldable pub parse_stats_line : Query Row → Bytes → Query Row
  parse_stats_line q line = stats_in q q.table line

  -- the column that stands for the filter `f` alone
  abbrev pub count_column : Filter Row → StatsColumn Row
  count_column f = counting none f

  -- the loop of `parseStatsAndOrLine`, with the subfilters of the new filter; columns that were taken
  -- before an error stay away
  unfoldable pub take_stats :
      Query Row → AndOr → ℕ → List (StatsColumn Row) → Filters Row → Query Row
  take_stats q andor zero columns taken = record q {
    stats_columns = columns ++ count_column (combined andor taken) ∷ [];
  }
  take_stats q andor (suc number) columns taken = elim (back columns) [
    | none ↦
        let q' = record q { stats_columns = columns } in
        refuse q' (
          codes "Invalid count for Stats"
          ++ and_or_name andor
          ++ codes ": too few Stats: headers available")
    | some column ↦ elim column [
      | aggregating _ _ ↦
          let q' = record q { stats_columns = columns } in
          refuse q' (
            codes "Can use Stats"
            ++ and_or_name andor
            ++ codes " only on Stats: headers of filter type")
      | counting _ f ↦ take_stats q andor number (pop_back columns) (add_subfilter taken f)
    ]
  ]

  -- Without a value the code goes on after the error, to `atoi` of a null pointer: `none`.
  unfoldable pub stats_and_or_value : Query Row → AndOr → Option Bytes → Option (Query Row)
  stats_and_or_value q andor none = none
  stats_and_or_value q andor (some value) =
      let done = take_stats q andor (pos_part (atoi value)) q.stats_columns nil in
      if is_bad_number value
      then some (
          refuse q (
            codes "Invalid value for Stats"
            ++ and_or_name andor
            ++ codes ": need non-negative integer number"))
      else some done

  unfoldable pub parse_stats_and_or_line : Query Row → Bytes → AndOr → Option (Query Row)
  parse_stats_and_or_line q line andor = stats_and_or_value q andor (next_field line).0

  unfoldable pub negate_stats : Query Row → Option (StatsColumn Row) → Query Row
  negate_stats q none = refuse q (codes "StatsNegate: no Stats: headers available")
  negate_stats q (some column) = elim column [
    | aggregating _ _ ↦ refuse q (codes "Can use StatsNegate only on Stats: headers of filter type")
    | counting _ f ↦ record q {
      stats_columns = pop_back q.stats_columns ++ count_column (negating f) ∷ [];
    }
  ]

  unfoldable pub stats_negate_value : Query Row → Option Bytes → Query Row
  stats_negate_value q (some value) = refuse q (codes "StatsNegate: does not take any arguments")
  stats_negate_value q none = negate_stats q (back q.stats_columns)

  unfoldable pub parse_stats_negate_line : Query Row → Bytes → Query Row
  parse_stats_negate_line q line = stats_negate_value q (next_field line).0
