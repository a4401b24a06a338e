-- ===== src/Query/Steps.antt =====
-- Every header of a request keeps a query valid, and an error in it.
use naemon_livestatus.Prelude.{ℕ, refl, Bool, true, false, Option, none, some}
use naemon_livestatus.Text.{Bytes, lstrip}
use naemon_livestatus.Filter.{Op, Filter, Filters, AndOr}
use naemon_livestatus.Query.{Query, Table, TableColumn, Created, no_filter, failed, created}
use naemon_livestatus.Query.Headers.{is_bad_number}
use naemon_livestatus.Query.FilterHeaders.{
  create_filter, add_filter, filter_with, filter_operator, filter_column, filter_in,
  combined_filter, combined_wait, combine_value, negated, negate_value, sort_by, sort_in,
}
use naemon_livestatus.Query.StatsHeaders.{
  is_count, stats_operation, stats_filter, stats_with, stats_operator, stats_aggregate, stats_field,
  stats_in,
}
use naemon_livestatus.Query.Valid.{Step, step_if, step_self, step_error, step_refuse}

module _ {Row : Type 0} (q : Query Row) where
  created_step : (table : Table Row) (c : Created Row) → Step q (create_filter q table c).0
  unfolding create_filter
  created_step table no_filter = step_refuse q _
  created_step table (failed code message) = step_error q code _
  created_step table (created f) = step_self q

  add_step :
      (is_filter : Bool) (q' : Query Row) (f : Option (Filter Row))
      → Step q q'
      → Step q (add_filter is_filter (q', f))
  unfolding add_filter
  add_step true q' none s = s
  add_step false q' none s = s
  add_step true q' (some f) s = record { valid = s.valid; keeps = s.keeps }
  add_step false q' (some f) s = record { valid = s.valid; keeps = s.keeps }

  with_step :
      (table : Table Row) (is_filter : Bool) (column : TableColumn Row) (name line : Bytes)
      (op : Option (Op × Bool))
      → Step q (filter_with q table is_filter column name line op)
  unfolding filter_with
  with_step table is_filter column name line none = step_refuse q _
  with_step table is_filter column name line (some (op, negate)) =
      add_step is_filter _ _ (created_step table (column.create_filter op negate (lstrip line)))

  operator_step :
      (table : Table Row) (is_filter : Bool) (name : Bytes) (field : Option Bytes × Bytes)
      → Step q (filter_operator q table is_filter name field)
  unfolding filter_operator
  operator_step table is_filter name (none, line) = step_refuse q _
  operator_step table is_filter name (some opname, line) = with_step table is_filter _ opname line _

  column_step :
      (table : Table Row) (is_filter : Bool) (field : Option Bytes × Bytes)
      → Step q (filter_column q table is_filter field)
  unfolding filter_column
  column_step table is_filter (none, line) = step_refuse q _
  column_step table is_filter (some name, line) = operator_step table is_filter name _

  pub filter_step :
      (table : Option (Table Row)) (line : Bytes) (is_filter : Bool)
      → Step q (filter_in q table line is_filter)
  unfolding filter_in
  filter_step none line is_filter = step_self q
  filter_step (some table) line is_filter = column_step table is_filter _

  combined_filter_step :
      (andor : AndOr) (n : ℕ) (fs : Option (Filters Row)) → Step q (combined_filter q andor n fs)
  unfolding combined_filter
  combined_filter_step andor n none = step_error q _ _
  combined_filter_step andor n (some fs) = record { valid = λ v. v; keeps = λ e. (refl, refl) }

  combined_wait_step :
      (andor : AndOr) (fs : Option (Filters Row)) → Step q (combined_wait q andor fs)
  unfolding combined_wait
  combined_wait_step andor none = step_error q _ _
  combined_wait_step andor (some fs) = record { valid = λ v. v; keeps = λ e. (refl, refl) }

  pub and_or_step :
      (andor : AndOr) (is_filter : Bool) (value : Option Bytes)
      → Step q (combine_value q andor is_filter value)
  unfolding combine_value
  and_or_step andor is_filter none = step_refuse q _
  and_or_step andor is_filter (some value) =
      step_if (is_bad_number value) (step_refuse q _)
        (step_if is_filter (combined_filter_step andor _ _) (combined_wait_step andor _))

  negated_step : (is_filter : Bool) (fs : Option (Filters Row)) → Step q (negated q is_filter fs)
  unfolding negated
  negated_step true none = step_refuse q _
  negated_step false none = step_refuse q _
  negated_step true (some fs) = record { valid = λ v. v; keeps = λ e. (refl, refl) }
  negated_step false (some fs) = record { valid = λ v. v; keeps = λ e. (refl, refl) }

  pub negate_step :
      (is_filter : Bool) (value : Option Bytes) → Step q (negate_value q is_filter value)
  unfolding negate_value
  negate_step true (some value) = step_refuse q _
  negate_step false (some value) = step_refuse q _
  negate_step true none = negated_step true _
  negate_step false none = negated_step false _

  sort_by_step : (table : Table Row) (name dir : Option Bytes) → Step q (sort_by q table name dir)
  unfolding sort_by
  sort_by_step table none dir = step_self q
  sort_by_step table (some name) dir = record { valid = λ v. v; keeps = λ e. (refl, refl) }

  pub sort_step : (table : Option (Table Row)) (line : Bytes) → Step q (sort_in q table line)
  unfolding sort_in
  sort_step none line = step_self q
  sort_step (some table) line = sort_by_step table _ _

  stats_filter_step :
      (column : TableColumn Row) (q' : Query Row) (f : Option (Filter Row))
      → Step q q'
      → Step q (stats_filter column (q', f))
  unfolding stats_filter
  stats_filter_step column q' none s = s
  stats_filter_step column q' (some f) s = record { valid = s.valid; keeps = s.keeps }

  stats_with_step :
      (table : Table Row) (column : TableColumn Row) (name line : Bytes) (op : Option (Op × Bool))
      → Step q (stats_with q table column name line op)
  unfolding stats_with
  stats_with_step table column name line none = step_refuse q _
  stats_with_step table column name line (some (op, negate)) =
      stats_filter_step column _ _
        (created_step table (column.create_filter op negate (lstrip line)))

  stats_operator_step :
      (table : Table Row) (name : Bytes) (field : Option Bytes × Bytes)
      → Step q (stats_operator q table name field)
  unfolding stats_operator
  stats_operator_step table name (none, line) = step_refuse q _
  stats_operator_step table name (some opname, line) = stats_with_step table _ opname line _

  stats_aggregate_step :
      (table : Table Row) (name : Option Bytes) (word : Bytes)
      → Step q (stats_aggregate q table (stats_operation word) name)
  unfolding stats_aggregate
  stats_aggregate_step table none word = step_refuse q _
  stats_aggregate_step table (some name) word = record { valid = λ v. v; keeps = λ e. (refl, refl) }

  stats_field_step :
      (table : Table Row) (field : Option Bytes × Bytes) → Step q (stats_field q table field)
  unfolding stats_field
  stats_field_step table (none, line) = step_refuse q _
  stats_field_step table (some word, line) =
      step_if (is_count (stats_operation word)) (stats_operator_step table word _)
        (stats_aggregate_step table _ word)

  pub stats_step : (table : Option (Table Row)) (line : Bytes) → Step q (stats_in q table line)
  unfolding stats_in
  stats_step none line = step_self q
  stats_step (some table) line = stats_field_step table _
