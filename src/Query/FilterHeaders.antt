-- ===== src/Query/FilterHeaders.antt =====
-- src/Query.cc: the headers of a request that build its filters, columns and statistics.
use naemon_livestatus.Prelude.{
  ℕ, ◌+◌, Bool, true, false, not, List, [], ◌∷◌, ◌++◌, Option, none, some, ◌>>=◌, if◌then◌else◌,
  ◌==◌, length, pos_part,
}
use naemon_livestatus.Text.{Bytes, codes, str_equal, next_field, fields, atoi, lstrip, decimal}
use naemon_livestatus.Output.{set_error}
use naemon_livestatus.Filter.{
  Op, equal, regex, equal_icase, regex_icase, greater, less, str_equal_icase, Filter, Filters,
  AndOr, and_them, or_them, add_subfilter, size, combine_filters, negate_last,
}
use naemon_livestatus.Query.{Query, Table, TableColumn, Created, no_filter, failed, created, refuse}
use naemon_livestatus.Query.Headers.{is_bad_number}

-- the rest of `lookupOperator`, behind the `!`: `none` is `OP_INVALID`
unfoldable pub operator_named : Bool → Bytes → Option (Op × Bool)
operator_named negate opname =
    if str_equal opname (codes "=")
    then some (equal, negate)
    else if str_equal opname (codes "~")
    then some (regex, negate)
    else if str_equal opname (codes "=~")
    then some (equal_icase, negate)
    else if str_equal opname (codes "~~")
    then some (regex_icase, negate)
    else if str_equal opname (codes ">")
    then some (greater, negate)
    else if str_equal opname (codes "<")
    then some (less, negate)
    else if str_equal opname (codes ">=")
    then some (less, not negate)
    else if str_equal opname (codes "<=")
    then some (greater, not negate)
    else none

unfoldable pub lookup_operator : Bytes → Option (Op × Bool)
lookup_operator [] = operator_named false []
lookup_operator (c ∷ opname) =
    if c == b'!' then operator_named true opname else operator_named false (c ∷ opname)

-- the column, or a dummy column of that name
abbrev pub column_or_dummy : {Row : Type 0} → Table Row → Bytes → TableColumn Row
column_or_dummy table name = elim (table.column name) [
  | none ↦ table.dummy_column name
  | some column ↦ column
]

abbrev pub and_or_name : AndOr → Bytes
and_or_name and_them = codes "And"
and_or_name or_them = codes "Or"

abbrev pub wait_prefix : Bool → Bytes
wait_prefix true = []
wait_prefix false = codes "WaitCondition"

abbrev pub and_or_upper : AndOr → Bytes
and_or_upper and_them = codes "AND"
and_or_upper or_them = codes "OR"

abbrev pub map_columns : {Row : Type 0} → Table Row → List Bytes → List (TableColumn Row)
map_columns table [] = []
map_columns table (name ∷ names) = column_or_dummy table name ∷ map_columns table names

module _ {Row : Type 0} where
  -- `createFilter`, from what the column made
  unfoldable pub create_filter :
      Query Row → Table Row → Created Row → Query Row × Option (Filter Row)
  create_filter q table no_filter =
      (refuse q (codes "cannot create filter on table " ++ table.name), none)
  create_filter q table (failed code message) =
      let message' = codes "error in Filter header: " ++ message in
      (record q { output = set_error q.output code message' }, none)
  create_filter q table (created f) = (q, some f)

  -- `_filter`, or `_wait_condition`
  unfoldable pub add_filter : Bool → Query Row × Option (Filter Row) → Query Row
  add_filter is_filter (q, none) = q
  add_filter true (q, some f) = record q { filter = add_subfilter q.filter f }
  add_filter false (q, some f) = record q { wait_condition = add_subfilter q.wait_condition f }

  unfoldable pub filter_with :
      Query Row
      → Table Row
      → Bool
      → TableColumn Row
      → Bytes
      → Bytes
      → Option (Op × Bool)
      → Query Row
  filter_with q table is_filter column name line none =
      refuse q (codes "invalid filter operator '" ++ name ++ codes "'")
  filter_with q table is_filter column name line (some (op, negate)) =
      add_filter is_filter (create_filter q table (column.create_filter op negate (lstrip line)))

  unfoldable pub filter_operator :
      Query Row → Table Row → Bool → Bytes → Option Bytes × Bytes → Query Row
  filter_operator q table is_filter column_name (none, line) =
      refuse q
        (codes "invalid filter header: missing operator after table '" ++ column_name ++ codes "'")
  filter_operator q table is_filter column_name (some name, line) =
      filter_with q table is_filter (column_or_dummy table column_name) name line
        (lookup_operator name)

  unfoldable pub filter_column : Query Row → Table Row → Bool → Option Bytes × Bytes → Query Row
  filter_column q table is_filter (none, line) = refuse q (codes "empty filter line")
  filter_column q table is_filter (some column_name, line) =
      filter_operator q table is_filter column_name (next_field line)

  unfoldable pub filter_in : Query Row → Option (Table Row) → Bytes → Bool → Query Row
  filter_in q none line is_filter = q
  filter_in q (some table) line is_filter = filter_column q table is_filter (next_field line)

  unfoldable pub parse_filter_line : Query Row → Bytes → Bool → Query Row
  parse_filter_line q line is_filter = filter_in q q.table line is_filter

  -- `AndingFilter::combineFilters` on the filters, or on the wait condition
  unfoldable pub combined_filter : Query Row → AndOr → ℕ → Option (Filters Row) → Query Row
  combined_filter q andor number (some fs) = record q { filter = fs }
  combined_filter q andor number none =
      let message =
        codes "error in "
        ++ and_or_name andor
        ++ codes " header: Cannot combine "
        ++ decimal number
        ++ codes " filters with '"
        ++ and_or_upper andor
        ++ codes "': only "
        ++ decimal (size q.filter)
        ++ codes " are on stack" in
      record q { output = set_error q.output 400 message }

  -- the message of `_filter`, which is empty, and not that of `_wait_condition`
  unfoldable pub combined_wait : Query Row → AndOr → Option (Filters Row) → Query Row
  combined_wait q andor (some fs) = record q { wait_condition = fs }
  combined_wait q andor none =
      let message = codes "error in WaitCondition" ++ and_or_name andor ++ codes " header: " in
      record q { output = set_error q.output 400 message }

  unfoldable pub combine_value : Query Row → AndOr → Bool → Option Bytes → Query Row
  combine_value q andor is_filter none = refuse q (
      codes "Missing value for "
      ++ wait_prefix is_filter
      ++ and_or_name andor
      ++ codes ": need non-zero integer number")
  combine_value q andor is_filter (some value) =
      let number = pos_part (atoi value) in
      let done =
        if is_filter
        then combined_filter q andor number (combine_filters number andor q.filter)
        else combined_wait q andor (combine_filters number andor q.wait_condition) in
      if is_bad_number value
      then refuse q (
          codes "Invalid value for "
          ++ wait_prefix is_filter
          ++ and_or_name andor
          ++ codes ": need non-negative integer number")
      else done

  unfoldable pub parse_and_or_line : Query Row → Bytes → AndOr → Bool → Query Row
  parse_and_or_line q line andor is_filter = combine_value q andor is_filter (next_field line).0

  unfoldable pub negated : Query Row → Bool → Option (Filters Row) → Query Row
  negated q true none = refuse q (codes "Negate: no Filter: header to negate")
  negated q false none = refuse q (codes "Negate: no Wait:-condition negate")
  negated q true (some fs) = record q { filter = fs }
  negated q false (some fs) = record q { wait_condition = fs }

  unfoldable pub negate_value : Query Row → Bool → Option Bytes → Query Row
  negate_value q true (some value) = refuse q (codes "Negate: does not take any arguments")
  negate_value q false (some value) =
      refuse q (codes "WaitConditionNegate: does not take any arguments")
  negate_value q is_filter none =
      negated q is_filter (negate_last (if is_filter then q.filter else q.wait_condition))

  unfoldable pub parse_negate_line : Query Row → Bytes → Bool → Query Row
  parse_negate_line q line is_filter = negate_value q is_filter (next_field line).0

  unfoldable pub sort_by : Query Row → Table Row → Option Bytes → Option Bytes → Query Row
  sort_by q table none dir = q
  sort_by q table (some name) dir =
      let desc : Bool = elim dir [ none ↦ false | some d ↦ str_equal_icase d (codes "desc") ] in
      record q { sort_columns = q.sort_columns ++ (column_or_dummy table name, desc) ∷ [] }

  unfoldable pub sort_in : Query Row → Option (Table Row) → Bytes → Query Row
  sort_in q none line = q
  sort_in q (some table) line =
      let (column_name, rest) = next_field line in sort_by q table column_name (next_field rest).0

  unfoldable pub parse_sort_line : Query Row → Bytes → Query Row
  parse_sort_line q line = sort_in q q.table line

  abbrev pub with_columns : Query Row → Table Row → List Bytes → Query Row
  with_columns q table names = record q {
    columns = q.columns ++ map_columns table names;
    show_column_headers = false;
  }

  -- the fields of a line are fewer than its bytes and one
  unfoldable pub columns_in : Query Row → Option (Table Row) → Bytes → Option (Query Row)
  columns_in q none line = some q
  columns_in q (some table) line = do
    names ← fields (length line + 1) line
    some (with_columns q table names)

  unfoldable pub parse_columns_line : Query Row → Bytes → Option (Query Row)
  parse_columns_line q line = columns_in q q.table line
