-- ===== src/Query/Parse.antt =====
-- src/Query.cc: the loop of the constructor over the lines of a request.
use naemon_livestatus.Prelude.{true, false, List, [], ◌∷◌, ◌++◌, Option, none, some, ◌>>=◌}
use naemon_livestatus.Text.{Bytes, codes, lstrip, rstrip, strip_prefix}
use naemon_livestatus.Filter.{and_them, or_them}
use naemon_livestatus.Query.{Query, Core, refuse}
use naemon_livestatus.Query.Headers.{
  parse_limit_line, parse_offset_line, parse_timelimit_line, parse_wait_timeout_line,
  parse_output_format_line, parse_column_headers_line, parse_keep_alive_line,
  parse_response_header_line, parse_separators_line, parse_wait_trigger_line,
  parse_wait_object_line, parse_auth_user_header, parse_localtime_line,
}
use naemon_livestatus.Query.FilterHeaders.{
  parse_filter_line, parse_and_or_line, parse_negate_line, parse_sort_line, parse_columns_line,
}
use naemon_livestatus.Query.StatsHeaders.{
  parse_stats_line, parse_stats_and_or_line, parse_stats_negate_line,
}

-- the headers, in the order in which the constructor looks for them
pub data Header : Type 0 where
  filter_header sort_header or_header and_header negate_header stats_or_header stats_and_header
        stats_negate_header stats_header stats_group_header columns_header column_headers_header
        limit_header offset_header timelimit_header auth_user_header separators_header
        output_format_header response_header_header keep_alive_header wait_condition_header
        wait_condition_and_header wait_condition_or_header wait_condition_negate_header
        wait_trigger_header wait_object_header wait_timeout_header localtime_header :
      Header

abbrev pub header_names : List (Bytes × Header)
header_names =
    (codes "Filter:", filter_header)
    ∷ (codes "Sort:", sort_header)
    ∷ (codes "Or:", or_header)
    ∷ (codes "And:", and_header)
    ∷ (codes "Negate:", negate_header)
    ∷ (codes "StatsOr:", stats_or_header)
    ∷ (codes "StatsAnd:", stats_and_header)
    ∷ (codes "StatsNegate:", stats_negate_header)
    ∷ (codes "Stats:", stats_header)
    ∷ (codes "StatsGroupBy:", stats_group_header)
    ∷ (codes "Columns:", columns_header)
    ∷ (codes "ColumnHeaders:", column_headers_header)
    ∷ (codes "Limit:", limit_header)
    ∷ (codes "Offset:", offset_header)
    ∷ (codes "Timelimit:", timelimit_header)
    ∷ (codes "AuthUser:", auth_user_header)
    ∷ (codes "Separators:", separators_header)
    ∷ (codes "OutputFormat:", output_format_header)
    ∷ (codes "ResponseHeader:", response_header_header)
    ∷ (codes "KeepAlive:", keep_alive_header)
    ∷ (codes "WaitCondition:", wait_condition_header)
    ∷ (codes "WaitConditionAnd:", wait_condition_and_header)
    ∷ (codes "WaitConditionOr:", wait_condition_or_header)
    ∷ (codes "WaitConditionNegate:", wait_condition_negate_header)
    ∷ (codes "WaitTrigger:", wait_trigger_header)
    ∷ (codes "WaitObject:", wait_object_header)
    ∷ (codes "WaitTimeout:", wait_timeout_header)
    ∷ (codes "Localtime:", localtime_header)
    ∷ []

-- the first header that the line begins with, and what follows it
unfoldable pub find_header : List (Bytes × Header) → Bytes → Option (Header × Bytes)
find_header [] line = none
find_header ((name, found) ∷ names) line = elim (strip_prefix name line) [
  | none ↦ find_header names line
  | some rest ↦ some (found, rest)
]

-- a line that is no header ends the loop; an empty one without an error
abbrev pub unknown_header : {Row : Type 0} → Query Row → Bytes → Query Row
unknown_header q [] = q
unknown_header q (c ∷ line) =
    refuse q (codes "Undefined request header '" ++ (c ∷ line) ++ codes "'")

module _ {Row : Type 0} (core : Core) where
  -- the parser of a header; `none` is undefined behaviour
  unfoldable pub parse_header : Query Row → Header → Bytes → Option (Query Row)
  parse_header q filter_header line = some (parse_filter_line q line true)
  parse_header q sort_header line = some (parse_sort_line q line)
  parse_header q or_header line = some (parse_and_or_line q line or_them true)
  parse_header q and_header line = some (parse_and_or_line q line and_them true)
  parse_header q negate_header line = some (parse_negate_line q line true)
  parse_header q stats_or_header line = parse_stats_and_or_line q line or_them
  parse_header q stats_and_header line = parse_stats_and_or_line q line and_them
  parse_header q stats_negate_header line = some (parse_stats_negate_line q line)
  parse_header q stats_header line = some (parse_stats_line q line)
  parse_header q stats_group_header line = parse_columns_line q line
  parse_header q columns_header line = parse_columns_line q line
  parse_header q column_headers_header line = some (parse_column_headers_line q line)
  parse_header q limit_header line = some (parse_limit_line q line)
  parse_header q offset_header line = some (parse_offset_line q line)
  parse_header q timelimit_header line = some (parse_timelimit_line core q line)
  parse_header q auth_user_header line = some (parse_auth_user_header core q line)
  parse_header q separators_header line = some (parse_separators_line q line)
  parse_header q output_format_header line = some (parse_output_format_line q line)
  parse_header q response_header_header line = some (parse_response_header_line q line)
  parse_header q keep_alive_header line = some (parse_keep_alive_line q line)
  parse_header q wait_condition_header line = some (parse_filter_line q line false)
  parse_header q wait_condition_and_header line = some (parse_and_or_line q line and_them false)
  parse_header q wait_condition_or_header line = some (parse_and_or_line q line or_them false)
  parse_header q wait_condition_negate_header line = some (parse_negate_line q line false)
  parse_header q wait_trigger_header line = some (parse_wait_trigger_line q line)
  parse_header q wait_object_header line = some (parse_wait_object_line q line)
  parse_header q wait_timeout_header line = some (parse_wait_timeout_line q line)
  parse_header q localtime_header line = some (parse_localtime_line core q line)

  -- the loop: the query, and the lines that stay in the input buffer
  unfoldable pub parse_lines : Query Row → List Bytes → Option (Query Row × List Bytes)
  parse_lines q [] = some (q, [])
  parse_lines q (line ∷ lines) = elim (find_header header_names (rstrip line)) [
    | none ↦ some (unknown_header q (rstrip line), lines)
    | some (found, rest) ↦ parse_header q found (lstrip rest) >>= (λ q'. parse_lines q' lines)
  ]
