-- ===== src/Query/Answered.antt =====
-- src/Query.cc: which lines of a request the constructor can read, as `StatsOr:` and `StatsAnd:` without a
-- value lead to `atoi` of a null pointer.
use naemon_livestatus.Prelude.{
  IsSome, if-IsSome, bind-IsSome, ◌+◌, Bool, true, false, ◌||◌, List, [], ◌∷◌, Option, none, some,
  ◌≡◌, refl, length, arith, Option-cases, inl, inr, or_neither,
}
use mathlib.Core.Bool.{true≢false}
use naemon_livestatus.Text.{Bytes, lstrip, rstrip, next_field, fields}
use naemon_livestatus.Text.Fuel.{fields-some}
use naemon_livestatus.Filter.{AndOr, and_them, or_them}
use naemon_livestatus.Query.{Query, Core, Table}
use naemon_livestatus.Query.FilterHeaders.{columns_in, parse_columns_line}
use naemon_livestatus.Query.StatsHeaders.{stats_and_or_value, parse_stats_and_or_line}
use naemon_livestatus.Query.Parse
use naemon_livestatus.Query.Parse.{Header, find_header, header_names, parse_header, parse_lines}

-- whether there is no field
abbrev no_field : Option Bytes → Bool
no_field none = true
no_field (some field) = false

-- a `StatsOr:` or `StatsAnd:` without a value
unfoldable pub lacks_value : Header → Bytes → Bool
lacks_value Parse.stats_or_header line = no_field (next_field line).0
lacks_value Parse.stats_and_header line = no_field (next_field line).0
lacks_value found line = false

-- such a line among those that are looked at
unfoldable pub has_bare_stats : List Bytes → Bool
has_bare_stats [] = false
has_bare_stats (line ∷ lines) = elim (find_header header_names (rstrip line)) [
  | none ↦ false
  | some (found, rest) ↦ lacks_value found (lstrip rest) || has_bare_stats lines
]

module _ {Row : Type 0} (q : Query Row) where
  columns-IsSome : (table : Option (Table Row)) (line : Bytes) → IsSome (columns_in q table line)
  unfolding columns_in
  columns-IsSome none line = (q, refl)
  columns-IsSome (some table) line =
      bind-IsSome (fields (length line + 1) line) _
        (fields-some (length line + 1) line (omega arith)) (λ names. (_, refl))

  stats-IsSome :
      (andor : AndOr) (value : Option Bytes)
      → no_field value ≡ false
      → IsSome (stats_and_or_value q andor value)
  unfolding stats_and_or_value
  stats-IsSome andor none e = absurd (true≢false e)
  stats-IsSome andor (some value) e = if-IsSome _ (_, refl) (_, refl)

  header-IsSome :
      (core : Core) (found : Header) (line : Bytes)
      → lacks_value found line ≡ false
      → IsSome (parse_header core q found line)
  unfolding parse_header parse_columns_line parse_stats_and_or_line lacks_value
  header-IsSome core Parse.stats_or_header line e = stats-IsSome or_them (next_field line).0 e
  header-IsSome core Parse.stats_and_header line e = stats-IsSome and_them (next_field line).0 e
  header-IsSome core Parse.stats_group_header line e = columns-IsSome q.table line
  header-IsSome core Parse.columns_header line e = columns-IsSome q.table line
  header-IsSome core Parse.filter_header line e = (_, refl)
  header-IsSome core Parse.sort_header line e = (_, refl)
  header-IsSome core Parse.or_header line e = (_, refl)
  header-IsSome core Parse.and_header line e = (_, refl)
  header-IsSome core Parse.negate_header line e = (_, refl)
  header-IsSome core Parse.stats_negate_header line e = (_, refl)
  header-IsSome core Parse.stats_header line e = (_, refl)
  header-IsSome core Parse.column_headers_header line e = (_, refl)
  header-IsSome core Parse.limit_header line e = (_, refl)
  header-IsSome core Parse.offset_header line e = (_, refl)
  header-IsSome core Parse.timelimit_header line e = (_, refl)
  header-IsSome core Parse.auth_user_header line e = (_, refl)
  header-IsSome core Parse.separators_header line e = (_, refl)
  header-IsSome core Parse.output_format_header line e = (_, refl)
  header-IsSome core Parse.response_header_header line e = (_, refl)
  header-IsSome core Parse.keep_alive_header line e = (_, refl)
  header-IsSome core Parse.wait_condition_header line e = (_, refl)
  header-IsSome core Parse.wait_condition_and_header line e = (_, refl)
  header-IsSome core Parse.wait_condition_or_header line e = (_, refl)
  header-IsSome core Parse.wait_condition_negate_header line e = (_, refl)
  header-IsSome core Parse.wait_trigger_header line e = (_, refl)
  header-IsSome core Parse.wait_object_header line e = (_, refl)
  header-IsSome core Parse.wait_timeout_header line e = (_, refl)
  header-IsSome core Parse.localtime_header line e = (_, refl)

module _ {Row : Type 0} (core : Core) where
  pub lines-IsSome :
      (q : Query Row) (lines : List Bytes)
      → has_bare_stats lines ≡ false
      → IsSome (parse_lines core q lines)
  unfolding parse_lines has_bare_stats
  lines-IsSome q [] e = (_, refl)
  lines-IsSome q (line ∷ lines) e = elim (Option-cases (find_header header_names (rstrip line))) [
    | inl n ↦ rw (n, parse_lines) (_, refl)
    | inr ((found, rest), h) ↦
        let (value, more) =
          or_neither (lacks_value found (lstrip rest)) (has_bare_stats lines)
            (rw (h, has_bare_stats) at e) in
        rw (h, parse_lines)
          (bind-IsSome (parse_header core q found (lstrip rest)) _
            (header-IsSome q core found (lstrip rest) value) (λ q'. lines-IsSome q' lines more))
  ]
