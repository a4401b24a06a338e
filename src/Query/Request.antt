-- ===== src/Query/Request.antt =====
-- The whole of a request keeps the query valid, and its first error.
use naemon_livestatus.Prelude.{
  ℕ, zero, suc, ◌≡◌, refl, ap, sym, ◌∙◌, subst, Bool, true, false, not, List, [], ◌∷◌, Option, none,
  some, ◌>>=◌, if◌then◌else◌, Option-cases, inl, inr,
}
use mathlib.Core.Option.{some_inj, none-ne-some}
use naemon_livestatus.Text.{Bytes, lstrip, rstrip}
use naemon_livestatus.Output.{OutputBuffer, has_error, is_empty}
use naemon_livestatus.Filter.{Filters, AndOr, and_them, or_them}
use naemon_livestatus.Sorter.{back}
use naemon_livestatus.Query.{Query, Core, Table, StatsColumn, counting, aggregating, new}
use naemon_livestatus.Query.Headers.{
  is_bad_number, parse_limit_line, parse_offset_line, parse_timelimit_line, parse_wait_timeout_line,
  parse_output_format_line, parse_column_headers_line, parse_keep_alive_line,
  parse_response_header_line, parse_wait_trigger_line, parse_wait_object_line,
  parse_auth_user_header, parse_localtime_line,
}
use naemon_livestatus.Query.FilterHeaders.{
  parse_filter_line, parse_and_or_line, parse_negate_line, parse_sort_line, columns_in,
  parse_columns_line, with_columns,
}
use naemon_livestatus.Query.StatsHeaders.{
  parse_stats_line, take_stats, stats_and_or_value, parse_stats_and_or_line, negate_stats,
  stats_negate_value, parse_stats_negate_line,
}
use naemon_livestatus.Query.Parse
use naemon_livestatus.Query.Parse.{
  Header, find_header, header_names, parse_header, unknown_header, parse_lines,
}
use naemon_livestatus.Query.Valid.{
  IsValid, Step, set_error-Keeps, step_self, step_refuse, limit_step, offset_step,
  wait_timeout_step, timelimit_step, localtime_step, separators_step, output_format_step,
  column_headers_step, keep_alive_step, response_header_step, wait_trigger_step, wait_object_step,
  auth_user_step,
}
use naemon_livestatus.Query.Steps.{filter_step, and_or_step, negate_step, sort_step, stats_step}

step_trans : {Row : Type 0} {q q' q'' : Query Row} → Step q q' → Step q' q'' → Step q q''
step_trans {q = q} {q' = q'} s t = record {
  valid = λ v. t.valid (s.valid v);
  keeps = λ e.
      let first = s.keeps e in
      let second = t.keeps (ap (λ m. not (is_empty m)) first.0 ∙ e) in
      (second.0 ∙ first.0, second.1 ∙ first.1);
}

-- the same for a parser that may not return
record StepTo {Row : Type 0} (q : Query Row) (r : Option (Query Row)) : Type 0 where
  step : (q' : Query Row) → r ≡ some q' → Step q q'

step_to : {Row : Type 0} (q x : Query Row) → Step q x → StepTo q (some x)
step_to q x s = record { step = λ q' e. subst (Step q) (some_inj.0 e) s }

none-StepTo : {Row : Type 0} (q : Query Row) → StepTo q none
none-StepTo q = record { step = λ q' e. absurd (none-ne-some _ e) }

if-StepTo :
    {Row : Type 0} {q : Query Row} {x y : Option (Query Row)} (b : Bool)
    → StepTo q x
    → StepTo q y
    → StepTo q (if b then x else y)
if-StepTo true s t = s
if-StepTo false s t = t

module _ {Row : Type 0} (q : Query Row) where
  take_some :
      (andor : AndOr) (number : ℕ) (columns : List (StatsColumn Row)) (taken : Filters Row)
      (c : StatsColumn Row)
      → back columns ≡ some c
      → ((columns : List (StatsColumn Row)) (taken : Filters Row)
          → Step q (take_stats q andor number columns taken))
      → Step q (take_stats q andor (suc number) columns taken)
  unfolding take_stats
  take_some andor number columns taken (counting column f) e ih = rw (e, take_stats) (ih _ _)
  take_some andor number columns taken (aggregating column o) e ih =
      rw (e, take_stats) (record { valid = λ v. v; keeps = set_error-Keeps q.output _ _ })

  take_step :
      (andor : AndOr) (number : ℕ) (columns : List (StatsColumn Row)) (taken : Filters Row)
      → Step q (take_stats q andor number columns taken)
  unfolding take_stats
  take_step andor zero columns taken = record { valid = λ v. v; keeps = λ e. (refl, refl) }
  take_step andor (suc number) columns taken = elim (Option-cases (back columns)) [
    | inl e ↦ rw (e, take_stats) (record { valid = λ v. v; keeps = set_error-Keeps q.output _ _ })
    | inr (c, e) ↦ take_some andor number columns taken c e (take_step andor number)
  ]

  stats_and_or_step :
      (andor : AndOr) (value : Option Bytes) → StepTo q (stats_and_or_value q andor value)
  unfolding stats_and_or_value
  stats_and_or_step andor none = none-StepTo q
  stats_and_or_step andor (some value) =
      if-StepTo (is_bad_number value) (step_to q _ (step_refuse q _))
        (step_to q _ (take_step andor _ _ _))

  negate_stats_step : (column : Option (StatsColumn Row)) → Step q (negate_stats q column)
  unfolding negate_stats
  negate_stats_step none = step_refuse q _
  negate_stats_step (some (counting column f)) = record {
    valid = λ v. v;
    keeps = λ e. (refl, refl);
  }
  negate_stats_step (some (aggregating column o)) = step_refuse q _

  stats_negate_step : (value : Option Bytes) → Step q (stats_negate_value q value)
  unfolding stats_negate_value
  stats_negate_step none = negate_stats_step _
  stats_negate_step (some value) = step_refuse q _

  named_step :
      (table : Table Row) (names : Option (List Bytes))
      → StepTo q (names >>= (λ names. some (with_columns q table names)))
  named_step table none = none-StepTo q
  named_step table (some names) = step_to q _ (record { valid = λ v. v; keeps = λ e. (refl, refl) })

  columns_step : (table : Option (Table Row)) (line : Bytes) → StepTo q (columns_in q table line)
  unfolding columns_in
  columns_step none line = step_to q q (step_self q)
  columns_step (some table) line = named_step table _

  header_step :
      (core : Core) (found : Header) (line : Bytes) → StepTo q (parse_header core q found line)
  unfolding parse_header parse_limit_line parse_offset_line parse_timelimit_line
      parse_wait_timeout_line parse_output_format_line parse_column_headers_line
      parse_keep_alive_line parse_response_header_line parse_wait_trigger_line
      parse_wait_object_line parse_auth_user_header parse_localtime_line parse_filter_line
      parse_and_or_line parse_negate_line parse_sort_line parse_columns_line parse_stats_line
      parse_stats_and_or_line parse_stats_negate_line
  header_step core Parse.filter_header line = step_to q _ (filter_step q _ line true)
  header_step core Parse.sort_header line = step_to q _ (sort_step q _ line)
  header_step core Parse.or_header line = step_to q _ (and_or_step q or_them true _)
  header_step core Parse.and_header line = step_to q _ (and_or_step q and_them true _)
  header_step core Parse.negate_header line = step_to q _ (negate_step q true _)
  header_step core Parse.stats_or_header line = stats_and_or_step or_them _
  header_step core Parse.stats_and_header line = stats_and_or_step and_them _
  header_step core Parse.stats_negate_header line = step_to q _ (stats_negate_step _)
  header_step core Parse.stats_header line = step_to q _ (stats_step q _ line)
  header_step core Parse.stats_group_header line = columns_step _ line
  header_step core Parse.columns_header line = columns_step _ line
  header_step core Parse.column_headers_header line = step_to q _ (column_headers_step q _)
  header_step core Parse.limit_header line = step_to q _ (limit_step q _)
  header_step core Parse.offset_header line = step_to q _ (offset_step q _)
  header_step core Parse.timelimit_header line = step_to q _ (timelimit_step q core _)
  header_step core Parse.auth_user_header line = step_to q _ (auth_user_step q core _ line)
  header_step core Parse.separators_header line = step_to q _ (separators_step q line)
  header_step core Parse.output_format_header line = step_to q _ (output_format_step q _)
  header_step core Parse.response_header_header line = step_to q _ (response_header_step q _)
  header_step core Parse.keep_alive_header line = step_to q _ (keep_alive_step q _)
  header_step core Parse.wait_condition_header line = step_to q _ (filter_step q _ line false)
  header_step core Parse.wait_condition_and_header line =
      step_to q _ (and_or_step q and_them false _)
  header_step core Parse.wait_condition_or_header line = step_to q _ (and_or_step q or_them false _)
  header_step core Parse.wait_condition_negate_header line = step_to q _ (negate_step q false _)
  header_step core Parse.wait_trigger_header line = step_to q _ (wait_trigger_step q _)
  header_step core Parse.wait_object_header line = step_to q _ (wait_object_step q _ line)
  header_step core Parse.wait_timeout_header line = step_to q _ (wait_timeout_step q _)
  header_step core Parse.localtime_header line = step_to q _ (localtime_step q core _)

  unknown_step : (line : Bytes) → Step q (unknown_header q line)
  unknown_step [] = step_self q
  unknown_step (c ∷ line) = step_refuse q _

module _ {Row : Type 0} (core : Core) where
  no_lines : (q : Query Row) → parse_lines core q [] ≡ some (q, [])
  unfolding parse_lines
  no_lines q = refl

  line_end :
      (q : Query Row) (line : Bytes) (lines : List Bytes)
      → find_header header_names (rstrip line) ≡ none
      → parse_lines core q (line ∷ lines) ≡ some (unknown_header q (rstrip line), lines)
  unfolding parse_lines
  line_end q line lines e = rw (e, parse_lines) refl

  line_next :
      (q : Query Row) (line : Bytes) (lines : List Bytes) (found : Header) (rest : Bytes)
      → find_header header_names (rstrip line) ≡ some (found, rest)
      → parse_lines core q (line ∷ lines)
        ≡ (parse_header core q found (lstrip rest) >>= (λ q'. parse_lines core q' lines))
  unfolding parse_lines
  line_next q line lines found rest e = rw (e, parse_lines) refl

  lines_step :
      (q : Query Row) (lines : List Bytes) (q' : Query Row) (rest : List Bytes)
      → parse_lines core q lines ≡ some (q', rest)
      → Step q q'
  lines_step q [] q' rest f =
      subst (Step q) (ap (λ x. x.0) (some_inj.0 (sym (no_lines q) ∙ f))) (step_self q)
  lines_step q (line ∷ lines) q' rest f =
      elim (Option-cases (find_header header_names (rstrip line))) [
        | inl e ↦
            subst (Step q) (ap (λ x. x.0) (some_inj.0 (sym (line_end q line lines e) ∙ f)))
              (unknown_step q (rstrip line))
        | inr ((found, text), e) ↦
            let g = sym (line_next q line lines found text e) ∙ f in
            elim (Option-cases (parse_header core q found (lstrip text))) [
              | inl n ↦
                  absurd
                    (none-ne-some _ (sym (ap (λ o. o >>= (λ q'. parse_lines core q' lines)) n) ∙ g))
              | inr (q1, h) ↦ step_trans ((header_step q core found (lstrip text)).step q1 h) (
                  lines_step q1 lines q' rest
                    (sym (ap (λ o. o >>= (λ q'. parse_lines core q' lines)) h) ∙ g))
            ]
      ]

  -- The query that the lines of a request make, from a new one, has a limit of -1 or more, an offset
  -- and a wait timeout that are not negative, a time zone offset of at most 84600 seconds to either
  -- side, and separators of one byte.
  pub parse_lines-IsValid :
      (output : OutputBuffer) (table : Option (Table Row)) (lines : List Bytes) (q : Query Row)
      (rest : List Bytes)
      → parse_lines core (new output table) lines ≡ some (q, rest)
      → IsValid q
  parse_lines-IsValid output table lines q rest f =
      (lines_step (new output table) lines q rest f).valid
        (refl, refl, refl, refl, refl, refl, refl, refl, refl)

  -- An error that a query has before some lines of a request is the one that is sent: when the lines
  -- are read, its message and its code are as they were.
  pub parse_lines-keeps_error :
      (q : Query Row) (lines : List Bytes) (q' : Query Row) (rest : List Bytes)
      → has_error q.output ≡ true
      → parse_lines core q lines ≡ some (q', rest)
      → (q'.output.error_message ≡ q.output.error_message)
        × (q'.output.response_code ≡ q.output.response_code)
  parse_lines-keeps_error q lines q' rest e f = (lines_step q lines q' rest f).keeps e
