-- ===== src/Query/Run.antt =====
-- src/Query.cc: a query while it runs, from `start` over a `processDataset` for each row to `finish`. Columns and
-- aggregators are objects with virtual functions, and so are functions here.
pub mod Ends
pub mod Steps
pub mod Heap
pub mod Format
pub mod Plain
pub mod Sorting
pub mod Answer
pub mod Pages
pub mod Totals
pub mod Counts
pub mod Groups
pub mod Grouping
pub mod Summaries
use naemon_livestatus.Prelude.{
  ℕ, zero, suc, ◌+◌, ◌*◌, Bool, true, false, not, ◌&&◌, List, [], ◌∷◌, ◌++◌, map, Option, none,
  some, ◌>>=◌, if◌then◌else◌, ltb, leb, ◌==◌, length, ℤ, pos, ltb_ℤ, leb_ℤ, ◌+ℤ◌,
}
use naemon_livestatus.Text.{Bytes, codes, decimal, signed_decimal, str_equal}
use naemon_livestatus.Output.{OutputBuffer, set_error, is_empty}
use naemon_livestatus.Output.ResponseCode
use naemon_livestatus.Print.{
  Writer, is_csv, is_wrapped, put, put_char, output_dataset_begin, output_dataset_end,
  output_field_separator, output_integer, output_string,
}
use naemon_livestatus.Filter.{Filters, all_accept}
use naemon_livestatus.Sorter.{insert}
use naemon_livestatus.Query.Paging.{add_int, num_elems, drain}

-- the virtual functions of a column
pub record OutColumn (Row : Type 0) : Type 0 where
  pub name : Bytes
  pub output : Row → Writer → Writer
  pub value_as_string : Row → Bytes

-- a statistics column: `createAggregator`, and `consume` and `output` of what it creates
pub record OutStat (Row Agg : Type 0) : Type 0 where
  pub create : Agg
  pub consume : Row → Agg → Agg
  pub output : Agg → Writer → Writer

-- the members of a query that do not change while it runs, and `g_max_response_size`; `compare` is that of the
-- sorter, by the `Sort:` columns and those of `natSortColumns` behind them
pub record Plan (Row Agg : Type 0) : Type 0 where
  pub filter : Filters Row
  pub is_authorized : Row → Bool
  pub columns : List (OutColumn Row)
  pub stats : List (OutStat Row Agg)
  pub compare : Row → Row → ℤ
  pub do_sorting : Bool
  pub show_column_headers : Bool
  pub limit : ℤ
  pub offset : ℤ
  pub time_limit : ℤ
  pub time_limit_timeout : ℤ
  pub max_response_size : ℕ

-- the clock and the two looks at the termination flag when a row comes
pub record Moment : Type 0 where
  pub now : ℤ
  pub terminating : Bool
  pub terminating_later : Bool

-- the members that change: `_output` is in the writer, and the rows of the sorter are a heap
pub record Run (Row Agg : Type 0) : Type 0 where
  pub writer : Writer
  pub current_line : ℕ
  pub heap : List Row
  pub aggregators : List Agg
  pub groups : List (List Bytes × List Agg)

unfoldable pub spec_equal : List Bytes → List Bytes → Bool
spec_equal [] [] = true
spec_equal (a ∷ s) (b ∷ t) = str_equal a b && spec_equal s t
spec_equal _ _ = false

-- `_stats_groups.find(groupspec)`
unfoldable pub find_group :
    {Agg : Type 0} → List Bytes → List (List Bytes × List Agg) → Option (List Agg)
find_group spec [] = none
find_group spec ((key, aggr) ∷ groups) =
    let rest = find_group spec groups in if spec_equal key spec then some aggr else rest

-- a string as C reads it, up to its first byte 0
unfoldable pub c_str : Bytes → Bytes
c_str [] = []
c_str (c ∷ s) = let rest = c_str s in if c == 0 then [] else c ∷ rest

-- `rowsize`
unfoldable pub row_size : List Bytes → ℕ
row_size [] = 0
row_size (value ∷ spec) = 8 * length (c_str value) + row_size spec

module _ {Row Agg : Type 0} where
  -- `aggr[i]->consume(data, this)` for all of them
  unfoldable pub consume_row : List (OutStat Row Agg) → Row → List Agg → List Agg
  consume_row (s ∷ ss) row (a ∷ as') = s.consume row a ∷ consume_row ss row as'
  consume_row ss row as' = as'

module _ {Row Agg : Type 0} (p : Plan Row Agg) where
  -- `_output->setError(RESPONSE_CODE_LIMIT_EXCEEDED, ...)`, and the end of the rows
  unfoldable pub exceeded : Run Row Agg → Bytes → Run Row Agg × Bool
  exceeded r message =
      let w = record r.writer {
        output = set_error r.writer.output ResponseCode.limit_exceeded message;
      } in
      (record r { writer = w }, false)

  unfoldable pub too_large : Run Row Agg → Run Row Agg × Bool
  too_large r =
      exceeded r
        (codes "Maximum response size of " ++ decimal p.max_response_size ++ codes " reached")

  unfoldable pub canceled : Run Row Agg → Run Row Agg × Bool
  canceled r = exceeded r (codes "Query canceled, core is shutting down.")

  unfoldable pub too_slow : Run Row Agg → Run Row Agg × Bool
  too_slow r =
      exceeded r (
        codes "Maximum query time of " ++ signed_decimal p.time_limit ++ codes " seconds exceeded!")

  abbrev pub do_stats : Bool
  do_stats = not (length p.stats == 0)

  abbrev pub is_grouped : Bool
  is_grouped = not (length p.columns == 0)

  -- the columns behind the first one
  unfoldable pub print_more : List (OutColumn Row) → Row → Writer → Writer
  print_more [] row w = w
  print_more (c ∷ cs) row w = print_more cs row (c.output row (output_field_separator w))

  unfoldable pub print_fields : List (OutColumn Row) → Row → Writer → Writer
  print_fields [] row w = w
  print_fields (c ∷ cs) row w = print_more cs row (c.output row w)

  -- `printRow`
  unfoldable pub print_row : Row → Writer → Writer
  print_row row w = output_dataset_end (print_fields p.columns row (output_dataset_begin w))

  -- a row without `Sort:` and without statistics
  unfoldable pub process_plain : Run Row Agg → Row → Run Row Agg × Bool
  process_plain r row =
      let line = pos (suc r.current_line) in
      let counted : Run Row Agg = record r { current_line = suc r.current_line } in
      if leb_ℤ (pos 0) p.limit && ltb_ℤ (add_int p.offset p.limit) line
      then (counted, is_wrapped r.writer.output_format)
      else if leb_ℤ line p.offset
      then (counted, true)
      else (record counted { writer = print_row row r.writer }, true)

  -- with `Sort:`, without statistics; `none` is an access to the heap out of its bounds, here and below
  unfoldable pub process_sorting : Run Row Agg → Row → Option (Run Row Agg × Bool)
  process_sorting r row = do
    h ← insert p.compare r.heap row (add_int p.limit p.offset)
    some (record r { current_line = suc r.current_line; heap = h }, true)

  -- `computeStatsGroupSpec`
  abbrev pub group_spec : Row → List Bytes
  group_spec row = map (λ c. c.value_as_string row) p.columns

  abbrev pub created : List Agg
  created = map (λ s. s.create) p.stats

  -- the aggregators of a group, which the map holds, after one more row
  unfoldable pub consume_group :
      List Bytes → Row → List (List Bytes × List Agg) → List (List Bytes × List Agg)
  consume_group spec row [] = []
  consume_group spec row ((key, aggr) ∷ groups) =
      let rest = consume_group spec row groups in
      if spec_equal key spec
      then (key, consume_row p.stats row aggr) ∷ groups
      else (key, aggr) ∷ rest

  -- a row of a group that is there already, or was made for it
  abbrev pub consumed : Run Row Agg → Row → Run Row Agg × Bool
  consumed r row = (record r { groups = consume_group (group_spec row) row r.groups }, true)

  -- `getStatsGroup`, and what follows it
  unfoldable pub process_group : Run Row Agg → Row → Option (Run Row Agg × Bool)
  process_group r row = elim (find_group (group_spec row) r.groups) [
    | some aggr ↦ some (consumed r row)
    | none ↦ insert p.compare r.heap row (add_int p.limit p.offset) >>= (λ h.
        let made : Run Row Agg = record r {
          current_line = suc r.current_line;
          heap = h;
          groups = r.groups ++ (group_spec row, created) ∷ [];
        } in
        if ltb p.max_response_size (length h * row_size (group_spec row))
        then some (too_large made)
        else some (consumed made row))
  ]

  unfoldable pub process_stats : Run Row Agg → Row → Option (Run Row Agg × Bool)
  process_stats r row =
      if is_grouped
      then process_group r row
      else some (record r { aggregators = consume_row p.stats row r.aggregators }, true)

  -- a row that is accepted, before the limits are looked at
  unfoldable pub process_accepted : Run Row Agg → Row → Option (Run Row Agg × Bool)
  process_accepted r row =
      if do_stats
      then process_stats r row
      else if p.do_sorting
      then process_sorting r row
      else some (process_plain r row)

  abbrev pub is_accepted : Row → Bool
  is_accepted row = all_accept p.filter row && p.is_authorized row

  -- `_time_limit >= 0 && time(0) >= _time_limit_timeout`
  abbrev pub time_over : Moment → Bool
  time_over m = leb_ℤ (pos 0) p.time_limit && leb_ℤ p.time_limit_timeout m.now

  -- `timelimitReached`, which a table asks between its rows
  unfoldable pub timelimit_reached : Moment → Run Row Agg → Run Row Agg × Bool
  timelimit_reached m r = if time_over m then ((too_slow r).0, true) else (r, false)

  -- `processDataset`
  unfoldable pub process_dataset : Moment → Run Row Agg → Row → Option (Run Row Agg × Bool)
  process_dataset m r row =
      if ltb p.max_response_size (length r.writer.output.buffer)
      then some (too_large r)
      else if m.terminating
      then some (canceled r)
      else if not (is_accepted row)
      then some (r, true)
      else if time_over m
      then some (too_slow r)
      else if m.terminating_later
      then some (canceled r)
      else process_accepted r row

  -- `processDataset` for the rows of a table, until it returns false; with whether it went through all
  unfoldable pub process_all : List (Moment × Row) → Run Row Agg → Option (Run Row Agg × Bool)
  process_all [] r = some (r, true)
  process_all ((m, row) ∷ rows) r =
      process_dataset m r row
      >>= (λ (r', more). if more then process_all rows r' else some (r', false))
