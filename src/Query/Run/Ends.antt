-- ===== src/Query/Run/Ends.antt =====
-- `start` and `finish` of src/Query.cc.
use naemon_livestatus.Prelude.{
  ℕ, zero, suc, ◌+◌, Bool, true, false, not, ◌&&◌, List, [], ◌∷◌, ◌++◌, map, Option, none, some,
  ◌>>=◌, if◌then◌else◌, length, pos,
}
use naemon_livestatus.Text.{Bytes, codes, decimal}
use naemon_livestatus.Print.{
  Writer, is_csv, is_wrapped, put, put_char, output_dataset_begin, output_dataset_end,
  output_field_separator, output_integer, output_string,
}
use naemon_livestatus.Query.Paging.{num_elems, drain}
use naemon_livestatus.Query.Run.{
  OutStat, Plan, Run, do_stats, is_grouped, print_row, group_spec, c_str, created, find_group,
}

-- strings with field separators between them; `first` as in the code
unfoldable pub output_strings : Bool → List Bytes → Writer → Option Writer
output_strings first [] w = some w
output_strings first (s ∷ strings) w =
    output_string (if first then w else output_field_separator w) (some s)
    >>= (λ w'. output_strings false strings w')

-- `snprintf(colheader, 32, "stats_%d", col)`
unfoldable pub stats_headers : ℕ → ℕ → List Bytes
stats_headers col zero = []
stats_headers col (suc n) = (codes "stats_" ++ decimal col) ∷ stats_headers (suc col) n

module _ {Row Agg : Type 0} (p : Plan Row Agg) where
  -- the names of the columns
  unfoldable pub headers : List Bytes
  headers = map (λ c. c.name) p.columns ++ stats_headers 1 (length p.stats)

  -- what stands in front of the names
  unfoldable pub open_headers : Writer → Writer
  open_headers w =
      if is_wrapped w.output_format
      then put w (codes "{\"columns\":")
      else if is_csv w.output_format
      then w
      else put_char w b'['

  unfoldable pub close_headers : Writer → Writer
  close_headers w =
      if is_wrapped w.output_format
      then record (put w (codes ",\"data\":[")) { need_ds_separator = false }
      else w

  unfoldable pub with_headers : Writer → Option Writer
  with_headers w = do
    w' ← output_strings true headers (output_dataset_begin (open_headers w))
    some (close_headers (output_dataset_end w'))

  unfoldable pub without_headers : Writer → Writer
  without_headers w =
      let w' = if is_wrapped w.output_format then put w (codes "{\"data\":") else w in
      if is_csv w.output_format then w' else put_char w' b'['

  -- the first bytes of the response
  unfoldable pub open_output : Writer → Option Writer
  open_output w = if p.show_column_headers then with_headers w else some (without_headers w)

  -- the members at the start
  unfoldable pub begun : Writer → Run Row Agg
  begun w =
      let single = do_stats p && not (is_grouped p) in
      record {
        writer = w;
        current_line = if single then 1 else 0;
        heap = [];
        aggregators = if single then created p else [];
        groups = [];
      }

  -- `start`, behind `doWait`
  unfoldable pub start : Writer → Option (Run Row Agg)
  start w = open_output (record w { need_ds_separator = false }) >>= (λ w'. some (begun w'))

  -- `aggr[i]->output(this)`; `first` without a separator in front
  unfoldable pub output_aggregators : Bool → List (OutStat Row Agg) → List Agg → Writer → Writer
  output_aggregators first (s ∷ ss) (a ∷ as') w =
      output_aggregators false ss as' (s.output a (if first then w else output_field_separator w))
  output_aggregators first ss as' w = w

  -- the aggregators that are found, or new ones
  abbrev pub held : Option (List Agg) → List Agg
  held none = created p
  held (some aggr) = aggr

  -- `getStatsGroup(groupspec, 0)`
  abbrev pub group_of : List Bytes → List (List Bytes × List Agg) → List Agg
  group_of spec groups = held (find_group spec groups)

  -- the line of a group
  unfoldable pub print_group : List (List Bytes × List Agg) → Row → Writer → Option Writer
  print_group groups row w = do
    w' ← output_strings true (map c_str (group_spec p row)) (output_dataset_begin w)
    some (
        output_dataset_end
          (output_aggregators false p.stats (group_of (group_spec p row) groups) w'))

  unfoldable pub print_groups : List (List Bytes × List Agg) → List Row → Writer → Option Writer
  print_groups groups [] w = some w
  print_groups groups (row ∷ rows) w =
      print_group groups row w >>= (λ w'. print_groups groups rows w')

  unfoldable pub print_rows : List Row → Writer → Writer
  print_rows [] w = w
  print_rows (row ∷ rows) w = print_rows rows (print_row p row w)

  -- what the sorter gives for `Limit:` and `Offset:`
  abbrev pub sorted_rows : List Row → Option (List Row)
  sorted_rows h = drain p.compare (length h + 1) (num_elems p.limit p.offset (length h)) h []

  unfoldable pub print_stats : Run Row Agg → Option Writer
  print_stats r =
      if is_grouped p
      then sorted_rows r.heap >>= (λ rows. print_groups r.groups rows r.writer)
      else some (
          output_dataset_end
            (output_aggregators true p.stats r.aggregators (output_dataset_begin r.writer)))

  -- the rows that `finish` prints
  unfoldable pub print_results : Run Row Agg → Option Writer
  print_results r =
      if do_stats p
      then print_stats r
      else if p.do_sorting
      then sorted_rows r.heap >>= (λ rows. some (print_rows rows r.writer))
      else some r.writer

  -- the brackets behind the rows; in the wrapped format with the number of rows
  unfoldable pub closing : Bool → ℕ → Writer → Writer
  closing false lines w = put_char (put_char w b']') b'\n'
  closing true lines w =
      let total = output_integer (put (put_char w b']') (codes ",\"total_count\":")) (pos lines) in
      put_char (put total (codes "}")) b'\n'

  -- the end of the response
  unfoldable pub close_output : ℕ → Writer → Writer
  close_output lines w =
      if is_csv w.output_format then w else closing (is_wrapped w.output_format) lines w

  unfoldable pub finish : Run Row Agg → Option Writer
  finish r = print_results r >>= (λ w. some (close_output r.current_line w))
