-- ===== src/Query/Run/Totals.antt =====
-- A query with statistics and without columns answers with one line: what each aggregator makes of the rows that
-- are accepted.
use naemon_livestatus.Prelude.{
  true, false, not, ◌&&◌, List, [], ◌∷◌, map, some, ◌>>=◌, ◌≡◌, refl, ap, inl, inr, ap₂, ◌∙◌,
}
use naemon_livestatus.Print.{Writer, output_dataset_begin, output_dataset_end}
use naemon_livestatus.Query.Run.{
  OutStat, Plan, Moment, Run, do_stats, is_grouped, consume_row, process_stats, process_accepted,
}
use naemon_livestatus.Query.Run.Ends.{
  output_aggregators, print_stats, print_results, close_output, begun, start, finish,
}
use naemon_livestatus.Query.Run.Steps.{
  accepted_rows, is_large, Causes, Ran, Ran-none, Ran-map, Ran-step, if_is_true, if_is_false,
}
use naemon_livestatus.Query.Run.Answer.{
  Answers, Interrupted, Interrupted-calm, Interrupted-writer, Ran-Answers, start-begun,
}

module _ {Row Agg : Type 0} where
  -- what an aggregator makes of some rows
  unfoldable pub total_from : OutStat Row Agg → Agg → List Row → Agg
  total_from s a [] = a
  total_from s a (row ∷ rows) = total_from s (s.consume row a) rows

  abbrev pub total : List Row → OutStat Row Agg → Agg
  total rows s = total_from s s.create rows

  unfoldable pub consume_rows : List (OutStat Row Agg) → List Row → List Agg → List Agg
  consume_rows ss [] as' = as'
  consume_rows ss (row ∷ rows) as' = consume_rows ss rows (consume_row ss row as')

  consume_row-map :
      (ss : List (OutStat Row Agg)) (f : OutStat Row Agg → Agg) (row : Row)
      → consume_row ss row (map f ss) ≡ map (λ s. s.consume row (f s)) ss
  unfolding consume_row
  consume_row-map [] f row = refl
  consume_row-map (s ∷ ss) f row = ap (◌∷◌ (s.consume row (f s))) (consume_row-map ss f row)

  pub consume_rows-map :
      (ss : List (OutStat Row Agg)) (xs : List Row) (f : OutStat Row Agg → Agg)
      → consume_rows ss xs (map f ss) ≡ map (λ s. total_from s (f s) xs) ss
  unfolding consume_rows total_from
  consume_rows-map ss [] f = refl
  consume_rows-map ss (row ∷ xs) f =
      ap (consume_rows ss xs) (consume_row-map ss f row)
      ∙ consume_rows-map ss xs (λ s. s.consume row (f s))

module _ {Row Agg : Type 0} (p : Plan Row Agg) where
  -- the line of the response
  abbrev pub print_totals : List Row → Writer → Writer
  print_totals xs w =
      output_dataset_end
        (output_aggregators p true p.stats (map (total xs) p.stats) (output_dataset_begin w))

module _ {Row Agg : Type 0} (p : Plan Row Agg) (stats : do_stats p ≡ true)
    (alone : is_grouped p ≡ false) where
  -- the aggregators have seen the rows, and nothing is printed
  record Totalled (before : Run Row Agg) (xs : List Row) (r : Run Row Agg) : Type 0 where
    pub aggregators : r.aggregators ≡ consume_rows p.stats xs before.aggregators
    pub writer : r.writer ≡ before.writer
    pub lines : r.current_line ≡ before.current_line

  abbrev after : Run Row Agg → Row → Run Row Agg
  after r row = record r { aggregators = consume_row p.stats row r.aggregators }

  process_accepted_lem :
      (r : Run Row Agg) (row : Row) → process_accepted p r row ≡ some (after r row, true)
  unfolding process_accepted process_stats
  process_accepted_lem r row =
      if_is_true (do_stats p) _ _ stats ∙ if_is_false (is_grouped p) _ _ alone

  after-Totalled :
      (before : Run Row Agg) (row : Row) (xs : List Row) (r : Run Row Agg)
      → Totalled (after before row) xs r
      → Totalled before (row ∷ xs) r
  unfolding consume_rows
  after-Totalled before row xs r t = record {
    aggregators = t.aggregators;
    writer = t.writer;
    lines = t.lines;
  }

  process_all-Totalled :
      (Cause : Type 0) (rows : List (Moment × Row)) (r : Run Row Agg)
      → Causes p Cause rows
      → (is_large p r.writer ≡ true → Cause)
      → Ran p Cause rows r (Totalled r (accepted_rows p rows))
  unfolding accepted_rows consume_rows
  process_all-Totalled Cause [] r causes large =
      Ran-none p Cause r (Totalled r [])
        (record { aggregators = refl; writer = refl; lines = refl })
  process_all-Totalled Cause ((m, row) ∷ rows) r (trouble, causes) large =
      let xs = accepted_rows p rows in
      Ran-step p Cause m row rows r (λ _. Unit) (Totalled r) large trouble
        (λ _. process_all-Totalled Cause rows r causes large)
        (λ _. (
          (after r row, true),
          process_accepted_lem r row,
          Ran-map p Cause rows (after r row) (Totalled (after r row) xs) (Totalled r (row ∷ xs))
              (after-Totalled r row xs)
              (process_all-Totalled Cause rows (after r row) causes large),
        ))
        tt

  begun_aggregators : (w : Writer) → (begun p w).aggregators ≡ map (λ s. s.create) p.stats
  unfolding begun
  begun_aggregators w =
      if_is_true (do_stats p && not (is_grouped p)) _ _ (ap₂ (λ a b. a && not b) stats alone)

  begun_line : (w : Writer) → (begun p w).current_line ≡ 1
  unfolding begun
  begun_line w =
      if_is_true (do_stats p && not (is_grouped p)) _ _ (ap₂ (λ a b. a && not b) stats alone)

  finish_totals :
      (r : Run Row Agg)
      → finish p r
        ≡ some (
            close_output p r.current_line (
              output_dataset_end
                (output_aggregators p true p.stats r.aggregators (output_dataset_begin r.writer))))
  unfolding finish print_results print_stats
  finish_totals r =
      ap (λ o. o >>= (λ w. some (close_output p r.current_line w)))
        (if_is_true (do_stats p) _ _ stats ∙ if_is_false (is_grouped p) _ _ alone)

  begun_totals :
      (w : Writer) (xs : List Row) (r : Run Row Agg)
      → start p w ≡ some r
      → (consume_rows p.stats xs r.aggregators ≡ map (total xs) p.stats) × (r.current_line ≡ 1)
  begun_totals w xs r started =
      let (w', same) = start-begun p w r started in
      (
        ap (λ (r : Run Row Agg). consume_rows p.stats xs r.aggregators) same
            ∙ ap (consume_rows p.stats xs) (begun_aggregators w')
            ∙ consume_rows-map p.stats xs (λ s. s.create),
        ap (λ (r : Run Row Agg). r.current_line) same ∙ begun_line w',
      )

  -- A query with statistics and without columns ends with one line: what each aggregator makes of
  -- all accepted rows, in the order of the Stats: headers and of the table; or it ends with an
  -- error, and then the core was about to stop or the time was over at some row, or the opening of
  -- the response was larger than it may be or had an error.
  pub answer-total :
      (rows : List (Moment × Row)) (w : Writer) (r : Run Row Agg)
      → start p w ≡ some r
      → Answers p
          (Interrupted p rows r.writer)
          rows
          w
          (λ w'. w' ≡ close_output p 1 (print_totals p (accepted_rows p rows) r.writer))
  answer-total rows w r started =
      let xs = accepted_rows p rows in
      let Cause = Interrupted p rows r.writer in
      let (totals, one) = begun_totals w xs r started in
      Ran-Answers p Cause rows w r _ _ started
        (process_all-Totalled Cause rows r (Interrupted-calm p rows r.writer) (λ e. inr (inl e)))
        (λ r' t. Interrupted-writer p rows r.writer r'.writer t.writer)
        (λ r' t. (
          _,
          finish_totals r',
          ap₂
                (λ n as'. close_output p n (
                  output_dataset_end
                    (output_aggregators p true p.stats as' (output_dataset_begin r'.writer))))
                (t.lines ∙ one) (t.aggregators ∙ totals)
              ∙ ap (λ v. close_output p 1 (print_totals p xs v)) t.writer,
        ))
