-- ===== src/Query/Run/Summaries.antt =====
-- What a query with statistics and columns answers: a page of lines, one for each group.
use naemon_livestatus.Prelude.{
  inl, inr, ◌⊎◌, ◌++◌, ltb, ◌*◌, ◌^◌, ◌<◌, take, ℕ, ◌+◌, true, false, List, [], ◌∷◌, map, Perm,
  Option, none, some, ◌>>=◌, length, pos, ◌≡◌, refl, sym, ap, ap₂, ◌∙◌, subst, arith, not, ◌&&◌,
}
use naemon_livestatus.Text.{Bytes}
use naemon_livestatus.Print.{Writer, output_dataset_begin, output_dataset_end}
use naemon_livestatus.Sorter.Order.{IsOrder, IsSorted}
use naemon_livestatus.Sorter.Top.{insert_all}
use naemon_livestatus.Query.Paging.{add_int, sorted_page}
use naemon_livestatus.Query.Run.{
  Plan, Moment, Run, do_stats, is_grouped, group_spec, c_str, find_group,
}
use naemon_livestatus.Query.Run.Ends.{
  output_strings, output_aggregators, group_of, print_group, print_groups, print_stats,
  print_results, sorted_rows, close_output, begun, start, finish,
}
use naemon_livestatus.Query.Run.{row_size}
use naemon_livestatus.Query.Run.Steps.{calm-Causes, accepted_rows, if_is_true, if_is_false}
use naemon_livestatus.Query.Run.Heap.{started-Inserts}
use naemon_livestatus.Query.Run.Totals.{total, consume_rows, consume_rows-map}
use naemon_livestatus.Query.Run.Groups.{keys_of, members, firsts, members-firsts}
use naemon_livestatus.Query.Run.Grouping.{Grouped, Bursts, process_all-Grouped}
use naemon_livestatus.Query.Run.Pages.{last_row, as_limit, page_rows, sorted_page-page_rows}
use naemon_livestatus.Query.Run.Answer.{
  Interrupted, Interrupted-writer, Results, Ran-Results, started_heap, start-begun,
}

bind_same :
    {A B : Type 0} (o : Option A) (f g : A → Option B)
    → ((a : A) → f a ≡ g a)
    → (o >>= f) ≡ (o >>= g)
bind_same none f g h = refl
bind_same (some a) f g h = h a

module _ {Row Agg : Type 0} (p : Plan Row Agg) where
  -- the line of the group of a row: the columns of the row, and the totals of the group
  unfoldable pub print_summary : List Row → Row → Writer → Option Writer
  print_summary xs row w = do
    w' ← output_strings true (map c_str (group_spec p row)) (output_dataset_begin w)
    some (
        output_dataset_end (
          output_aggregators p false p.stats (map (total (members p (group_spec p row) xs)) p.stats)
            w'))

  unfoldable pub print_summaries : List Row → List Row → Writer → Option Writer
  print_summaries xs [] w = some w
  print_summaries xs (row ∷ rows) w = print_summary xs row w >>= (λ w'. print_summaries xs rows w')

  module _ (xs : List Row) (groups : List (List Bytes × List Agg))
      (totals : (spec : List Bytes)
        → group_of p spec groups ≡ map (total (members p spec xs)) p.stats) where
    print_group-summary :
        (row : Row) (w : Writer) → print_group p groups row w ≡ print_summary xs row w
    unfolding print_group print_summary
    print_group-summary row w =
        ap
          (λ as'.
            output_strings true (map c_str (group_spec p row)) (output_dataset_begin w)
            >>= (λ w'. some (output_dataset_end (output_aggregators p false p.stats as' w'))))
          (totals (group_spec p row))

    print_groups-summaries :
        (rows : List Row) (w : Writer) → print_groups p groups rows w ≡ print_summaries xs rows w
    unfolding print_groups print_summaries
    print_groups-summaries [] w = refl
    print_groups-summaries (row ∷ rows) w =
        ap (λ o. o >>= (λ w'. print_groups p groups rows w')) (print_group-summary row w)
        ∙ bind_same (print_summary xs row w) _ _ (print_groups-summaries rows)

-- the query was interrupted, or the row of a new group, with the heap that holds it, made the groups too large
abbrev pub Crowded : {Row Agg : Type 0} → Plan Row Agg → List (Moment × Row) → Run Row Agg → Type 0
Crowded {Row = Row} p rows r =
    Interrupted p rows r.writer
    ⊎ ((before : List Row) × (later : List Row) × (h : List Row) × (row : Row) × (firsts p []
            (accepted_rows p rows)
          ≡ before ++ row ∷ later)
        × (insert_all p.compare (add_int p.limit p.offset) [] (before ++ row ∷ []) ≡ some h)
        × (ltb p.max_response_size (length h * row_size (group_spec p row)) ≡ true))

module _ {Row Agg : Type 0} (p : Plan Row Agg) (stats : do_stats p ≡ true)
    (grouped : is_grouped p ≡ true) where
  begun_groups : (w : Writer) → (begun p w).groups ≡ []
  unfolding begun
  begun_groups w = refl

  begun_line : (w : Writer) → (begun p w).current_line ≡ 0
  unfolding begun
  begun_line w =
      if_is_false (do_stats p && not (is_grouped p)) _ _ (ap₂ (λ a b. a && not b) stats grouped)

  abbrev page_of_groups : List Row → List Row → Run Row Agg → Option Writer
  page_of_groups xs page r =
      print_summaries p xs page r.writer >>= (λ w. some (close_output p r.current_line w))

  finish_groups :
      (before r : Run Row Agg) (xs page : List Row)
      → before.heap ≡ []
      → before.groups ≡ []
      → Grouped p stats grouped before xs r
      → sorted_page p.compare p.limit p.offset (firsts p [] xs) ≡ some page
      → finish p r ≡ page_of_groups xs page r
  unfolding finish print_results print_stats sorted_page find_group
  finish_groups before r xs page empty fresh g e =
      let totals : (spec : List Bytes)
          → group_of p spec r.groups ≡ map (total (members p spec xs)) p.stats =
        λ spec.
          g.groups spec
          ∙ ap (λ gs. consume_rows p.stats (members p spec xs) (group_of p spec gs)) fresh
          ∙ consume_rows-map p.stats (members p spec xs) (λ s. s.create) in
      let all : insert_all p.compare (add_int p.limit p.offset) [] (firsts p [] xs) ≡ some r.heap =
        subst
          (λ h. insert_all p.compare (add_int p.limit p.offset) h (firsts p [] xs) ≡ some r.heap)
          empty
          (subst
            (λ gs.
              insert_all p.compare (add_int p.limit p.offset) before.heap (firsts p (keys_of gs) xs)
              ≡ some r.heap)
            fresh g.heap) in
      let drained : sorted_rows p r.heap ≡ some page =
        sym (ap (λ o. o >>= sorted_rows p) all) ∙ e in
      ap (λ o. o >>= (λ w. some (close_output p r.current_line w)))
        (if_is_true (do_stats p) _ _ stats
          ∙ if_is_true (is_grouped p) _ _ grouped
          ∙ ap (λ o. o >>= (λ rows. print_groups p r.groups rows r.writer)) drained
          ∙ print_groups-summaries p xs r.groups totals page r.writer)

  started_groups :
      (w : Writer) (r : Run Row Agg) → start p w ≡ some r → (r.groups ≡ []) × (r.current_line ≡ 0)
  unfolding begun
  started_groups w r e =
      let (w', same) = start-begun p w r e in
      (
        ap (λ (r : Run Row Agg). r.groups) same,
        ap (λ (r : Run Row Agg). r.current_line) same ∙ begun_line w',
      )

  start-Bursts :
      (w : Writer) (r : Run Row Agg) (rows : List (Moment × Row))
      → start p w ≡ some r
      → Bursts p stats grouped (Crowded p rows r) r (accepted_rows p rows)
  start-Bursts w r rows started before later h row e filled large =
      let (fresh, _) = started_groups w r started in
      let empty = started_heap p w r started in
      inr (
        before,
        later,
        h,
        row,
        ap (λ gs. firsts p (keys_of gs) (accepted_rows p rows)) (sym fresh) ∙ e,
        ap (λ old. insert_all p.compare (add_int p.limit p.offset) old (before ++ row ∷ []))
              (sym empty)
            ∙ filled,
        large,
      )

  -- A query with statistics and columns, for a comparison of rows that is an order, with Limit: and
  -- Offset: of a sum below 2 ^ 31 or with neither of them, ends with a page of lines in ascending
  -- order, one for each group of the accepted rows, which its first row stands for, with what each
  -- aggregator makes of all the rows of the group and of no other row, in a response that counts the
  -- groups, with no result only where outputString has none; or it ends with an error, and then the
  -- core was about to stop or the time was over at some row, or the opening of the response was
  -- larger than it may be or had an error, or the row of a new group, times the rows in the heap,
  -- was larger than that.
  pub answer-groups :
      (o : IsOrder p.compare) (limit : Option ℕ) (offset : ℕ) (rows : List (Moment × Row))
      (w : Writer) (r : Run Row Agg)
      → p.limit ≡ as_limit limit
      → p.offset ≡ pos offset
      → (limit ≡ none → offset ≡ 0)
      → last_row limit offset < 2 ^ 31
      → start p w ≡ some r
      → let xs = accepted_rows p rows in
        let groups = firsts p [] xs in
        ((spec : List Bytes) → members p spec groups ≡ take 1 (members p spec xs))
        × (s : List Row) × Perm s groups
        × IsSorted p.compare s
        × Results p (Crowded p rows r) rows w (
            print_summaries p xs (page_rows limit offset s) r.writer
            >>= (λ w'. some (close_output p (length groups) w')))
  answer-groups o limit offset rows w r with_limit with_offset whole small started =
      let xs = accepted_rows p rows in
      let groups = firsts p [] xs in
      let (fresh, zero_lines) = started_groups w r started in
      let (s, same, sorted, page) = sorted_page-page_rows o limit offset groups whole small in
      (
        λ spec. members-firsts p spec xs,
        s,
        same,
        sorted,
        Ran-Results p (Crowded p rows r) rows w r _ _ started
            (process_all-Grouped p stats grouped (Crowded p rows r) rows r
              (calm-Causes p (Crowded p rows r) rows (λ e. inl (inl e))) (λ e. inl (inr (inl e)))
              (started-Inserts p o r (started_heap p w r started)) (start-Bursts w r rows started))
            (λ r' g failed. inl (Interrupted-writer p rows r.writer r'.writer g.writer failed))
            (λ r' g.
              finish_groups r r' xs (page_rows limit offset s) (started_heap p w r started) fresh g
                (ap₂ (λ l n. sorted_page p.compare l n groups) with_limit with_offset ∙ page)
              ∙ ap₂
                  (λ n v.
                    print_summaries p xs (page_rows limit offset s) v
                    >>= (λ w'. some (close_output p n w')))
                  (g.lines
                    ∙ ap₂ (λ n gs. n + length (firsts p (keys_of gs) xs)) zero_lines fresh
                    ∙ omega arith)
                  g.writer),
      )
