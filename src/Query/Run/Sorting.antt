-- ===== src/Query/Run/Sorting.antt =====
-- A query with `Sort:` and without statistics prints nothing before `finish`, which prints a page of the rows that
-- it accepts in order.
use naemon_livestatus.Prelude.{
  suc, ◌+◌, arith, true, false, List, [], ◌∷◌, some, ◌>>=◌, length, ◌≡◌, refl, sym, ap, ◌∙◌, subst,
}
use naemon_livestatus.Sorter.{insert}
use naemon_livestatus.Sorter.Top.{insert_all}
use naemon_livestatus.Query.Paging.{add_int, sorted_page}
use naemon_livestatus.Query.Run.{Plan, Moment, Run, do_stats, process_sorting, process_accepted}
use naemon_livestatus.Query.Run.Ends.{print_rows, print_results, sorted_rows, close_output, finish}
use naemon_livestatus.Query.Run.Heap.{Inserts, first_insert, insert_rest, after-Inserts}
use naemon_livestatus.Query.Run.Steps.{
  accepted_rows, is_large, Causes, Ran, Ran-none, Ran-map, Ran-step, if_is_true, if_is_false,
}

module _ {Row Agg : Type 0} (p : Plan Row Agg) (no_stats : do_stats p ≡ false)
    (sorting : p.do_sorting ≡ true) where
  -- the rows are in the heap and counted, and nothing is printed
  pub record Collected (before : Run Row Agg) (xs : List Row) (r : Run Row Agg) : Type 0 where
    pub heap : insert_all p.compare (add_int p.limit p.offset) before.heap xs ≡ some r.heap
    pub writer : r.writer ≡ before.writer
    pub lines : r.current_line ≡ before.current_line + length xs

  process_accepted_lem :
      (r : Run Row Agg) (row : Row) → process_accepted p r row ≡ process_sorting p r row
  unfolding process_accepted
  process_accepted_lem r row =
      if_is_false (do_stats p) _ _ no_stats ∙ if_is_true p.do_sorting _ _ sorting

  module _ (before : Run Row Agg) (row : Row) (h : List Row)
      (inserted : insert p.compare before.heap row (add_int p.limit p.offset) ≡ some h) where
    abbrev after : Run Row Agg
    after = record before { current_line = suc before.current_line; heap = h }

    one_row : process_sorting p before row ≡ some (after, true)
    unfolding process_sorting
    one_row =
        ap
          (λ o. o >>= (λ h'.
            some (record before { current_line = suc before.current_line; heap = h' }, true)))
          inserted

    after-Collected :
        (xs : List Row) (r : Run Row Agg) → Collected after xs r → Collected before (row ∷ xs) r
    after-Collected xs r c = record {
      heap = insert_rest p before.heap row h inserted xs ∙ c.heap;
      writer = c.writer;
      lines = let counted = c.lines in omega (arith, counted);
    }

  pub process_all-Collected :
      (Cause : Type 0) (rows : List (Moment × Row)) (r : Run Row Agg)
      → Causes p Cause rows
      → (is_large p r.writer ≡ true → Cause)
      → Inserts p r.heap
      → Ran p Cause rows r (Collected r (accepted_rows p rows))
  unfolding accepted_rows insert_all
  process_all-Collected Cause [] r causes large i =
      Ran-none p Cause r (Collected r [])
        (record { heap = refl; writer = refl; lines = omega arith })
  process_all-Collected Cause ((m, row) ∷ rows) r (trouble, causes) large i =
      let (h, inserted) = first_insert p r.heap row i in
      let xs = accepted_rows p rows in
      let next = after r row h inserted in
      Ran-step p Cause m row rows r (λ _. Unit) (Collected r) large trouble
        (λ _. process_all-Collected Cause rows r causes large i)
        (λ _. (
          (next, true),
          process_accepted_lem r row ∙ one_row r row h inserted,
          Ran-map p Cause rows next (Collected next xs) (Collected r (row ∷ xs))
              (after-Collected r row h inserted xs)
              (process_all-Collected Cause rows next causes large
                (after-Inserts p r.heap row h inserted i)),
        ))
        tt

  -- `finish` prints the page that the sorter gives
  pub finish_sorting :
      (before r : Run Row Agg) (xs page : List Row)
      → before.heap ≡ []
      → Collected before xs r
      → sorted_page p.compare p.limit p.offset xs ≡ some page
      → finish p r ≡ some (close_output p r.current_line (print_rows p page r.writer))
  unfolding finish print_results sorted_page
  finish_sorting before r xs page empty c e =
      let all : insert_all p.compare (add_int p.limit p.offset) [] xs ≡ some r.heap =
        subst (λ h. insert_all p.compare (add_int p.limit p.offset) h xs ≡ some r.heap) empty
          c.heap in
      let drained : sorted_rows p r.heap ≡ some page =
        sym (ap (λ o. o >>= sorted_rows p) all) ∙ e in
      ap (λ o. o >>= (λ w. some (close_output p r.current_line w)))
        (if_is_false (do_stats p) _ _ no_stats
          ∙ if_is_true p.do_sorting _ _ sorting
          ∙ ap (λ o. o >>= (λ rows. some (print_rows p rows r.writer))) drained)
