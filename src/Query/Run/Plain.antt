-- ===== src/Query/Run/Plain.antt =====
-- A query without `Sort:` and without statistics prints a page of the rows that it accepts.
use naemon_livestatus.Prelude.{
  take, ℕ, suc, Bool, true, false, ◌&&◌, List, [], ◌∷◌, some, ◌>>=◌, if◌then◌else◌, pos, ltb_ℤ,
  leb_ℤ, ◌≡◌, refl, ap, ◌∙◌, inr, subst,
}
use naemon_livestatus.Print.{Writer, is_wrapped}
use naemon_livestatus.Query.Paging.{add_int, plain_page}
use naemon_livestatus.Query.Run.{
  Plan, Moment, Run, do_stats, print_row, process_plain, process_accepted,
}
use naemon_livestatus.Query.Run.Ends.{print_rows, print_results, close_output, finish}
use naemon_livestatus.Query.Run.Steps.{
  accepted_rows, Causes, is_large, Ran, Goes, Ran-none, Ran-step, if_is_false,
}

module _ {Row Agg : Type 0} (p : Plan Row Agg) (no_stats : do_stats p ≡ false)
    (no_sorting : p.do_sorting ≡ false)
    (keeps_format : (row : Row) (w : Writer)
      → (print_row p row w).output_format ≡ w.output_format) where
  -- `page` is printed behind what is in the writer, and its lines are counted
  abbrev Printed : Writer → List Row × ℕ → Run Row Agg → Type 0
  Printed w page r = (r.writer ≡ print_rows p page.0 w) × (r.current_line ≡ page.1)

  abbrev page_of : Run Row Agg → List Row → List Row × ℕ
  page_of r xs = plain_page (is_wrapped r.writer.output_format) p.limit p.offset r.current_line xs

  process_accepted_lem :
      (r : Run Row Agg) (row : Row) → process_accepted p r row ≡ some (process_plain p r row)
  unfolding process_accepted
  process_accepted_lem r row =
      if_is_false (do_stats p) _ _ no_stats ∙ if_is_false p.do_sorting _ _ no_sorting

  abbrev counted : Run Row Agg → Run Row Agg
  counted r = record r { current_line = suc r.current_line }

  abbrev printed : Run Row Agg → Row → Run Row Agg
  printed r row = record (counted r) { writer = print_row p row r.writer }

  -- a part of the page makes the response too large
  abbrev pub Grows : (Cause : Type 0) → Writer → List Row → Type 0
  Grows Cause w page = (k : ℕ) → is_large p (print_rows p (take k page) w) ≡ true → Cause

  -- the three ways of a row, by the two tests
  ways :
      (Cause : Type 0) (over before wrapped : Bool) (row : Row) (rows : List (Moment × Row))
      (r : Run Row Agg) (rest : List Row × ℕ)
      → (Grows Cause r.writer rest.0 → Ran p Cause rows (counted r) (Printed r.writer rest))
      → (Grows Cause (print_row p row r.writer) rest.0
          → Ran p Cause rows (printed r row) (Printed (print_row p row r.writer) rest))
      → Grows Cause r.writer
          (if over
            then (if wrapped then rest else ([], suc r.current_line))
            else if before
            then rest
            else (row ∷ rest.0, rest.1)).0
      → Goes p Cause rows
          (Printed r.writer (
            if over
            then (if wrapped then rest else ([], suc r.current_line))
            else if before
            then rest
            else (row ∷ rest.0, rest.1)))
          (if over
            then (counted r, wrapped)
            else if before
            then (counted r, true)
            else (printed r row, true))
  unfolding print_rows
  ways Cause true before true row rows r rest f g grows = f grows
  ways Cause true before false row rows r rest f g grows = inr (refl, refl)
  ways Cause false true wrapped row rows r rest f g grows = f grows
  ways Cause false false wrapped row rows r rest f g grows = g (λ k e. grows (suc k) e)

  pub process_all-Printed :
      (Cause : Type 0) (rows : List (Moment × Row)) (r : Run Row Agg)
      → Causes p Cause rows
      → Grows Cause r.writer (page_of r (accepted_rows p rows)).0
      → Ran p Cause rows r (Printed r.writer (page_of r (accepted_rows p rows)))
  unfolding plain_page print_rows accepted_rows process_plain
  process_all-Printed Cause [] r causes grows = Ran-none p Cause r _ (refl, refl)
  process_all-Printed Cause ((m, row) ∷ rows) r (trouble, causes) grows =
      let xs = accepted_rows p rows in
      Ran-step p Cause m row rows r (λ ys. Grows Cause r.writer (page_of r ys).0)
        (λ ys. Printed r.writer (page_of r ys)) (grows 0) trouble
        (process_all-Printed Cause rows r causes)
        (λ more. (
          process_plain p r row,
          process_accepted_lem r row,
          ways Cause
              (leb_ℤ (pos 0) p.limit && ltb_ℤ (add_int p.offset p.limit) (pos (suc r.current_line)))
              (leb_ℤ (pos (suc r.current_line)) p.offset) (is_wrapped r.writer.output_format) row
              rows r (page_of (counted r) xs) (process_all-Printed Cause rows (counted r) causes)
              (subst
                (λ w.
                  Grows Cause (print_row p row r.writer)
                    (plain_page w p.limit p.offset (suc r.current_line) xs).0
                  → Ran p Cause rows (printed r row) (
                      Printed (print_row p row r.writer)
                        (plain_page w p.limit p.offset (suc r.current_line) xs)))
                (ap is_wrapped (keeps_format row r.writer))
                (process_all-Printed Cause rows (printed r row) causes))
              more,
        ))
        grows

  pub finish_plain : (r : Run Row Agg) → finish p r ≡ some (close_output p r.current_line r.writer)
  unfolding finish print_results
  finish_plain r =
      ap (λ o. o >>= (λ w. some (close_output p r.current_line w)))
        (if_is_false (do_stats p) _ _ no_stats ∙ if_is_false p.do_sorting _ _ no_sorting)
