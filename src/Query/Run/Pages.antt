-- ===== src/Query/Run/Pages.antt =====
-- What a query without statistics answers: with `Sort:` or without, with `Limit:` and `Offset:`.

use naemon_livestatus.Prelude.{
  ◌⊎◌, inl, inr, ℕ, zero, suc, ◌+◌, ◌-◌, ◌^◌, ◌<◌, Bool, true, false, List, [], ◌∷◌, Option, none,
  some, if◌then◌else◌, length, take, drop, Perm, ℤ, pos, negsuc, leb_ℤ, ◌≡◌, refl, sym, ap, ap₂,
  ◌∙◌, arith, leb, All,
}
use naemon_livestatus.Print.{Writer, is_wrapped, is_csv}
use naemon_livestatus.Output.{has_error}
use naemon_livestatus.Sorter.Order.{IsOrder, IsSorted}
use naemon_livestatus.Query.Paging.{plain_page, sorted_page}
use naemon_livestatus.Query.Paging.Plain.{plain_page-limit, plain_page_count}
use naemon_livestatus.Query.Paging.Limits.{sorted_page-limit, sorted_page_whole}
use naemon_livestatus.Query.Run.{Plan, Moment, Run, do_stats, print_row}
use naemon_livestatus.Query.Run.Ends.{print_rows, closing, close_output, start}
use naemon_livestatus.Query.Run.Steps.{is_calm, is_large, calm-Causes, accepted_rows}
use naemon_livestatus.Query.Run.Format.{KeepsFormat, print_row_format}
use naemon_livestatus.Query.Run.Plain.{process_all-Printed, finish_plain}
use naemon_livestatus.Query.Run.Sorting.{process_all-Collected, finish_sorting}
use naemon_livestatus.Query.Run.Heap.{started-Inserts}
use naemon_livestatus.Query.Run.Answer.{
  Interrupted, Interrupted-calm, Interrupted-writer, Answers, Ran-Answers, started_line,
  started_heap,
}

-- `Limit:`, which may be left out
abbrev pub as_limit : Option ℕ → ℤ
as_limit none = negsuc 0
as_limit (some limit) = pos limit

-- the place behind the last row that is wanted, as far as an int must hold it
abbrev pub last_row : Option ℕ → ℕ → ℕ
last_row none offset = offset
last_row (some limit) offset = offset + limit

-- the rows from the place `offset` on, as many as the limit admits
abbrev pub page_rows {ℓ} : {A : Type ℓ} → Option ℕ → ℕ → List A → List A
page_rows none offset rows = drop offset rows
page_rows (some limit) offset rows = take limit (drop offset rows)

drop_none {ℓ} : {A : Type ℓ} (n : ℕ) → drop {A = A} n [] ≡ []
drop_none zero = refl
drop_none (suc n) = refl

skipped {ℓ} :
    {Row : Type ℓ} (before : Bool) (offset line : ℕ) (row : Row) (rows : List Row)
    (rest : List Row × ℕ)
    → before ≡ leb (suc line) offset
    → rest.0 ≡ drop (offset - suc line) rows
    → (if before then rest else (row ∷ rest.0, rest.1)).0 ≡ drop (offset - line) (row ∷ rows)
skipped true offset line row rows rest b e =
    let left : offset - line ≡ suc (offset - suc line) = ground arith in
    e ∙ sym (ap (λ n. drop n (row ∷ rows)) left)
skipped false offset line row rows rest b e =
    let here : offset - line ≡ 0 = ground arith in
    let later : offset - suc line ≡ 0 = ground arith in
    ap (◌∷◌ row) (e ∙ ap (λ n. drop n rows) later) ∙ sym (ap (λ n. drop n (row ∷ rows)) here)

-- without a limit, the first rows are left out
no_limit {ℓ} :
    {Row : Type ℓ} (wrapped : Bool) (offset line : ℕ) (rows : List Row)
    → (plain_page wrapped (negsuc 0) (pos offset) line rows).0 ≡ drop (offset - line) rows
unfolding plain_page
no_limit wrapped offset line [] = sym (drop_none (offset - line))
no_limit wrapped offset line (row ∷ rows) =
    skipped (leb_ℤ (pos (suc line)) (pos offset)) offset line row rows
      (plain_page wrapped (negsuc 0) (pos offset) (suc line) rows) (ground arith)
      (no_limit wrapped offset (suc line) rows)

pub sorted_page-page_rows :
    {Row : Type 0} {compare : Row → Row → ℤ} (o : IsOrder compare) (limit : Option ℕ) (offset : ℕ)
    (rows : List Row)
    → (limit ≡ none → offset ≡ 0)
    → last_row limit offset < 2 ^ 31
    → (s : List Row) × Perm s rows
      × IsSorted compare s
      × (sorted_page compare (as_limit limit) (pos offset) rows ≡ some (page_rows limit offset s))
sorted_page-page_rows {compare = compare} o none offset rows whole small =
    let none_left = whole refl in
    let (s, same, sorted, page) = sorted_page_whole o rows in
    (
      s,
      same,
      sorted,
      ap (λ n. sorted_page compare (negsuc 0) (pos n) rows) none_left
          ∙ page
          ∙ ap (λ n. some (drop n s)) (sym none_left),
    )
sorted_page-page_rows o (some limit) offset rows whole small =
    sorted_page-limit o limit offset rows (omega arith)

plain_page-page_rows {ℓ} :
    {Row : Type ℓ} (wrapped : Bool) (limit : Option ℕ) (offset : ℕ) (rows : List Row)
    → last_row limit offset < 2 ^ 31
    → (plain_page wrapped (as_limit limit) (pos offset) 0 rows).0 ≡ page_rows limit offset rows
plain_page-page_rows wrapped none offset rows small =
    no_limit wrapped offset 0 rows ∙ ap (λ n. drop n rows) (omega arith)
plain_page-page_rows wrapped (some limit) offset rows small =
    plain_page-limit wrapped limit offset rows small

module _ {Row Agg : Type 0} (p : Plan Row Agg)
    (keeps_format : (row : Row) (w : Writer)
      → (print_row p row w).output_format ≡ w.output_format) where
  print_rows_format :
      (rows : List Row) (w : Writer) → (print_rows p rows w).output_format ≡ w.output_format
  unfolding print_rows
  print_rows_format [] w = refl
  print_rows_format (row ∷ rows) w = print_rows_format rows (print_row p row w) ∙ keeps_format row w

  closing_lines :
      (wrapped : Bool) (n m : ℕ) (w : Writer)
      → (wrapped ≡ true → n ≡ m)
      → closing p wrapped n w ≡ closing p wrapped m w
  unfolding closing
  closing_lines true n m w h = ap (λ k. closing p true k w) (h refl)
  closing_lines false n m w h = refl

  -- the number of lines shows in the wrapped format only
  close_output_lines :
      (n m : ℕ) (w : Writer)
      → (is_wrapped w.output_format ≡ true → n ≡ m)
      → close_output p n w ≡ close_output p m w
  unfolding close_output
  close_output_lines n m w h =
      ap (λ w'. if is_csv w.output_format then w else w')
        (closing_lines (is_wrapped w.output_format) n m w h)

  plain_end :
      (limit : Option ℕ) (offset : ℕ) (xs : List Row) (w : Writer) (page : List Row × ℕ)
      → last_row limit offset < 2 ^ 31
      → page ≡ plain_page (is_wrapped w.output_format) (as_limit limit) (pos offset) 0 xs
      → close_output p page.1 (print_rows p page.0 w)
        ≡ close_output p (length xs) (print_rows p (page_rows limit offset xs) w)
  plain_end limit offset xs w page small e =
      let count : is_wrapped (print_rows p page.0 w).output_format ≡ true → page.1 ≡ length xs =
        λ wrapped.
          ap (λ (q : List Row × ℕ). q.1) e
          ∙ ap (λ b. (plain_page b (as_limit limit) (pos offset) 0 xs).1)
              (sym (ap is_wrapped (print_rows_format page.0 w)) ∙ wrapped)
          ∙ plain_page_count (as_limit limit) (pos offset) xs in
      close_output_lines page.1 (length xs) (print_rows p page.0 w) count
      ∙ ap (λ rows. close_output p (length xs) (print_rows p rows w))
          (ap (λ (q : List Row × ℕ). q.0) e
            ∙ plain_page-page_rows (is_wrapped w.output_format) limit offset xs small)

-- the time or the core, the size of the response, or an error of a column ended the query while it printed `page`
abbrev pub Disturbed :
    {Row Agg : Type 0} → Plan Row Agg → List (Moment × Row) → List Row → Writer → Type 0
Disturbed p rows page w =
    (is_calm p rows ≡ false)
    ⊎ ((k : ℕ) × (is_large p (print_rows p (take k page) w) ≡ true))
    ⊎ (has_error (print_rows p page w).output ≡ true)

module _ {Row Agg : Type 0} (p : Plan Row Agg) (keep : All (KeepsFormat p) p.columns) where
  -- A query without Sort: and without statistics, in any output format, whose columns leave the
  -- format alone, with Offset: and Limit: of a sum below 2 ^ 31, or without Limit:, with Offset:
  -- below it: from start over processDataset for each row to finish, it ends with the rows that its
  -- filter and the authorisation accept, from the one at Offset: on and as many as Limit: admits, if
  -- there is one, each printed by printRow in the order of the table, between the opening and the
  -- closing of the response, which counts all accepted rows; or it ends with an error, and then the
  -- core was about to stop or the time was over at some row, or some of these rows had made the
  -- response larger than it may be, or starting or printing them had left an error.
  pub answer-plain :
      (limit : Option ℕ) (offset : ℕ) (rows : List (Moment × Row)) (w : Writer) (r : Run Row Agg)
      → do_stats p ≡ false
      → p.do_sorting ≡ false
      → p.limit ≡ as_limit limit
      → p.offset ≡ pos offset
      → last_row limit offset < 2 ^ 31
      → start p w ≡ some r
      → let xs = accepted_rows p rows in
        Answers p (Disturbed p rows (page_rows limit offset xs) r.writer) rows w (λ w'.
          w' ≡ close_output p (length xs) (print_rows p (page_rows limit offset xs) r.writer))
  answer-plain limit offset rows w r no_stats no_sorting with_limit with_offset small started =
      let xs = accepted_rows p rows in
      let keeps_format = print_row_format p keep in
      let wrapped = is_wrapped r.writer.output_format in
      let page = plain_page wrapped p.limit p.offset r.current_line xs in
      let from_zero : page ≡ plain_page wrapped (as_limit limit) (pos offset) 0 xs =
        ap₂ (λ l o. plain_page wrapped l o r.current_line xs) with_limit with_offset
        ∙ ap (λ n. plain_page wrapped (as_limit limit) (pos offset) n xs)
            (started_line p w r no_stats started) in
      let same : page.0 ≡ page_rows limit offset xs =
        ap (λ (q : List Row × ℕ). q.0) from_zero
        ∙ plain_page-page_rows wrapped limit offset xs small in
      let Cause = Disturbed p rows (page_rows limit offset xs) r.writer in
      Ran-Answers p Cause rows w r _ _ started
        (process_all-Printed p no_stats no_sorting keeps_format Cause rows r
          (calm-Causes p Cause rows (λ e. inl e))
          (λ k e.
            inr
              (inl (k, ap (λ ys. is_large p (print_rows p (take k ys) r.writer)) (sym same) ∙ e))))
        (λ r' (written, lines) failed. inr (
          inr (
            ap (λ ys. has_error (print_rows p ys r.writer).output) (sym same)
            ∙ ap (λ (v : Writer). has_error v.output) (sym written)
            ∙ failed)))
        (λ r' (written, lines). (
          close_output p r'.current_line r'.writer,
          finish_plain p no_stats no_sorting keeps_format r',
          ap₂ (close_output p) lines written
              ∙ plain_end p keeps_format limit offset xs r.writer page small from_zero,
        ))

-- `Sort:` with a limit, or with neither limit nor offset
module _ {Row Agg : Type 0} (p : Plan Row Agg) (o : IsOrder p.compare) where
  -- A query with Sort: and without statistics, for a comparison of rows that is an order, with
  -- Limit: and Offset: of a sum below 2 ^ 31 or with neither of them, ends with a page of the
  -- accepted rows in ascending order: for some arrangement in this order, the rows from the place of
  -- Offset: on and as many as Limit: admits, each printed by printRow, in a response that counts all
  -- accepted rows; or it ends with an error, and then the core was about to stop or the time was
  -- over at some row, or the opening of the response was larger than it may be or had an error.
  pub answer-IsSorted :
      (limit : Option ℕ) (offset : ℕ) (rows : List (Moment × Row)) (w : Writer) (r : Run Row Agg)
      → do_stats p ≡ false
      → p.do_sorting ≡ true
      → p.limit ≡ as_limit limit
      → p.offset ≡ pos offset
      → (limit ≡ none → offset ≡ 0)
      → last_row limit offset < 2 ^ 31
      → start p w ≡ some r
      → let xs = accepted_rows p rows in
        (s : List Row) × Perm s xs
        × IsSorted p.compare s
        × Answers p (Interrupted p rows r.writer) rows w (λ w'.
          w' ≡ close_output p (length xs) (print_rows p (page_rows limit offset s) r.writer))
  answer-IsSorted limit offset rows w r no_stats sorting with_limit with_offset whole small
        started =
      let xs = accepted_rows p rows in
      let (s, same, sorted, page) = sorted_page-page_rows o limit offset xs whole small in
      (
        s,
        same,
        sorted,
        Ran-Answers p (Interrupted p rows r.writer) rows w r _ _ started
            (process_all-Collected p no_stats sorting (Interrupted p rows r.writer) rows r
              (Interrupted-calm p rows r.writer) (λ e. inr (inl e))
              (started-Inserts p o r (started_heap p w r started)))
            (λ r' c. Interrupted-writer p rows r.writer r'.writer c.writer)
            (λ r' c. (
              close_output p r'.current_line (print_rows p (page_rows limit offset s) r'.writer),
              finish_sorting p no_stats sorting r r' xs (page_rows limit offset s)
                  (started_heap p w r started) c
                  (ap₂ (λ l n. sorted_page p.compare l n xs) with_limit with_offset ∙ page),
              ap₂ (λ n v. close_output p n (print_rows p (page_rows limit offset s) v))
                  (c.lines
                    ∙ ap (λ n. n + length xs) (started_line p w r no_stats started)
                    ∙ omega arith)
                  c.writer,
            )),
      )
