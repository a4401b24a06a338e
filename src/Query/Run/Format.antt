-- ===== src/Query/Run/Format.antt =====
-- No row changes the output format, as long as no column does.
use naemon_livestatus.Prelude.{
  Bool, true, false, not, ◌&&◌, List, [], ◌∷◌, if◌then◌else◌, ◌≡◌, refl, ◌∙◌, All,
}
use naemon_livestatus.Text.{codes}
use naemon_livestatus.Print.{
  Writer, OutputFormat, is_csv, put, output_dataset_begin, output_dataset_end,
  output_field_separator,
}
use naemon_livestatus.Query.Run.{OutColumn, Plan, print_more, print_fields, print_row}

same_format :
    (b : Bool) (x y : Writer) (f : OutputFormat)
    → x.output_format ≡ f
    → y.output_format ≡ f
    → (if b then x else y).output_format ≡ f
same_format true x y f e e' = e
same_format false x y f e e' = e'

begin_format : (w : Writer) → (output_dataset_begin w).output_format ≡ w.output_format
unfolding output_dataset_begin
begin_format w =
    let inner =
      same_format (w.need_ds_separator && not (is_csv w.output_format)) (put w (codes ",\n")) w
        w.output_format refl refl in
    same_format (not (is_csv w.output_format)) _ _ w.output_format inner inner

end_format : (w : Writer) → (output_dataset_end w).output_format ≡ w.output_format
unfolding output_dataset_end
end_format w = same_format (is_csv w.output_format) _ _ w.output_format refl refl

separator_format : (w : Writer) → (output_field_separator w).output_format ≡ w.output_format
unfolding output_field_separator
separator_format w = same_format (is_csv w.output_format) _ _ w.output_format refl refl

module _ {Row Agg : Type 0} (p : Plan Row Agg) where
  -- what a column writes is written in the format of the query
  abbrev pub KeepsFormat : OutColumn Row → Type 0
  KeepsFormat c = (row : Row) (w : Writer) → (c.output row w).output_format ≡ w.output_format

  more_format :
      (cs : List (OutColumn Row)) (row : Row) (w : Writer)
      → All KeepsFormat cs
      → (print_more p cs row w).output_format ≡ w.output_format
  unfolding print_more
  more_format [] row w keep = refl
  more_format (c ∷ cs) row w (k, keep) =
      more_format cs row (c.output row (output_field_separator w)) keep
      ∙ k row (output_field_separator w)
      ∙ separator_format w

  fields_format :
      (cs : List (OutColumn Row)) (row : Row) (w : Writer)
      → All KeepsFormat cs
      → (print_fields p cs row w).output_format ≡ w.output_format
  unfolding print_fields
  fields_format [] row w keep = refl
  fields_format (c ∷ cs) row w (k, keep) = more_format cs row (c.output row w) keep ∙ k row w

  pub print_row_format :
      All KeepsFormat p.columns
      → (row : Row) (w : Writer) → (print_row p row w).output_format ≡ w.output_format
  unfolding print_row
  print_row_format keep row w =
      end_format (print_fields p p.columns row (output_dataset_begin w))
      ∙ fields_format p.columns row (output_dataset_begin w) keep
      ∙ begin_format w
