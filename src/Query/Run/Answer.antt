-- ===== src/Query/Run/Answer.antt =====
-- A query from `start` to `finish`, as `answerGetRequest` of src/Store.cc calls it for a table that goes through
-- its rows until `processDataset` returns false.
use naemon_livestatus.Prelude.{
  Bool, true, false, not, ◌&&◌, List, [], Option, some, ◌>>=◌, if◌then◌else◌, ◌≡◌, sym, ap, ◌∙◌,
  ◌⊎◌, inl, inr, Bool-cases, Option-cases,
}
use mathlib.Core.Option.{some_inj, none-ne-some}
use mathlib.Core.Bool.{true≢false}
use naemon_livestatus.Print.{Writer}
use naemon_livestatus.Output.{has_error}
use naemon_livestatus.Query.Run.{Plan, Moment, Run, do_stats, is_grouped, process_all}
use naemon_livestatus.Query.Run.Ends.{open_output, begun, start, finish}
use naemon_livestatus.Query.Run.Steps.{
  is_calm, is_large, Causes, calm-Causes, Ran, Stopped, if_is_true, if_is_false,
}

-- `if (!output->hasError()) query.finish()`
unfoldable pub finish_or_fail : {Row Agg : Type 0} → Plan Row Agg → Run Row Agg → Option Writer
finish_or_fail p r = if has_error r.writer.output then some r.writer else finish p r

unfoldable pub answer :
    {Row Agg : Type 0} → Plan Row Agg → List (Moment × Row) → Writer → Option Writer
answer p rows w = do r ← start p w; (r', more) ← process_all p rows r; finish_or_fail p r'

module _ {Row Agg : Type 0} (p : Plan Row Agg) where
  pub start-begun :
      (w : Writer) (r : Run Row Agg) → start p w ≡ some r → (w' : Writer) × (r ≡ begun p w')
  unfolding start
  start-begun w r e = elim (Option-cases (open_output p (record w { need_ds_separator = false }))) [
    | inl n ↦ absurd (none-ne-some _ (rw n at e))
    | inr (w', n) ↦ (w', sym (some_inj.0 (rw n at e)))
  ]

  pub started_line :
      (w : Writer) (r : Run Row Agg) → do_stats p ≡ false → start p w ≡ some r → r.current_line ≡ 0
  unfolding begun
  started_line w r no_stats e =
      let (w', same) = start-begun w r e in
      ap (λ (r : Run Row Agg). r.current_line) same
      ∙ ap (λ b. if b && not (is_grouped p) then 1 else 0) no_stats

  pub started_heap : (w : Writer) (r : Run Row Agg) → start p w ≡ some r → r.heap ≡ []
  unfolding begun
  started_heap w r e = let (w', same) = start-begun w r e in ap (λ (r : Run Row Agg). r.heap) same

  -- the query is answered, with an error for a cause or with `Q`
  abbrev pub Answers : Type 0 → List (Moment × Row) → Writer → (Writer → Type 0) → Type 0
  Answers Cause rows w Q =
      (w' : Writer) × (answer p rows w ≡ some w') × (((has_error w'.output ≡ true) × Cause) ⊎ Q w')

  answered_with :
      (Cause : Type 0) (rows : List (Moment × Row)) (w : Writer) (P : Run Row Agg → Type 0)
      (Q : Writer → Type 0) (r : Run Row Agg)
      → (Stopped p Cause r ⊎ P r)
      → ((r' : Run Row Agg) → P r' → has_error r'.writer.output ≡ true → Cause)
      → ((r' : Run Row Agg) → P r' → (w' : Writer) × (finish p r' ≡ some w') × Q w')
      → answer p rows w ≡ finish_or_fail p r
      → Answers Cause rows w Q
  unfolding finish_or_fail
  answered_with Cause rows w P Q r result blames ends answered =
      elim (Bool-cases (has_error r.writer.output)) [
        | inl failed ↦ (
          r.writer,
          answered ∙ if_is_true _ _ _ failed,
          inl (failed, elim result [ inl (_, cause) ↦ cause | inr h ↦ blames r h failed ]),
        )
        | inr fine ↦ elim result [
          | inl (failed, _) ↦ absurd (true≢false (sym failed ∙ fine))
          | inr h ↦ let (w', e, q) = ends r h in (w', answered ∙ if_is_false _ _ _ fine ∙ e, inr q)
        ]
      ]

  answered_by :
      (rows : List (Moment × Row)) (w : Writer) (r : Run Row Agg) (s : Run Row Agg × Bool)
      → start p w ≡ some r
      → process_all p rows r ≡ some s
      → answer p rows w ≡ finish_or_fail p s.0
  unfolding answer
  answered_by rows w r s started ran =
      ap (λ o. o >>= (λ r. process_all p rows r >>= (λ (r', more). finish_or_fail p r'))) started
      ∙ ap (λ o. o >>= (λ (r', more). finish_or_fail p r')) ran

  pub Ran-Answers :
      (Cause : Type 0) (rows : List (Moment × Row)) (w : Writer) (r : Run Row Agg)
      (P : Run Row Agg → Type 0) (Q : Writer → Type 0)
      → start p w ≡ some r
      → Ran p Cause rows r P
      → ((r' : Run Row Agg) → P r' → has_error r'.writer.output ≡ true → Cause)
      → ((r' : Run Row Agg) → P r' → (w' : Writer) × (finish p r' ≡ some w') × Q w')
      → Answers Cause rows w Q
  Ran-Answers Cause rows w r P Q started (s, ran, result) blames ends =
      answered_with Cause rows w P Q s.0 result blames ends (answered_by rows w r s started ran)

  -- the query is answered with an error for a cause, or its result is `o`
  abbrev pub Results : Type 0 → List (Moment × Row) → Writer → Option Writer → Type 0
  Results Cause rows w o =
      ((w' : Writer) × (answer p rows w ≡ some w') × (has_error w'.output ≡ true) × Cause)
      ⊎ (answer p rows w ≡ o)

  result_of :
      (Cause : Type 0) (rows : List (Moment × Row)) (w : Writer) (P : Run Row Agg → Type 0)
      (o : Option Writer) (r : Run Row Agg)
      → (Stopped p Cause r ⊎ P r)
      → ((r' : Run Row Agg) → P r' → has_error r'.writer.output ≡ true → Cause)
      → ((r' : Run Row Agg) → P r' → finish p r' ≡ o)
      → answer p rows w ≡ finish_or_fail p r
      → Results Cause rows w o
  unfolding finish_or_fail
  result_of Cause rows w P o r result blames ends answered =
      elim (Bool-cases (has_error r.writer.output)) [
        | inl failed ↦ inl (
          r.writer,
          answered ∙ if_is_true _ _ _ failed,
          failed,
          elim result [ inl (_, cause) ↦ cause | inr h ↦ blames r h failed ],
        )
        | inr fine ↦ elim result [
          | inl (failed, _) ↦ absurd (true≢false (sym failed ∙ fine))
          | inr h ↦ inr (answered ∙ if_is_false _ _ _ fine ∙ ends r h)
        ]
      ]

  pub Ran-Results :
      (Cause : Type 0) (rows : List (Moment × Row)) (w : Writer) (r : Run Row Agg)
      (P : Run Row Agg → Type 0) (o : Option Writer)
      → start p w ≡ some r
      → Ran p Cause rows r P
      → ((r' : Run Row Agg) → P r' → has_error r'.writer.output ≡ true → Cause)
      → ((r' : Run Row Agg) → P r' → finish p r' ≡ o)
      → Results Cause rows w o
  Ran-Results Cause rows w r P o started (s, ran, result) blames ends =
      result_of Cause rows w P o s.0 result blames ends (answered_by rows w r s started ran)

  -- the time or the core, the size of the response or an error ended the query before it had printed
  abbrev pub Interrupted : List (Moment × Row) → Writer → Type 0
  Interrupted rows w =
      (is_calm p rows ≡ false) ⊎ (is_large p w ≡ true) ⊎ (has_error w.output ≡ true)

  pub Interrupted-calm :
      (rows : List (Moment × Row)) (w : Writer) → Causes p (Interrupted rows w) rows
  Interrupted-calm rows w = calm-Causes p (Interrupted rows w) rows (λ e. inl e)

  pub Interrupted-writer :
      (rows : List (Moment × Row)) (w w' : Writer)
      → w' ≡ w
      → has_error w'.output ≡ true
      → Interrupted rows w
  Interrupted-writer rows w w' same failed =
      inr (inr (ap (λ (v : Writer). has_error v.output) (sym same) ∙ failed))
