-- ===== src/Query/Run/Steps.antt =====
-- `processDataset` of src/Query.cc for the rows of a table: an interruption leaves an error, and otherwise the
-- rows that are accepted are processed in turn.
use naemon_livestatus.Prelude.{
  ◌&&◌, ◌||◌, All, ℕ, Bool, true, false, not, List, [], ◌∷◌, ◌++◌, Option, some, ◌>>=◌,
  if◌then◌else◌, ltb, length, take, ◌≡◌, refl, sym, ap, ◌∙◌, ◌⊎◌, inl, inr, subst, Bool-cases,
  not-true,
}
use mathlib.Core.Bool.{true≢false}
use naemon_livestatus.Text.{Bytes}
use naemon_livestatus.Print.{Writer}
use naemon_livestatus.Output.{OutputBuffer, set_error, has_error, is_empty}
use naemon_livestatus.Output.ResponseCode
use naemon_livestatus.Query.Run.{
  Plan, Moment, Run, exceeded, too_large, canceled, too_slow, time_over, is_accepted,
  process_accepted, process_dataset, process_all,
}

not_empty : (s : Bytes) (c : ℕ) → is_empty (s ++ c ∷ []) ≡ false
not_empty [] c = refl
not_empty (a ∷ s) c = refl

error_of :
    (b : Bool) (o : OutputBuffer) (code : ℕ) (message : Bytes)
    → b ≡ is_empty o.error_message
    → has_error
        (if b then record o { error_message = message ++ b'\n' ∷ []; response_code = code } else o)
      ≡ true
error_of true o code message e = ap not (not_empty message b'\n')
error_of false o code message e = ap not (sym e)

-- an error is left by every call
set_error_leaves :
    (o : OutputBuffer) (code : ℕ) (message : Bytes) → has_error (set_error o code message) ≡ true
unfolding set_error
set_error_leaves o code message =
    error_of (is_empty o.error_message) o code (take 8190 message) refl

pub if_is_true {ℓ} : {A : Type ℓ} (b : Bool) (x y : A) → b ≡ true → (if b then x else y) ≡ x
if_is_true true x y h = refl
if_is_true false x y h = absurd (true≢false (sym h))

pub if_is_false {ℓ} : {A : Type ℓ} (b : Bool) (x y : A) → b ≡ false → (if b then x else y) ≡ y
if_is_false true x y h = absurd (true≢false h)
if_is_false false x y h = refl

not-false : (b : Bool) → not b ≡ false → b ≡ true
not-false true h = refl
not-false false h = absurd (true≢false h)

middle : (a b c : Bool) → b ≡ true → a || (b || c) ≡ true
middle true b c e = refl
middle false b c e = ap (λ b. b || c) e

last_one : (a b c : Bool) → c ≡ true → a || (b || c) ≡ true
last_one true b c e = refl
last_one false true c e = refl
last_one false false c e = e

and_false : (a : Bool) → a && false ≡ false
and_false true = refl
and_false false = refl

module _ {Row Agg : Type 0} (p : Plan Row Agg) where
  -- the rows that the query is about
  unfoldable pub accepted_rows : List (Moment × Row) → List Row
  accepted_rows [] = []
  accepted_rows ((m, row) ∷ rows) =
      let rest = accepted_rows rows in if is_accepted p row then row ∷ rest else rest

  abbrev pub Failed : Run Row Agg → Type 0
  Failed r = has_error r.writer.output ≡ true

  Failed-exceeded : (r : Run Row Agg) (message : Bytes) → Failed (exceeded p r message).0
  unfolding exceeded
  Failed-exceeded r message = set_error_leaves r.writer.output ResponseCode.limit_exceeded message

  pub Failed-too_large : (r : Run Row Agg) → Failed (too_large p r).0
  unfolding too_large
  Failed-too_large r = Failed-exceeded r _

  -- a moment that ends the query, at an accepted row at least
  abbrev pub is_troubled : Moment → Bool
  is_troubled m = m.terminating || (time_over p m || m.terminating_later)

  unfoldable pub is_calm : List (Moment × Row) → Bool
  is_calm [] = true
  is_calm ((m, row) ∷ rows) = not (is_troubled m) && is_calm rows

  -- the response is larger than it may be
  abbrev pub is_large : Writer → Bool
  is_large w = ltb p.max_response_size (length w.output.buffer)

module _ {Row Agg : Type 0} (p : Plan Row Agg) (Cause : Type 0) where
  -- an error, for a cause
  abbrev pub Stopped : Run Row Agg → Type 0
  Stopped r = Failed p r × Cause

  abbrev pub Causes : List (Moment × Row) → Type 0
  Causes rows = All (λ (x : Moment × Row). is_troubled p x.0 ≡ true → Cause) rows

  -- the calls end, with an error or with `P`
  abbrev pub Ran : List (Moment × Row) → Run Row Agg → (Run Row Agg → Type 0) → Type 0
  Ran rows r P = (s : Run Row Agg × Bool) × (process_all p rows r ≡ some s) × (Stopped s.0 ⊎ P s.0)

  -- what is to be shown of the state after a call
  abbrev pub Goes : List (Moment × Row) → (Run Row Agg → Type 0) → Run Row Agg × Bool → Type 0
  Goes rows P (r, true) = Ran rows r P
  Goes rows P (r, false) = Stopped r ⊎ P r

  abbrev pub Good :
      List (Moment × Row) → (Run Row Agg → Type 0) → Option (Run Row Agg × Bool) → Type 0
  Good rows P o = (s : Run Row Agg × Bool) × (o ≡ some s) × Goes rows P s

  if-Good :
      (rows : List (Moment × Row)) (P : Run Row Agg → Type 0) (b : Bool)
      (o o' : Option (Run Row Agg × Bool))
      → (b ≡ true → Good rows P o)
      → (b ≡ false → Good rows P o')
      → Good rows P (if b then o else o')
  if-Good rows P true o o' f g = f refl
  if-Good rows P false o o' f g = g refl

  stopped-Good :
      (rows : List (Moment × Row)) (P : Run Row Agg → Type 0) (r : Run Row Agg) (message : Bytes)
      → Cause
      → Good rows P (some (exceeded p r message))
  unfolding exceeded
  stopped-Good rows P r message cause =
      (_, refl, inl (set_error_leaves r.writer.output ResponseCode.limit_exceeded message, cause))

  process_dataset-Good :
      (m : Moment) (row : Row) (rows : List (Moment × Row)) (r : Run Row Agg)
      (P : Run Row Agg → Type 0)
      → (is_large p r.writer ≡ true → Cause)
      → (is_troubled p m ≡ true → Cause)
      → (is_accepted p row ≡ false → Ran rows r P)
      → (is_accepted p row ≡ true → Good rows P (process_accepted p r row))
      → Good rows P (process_dataset p m r row)
  unfolding process_dataset too_large canceled too_slow
  process_dataset-Good m row rows r P large trouble f g =
      if-Good rows P (ltb p.max_response_size (length r.writer.output.buffer)) _ _
        (λ e. stopped-Good rows P r _ (large e))
        (λ _.
          if-Good rows P m.terminating _ _
            (λ e.
              stopped-Good rows P r _
                (trouble (ap (λ b. b || (time_over p m || m.terminating_later)) e)))
            (λ _.
              if-Good rows P (not (is_accepted p row)) _ _
                (λ refused. ((r, true), refl, f (not-true _ refused)))
                (λ taken.
                  if-Good rows P (time_over p m) _ _
                    (λ e.
                      stopped-Good rows P r _
                        (trouble (middle m.terminating (time_over p m) m.terminating_later e)))
                    (λ _.
                      if-Good rows P m.terminating_later _ _
                        (λ e.
                          stopped-Good rows P r _ (
                            trouble (last_one m.terminating (time_over p m) m.terminating_later e)))
                        (λ _. g (not-false _ taken))))))

  -- what the loop makes of a call
  abbrev Joined :
      List (Moment × Row) → (Run Row Agg → Type 0) → Option (Run Row Agg × Bool) → Type 0
  Joined rows P o = (s : Run Row Agg × Bool) × (o ≡ some s) × (Stopped s.0 ⊎ P s.0)

  join :
      (rows : List (Moment × Row)) (P : Run Row Agg → Type 0) (s : Run Row Agg × Bool)
      → Goes rows P s
      → Joined rows P (if s.1 then process_all p rows s.0 else some (s.0, false))
  join rows P (r, true) h = h
  join rows P (r, false) h = ((r, false), refl, h)

  pub Ran-none : (r : Run Row Agg) (P : Run Row Agg → Type 0) → P r → Ran [] r P
  unfolding process_all
  Ran-none r P h = ((r, true), refl, inr h)

  pub Ran-more :
      (m : Moment) (row : Row) (rows : List (Moment × Row)) (r : Run Row Agg)
      (P : Run Row Agg → Type 0)
      → (is_large p r.writer ≡ true → Cause)
      → (is_troubled p m ≡ true → Cause)
      → (is_accepted p row ≡ false → Ran rows r P)
      → (is_accepted p row ≡ true → Good rows P (process_accepted p r row))
      → Ran ((m, row) ∷ rows) r P
  unfolding process_all
  Ran-more m row rows r P large trouble f g =
      let (s, e, goes) = process_dataset-Good m row rows r P large trouble f g in
      subst
        (λ o.
          Joined rows P
            (o >>= (λ (r', more). if more then process_all p rows r' else some (r', false))))
        (sym e) (join rows P s goes)

  pub Ran-map :
      (rows : List (Moment × Row)) (r : Run Row Agg) (P Q : Run Row Agg → Type 0)
      → ((r' : Run Row Agg) → P r' → Q r')
      → Ran rows r P
      → Ran rows r Q
  Ran-map rows r P Q f (s, e, inl failed) = (s, e, inl failed)
  Ran-map rows r P Q f (s, e, inr h) = (s, e, inr (f s.0 h))

  -- one more row, by whether it is accepted
  pub Ran-step :
      (m : Moment) (row : Row) (rows : List (Moment × Row)) (r : Run Row Agg)
      (Q : List Row → Type 0) (P : List Row → Run Row Agg → Type 0)
      → (is_large p r.writer ≡ true → Cause)
      → (is_troubled p m ≡ true → Cause)
      → (Q (accepted_rows p rows) → Ran rows r (P (accepted_rows p rows)))
      → (Q (row ∷ accepted_rows p rows)
          → Good rows (P (row ∷ accepted_rows p rows)) (process_accepted p r row))
      → Q (accepted_rows p ((m, row) ∷ rows))
      → Ran ((m, row) ∷ rows) r (P (accepted_rows p ((m, row) ∷ rows)))
  unfolding accepted_rows
  Ran-step m row rows r Q P large trouble without with_it q =
      elim (Bool-cases (is_accepted p row)) [
        | inl taken ↦
            let more = with_it (
              subst (λ b. Q (if b then row ∷ accepted_rows p rows else accepted_rows p rows)) taken
                q) in
            rw taken (
              Ran-more m row rows r (P (row ∷ accepted_rows p rows)) large trouble
                (λ refused. absurd (true≢false (sym taken ∙ refused))) (λ _. more))
        | inr refused ↦
            let rest = without (
              subst (λ b. Q (if b then row ∷ accepted_rows p rows else accepted_rows p rows))
                refused q) in
            rw refused (
              Ran-more m row rows r (P (accepted_rows p rows)) large trouble (λ _. rest)
                (λ taken. absurd (true≢false (sym taken ∙ refused))))
      ]

  pub calm-Causes : (rows : List (Moment × Row)) → (is_calm p rows ≡ false → Cause) → Causes rows
  unfolding is_calm
  calm-Causes [] cause = tt
  calm-Causes ((m, row) ∷ rows) cause = (
    λ e. cause (ap (λ b. not b && is_calm p rows) e),
    calm-Causes rows
        (λ e. cause (ap (λ b. not (is_troubled p m) && b) e ∙ and_false (not (is_troubled p m)))),
  )
