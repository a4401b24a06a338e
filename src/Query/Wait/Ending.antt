-- ===== src/Query/Wait/Ending.antt =====
-- When the waiting of a query ends, and why.
use mathlib.Core.Bool.{true≢false}
use naemon_livestatus.Prelude.{
  ℕ, ◌+◌, ◌*◌, ◌%◌, ◌<◌, ◌≤◌, Bool, true, false, not, ◌&&◌, List, [], ◌∷◌, ◌++◌, map, ◌==◌, ◌≡◌,
  refl, sym, ap, ap₂, subst, ◌∙◌, ◌⊎◌, ◌↔◌, inl, inr, arith, Bool-cases,
}
use naemon_livestatus.Filter.{Filters, nil, cons, size, all_accept}
use naemon_livestatus.Query.{Query, wt_none}
use naemon_livestatus.Query.Wait.{
  Waited, expired, holds, Phase, checking, about_to_wait, waiting, ended, Event, turn, signalled,
  deadline_reached, spurious, deadline, waits_on, is_unlimited, is_refused, before_loop, step,
  steps, do_wait,
}
use naemon_livestatus.Query.Run.Steps.{if_is_true, if_is_false}

-- For a time of less than a million microseconds: the deadline of doWait lies WaitTimeout:
-- milliseconds behind the time, and its nanoseconds are at most a second; they are a whole second,
-- which POSIX does not allow, exactly when the microseconds and the fraction of the timeout make
-- one.
pub deadline_lem :
    (sec usec timeout : ℕ)
    → usec < 1000000
    → let d = deadline sec usec timeout in
      (d.0 * 1000000000 + d.1 ≡ sec * 1000000000 + usec * 1000 + timeout * 1000000)
      × (d.1 ≤ 1000000000)
      × ((d.1 ≡ 1000000000) ↔ (usec + 1000 * (timeout % 1000) ≡ 1000000))
unfolding deadline
deadline_lem sec usec timeout h = ground arith

itself : (n : ℕ) → n == n ≡ true
itself n = ground arith

abbrev pub Ends : Phase → Type 0
Ends phase = (w : Waited) × (phase ≡ ended w)

module _ {Row : Type 0} (q : Query Row) (sec usec : ℕ) where
  steps-append :
      (phase : Phase) (before after : List (Event Row))
      → steps q sec usec phase (before ++ after)
        ≡ steps q sec usec (steps q sec usec phase before) after
  unfolding steps
  steps-append phase [] after = refl
  steps-append phase (e ∷ before) after = steps-append (step q sec usec phase e) before after

  steps-ended :
      (w : Waited) (events : List (Event Row)) → steps q sec usec (ended w) events ≡ ended w
  unfolding steps step
  steps-ended w [] = refl
  steps-ended w (turn o ∷ events) = steps-ended w events
  steps-ended w (signalled t ∷ events) = steps-ended w events
  steps-ended w (deadline_reached ∷ events) = steps-ended w events
  steps-ended w (spurious ∷ events) = steps-ended w events

  abbrev accepted : Row → Bool
  accepted object = all_accept q.wait_condition object

  -- two turns lead to the wait, or to the end
  two_turns :
      (phase : Phase) (first second : Row)
      → is_refused q sec usec ≡ false
      → Ends (step q sec usec (step q sec usec phase (turn first)) (turn second))
        ⊎ (step q sec usec (step q sec usec phase (turn first)) (turn second) ≡ waiting)
  unfolding step
  two_turns checking first second valid = elim (Bool-cases (accepted first)) [
    | inl e ↦ inl (holds, rw e refl)
    | inr e ↦ inr (rw (e, valid) refl)
  ]
  two_turns about_to_wait first second valid = inr (rw valid refl)
  two_turns waiting first second valid = inr refl
  two_turns (ended w) first second valid = inl (w, refl)

  abbrev Ending : List (Event Row) → Type 0
  Ending cause =
      (phase : Phase) → Ends phase ⊎ (phase ≡ waiting) → Ends (steps q sec usec phase cause)

  ended_by : (cause : List (Event Row)) → Ends (steps q sec usec waiting cause) → Ending cause
  ended_by cause e phase (inl (w, p)) =
      (w, ap (λ ph. steps q sec usec ph cause) p ∙ steps-ended w cause)
  ended_by cause (w, e) phase (inr p) = (w, ap (λ ph. steps q sec usec ph cause) p ∙ e)

  wakes : step q sec usec waiting (signalled (waits_on q)) ≡ checking
  unfolding step
  wakes = if_is_true (waits_on q == waits_on q) _ _ (itself (waits_on q))

  signal-Ends :
      (last : Row) (later : List (Event Row))
      → accepted last ≡ true
      → Ends (steps q sec usec waiting (signalled (waits_on q) ∷ turn last ∷ later))
  unfolding steps step
  signal-Ends last later e = (
    holds,
    ap (λ phase. steps q sec usec (step q sec usec phase (turn last)) later) wakes
        ∙ ap (λ phase. steps q sec usec phase later) (if_is_true (accepted last) _ _ e)
        ∙ steps-ended holds later,
  )

  deadline-Ends :
      (later : List (Event Row))
      → is_unlimited q ≡ false
      → Ends (steps q sec usec waiting (deadline_reached ∷ later))
  unfolding steps step
  deadline-Ends later e = (expired, rw e (steps-ended expired later))

  do_wait-cause :
      (object first second : Row) (events cause : List (Event Row))
      → is_refused q sec usec ≡ false
      → Ends (steps q sec usec waiting cause)
      → Ends (do_wait q sec usec object (events ++ turn first ∷ turn second ∷ cause))
  unfolding do_wait steps
  do_wait-cause object first second events cause valid ends =
      let phase = steps q sec usec (before_loop q object) events in
      let (w, e) =
        ended_by cause ends (step q sec usec (step q sec usec phase (turn first)) (turn second))
          (two_turns phase first second valid) in
      (w, steps-append (before_loop q object) events (turn first ∷ turn second ∷ cause) ∙ e)

  -- a signal and a turn at which the condition is true, or the deadline
  abbrev pub Cause : List (Event Row) → Type 0
  Cause cause =
      ((last : Row) × (cause ≡ signalled (waits_on q) ∷ turn last ∷ [])
        × (all_accept q.wait_condition last ≡ true))
      ⊎ ((cause ≡ deadline_reached ∷ []) × (is_unlimited q ≡ false))

  Cause-Ends :
      (cause later : List (Event Row))
      → Cause cause
      → Ends (steps q sec usec waiting (cause ++ later))
  Cause-Ends cause later (inl (last, e, true_then)) =
      subst (λ c. Ends (steps q sec usec waiting (c ++ later))) (sym e)
        (signal-Ends last later true_then)
  Cause-Ends cause later (inr (e, limited)) =
      subst (λ c. Ends (steps q sec usec waiting (c ++ later))) (sym e)
        (deadline-Ends later limited)

  -- The waiting of a query ends, when pthread_cond_timedwait takes its deadline or it has none:
  -- whatever has happened before, when the thread gets two turns and then either the condition
  -- variable that it waits on is signalled and the condition is true of the object at its next turn,
  -- or the deadline is reached and there is one, it has ended, and it does not begin again.
  pub do_wait-Ends :
      (object first second : Row) (events cause later : List (Event Row))
      → is_refused q sec usec ≡ false
      → Cause cause
      → Ends (do_wait q sec usec object (events ++ turn first ∷ turn second ∷ (cause ++ later)))
  do_wait-Ends object first second events cause later valid c =
      do_wait-cause object first second events (cause ++ later) valid (Cause-Ends cause later c)

  some_filter :
      (fs : Filters Row) (object : Row) → all_accept fs object ≡ false → size fs == 0 ≡ false
  unfolding all_accept size
  some_filter nil object e = absurd (true≢false e)
  some_filter (cons f fs) object e = ground arith

  goes_on : (object : Row) → accepted object ≡ false → before_loop q object ≡ about_to_wait
  unfolding before_loop
  goes_on object e =
      let empty : size q.wait_condition == 0 ≡ false = some_filter q.wait_condition object e in
      if_is_false ((size q.wait_condition == 0) && (q.wait_trigger == wt_none)) _ _
        (ap (λ b. b && (q.wait_trigger == wt_none)) empty)
      ∙ if_is_false (not (size q.wait_condition == 0) && accepted object) _ _
          (ap₂ (λ a b. not a && b) empty e)

  stays : (objects : List Row) → steps q sec usec waiting (map turn objects) ≡ waiting
  unfolding steps step
  stays [] = refl
  stays (o ∷ objects) = stays objects

  -- When pthread_cond_timedwait takes the deadline or there is none, a signal is lost: when the
  -- condition is false at first and the condition variable is signalled before the thread waits on
  -- it, the thread waits on, also if the condition is true of the object from then on and however
  -- many turns the thread gets.
  pub do_wait-lost :
      (object next : Row) (objects : List Row)
      → is_refused q sec usec ≡ false
      → accepted object ≡ false
      → do_wait q sec usec object (signalled (waits_on q) ∷ map turn (next ∷ objects)) ≡ waiting
  unfolding do_wait steps step before_loop
  do_wait-lost object next objects valid e =
      ap
        (λ phase.
          steps q sec usec
            (step q sec usec (step q sec usec phase (signalled (waits_on q))) (turn next))
            (map turn objects))
        (goes_on object e)
      ∙ rw valid (stays objects)
