-- ===== src/Query/Wait/Refused.antt =====
-- The waiting of a query whose deadline `pthread_cond_timedwait` refuses.
use naemon_livestatus.Prelude.{
  ℕ, Bool, true, false, List, [], ◌∷◌, ◌&&◌, not, if◌then◌else◌, ◌==◌, ◌≡◌, sym, subst,
}
use mathlib.Core.Bool.{true≢false}
use naemon_livestatus.Filter.{size, all_accept}
use naemon_livestatus.Query.{Query, wt_none}
use naemon_livestatus.Query.Wait.{
  unneeded, expired, holds, Phase, checking, about_to_wait, waiting, ended, Event, turn, signalled,
  deadline_reached, spurious, is_refused, before_loop, step, steps, do_wait,
}

-- neither asleep nor ended by the timeout
abbrev Spins : Phase → Type 0
Spins waiting = false ≡ true
Spins (ended expired) = false ≡ true
Spins phase = Unit

looked_at : (b : Bool) → Spins (if b then ended holds else about_to_wait)
looked_at true = tt
looked_at false = tt

not_asleep :
    (nothing true_now : Bool)
    → Spins (if nothing then ended unneeded else if true_now then ended holds else about_to_wait)
not_asleep true true_now = tt
not_asleep false true_now = looked_at true_now

false≢true : ¬ (false ≡ true)
false≢true e = true≢false (sym e)

module _ {Row : Type 0} (q : Query Row) (sec usec : ℕ) where
  step-Spins :
      (phase : Phase) (event : Event Row)
      → is_refused q sec usec ≡ true
      → Spins phase
      → Spins (step q sec usec phase event)
  unfolding step
  step-Spins checking (turn object) e s = looked_at (all_accept q.wait_condition object)
  step-Spins checking (signalled t) e s = tt
  step-Spins checking deadline_reached e s = tt
  step-Spins checking spurious e s = tt
  step-Spins about_to_wait (turn object) e s = rw e tt
  step-Spins about_to_wait (signalled t) e s = tt
  step-Spins about_to_wait deadline_reached e s = tt
  step-Spins about_to_wait spurious e s = tt
  step-Spins waiting event e s = absurd (false≢true s)
  step-Spins (ended expired) event e s = absurd (false≢true s)
  step-Spins (ended unneeded) (turn object) e s = tt
  step-Spins (ended unneeded) (signalled t) e s = tt
  step-Spins (ended unneeded) deadline_reached e s = tt
  step-Spins (ended unneeded) spurious e s = tt
  step-Spins (ended holds) (turn object) e s = tt
  step-Spins (ended holds) (signalled t) e s = tt
  step-Spins (ended holds) deadline_reached e s = tt
  step-Spins (ended holds) spurious e s = tt

  steps-Spins :
      (phase : Phase) (events : List (Event Row))
      → is_refused q sec usec ≡ true
      → Spins phase
      → Spins (steps q sec usec phase events)
  unfolding steps
  steps-Spins phase [] e s = s
  steps-Spins phase (event ∷ events) e s =
      steps-Spins (step q sec usec phase event) events e (step-Spins phase event e s)

  before_loop-Spins : (object : Row) → Spins (before_loop q object)
  unfolding before_loop
  before_loop-Spins object =
      not_asleep ((size q.wait_condition == 0) && (q.wait_trigger == wt_none))
        (not (size q.wait_condition == 0) && all_accept q.wait_condition object)

  -- A query with a timeout whose deadline has a whole second or more in nanoseconds never sleeps and
  -- never times out: whatever happens, its thread does not wait on the condition variable, and the
  -- waiting does not end by the timeout, as pthread_cond_timedwait refuses the deadline at once.
  pub do_wait-refused :
      (object : Row) (events : List (Event Row))
      → is_refused q sec usec ≡ true
      → let phase = do_wait q sec usec object events in
        ¬ (phase ≡ waiting) × ¬ (phase ≡ ended expired)
  unfolding do_wait
  do_wait-refused object events e =
      let spins = steps-Spins (before_loop q object) events e (before_loop-Spins object) in
      (λ p. false≢true (subst Spins p spins), λ p. false≢true (subst Spins p spins))
