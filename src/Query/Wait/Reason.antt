-- ===== src/Query/Wait/Reason.antt =====
-- What is known when the waiting of a query has ended.
use mathlib.Core.Bool.{true≢false}
use naemon_livestatus.Prelude.{
  ℕ, Bool, true, false, not, ◌&&◌, ◌||◌, and_both, or_true, List, [], ◌∷◌, if◌then◌else◌, ◌==◌, ◌≡◌,
  refl, sym, subst, inl, inr, arith, Bool-cases,
}
use naemon_livestatus.Filter.{size, all_accept}
use naemon_livestatus.Query.{Query, wt_none}
use naemon_livestatus.Query.Wait.{
  Waited, unneeded, expired, holds, Phase, checking, about_to_wait, waiting, ended, Event, turn,
  signalled, deadline_reached, spurious, waits_on, is_unlimited, is_refused, before_loop, step,
  steps, do_wait,
}

or_assoc : (a b c : Bool) → (a || b) || c ≡ a || (b || c)
or_assoc true b c = refl
or_assoc false b c = refl

or_nothing : (a : Bool) → a || false ≡ a
or_nothing true = refl
or_nothing false = refl

stays_true : (a b : Bool) → a ≡ true → a || b ≡ true
stays_true true b e = refl
stays_true false b e = absurd (true≢false (sym e))

module _ {Row : Type 0} (q : Query Row) where
  -- a turn at which the condition is true
  abbrev is_true_at : Event Row → Bool
  is_true_at (turn object) = all_accept q.wait_condition object
  is_true_at event = false

  abbrev is_deadline : Event Row → Bool
  is_deadline deadline_reached = true
  is_deadline event = false

  unfoldable pub was_true : List (Event Row) → Bool
  was_true [] = false
  was_true (event ∷ events) = is_true_at event || was_true events

  unfoldable pub was_reached : List (Event Row) → Bool
  was_reached [] = false
  was_reached (event ∷ events) = is_deadline event || was_reached events

  -- what the end of the waiting means, by whether the condition was true and whether the deadline was reached
  abbrev pub Known : Bool → Bool → Phase → Type 0
  Known was reached (ended unneeded) = (size q.wait_condition ≡ 0) × (q.wait_trigger ≡ wt_none)
  Known was reached (ended expired) = (is_unlimited q ≡ false) × (reached ≡ true)
  Known was reached (ended holds) = was ≡ true
  Known was reached phase = Unit

  Known-more :
      (was reached b c : Bool) (w : Waited)
      → Known was reached (ended w)
      → Known (was || b) (reached || c) (ended w)
  Known-more was reached b c unneeded k = k
  Known-more was reached b c expired (unlimited, k) = (unlimited, stays_true reached c k)
  Known-more was reached b c holds k = stays_true was b k

  Known-turn :
      (was reached b : Bool) → Known (was || b) reached (if b then ended holds else about_to_wait)
  Known-turn was reached true = or_true was
  Known-turn was reached false = tt

  Known-signal : (was reached b : Bool) → Known was reached (if b then checking else waiting)
  Known-signal was reached true = tt
  Known-signal was reached false = tt

  Known-deadline :
      (was reached b : Bool)
      → b ≡ is_unlimited q
      → Known was (reached || true) (if b then waiting else ended expired)
  Known-deadline was reached true e = tt
  Known-deadline was reached false e = (sym e, or_true reached)

  Known-before :
      (some_filter was reached : Bool)
      → Known was reached (if some_filter && was then ended holds else about_to_wait)
  Known-before false was reached = tt
  Known-before true true reached = refl
  Known-before true false reached = tt

  before_loop-Known :
      (object : Row) → Known (all_accept q.wait_condition object) false (before_loop q object)
  unfolding before_loop
  before_loop-Known object =
      elim (Bool-cases ((size q.wait_condition == 0) && (q.wait_trigger == wt_none))) [
        | inl e ↦
            let (a, b) = and_both (size q.wait_condition == 0) (q.wait_trigger == wt_none) e in
            rw e (ground (arith, a), ground (arith, b))
        | inr e ↦ rw e (
            Known-before (not (size q.wait_condition == 0)) (all_accept q.wait_condition object)
              false)
      ]

module _ {Row : Type 0} (q : Query Row) (sec usec : ℕ) where
  step-Known :
      (was reached : Bool) (phase : Phase) (event : Event Row)
      → Known q was reached phase
      → Known q
          (was || is_true_at q event)
          (reached || is_deadline q event)
          (step q sec usec phase event)
  unfolding step
  step-Known was reached checking (turn object) k =
      Known-turn q was (reached || false) (all_accept q.wait_condition object)
  step-Known was reached checking (signalled trigger) k = tt
  step-Known was reached checking deadline_reached k = tt
  step-Known was reached checking spurious k = tt
  step-Known was reached about_to_wait (turn object) k =
      Known-signal q (was || all_accept q.wait_condition object) (reached || false)
        (is_refused q sec usec)
  step-Known was reached about_to_wait (signalled trigger) k = tt
  step-Known was reached about_to_wait deadline_reached k = tt
  step-Known was reached about_to_wait spurious k = tt
  step-Known was reached waiting (turn object) k = tt
  step-Known was reached waiting (signalled trigger) k =
      Known-signal q (was || false) (reached || false) (trigger == waits_on q)
  step-Known was reached waiting deadline_reached k =
      Known-deadline q (was || false) reached (is_unlimited q) refl
  step-Known was reached waiting spurious k = tt
  step-Known was reached (ended w) (turn object) k =
      Known-more q was reached (all_accept q.wait_condition object) false w k
  step-Known was reached (ended w) (signalled trigger) k = Known-more q was reached false false w k
  step-Known was reached (ended w) deadline_reached k = Known-more q was reached false true w k
  step-Known was reached (ended w) spurious k = Known-more q was reached false false w k

  steps-Known :
      (was reached : Bool) (phase : Phase) (events : List (Event Row))
      → Known q was reached phase
      → Known q
          (was || was_true q events)
          (reached || was_reached q events)
          (steps q sec usec phase events)
  unfolding steps was_true was_reached
  steps-Known was reached phase [] k =
      subst (λ b. Known q b (reached || false) phase) (sym (or_nothing was))
        (subst (λ b. Known q was b phase) (sym (or_nothing reached)) k)
  steps-Known was reached phase (e ∷ events) k =
      let end = steps q sec usec (step q sec usec phase e) events in
      subst (λ b. Known q b (reached || (is_deadline q e || was_reached q events)) end)
        (or_assoc was (is_true_at q e) (was_true q events))
        (subst (λ b. Known q ((was || is_true_at q e) || was_true q events) b end)
          (or_assoc reached (is_deadline q e) (was_reached q events))
          (steps-Known (was || is_true_at q e) (reached || is_deadline q e)
            (step q sec usec phase e) events (step-Known was reached phase e k)))

  -- Waiting ends with a reason: without one only if the query has neither a condition nor a trigger,
  -- with a timeout only if it has one and the deadline was reached, and otherwise only if the
  -- condition was true of the object when the thread looked at it.
  pub do_wait-reason :
      (object : Row) (events : List (Event Row))
      → Known q
          (all_accept q.wait_condition object || was_true q events)
          (was_reached q events)
          (do_wait q sec usec object events)
  unfolding do_wait
  do_wait-reason object events =
      steps-Known (all_accept q.wait_condition object) false (before_loop q object) events
        (before_loop-Known q object)
