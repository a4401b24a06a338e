-- ===== src/Query/Wait.antt =====
-- `doWait` of src/Query.cc, which `start` calls first. Other threads signal the condition variables of
-- src/waittriggers.c, and change the object that the query waits for between two turns of this one.
pub mod Ending
pub mod Reason
pub mod Refused
use naemon_livestatus.Prelude.{
  ℕ, suc, ◌+◌, ◌-◌, ◌*◌, ◌/◌, ◌%◌, Bool, true, false, not, ◌&&◌, List, [], ◌∷◌, if◌then◌else◌, ltb,
  leb, ◌==◌, ℤ, pos_part,
}
use naemon_livestatus.Filter.{Filters, size, all_accept}
use naemon_livestatus.Query.{Query, wt_none}

-- why there is no more waiting: nothing to wait for, `ETIMEDOUT`, or the condition
pub data Waited : Type 0 where
  unneeded expired holds : Waited

-- `checking` is in front of the condition of the loop, `about_to_wait` in front of `pthread_cond_wait` or
-- `pthread_cond_timedwait`
pub data Phase : Type 0 where
  checking about_to_wait waiting : Phase
  ended : Waited → Phase

-- a turn of the thread, on the object as it is then; a signal; a time at or behind the deadline; a wake-up without
-- a signal, as POSIX allows
pub data Event (Row : Type 0) : Type 0 where
  turn : Row → Event Row
  signalled : ℕ → Event Row
  deadline_reached spurious : Event Row

-- `WT_ALL`
abbrev pub wt_all : ℕ
wt_all = 0

-- seconds and nanoseconds, for `pthread_cond_timedwait`
unfoldable pub deadline : ℕ → ℕ → ℕ → ℕ × ℕ
deadline sec usec timeout =
    let nsec = usec * 1000 + 1000 * 1000 * (timeout % 1000) in
    if ltb 1000000000 nsec
    then (suc (sec + timeout / 1000), nsec - 1000000000)
    else (sec + timeout / 1000, nsec)

module _ {Row : Type 0} (q : Query Row) where
  -- what is waited on
  abbrev pub waits_on : ℕ
  waits_on = if q.wait_trigger == wt_none then wt_all else q.wait_trigger

  abbrev pub is_unlimited : Bool
  is_unlimited = pos_part q.wait_timeout == 0

  -- up to the loop
  unfoldable pub before_loop : Row → Phase
  before_loop object =
      if (size q.wait_condition == 0) && (q.wait_trigger == wt_none)
      then ended unneeded
      else if not (size q.wait_condition == 0) && all_accept q.wait_condition object
      then ended holds
      else about_to_wait

-- `sec` and `usec` are the time that `gettimeofday` tells
module _ {Row : Type 0} (q : Query Row) (sec usec : ℕ) where
  -- `EINVAL`: `pthread_cond_timedwait` refuses the nanoseconds of the deadline at once
  abbrev pub is_refused : Bool
  is_refused =
      not (is_unlimited q) && leb 1000000000 (deadline sec usec (pos_part q.wait_timeout)).1

  unfoldable pub step : Phase → Event Row → Phase
  step checking (turn object) =
      if all_accept q.wait_condition object then ended holds else about_to_wait
  step about_to_wait (turn object) = if is_refused then checking else waiting
  step waiting (signalled trigger) = if trigger == waits_on q then checking else waiting
  step waiting deadline_reached = if is_unlimited q then waiting else ended expired
  step waiting spurious = checking
  step phase _ = phase

  unfoldable pub steps : Phase → List (Event Row) → Phase
  steps phase [] = phase
  steps phase (event ∷ events) = steps (step phase event) events

  unfoldable pub do_wait : Row → List (Event Row) → Phase
  do_wait object events = steps (before_loop q object) events
