-- ===== src/TableLog.antt =====
-- `answerQuery` of src/TableLog.cc, and `answerQuery` and `answerQueryReverse` of src/Logfile.cc. What a
-- query does with a message, `processDataset`, is a function on its state that says whether to go on.
pub mod Feeding
pub mod Windows
pub mod Archive
pub mod Walk
pub mod Single
pub mod Answer
pub mod Limits
pub mod Report
pub mod Result
pub mod Termination
use naemon_livestatus.Prelude.{
  ℕ, zero, suc, ◌+◌, Bool, true, false, not, ◌&&◌, List, [], ◌∷◌, Option, none, some, ◌>>=◌,
  reverse, ltb, ◌==◌, if◌then◌else◌, ℤ, pos, ltb_ℤ, leb_ℤ, is_pos, ◌+ℤ◌,
}
use naemon_livestatus.Text.{Bytes, codes}
use naemon_livestatus.Filter.{Filter}
use naemon_livestatus.Filter.Narrowing.{find_time_limits, optimize_bitmask}
use naemon_livestatus.LogEntry.{LogEntry, class_all}
use naemon_livestatus.Logfile.{Logfile, File, Entries, content, make_key}
use naemon_livestatus.Logfile.Ending.{end_of}
use naemon_livestatus.LogCache.{Focus}
use naemon_livestatus.LogCache.Load.{Settings, load}

module _ {ℓ} {A : Type ℓ} where
  -- `upper_bound`: the entries in front of the first one with a larger key
  unfoldable pub up_to : ℕ → List (ℕ × A) → List (ℕ × A)
  up_to key [] = []
  up_to key (x ∷ xs) = let rest = up_to key xs in if ltb key x.0 then [] else x ∷ rest

  -- `lower_bound`: the entries from the first one on that has no smaller key
  unfoldable pub from_key : ℕ → List (ℕ × A) → List (ℕ × A)
  from_key key [] = []
  from_key key (x ∷ xs) = let rest = from_key key xs in if ltb x.0 key then rest else x ∷ xs

  -- a list without its last element
  unfoldable pub unsnoc : List A → Option (List A × A)
  unsnoc [] = none
  unsnoc (x ∷ xs) = elim (unsnoc xs) [ none ↦ some ([], x) | some (ys, y) ↦ some (x ∷ ys, y) ]

-- `--it`
unfoldable pub go_older : {Object : Type 0} → Focus Object → Option (Focus Object)
go_older f = do
  (older, log) ← unsnoc f.older
  some (record f { older = older; current = log; newer = f.current ∷ f.newer })

-- the time of the last line of a file
unfoldable pub end_time : (Bytes → Option File) → Bytes → Bytes → ℤ
end_time disk stack path = elim (disk path) [
  | none ↦ end_of stack none
  | some file ↦ end_of stack (some (content file))
]

-- all of a file is older than the interval
unfoldable pub is_over :
    {Object : Type 0} → (Bytes → Option File) → Bytes → ℤ → Logfile Object → Bool
is_over disk stack since log =
    let end = end_time disk stack log.path in not log.watch && (is_pos end && ltb_ℤ end since)

-- `if (it == begin()) break; --it;`
abbrev pub go_on :
    {Object State : Type 0}
    → Option (Focus Object)
    → Focus Object
    → State
    → (Focus Object → Option (State × Focus Object))
    → Option (State × Focus Object)
go_on none f q next = some (q, f)
go_on (some g) f q next = next g

-- `while (it != begin() && it->first >= until)`
unfoldable pub seek : {Object : Type 0} → ℕ → ℤ → Focus Object → Option (Focus Object)
seek zero until f = none
seek (suc fuel) until f =
    if leb_ℤ until f.current.since
    then elim (go_older f) [ none ↦ some f | some g ↦ seek fuel until g ]
    else some f

module _ {Object State : Type 0} (process : State → LogEntry Object → State × Bool) where
  -- the loop of `answerQuery`, over the entries in the order of time
  unfoldable pub visit : ℤ → Entries Object → State → State × Bool
  visit until [] q = (q, true)
  visit until (x ∷ xs) q =
      let (q', more) = process q x.1 in
      let rest = visit until xs q' in
      if leb_ℤ until x.1.time then (q, false) else if more then rest else (q', false)

  -- the loop of `answerQueryReverse`, over the entries from the newest one on
  unfoldable pub visit_back : ℤ → Entries Object → State → State × Bool
  visit_back since [] q = (q, true)
  visit_back since (x ∷ xs) q =
      let (q', more) = process q x.1 in
      let rest = visit_back since xs q' in
      if ltb_ℤ x.1.time since then (q, false) else if more then rest else (q', false)

  module _ (s : Settings Object) where
    -- the query's state, whether to go on, and the cache
    unfoldable pub answer_query :
        ℤ → ℤ → ℕ → Option File → Focus Object → State → Option ((State × Bool) × Focus Object)
    answer_query since until logclasses file f q = do
      f' ← load s logclasses file f
      some (visit until (from_key (make_key since 0) f'.current.entries) q, f')

    unfoldable pub answer_query_reverse :
        ℤ → ℤ → ℕ → Option File → Focus Object → State → Option ((State × Bool) × Focus Object)
    answer_query_reverse since until logclasses file f q = do
      f' ← load s logclasses file f
      some (visit_back since (reverse (up_to (make_key until 999999999) f'.current.entries)) q, f')

    -- the files that can be opened, and what the stack holds when `end` starts
    module _ (disk : Bytes → Option File) (stack : Bytes) where
      -- `while (true)`: from the current file back to the oldest one; `none` when the fuel runs out, or
      -- where a line lets the parser read a null pointer
      unfoldable pub walk : ℕ → ℤ → ℤ → ℕ → Focus Object → State → Option (State × Focus Object)
      walk zero since until logclasses f q = none
      walk (suc fuel) since until logclasses f q =
          if is_over disk stack since f.current then some (q, f) else do
            (r, f') ← answer_query_reverse since until logclasses (disk f.current.path) f q
            if r.1
                then go_on (go_older f') f' r.0 (λ g. walk fuel since until logclasses g r.0)
                else some (r.0, f')

      -- `TableLog::answerQuery`, with the time of the clock; the cache is open at its newest file
      unfoldable pub answer_log_query :
          ℕ → Filter (LogEntry Object) → ℕ → Focus Object → State → Option (State × Focus Object)
      answer_log_query fuel filter now f q =
          let (since, until) = find_time_limits filter (codes "time") (pos 0, pos (now + 1)) in
          let classmask = (optimize_bitmask filter (codes "class") class_all).1 in
          if classmask == 0 then some (q, f) else do
            g ← seek fuel until f
            if leb_ℤ until g.current.since then some (q, g) else walk fuel since until classmask g q
