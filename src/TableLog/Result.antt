-- ===== src/TableLog/Result.antt =====
-- `answerQuery` of src/TableLog.cc as a whole: the interval and the classes that the filter asks for, the
-- first file that may have such messages, and the walk back from there.
use naemon_livestatus.Prelude.{
  ◌-◌, ℕ, ◌==◌, ◌+◌, ◌^◌, ◌<◌, Bool, true, false, List, [], ◌∷◌, ◌++◌, map, Option, some, ◌≡◌, refl,
  sym, ap, ◌∙◌, subst, Bool-cases, Option-cases, inl, inr, pos, ltb_ℤ, leb_ℤ, ◌≤ℤ◌, In, In-single,
  arith, test_bit, test_bit-zero, and_both, check_below, check_below_sound,
}
use mathlib.Core.Bool.{true≢false}
use mathlib.Core.Option.{some_inj, none-ne-some}
use naemon_livestatus.Text.{Bytes, codes}
use naemon_livestatus.LogEntry.{LogEntry, class_all}
use naemon_livestatus.Logfile.{File, Entries}
use naemon_livestatus.LogCache.{Focus}
use naemon_livestatus.LogCache.Load.{Settings}
use naemon_livestatus.Filter.{Filter, accepts}
use naemon_livestatus.Filter.Narrowing.{Limits, find_time_limits, optimize_bitmask}
use naemon_livestatus.Filter.TimeLimits.{within, has_or, ShowsTime, find_time_limits-keeps}
use naemon_livestatus.Filter.Selected.{Shows, optimize_bitmask-keeps}
use naemon_livestatus.TableLog.{seek, walk, answer_log_query}
use naemon_livestatus.TableLog.Feeding.{Falling, feed}
use naemon_livestatus.TableLog.Archive.{Ident, ident, idents, messages_at}
use naemon_livestatus.TableLog.Walk.{Asked, Answered}
use naemon_livestatus.TableLog.Answer.{walk-Answered}
use naemon_livestatus.TableLog.Limits.{find_time_limits-upper}
use naemon_livestatus.TableLog.Report.{IsArchive, TooNew, Sought, seek-Sought, too_new}

class_table : check_below 16 (λ k. test_bit class_all k) ≡ true
unfolding check_below test_bit
class_table = refl

class_set : (k : ℕ) → k < 16 → test_bit class_all k ≡ true
class_set k h = check_below_sound 16 (test_bit class_all) k class_table h

module _ {Object State : Type 0} (process : State → LogEntry Object → State × Bool)
    (s : Settings Object) (disk : Bytes → Option File) (stack : Bytes)
    (short : s.max_lines < 2 ^ 32) (runs : s.should_terminate ≡ false)
    (filter : Filter (LogEntry Object)) (now : ℕ) where
  -- a message that the filter accepts, of one of the classes and not from the future
  pub record Wanted (e : LogEntry Object) : Type 0 where
    pub accepted : accepts filter e ≡ true
    pub class : e.logclass < 16
    pub time : within (pos 0, pos (now + 1)) e.time ≡ true

  -- What the query has got: messages of the files alone, from the newest on, and, unless it stopped
  -- itself, all that it wants.
  pub record Reported (files : List Ident) (q q' : State) : Type 0 where
    pub rows : Entries Object
    pub fed : q' ≡ (feed process q rows).0
    pub sound :
        (x : ℕ × LogEntry Object)
        → In x rows
        → (i : Ident) × In i files × In x (messages_at s disk stack i.0)
    pub falling : Falling rows
    pub complete :
        (feed process q rows).1 ≡ true
        → (i : Ident) (x : ℕ × LogEntry Object) → In i files
        → In x (messages_at s disk stack i.0)
        → Wanted x.1
        → In x rows

  abbrev limits : Limits
  limits = find_time_limits filter (codes "time") (pos 0, pos (now + 1))

  abbrev classmask : ℕ
  classmask = (optimize_bitmask filter (codes "class") class_all).1

  no_rows_lem :
      (files : List Ident) (q : State)
      → ((i : Ident) (x : ℕ × LogEntry Object)
          → In i files
          → In x (messages_at s disk stack i.0)
          → Wanted x.1
          → ⊥)
      → Reported files q q
  unfolding feed
  no_rows_lem files q h = record {
    rows = [];
    fed = refl;
    sound = λ x i. elim i [ ];
    falling = tt;
    complete = λ _ i x k j w. absurd (h i x k j w);
  }

  module _ (no_or : has_or filter ≡ false) (clock : now + 1 < 2 ^ 32)
      (shows : (e : LogEntry Object)
        → ShowsTime filter (codes "time") e e.time
          × Shows filter (codes "class") e e.logclass) where
    in_limits : (e : LogEntry Object) → Wanted e → within limits e.time ≡ true
    in_limits e w =
        find_time_limits-keeps filter (codes "time") e e.time (pos 0, pos (now + 1)) no_or
          (shows e).0 w.accepted w.time

    in_mask : (e : LogEntry Object) → Wanted e → test_bit classmask e.logclass ≡ true
    in_mask e w =
        let small = w.class in
        optimize_bitmask-keeps filter (codes "class") e e.logclass class_all (shows e).1
          (omega (arith, small)) w.accepted (class_set e.logclass w.class)

    no_class : classmask ≡ 0 → (e : LogEntry Object) → Wanted e → ⊥
    no_class h e w =
        true≢false
          (sym (in_mask e w) ∙ ap (λ m. test_bit m e.logclass) h ∙ test_bit-zero e.logclass)

    until_fits : limits.1 ≤ℤ pos (2 ^ 32 - 1)
    until_fits =
        let no_later : limits.1 ≤ℤ pos (now + 1) =
          find_time_limits-upper filter (codes "time") (pos 0, pos (now + 1)) in
        omega (arith, no_later, clock)

    asked_lem :
        (x : ℕ × LogEntry Object)
        → Wanted x.1
        → Asked s disk stack limits.0 limits.1 until_fits classmask x
    asked_lem x w =
        let inside =
          and_both (leb_ℤ limits.0 x.1.time) (ltb_ℤ x.1.time limits.1) (in_limits x.1 w) in
        let small = w.class in
        let since_is = inside.0 in
        (omega (arith, small), in_mask x.1 w, ground (arith, since_is), inside.1)

    -- a file that the walk does not reach has nothing that is wanted
    late_lem :
        (i : Ident) (x : ℕ × LogEntry Object)
        → TooNew s disk stack short runs limits.1 i
        → In x (messages_at s disk stack i.0)
        → Wanted x.1
        → ⊥
    late_lem i x late k w = true≢false (sym (asked_lem x w).3 ∙ late x k)

    -- when even the oldest file begins too late
    after_seek :
        (f g : Focus Object) (q : State)
        → Sought s disk stack short runs limits.1 f g
        → leb_ℤ limits.1 g.current.since ≡ true
        → Reported (idents f) q q
    after_seek f g q sought late = no_rows_lem (idents f) q (λ i x k j w.
        elim (sought.reached i k) [
          | inr new ↦ late_lem i x new j w
          | inl l ↦
              let only : In i (ident g.current ∷ []) =
                subst (λ logs. In i (map ident logs ++ ident g.current ∷ [])) (sought.oldest late)
                  l in
              let here_is =
                subst (λ p. In x (messages_at s disk stack p.0))
                  (In-single i (ident g.current) only) j in
              late_lem (ident g.current) x
                (too_new s disk stack short runs limits.1 g sought.archive late) here_is w
        ])

    after_walk :
        (f g : Focus Object) (q q' : State)
        → Sought s disk stack short runs limits.1 f g
        → Answered s disk stack limits.0 limits.1 until_fits classmask process (idents g) q q'
        → Reported (idents f) q q'
    after_walk f g q q' sought a = record {
      rows = a.rows;
      fed = a.fed;
      sound = λ x i. let (k, l, m) = a.sound x i in (k, sought.from k l, m);
      falling = a.falling;
      complete = λ fed i x k j w. elim (sought.reached i k) [
        | inl l ↦ a.complete fed i x l j (asked_lem x w)
        | inr late ↦ absurd (late_lem i x late j w)
      ];
    }

    after_go :
        (fuel : ℕ) (f g g' : Focus Object) (q q' : State)
        → Sought s disk stack short runs limits.1 f g
        → walk process s disk stack fuel limits.0 limits.1 classmask g q ≡ some (q', g')
        → Reported (idents f) q q'
    after_go fuel f g g' q q' sought e = after_walk f g q q' sought (
        walk-Answered process s disk stack limits.0 limits.1 until_fits classmask short runs fuel g
          g' q q'
          (record {
            chrono = sought.archive.chrono;
            older = sought.archive.older;
            current = sought.archive.current classmask;
          })
          e)

    -- For an archive whose files can be opened, are loaded well and follow one another in time, a
    -- clock that fits into 32 bits, and a filter with no Or outside a Negate whose time and class
    -- columns show the time and the class of a message: a query of the log that ends has been handed
    -- messages of the files alone, from the newest on, and, unless it stopped itself, every message
    -- that its filter accepts, of a class below 16 and not from the future.
    pub answer_log_query-Reported :
        (fuel : ℕ) (f g : Focus Object) (q q' : State)
        → IsArchive s disk stack short runs f
        → answer_log_query process s disk stack fuel filter now f q ≡ some (q', g)
        → Reported (idents f) q q'
    unfolding answer_log_query
    answer_log_query-Reported fuel f g q q' h e =
        let result : (state : State) (b : Focus Object)
            → Reported (idents f) q state
            → ◌≡◌ {A = Option (State × Focus Object)} (some (state, b)) (some (q', g))
            → Reported (idents f) q q' =
          λ state b r k.
            subst (Reported (idents f) q) (ap (λ (z : State × Focus Object). z.0) (some_inj.0 k))
              r in
        elim (Bool-cases (classmask == 0)) [
          | inl none_left ↦
              result q f
                (no_rows_lem (idents f) q (λ i x k j w. no_class (ground (arith, none_left)) x.1 w))
                (rw none_left at e)
          | inr some_left ↦ elim (Option-cases (seek fuel limits.1 f)) [
            | inl n ↦ absurd (none-ne-some _ (rw (some_left, n) at e))
            | inr (b, n) ↦
                let sought = seek-Sought s disk stack short runs fuel limits.1 f b h n in
                elim (Bool-cases (leb_ℤ limits.1 b.current.since)) [
                  | inl late ↦
                      result q b (after_seek f b q sought late) (rw (some_left, n, late) at e)
                  | inr early ↦ after_go fuel f b g q q' sought (rw (some_left, n, early) at e)
                ]
          ]
        ]
