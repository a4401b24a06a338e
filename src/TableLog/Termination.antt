-- ===== src/TableLog/Termination.antt =====
-- The walk of src/TableLog.cc through the log files ends.
use naemon_livestatus.Prelude.{
  IsSome, if-IsSome, ℕ, ◌-◌, zero, suc, ◌+◌, ◌^◌, ◌<◌, ◌≤◌, ◌≤ℤ◌, length, length-append, Bool,
  false, List, [], ◌∷◌, Option, some, ◌≡◌, refl, ap, ◌∙◌, Bool-cases, Option-cases, inl, inr, ℤ,
  pos, leb_ℤ, ◌==◌, arith, unrelated, related,
}
use naemon_livestatus.Text.{Bytes}
use naemon_livestatus.LogEntry.{LogEntry}
use naemon_livestatus.Logfile.{Logfile, File}
use naemon_livestatus.LogCache.{Focus}
use naemon_livestatus.LogCache.Load.{Settings}
use naemon_livestatus.LogCache.Keep.{AllShrink}
use naemon_livestatus.LogCache.Coherent.{Loaded}
use naemon_livestatus.TableLog.Archive.{file_at, unsnoc-some}
use naemon_livestatus.TableLog.Walk.{handed}
use naemon_livestatus.TableLog.Answer.{Reaches, go_older-Reaches}
use naemon_livestatus.TableLog.Report.{IsArchive, seek-Sought}
use naemon_livestatus.TableLog.{
  unsnoc, go_older, go_on, seek, walk, answer_query_reverse, visit_back, is_over,
}
use naemon_livestatus.LogCache.Readable.{Readable, load-IsSome}
use naemon_livestatus.Text.{codes}
use naemon_livestatus.LogEntry.{class_all}
use naemon_livestatus.Filter.{Filter}
use naemon_livestatus.Filter.Narrowing.{find_time_limits, optimize_bitmask}
use naemon_livestatus.TableLog.Limits.{find_time_limits-upper}
use naemon_livestatus.TableLog.{answer_log_query}

AllShrink-length :
    {Object : Type 0} {xs ys : List (Logfile Object)} → AllShrink xs ys → length ys ≡ length xs
AllShrink-length unrelated = refl
AllShrink-length (related p ps) = ap suc (AllShrink-length ps)

unsnoc-length :
    {Object : Type 0} (xs ys : List (Logfile Object)) (y : Logfile Object)
    → unsnoc xs ≡ some (ys, y)
    → length xs ≡ length ys + 1
unsnoc-length xs ys y e = ap length (unsnoc-some xs ys y e) ∙ length-append ys (y ∷ [])

module _ {Object : Type 0} (s : Settings Object) (disk : Bytes → Option File)
    (readable : (path : Bytes) (file : File) → disk path ≡ some file → Readable s file)
    (stack : Bytes) (short : s.max_lines < 2 ^ 32) (runs : s.should_terminate ≡ false) where
  module _ {State : Type 0} (process : State → LogEntry Object → State × Bool) (since : ℤ)
      (until : ℤ) (until_fits : until ≤ℤ pos (2 ^ 32 - 1)) (logclasses : ℕ) where
    abbrev Reached : Focus Object → Type 0
    Reached f = Reaches process s disk stack since until until_fits logclasses short runs f

    -- the files that are left after the current one
    left_lem :
        (fuel : ℕ) (f f' : Focus Object) (r : State × Bool)
        → Reached f
        → Loaded s logclasses (file_at s disk stack f.current.path) f f'
        → length f.older < suc fuel
        → ((g : Focus Object) (q : State)
            → Reached g
            → length g.older < fuel
            → IsSome (walk process s disk stack fuel since until logclasses g q))
        → IsSome (
            go_on
              (go_older f')
              f'
              r.0
              (λ g. walk process s disk stack fuel since until logclasses g r.0))
    unfolding go_older
    left_lem fuel f f' r h loaded enough again = elim (Option-cases (unsnoc f'.older)) [
      | inl n ↦ rw n ((r.0, f'), refl)
      | inr ((older, log), n) ↦
          let g : Focus Object = record f' {
            older = older;
            current = log;
            newer = f'.current ∷ f'.newer;
          } in
          let (reached, _) =
            go_older-Reaches process s disk stack since until until_fits logclasses short runs f f'
              older log h loaded.older n (f'.current ∷ f'.newer) in
          let one_less = unsnoc-length f'.older older log n in
          let as_many = AllShrink-length loaded.older in
          rw n (again g r.0 reached (omega (arith, enough, one_less, as_many)))
    ]

    walk-IsSome :
        (fuel : ℕ) (f : Focus Object) (q : State)
        → Reached f
        → length f.older < fuel
        → IsSome (walk process s disk stack fuel since until logclasses f q)
    unfolding walk answer_query_reverse
    walk-IsSome zero f q h enough = absurd (omega (arith, enough))
    walk-IsSome (suc fuel) f q h enough =
        let (f', l) = load-IsSome s disk readable logclasses f.current.path f in
        let loaded = h.current.loads f f' refl l in
        let r =
          visit_back process since
            (handed s disk stack since until until_fits logclasses f'.current) q in
        if-IsSome (is_over disk stack since f.current) ((q, f), refl)
          (rw l (
            if-IsSome r.1 (left_lem fuel f f' r h loaded enough (walk-IsSome fuel))
              ((r.0, f'), refl)))

  -- with no more older files than before
  seek-IsSome :
      (fuel : ℕ) (until : ℤ) (f : Focus Object)
      → length f.older < fuel
      → (g : Focus Object) × (seek fuel until f ≡ some g) × (length g.older ≤ length f.older)
  unfolding seek go_older
  seek-IsSome zero until f enough = absurd (omega (arith, enough))
  seek-IsSome (suc fuel) until f enough = elim (Bool-cases (leb_ℤ until f.current.since)) [
    | inr n ↦ rw n (f, refl, omega arith)
    | inl y ↦ elim (Option-cases (unsnoc f.older)) [
      | inl n ↦ rw (y, n) (f, refl, omega arith)
      | inr ((older, log), n) ↦
          let one_less = unsnoc-length f.older older log n in
          let (g, e, fewer) =
            seek-IsSome fuel until
              (record f { older = older; current = log; newer = f.current ∷ f.newer })
              (omega (arith, enough, one_less)) in
          rw (y, n) (g, e, omega (arith, fewer, one_less))
    ]
  ]

  -- A query of the log ends with a result: for an archive that is as it should be, a clock that fits
  -- into 32 bits, log files in which no line makes the parser read a null pointer, and whatever the
  -- query does with a message, fuel for one step more than there are older files is enough for both
  -- loops.
  pub answer_log_query-IsSome :
      {State : Type 0} (process : State → LogEntry Object → State × Bool)
      (filter : Filter (LogEntry Object)) (now fuel : ℕ) (f : Focus Object) (q : State)
      → now + 1 < 2 ^ 32
      → IsArchive s disk stack short runs f
      → length f.older < fuel
      → IsSome (answer_log_query process s disk stack fuel filter now f q)
  unfolding answer_log_query
  answer_log_query-IsSome process filter now fuel f q clock h enough =
      let limits = find_time_limits filter (codes "time") (pos 0, pos (now + 1)) in
      let no_later : limits.1 ≤ℤ pos (now + 1) =
        find_time_limits-upper filter (codes "time") (pos 0, pos (now + 1)) in
      let until_fits : limits.1 ≤ℤ pos (2 ^ 32 - 1) = omega (arith, no_later, clock) in
      let classmask = (optimize_bitmask filter (codes "class") class_all).1 in
      let (g, e, fewer) = seek-IsSome fuel limits.1 f enough in
      let sought = seek-Sought s disk stack short runs fuel limits.1 f g h e in
      if-IsSome (classmask == 0) ((q, f), refl)
        (rw e (
          if-IsSome (leb_ℤ limits.1 g.current.since) ((q, g), refl)
            (walk-IsSome process limits.0 limits.1 until_fits classmask fuel g q
              (record {
                chrono = sought.archive.chrono;
                older = sought.archive.older;
                current = sought.archive.current classmask;
              })
              (omega (arith, enough, fewer)))))
