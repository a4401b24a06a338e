-- ===== src/TableLog/Answer.antt =====
-- What a query gets of the log files by `answerQuery` of src/TableLog.cc.
use naemon_livestatus.Prelude.{
  ℕ, ◌-◌, zero, suc, ◌^◌, ◌<◌, Bool, true, false, not, List, [], ◌∷◌, ◌++◌, map, if◌then◌else◌,
  Option, some, ◌≡◌, refl, sym, ap, ◌∙◌, subst, Bool-cases, Option-cases, inl, inr, ℤ, pos, ltb_ℤ,
  ◌≤ℤ◌, is_pos, here, All, All-In, All_of_members, In-append_left, In-append_right, and_both,
}
use mathlib.Core.Bool.{true≢false}
use mathlib.Core.Option.{some_inj, none-ne-some}
use naemon_livestatus.Text.{Bytes}
use naemon_livestatus.LogEntry.{LogEntry}
use naemon_livestatus.Logfile.{Logfile, File}
use naemon_livestatus.LogCache.{Focus}
use naemon_livestatus.LogCache.Load.{Settings, load}
use naemon_livestatus.LogCache.Keep.{AllShrink}
use naemon_livestatus.LogCache.Coherent.{Loaded}
use naemon_livestatus.TableLog.{
  unsnoc, go_older, go_on, visit_back, answer_query_reverse, end_time, is_over, walk,
}
use naemon_livestatus.TableLog.Feeding.{feed}
use naemon_livestatus.TableLog.Archive.{
  ident, idents, file_at, Settled, Ready, Chronological, Chronological-front, AllShrink-idents,
  AllShrink-Settled, unsnoc-some, unsnoc-none,
}
use mathlib.Core.List.{map-append}
use naemon_livestatus.TableLog.Walk.{Answered, Settled-Ready, over_lem, handed}
use naemon_livestatus.TableLog.Single.{stop-Answered, last-Answered, more-Answered}

module _ {Object State : Type 0} (process : State → LogEntry Object → State × Bool)
    (s : Settings Object) (disk : Bytes → Option File) (stack : Bytes) (since : ℤ) (until : ℤ)
    (until_fits : until ≤ℤ pos (2 ^ 32 - 1)) (logclasses : ℕ) (short : s.max_lines < 2 ^ 32)
    (runs : s.should_terminate ≡ false) where
  -- the files that a query may reach
  pub record Reaches (f : Focus Object) : Type 0 where
    pub chrono : Chronological s disk stack (idents f)
    pub older : All (Settled s disk stack) f.older
    pub current : Ready s disk stack logclasses f.current

  -- the next older file, after the current one was loaded
  pub go_older-Reaches :
      (f f' : Focus Object) (older : List (Logfile Object)) (log : Logfile Object)
      → Reaches f
      → AllShrink f.older f'.older
      → unsnoc f'.older ≡ some (older, log)
      → (newer : List (Logfile Object))
      → let g : Focus Object = record f' { older = older; current = log; newer = newer } in
        Reaches g × (idents g ≡ map ident f.older)
  go_older-Reaches f f' older log h shrunk e newer =
      let whole : f'.older ≡ older ++ log ∷ [] = unsnoc-some f'.older older log e in
      let settled : All (Settled s disk stack) (older ++ log ∷ []) =
        subst (All (Settled s disk stack)) whole (AllShrink-Settled s disk stack shrunk h.older) in
      let same : map ident older ++ ident log ∷ [] ≡ map ident f.older =
        sym (map-append ident older (log ∷ []))
        ∙ ap (map ident) (sym whole)
        ∙ AllShrink-idents s disk stack shrunk in
      (
        record {
          chrono = subst (Chronological s disk stack) (sym same) (
              Chronological-front s disk stack (map ident f.older) (ident f.current ∷ []) h.chrono);
          older =
              All_of_members _ older (λ l i.
                All-In _ (older ++ log ∷ []) l settled (In-append_left l older (log ∷ []) i));
          current =
              Settled-Ready s disk stack since until until_fits logclasses process short runs log (
                All-In _ (older ++ log ∷ []) log settled
                  (In-append_right log older (log ∷ []) here));
        },
        same,
      )

  over_parts :
      (log : Logfile Object)
      → is_over disk stack since log ≡ true
      → (is_pos (end_time disk stack log.path) ≡ true)
        × (ltb_ℤ (end_time disk stack log.path) since ≡ true)
  unfolding is_over
  over_parts log h = and_both _ _ (and_both (not log.watch) _ h).1

  -- how the walk goes on from a file that was loaded, when it does so well with one step less
  after_load :
      (fuel : ℕ) (f f' g : Focus Object) (q q' : State)
      → Reaches f
      → ((f g : Focus Object) (q q' : State)
          → Reaches f
          → walk process s disk stack fuel since until logclasses f q ≡ some (q', g)
          → Answered s disk stack since until until_fits logclasses process (idents f) q q')
      → Loaded s logclasses (file_at s disk stack f.current.path) f f'
      → (let r =
            visit_back process since
              (handed s disk stack since until until_fits logclasses f'.current)
              q in
          if r.1
          then go_on
              (go_older f')
              f'
              r.0
              (λ b. walk process s disk stack fuel since until logclasses b r.0)
          else some (r.0, f'))
        ≡ some (q', g)
      → Answered s disk stack since until until_fits logclasses process (idents f) q q'
  unfolding go_older
  after_load fuel f f' g q q' h again loaded e =
      let ascending = loaded.ascending h.current.ascending in
      let r =
        visit_back process since (handed s disk stack since until until_fits logclasses f'.current)
          q in
      let result : Answered s disk stack since until until_fits logclasses process (idents f) q r.0
          → some (r.0, f') ≡ some (q', g)
          → Answered s disk stack since until until_fits logclasses process (idents f) q q' =
        λ a k.
          subst (Answered s disk stack since until until_fits logclasses process (idents f) q)
            (ap (λ (z : State × Focus Object). z.0) (some_inj.0 k)) a in
      elim (Bool-cases r.1) [
        | inr no_more ↦
            result
              (stop-Answered s disk stack since until until_fits logclasses process short runs f f'
                q h.chrono h.current.file ascending loaded no_more)
              (rw no_more at e)
        | inl more ↦ elim (Option-cases (unsnoc f'.older)) [
          | inl n ↦
              let empty : map ident f.older ≡ [] =
                sym (AllShrink-idents s disk stack loaded.older)
                ∙ ap (map ident) (unsnoc-none f'.older n) in
              result
                (last-Answered s disk stack since until until_fits logclasses process short runs f
                  f' q h.chrono h.current.file ascending loaded empty)
                (rw (more, n) at e)
          | inr ((older, log), n) ↦
              let (reaches_on, same) =
                go_older-Reaches f f' older log h loaded.older n (f'.current ∷ f'.newer) in
              let rest =
                again (record f' { older = older; current = log; newer = f'.current ∷ f'.newer }) g
                  r.0 q' reaches_on (rw (more, n) at e) in
              more-Answered s disk stack since until until_fits logclasses process short runs f f' q
                h.chrono h.current.file ascending loaded q' more
                (subst
                  (λ is. Answered s disk stack since until until_fits logclasses process is r.0 q')
                  same rest)
        ]
      ]

  -- The walk back through the files.
  pub walk-Answered :
      (fuel : ℕ) (f g : Focus Object) (q q' : State)
      → Reaches f
      → walk process s disk stack fuel since until logclasses f q ≡ some (q', g)
      → Answered s disk stack since until until_fits logclasses process (idents f) q q'
  unfolding walk answer_query_reverse go_older
  walk-Answered zero f g q q' h e = absurd (none-ne-some _ e)
  walk-Answered (suc fuel) f g q q' h e = elim (Bool-cases (is_over disk stack since f.current)) [
    | inl over ↦
        let (positive, less) = over_parts f.current over in
        subst (Answered s disk stack since until until_fits logclasses process (idents f) q)
          (ap (λ (r : State × Focus Object). r.0) (some_inj.0 (rw over at e)))
          (record {
            rows = [];
            fed = unfold feed in refl;
            sound = λ x i. elim i [ ];
            complete = λ _ i x k j asked. absurd (
                true≢false (
                  sym (
                    over_lem s disk stack since until until_fits logclasses process short runs
                      (map ident f.older) (ident f.current) h.chrono h.current.file positive less i
                      x k j)
                  ∙ asked.2));
            falling = tt;
          })
    | inr over ↦ elim (Option-cases (load s logclasses (disk f.current.path) f)) [
      | inl l ↦ absurd (none-ne-some _ (rw (over, l) at e))
      | inr (f', l) ↦
          after_load fuel f f' g q q' h (walk-Answered fuel) (h.current.loads f f' refl l)
            (rw (over, l) at e)
    ]
  ]
