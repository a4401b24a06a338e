-- ===== src/TableLog/Report.antt =====
-- `answerQuery` of src/TableLog.cc against what a query of the log asks for.
use naemon_livestatus.Prelude.{
  ◌⊎◌, ℕ, zero, suc, ◌^◌, ◌<◌, true, false, List, [], ◌∷◌, ◌++◌, map, Option, some, ◌≡◌, sym, ap,
  ◌∙◌, subst, Bool-cases, Option-cases, inl, inr, ℤ, pos, ltb_ℤ, leb_ℤ, In, here, All, All-In,
  All_of_members, In-single, In-append_cases, In-append_left, In-append_right, arith,
}
use mathlib.Core.Bool.{true≢false}
use mathlib.Core.Option.{some_inj, none-ne-some}
use naemon_livestatus.Text.{Bytes}
use naemon_livestatus.LogEntry.{LogEntry}
use naemon_livestatus.Logfile.{Logfile, File}
use naemon_livestatus.LogCache.{Focus}
use naemon_livestatus.LogCache.Load.{Settings}
use naemon_livestatus.TableLog.{unsnoc, go_older}
use naemon_livestatus.TableLog.Archive.{
  Ident, ident, idents, messages_at, Settled, Ready, Chronological, Chronological-front,
  unsnoc-some, unsnoc-none,
}
use mathlib.Core.List.{map-append}
use naemon_livestatus.TableLog.Walk.{Settled-Ready}
use naemon_livestatus.TableLog.{seek}

module _ {Object : Type 0} (s : Settings Object) (disk : Bytes → Option File) (stack : Bytes)
    (short : s.max_lines < 2 ^ 32) (runs : s.should_terminate ≡ false) where
  -- the log files as they should be: in the order of time, loaded well, and all but the newest one settled
  pub record IsArchive (f : Focus Object) : Type 0 where
    pub chrono : Chronological s disk stack (idents f)
    pub older : All (Settled s disk stack) f.older
    pub current : (logclasses : ℕ) → Ready s disk stack logclasses f.current

  -- a file that the walk does not reach has nothing in front of the end of the interval
  abbrev pub TooNew : ℤ → Ident → Type 0
  TooNew until i =
      (x : ℕ × LogEntry Object) → In x (messages_at s disk stack i.0) → ltb_ℤ x.1.time until ≡ false

  pub record Sought (until : ℤ) (f g : Focus Object) : Type 0 where
    pub archive : IsArchive g
    pub reached : (i : Ident) → In i (idents f) → In i (idents g) ⊎ TooNew until i
    pub from : (i : Ident) → In i (idents g) → In i (idents f)
    pub oldest : leb_ℤ until g.current.since ≡ true → g.older ≡ []

  -- the step to the next older file, without loading the current one
  seek_older :
      (f : Focus Object) (older : List (Logfile Object)) (log : Logfile Object)
      → IsArchive f
      → unsnoc f.older ≡ some (older, log)
      → let g : Focus Object = record f {
        older = older;
        current = log;
        newer = f.current ∷ f.newer;
      } in
        IsArchive g × (idents g ≡ map ident f.older)
  seek_older f older log h e =
      let whole : f.older ≡ older ++ log ∷ [] = unsnoc-some f.older older log e in
      let settled : All (Settled s disk stack) (older ++ log ∷ []) =
        subst (All (Settled s disk stack)) whole h.older in
      let same : map ident older ++ ident log ∷ [] ≡ map ident f.older =
        sym (map-append ident older (log ∷ [])) ∙ ap (map ident) (sym whole) in
      (
        record {
          chrono = subst (Chronological s disk stack) (sym same) (
              Chronological-front s disk stack (map ident f.older) (ident f.current ∷ []) h.chrono);
          older =
              All_of_members _ older (λ l i.
                All-In _ (older ++ log ∷ []) l settled (In-append_left l older (log ∷ []) i));
          current = λ logclasses.
              Settled-Ready s disk stack (pos 0) (pos 0) (omega arith) logclasses
                (λ (q : Unit) e. (q, true)) short runs log
                (All-In _ (older ++ log ∷ []) log settled
                  (In-append_right log older (log ∷ []) here));
        },
        same,
      )

  pub too_new :
      (until : ℤ) (f : Focus Object)
      → IsArchive f
      → leb_ℤ until f.current.since ≡ true
      → TooNew until (ident f.current)
  too_new until f h y x k = let begins = (h.current 0).file.starts x k in ground (arith, y, begins)

  after_seek :
      (until : ℤ) (f g g' : Focus Object)
      → IsArchive f
      → leb_ℤ until f.current.since ≡ true
      → idents g ≡ map ident f.older
      → Sought until g g'
      → Sought until f g'
  after_seek until f g g' h y same rest = record {
    archive = rest.archive;
    reached = λ i k. elim (In-append_cases i (map ident f.older) (ident f.current ∷ []) k) [
      | inl l ↦ rest.reached i (subst (In i) (sym same) l)
      | inr l ↦
          inr (subst (TooNew until) (sym (In-single i (ident f.current) l)) (too_new until f h y))
    ];
    from = λ i k.
        In-append_left i (map ident f.older) (ident f.current ∷ [])
          (subst (In i) same (rest.from i k));
    oldest = rest.oldest;
  }

  pub seek-Sought :
      (fuel : ℕ) (until : ℤ) (f g : Focus Object)
      → IsArchive f
      → seek fuel until f ≡ some g
      → Sought until f g
  unfolding seek go_older
  seek-Sought zero until f g h e = absurd (none-ne-some _ e)
  seek-Sought (suc fuel) until f g h e = elim (Bool-cases (leb_ℤ until f.current.since)) [
    | inr n ↦ subst (Sought until f) (some_inj.0 (rw n at e)) (record {
      archive = h;
      reached = λ i k. inl k;
      from = λ i k. k;
      oldest = λ y. absurd (true≢false (sym y ∙ n));
    })
    | inl y ↦ elim (Option-cases (unsnoc f.older)) [
      | inl n ↦ subst (Sought until f) (some_inj.0 (rw (y, n) at e)) (record {
        archive = h;
        reached = λ i k. inl k;
        from = λ i k. k;
        oldest = λ _. unsnoc-none f.older n;
      })
      | inr ((older, log), n) ↦
          let (archive, same) = seek_older f older log h n in
          after_seek until f
            (record f { older = older; current = log; newer = f.current ∷ f.newer }) g h y same
            (seek-Sought fuel until
              (record f { older = older; current = log; newer = f.current ∷ f.newer }) g archive
              (rw (y, n) at e))
    ]
  ]
