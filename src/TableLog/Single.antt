-- ===== src/TableLog/Single.antt =====
-- What one file adds to the answer, in the loop of `answerQuery` in src/TableLog.cc.
use naemon_livestatus.Prelude.{
  ℕ, ◌-◌, ◌^◌, ◌<◌, Bool, true, false, ◌&&◌, [], ◌∷◌, ◌++◌, map, if◌then◌else◌, Option, ◌≡◌, sym,
  ap, ◌∙◌, subst, inl, inr, ℤ, pos, ◌≤ℤ◌, In, here, In-single, In-append_cases, In-append_left,
  In-append_right, arith, and_both,
}
use mathlib.Core.Bool.{true≢false}
use naemon_livestatus.Text.{Bytes}
use naemon_livestatus.LogEntry.{LogEntry}
use naemon_livestatus.Logfile.{File, Entries}
use naemon_livestatus.Logfile.Entries.{Ascending}
use naemon_livestatus.LogCache.{Focus}
use naemon_livestatus.LogCache.Load.{Settings}
use naemon_livestatus.LogCache.Coherent.{Loaded}
use naemon_livestatus.TableLog.{visit_back}
use naemon_livestatus.TableLog.Feeding.{Falling, cut, reaches, feed, feed-append, visit_back-feed}
use naemon_livestatus.TableLog.Windows.{cut-In, cut-Falling, reaches-false}
use naemon_livestatus.TableLog.Archive.{
  Ident, ident, idents, file_at, messages_at, IsLog, Chronological, Chronological-last,
}
use naemon_livestatus.TableLog.Walk.{
  Asked, handed, Answered, Falling-append, stopped_lem, handed-In, handed-Falling, cut_complete,
}

module _ {Object : Type 0} (s : Settings Object) (disk : Bytes → Option File) (stack : Bytes)
    (since : ℤ) (until : ℤ) (until_fits : until ≤ℤ pos (2 ^ 32 - 1)) (logclasses : ℕ) where
  module _ {State : Type 0} (process : State → LogEntry Object → State × Bool)
      (short : s.max_lines < 2 ^ 32) (runs : s.should_terminate ≡ false) where
    -- what one file gives, in front of what the older ones give
    module _ (f f' : Focus Object) (q : State) (chrono : Chronological s disk stack (idents f))
        (is_log : IsLog s disk stack (ident f.current)) (ascending : Ascending f'.current.entries)
        (loaded : Loaded s logclasses (file_at s disk stack f.current.path) f f') where
      abbrev pub visited : State × Bool
      visited =
          visit_back process since
            (handed s disk stack since until until_fits logclasses f'.current) q

      abbrev taken : Entries Object
      taken = cut since (handed s disk stack since until until_fits logclasses f'.current)

      taken-In :
          (x : ℕ × LogEntry Object) → In x taken → In x (messages_at s disk stack f.current.path)
      taken-In x i =
          handed-In s disk stack since until until_fits logclasses f.current.path f'.current
            is_log.timed loaded.coherent ascending x
            (cut-In since x (handed s disk stack since until until_fits logclasses f'.current) i)

      current_complete :
          (i : Ident) (x : ℕ × LogEntry Object)
          → In i (ident f.current ∷ [])
          → In x (messages_at s disk stack i.0)
          → Asked s disk stack since until until_fits logclasses x
          → In x taken
      current_complete i x k j asked =
          cut_complete s disk stack since until until_fits logclasses f.current.path f'.current
            is_log.timed loaded.coherent ascending loaded.has_read x
            (subst (λ p. In x (messages_at s disk stack p.0)) (In-single i (ident f.current) k) j)
            asked

      current_sound :
          (x : ℕ × LogEntry Object)
          → In x taken
          → (i : Ident) × In i (idents f) × In x (messages_at s disk stack i.0)
      current_sound x i = (
        ident f.current,
        In-append_right _ (map ident f.older) (ident f.current ∷ []) here,
        taken-In x i,
      )

      taken-Falling : Falling taken
      taken-Falling =
          cut-Falling since (handed s disk stack since until until_fits logclasses f'.current) (
            handed-Falling s disk stack since until until_fits logclasses f.current.path f'.current
              is_log.timed loaded.coherent ascending)

      visited-feed : visited ≡ (
        (feed process q taken).0,
        (feed process q taken).1
            && reaches since (handed s disk stack since until until_fits logclasses f'.current),
      )
      visited-feed =
          visit_back-feed process since
            (handed s disk stack since until until_fits logclasses f'.current) q

      pub stop-Answered :
          visited.1 ≡ false
          → Answered s disk stack since until until_fits logclasses process (idents f) q visited.0
      stop-Answered h = record {
        rows = taken;
        fed = ap (λ (r : State × Bool). r.0) visited-feed;
        sound = current_sound;
        complete = λ fed i x k j asked.
            elim (In-append_cases i (map ident f.older) (ident f.current ∷ []) k) [
              | inr l ↦ current_complete i x l j asked
              | inl l ↦
                  let stopped : reaches since
                        (handed s disk stack since until until_fits logclasses f'.current)
                      ≡ false =
                    sym (
                      ap
                        (λ b.
                          b
                          && reaches since
                              (handed s disk stack since until until_fits logclasses f'.current))
                        fed)
                    ∙ sym (ap (λ (r : State × Bool). r.1) visited-feed)
                    ∙ h in
                  let (y, there_is, old) =
                    reaches-false since
                      (handed s disk stack since until until_fits logclasses f'.current) stopped in
                  let inside =
                    handed-In s disk stack since until until_fits logclasses f.current.path
                      f'.current is_log.timed loaded.coherent ascending y there_is in
                  absurd (
                    true≢false (
                      sym (
                        stopped_lem s disk stack since until until_fits logclasses process short
                          runs (map ident f.older) (ident f.current) chrono is_log y inside old i x
                          l j)
                      ∙ asked.2))
            ];
        falling = taken-Falling;
      }

      pub last-Answered :
          map ident f.older ≡ []
          → Answered s disk stack since until until_fits logclasses process (idents f) q visited.0
      last-Answered h = record {
        rows = taken;
        fed = ap (λ (r : State × Bool). r.0) visited-feed;
        sound = current_sound;
        complete = λ fed i x k j asked.
            current_complete i x (subst (λ is. In i (is ++ ident f.current ∷ [])) h k) j asked;
        falling = taken-Falling;
      }

      pub more-Answered :
          (q' : State)
          → visited.1 ≡ true
          → Answered s disk stack since until until_fits logclasses process
              (map ident f.older)
              visited.0
              q'
          → Answered s disk stack since until until_fits logclasses process (idents f) q q'
      more-Answered q' h rest =
          let went_on : (feed process q taken).1 ≡ true =
            (and_both _ _ (sym (ap (λ (r : State × Bool). r.1) visited-feed) ∙ h)).0 in
          let state : visited.0 ≡ (feed process q taken).0 =
            ap (λ (r : State × Bool). r.0) visited-feed in
          let joined : feed process q (taken ++ rest.rows) ≡ feed process visited.0 rest.rows =
            feed-append process q taken rest.rows
            ∙ ap
                (λ b.
                  if b
                  then feed process (feed process q taken).0 rest.rows
                  else ((feed process q taken).0, false))
                went_on
            ∙ ap (λ z. feed process z rest.rows) (sym state) in
          record {
            rows = taken ++ rest.rows;
            fed = rest.fed ∙ sym (ap (λ (r : State × Bool). r.0) joined);
            sound = λ x i. elim (In-append_cases x taken rest.rows i) [
              | inl j ↦ current_sound x j
              | inr j ↦
                  let (k, l, m) = rest.sound x j in
                  (k, In-append_left k (map ident f.older) (ident f.current ∷ []) l, m)
            ];
            complete = λ fed i x k j asked.
                elim (In-append_cases i (map ident f.older) (ident f.current ∷ []) k) [
                  | inr l ↦ In-append_left x taken rest.rows (current_complete i x l j asked)
                  | inl l ↦ In-append_right x taken rest.rows (
                      rest.complete (sym (ap (λ (r : State × Bool). r.1) joined) ∙ fed) i x l j
                        asked)
                ];
            falling = Falling-append taken rest.rows taken-Falling rest.falling (λ x y i j.
                let (k, l, m) = rest.sound y j in
                let older_is =
                  Chronological-last s disk stack (map ident f.older) (ident f.current) k chrono l y
                    m in
                let younger_is = is_log.starts x (taken-In x i) in
                omega (arith, older_is, younger_is));
          }
