-- ===== src/TableLog/Walk.antt =====
-- The walk of `answerQuery` in src/TableLog.cc back through the log files.
use naemon_livestatus.Prelude.{
  ℕ, ◌-◌, ◌^◌, ◌<◌, Bool, true, false, List, [], ◌∷◌, ◌++◌, Option, ◌≡◌, sym, ap, ◌∙◌, subst, inl,
  inr, ℤ, pos, ltb_ℤ, ◌≤ℤ◌, is_pos, In, here, there, All_of_members, reverse-In, In-reverse,
  In-single, In-append_cases, arith, reverse, All-append, test_bit,
}
use naemon_livestatus.Text.{Bytes}
use naemon_livestatus.LogEntry.{LogEntry}
use naemon_livestatus.Logfile.{Logfile, File, Entries, make_key}
use naemon_livestatus.Logfile.Entries.{Ascending}
use naemon_livestatus.LogCache.Load.{Settings, load}
use naemon_livestatus.LogCache.Coherent.{Coherent, load-Loaded}
use naemon_livestatus.TableLog.{up_to, end_time}
use naemon_livestatus.TableLog.Feeding.{Falling, cut, feed}
use naemon_livestatus.TableLog.Windows.{
  Timed, In-cut, up_to-In, In-up_to, window-Falling, in_front-key,
}
use naemon_livestatus.TableLog.Archive.{
  Ident, file_at, messages_at, IsLog, Settled, Ready, Chronological, Chronological-last,
}

pub Falling-append :
    {Object : Type 0} (xs ys : Entries Object)
    → Falling xs
    → Falling ys
    → ((x y : ℕ × LogEntry Object) → In x xs → In y ys → y.1.time ≤ℤ x.1.time)
    → Falling (xs ++ ys)
Falling-append [] ys f g h = g
Falling-append (x ∷ xs) ys f g h = (
  All-append _ xs ys f.0 (All_of_members _ ys (λ y i. h x y here i)),
  Falling-append xs ys f.1 g (λ z y i j. h z y (there i) j),
)

module _ {Object : Type 0} (s : Settings Object) (disk : Bytes → Option File) (stack : Bytes)
    (since : ℤ) (until : ℤ) (until_fits : until ≤ℤ pos (2 ^ 32 - 1)) (logclasses : ℕ) where
  -- a message that the query may want, by its class and its time
  abbrev pub Asked : ℕ × LogEntry Object → Type 0
  Asked x =
      (x.1.logclass < 32)
      × (test_bit logclasses x.1.logclass ≡ true)
      × (ltb_ℤ x.1.time since ≡ false)
      × (ltb_ℤ x.1.time until ≡ true)

  -- what is handed to the query of a file that was loaded
  abbrev pub handed : Logfile Object → Entries Object
  handed log = reverse (up_to (make_key until 999999999) log.entries)

  module _ (path : Bytes) (log : Logfile Object)
      (timed : (x : ℕ × LogEntry Object) → In x (messages_at s disk stack path) → Timed x)
      (coherent : Coherent s (file_at s disk stack path) log)
      (ascending : Ascending log.entries) where
    pub handed-In :
        (x : ℕ × LogEntry Object) → In x (handed log) → In x (messages_at s disk stack path)
    handed-In x i =
        coherent.sound x
          (up_to-In _ x log.entries (In-reverse x (up_to (make_key until 999999999) log.entries) i))

    pub handed-Falling : Falling (handed log)
    handed-Falling = window-Falling _ log.entries ascending (λ x i. timed x (coherent.sound x i))

    pub cut_complete :
        ((k : ℕ) → k < 32 → test_bit logclasses k ≡ true → test_bit log.logclasses_read k ≡ true)
        → (x : ℕ × LogEntry Object) → In x (messages_at s disk stack path)
        → Asked x
        → In x (cut since (handed log))
    cut_complete read x i (small, wanted, young, before) =
        let stored = coherent.complete x small i (read _ small wanted) in
        let in_front = in_front-key until x until_fits (timed x i) before in
        In-cut since x (handed log) handed-Falling
          (reverse-In x _ (In-up_to _ x log.entries ascending stored in_front)) young

  -- What a query has got of some files: messages of these files alone, from the newest on, and, unless it
  -- stopped itself, all that it asked for.
  pub record Answered {State : Type 0} (process : State → LogEntry Object → State × Bool)
      (files : List Ident) (q q' : State) : Type 0 where
    pub rows : Entries Object
    pub fed : q' ≡ (feed process q rows).0
    pub sound :
        (x : ℕ × LogEntry Object)
        → In x rows
        → (i : Ident) × In i files × In x (messages_at s disk stack i.0)
    pub complete :
        (feed process q rows).1 ≡ true
        → (i : Ident) (x : ℕ × LogEntry Object) → In i files
        → In x (messages_at s disk stack i.0)
        → Asked x
        → In x rows
    pub falling : Falling rows

  module _ {State : Type 0} (process : State → LogEntry Object → State × Bool)
      (short : s.max_lines < 2 ^ 32) (runs : s.should_terminate ≡ false) where
    pub Settled-Ready :
        (log : Logfile Object) → Settled s disk stack log → Ready s disk stack logclasses log
    Settled-Ready log h = record {
      file = h.file;
      ascending = h.ascending;
      loads = λ f g same e.
          load-Loaded s short runs logclasses (file_at s disk stack log.path) f g
            (ap (λ l. l.watch) same ∙ h.still)
            (subst (Coherent s (file_at s disk stack log.path)) (sym same) h.coherent)
            (ap (λ o. load s logclasses o f) (sym h.file.opened) ∙ e);
    }

    -- the files in front of the current one have nothing that is younger than its first line
    module _ (older : List Ident) (current : Ident)
        (chrono : Chronological s disk stack (older ++ current ∷ []))
        (is_log : IsLog s disk stack current) where
      -- where a message of the current file is too old, so are all of the older files
      pub stopped_lem :
          (y : ℕ × LogEntry Object)
          → In y (messages_at s disk stack current.0)
          → ltb_ℤ y.1.time since ≡ true
          → (i : Ident) (x : ℕ × LogEntry Object) → In i older
          → In x (messages_at s disk stack i.0)
          → ltb_ℤ x.1.time since ≡ true
      stopped_lem y there_is less i x k j =
          let before = Chronological-last s disk stack older current i chrono k x j in
          let begins = is_log.starts y there_is in ground (arith, less, before, begins)

      -- where the last line of the current file is too old, so is everything
      pub over_lem :
          is_pos (end_time disk stack current.0) ≡ true
          → ltb_ℤ (end_time disk stack current.0) since ≡ true
          → (i : Ident) (x : ℕ × LogEntry Object) → In i (older ++ current ∷ [])
          → In x (messages_at s disk stack i.0)
          → ltb_ℤ x.1.time since ≡ true
      over_lem positive less i x k j =
          let (begins, last) = is_log.ends positive in
          elim (In-append_cases i older (current ∷ []) k) [
            | inl l ↦
                let before = Chronological-last s disk stack older current i chrono l x j in
                ground (arith, less, before, begins)
            | inr l ↦
                let here_is : x.1.time ≤ℤ end_time disk stack current.0 =
                  last x
                    (subst (λ p. In x (messages_at s disk stack p.0)) (In-single i current l) j) in
                ground (arith, less, here_is)
          ]
