-- ===== src/LogCache/Complete.antt =====
-- `loadRange` of src/Logfile.cc stores every message of the lines that it reads.
use naemon_livestatus.Prelude.{
  ℕ, ◌+◌, ◌≡◌, sym, ap, ◌∙◌, inl, inr, false, List, [], ◌∷◌, ◌++◌, append-nil, some, leb,
  Bool-cases, Option-cases, In, subst, In-append_left, In-append_right, test_bit,
}
use mathlib.Core.Option.{some_inj, none-ne-some}
use naemon_livestatus.Text.{Bytes}
use naemon_livestatus.LogEntry.{LogEntry}
use naemon_livestatus.LogEntry.Parse.{parse}
use naemon_livestatus.Logfile.{Logfile, Entries, store_entry}
use naemon_livestatus.LogCache.{Focus, handle_new_message}
use naemon_livestatus.LogCache.Load.{Settings, load_entry, load_range}
use naemon_livestatus.LogCache.Keep.{AllShrink-refl, handle_new_message-Keeps}
use naemon_livestatus.LogCache.Messages.{message, messages, UniqueKeys}
use naemon_livestatus.LogCache.Keep.{Keeps}
use naemon_livestatus.LogCache.Load.{with_current}
use naemon_livestatus.LogCache.Range.{
  Within, Stores, store_entry-Stores, Loads, Loads-refl, Loads-trans,
}

module _ {Object : Type 0} (s : Settings Object) (types logclasses : ℕ) where
  Stores-Loads :
      (new : Entries Object) (lineno : ℕ) (f : Focus Object) (log : Logfile Object)
      → Stores types new (record f.current { lineno = lineno }) log
      → Loads types logclasses new f (with_current s f log)
  Stores-Loads new lineno f log h =
      let read : log.logclasses_read ≡ f.current.logclasses_read =
        ap (λ l. l.logclasses_read) h.same in
      record {
        older = AllShrink-refl f.older;
        newer = AllShrink-refl f.newer;
        path = ap (λ l. l.path) h.same;
        since = ap (λ l. l.since) h.same;
        watch = ap (λ l. l.watch) h.same;
        ascending = h.ascending;
        sound = h.sound;
        added = λ x l i b c. h.added x i b;
        kept = λ x l i c. h.kept x i;
        read_before = λ k l b. ap (λ m. test_bit m k) (sym read) ∙ b;
        still_read = λ k l b r. ap (λ m. test_bit m k) read ∙ r;
      }

  Keeps-Loads : (f g : Focus Object) → Keeps logclasses f g → Loads types logclasses [] f g
  Keeps-Loads f g h = record {
    older = h.older;
    newer = h.newer;
    path = h.current.shrinks.path;
    since = h.current.shrinks.since;
    watch = h.current.shrinks.watch;
    ascending = h.current.shrinks.ascending;
    sound = λ x i. inl (h.current.shrinks.fewer x i);
    added = λ x l i b c. elim i [ ];
    kept = λ x l i c. elim c [
      | inl b ↦ h.current.spared x l i b
      | inr r ↦ h.current.shrinks.complete x l i r
    ];
    read_before = h.current.shrinks.read_before;
    still_read = h.current.still_read;
  }

  module _ (all : Entries Object) (unique : UniqueKeys all) where
    -- one line, and the number of the next one
    load_entry-Loads :
        (e : LogEntry Object) (f : Focus Object)
        → Within f.current.entries all
        → Within (message (f.current.lineno + 1) (some e)) all
        → Loads types logclasses
            (message (f.current.lineno + 1) (some e))
            f
            (load_entry s types logclasses e f)
          × ((load_entry s types logclasses e f).current.lineno ≡ f.current.lineno + 1)
    unfolding load_entry
    load_entry-Loads e f old new =
        let lineno = f.current.lineno + 1 in
        let log0 : Logfile Object = record f.current { lineno = lineno } in
        let (log, stored) = store_entry lineno types e log0 in
        let here = with_current s f log in
        let stores = store_entry-Stores all unique lineno types e log0 old new in
        let first = Stores-Loads (message lineno (some e)) lineno f log stores in
        let keeps = handle_new_message-Keeps logclasses here in
        let second = Keeps-Loads here (handle_new_message logclasses here) keeps in
        let both =
          Loads-trans types logclasses (message lineno (some e)) [] f here
            (handle_new_message logclasses here) first second in
        let number : log.lineno ≡ lineno = ap (λ l. l.lineno) stores.same in
        elim (Bool-cases stored) [
          | inl k ↦ rw k (
            subst (λ es. Loads types logclasses es f (handle_new_message logclasses here))
                (append-nil (message lineno (some e))) both,
            keeps.current.shrinks.lineno ∙ number,
          )
          | inr k ↦ rw k (first, number)
        ]

    -- Where the core is not about to stop, `loadRange` stores all the messages of the lines that it reads.
    pub load_range-Loads :
        (lines : List Bytes) (f g : Focus Object) (rest : List Bytes)
        → s.should_terminate ≡ false
        → Within f.current.entries all
        → Within (messages s f.current.lineno lines) all
        → load_range s types logclasses lines f ≡ some (g, rest)
        → Loads types logclasses (messages s f.current.lineno lines) f g
    unfolding load_range messages load_entry
    load_range-Loads [] f g rest runs old new h =
        subst (Loads types logclasses [] f)
          (ap (λ (r : Focus Object × List Bytes). r.0) (some_inj.0 h))
          (Loads-refl types logclasses f)
    load_range-Loads (line ∷ lines) f g rest runs old new h =
        let n = f.current.lineno in
        elim (Bool-cases (leb s.max_lines n)) [
          | inl k ↦ rw k (
              subst (Loads types logclasses [] f)
                (ap (λ (r : Focus Object × List Bytes). r.0) (some_inj.0 (rw k at h)))
                (Loads-refl types logclasses f))
          | inr k ↦ elim (Option-cases (parse s.objects (n + 1) line)) [
            | inl p ↦ absurd (none-ne-some _ (rw (k, p) at h))
            | inr (e, p) ↦
                let new' : Within (message (n + 1) (some e) ++ messages s (n + 1) lines) all =
                  rw (k, p) at new in
                let f' = load_entry s types logclasses e f in
                let (first, number) =
                  load_entry-Loads e f old (λ x i. new' x (In-append_left x _ _ i)) in
                let old' : Within f'.current.entries all = λ x i. elim (first.sound x i) [
                  | inl j ↦ old x j
                  | inr j ↦
                      new' x
                        (In-append_left x (message (n + 1) (some e)) (messages s (n + 1) lines) j)
                ] in
                let later : Within (messages s f'.current.lineno lines) all = λ x i. new' x (
                  In-append_right x (message (n + 1) (some e)) (messages s (n + 1) lines)
                    (subst (λ m. In x (messages s m lines)) number i)) in
                let more =
                  load_range-Loads lines f' g rest runs old' later (rw (k, p, runs) at h) in
                rw (k, p)
                  (Loads-trans types logclasses (message (n + 1) (some e))
                    (messages s (n + 1) lines) f f' g first
                    (subst (λ m. Loads types logclasses (messages s m lines) f' g) number more))
          ]
        ]
