-- ===== src/LogCache/Grown.antt =====
-- The current log file, which grows between two loads, in `load` of src/Logfile.cc.
use naemon_livestatus.Prelude.{
  ℕ, append_assoc, drop-append, drop, ◌+◌, ◌<◌, ◌^◌, ◌≡◌, refl, sym, ap, ◌∙◌, inl, inr, ==_iff,
  test_bit-zero, true, false, List, [], ◌∷◌, ◌++◌, length, some, leb, ◌==◌, Bool-cases,
  Option-cases, if◌then◌else◌, arith, In, subst, In-append_cases, In-append_left, In-append_right,
  test_bit,
}
use mathlib.Core.Bool.{true≢false}
use mathlib.Core.Option.{some_inj, none-ne-some}
use naemon_livestatus.Text.{Bytes}
use naemon_livestatus.LogEntry.Parse.{parse}
use naemon_livestatus.Logfile.{Logfile}
use naemon_livestatus.LogCache.{Focus}
use naemon_livestatus.LogCache.Load.{Settings, load_range}
use naemon_livestatus.LogCache.Keep.{AllShrink, AllShrink-refl, AllShrink-trans}
use naemon_livestatus.LogCache.Messages.{message, messages}
use naemon_livestatus.Logfile.Entries.{Ascending}
use naemon_livestatus.LogCache.Range.{Within}
use naemon_livestatus.LogCache.Complete.{load_range-Loads}
use naemon_livestatus.LogCache.Load.{load, load_file, load_grown, left_at}
use naemon_livestatus.LogCache.Messages.{messages-UniqueKeys}
use naemon_livestatus.Logfile.{File}
use naemon_livestatus.LogCache.Coherent.{Coherent, Loaded, left_at_same, load_rest-Loaded}

position_lem :
    {Object : Type 0} (n : ℕ) (log : Logfile Object)
    → log.lineno ≡ n
    → log.read_pos ≡ n
    → (if log.lineno == 0 then 0 else log.read_pos) ≡ n
position_lem n log h k = ground (arith, h, k)

module _ {Object : Type 0} (s : Settings Object) where
  messages-full : (n : ℕ) (lines : List Bytes) → leb s.max_lines n ≡ true → messages s n lines ≡ []
  unfolding messages
  messages-full n [] h = refl
  messages-full n (line ∷ lines) h = rw h refl

  messages-append :
      (n m : ℕ) (xs ys : List Bytes)
      → m ≡ n + length xs
      → messages s n (xs ++ ys) ≡ messages s n xs ++ messages s m ys
  unfolding messages
  messages-append n m [] ys e = ap (λ k. messages s k ys) (omega (arith, e))
  messages-append n m (line ∷ xs) ys e = elim (Bool-cases (leb s.max_lines n)) [
    | inl k ↦ rw k (sym (messages-full m ys (ground arith)))
    | inr k ↦ rw k (
        ap (λ r. message (n + 1) (parse s.objects (n + 1) line) ++ r)
          (messages-append (n + 1) m xs ys (omega (arith, e)))
        ∙ sym (
            append_assoc (message (n + 1) (parse s.objects (n + 1) line)) (messages s (n + 1) xs)
              (messages s m ys)))
  ]

  -- what has been read so far are the lines of `file`
  pub record AtEnd (file : File) (log : Logfile Object) : Type 0 where
    pub lineno : log.lineno ≡ length file
    pub read_pos : log.read_pos ≡ length file

  module _ (short : s.max_lines < 2 ^ 32) (runs : s.should_terminate ≡ false) (logclasses : ℕ) where
    -- the state after the new lines are read
    record Grows (file : File) (f g : Focus Object) : Type 0 where
      coherent : Coherent s file g.current
      still_read :
          (k : ℕ)
          → k < 32
          → test_bit logclasses k ≡ true
          → test_bit f.current.logclasses_read k ≡ true
          → test_bit g.current.logclasses_read k ≡ true
      older : AllShrink f.older g.older
      newer : AllShrink f.newer g.newer
      path : g.current.path ≡ f.current.path
      since : g.current.since ≡ f.current.since
      watch : g.current.watch ≡ f.current.watch
      ascending : Ascending f.current.entries → Ascending g.current.entries

    load_grown-Grows :
        (file extra : File) (f g : Focus Object)
        → Coherent s file f.current
        → ((f.current.logclasses_read == 0) ≡ false → AtEnd file f.current)
        → load_grown s logclasses (file ++ extra) f ≡ some g
        → Grows (file ++ extra) f g
    unfolding load_grown
    load_grown-Grows file extra f g c end h =
        let read = f.current.logclasses_read in
        let position = if f.current.lineno == 0 then 0 else f.current.read_pos in
        let whole = messages s 0 (file ++ extra) in
        let split : whole ≡ messages s 0 file ++ messages s (length file) extra =
          messages-append 0 (length file) file extra (omega arith) in
        let inside : Within (messages s 0 file) whole = λ x i.
          subst (In x) (sym split)
            (In-append_left x (messages s 0 file) (messages s (length file) extra) i) in
        let outside : Within (messages s (length file) extra) whole = λ x i.
          subst (In x) (sym split)
            (In-append_right x (messages s 0 file) (messages s (length file) extra) i) in
        elim (Bool-cases (read == 0)) [
          | inl z ↦ subst (Grows (file ++ extra) f) (some_inj.0 (rw z at h)) (record {
            coherent = record {
              sound = λ x i. inside x (c.sound x i);
              complete = λ x l i b. absurd (
                  true≢false (
                    sym b
                    ∙ ap (λ n. test_bit n x.1.logclass) ((==_iff read 0).0 z)
                    ∙ test_bit-zero x.1.logclass));
            };
            still_read = λ k l b r. r;
            older = AllShrink-refl f.older;
            newer = AllShrink-refl f.newer;
            path = refl;
            since = refl;
            watch = refl;
            ascending = λ a. a;
          })
          | inr z ↦
              let lineno = (end z).lineno in
              let behind_file : drop position (file ++ extra) ≡ extra =
                ap (λ n. drop n (file ++ extra))
                  (position_lem (length file) f.current lineno (end z).read_pos)
                ∙ drop-append file extra in
              elim (Option-cases (load_range s read logclasses (drop position (file ++ extra)) f)) [
                | inl e ↦ absurd (none-ne-some _ (rw (z, e) at h))
                | inr ((f', rest), e) ↦
                    let new : messages s f.current.lineno extra ≡ messages s (length file) extra =
                      ap (λ n. messages s n extra) lineno in
                    let loads =
                      load_range-Loads s read logclasses whole
                        (messages-UniqueKeys s short 0 (file ++ extra)) extra f f' rest runs
                        (λ x i. inside x (c.sound x i)) (λ x i. outside x (subst (In x) new i))
                        (sym (ap (λ ls. load_range s read logclasses ls f) behind_file) ∙ e) in
                    let left : Logfile Object = left_at s (file ++ extra) rest f'.current in
                    let unchanged =
                      left_at_same s short runs logclasses (file ++ extra) rest f'.current in
                    let same : left.entries ≡ f'.current.entries = ap (λ l. l.entries) unchanged in
                    let read_same : left.logclasses_read ≡ f'.current.logclasses_read =
                      ap (λ l. l.logclasses_read) unchanged in
                    subst (Grows (file ++ extra) f) (some_inj.0 (rw (z, e) at h)) (record {
                      coherent = record {
                        sound = λ x i. elim (loads.sound x (subst (In x) same i)) [
                          | inl j ↦ inside x (c.sound x j)
                          | inr j ↦ outside x (subst (In x) new j)
                        ];
                        complete = λ x l i b.
                            let r : test_bit f'.current.logclasses_read x.1.logclass ≡ true =
                              ap (λ n. test_bit n x.1.logclass) (sym read_same) ∙ b in
                            subst (In x) (sym same)
                              (elim (In-append_cases x (messages s 0 file)
                                (messages s (length file) extra) (subst (In x) split i)) [
                                  | inl j ↦
                                      loads.kept x l (c.complete x l j (loads.read_before _ l r))
                                        (inr r)
                                  | inr j ↦
                                      loads.added x l (subst (In x) (sym new) j)
                                        (loads.read_before _ l r) (inr r)
                                ]);
                      };
                      still_read =
                          λ k l b r. ap (λ n. test_bit n k) read_same ∙ loads.still_read k l b r;
                      older = loads.older;
                      newer = loads.newer;
                      path = ap (λ l. l.path) unchanged ∙ loads.path;
                      since = ap (λ l. l.since) unchanged ∙ loads.since;
                      watch = ap (λ l. l.watch) unchanged ∙ loads.watch;
                      ascending = λ a. subst Ascending (sym same) (loads.ascending a);
                    })
              ]
        ]

    -- The current log file is loaded again after it has grown: when the entries in memory agreed
    -- with the old lines, reading had stopped behind them, fewer than 2 ^ 32 lines are read of a
    -- file and the core is not about to stop, then a load that ends leaves entries that agree with
    -- all the lines, as far as the maximum of lines goes; all messages of the classes that the query
    -- wants are there, and the other files have lost no message of a class that still counts as
    -- read.
    pub load_watched-Loaded :
        (file extra : File) (f g : Focus Object)
        → f.current.watch ≡ true
        → Coherent s file f.current
        → ((f.current.logclasses_read == 0) ≡ false → AtEnd file f.current)
        → load s logclasses (some (file ++ extra)) f ≡ some g
        → Loaded s logclasses (file ++ extra) f g
    unfolding load load_file
    load_watched-Loaded file extra f g watched c end h =
        let k = sym (ap (λ w. load_file s w logclasses (file ++ extra) f) watched) ∙ h in
        elim (Option-cases (load_grown s logclasses (file ++ extra) f)) [
          | inl e ↦ absurd (none-ne-some _ (rw e at k))
          | inr (f', e) ↦
              let grows = load_grown-Grows file extra f f' c end e in
              let rest =
                load_rest-Loaded s short runs logclasses f.current.logclasses_read (file ++ extra)
                  f' g grows.still_read grows.coherent (rw e at k) in
              record {
                coherent = rest.coherent;
                has_read = rest.has_read;
                older = AllShrink-trans grows.older rest.older;
                newer = AllShrink-trans grows.newer rest.newer;
                path = rest.path ∙ grows.path;
                since = rest.since ∙ grows.since;
                watch = rest.watch ∙ grows.watch;
                ascending = λ a. rest.ascending (grows.ascending a);
              }
        ]
