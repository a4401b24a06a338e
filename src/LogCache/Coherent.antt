-- ===== src/LogCache/Coherent.antt =====
-- `load` of src/Logfile.cc: what is in memory agrees with the file, and all that the query wants is there.
use naemon_livestatus.Prelude.{
  ℕ, ◌<◌, ◌^◌, ◌≡◌, refl, sym, ap, ◌∙◌, ◌⊎◌, inl, inr, or32, or_either, or_true, ap₂, and_both,
  ==_iff, test_bit-zero, test_bit-bitwise, and_not32, ◌||◌, ◌&&◌, true, false, not, List, some,
  ◌==◌, Bool-cases, Option-cases, In, subst, test_bit,
}
use mathlib.Core.Bool.{true≢false}
use mathlib.Core.Option.{some_inj, none-ne-some}
use naemon_livestatus.Text.{Bytes}
use naemon_livestatus.LogEntry.{LogEntry}
use naemon_livestatus.Logfile.{Logfile}
use naemon_livestatus.LogCache.{Focus}
use naemon_livestatus.LogCache.Load.{Settings, load_range}
use naemon_livestatus.LogCache.Shrink.{Shrinks}
use naemon_livestatus.LogCache.Keep.{AllShrink, AllShrink-refl}
use naemon_livestatus.LogCache.Messages.{messages}
use naemon_livestatus.LogCache.Load.{with_current}
use naemon_livestatus.Logfile.Entries.{Ascending}
use naemon_livestatus.LogCache.Range.{Within, Loads}
use naemon_livestatus.LogCache.Complete.{load_range-Loads}
use naemon_livestatus.LogCache.Load.{load, load_file, load_rest, load_missing, left_at, add_classes}
use naemon_livestatus.LogCache.Messages.{messages-UniqueKeys}
use naemon_livestatus.Logfile.{File}

-- The entries in memory are messages of the file, and all messages of the classes that count as read
-- are there.
pub record Coherent {Object : Type 0} (s : Settings Object) (file : File) (log : Logfile Object)
    : Type 0 where
  pub sound : Within log.entries (messages s 0 file)
  pub complete :
      (x : ℕ × LogEntry Object)
      → x.1.logclass < 32
      → In x (messages s 0 file)
      → test_bit log.logclasses_read x.1.logclass ≡ true
      → In x log.entries

-- the classes that a query wants count as read
abbrev pub HasRead : {Object : Type 0} → ℕ → Logfile Object → Type 0
HasRead logclasses log =
    (k : ℕ) → k < 32 → test_bit logclasses k ≡ true → test_bit log.logclasses_read k ≡ true

-- What a load of the file at hand achieves. The other files may have shrunk.
pub record Loaded {Object : Type 0} (s : Settings Object) (logclasses : ℕ) (file : File)
    (f g : Focus Object) : Type 0 where
  pub coherent : Coherent s file g.current
  pub has_read : HasRead logclasses g.current
  pub older : AllShrink f.older g.older
  pub newer : AllShrink f.newer g.newer
  pub path : g.current.path ≡ f.current.path
  pub since : g.current.since ≡ f.current.since
  pub watch : g.current.watch ≡ f.current.watch
  pub ascending : Ascending f.current.entries → Ascending g.current.entries

module _ {Object : Type 0} (s : Settings Object) where
  -- A file that shrinks stays coherent.
  pub Shrinks-Coherent :
      (file : File) (log log' : Logfile Object)
      → Shrinks log log'
      → Coherent s file log
      → Coherent s file log'
  Shrinks-Coherent file log log' h c = record {
    sound = λ x i. c.sound x (h.fewer x i);
    complete = λ x l i b. h.complete x l (c.complete x l i (h.read_before _ l b)) b;
  }

  module _ (short : s.max_lines < 2 ^ 32) (runs : s.should_terminate ≡ false) (logclasses : ℕ) where
    or_bits : (a b k : ℕ) → k < 32 → test_bit (or32 a b) k ≡ test_bit a k || test_bit b k
    or_bits a b k h = test_bit-bitwise _ 32 a b k h

    -- what `load_missing` gives, at its result
    missing-Coherent :
        (missing : ℕ) (file : File) (f g : Focus Object) (log : Logfile Object)
        → ((k : ℕ)
            → k < 32
            → test_bit logclasses k ≡ true
            → (test_bit missing k ≡ true) ⊎ (test_bit f.current.logclasses_read k ≡ true))
        → ((k : ℕ) → k < 32 → test_bit missing k ≡ true → test_bit logclasses k ≡ true)
        → Coherent s file f.current
        → Loads missing logclasses (messages s 0 file) f g
        → log.entries ≡ g.current.entries
        → log.logclasses_read ≡ or32 g.current.logclasses_read missing
        → Coherent s file log × HasRead logclasses log
    missing-Coherent missing file f g log known wanted c h same read = (
      record {
        sound = λ x i. elim (h.sound x (subst (In x) same i)) [ inl j ↦ c.sound x j | inr j ↦ j ];
        complete = λ x l i b.
            subst (In x) (sym same)
              (elim (or_either _ _
                (sym (or_bits _ _ _ l) ∙ ap (λ m. test_bit m x.1.logclass) (sym read) ∙ b)) [
                  | inl r ↦ h.kept x l (c.complete x l i (h.read_before _ l r)) (inr r)
                  | inr m ↦ h.added x l i m (inl (wanted _ l m))
                ]);
      },
      λ k l b. ap (λ m. test_bit m k) read ∙ or_bits _ _ k l ∙ elim (known k l b) [
        | inl m ↦ ap (λ c. test_bit g.current.logclasses_read k || c) m ∙ or_true _
        | inr r ↦ ap (λ c. c || test_bit missing k) (h.still_read k l b r)
      ],
    )

    pub left_at_same :
        (file : File) (rest : List Bytes) (log : Logfile Object)
        → left_at s file rest log ≡ record log { read_pos = (left_at s file rest log).read_pos }
    left_at_same file rest log = elim (Bool-cases log.watch) [
      | inl w ↦ rw w refl
      | inr w ↦ rw w refl
    ]

    load_missing-Loaded :
        (missing : ℕ) (file : File) (f g : Focus Object)
        → ((k : ℕ)
            → k < 32
            → test_bit logclasses k ≡ true
            → (test_bit missing k ≡ true) ⊎ (test_bit f.current.logclasses_read k ≡ true))
        → ((k : ℕ) → k < 32 → test_bit missing k ≡ true → test_bit logclasses k ≡ true)
        → Coherent s file f.current
        → load_missing s missing logclasses file f ≡ some g
        → Loaded s logclasses file f g
    unfolding load_missing
    load_missing-Loaded missing file f g known wanted c h =
        let f0 : Focus Object = with_current s f (record f.current { lineno = 0 }) in
        elim (Option-cases (load_range s missing logclasses file f0)) [
          | inl e ↦ absurd (none-ne-some _ (rw e at h))
          | inr ((f', rest), e) ↦
              let loads =
                load_range-Loads s missing logclasses (messages s 0 file)
                  (messages-UniqueKeys s short 0 file) file f0 f' rest runs c.sound (λ x i. i) e in
              let left : Logfile Object = left_at s file rest (add_classes s missing f'.current) in
              let unchanged = left_at_same file rest (add_classes s missing f'.current) in
              let (coherent, has_read) =
                missing-Coherent missing file f0 f' left known wanted
                  (record { sound = c.sound; complete = c.complete }) loads
                  (ap (λ l. l.entries) unchanged) (ap (λ l. l.logclasses_read) unchanged) in
              subst (Loaded s logclasses file f) (some_inj.0 (rw e at h)) (record {
                coherent = coherent;
                has_read = has_read;
                older = loads.older;
                newer = loads.newer;
                path = ap (λ l. l.path) unchanged ∙ loads.path;
                since = ap (λ l. l.since) unchanged ∙ loads.since;
                watch = ap (λ l. l.watch) unchanged ∙ loads.watch;
                ascending =
                    λ a. subst Ascending (sym (ap (λ l. l.entries) unchanged)) (loads.ascending a);
              })
        ]

    -- the classes that are missing
    missing_lem :
        (read k : ℕ)
        → k < 32
        → test_bit (and_not32 logclasses read) k ≡ test_bit logclasses k && not (test_bit read k)
    missing_lem read k h = test_bit-bitwise _ 32 logclasses read k h

    known_lem :
        (read k : ℕ)
        → k < 32
        → test_bit logclasses k ≡ true
        → (test_bit (and_not32 logclasses read) k ≡ true) ⊎ (test_bit read k ≡ true)
    known_lem read k h b = elim (Bool-cases (test_bit read k)) [
      | inl r ↦ inr r
      | inr r ↦ inl (missing_lem read k h ∙ ap₂ (λ c d. c && not d) b r)
    ]

    wanted_lem :
        (read k : ℕ)
        → k < 32
        → test_bit (and_not32 logclasses read) k ≡ true
        → test_bit logclasses k ≡ true
    wanted_lem read k h b = (and_both _ _ (sym (missing_lem read k h) ∙ b)).0

    -- nothing is missing
    none_missing :
        (read k : ℕ)
        → (and_not32 logclasses read == 0) ≡ true
        → k < 32
        → test_bit logclasses k ≡ true
        → test_bit read k ≡ true
    none_missing read k z h b = elim (known_lem read k h b) [
      | inr r ↦ r
      | inl m ↦
          absurd (true≢false (sym m ∙ ap (λ n. test_bit n k) ((==_iff _ 0).0 z) ∙ test_bit-zero k))
    ]

    -- the rest of a load, after what the query wants and was read before is still read
    pub load_rest-Loaded :
        (read : ℕ) (file : File) (f g : Focus Object)
        → ((k : ℕ)
            → k < 32
            → test_bit logclasses k ≡ true
            → test_bit read k ≡ true
            → test_bit f.current.logclasses_read k ≡ true)
        → Coherent s file f.current
        → load_rest s (and_not32 logclasses read) logclasses file f ≡ some g
        → Loaded s logclasses file f g
    unfolding load_rest
    load_rest-Loaded read file f g still c h = elim (Bool-cases (and_not32 logclasses read == 0)) [
      | inl z ↦ subst (Loaded s logclasses file f) (some_inj.0 (rw z at h)) (record {
        coherent = c;
        has_read = λ k l b. still k l b (none_missing read k z l b);
        older = AllShrink-refl f.older;
        newer = AllShrink-refl f.newer;
        path = refl;
        since = refl;
        watch = refl;
        ascending = λ a. a;
      })
      | inr z ↦
          load_missing-Loaded (and_not32 logclasses read) file f g
            (λ k l b. elim (known_lem read k l b) [ inl m ↦ inl m | inr r ↦ inr (still k l b r) ])
            (wanted_lem read) c (rw z at h)
    ]

    -- a load of a file that is not watched
    pub load-Loaded :
        (file : File) (f g : Focus Object)
        → f.current.watch ≡ false
        → Coherent s file f.current
        → load s logclasses (some file) f ≡ some g
        → Loaded s logclasses file f g
    unfolding load load_file
    load-Loaded file f g still c h =
        load_rest-Loaded f.current.logclasses_read file f g (λ k l b r. r) c
          (sym (ap (λ w. load_file s w logclasses file f) still) ∙ h)
