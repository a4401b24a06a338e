-- ===== src/TableLog/Archive.antt =====
-- The log files that src/TableLog.cc goes through, and what is taken to hold of them.
use naemon_livestatus.Prelude.{
  ℕ, true, false, List, [], ◌∷◌, ◌++◌, map, Option, none, some, ◌≡◌, refl, sym, ap, ap₂, ◌∙◌, subst,
  Option-cases, inl, inr, ℤ, ◌≤ℤ◌, is_pos, In, here, there, All, All-In, All_of_members,
  In-append_left, In-append_right, unrelated, related,
}
use mathlib.Core.Option.{some_inj, none-ne-some}
use naemon_livestatus.Text.{Bytes}
use naemon_livestatus.LogEntry.{LogEntry}
use naemon_livestatus.Logfile.{Logfile, File, Entries}
use naemon_livestatus.Logfile.Entries.{Ascending}
use naemon_livestatus.LogCache.{Focus}
use naemon_livestatus.LogCache.Load.{Settings, load}
use naemon_livestatus.LogCache.Messages.{messages}
use naemon_livestatus.LogCache.Shrink.{Shrinks}
use naemon_livestatus.LogCache.Keep.{AllShrink}
use naemon_livestatus.LogCache.Coherent.{Coherent, Loaded, Shrinks-Coherent}
use naemon_livestatus.TableLog.{unsnoc, end_time}
use naemon_livestatus.TableLog.Windows.{Timed}

-- what a log file is known by: its path and the time of its first line
abbrev pub Ident : Type 0
Ident = Bytes × ℤ

abbrev pub ident : {Object : Type 0} → Logfile Object → Ident
ident log = (log.path, log.since)

-- the files from the oldest to the current one
abbrev pub idents : {Object : Type 0} → Focus Object → List Ident
idents f = map ident f.older ++ ident f.current ∷ []

module _ {Object : Type 0} (s : Settings Object) (disk : Bytes → Option File) (stack : Bytes) where
  abbrev pub file_at : Bytes → File
  file_at path = elim (disk path) [ none ↦ [] | some file ↦ file ]

  -- the messages of a file
  abbrev pub messages_at : Bytes → Entries Object
  messages_at path = messages s 0 (file_at path)

  -- A file of the archive is as it should be: it can be opened, its first line has its first time and its
  -- last line its last one, and all times fit into 32 bits.
  pub record IsLog (i : Ident) : Type 0 where
    pub opened : disk i.0 ≡ some (file_at i.0)
    pub timed : (x : ℕ × LogEntry Object) → In x (messages_at i.0) → Timed x
    pub starts : (x : ℕ × LogEntry Object) → In x (messages_at i.0) → i.1 ≤ℤ x.1.time
    pub ends :
        is_pos (end_time disk stack i.0) ≡ true
        → (i.1 ≤ℤ end_time disk stack i.0)
          × ((x : ℕ × LogEntry Object)
              → In x (messages_at i.0)
              → x.1.time ≤ℤ end_time disk stack i.0)

  -- a file that does not grow, in memory
  pub record Settled (log : Logfile Object) : Type 0 where
    pub file : IsLog (ident log)
    pub still : log.watch ≡ false
    pub coherent : Coherent s (file_at log.path) log
    pub ascending : Ascending log.entries

  -- whenever the file is loaded, it is loaded well
  pub record Ready (logclasses : ℕ) (log : Logfile Object) : Type 0 where
    pub file : IsLog (ident log)
    pub ascending : Ascending log.entries
    pub loads :
        (f g : Focus Object)
        → f.current ≡ log
        → load s logclasses (disk log.path) f ≡ some g
        → Loaded s logclasses (file_at log.path) f g

  -- no message is younger than the first time of a later file
  abbrev pub Chronological : List Ident → Type 0
  Chronological [] = Unit
  Chronological (i ∷ is) =
      All (λ j. (x : ℕ × LogEntry Object) → In x (messages_at i.0) → x.1.time ≤ℤ j.1) is
      × Chronological is

  pub Chronological-last :
      (is : List Ident) (j i : Ident)
      → Chronological (is ++ j ∷ [])
      → In i is
      → (x : ℕ × LogEntry Object) → In x (messages_at i.0)
      → x.1.time ≤ℤ j.1
  Chronological-last (i ∷ is) j i' c here =
      All-In _ (is ++ j ∷ []) j c.0 (In-append_right j is (j ∷ []) here)
  Chronological-last (i ∷ is) j i' c (there k) = Chronological-last is j i' c.1 k
  Chronological-last [] j i' c k = elim k [ ]

  pub Chronological-front : (is js : List Ident) → Chronological (is ++ js) → Chronological is
  Chronological-front [] js c = tt
  Chronological-front (i ∷ is) js c = (
    All_of_members _ is (λ j k. All-In _ (is ++ js) j c.0 (In-append_left j is js k)),
    Chronological-front is js c.1,
  )

  pub Shrinks-ident : (log log' : Logfile Object) → Shrinks log log' → ident log' ≡ ident log
  Shrinks-ident log log' h = ap₂ (λ p t. (p, t)) h.path h.since

  Shrinks-Settled : (log log' : Logfile Object) → Shrinks log log' → Settled log → Settled log'
  Shrinks-Settled log log' h c = record {
    file = subst IsLog (sym (Shrinks-ident log log' h)) c.file;
    still = h.watch ∙ c.still;
    coherent =
        subst (λ p. Coherent s (file_at p) log') (sym h.path)
          (Shrinks-Coherent s (file_at log.path) log log' h c.coherent);
    ascending = h.ascending c.ascending;
  }

  pub AllShrink-idents :
      {logs logs' : List (Logfile Object)} → AllShrink logs logs' → map ident logs' ≡ map ident logs
  AllShrink-idents unrelated = refl
  AllShrink-idents (related {x = a} {y = b} p ps) =
      ap₂ (λ i is. i ∷ is) (Shrinks-ident a b p) (AllShrink-idents ps)

  pub AllShrink-Settled :
      {logs logs' : List (Logfile Object)}
      → AllShrink logs logs'
      → All Settled logs
      → All Settled logs'
  AllShrink-Settled unrelated h = tt
  AllShrink-Settled (related {x = a} {y = b} p ps) h =
      (Shrinks-Settled a b p h.0, AllShrink-Settled ps h.1)

pub unsnoc-none {ℓ} : {A : Type ℓ} (xs : List A) → unsnoc xs ≡ none → xs ≡ []
unfolding unsnoc
unsnoc-none [] h = refl
unsnoc-none (x ∷ xs) h = elim (Option-cases (unsnoc xs)) [
  | inl e ↦ absurd (none-ne-some _ (sym (rw e at h)))
  | inr (p, e) ↦ absurd (none-ne-some _ (sym (rw e at h)))
]

unsnoc-first {ℓ} :
    {A : Type ℓ} (x : A) (xs ys : List A) (y : A)
    → xs ≡ []
    → ◌≡◌ {A = Option (List A × A)} (some ([], x)) (some (ys, y))
    → x ∷ xs ≡ ys ++ y ∷ []
unsnoc-first x xs ys y e h = ap (◌∷◌ x) e ∙ ap (λ (p : List _ × _). p.0 ++ p.1 ∷ []) (some_inj.0 h)

unsnoc-later {ℓ} :
    {A : Type ℓ} (x : A) (xs zs ys : List A) (z y : A)
    → xs ≡ zs ++ z ∷ []
    → ◌≡◌ {A = Option (List A × A)} (some (x ∷ zs, z)) (some (ys, y))
    → x ∷ xs ≡ ys ++ y ∷ []
unsnoc-later x xs zs ys z y e h =
    ap (◌∷◌ x) e ∙ ap (λ (p : List _ × _). p.0 ++ p.1 ∷ []) (some_inj.0 h)

pub unsnoc-some {ℓ} :
    {A : Type ℓ} (xs ys : List A) (y : A) → unsnoc xs ≡ some (ys, y) → xs ≡ ys ++ y ∷ []
unfolding unsnoc
unsnoc-some [] ys y h = absurd (none-ne-some _ h)
unsnoc-some (x ∷ xs) ys y h = elim (Option-cases (unsnoc xs)) [
  | inl e ↦ unsnoc-first x xs ys y (unsnoc-none xs e) (rw e at h)
  | inr ((zs, z), e) ↦ unsnoc-later x xs zs ys z y (unsnoc-some xs zs z e) (rw e at h)
]
