-- ===== src/LogCache/Indexed.antt =====
-- What the index of src/LogCache.cc holds after the log files were looked for.
use naemon_livestatus.Prelude.{
  length, ◌==◌, Bool, true, false, List, [], ◌∷◌, Option, ℤ, pos, ltb_ℤ, Option-cases, inl, inr,
  ◌⊎◌, ◌≡◌, refl, sym, ap, subst, In, here, there, arith,
}
use naemon_livestatus.Text.{Bytes}
use naemon_livestatus.Filter.{equal_ℤ}
use naemon_livestatus.Logfile.{Logfile, File, new}
use naemon_livestatus.LogCache.Count.{total}
use naemon_livestatus.LogCache.Index.{
  Index, Folder, has_since, insert_logfile, add_logfile, archive_scans, forget_logfiles, opened_at,
  scan_logfile, scan_all, scans, update_index, pre_checks,
}
use naemon_livestatus.LogCache.Sinces.{
  Rising, add_logfile-Rising, add_logfile-In, In-add_logfile, added,
}

first_scan :
    (folder : Folder)
    → (rest : List (Bytes × Bool)) × (scans folder ≡ (folder.log_file, true) ∷ rest)
unfolding scans
first_scan folder = elim (Option-cases folder.archive) [
  | inl e ↦ rw e ([], refl)
  | inr (names, e) ↦ rw e (archive_scans folder.archive_path names, refl)
]

module _ {Object : Type 0} (disk : Bytes → Option File) where
  scan_all-Rising :
      (ss : List (Bytes × Bool)) (files : List (Logfile Object))
      → Rising files
      → Rising (scan_all disk ss files)
  unfolding scan_all scan_logfile
  scan_all-Rising [] files r = r
  scan_all-Rising (scan ∷ ss) files r =
      scan_all-Rising ss (scan_logfile disk scan files)
        (add_logfile-Rising (opened_at disk scan) files r)

  In-scan_all :
      (y : Logfile Object) (ss : List (Bytes × Bool)) (files : List (Logfile Object))
      → In y files
      → In y (scan_all disk ss files)
  unfolding scan_all scan_logfile
  In-scan_all y [] files i = i
  In-scan_all y (scan ∷ ss) files i =
      In-scan_all y ss (scan_logfile disk scan files)
        (In-add_logfile (opened_at disk scan) y files i)

  -- a file of the index was found by one of the looks
  abbrev pub FoundBy : List (Bytes × Bool) → Logfile Object → Type 0
  FoundBy ss y =
      (scan : Bytes × Bool) × In scan ss
      × (y ≡ opened_at disk scan)
      × (equal_ℤ y.since (pos 0) ≡ false)

  later :
      (scan : Bytes × Bool) (ss : List (Bytes × Bool)) (y : Logfile Object)
      → FoundBy ss y
      → FoundBy (scan ∷ ss) y
  later scan ss y (s, i, e, t) = (s, there i, e, t)

  scan_all-In :
      (y : Logfile Object) (ss : List (Bytes × Bool)) (files : List (Logfile Object))
      → In y (scan_all disk ss files)
      → FoundBy ss y ⊎ In y files
  unfolding scan_all scan_logfile
  scan_all-In y [] files i = inr i
  scan_all-In y (scan ∷ ss) files i = elim (scan_all-In y ss (scan_logfile disk scan files) i) [
    | inl f ↦ inl (later scan ss y f)
    | inr j ↦ elim (add_logfile-In (opened_at disk scan) y files j) [
      | inl (e, t) ↦
          inl (
            scan,
            here,
            e,
            subst (λ (z : Logfile Object). equal_ℤ z.since (pos 0) ≡ false) (sym e) t,
          )
      | inr k ↦ inr k
    ]
  ]

  -- a file of the same time is in the index
  abbrev pub HasTime : ℤ → List (Logfile Object) → Type 0
  HasTime t files = (y : Logfile Object) × In y files × (equal_ℤ y.since t ≡ true)

  scan_all_complete :
      (scan : Bytes × Bool) (ss : List (Bytes × Bool)) (files : List (Logfile Object))
      → In scan ss
      → equal_ℤ (opened_at {Object = Object} disk scan).since (pos 0) ≡ false
      → HasTime (opened_at {Object = Object} disk scan).since (scan_all disk ss files)
  unfolding scan_all scan_logfile
  scan_all_complete scan (scan' ∷ ss) files here t =
      let (y, i, same, _) = added (opened_at disk scan) files t in
      (y, In-scan_all y ss (scan_logfile disk scan files) i, same)
  scan_all_complete scan (scan' ∷ ss) files (there j) t =
      scan_all_complete scan ss (scan_logfile disk scan' files) j t
  scan_all_complete scan [] files j t = elim j [ ]

  -- the index after the core has rotated its logs
  pub record Indexed (folder : Folder) (files : List (Logfile Object)) : Type 0 where
    pub rising : Rising files
    pub found : (y : Logfile Object) → In y files → FoundBy (scans folder) y
    pub complete :
        (scan : Bytes × Bool)
        → In scan (scans folder)
        → equal_ℤ (opened_at {Object = Object} disk scan).since (pos 0) ≡ false
        → HasTime (opened_at {Object = Object} disk scan).since files
    pub watched :
        equal_ℤ (opened_at {Object = Object} disk (folder.log_file, true)).since (pos 0) ≡ false
        → In (opened_at disk (folder.log_file, true)) files
    pub unread : (y : Logfile Object) → In y files → y.entries ≡ []

  first_watched :
      (log : Logfile Object) → equal_ℤ log.since (pos 0) ≡ false → In log (add_logfile log [])
  unfolding add_logfile has_since insert_logfile
  first_watched log t = rw t here

  all_unread :
      (files : List (Logfile Object))
      → ((y : Logfile Object) → In y files → y.entries ≡ [])
      → total files ≡ 0
  all_unread [] h = refl
  all_unread (log ∷ logs) h =
      let none_here = ap length (h log here) in
      let none_later = all_unread logs (λ y i. h y (there i)) in
      omega (arith, none_here, none_later)

  new_unread : (y : Logfile Object) (scan : Bytes × Bool) → y ≡ opened_at disk scan → y.entries ≡ []
  unfolding new
  new_unread y scan e = ap (λ (z : Logfile Object). z.entries) e

  scanned-Indexed : (folder : Folder) → Indexed folder (scan_all disk (scans folder) [])
  unfolding scan_all scan_logfile
  scanned-Indexed folder =
      let found : (y : Logfile Object)
          → In y (scan_all disk (scans folder) [])
          → FoundBy (scans folder) y =
        λ y i. elim (scan_all-In y (scans folder) [] i) [ inl f ↦ f | inr j ↦ elim j [ ] ] in
      let (rest, first) = first_scan folder in
      record {
        rising = scan_all-Rising (scans folder) [] tt;
        found = found;
        complete = λ scan i t. scan_all_complete scan (scans folder) [] i t;
        watched = λ t.
            subst
              (λ ss.
                In (opened_at {Object = Object} disk (folder.log_file, true)) (scan_all disk ss []))
              (sym first)
              (In-scan_all (opened_at disk (folder.log_file, true)) rest
                (add_logfile (opened_at disk (folder.log_file, true)) [])
                (first_watched (opened_at disk (folder.log_file, true)) t));
        unread = λ y i. let (scan, _, e, _) = found y i in new_unread y scan e;
      }

  -- When there is a log file and the core has rotated its logs since the index was made,
  -- logCachePreChecks succeeds and makes the index anew: the files are in the order of the time of
  -- their first line, no two of one time, each is one that was found and has no message in memory,
  -- every found file with a time stamp has one of its time in the index, the current log file stands
  -- there itself, and the number of cached messages is right.
  pub pre_checks-Indexed :
      (folder : Folder) (rotation now : ℤ) (index : Index Object)
      → (length index.files == 0) ≡ false
      → ltb_ℤ index.last_update rotation ≡ true
      → let (ok, index') = pre_checks disk folder rotation now index in
        (ok ≡ true)
        × Indexed folder index'.files
        × (index'.counts.num_cached ≡ pos (total index'.files))
        × (index'.last_update ≡ now)
  unfolding pre_checks update_index forget_logfiles
  pre_checks-Indexed folder rotation now index some_file rotated =
      let indexed = scanned-Indexed folder in
      rw (some_file, rotated)
        (
          refl,
          indexed,
          ap pos (sym (all_unread (scan_all disk (scans folder) []) indexed.unread)),
          refl,
        )
