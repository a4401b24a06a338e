-- ===== src/LogCache/Count.antt =====
-- `num_cached_log_messages` of src/LogCache.cc counts the messages in memory.
use naemon_livestatus.Prelude.{
  ℕ, ◌+◌, ◌≤◌, ◌^◌, ◌%◌, ◌≡◌, inl, inr, refl, ap, ◌∙◌, Bool, not, ◌||◌, List, [], ◌∷◌, length, ltb,
  ◌==◌, Bool-cases, arith, ℤ, pos, ◌+ℤ◌, ◌-ℤ◌, and32, and_not32, all_ones,
}
use naemon_livestatus.LogEntry.{LogEntry}
use naemon_livestatus.Logfile.{Logfile, num_entries, flush, free_messages, keep, in_classes}
use naemon_livestatus.LogCache.{
  Counts, Focus, Freed, fits, as_ulong, check_mem_cycle, flush_files, drop_file, drop_classes,
  free_memory, handle_new_message, behind,
}

sub_pos : (a b c : ℕ) → a ≡ b + c → pos a -ℤ pos b ≡ pos c
unfolding ◌-ℤ◌
sub_pos a b c h = ground arith

module _ {Object : Type 0} where
  -- the messages of some files
  abbrev pub total : List (Logfile Object) → ℕ
  total [] = 0
  total (log ∷ logs) = num_entries log + total logs

  -- the messages of the whole cache
  abbrev pub in_memory : Focus Object → ℕ
  in_memory f = total f.older + (num_entries f.current + total f.newer)

  -- what a loop leaves is counted, beside `n` messages of other files
  abbrev IsCounted : ℕ → Freed Object → Type 0
  IsCounted n f = f.num ≡ pos (n + total f.files)

  behind-IsCounted :
      (n : ℕ) (log : Logfile Object) (f : Freed Object)
      → IsCounted (n + num_entries log) f
      → IsCounted n (behind log f)
  behind-IsCounted n log f h = h ∙ ap pos (omega arith)

  num_entries-flush : (log : Logfile Object) → num_entries (flush log) ≡ 0
  unfolding flush
  num_entries-flush log = refl

  flush_files-IsCounted :
      (c : Counts) (n : ℕ) (num : ℤ) (logs : List (Logfile Object))
      → num ≡ pos (n + total logs)
      → IsCounted n (flush_files c num logs)
  unfolding flush_files
  flush_files-IsCounted c n num [] h = h
  flush_files-IsCounted c n num (log ∷ logs) h =
      let freed : num -ℤ pos (num_entries log) ≡ pos (n + total logs) =
        ap (λ z. z -ℤ pos (num_entries log)) h ∙ sub_pos _ _ _ (omega arith) in
      let more = flush_files-IsCounted c n (num -ℤ pos (num_entries log)) logs freed in
      let skipped =
        flush_files-IsCounted c (n + num_entries log) num logs (h ∙ ap pos (omega arith)) in
      elim (Bool-cases (num_entries log == 0)) [
        | inl z ↦ rw z (behind-IsCounted n log (flush_files c num logs) skipped)
        | inr z ↦ elim (Bool-cases (fits c (num -ℤ pos (num_entries log)))) [
          | inl e ↦ rw (z, e) (freed ∙ ap pos (omega (arith, num_entries-flush log)))
          | inr e ↦ rw (z, e) (more ∙ ap pos (omega (arith, num_entries-flush log)))
        ]
      ]

  length-keep :
      (p : LogEntry Object → Bool) (es : List (ℕ × LogEntry Object))
      → length (keep p es) ≤ length es
  unfolding keep
  length-keep p [] = omega arith
  length-keep p (e ∷ es) = grind (arith, length-keep p es)

  num_entries-free_messages :
      (mask : ℕ) (log : Logfile Object)
      → (free_messages mask log).0 + num_entries (free_messages mask log).1 ≡ num_entries log
  unfolding free_messages
  num_entries-free_messages mask log =
      omega (arith, length-keep (λ e. not (in_classes mask e)) log.entries)

  drop_file-counted :
      (c : Counts) (unneeded n : ℕ) (num : ℤ) (log : Logfile Object)
      → num ≡ pos (n + num_entries log)
      → (drop_file c unneeded num log).num
        ≡ pos (n + num_entries (drop_file c unneeded num log).file)
  unfolding drop_file
  drop_file-counted c unneeded n num log h =
      let (gone, log') = free_messages unneeded log in
      let sum : gone + num_entries log' ≡ num_entries log =
        num_entries-free_messages unneeded log in
      let freed : num -ℤ pos gone ≡ pos (n + num_entries log') =
        ap (λ z. z -ℤ pos gone) h ∙ sub_pos _ _ _ (omega (arith, sum)) in
      elim (Bool-cases (num_entries log == 0 || and32 log.logclasses_read unneeded == 0)) [
        | inl z ↦ rw z h
        | inr z ↦ rw z freed
      ]

  drop_classes-IsCounted :
      (c : Counts) (unneeded n : ℕ) (num : ℤ) (logs : List (Logfile Object))
      → num ≡ pos (n + total logs)
      → IsCounted n (drop_classes c unneeded num logs)
  unfolding drop_classes
  drop_classes-IsCounted c unneeded n num [] h = h
  drop_classes-IsCounted c unneeded n num (log ∷ logs) h =
      let first = drop_file c unneeded num log in
      let counted : first.num ≡ pos (n + total logs + num_entries first.file) =
        drop_file-counted c unneeded (n + total logs) num log (h ∙ ap pos (omega arith)) in
      let more =
        drop_classes-IsCounted c unneeded (n + num_entries first.file) first.num logs
          (counted ∙ ap pos (omega arith)) in
      elim (Bool-cases first.enough) [
        | inl e ↦ rw e (counted ∙ ap pos (omega arith))
        | inr e ↦ rw e (more ∙ ap pos (omega arith))
      ]

  -- the count is the number of messages
  abbrev pub CountsAll : Focus Object → Type 0
  CountsAll f = f.counts.num_cached ≡ pos (in_memory f)

  free_memory-CountsAll :
      (logclasses : ℕ) (f : Focus Object) → CountsAll f → CountsAll (free_memory logclasses f)
  unfolding free_memory
  free_memory-CountsAll logclasses f h =
      let c = f.counts in
      let unneeded = and_not32 all_ones logclasses in
      let first = flush_files c c.num_cached f.older in
      let here = drop_file c unneeded first.num f.current in
      let second = drop_classes c unneeded here.num f.newer in
      let third = flush_files c second.num second.files in
      let counted =
        flush_files-IsCounted c (num_entries f.current + total f.newer) c.num_cached f.older
          (h ∙ ap pos (omega arith)) in
      let counted_here =
        drop_file-counted c unneeded (total first.files + total f.newer) first.num f.current
          (counted ∙ ap pos (omega arith)) in
      let others = total first.files + num_entries here.file in
      let counted_second =
        drop_classes-IsCounted c unneeded others here.num f.newer
          (counted_here ∙ ap pos (omega arith)) in
      let counted_third = flush_files-IsCounted c others second.num second.files counted_second in
      elim (Bool-cases first.enough) [
        | inl e ↦ rw e (counted ∙ ap pos (omega arith))
        | inr e ↦ elim (Bool-cases here.enough) [
          | inl k ↦ rw (e, k) (counted_here ∙ ap pos (omega arith))
          | inr k ↦ elim (Bool-cases second.enough) [
            | inl l ↦ rw (e, k, l) (counted_second ∙ ap pos (omega arith))
            | inr l ↦ rw (e, k, l) (counted_third ∙ ap pos (omega arith))
          ]
        ]
      ]

  -- The count of cached messages stays the number of messages in memory: when a message has just
  -- been stored that is not counted yet, the count is right again after handleNewMessage has counted
  -- it and freed what it frees.
  pub handle_new_message-CountsAll :
      (logclasses : ℕ) (f : Focus Object)
      → f.counts.num_cached +ℤ pos 1 ≡ pos (in_memory f)
      → CountsAll (handle_new_message logclasses f)
  unfolding handle_new_message
  handle_new_message-CountsAll logclasses f h =
      let num = f.counts.num_cached +ℤ pos 1 in
      let counted : Focus Object = record f { counts = record f.counts { num_cached = num } } in
      let freed = free_memory-CountsAll logclasses counted h in
      elim (Bool-cases (fits f.counts num)) [
        | inl e ↦ rw e h
        | inr e ↦
            elim (Bool-cases
              (ltb (as_ulong num) ((f.counts.num_at_last_check + check_mem_cycle) % 2 ^ 64))) [
                | inl k ↦ rw (e, k) h
                | inr k ↦ rw (e, k) freed
              ]
      ]
