-- ===== src/LogCache/Bound.antt =====
-- When `handleNewMessage` of src/LogCache.cc gives up.
use naemon_livestatus.Prelude.{
  ℕ, ◌+◌, ◌%◌, ◌^◌, ◌<◌, ltb→lt, ◌≡◌, ◌⊎◌, inl, inr, refl, true, false, ◌||◌, List, [], ◌∷◌, ltb,
  ◌==◌, Bool-cases, arith, ℤ, pos, ◌+ℤ◌, ◌-ℤ◌, and32, and_not32, all_ones, sym,
}
use mathlib.Core.Bool.{true≢false}
use naemon_livestatus.Logfile.{Logfile, num_entries, flush}
use naemon_livestatus.LogCache.{
  Counts, Focus, Freed, fits, as_ulong, check_mem_cycle, flush_files, drop_file, drop_classes,
  free_memory, handle_new_message,
}
use naemon_livestatus.LogCache.Count.{total}

module _ {Object : Type 0} where
  num_entries-flush : (log : Logfile Object) → num_entries (flush log) ≡ 0
  unfolding flush
  num_entries-flush log = refl

  -- a loop that flushes files either makes room or leaves no message
  abbrev Flushed : Counts → Freed Object → Type 0
  Flushed c f = (f.enough ≡ true → fits c f.num ≡ true) × (f.enough ≡ false → total f.files ≡ 0)

  flush_files-Flushed :
      (c : Counts) (num : ℤ) (logs : List (Logfile Object)) → Flushed c (flush_files c num logs)
  unfolding flush_files
  flush_files-Flushed c num [] = (λ e. cc, λ e. refl)
  flush_files-Flushed c num (log ∷ logs) =
      let num' = num -ℤ pos (num_entries log) in
      let more = flush_files-Flushed c num' logs in
      let skipped = flush_files-Flushed c num logs in
      elim (Bool-cases (num_entries log == 0)) [
        | inl z ↦ rw z (skipped.0, λ e. ground (arith, skipped.1 e))
        | inr z ↦ elim (Bool-cases (fits c num')) [
          | inl e ↦ rw (z, e) (λ k. e, λ k. absurd (true≢false k))
          | inr e ↦ rw (z, e) (more.0, λ k. omega (arith, more.1 k, num_entries-flush log))
        ]
      ]

  drop_file-fits :
      (c : Counts) (unneeded : ℕ) (num : ℤ) (log : Logfile Object)
      → (drop_file c unneeded num log).enough ≡ true
      → fits c (drop_file c unneeded num log).num ≡ true
  unfolding drop_file
  drop_file-fits c unneeded num log =
      elim (Bool-cases (num_entries log == 0 || and32 log.logclasses_read unneeded == 0)) [
        | inl z ↦ rw z (λ e. absurd (true≢false (sym e)))
        | inr z ↦ rw z (λ e. e)
      ]

  drop_classes-fits :
      (c : Counts) (unneeded : ℕ) (num : ℤ) (logs : List (Logfile Object))
      → (drop_classes c unneeded num logs).enough ≡ true
      → fits c (drop_classes c unneeded num logs).num ≡ true
  unfolding drop_classes
  drop_classes-fits c unneeded num [] = λ e. cc
  drop_classes-fits c unneeded num (log ∷ logs) =
      let first = drop_file c unneeded num log in
      let more = drop_classes-fits c unneeded first.num logs in
      elim (Bool-cases first.enough) [
        | inl e ↦ rw e (λ _. drop_file-fits c unneeded num log e)
        | inr e ↦ rw e more
      ]

  -- nothing is left that could be freed: the messages of the other files
  abbrev pub OnlyCurrent : Focus Object → Type 0
  OnlyCurrent f = (total f.older ≡ 0) × (total f.newer ≡ 0)

  emptied :
      (c : Counts) (older : List (Logfile Object)) (f : Freed Object)
      → total older ≡ 0
      → Flushed c f
      → (fits c f.num ≡ true) ⊎ ((total older ≡ 0) × (total f.files ≡ 0))
  emptied c older f h room = elim (Bool-cases f.enough) [
    | inl e ↦ inl (room.0 e)
    | inr e ↦ inr (h, room.1 e)
  ]

  free_memory-bound :
      (logclasses : ℕ) (f : Focus Object)
      → let g = free_memory logclasses f in
        (fits g.counts g.counts.num_cached ≡ true) ⊎ OnlyCurrent g
  unfolding free_memory
  free_memory-bound logclasses f =
      let c = f.counts in
      let unneeded = and_not32 all_ones logclasses in
      let first = flush_files c c.num_cached f.older in
      let here = drop_file c unneeded first.num f.current in
      let second = drop_classes c unneeded here.num f.newer in
      let third = flush_files c second.num second.files in
      let room = flush_files-Flushed c c.num_cached f.older in
      elim (Bool-cases first.enough) [
        | inl e ↦ rw e (inl (room.0 e))
        | inr e ↦ elim (Bool-cases here.enough) [
          | inl k ↦ rw (e, k) (inl (drop_file-fits c unneeded first.num f.current k))
          | inr k ↦ elim (Bool-cases second.enough) [
            | inl l ↦ rw (e, k, l) (inl (drop_classes-fits c unneeded here.num f.newer l))
            | inr l ↦
                rw (e, k, l)
                  (emptied c first.files third (room.1 e)
                    (flush_files-Flushed c second.num second.files))
          ]
        ]
      ]

  -- After handleNewMessage the count is within the limit, or the check was put off because fewer
  -- than 10000 messages came since the last one, or no other file than the one that the query reads
  -- has any message in memory.
  pub handle_new_message-bound :
      (logclasses : ℕ) (f : Focus Object)
      → let num = f.counts.num_cached +ℤ pos 1 in
        let g = handle_new_message logclasses f in
        (fits g.counts g.counts.num_cached ≡ true)
        ⊎ (as_ulong num < (f.counts.num_at_last_check + check_mem_cycle) % 2 ^ 64)
        ⊎ OnlyCurrent g
  unfolding handle_new_message
  handle_new_message-bound logclasses f =
      let num = f.counts.num_cached +ℤ pos 1 in
      let limit = (f.counts.num_at_last_check + check_mem_cycle) % 2 ^ 64 in
      let counted : Focus Object = record f { counts = record f.counts { num_cached = num } } in
      elim (Bool-cases (fits f.counts num)) [
        | inl e ↦ rw e (inl e)
        | inr e ↦ elim (Bool-cases (ltb (as_ulong num) limit)) [
          | inl k ↦ rw (e, k) (inr (inl (ltb→lt _ _ k)))
          | inr k ↦
              rw (e, k)
                (elim (free_memory-bound logclasses counted) [
                  | inl room ↦ inl room
                  | inr only ↦ inr (inr only)
                ])
        ]
      ]
