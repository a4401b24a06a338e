-- ===== src/LogCache/Keep.antt =====
-- What `handleNewMessage` of src/LogCache.cc keeps for the query that reads a file.
use naemon_livestatus.Prelude.{
  ℕ, ◌+◌, ◌%◌, ◌^◌, inl, inr, List, [], ◌∷◌, ltb, ◌==◌, Bool-cases, ℤ, pos, ◌+ℤ◌, ◌-ℤ◌, and_not32,
  all_ones, Pointwise, unrelated, related,
}
use naemon_livestatus.Logfile.{Logfile, num_entries}
use naemon_livestatus.LogCache.{
  Counts, Focus, fits, as_ulong, check_mem_cycle, flush_files, drop_file, drop_classes, free_memory,
  handle_new_message,
}
use naemon_livestatus.LogCache.Shrink.{
  Shrinks, Spares, Shrinks-refl, Shrinks-trans, Spares-refl, flush-Shrinks, drop_file-Spares,
}

module _ {Object : Type 0} where
  -- what happens to a list of files
  abbrev pub AllShrink : List (Logfile Object) → List (Logfile Object) → Type 0
  AllShrink = Pointwise Shrinks

  pub AllShrink-refl : (logs : List (Logfile Object)) → AllShrink logs logs
  AllShrink-refl [] = unrelated
  AllShrink-refl (log ∷ logs) = related (Shrinks-refl log) (AllShrink-refl logs)

  pub AllShrink-trans :
      {xs ys zs : List (Logfile Object)} → AllShrink xs ys → AllShrink ys zs → AllShrink xs zs
  AllShrink-trans unrelated unrelated = unrelated
  AllShrink-trans (related {x = a} {y = b} p ps) (related {y = c} q qs) =
      related (Shrinks-trans a b c p q) (AllShrink-trans ps qs)

  flush_files-AllShrink :
      (c : Counts) (num : ℤ) (logs : List (Logfile Object))
      → AllShrink logs (flush_files c num logs).files
  unfolding flush_files
  flush_files-AllShrink c num [] = unrelated
  flush_files-AllShrink c num (log ∷ logs) =
      let num' = num -ℤ pos (num_entries log) in
      let more = flush_files-AllShrink c num' logs in
      let skipped = flush_files-AllShrink c num logs in
      elim (Bool-cases (num_entries log == 0)) [
        | inl z ↦ rw z (related (Shrinks-refl log) skipped)
        | inr z ↦ elim (Bool-cases (fits c num')) [
          | inl e ↦ rw (z, e) (related (flush-Shrinks log) (AllShrink-refl logs))
          | inr e ↦ rw (z, e) (related (flush-Shrinks log) more)
        ]
      ]

  drop_classes-AllShrink :
      (c : Counts) (mask : ℕ) (num : ℤ) (logs : List (Logfile Object))
      → AllShrink logs (drop_classes c (and_not32 all_ones mask) num logs).files
  unfolding drop_classes
  drop_classes-AllShrink c mask num [] = unrelated
  drop_classes-AllShrink c mask num (log ∷ logs) =
      let first = drop_file c (and_not32 all_ones mask) num log in
      let shrunk = (drop_file-Spares c mask num log).shrinks in
      let more = drop_classes-AllShrink c mask first.num logs in
      elim (Bool-cases first.enough) [
        | inl e ↦ rw e (related shrunk (AllShrink-refl logs))
        | inr e ↦ rw e (related shrunk more)
      ]

-- The other files may lose messages, the current one none that the query wants.
pub record Keeps {Object : Type 0} (logclasses : ℕ) (f g : Focus Object) : Type 0 where
  pub older : AllShrink f.older g.older
  pub current : Spares logclasses f.current g.current
  pub newer : AllShrink f.newer g.newer

module _ {Object : Type 0} where
  free_memory-Keeps : (mask : ℕ) (f : Focus Object) → Keeps mask f (free_memory mask f)
  unfolding free_memory
  free_memory-Keeps mask f =
      let c = f.counts in
      let first = flush_files c c.num_cached f.older in
      let here = drop_file c (and_not32 all_ones mask) first.num f.current in
      let second = drop_classes c (and_not32 all_ones mask) here.num f.newer in
      let older = flush_files-AllShrink c c.num_cached f.older in
      let current = drop_file-Spares c mask first.num f.current in
      let newer = drop_classes-AllShrink c mask here.num f.newer in
      let third = flush_files-AllShrink c second.num second.files in
      elim (Bool-cases first.enough) [
        | inl e ↦ rw e (record {
          older = older;
          current = Spares-refl mask f.current;
          newer = AllShrink-refl f.newer;
        })
        | inr e ↦ elim (Bool-cases here.enough) [
          | inl k ↦
              rw (e, k)
                (record { older = older; current = current; newer = AllShrink-refl f.newer })
          | inr k ↦ elim (Bool-cases second.enough) [
            | inl l ↦ rw (e, k, l) (record { older = older; current = current; newer = newer })
            | inr l ↦
                rw (e, k, l)
                  (record { older = older; current = current; newer = AllShrink-trans newer third })
          ]
        ]
      ]

  -- handleNewMessage never takes what the query needs: no message of a class that the query wants,
  -- of a number below 32, goes from the file that it reads, such a class still counts as read there,
  -- and every file keeps all its messages of the classes that still count as read.
  pub handle_new_message-Keeps :
      (logclasses : ℕ) (f : Focus Object) → Keeps logclasses f (handle_new_message logclasses f)
  unfolding handle_new_message
  handle_new_message-Keeps mask f =
      let num = f.counts.num_cached +ℤ pos 1 in
      let limit = (f.counts.num_at_last_check + check_mem_cycle) % 2 ^ 64 in
      let counted : Focus Object = record f { counts = record f.counts { num_cached = num } } in
      let same : Keeps mask f counted = record {
        older = AllShrink-refl f.older;
        current = Spares-refl mask f.current;
        newer = AllShrink-refl f.newer;
      } in
      let freed = free_memory-Keeps mask counted in
      elim (Bool-cases (fits f.counts num)) [
        | inl e ↦ rw e same
        | inr e ↦ elim (Bool-cases (ltb (as_ulong num) limit)) [
          | inl k ↦ rw (e, k) same
          | inr k ↦
              rw (e, k)
                (record { older = freed.older; current = freed.current; newer = freed.newer })
        ]
      ]
