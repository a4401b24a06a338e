-- ===== src/LogCache/Shrink.antt =====
-- What `handleNewMessage` of src/LogCache.cc takes from the files in memory.
use mathlib.Core.Bool.{true≢false}
use naemon_livestatus.Prelude.{
  ℕ, ◌<◌, ◌≡◌, ◌∙◌, inl, inr, refl, true, not, ◌||◌, ◌&&◌, ◌==◌, Bool-cases, ℤ, and32, and_not32,
  all_ones, sym, ap, In, test_bit, test_bit-bitwise, test_bit-all_ones, and_both, test_bit-zero,
}
use naemon_livestatus.LogEntry.{LogEntry}
use naemon_livestatus.Logfile.{Logfile, num_entries, flush, free_messages}
use naemon_livestatus.Logfile.Entries.{keep-In, In-keep, keep-Ascending, Ascending}
use naemon_livestatus.LogCache.{Counts, drop_file}

-- what is read of the file stays; messages may go, but not those of a class that counts as read
pub record Shrinks {Object : Type 0} (log log' : Logfile Object) : Type 0 where
  pub path : log'.path ≡ log.path
  pub since : log'.since ≡ log.since
  pub lineno : log'.lineno ≡ log.lineno
  pub watch : log'.watch ≡ log.watch
  pub read_pos : log'.read_pos ≡ log.read_pos
  pub ascending : Ascending log.entries → Ascending log'.entries
  pub fewer : (x : ℕ × LogEntry Object) → In x log'.entries → In x log.entries
  pub read_before :
      (k : ℕ)
      → k < 32
      → test_bit log'.logclasses_read k ≡ true
      → test_bit log.logclasses_read k ≡ true
  pub complete :
      (x : ℕ × LogEntry Object)
      → x.1.logclass < 32
      → In x log.entries
      → test_bit log'.logclasses_read x.1.logclass ≡ true
      → In x log'.entries

-- and nothing of the classes that the query wants goes
pub record Spares {Object : Type 0} (logclasses : ℕ) (log log' : Logfile Object) : Type 0 where
  pub shrinks : Shrinks log log'
  pub spared :
      (x : ℕ × LogEntry Object)
      → x.1.logclass < 32
      → In x log.entries
      → test_bit logclasses x.1.logclass ≡ true
      → In x log'.entries
  pub still_read :
      (k : ℕ)
      → k < 32
      → test_bit logclasses k ≡ true
      → test_bit log.logclasses_read k ≡ true
      → test_bit log'.logclasses_read k ≡ true

-- `~logclasses` has the bits that `logclasses` has not
unneeded_lem : (mask k : ℕ) → k < 32 → test_bit (and_not32 all_ones mask) k ≡ not (test_bit mask k)
unneeded_lem mask k h =
    test_bit-bitwise _ 32 all_ones mask k h
    ∙ ap (λ b. b && not (test_bit mask k)) (test_bit-all_ones k h)

module _ {Object : Type 0} where
  pub Shrinks-refl : (log : Logfile Object) → Shrinks log log
  Shrinks-refl log = record {
    ascending = λ h. h;
    path = refl;
    since = refl;
    lineno = refl;
    watch = refl;
    read_pos = refl;
    fewer = λ x i. i;
    read_before = λ k h b. b;
    complete = λ x h i b. i;
  }

  pub Shrinks-trans : (a b c : Logfile Object) → Shrinks a b → Shrinks b c → Shrinks a c
  Shrinks-trans a b c p q = record {
    ascending = λ h. q.ascending (p.ascending h);
    path = q.path ∙ p.path;
    since = q.since ∙ p.since;
    lineno = q.lineno ∙ p.lineno;
    watch = q.watch ∙ p.watch;
    read_pos = q.read_pos ∙ p.read_pos;
    fewer = λ x i. p.fewer x (q.fewer x i);
    read_before = λ k h r. p.read_before k h (q.read_before k h r);
    complete = λ x h i r. q.complete x h (p.complete x h i (q.read_before _ h r)) r;
  }

  pub Spares-refl : (mask : ℕ) (log : Logfile Object) → Spares mask log log
  Spares-refl mask log = record {
    shrinks = Shrinks-refl log;
    spared = λ x h i b. i;
    still_read = λ k h b r. r;
  }

  pub flush-Shrinks : (log : Logfile Object) → Shrinks log (flush log)
  unfolding flush
  flush-Shrinks log = record {
    ascending = λ h. tt;
    path = refl;
    since = refl;
    lineno = refl;
    watch = refl;
    read_pos = refl;
    fewer = λ x i. elim i [ ];
    read_before = λ k h b. absurd (true≢false (sym b ∙ test_bit-zero k));
    complete = λ x h i b. absurd (true≢false (sym b ∙ test_bit-zero _));
  }

  free_messages-Shrinks : (mask : ℕ) (log : Logfile Object) → Shrinks log (free_messages mask log).1
  unfolding free_messages
  free_messages-Shrinks mask log =
      let bits : (k : ℕ)
          → k < 32
          → test_bit (and_not32 log.logclasses_read mask) k
            ≡ test_bit log.logclasses_read k && not (test_bit mask k) =
        λ k h. test_bit-bitwise _ 32 log.logclasses_read mask k h in
      record {
        path = refl;
        ascending = keep-Ascending _ log.entries;
        since = refl;
        lineno = refl;
        watch = refl;
        read_pos = refl;
        fewer = λ x i. (keep-In _ x log.entries i).0;
        read_before = λ k h b. (and_both _ _ (sym (bits k h) ∙ b)).0;
        complete = λ x h i b. In-keep _ x log.entries i (and_both _ _ (sym (bits _ h) ∙ b)).1;
      }

  free_messages-Spares :
      (mask : ℕ) (log : Logfile Object)
      → Spares mask log (free_messages (and_not32 all_ones mask) log).1
  unfolding free_messages
  free_messages-Spares mask log =
      let unneeded = and_not32 all_ones mask in
      let spared : (k : ℕ) → k < 32 → test_bit mask k ≡ true → not (test_bit unneeded k) ≡ true =
        λ k h b. ap not (unneeded_lem mask k h ∙ ap not b) in
      record {
        shrinks = free_messages-Shrinks unneeded log;
        spared = λ x h i b. In-keep _ x log.entries i (spared _ h b);
        still_read = λ k h b r.
            test_bit-bitwise _ 32 log.logclasses_read unneeded k h
            ∙ ap (λ c. c && not (test_bit unneeded k)) r
            ∙ spared k h b;
      }

  pub drop_file-Spares :
      (c : Counts) (mask : ℕ) (num : ℤ) (log : Logfile Object)
      → Spares mask log (drop_file c (and_not32 all_ones mask) num log).file
  unfolding drop_file
  drop_file-Spares c mask num log =
      let unneeded = and_not32 all_ones mask in
      elim (Bool-cases (num_entries log == 0 || and32 log.logclasses_read unneeded == 0)) [
        | inl z ↦ rw z (Spares-refl mask log)
        | inr z ↦ rw z (free_messages-Spares mask log)
      ]
