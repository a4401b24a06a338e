-- ===== src/LogCache/Once.antt =====
-- `load` of src/Logfile.cc: a file that is not watched is read once for the classes that are wanted.
use naemon_livestatus.Prelude.{
  ℕ, ◌<◌, ◌^◌, ◌&&◌, not, true, false, Option, none, some, ◌≡◌, refl, ◌∙◌, Bool-cases, test_bit,
  and_not32, bitwise_none, inl, inr,
}
use naemon_livestatus.Logfile.{Logfile, File}
use naemon_livestatus.LogCache.{Focus}
use naemon_livestatus.LogCache.Load.{Settings, load, load_file, load_rest}
use naemon_livestatus.LogCache.Coherent.{Coherent, HasRead, Loaded, load-Loaded}

-- classes that have all been read are not missing
missing_none :
    {Object : Type 0} (logclasses : ℕ) (log : Logfile Object)
    → HasRead logclasses log
    → and_not32 logclasses log.logclasses_read ≡ 0
missing_none logclasses log read =
    bitwise_none (λ x y. x && not y) 32 logclasses log.logclasses_read
      (λ k l. elim (Bool-cases (test_bit logclasses k)) [
        | inl b ↦ rw (b, read k l b) refl
        | inr b ↦ rw b refl
      ])

module _ {Object : Type 0} (s : Settings Object) where
  load-HasRead :
      (logclasses : ℕ) (file : Option File) (f : Focus Object)
      → f.current.watch ≡ false
      → HasRead logclasses f.current
      → load s logclasses file f ≡ some f
  unfolding load load_file load_rest
  load-HasRead logclasses none f still read = refl
  load-HasRead logclasses (some file) f still read =
      rw (still, missing_none logclasses f.current read) refl

  -- A log file that is not watched is read once for the classes that a query wants: when fewer than
  -- 2 ^ 32 lines are read of a file and the core is not about to stop, a load that ends leaves
  -- entries that agree with the lines of the file, as far as the maximum of lines goes; all messages
  -- of the classes that the query wants are there, and the other files have lost no message of a
  -- class that still counts as read; and a load directly behind it, for these classes or some of
  -- them, leaves everything as it is, whatever the file has become.
  pub load_once :
      (logclasses wanted : ℕ) (file : File) (later : Option File) (f g : Focus Object)
      → s.max_lines < 2 ^ 32
      → s.should_terminate ≡ false
      → f.current.watch ≡ false
      → Coherent s file f.current
      → load s logclasses (some file) f ≡ some g
      → ((k : ℕ) → k < 32 → test_bit wanted k ≡ true → test_bit logclasses k ≡ true)
      → Loaded s logclasses file f g × (load s wanted later g ≡ some g)
  load_once logclasses wanted file later f g short runs still c h fewer =
      let loaded = load-Loaded s short runs logclasses file f g still c h in
      (
        loaded,
        load-HasRead wanted later g (loaded.watch ∙ still)
            (λ k l b. loaded.has_read k l (fewer k l b)),
      )
