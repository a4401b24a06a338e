-- ===== src/LogCache.antt =====
-- src/LogCache.h and src/LogCache.cc: the log files in memory. While a query reads a file, the cache is
-- open at that file: the older ones, the file itself and the newer ones, each in the order of time.
pub mod Load
pub mod Count
pub mod Bound
pub mod Shrink
pub mod Keep
pub mod Messages
pub mod Range
pub mod Complete
pub mod Coherent
pub mod Once
pub mod Grown
pub mod Readable
pub mod Index
pub mod Sinces
pub mod Indexed
use naemon_livestatus.Prelude.{
  ℕ, zero, suc, ◌+◌, ◌-◌, ◌%◌, ◌^◌, Bool, true, false, not, ◌||◌, and32, List, [], ◌∷◌, ◌++◌,
  Option, none, some, length, ltb, leb, ◌==◌, if◌then◌else◌, all_ones, and_not32, ℤ, pos, negsuc,
  ◌+ℤ◌, ◌-ℤ◌,
}
use naemon_livestatus.Logfile.{Logfile, num_entries, flush, free_messages}

-- `CHECK_MEM_CYCLE`
abbrev pub check_mem_cycle : ℕ
check_mem_cycle = 10000

-- an int where an unsigned long is wanted
unfoldable pub as_ulong : ℤ → ℕ
as_ulong (pos n) = n
as_ulong (negsuc n) = 2 ^ 64 - 1 - n

-- `num_cached_log_messages` is a global, the others are members
pub record Counts : Type 0 where
  pub num_cached : ℤ
  pub max_cached : ℕ
  pub num_at_last_check : ℕ

-- the cache, open at the file that a query reads
pub record Focus (Object : Type 0) : Type 0 where
  pub counts : Counts
  pub older : List (Logfile Object)
  pub current : Logfile Object
  pub newer : List (Logfile Object)

abbrev pub fits : Counts → ℤ → Bool
fits c num = leb (as_ulong num) c.max_cached

-- what a loop over files leaves: the files, the number of messages, and whether there is room again
pub record Freed (Object : Type 0) : Type 0 where
  pub files : List (Logfile Object)
  pub num : ℤ
  pub enough : Bool

-- the number of messages at this check is remembered
abbrev pub checked : Counts → ℤ → Counts
checked c num = record c { num_cached = num; num_at_last_check = as_ulong num }

pub record FreedFile (Object : Type 0) : Type 0 where
  pub file : Logfile Object
  pub num : ℤ
  pub enough : Bool

module _ {Object : Type 0} where
  -- a file is kept in front of what the rest of the loop leaves
  abbrev pub behind : Logfile Object → Freed Object → Freed Object
  behind log f = record f { files = log ∷ f.files }

  -- [1] and [3]: whole files are flushed, the oldest first
  unfoldable pub flush_files : Counts → ℤ → List (Logfile Object) → Freed Object
  flush_files c num [] = record { files = []; num = num; enough = false }
  flush_files c num (log ∷ logs) =
      let num' = num -ℤ pos (num_entries log) in
      let more = flush_files c num' logs in
      let skipped = flush_files c num logs in
      if num_entries log == 0
      then behind log skipped
      else if fits c num'
      then record { files = flush log ∷ logs; num = num'; enough = true }
      else behind (flush log) more

  -- [2] for one file: messages of classes that the query does not need
  unfoldable pub drop_file : Counts → ℕ → ℤ → Logfile Object → FreedFile Object
  drop_file c unneeded num log =
      let (freed, log') = free_messages unneeded log in
      let num' = num -ℤ pos freed in
      if num_entries log == 0 || and32 log.logclasses_read unneeded == 0
      then record { file = log; num = num; enough = false }
      else record { file = log'; num = num'; enough = fits c num' }

  -- [2] for the files behind the current one
  unfoldable pub drop_classes : Counts → ℕ → ℤ → List (Logfile Object) → Freed Object
  drop_classes c unneeded num [] = record { files = []; num = num; enough = false }
  drop_classes c unneeded num (log ∷ logs) =
      let first = drop_file c unneeded num log in
      let more = drop_classes c unneeded first.num logs in
      if first.enough
      then record { files = first.file ∷ logs; num = first.num; enough = true }
      else behind first.file more

  -- the three loops of `handleNewMessage`; the second one starts at the current file
  unfoldable pub free_memory : ℕ → Focus Object → Focus Object
  free_memory logclasses f =
      let c = f.counts in
      let unneeded = and_not32 all_ones logclasses in
      let first = flush_files c c.num_cached f.older in
      let here = drop_file c unneeded first.num f.current in
      let second = drop_classes c unneeded here.num f.newer in
      let third = flush_files c second.num second.files in
      if first.enough
      then record f { counts = checked c first.num; older = first.files }
      else if here.enough
      then record f { counts = checked c here.num; older = first.files; current = here.file }
      else if second.enough
      then record {
        counts = checked c second.num;
        older = first.files;
        current = here.file;
        newer = second.files;
      }
      else record {
        counts = checked c third.num;
        older = first.files;
        current = here.file;
        newer = third.files;
      }

  unfoldable pub handle_new_message : ℕ → Focus Object → Focus Object
  handle_new_message logclasses f =
      let num = f.counts.num_cached +ℤ pos 1 in
      let counted : Focus Object = record f { counts = record f.counts { num_cached = num } } in
      if fits f.counts num
      then counted
      else if ltb (as_ulong num) ((f.counts.num_at_last_check + check_mem_cycle) % 2 ^ 64)
      then counted
      else free_memory logclasses counted
