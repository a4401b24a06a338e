-- ===== src/Logfile.antt =====
-- src/Logfile.h and src/Logfile.cc: one log file and its messages in memory. A file is the list of the
-- lines that `fgets` reads from it, and a position in it is a number of lines.
pub mod Ending
pub mod Entries
use naemon_livestatus.Prelude.{
  ℕ, zero, suc, ◌+◌, ◌-◌, ◌*◌, ◌%◌, ◌^◌, Bool, true, false, not, ◌||◌, List, [], ◌∷◌, ◌++◌, Option,
  none, some, length, take, drop, get_or, ltb, ◌==◌, if◌then◌else◌, ℤ, pos, negsuc, and_not32,
  test_bit,
}
use naemon_livestatus.Text.{Bytes, atoi}
use naemon_livestatus.LogEntry.{LogEntry, class_invalid}

abbrev pub File : Type 0
File = List Bytes

-- the bytes of a file
unfoldable pub content : File → Bytes
content [] = []
content (line ∷ lines) = line ++ content lines

-- `logfile_entries_t`, in the order of the keys
abbrev pub Entries : Type 0 → Type 0
Entries Object = List (ℕ × LogEntry Object)

pub record Logfile (Object : Type 0) : Type 0 where
  pub path : Bytes
  pub since : ℤ
  pub watch : Bool
  pub read_pos : ℕ
  pub lineno : ℕ
  pub entries : Entries Object
  pub logclasses_read : ℕ

-- what the constructor reads: the time stamp of the first line, or 0
unfoldable pub read_since : Option File → ℤ
read_since none = pos 0
read_since (some file) =
    let line = take 12 (content file) in
    if ltb (length line) 12 || not (get_or line 0 0 == b'[') || not (get_or line 11 0 == b']')
    then pos 0
    else atoi (take 10 (drop 1 line))

-- the low 32 bits of a `time_t`
unfoldable pub low32 : ℤ → ℕ
low32 (pos n) = n % 2 ^ 32
low32 (negsuc n) = 2 ^ 32 - 1 - n % 2 ^ 32

-- `makeKey`: the shifted time has no bit in common with the line number
unfoldable pub make_key : ℤ → ℕ → ℕ
make_key t lineno = low32 t * 2 ^ 32 + lineno % 2 ^ 32

module _ {ℓ} {A : Type ℓ} where
  -- `_entries.find(key) != _entries.end()`
  unfoldable pub has_key : ℕ → List (ℕ × A) → Bool
  has_key key [] = false
  has_key key (entry ∷ entries) = entry.0 == key || has_key key entries

  -- an insertion into a map, behind the smaller keys
  unfoldable pub insert : ℕ → A → List (ℕ × A) → List (ℕ × A)
  insert key a [] = (key, a) ∷ []
  insert key a (entry ∷ entries) =
      if ltb key entry.0 then (key, a) ∷ entry ∷ entries else entry ∷ insert key a entries

  -- the entries that a test keeps
  unfoldable pub keep : (A → Bool) → List (ℕ × A) → List (ℕ × A)
  keep p [] = []
  keep p (entry ∷ entries) = let rest = keep p entries in if p entry.1 then entry ∷ rest else rest

module _ {Object : Type 0} where
  unfoldable pub new : Bytes → Bool → Option File → Logfile Object
  new path watch file = record {
    path = path;
    since = read_since file;
    watch = watch;
    read_pos = 0;
    lineno = 0;
    entries = [];
    logclasses_read = 0;
  }

  abbrev pub num_entries : Logfile Object → ℕ
  num_entries log = length log.entries

  unfoldable pub flush : Logfile Object → Logfile Object
  flush log = record log { entries = []; logclasses_read = 0 }

  -- `(1 << entry->_logclass) & logclasses`; the classes that are stored are below 32
  abbrev pub in_classes : ℕ → LogEntry Object → Bool
  in_classes logclasses e = test_bit logclasses e.logclass

  -- `freeMessages`: how many messages were freed, and the file without them
  unfoldable pub free_messages : ℕ → Logfile Object → ℕ × Logfile Object
  free_messages logclasses log =
      let kept = keep (λ e. not (in_classes logclasses e)) log.entries in
      (
        length log.entries - length kept,
        record log { entries = kept; logclasses_read = and_not32 log.logclasses_read logclasses },
      )

  -- `processLogLine`, with the entry that the line gives: whether it was stored
  unfoldable pub store_entry : ℕ → ℕ → LogEntry Object → Logfile Object → Logfile Object × Bool
  store_entry lineno logclasses e log =
      let key = make_key e.time lineno in
      if e.logclass == class_invalid
      then (log, false)
      else if not (in_classes logclasses e)
      then (log, false)
      else if has_key key log.entries
      then (log, false)
      else (record log { entries = insert key e log.entries }, true)
