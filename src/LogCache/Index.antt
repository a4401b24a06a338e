-- ===== src/LogCache/Index.antt =====
-- The index of the log files: `logCachePreChecks`, `forgetLogfiles`, `updateLogfileIndex` and `scanLogfile` of
-- src/LogCache.cc.
use naemon_livestatus.Prelude.{
  Bool, true, false, ◌||◌, List, [], ◌∷◌, ◌++◌, Option, none, some, take, length, get_or, ◌==◌,
  if◌then◌else◌, ℤ, pos, ltb_ℤ,
}
use naemon_livestatus.Text.{Bytes}
use naemon_livestatus.Filter.{equal_ℤ}
use naemon_livestatus.Logfile.{Logfile, File, new}
use naemon_livestatus.LogCache.{Counts}

-- the log files in the order of the time of their first line, and the time when they were looked for
pub record Index (Object : Type 0) : Type 0 where
  pub counts : Counts
  pub files : List (Logfile Object)
  pub last_update : ℤ

-- the paths of the log file and of the archive, and what stands in the archive, if that can be opened
pub record Folder : Type 0 where
  pub log_file : Bytes
  pub archive_path : Bytes
  pub archive : Option (List Bytes)

-- `while ((ent = readdir(dir)) && ent != NULL)`
unfoldable pub archive_scans : Bytes → List Bytes → List (Bytes × Bool)
archive_scans path [] = []
archive_scans path (name ∷ names) =
    let rest = archive_scans path names in
    if get_or name 0 0 == b'.' then rest else (take 4095 (path ++ b'/' ∷ name), false) ∷ rest

unfoldable pub scans : Folder → List (Bytes × Bool)
scans folder = elim folder.archive [
  | none ↦ (folder.log_file, true) ∷ []
  | some names ↦ (folder.log_file, true) ∷ archive_scans folder.archive_path names
]

module _ {Object : Type 0} where
  -- `_logfiles.find(since) != _logfiles.end()`
  unfoldable pub has_since : ℤ → List (Logfile Object) → Bool
  has_since t [] = false
  has_since t (log ∷ logs) = equal_ℤ log.since t || has_since t logs

  -- `_logfiles.insert`
  unfoldable pub insert_logfile : Logfile Object → List (Logfile Object) → List (Logfile Object)
  insert_logfile log [] = log ∷ []
  insert_logfile log (x ∷ xs) =
      if ltb_ℤ log.since x.since then log ∷ x ∷ xs else x ∷ insert_logfile log xs

  -- a file without a time stamp, or of the time of another one, is left out
  unfoldable pub add_logfile : Logfile Object → List (Logfile Object) → List (Logfile Object)
  add_logfile log files =
      if equal_ℤ log.since (pos 0) || has_since log.since files
      then files
      else insert_logfile log files

  -- `forgetLogfiles`
  unfoldable pub forget_logfiles : Index Object → Index Object
  forget_logfiles index = record index {
    files = [];
    counts = record index.counts { num_cached = pos 0 };
  }

  module _ (disk : Bytes → Option File) where
    -- a path, and whether the file is watched
    abbrev pub opened_at : Bytes × Bool → Logfile Object
    opened_at scan = new scan.0 scan.1 (disk scan.0)

    -- `scanLogfile`
    unfoldable pub scan_logfile : Bytes × Bool → List (Logfile Object) → List (Logfile Object)
    scan_logfile scan files = add_logfile (opened_at scan) files

    unfoldable pub scan_all : List (Bytes × Bool) → List (Logfile Object) → List (Logfile Object)
    scan_all [] files = files
    scan_all (scan ∷ scans) files = scan_all scans (scan_logfile scan files)

    -- `updateLogfileIndex`
    unfoldable pub update_index : Folder → ℤ → Index Object → Index Object
    update_index folder now index = record index {
      files = scan_all (scans folder) index.files;
      last_update = now;
    }

    -- `logCachePreChecks`
    unfoldable pub pre_checks : Folder → ℤ → ℤ → Index Object → Bool × Index Object
    pre_checks folder rotation now index =
        if length index.files == 0
        then (false, index)
        else if ltb_ℤ index.last_update rotation
        then (true, update_index folder now (forget_logfiles index))
        else (true, index)
