-- ===== src/Tests/LogIndex.antt =====
-- The index of the log files.
use naemon_livestatus.Prelude.{◌≡◌, refl, true, [], ◌∷◌, Option, none, some, pos}
use naemon_livestatus.Text.{Bytes, codes}
use naemon_livestatus.Logfile.{File, new}
use naemon_livestatus.LogCache.Count.{total}
use naemon_livestatus.LogCache.Index.{Folder, Index, pre_checks}
use naemon_livestatus.LogCache.Indexed.{Indexed, pre_checks-Indexed}

abbrev one_line : Bytes → Option File
one_line path = some (codes "[1260722267] LOG VERSION: 2.0\n" ∷ [])

abbrev archive : Folder
archive = record {
  log_file = codes "log";
  archive_path = codes "archive";
  archive = some (codes "." ∷ codes "old" ∷ []);
}

abbrev known : Index Bytes
known = record {
  counts = record { num_cached = pos 3; max_cached = 10; num_at_last_check = 0 };
  files = new (codes "log") true none ∷ [];
  last_update = pos 0;
}

pre_checks-Indexed_example :
    ((pre_checks one_line archive (pos 1) (pos 2) known).0 ≡ true)
    × Indexed one_line archive (pre_checks one_line archive (pos 1) (pos 2) known).1.files
    × ((pre_checks one_line archive (pos 1) (pos 2) known).1.counts.num_cached
        ≡ pos (total (pre_checks one_line archive (pos 1) (pos 2) known).1.files))
    × ((pre_checks one_line archive (pos 1) (pos 2) known).1.last_update ≡ pos 2)
pre_checks-Indexed_example = pre_checks-Indexed one_line archive (pos 1) (pos 2) known refl refl
