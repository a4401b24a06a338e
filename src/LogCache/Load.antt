-- ===== src/LogCache/Load.antt =====
-- `load` and `loadRange` of src/Logfile.cc, which work in the cache, and `processLogLine`.
use naemon_livestatus.Prelude.{
  ℕ, ◌+◌, ◌-◌, Bool, true, false, List, [], ◌∷◌, Option, none, some, ◌>>=◌, length, drop, leb, ◌==◌,
  if◌then◌else◌, or32, and_not32,
}
use naemon_livestatus.Text.{Bytes}
use naemon_livestatus.LogEntry.{LogEntry, Objects}
use naemon_livestatus.LogEntry.Parse.{parse}
use naemon_livestatus.Logfile.{Logfile, File, store_entry}
use naemon_livestatus.LogCache.{Focus, handle_new_message}

-- what the module reads of its surroundings: the objects of the core, `g_max_lines_per_logfile` and
-- `g_should_terminate`
pub record Settings (Object : Type 0) : Type 0 where
  pub objects : Objects Object
  pub max_lines : ℕ
  pub should_terminate : Bool

module _ {Object : Type 0} (s : Settings Object) where
  abbrev pub with_current : Focus Object → Logfile Object → Focus Object
  with_current f log = record f { current = log }

  -- one line of `loadRange` that was parsed; the query wants `logclasses`, and `types` are read
  unfoldable pub load_entry : ℕ → ℕ → LogEntry Object → Focus Object → Focus Object
  load_entry types logclasses e f =
      let lineno = f.current.lineno + 1 in
      let (log, stored) = store_entry lineno types e (record f.current { lineno = lineno }) in
      if stored then handle_new_message logclasses (with_current f log) else with_current f log

  -- `loadRange`: the cache afterwards, and the lines behind the position where it stopped; `none` where
  -- a line lets the parser read a null pointer
  unfoldable pub load_range : ℕ → ℕ → List Bytes → Focus Object → Option (Focus Object × List Bytes)
  load_range types logclasses [] f = some (f, [])
  load_range types logclasses (line ∷ lines) f =
      if leb s.max_lines f.current.lineno then some (f, lines) else do
        e ← parse s.objects (f.current.lineno + 1) line
        let f' = load_entry types logclasses e f
        if s.should_terminate then some (f', lines) else load_range types logclasses lines f'

  abbrev pub add_classes : ℕ → Logfile Object → Logfile Object
  add_classes types log = record log { logclasses_read = or32 log.logclasses_read types }

  -- where the file at the end of the watched log is left
  abbrev pub left_at : File → List Bytes → Logfile Object → Logfile Object
  left_at file rest log =
      if log.watch then record log { read_pos = length file - length rest } else log

  -- all lines from the first one, for classes that were not read before
  unfoldable pub load_missing : ℕ → ℕ → File → Focus Object → Option (Focus Object)
  load_missing types logclasses file f = do
    (f', rest) ← load_range types logclasses file (with_current f (record f.current { lineno = 0 }))
    some (with_current f' (left_at file rest (add_classes types f'.current)))

  -- the lines behind the last position, for the classes that were read before
  unfoldable pub load_grown : ℕ → File → Focus Object → Option (Focus Object)
  load_grown logclasses file f =
      let position = if f.current.lineno == 0 then 0 else f.current.read_pos in
      let classes = f.current.logclasses_read in
      if classes == 0 then some (with_current f (record f.current { read_pos = position })) else (do
        (f', rest) ← load_range classes logclasses (drop position file) f
        some (with_current f' (left_at file rest f'.current)))

  -- with the classes that are missing at first
  unfoldable pub load_rest : ℕ → ℕ → File → Focus Object → Option (Focus Object)
  load_rest missing logclasses lines f =
      if missing == 0 then some f else load_missing missing logclasses lines f

  -- an opened file, which may be watched
  unfoldable pub load_file : Bool → ℕ → File → Focus Object → Option (Focus Object)
  load_file true logclasses lines f = do
    f' ← load_grown logclasses lines f
    load_rest (and_not32 logclasses f.current.logclasses_read) logclasses lines f'
  load_file false logclasses lines f =
      load_rest (and_not32 logclasses f.current.logclasses_read) logclasses lines f

  -- `load`, where the file is `none` if it cannot be opened
  unfoldable pub load : ℕ → Option File → Focus Object → Option (Focus Object)
  load logclasses none f = some f
  load logclasses (some lines) f = load_file f.current.watch logclasses lines f
