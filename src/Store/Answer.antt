-- ===== src/Store/Answer.antt =====
-- `answerRequest` and `answerGetRequest` of src/Store.cc.
use naemon_livestatus.Prelude.{
  Bool, true, false, not, List, Option, none, some, ◌>>=◌, if◌then◌else◌,
}
use mathlib.Core.Option
use naemon_livestatus.Text.{Bytes, codes}
use naemon_livestatus.Output.{OutputBuffer, reset, set_error, has_error}
use naemon_livestatus.Output.ResponseCode
use naemon_livestatus.Input.{InputBuffer, Outcome, request_read, ReadEvent, read_request, next_line}
use naemon_livestatus.Query
use naemon_livestatus.Query.{Query, Table, Core}
use naemon_livestatus.Query.Parse.{parse_lines}
use naemon_livestatus.LogCache.Index.{Index, pre_checks}
use naemon_livestatus.Store.{
  Store, StoreTable, Surroundings, Served, lock, unlock, find_table, has_no_columns, Method,
  method_of, reading_error, told, named, answer_command_request, get, command, logrotate, invalid,
}

module _ {Object Row : Type 0} (core : Core) (tables : List (Bytes × StoreTable Object Row)) where
  -- all columns of the table, for a query that names none
  unfoldable pub with_columns : StoreTable Object Row → Query Row → Query Row
  with_columns t q =
      if has_no_columns q then record (t.add_all_columns q) { show_column_headers = true } else q

  unfoldable pub finish_unless_error :
      StoreTable Object Row → Index Object → Query Row → Index Object × Query Row
  finish_unless_error t index q = if has_error q.output then (index, q) else t.finish index q

  -- `if (table && !output->hasError())`
  unfoldable pub ask_table :
      StoreTable Object Row → Store Object → Query Row → Store Object × OutputBuffer
  ask_table t store q =
      let (index1, q1) = t.start store.log_cache (with_columns t q) in
      let (index2, q2) = t.answer_query index1 q1 in
      let (index3, q3) = finish_unless_error t index2 q2 in
      let (index4, q4) = t.cleanup_query index3 q3 in
      if has_error q.output
      then (store, q.output)
      else (record store { log_cache = index4 }, q4.output)

  -- with the lock of the log cache
  unfoldable pub ask_log :
      Surroundings → StoreTable Object Row → Store Object → Query Row → Store Object × OutputBuffer
  ask_log w t store q =
      let (_, index) = pre_checks w.disk w.folder w.rotation w.now store.log_cache in
      let (store', output) = ask_table t (record store { log_cache = index }) q in
      if not w.alive
      then (
        unlock store,
        set_error q.output ResponseCode.incomplete_request (codes "Client already disconnected"),
      )
      else if w.terminating
      then (
        unlock store,
        set_error q.output ResponseCode.limit_exceeded
            (codes "Query canceled, core is shutting down."),
      )
      else (unlock store', output)

  -- `table->hasLogcache()`
  unfoldable pub ask_with :
      Bool
      → Surroundings
      → StoreTable Object Row
      → Store Object
      → Query Row
      → Option (Store Object × OutputBuffer)
  ask_with true w t store q = do locked ← lock store; some (ask_log w t locked q)
  ask_with false w t store q = some (ask_table t store q)

  unfoldable pub ask :
      Surroundings
      → Option (StoreTable Object Row)
      → Store Object
      → Query Row
      → Option (Store Object × OutputBuffer)
  ask w none store q = some (store, q.output)
  ask w (some t) store q = ask_with t.has_logcache w t store q

  unfoldable pub answer_get_request :
      Surroundings → Store Object → InputBuffer → OutputBuffer → Bytes → Option (Served Object)
  answer_get_request w store input output name = do
    let table = find_table name tables
    let start = Query.new (named (reset output) name table) (Option.map (λ t. t.table) table)
    (q, rest) ← parse_lines core start input.request_lines
    (store', output') ← ask w table store q
    some (told store' (record input { request_lines = rest }) output')

  unfoldable pub answer_method :
      Surroundings → Store Object → InputBuffer → OutputBuffer → Method → Option (Served Object)
  answer_method w store input output (get name) = answer_get_request w store input output name
  answer_method w store input output (command text) = do
    (o, sent) ← answer_command_request w output text
    some (record (told store input (record o { do_keepalive = true })) { commands = sent })
  answer_method w store input output logrotate =
      some (record (told store input output) { rotated = true })
  answer_method w store input output invalid = some (
      told store input
        (set_error output ResponseCode.invalid_request (codes "Invalid request method")))

  -- the outcome of `readRequest`: with whether the connection is kept
  unfoldable pub answer_outcome :
      Surroundings
      → Store Object
      → InputBuffer
      → OutputBuffer
      → Outcome
      → Option (Bool × Served Object)
  answer_outcome w store input output request_read = do
    (line, input') ← next_line input
    r ← answer_method w store input' output (method_of line)
    some (r.output.do_keepalive, r)
  answer_outcome w store input output outcome =
      some (false, told store input (reading_error outcome output))

  -- `answerRequest`
  unfoldable pub answer_request :
      Surroundings
      → Store Object
      → InputBuffer
      → OutputBuffer
      → List ReadEvent
      → Bytes
      → Option (Bool × Served Object)
  answer_request w store input output events socket = do
    (outcome, input', socket') ← read_request input events socket
    answer_outcome w store input' (reset output) outcome
