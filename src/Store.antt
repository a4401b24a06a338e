-- ===== src/Store.antt =====
-- src/Store.cc and .h: a request is read, told by its first line and answered. What a table and a query do
-- with the log cache while a table is asked are functions of the table.
pub mod Answer
pub mod Locking
pub mod Refusing
use naemon_livestatus.Prelude.{
  ℕ, ◌+◌, Bool, true, false, not, ◌||◌, ◌&&◌, List, [], ◌∷◌, ◌++◌, map, Option, none, some, ◌>>=◌,
  take, length, drop, ◌==◌, if◌then◌else◌, ℤ, pos,
}
use mathlib.Core.Option
use naemon_livestatus.Text.{
  Bytes, codes, str_equal, strip_prefix, lstrip, rstrip, unescape_newlines, atoi,
}
use naemon_livestatus.Output.{OutputBuffer, reset, set_error, has_error, is_empty}
use naemon_livestatus.Output.ResponseCode
use naemon_livestatus.Filter.{equal_ℤ}
use naemon_livestatus.Input.{
  InputBuffer, Outcome, request_read, end_of_file, empty_request, ReadEvent, read_request,
  next_line,
}
use naemon_livestatus.Query
use naemon_livestatus.Query.{Query, Table, Core}
use naemon_livestatus.Query.Parse.{parse_lines}
use naemon_livestatus.Logfile.{File}
use naemon_livestatus.Logfile.Ending.{read_over}
use naemon_livestatus.LogCache.Index.{Index, Folder, pre_checks}

-- the log cache with its lock
pub record Store (Object : Type 0) : Type 0 where
  pub log_cache : Index Object
  pub locked : Bool

-- a table with the steps that a query takes through it: `start`, `answerQuery`, `finish`, `cleanupQuery`
pub record StoreTable (Object Row : Type 0) : Type 0 where
  pub table : Table Row
  pub has_logcache : Bool
  pub add_all_columns : Query Row → Query Row
  pub start : Index Object → Query Row → Index Object × Query Row
  pub answer_query : Index Object → Query Row → Index Object × Query Row
  pub finish : Index Object → Query Row → Index Object × Query Row
  pub cleanup_query : Index Object → Query Row → Index Object × Query Row

-- What a request meets: the client may be gone and the core about to stop when the lock is there; the time
-- of the last rotation of the logs and of the clock; the bytes that the query handler sends, one list for
-- each `read`, or no connection to it; and what the stack holds.
pub record Surroundings : Type 0 where
  pub alive : Bool
  pub terminating : Bool
  pub rotation : ℤ
  pub now : ℤ
  pub folder : Folder
  pub disk : Bytes → Option File
  pub replies : Option (List Bytes)
  pub stack : Bytes

-- what is left after a request, the commands that were sent to the core, and whether its logs are rotated
pub record Served (Object : Type 0) : Type 0 where
  pub store : Store Object
  pub output : OutputBuffer
  pub input : InputBuffer
  pub commands : List Bytes
  pub rotated : Bool

-- `pthread_mutex_lock`: a thread that has the lock waits for ever
unfoldable pub lock : {Object : Type 0} → Store Object → Option (Store Object)
lock store = if store.locked then none else some (record store { locked = true })

unfoldable pub unlock : {Object : Type 0} → Store Object → Store Object
unlock store = record store { locked = false }

-- the text in front of the first byte 0; without one, C reads on
unfoldable pub c_text : Bytes → Option Bytes
c_text [] = none
c_text (c ∷ s) = let rest = c_text s in if c == 0 then some [] else rest >>= (λ t. some (c ∷ t))

-- `while (read(sd, buf, 4095) > 0)`
unfoldable pub read_replies : List Bytes → Bytes → OutputBuffer → Option OutputBuffer
read_replies [] buffer output = some output
read_replies (reply ∷ replies) buffer output = do
  let buffer' = read_over 4095 reply buffer
  text ← c_text buffer'
  if equal_ℤ (atoi text) (pos 200)
      then read_replies replies buffer' output
      else read_replies replies buffer'
          (set_error output ResponseCode.invalid_request (rstrip text))

-- `findTable`
unfoldable pub find_table :
    {Object Row : Type 0}
    → Bytes
    → List (Bytes × StoreTable Object Row)
    → Option (StoreTable Object Row)
find_table name [] = none
find_table name ((key, table) ∷ tables) =
    let rest = find_table name tables in if str_equal key name then some table else rest

-- `hasNoColumns`
abbrev pub has_no_columns : {Row : Type 0} → Query Row → Bool
has_no_columns q = length q.columns == 0 && length q.stats_columns == 0

-- what the first line of a request asks for
pub data Method : Type 0 where
  get command : Bytes → Method
  logrotate invalid : Method

unfoldable pub method_of : Bytes → Method
method_of line = elim (strip_prefix (codes "GET ") line) [
  | some rest ↦ get (lstrip rest)
  | none ↦
      if str_equal line (codes "GET") then get [] else elim (strip_prefix (codes "COMMAND ") line) [
        | some rest ↦ command (unescape_newlines (lstrip rest))
        | none ↦ elim (strip_prefix (codes "LOGROTATE") line) [
          | none ↦ invalid
          | some rest ↦ logrotate
        ]
      ]
]

-- the error of a request that was not read, if it has one
unfoldable pub reading_error : Outcome → OutputBuffer → OutputBuffer
reading_error end_of_file o = o
reading_error empty_request o = o
reading_error _ o =
    set_error o ResponseCode.incomplete_request
      (codes "Client connection terminated while request still incomplete")

-- nothing but the output is changed
abbrev pub told : {Object : Type 0} → Store Object → InputBuffer → OutputBuffer → Served Object
told store input output = record {
  store = store;
  output = output;
  input = input;
  commands = [];
  rotated = false;
}

-- the errors of the first line, before the headers are read
unfoldable pub named :
    {Object Row : Type 0} → OutputBuffer → Bytes → Option (StoreTable Object Row) → OutputBuffer
named output name table =
    let output' =
      if is_empty name
      then set_error output ResponseCode.invalid_request
          (codes "Invalid GET request, missing tablename")
      else output in
    elim table [
      | none ↦
          set_error output' ResponseCode.not_found
            (codes "Invalid GET request, no such table '" ++ name ++ codes "'")
      | some t ↦ output'
    ]

-- what is left of the output, and the commands that were sent
unfoldable pub answer_command_request :
    Surroundings → OutputBuffer → Bytes → Option (OutputBuffer × List Bytes)
answer_command_request w output text = elim w.replies [
  | none ↦ some (output, [])
  | some replies ↦
      read_replies replies w.stack (reset output)
      >>= (λ o. some (o, (codes "#command run " ++ text) ∷ []))
]
