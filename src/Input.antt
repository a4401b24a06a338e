-- ===== src/Input.antt =====
-- src/InputBuffer.cc and .h: the lines of a request are read from a socket into a buffer of fixed size.
-- The pointers into it are counts of bytes from its start. The clock, `select` and `read` are a list of events.
pub mod Lines
pub mod Request
pub mod TooLong
use naemon_livestatus.Prelude.{
  ℕ, zero, suc, ◌+◌, ◌-◌, min, Bool, true, false, ◌||◌, List, [], ◌∷◌, ◌++◌, Option, none, some,
  ltb, ◌==◌, if◌then◌else◌, length, take, drop,
}
use naemon_livestatus.Text.{Bytes, rstrip}

-- `IB_BUFFER_SIZE`
abbrev pub buffer_size : ℕ
buffer_size = 65536

-- `IB_...`, as `readRequest` returns it
pub data Outcome : Type 0 where
  request_read unexpected_end_of_file should_terminate line_too_long end_of_file empty_request
        timeout :
      Outcome

-- what `readData` meets: bytes, `suc n` of which are there; the query's timeout, and whether the idle
-- timeout has run out too; the end of the connection; the termination flag
pub data ReadEvent : Type 0 where
  data_read : ℕ → ReadEvent
  timed_out : Bool → ReadEvent
  closed terminating : ReadEvent

-- `read_offset` is the place of the read pointer, `unread` the bytes from there to the write pointer
pub record InputBuffer : Type 0 where
  pub read_offset : ℕ
  pub unread : Bytes
  pub request_lines : List Bytes

unfoldable pub set_fd : InputBuffer → InputBuffer
set_fd b = record { read_offset = 0; unread = []; request_lines = [] }

-- `moreLines`
unfoldable pub more_lines : InputBuffer → Bool
more_lines b = elim b.request_lines [ [] ↦ false | _ ∷ _ ↦ true ]

-- `nextLine`; there is none in an empty queue
unfoldable pub next_line : InputBuffer → Option (Bytes × InputBuffer)
next_line b = elim b.request_lines [
  | [] ↦ none
  | line ∷ lines ↦ some (line, record b { request_lines = lines })
]

-- `storeRequestLine`: a line of spaces only is left out
unfoldable pub store_request_line : List Bytes → Bytes → List Bytes
store_request_line lines line = elim (rstrip line) [ [] ↦ lines | c ∷ cs ↦ lines ++ (c ∷ cs) ∷ [] ]

-- What `readRequest` knows at `r`: the read pointer's place, the bytes from there to `r`, the lines stored,
-- and `query_started`
pub record Scan : Type 0 where
  pub offset : ℕ
  pub line : Bytes
  pub lines : List Bytes
  pub started : Bool

-- the end of a request that has read that many lines
abbrev pub finished : List Bytes → Outcome
finished [] = empty_request
finished (_ ∷ _) = request_read

pub data Scanned : Type 0 where
  returned : Outcome → InputBuffer → Scanned
  waiting : Scan → Scanned

-- the loop over the bytes from `r` to the write pointer
unfoldable pub scan_lines : Scan → Bytes → Scanned
scan_lines s [] = waiting s
scan_lines s (c ∷ rest) =
    let more = scan_lines (record s { line = s.line ++ c ∷ [] }) rest in
    let next =
      scan_lines
        (record {
          offset = s.offset + length s.line + 1;
          line = [];
          lines = store_request_line s.lines s.line;
          started = true;
        })
        rest in
    let ended =
      returned (finished s.lines)
        (record { read_offset = s.offset + 1; unread = rest; request_lines = s.lines }) in
    if c == b'\n' then (elim s.line [ [] ↦ ended | _ ∷ _ ↦ next ]) else more

-- the buffer with nothing between `r` and the write pointer
abbrev pub rested : Scan → InputBuffer
rested s = record { read_offset = s.offset; unread = s.line; request_lines = s.lines }

-- room for more bytes: there is some, or the bytes are shifted to the left, or the line is too long
unfoldable pub make_room : Scan → Option Scan
make_room s =
    if ltb (s.offset + length s.line) buffer_size
    then some s
    else if s.offset == 0
    then none
    else some (record s { offset = 0 })

-- the connection was closed
abbrev pub at_end : Scan → Outcome
at_end s = elim s.line [
  | [] ↦ (elim s.lines [ [] ↦ end_of_file | _ ∷ _ ↦ request_read ])
  | _ ∷ _ ↦ unexpected_end_of_file
]

-- the bytes that `read` takes from those that the client has sent
abbrev pub read_count : Scan → ℕ → ℕ
read_count s n = min (suc n) (buffer_size - (s.offset + length s.line))

-- the loop from the point where the write pointer is reached; `socket` is what the client has sent and was
-- not read. The result is absent while the events have not led to one.
unfoldable pub await : List ReadEvent → Bytes → Scan → Option (Outcome × InputBuffer × Bytes)
await [] socket s = elim (make_room s) [
  | none ↦ some (line_too_long, rested s, socket)
  | some _ ↦ none
]
await (event ∷ events) socket s = elim (make_room s) [
  | none ↦ some (line_too_long, rested s, socket)
  | some s' ↦ elim event [
    | data_read n ↦ elim (scan_lines s' (take (read_count s' n) socket)) [
      | returned outcome b ↦ some (outcome, b, drop (read_count s' n) socket)
      | waiting s'' ↦ await events (drop (read_count s' n) socket) s''
    ]
    | timed_out idle ↦
        let rest = await events socket s' in
        if s'.started || idle then some (timeout, rested s', socket) else rest
    | closed ↦ some (at_end s', rested s', socket)
    | terminating ↦ some (should_terminate, rested s', socket)
  ]
]

-- `readRequest`
unfoldable pub read_request :
    InputBuffer → List ReadEvent → Bytes → Option (Outcome × InputBuffer × Bytes)
read_request b events socket =
    let start : Scan = record {
      offset = b.read_offset;
      line = [];
      lines = b.request_lines;
      started = false;
    } in
    elim (scan_lines start b.unread) [
      | returned outcome b' ↦ some (outcome, b', socket)
      | waiting s ↦ await events socket s
    ]
