-- ===== src/Output.antt =====
-- src/OutputBuffer.cc and .h: the buffer that collects a response, and how it is sent. The bytes from
-- `_buffer` to `_writepos` are a list; `_end` is `_buffer + _max_size`. The sizes are taken to
-- stay below the range of `size_t`.
pub mod ResponseCode
pub mod Capacity
pub mod Header
pub mod Sending
use naemon_livestatus.Prelude.{
  ℕ, zero, suc, ◌+◌, ◌-◌, ◌*◌, ◌/◌, Bool, true, false, ◌&&◌, not, List, [], ◌∷◌, ◌++◌, ltb, ◌==◌,
  if◌then◌else◌, length, take, drop, replicate,
}
use naemon_livestatus.Text.{Bytes, decimal}

-- `RESPONSE_HEADER_HTTP` is not implemented in the source either
pub data ResponseHeader : Type 0 where
  off fixed16 : ResponseHeader

pub record OutputBuffer : Type 0 where
  pub buffer : Bytes
  pub max_size : ℕ
  pub response_header : ResponseHeader
  pub response_code : ℕ
  pub do_keepalive : Bool
  pub error_message : Bytes

unfoldable pub reset : OutputBuffer → OutputBuffer
reset o = record o {
  buffer = [];
  response_header = off;
  response_code = ResponseCode.ok;
  do_keepalive = false;
  error_message = [];
}

-- the constructor, with `INITIAL_OUTPUT_BUFFER_SIZE`
abbrev pub new : OutputBuffer
new = record {
  buffer = [];
  max_size = 1024;
  response_header = off;
  response_code = ResponseCode.ok;
  do_keepalive = false;
  error_message = [];
}

-- the loop of `needSpace`
unfoldable pub grow : ℕ → ℕ → ℕ → ℕ
grow zero max_size needed = max_size
grow (suc fuel) max_size needed =
    let larger =
      grow fuel (if ltb max_size (500 * 1024 * 1024) then max_size * 2 else max_size + max_size / 4)
        needed in
    if ltb max_size needed then larger else max_size

unfoldable pub need_space : OutputBuffer → ℕ → OutputBuffer
unfolding grow
need_space o len =
    let needed = length o.buffer + len in
    if ltb o.max_size needed then record o { max_size = grow needed o.max_size needed } else o

-- the test in front of each write
unfoldable pub reserve : OutputBuffer → ℕ → OutputBuffer
unfolding need_space
reserve o len = if ltb o.max_size (length o.buffer + len) then need_space o len else o

unfoldable pub add_buffer : OutputBuffer → Bytes → OutputBuffer
unfolding reserve
add_buffer o bytes = let o' = reserve o (length bytes) in record o' { buffer = o'.buffer ++ bytes }

unfoldable pub add_char : OutputBuffer → ℕ → OutputBuffer
unfolding reserve
add_char o c = let o' = reserve o 1 in record o' { buffer = o'.buffer ++ c ∷ [] }

abbrev pub is_empty : Bytes → Bool
is_empty [] = true
is_empty (c ∷ s) = false

abbrev pub has_error : OutputBuffer → Bool
has_error o = not (is_empty o.error_message)

-- `vsnprintf` leaves at most 8190 bytes of the message; only the first error is kept
unfoldable pub set_error : OutputBuffer → ℕ → Bytes → OutputBuffer
set_error o code message =
    if is_empty o.error_message
    then record o { error_message = take 8190 message ++ b'\n' ∷ []; response_code = code }
    else o

-- `%0*d` and `%*zu`: a number, filled up from the left
abbrev pub padded : ℕ → ℕ → Bytes → Bytes
padded fill width s = replicate (width - length s) fill ++ s

-- `snprintf(header, 17, "%03d %11zu\n", ...)`, of which 16 bytes are sent
unfoldable pub fixed16_header : ℕ → ℕ → Bytes
fixed16_header code size =
    take 16 (padded b'0' 3 (decimal code) ++ (b' ' ∷ (padded b' ' 11 (decimal size) ++ b'\n' ∷ [])))

-- `flush`: what each call of `writeData` is given, and the buffer afterwards
unfoldable pub flush : OutputBuffer → List Bytes × OutputBuffer
unfolding fixed16_header reset
flush o =
    let body = if o.response_code == ResponseCode.ok then o.buffer else o.error_message in
    let writes : List Bytes = elim o.response_header [
      | fixed16 ↦ fixed16_header o.response_code (length body) ∷ body ∷ []
      | off ↦ body ∷ []
    ] in
    (writes, reset o)

-- what happens in a round of the loop of `writeData`
pub data WriteEvent : Type 0 where
  terminate not_ready failed : WriteEvent
  wrote : ℕ → WriteEvent

-- `writeData`: the bytes that reach the socket, and what is left to write when the loop ends. The
-- pointer `write_from` is the same in each round.
unfoldable pub write_data : List WriteEvent → Bytes → ℕ → Bytes × ℕ
write_data events write_from zero = ([], 0)
write_data [] write_from (suc n) = ([], suc n)
write_data (terminate ∷ events) write_from (suc n) = ([], suc n)
write_data (failed ∷ events) write_from (suc n) = ([], suc n)
write_data (not_ready ∷ events) write_from (suc n) = write_data events write_from (suc n)
write_data (wrote w ∷ events) write_from (suc n) =
    let (sent, left) = write_data events write_from (suc n - w) in (take w write_from ++ sent, left)
