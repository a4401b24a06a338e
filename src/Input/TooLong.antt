-- ===== src/Input/TooLong.antt =====
-- `readRequest` on a line that does not fit into the buffer.
use naemon_livestatus.Prelude.{
  ℕ, zero, suc, ◌+◌, ◌≤◌, ◌<◌, ◌≡◌, refl, ap, sym, ◌∙◌, Bool, true, false, inl, inr, Bool-cases,
  List, [], ◌∷◌, ◌++◌, map, append_assoc, append-nil, Option, none, some, ltb, ◌==◌, length,
  length-append, length-take, length-drop, take, drop, arith,
}
use naemon_livestatus.Text.{Bytes}
use naemon_livestatus.Input.{
  buffer_size, Outcome, line_too_long, ReadEvent, data_read, InputBuffer, rested, Scan, waiting,
  scan_lines, make_room, read_count, await, read_request,
}
use naemon_livestatus.Input.Lines.{OneLine, at, scan_other}
use naemon_livestatus.Input.Request.{make_room_lem, await_more, read_request_start}

scan_lines-OneLine :
    (o : ℕ) (p : Bytes) (lines : List Bytes) (st : Bool) (u : Bytes)
    → OneLine u
    → scan_lines (at o p lines st) u ≡ waiting (at o (p ++ u) lines st)
scan_lines-OneLine o p lines st [] h =
    (unfold scan_lines in ap (λ l. waiting (at o l lines st)) (sym (append-nil p)))
scan_lines-OneLine o p lines st (c ∷ u) h =
    scan_other (at o p lines st) c u h.0
    ∙ scan_lines-OneLine o (p ++ c ∷ []) lines st u h.1
    ∙ ap (λ l. waiting (at o l lines st)) (append_assoc p (c ∷ []) u)

OneLine-take : (n : ℕ) (s : Bytes) → OneLine s → OneLine (take n s)
OneLine-take zero s h = tt
OneLine-take (suc n) [] h = tt
OneLine-take (suc n) (c ∷ s) h = (h.0, OneLine-take n s h.1)

OneLine-drop : (n : ℕ) (s : Bytes) → OneLine s → OneLine (drop n s)
OneLine-drop zero s h = h
OneLine-drop (suc n) [] h = tt
OneLine-drop (suc n) (c ∷ s) h = OneLine-drop n s h.1

make_room-full : (s : Scan) → s.offset ≡ 0 → buffer_size ≤ length s.line → make_room s ≡ none
unfolding make_room
make_room-full s e h =
    let full : ltb (s.offset + length s.line) buffer_size ≡ false = ground arith in
    let start : (s.offset == 0) ≡ true = ground arith in rw full (rw start refl)

await_full :
    (events : List ReadEvent) (socket : Bytes) (s : Scan)
    → make_room s ≡ none
    → await events socket s ≡ some (line_too_long, rested s, socket)
unfolding await
await_full [] socket s e = rw (e, await) refl
await_full (event ∷ events) socket s e = rw (e, await) refl

-- the request ends with the error; what was read and what was not is of no interest
Refused : Option (Outcome × InputBuffer × Bytes) → Type 0
Refused result = (b : InputBuffer) × (rest : Bytes) × (result ≡ some (line_too_long, b, rest))

await-Refused :
    (sizes : List ℕ) (s : Scan) (socket : Bytes)
    → s.offset + length s.line ≤ buffer_size
    → OneLine socket
    → buffer_size ≤ length s.line + length socket
    → length socket ≤ length sizes
    → Refused (await (map data_read sizes) socket s)
unfolding Refused
await-Refused [] s socket fits one long h =
    let full = make_room-full s (omega arith) (omega arith) in
    (rested s, socket, await_full [] socket s full)
await-Refused (n ∷ sizes) s socket fits one long h =
    elim (Bool-cases (ltb (length s.line) buffer_size)) [
      | inr e ↦
          let full = make_room-full s (ground arith) (ground arith) in
          (rested s, socket, await_full (map data_read (n ∷ sizes)) socket s full)
      | inl e ↦
          let (o, f, room) = make_room_lem s (ground arith) in
          let k = read_count (at o s.line s.lines s.started) n in
          let next = at o (s.line ++ take k socket) s.lines s.started in
          let size = length-append s.line (take k socket) in
          let taken = length-take k socket in
          let dropped = length-drop k socket in
          let some_left : 0 < length socket = ground arith in
          let (b, rest, g) =
            await-Refused sizes next (drop k socket) (omega arith) (OneLine-drop k socket one)
              (omega arith) (omega arith) in
          let scanned =
            scan_lines-OneLine o s.line s.lines s.started (take k socket)
              (OneLine-take k socket one) in
          (
            b,
            rest,
            await_more n (map data_read sizes) socket s (at o s.line s.lines s.started) next f
                  scanned
                ∙ g,
          )
    ]

-- When the bytes in the buffer, which end within it, and those that the client sends are at least
-- 65536 bytes without a newline, then reads of whatever sizes, at least as many as the bytes sent,
-- end with the error that the line is too long.
pub read_request-line_too_long :
    (b : InputBuffer) (sizes : List ℕ) (socket : Bytes)
    → b.read_offset + length b.unread ≤ buffer_size
    → OneLine b.unread
    → OneLine socket
    → buffer_size ≤ length b.unread + length socket
    → length socket ≤ length sizes
    → (b' : InputBuffer) × (rest : Bytes) × (read_request b (map data_read sizes) socket
        ≡ some (line_too_long, b', rest))
unfolding Refused
read_request-line_too_long b sizes socket fits one more long h =
    let start = at b.read_offset b.unread b.request_lines false in
    let (b', rest, g) = await-Refused sizes start socket fits more long h in
    let scanned = scan_lines-OneLine b.read_offset [] b.request_lines false b.unread one in
    (b', rest, read_request_start b (map data_read sizes) socket ∙ (rw scanned g))
