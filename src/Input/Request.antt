-- ===== src/Input/Request.antt =====
-- `readRequest` on a complete request: how the bytes arrive makes no difference.
use naemon_livestatus.Prelude.{
  ℕ, ◌+◌, ◌≤◌, ◌<◌, ◌≡◌, inl, inr, refl, ap, ◌∙◌, false, List, [], ◌∷◌, ◌++◌, map, Option, some,
  ltb, ◌==◌, length, take, drop, take-append-drop, length-drop, arith, Bool-cases, All,
}
use naemon_livestatus.Text.{Bytes}
use naemon_livestatus.Input.{
  buffer_size, Outcome, ReadEvent, data_read, InputBuffer, Scan, finished, returned, waiting,
  scan_lines, make_room, read_count, await, read_request,
}
use naemon_livestatus.Input.Lines.{
  IsLine, request_text, stored, at, Ready, Result, scan_lem, prefix_lem,
}

-- the line read so far is short enough, and something is still to come
short :
    (s : Scan) (v : Bytes) (ls : List Bytes) (extra : Bytes)
    → Ready s v ls extra
    → (length s.line < buffer_size) × (0 < length v)
unfolding request_text
short s v [] extra r =
    let x = prefix_lem s.line [] v extra r.one_line tt r.text in (omega (arith, x.0), x.1)
short s v (l ∷ ls) extra r =
    let x = prefix_lem s.line l v (request_text ls extra) r.one_line r.valid.0.one_line r.text in
    (omega (arith, x.0, r.valid.0.fits), x.1)

pub make_room_lem :
    (s : Scan)
    → length s.line < buffer_size
    → (o : ℕ) × (make_room s ≡ some (at o s.line s.lines s.started))
      × (o + length s.line < buffer_size)
unfolding make_room
make_room_lem s h = elim (Bool-cases (ltb (s.offset + length s.line) buffer_size)) [
  | inl e ↦ (s.offset, (rw e refl), ground arith)
  | inr e ↦
      let moved : (s.offset == 0) ≡ false = ground arith in (0, (rw e (rw moved refl)), omega arith)
]

await_next :
    (n : ℕ) (events : List ReadEvent) (socket : Bytes) (s s' : Scan)
    → make_room s ≡ some s'
    → await (data_read n ∷ events) socket s ≡ elim (scan_lines s' (take (read_count s' n) socket)) [
      | returned outcome b ↦ some (outcome, b, drop (read_count s' n) socket)
      | waiting s'' ↦ await events (drop (read_count s' n) socket) s''
    ]
unfolding await scan_lines
await_next n events socket s s' e = rw (e, await) refl

-- a read that does not end the request
pub await_more :
    (n : ℕ) (events : List ReadEvent) (socket : Bytes) (s s' t : Scan)
    → make_room s ≡ some s'
    → scan_lines s' (take (read_count s' n) socket) ≡ waiting t
    → await (data_read n ∷ events) socket s ≡ await events (drop (read_count s' n) socket) t
await_more n events socket s s' t e f = await_next n events socket s s' e ∙ (rw f refl)

-- the request has been read; `rest` is left in the socket
Complete : Option (Outcome × InputBuffer × Bytes) → List Bytes → List Bytes → Bytes → Type 0
Complete result lines ls extra =
    (b : InputBuffer) × (rest : Bytes) × (result ≡ some (finished (stored lines ls), b, rest))
    × (b.request_lines ≡ stored lines ls)
    × (b.unread ++ rest ≡ extra)

await_lem :
    (sizes : List ℕ) (s : Scan) (socket : Bytes) (ls : List Bytes) (extra : Bytes)
    → Ready s socket ls extra
    → length socket ≤ length sizes
    → Complete (await (map data_read sizes) socket s) s.lines ls extra
unfolding Complete Result
await_lem [] s socket ls extra r h =
    let x = short s socket ls extra r in absurd (omega (arith, x.1))
await_lem (n ∷ sizes) s socket ls extra r h =
    let x = short s socket ls extra r in
    let (o, e, room) = make_room_lem s x.0 in
    let k = read_count (at o s.line s.lines s.started) n in
    let parts : take k socket ++ drop k socket ≡ socket = take-append-drop k socket in
    let ready : Ready (at o s.line s.lines s.started) (take k socket ++ drop k socket) ls extra =
      record { one_line = r.one_line; text = ap (◌++◌ s.line) parts ∙ r.text; valid = r.valid } in
    let fewer : length (drop k socket) ≤ length sizes = omega (arith, length-drop k socket, x.1) in
    elim (scan_lem (take k socket) o s.line s.lines s.started (drop k socket) ls extra ready) [
      | inl (b, d) ↦ (
        b,
        drop k socket,
        await_next n (map data_read sizes) socket s (at o s.line s.lines s.started) e
            ∙ (rw d.ends refl),
        d.holds,
        d.left,
      )
      | inr (s', ls', t) ↦
          let (b, rest, f, holds, left) =
            await_lem sizes s' (drop k socket) ls' extra t.ready fewer in
          (
            b,
            rest,
            await_next n (map data_read sizes) socket s (at o s.line s.lines s.started) e
                ∙ (rw t.ends f)
                ∙ ap (λ lines. some (finished lines, b, rest)) t.same,
            holds ∙ t.same,
            left,
          )
    ]

pub read_request_start :
    (b : InputBuffer) (events : List ReadEvent) (socket : Bytes)
    → read_request b events socket
      ≡ elim (scan_lines (at b.read_offset [] b.request_lines false) b.unread) [
        | returned outcome b' ↦ some (outcome, b', socket)
        | waiting s ↦ await events socket s
      ]
unfolding read_request
read_request_start b events socket = refl

-- When the bytes in the buffer and those that the client sends make a complete request, each line of
-- which is not empty and shorter than the buffer, and what follows it, then reads of whatever sizes,
-- at least as many as the bytes sent, end with that request: the lines that are not blank are
-- stored, and what follows is left in the buffer and the socket.
pub read_request_lem :
    (b : InputBuffer) (sizes : List ℕ) (socket : Bytes) (ls : List Bytes) (extra : Bytes)
    → All IsLine ls
    → b.unread ++ socket ≡ request_text ls extra
    → length socket ≤ length sizes
    → (b' : InputBuffer) × (rest : Bytes) × (read_request b (map data_read sizes) socket
        ≡ some (finished (stored b.request_lines ls), b', rest))
      × (b'.request_lines ≡ stored b.request_lines ls)
      × (b'.unread ++ rest ≡ extra)
unfolding Result Complete
read_request_lem b sizes socket ls extra valid text h =
    elim (scan_lem b.unread b.read_offset [] b.request_lines false socket ls extra
      (record { one_line = tt; text = text; valid = valid })) [
        | inl (b', d) ↦
            (b', socket, read_request_start b _ socket ∙ (rw d.ends refl), d.holds, d.left)
        | inr (s', ls', t) ↦
            let (b', rest, f, holds, left) = await_lem sizes s' socket ls' extra t.ready h in
            (
              b',
              rest,
              read_request_start b _ socket
                  ∙ (rw t.ends f)
                  ∙ ap (λ lines. some (finished lines, b', rest)) t.same,
              holds ∙ t.same,
              left,
            )
      ]
