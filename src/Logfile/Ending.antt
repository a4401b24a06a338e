-- ===== src/Logfile/Ending.antt =====
-- `Logfile::end` of src/Logfile.cc, which looks for the last line of a file from its end.
use naemon_livestatus.Prelude.{
  ℕ, zero, suc, ◌+◌, ◌-◌, ◌*◌, ◌&&◌, ◌∷◌, ◌++◌, Option, none, some, length, take, drop, get_or, ltb,
  ◌==◌, if◌then◌else◌, ℤ, pos, is_pos,
}
use naemon_livestatus.Text.{Bytes, atoi}

-- `for (int j = BUFFER_SIZE - 2; j >= 0; j--)` until a newline in front of a `[`: the place of it
unfoldable pub last_mark : ℕ → Bytes → Option ℕ
last_mark zero buffer = none
last_mark (suc j) buffer =
    let earlier = last_mark j buffer in
    if get_or buffer j 0 == b'\n' && get_or buffer (suc j) 0 == b'[' then some j else earlier

-- what a read of `n` bytes leaves in the buffer, whose old bytes stay behind a short read
unfoldable pub read_over : ℕ → Bytes → Bytes → Bytes
read_over n bytes buffer = take n bytes ++ drop (length (take n bytes)) buffer

-- `for (int i = 1; i <= 100; i++)`, with the number of rounds left, over the bytes of the file; 0 where a
-- call fails. At first the buffer is what was on the stack.
unfoldable pub end_from : ℕ → ℕ → Bytes → Bytes → ℤ → ℤ
end_from zero i bytes buffer end = end
end_from (suc rounds) i bytes buffer end =
    let start = length bytes - 49 * i in
    let window = read_over 50 (drop start bytes) buffer in
    let again = end_from rounds (i + 1) bytes window end in
    if ltb (length bytes) (49 * i) then pos 0 else elim (last_mark 49 window) [
      | none ↦ again
      | some j ↦
          let line = read_over 10 (drop (start + j + 2) bytes) window in
          let stamp = atoi (take 10 line) in
          let more = end_from rounds (i + 1) bytes (take 10 line ++ 0 ∷ drop 11 line) stamp in
          if is_pos stamp then stamp else more
    ]

-- `none` for a file that cannot be opened
unfoldable pub end_of : Bytes → Option Bytes → ℤ
end_of stack none = pos 0
end_of stack (some bytes) =
    if ltb (length bytes) 50 then pos 0 else end_from 100 1 bytes stack (pos 0)
