-- ===== src/Print.antt =====
-- src/Query.cc: how values are written in the four output formats. The fields of a query that this
-- needs are a record of their own. A double arrives here as the text that `snprintf` makes of it.
pub mod Json
pub mod Decode
pub mod Lists
pub mod Names
use Prim.Native.Nat.{bit_and, bit_or}
use naemon_livestatus.Prelude.{
  ℕ, zero, suc, ◌+◌, ◌-◌, ◌*◌, ◌/◌, ◌%◌, ◌^◌, Bool, true, false, ◌&&◌, ◌||◌, not, List, [], ◌∷◌,
  ◌++◌, Option, none, some, ltb, leb, ◌==◌, if◌then◌else◌, length, take, ℤ, pos, ◌+ℤ◌,
}
use naemon_livestatus.Text.{Bytes, codes, decimal, signed_decimal}
use naemon_livestatus.Output.{OutputBuffer, add_buffer, add_char, padded, is_empty}

pub data OutputFormat : Type 0 where
  csv json python wrapped_json : OutputFormat

-- `g_data_encoding`
pub data DataEncoding : Type 0 where
  utf8 latin1 mixed : DataEncoding

pub record Writer : Type 0 where
  pub output : OutputBuffer
  pub output_format : OutputFormat
  pub data_encoding : DataEncoding
  pub field_separator : Bytes
  pub dataset_separator : Bytes
  pub list_separator : Bytes
  pub host_service_separator : Bytes
  pub need_ds_separator : Bool
  pub timezone_offset : ℤ

abbrev pub is_csv : OutputFormat → Bool
is_csv csv = true
is_csv _ = false

abbrev pub is_wrapped : OutputFormat → Bool
is_wrapped wrapped_json = true
is_wrapped _ = false

abbrev pub put : Writer → Bytes → Writer
put w s = record w { output = add_buffer w.output s }

abbrev pub put_char : Writer → ℕ → Writer
put_char w c = record w { output = add_char w.output c }

unfoldable pub output_dataset_begin : Writer → Writer
output_dataset_begin w =
    let w' =
      if w.need_ds_separator && not (is_csv w.output_format) then put w (codes ",\n") else w in
    if not (is_csv w.output_format) then put_char w' b'[' else w'

unfoldable pub output_dataset_end : Writer → Writer
output_dataset_end w =
    let w' = if is_csv w.output_format then put w w.dataset_separator else put_char w b']' in
    record w' { need_ds_separator = true }

unfoldable pub output_field_separator : Writer → Writer
output_field_separator w =
    if is_csv w.output_format then put w w.field_separator else put_char w b','

-- `outputInteger`, `outputInteger64`
abbrev pub output_integer : Writer → ℤ → Writer
output_integer w value = put w (signed_decimal value)

unfoldable pub output_time : Writer → ℤ → Writer
output_time w value = output_integer w (value +ℤ w.timezone_offset)

-- `outputUnsignedLong`, `outputCounter`
abbrev pub output_unsigned : Writer → ℕ → Writer
output_unsigned w value = put w (decimal value)

unfoldable pub output_null : Writer → Writer
output_null w = elim w.output_format [
  | csv ↦ w
  | python ↦ put w (codes "None")
  | _ ↦ put w (codes "null")
]

abbrev pub hex_digit : ℕ → ℕ
hex_digit d = if ltb d 10 then b'0' + d else b'a' + (d - 10)

-- `%x`
unfoldable pub hex_onto : ℕ → ℕ → Bytes → Bytes
hex_onto zero n acc = acc
hex_onto (suc fuel) n acc =
    let more = hex_onto fuel (n / 16) (hex_digit (n % 16) ∷ acc) in
    if ltb n 16 then hex_digit n ∷ acc else more

-- `snprintf(buf, 8, "\\u%04x", value)`, of which six bytes are sent
unfoldable pub unicode_escape : ℕ → Bytes
unfolding hex_onto
unicode_escape value = take 6 (b'\\' ∷ b'u' ∷ padded b'0' 4 (hex_onto (value + 1) value []))

unfoldable pub output_unicode_escape : OutputBuffer → ℕ → OutputBuffer
output_unicode_escape o value = add_buffer o (unicode_escape value)

-- the table `json_significant`
unfoldable pub json_significant : ℕ → Bool
json_significant c = ltb c 32 || (c == b'"' || (c == b'\\' || leb 0x80 c))

-- `addUntilNextSignificantChar`: the plain run, and where `*src` points afterwards
unfoldable pub plain_run : Bytes → Bytes × Bytes
unfolding json_significant
plain_run [] = ([], [])
plain_run (c ∷ s) =
    let (run, rest) = plain_run s in if json_significant c then ([], c ∷ s) else (c ∷ run, rest)

-- the byte at an offset; the terminating zero stands behind the last one
abbrev pub byte_at : ℕ → Bytes → ℕ
byte_at i [] = 0
byte_at zero (c ∷ s) = c
byte_at (suc i) (c ∷ s) = byte_at i s

-- `r += n`; `none` if that goes past the terminating zero
abbrev pub advance : ℕ → Bytes → Option Bytes
advance zero s = some s
advance (suc n) [] = none
advance (suc n) (c ∷ s) = advance n s

-- what the loop does with one significant byte
pub data Escaped : Type 0 where
  -- the bytes to write, and by how many bytes `r` moves
  emit : Bytes → ℕ → Escaped
  -- the `break` on a sequence that is cut off
  stop : Escaped

abbrev pub low_bits_or : ℕ → ℕ → ℕ
low_bits_or high low = bit_or high (bit_and low 0x3F)

-- the branches of the loop, on what is left of the string
unfoldable pub escape_at : DataEncoding → Bytes → Escaped
escape_at encoding s =
    let c = byte_at 0 s in
    let two = emit (unicode_escape (low_bits_or (bit_and c 31 * 2 ^ 6) (byte_at 1 s))) 2 in
    let three =
      if ltb (length s) 3
      then stop
      else emit
          (unicode_escape (
            low_bits_or (bit_or (bit_and c 0x0F * 2 ^ 12) (bit_and (byte_at 1 s) 0x3F * 2 ^ 6))
              (byte_at 2 s)))
          3 in
    let four =
      if ltb (length s) 4
      then stop
      else emit
          (unicode_escape (
            low_bits_or
              (bit_or (bit_or (bit_and c 0x07 * 2 ^ 18) (bit_and (byte_at 1 s) 0x3F * 2 ^ 6))
                (bit_and (byte_at 2 s) 0x3F * 2 ^ 6))
              (byte_at 3 s)))
          4 in
    let long =
      if bit_and c 0xF0 == 0xE0
      then three
      else if bit_and c 0xF8 == 0xF0
      then four
      else emit [] 1 in
    let latin = emit (unicode_escape c) 1 in
    if ltb c 32
    then emit (unicode_escape c) 1
    else if c == b'"' || c == b'\\'
    then emit (b'\\' ∷ c ∷ []) 1
    else elim encoding [
      | utf8 ↦ if bit_and c 0xE0 == 0xC0 then two else long
      | mixed ↦ if bit_and c 0xE0 == 0xC0 then two else latin
      | latin1 ↦ latin
    ]

-- The loop of `outputString`. `none` is a read past the end of the string, or the end of the fuel.
unfoldable pub json_loop : DataEncoding → ℕ → OutputBuffer → Bytes → Option OutputBuffer
json_loop encoding zero o s = none
json_loop encoding (suc fuel) o s =
    let o' = if is_empty (plain_run s).0 then o else add_buffer o (plain_run s).0 in
    let rest = (plain_run s).1 in
    let escaped : Option OutputBuffer = elim (escape_at encoding rest) [
      | stop ↦ some o'
      | emit bytes n ↦ elim (advance n rest) [
        | none ↦ none
        | some next ↦ json_loop encoding fuel (add_buffer o' bytes) next
      ]
    ] in
    if is_empty rest then some o' else escaped

-- `outputString`; `none` is the null pointer
unfoldable pub output_string : Writer → Option Bytes → Option Writer
output_string w none = some (if is_csv w.output_format then w else put w (codes "\"\""))
output_string w (some value) =
    let marked : OutputBuffer = elim w.output_format [
      | python ↦ add_char w.output b'u'
      | _ ↦ w.output
    ] in
    let quoted : Option Writer =
      elim (json_loop w.data_encoding (length value + 1) (add_char marked b'"') value) [
        | none ↦ none
        | some o ↦ some (record w { output = add_char o b'"' })
      ] in
    if is_csv w.output_format then some (put w value) else quoted
