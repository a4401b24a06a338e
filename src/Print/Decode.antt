-- ===== src/Print/Decode.antt =====
-- A reader of JSON strings, and what it makes of the strings that `outputString` of src/Query.cc writes.
use naemon_livestatus.Prelude.{
  ℕ, zero, suc, ◌+◌, ◌-◌, ◌*◌, ◌/◌, ◌%◌, ◌<◌, ◌≡◌, refl, ap, ◌∙◌, subst, ◌||◌, List, [], ◌∷◌, ◌++◌,
  Option, none, some, arith, length, Bool-cases, inl, inr, append_assoc, true, false, ltb, leb,
  ◌==◌, if◌then◌else◌, ◌>>=◌, check_below, check_below_sound, All, All-map,
}
use naemon_livestatus.Text.{Bytes, str_equal, str_equal→eq}
use naemon_livestatus.Output.{OutputBuffer, add_char}
use naemon_livestatus.Output.Capacity.{IsValid, Appended, add_char-Appended}
use naemon_livestatus.Print.{
  DataEncoding, latin1, utf8, mixed, is_csv, Writer, OutputFormat, csv, json, python, wrapped_json,
  unicode_escape, hex_digit, output_string, json_loop,
}
use naemon_livestatus.Print.Json.{
  escaped_byte, escaped_bytes, IsBytewise, json_loop_lem, Appended-trans, Appended-nil,
}

abbrev hex_value : ℕ → ℕ
hex_value d = if ltb d b'a' then d - b'0' else 10 + (d - b'a')

hex_number : ℕ → ℕ → ℕ → ℕ → ℕ
hex_number a b c d = ((hex_value a * 16 + hex_value b) * 16 + hex_value c) * 16 + hex_value d

-- behind a backslash
read_escape : Bytes → Option (Option ℕ × Bytes)
unfolding hex_number
read_escape [] = none
read_escape (e ∷ s) =
    let coded : Option (Option ℕ × Bytes) = elim s [
      | h3 ∷ h2 ∷ h1 ∷ h0 ∷ t ↦ some (some (hex_number h3 h2 h1 h0), t)
      | _ ↦ none
    ] in
    if e == b'u' then coded else if e == b'"' || e == b'\\' then some (some e, s) else none

-- one character of a JSON string, or its closing quote
read_char : Bytes → Option (Option ℕ × Bytes)
unfolding read_escape
read_char [] = none
read_char (c ∷ s) =
    if c == b'"'
    then some (none, s)
    else if c == b'\\'
    then read_escape s
    else if ltb c 32
    then none
    else some (some c, s)

-- A JSON string behind its opening quote: its characters, and what follows its closing quote.
unfoldable pub read_string : ℕ → Bytes → Option (List ℕ × Bytes)
unfolding read_char
read_string zero t = none
read_string (suc fuel) t = do
  (found, rest) ← read_char t
  elim found [
    | none ↦ some ([], rest)
    | some c ↦ read_string fuel rest >>= λ (s, end). some (c ∷ s, end)
  ]

-- `unicode_escape` on a byte
byte_escape : ℕ → Bytes
byte_escape c = b'\\' ∷ b'u' ∷ b'0' ∷ b'0' ∷ hex_digit (c / 16) ∷ hex_digit (c % 16) ∷ []

byte_escape_table : check_below 256 (λ c. str_equal (unicode_escape c) (byte_escape c)) ≡ true
unfolding check_below str_equal unicode_escape byte_escape
byte_escape_table = refl

unicode_escape-byte : (c : ℕ) → c < 256 → unicode_escape c ≡ byte_escape c
unicode_escape-byte c h = str_equal→eq _ _ (check_below_sound 256 _ c byte_escape_table h)

hex_value-hex_digit : (d : ℕ) → d < 16 → hex_value (hex_digit d) ≡ d
hex_value-hex_digit d h = ground arith

read_char-coded : (c : ℕ) (t : Bytes) → c < 256 → read_char (byte_escape c ++ t) ≡ some (some c, t)
unfolding read_char byte_escape
read_char-coded c t h =
    let value : hex_number b'0' b'0' (hex_digit (c / 16)) (hex_digit (c % 16)) ≡ c =
      unfold hex_number in
      omega (
        arith,
        hex_value-hex_digit (c / 16) (omega arith),
        hex_value-hex_digit (c % 16) (omega arith),
      ) in
    ap (λ n. some (some n, t)) value

read_char-quoted :
    (c : ℕ) (t : Bytes)
    → (c == b'"' || c == b'\\') ≡ true
    → read_char (b'\\' ∷ c ∷ t) ≡ some (some c, t)
unfolding read_char
read_char-quoted c t h = ground arith

read_char-plain :
    (c : ℕ) (t : Bytes)
    → (c == b'"' || c == b'\\') ≡ false
    → ltb c 32 ≡ false
    → read_char (c ∷ t) ≡ some (some c, t)
unfolding read_char
read_char-plain c t h k = ground arith

-- whatever the byte is, the reader makes that byte of what is written for it
read_char-escaped_byte :
    (c : ℕ) (t : Bytes) → c < 256 → read_char (escaped_byte c ++ t) ≡ some (some c, t)
unfolding escaped_byte
read_char-escaped_byte c t h =
    let coded : read_char (unicode_escape c ++ t) ≡ some (some c, t) =
      ap (λ z. read_char (z ++ t)) (unicode_escape-byte c h) ∙ read_char-coded c t h in
    elim (Bool-cases (ltb c 32)) [
      | inl e ↦ rw e coded
      | inr e ↦ elim (Bool-cases (c == b'"' || c == b'\\')) [
        | inl f ↦ rw (e, f) (read_char-quoted c t f)
        | inr f ↦ elim (Bool-cases (leb 0x80 c)) [
          | inl g ↦ rw (e, f, g) coded
          | inr g ↦ rw (e, f, g) (read_char-plain c t f e)
        ]
      ]
    ]

read_string-escaped_bytes :
    (fuel : ℕ) (s rest : Bytes)
    → length s < fuel
    → All (λ c. c < 0x100) s
    → read_string fuel (escaped_bytes s ++ (b'"' ∷ rest)) ≡ some (s, rest)
unfolding read_string escaped_bytes
read_string-escaped_bytes zero s rest f h = absurd (omega arith)
read_string-escaped_bytes (suc fuel) [] rest f h = refl
read_string-escaped_bytes (suc fuel) (c ∷ s) rest f h =
    let first =
      ap read_char (append_assoc (escaped_byte c) (escaped_bytes s) (b'"' ∷ rest))
      ∙ read_char-escaped_byte c (escaped_bytes s ++ (b'"' ∷ rest)) h.0 in
    rw (first, read_string-escaped_bytes fuel s rest (omega arith) h.1) refl

pub bytewise_below :
    (encoding : DataEncoding) (s : Bytes) → IsBytewise encoding s → All (λ c. c < 0x100) s
bytewise_below latin1 s h = h
bytewise_below utf8 s h = All-map s (λ c k. omega arith) h
bytewise_below mixed s h = All-map s (λ c k. omega arith) h

-- the `u` in front of the string
abbrev pub mark : OutputFormat → Bytes
mark python = b'u' ∷ []
mark _ = []

abbrev marked : Writer → OutputBuffer
marked w = elim w.output_format [ python ↦ add_char w.output b'u' | _ ↦ w.output ]

marked-Appended :
    (w : Writer) (f : OutputFormat)
    → IsValid w.output
    → Appended w.output (mark f) (elim f [ python ↦ add_char w.output b'u' | _ ↦ w.output ])
marked-Appended w csv v = Appended-nil w.output v
marked-Appended w json v = Appended-nil w.output v
marked-Appended w python v = add_char-Appended w.output b'u' v
marked-Appended w wrapped_json v = Appended-nil w.output v

output_string_quoted :
    (w : Writer) (value : Bytes) (o : OutputBuffer)
    → is_csv w.output_format ≡ false
    → json_loop w.data_encoding (length value + 1) (add_char (marked w) b'"') value ≡ some o
    → output_string w (some value) ≡ some (record w { output = add_char o b'"' })
unfolding output_string
output_string_quoted w value o h e = rw (h, e) refl

-- a string as it is written
abbrev pub literal : OutputFormat → Bytes → Bytes
literal f s = mark f ++ (b'"' ∷ (escaped_bytes s ++ b'"' ∷ []))

pub output_string-literal :
    (w : Writer) (value : Bytes)
    → IsValid w.output
    → is_csv w.output_format ≡ false
    → IsBytewise w.data_encoding value
    → (o : OutputBuffer) × (output_string w (some value) ≡ some (record w { output = o }))
      × Appended w.output (literal w.output_format value) o
output_string-literal w value v h b =
    let a1 = marked-Appended w w.output_format v in
    let a2 = add_char-Appended (marked w) b'"' a1.valid in
    let (o, e, a3) =
      json_loop_lem w.data_encoding (length value + 1) (add_char (marked w) b'"') value
        (omega arith) b a2.valid in
    let a4 = add_char-Appended o b'"' a3.valid in
    let m = mark w.output_format in
    (
      add_char o b'"',
      output_string_quoted w value o h e,
      subst (λ z. Appended w.output z (add_char o b'"'))
          (append_assoc (m ++ b'"' ∷ []) (escaped_bytes value) (b'"' ∷ [])
            ∙ append_assoc m (b'"' ∷ []) _)
          (Appended-trans _ _ _ _ _ (Appended-trans _ _ _ _ _ (Appended-trans _ _ _ _ _ a1 a2) a3)
            a4),
    )

pub read_string-literal :
    (fuel : ℕ) (value rest : Bytes)
    → length value < fuel
    → All (λ c. c < 0x100) value
    → read_string fuel ((escaped_bytes value ++ b'"' ∷ []) ++ rest) ≡ some (value, rest)
read_string-literal fuel value rest f h =
    ap (read_string fuel) (append_assoc (escaped_bytes value) (b'"' ∷ []) rest)
    ∙ read_string-escaped_bytes fuel value rest f h

-- In an output format other than csv, a string whose bytes are ASCII, or any bytes in the encoding
-- latin1, is appended to a buffer that lies within its memory as a string literal, and a reader of
-- such literals makes the same bytes of it.
output_string-read :
    (w : Writer) (value : Bytes)
    → IsValid w.output
    → is_csv w.output_format ≡ false
    → IsBytewise w.data_encoding value
    → (o : OutputBuffer) × (text : Bytes) × (output_string w (some value)
        ≡ some (record w { output = o }))
      × Appended w.output (mark w.output_format ++ (b'"' ∷ text)) o
      × ((rest : Bytes) → read_string (length value + 1) (text ++ rest) ≡ some (value, rest))
output_string-read w value v h b =
    let (o, e, a) = output_string-literal w value v h b in
    (
      o,
      escaped_bytes value ++ b'"' ∷ [],
      e,
      a,
      λ rest.
          read_string-literal (length value + 1) value rest (omega arith)
            (bytewise_below w.data_encoding value b),
    )
