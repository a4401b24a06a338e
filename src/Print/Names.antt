-- ===== src/Print/Names.antt =====
-- A reader of lists of strings, and what it makes of a list that `HostgroupsColumn::output` of
-- src/HostgroupsColumn.cc writes.
use naemon_livestatus.Prelude.{
  ℕ, zero, suc, ◌<◌, Bool, true, false, List, [], ◌∷◌, ◌++◌, Option, none, some, ◌>>=◌,
  if◌then◌else◌, ◌==◌, length, All, All-map, append_assoc, ◌≡◌, refl, ap, ◌∙◌, arith,
}
use naemon_livestatus.Text.{Bytes}
use naemon_livestatus.Output.{OutputBuffer, add_char}
use naemon_livestatus.Output.Capacity.{IsValid, Appended, add_char-Appended}
use naemon_livestatus.Print.{
  Writer, OutputFormat, csv, json, python, wrapped_json, is_csv, put_char, output_string,
}
use naemon_livestatus.Print.Json.{IsBytewise, Appended-trans, Appended-nil}
use naemon_livestatus.Print.Decode.{
  literal, read_string, output_string-literal, read_string-literal, bytewise_below,
}
use naemon_livestatus.Print.Lists.{
  output_begin_list, output_list_separator, output_end_list, names_loop, output_names,
}

-- a string literal of the format; in python it begins with `u`
unfoldable pub read_literal : OutputFormat → ℕ → Bytes → Option (Bytes × Bytes)
read_literal python fuel (u ∷ q ∷ s) =
    if u == b'u' then (if q == b'"' then read_string fuel s else none) else none
read_literal f fuel (q ∷ s) = if q == b'"' then read_string fuel s else none
read_literal f fuel [] = none

-- what is behind a string of a list
unfoldable pub read_more : OutputFormat → ℕ → ℕ → Bytes → Option (List Bytes × Bytes)
read_more f n zero s = none
read_more f n (suc k) [] = none
read_more f n (suc k) (c ∷ s) =
    let next =
      read_literal f n s
      >>= (λ (name, t). read_more f n k t >>= (λ (names, end). some (name ∷ names, end))) in
    if c == b']' then some ([], s) else if c == b',' then next else none

-- A list of strings, and what is behind it: literals with commas between them, in brackets.
unfoldable pub read_list : OutputFormat → ℕ → Bytes → Option (List Bytes × Bytes)
read_list f n (b ∷ c ∷ s) =
    if b == b'['
    then (if c == b']' then some ([], s) else read_more f n (suc n) (b',' ∷ c ∷ s))
    else none
read_list f n s = none

abbrev comma : Bool → Bytes
comma true = []
comma false = b',' ∷ []

-- the text of a list behind its opening bracket
unfoldable names_text : OutputFormat → Bool → List Bytes → Bytes
names_text f first [] = []
names_text f first (name ∷ names) = comma first ++ (literal f name ++ names_text f false names)

literal-read :
    (f : OutputFormat) (n : ℕ) (name rest : Bytes)
    → length name < n
    → All (λ c. c < 0x100) name
    → read_literal f n (literal f name ++ rest) ≡ some (name, rest)
unfolding read_literal
literal-read csv n name rest h b = read_string-literal n name rest h b
literal-read json n name rest h b = read_string-literal n name rest h b
literal-read python n name rest h b = read_string-literal n name rest h b
literal-read wrapped_json n name rest h b = read_string-literal n name rest h b

more-read :
    (f : OutputFormat) (n k : ℕ) (names : List Bytes) (rest : Bytes)
    → length names < k
    → All (λ name. length name < n) names
    → All (λ name. All (λ c. c < 0x100) name) names
    → read_more f n k (names_text f false names ++ b']' ∷ rest) ≡ some (names, rest)
unfolding read_more names_text
more-read f n zero names rest h s b = absurd (omega arith)
more-read f n (suc k) [] rest h s b = refl
more-read f n (suc k) (name ∷ names) rest h (short, s) (bytes, b) =
    let again =
      ap (λ t. read_literal f n t)
        (append_assoc (literal f name) (names_text f false names) (b']' ∷ rest))
      ∙ literal-read f n name (names_text f false names ++ b']' ∷ rest) short bytes in
    rw (again, more-read f n k names rest (omega arith) s b) refl

separated :
    (first : Bool) (w : Writer)
    → IsValid w.output
    → is_csv w.output_format ≡ false
    → (o : OutputBuffer) × ((if first then w else output_list_separator w)
        ≡ record w { output = o })
      × Appended w.output (comma first) o
unfolding output_list_separator
separated true w v h = (w.output, refl, Appended-nil w.output v)
separated false w v h = (add_char w.output b',', rw h refl, add_char-Appended w.output b',' v)

loop-Appended :
    (first : Bool) (names : List Bytes) (w : Writer)
    → IsValid w.output
    → is_csv w.output_format ≡ false
    → All (IsBytewise w.data_encoding) names
    → (o : OutputBuffer) × (names_loop first names w ≡ some (record w { output = o }))
      × Appended w.output (names_text w.output_format first names) o
unfolding names_loop names_text
loop-Appended first [] w v h b = (w.output, refl, Appended-nil w.output v)
loop-Appended first (name ∷ names) w v h (bytes, b) =
    let (o, e, a) = separated first w v h in
    let (o', e', a') = output_string-literal (record w { output = o }) name a.valid h bytes in
    let (o'', e'', a'') = loop-Appended false names (record w { output = o' }) a'.valid h b in
    (
      o'',
      ap (λ w. output_string w (some name) >>= (λ w'. names_loop false names w')) e
          ∙ ap (λ r. r >>= (λ w'. names_loop false names w')) e'
          ∙ e'',
      Appended-trans _ _ _ _ _ a (Appended-trans _ _ _ _ _ a' a''),
    )

begin_list : (w : Writer) → is_csv w.output_format ≡ false → output_begin_list w ≡ put_char w b'['
unfolding output_begin_list
begin_list w h = rw h refl

end_list : (w : Writer) → is_csv w.output_format ≡ false → output_end_list w ≡ put_char w b']'
unfolding output_end_list
end_list w h = rw h refl

names_read :
    (f : OutputFormat) (n : ℕ) (names : List Bytes) (rest : Bytes)
    → length names < n
    → All (λ name. length name < n) names
    → All (λ name. All (λ c. c < 0x100) name) names
    → read_list f n (b'[' ∷ (names_text f true names ++ b']' ∷ rest)) ≡ some (names, rest)
unfolding read_list names_text
names_read f n [] rest h s b = refl
names_read csv n (name ∷ names) rest h s b =
    more-read csv n (suc n) (name ∷ names) rest (omega arith) s b
names_read json n (name ∷ names) rest h s b =
    more-read json n (suc n) (name ∷ names) rest (omega arith) s b
names_read python n (name ∷ names) rest h s b =
    more-read python n (suc n) (name ∷ names) rest (omega arith) s b
names_read wrapped_json n (name ∷ names) rest h s b =
    more-read wrapped_json n (suc n) (name ∷ names) rest (omega arith) s b

-- In an output format other than csv, a list of names whose bytes are ASCII, or any bytes in the
-- encoding latin1, written by HostgroupsColumn::output to a buffer that lies within its memory, is
-- appended as one text, and a reader of lists of string literals, with fuel for the names and their
-- number, makes the same names of it, whatever bytes they have and whatever follows.
pub output_names-read_list :
    (w : Writer) (names : List Bytes) (n : ℕ)
    → IsValid w.output
    → is_csv w.output_format ≡ false
    → All (IsBytewise w.data_encoding) names
    → length names < n
    → All (λ name. length name < n) names
    → (o : OutputBuffer) × (text : Bytes) × (output_names names w ≡ some (record w { output = o }))
      × Appended w.output text o
      × ((rest : Bytes) → read_list w.output_format n (text ++ rest) ≡ some (names, rest))
unfolding output_names
output_names-read_list w names n v h b many short =
    let a1 = add_char-Appended w.output b'[' v in
    let (o, e, a2) = loop-Appended true names (put_char w b'[') a1.valid h b in
    let a3 = add_char-Appended o b']' a2.valid in
    let f = w.output_format in
    (
      add_char o b']',
      b'[' ∷ (names_text f true names ++ b']' ∷ []),
      ap (λ w'. names_loop true names w' >>= (λ w''. some (output_end_list w''))) (begin_list w h)
          ∙ ap (λ r. r >>= (λ w''. some (output_end_list w''))) e
          ∙ ap some (end_list (record w { output = o }) h),
      Appended-trans _ _ _ _ _ a1 (Appended-trans _ _ _ _ _ a2 a3),
      λ rest.
          ap (λ t. read_list f n (b'[' ∷ t))
            (append_assoc (names_text f true names) (b']' ∷ []) rest)
          ∙ names_read f n names rest many short
              (All-map names (λ name k. bytewise_below w.data_encoding name k) b),
    )
