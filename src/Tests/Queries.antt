-- ===== src/Tests/Queries.antt =====
-- Requests, and the queries that they make.
use naemon_livestatus.Prelude.{
  ℕ, ◌≡◌, refl, List, [], ◌∷◌, ◌++◌, map, some, none, arith, pos, replicate, length-replicate, suc,
  zero, length,
}
use naemon_livestatus.Text.{
  Bytes, codes, lstrip, rstrip, is_space, strip_prefix, next_field, take_field, atoi, is_digit,
  strip_prefix,
}
use naemon_livestatus.Output
use naemon_livestatus.Output.{OutputBuffer, set_error, has_error}
use naemon_livestatus.Input.{InputBuffer, data_read, read_request, finished, line_too_long}
use naemon_livestatus.Input.Lines.{OneLine, IsLine, request_text, stored}
use naemon_livestatus.Input.Request.{read_request_lem}
use naemon_livestatus.Input.TooLong.{read_request-line_too_long}
use naemon_livestatus.Query
use naemon_livestatus.Query.{Query, Core}
use naemon_livestatus.Query.Headers.{set_limit, parse_limit_line}
use naemon_livestatus.Query.Parse.{parse_lines, parse_header, find_header}
use naemon_livestatus.Query.Valid.{IsValid}
use naemon_livestatus.Query.Request.{parse_lines-IsValid}

abbrev idle : InputBuffer
idle = record { read_offset = 0; unread = []; request_lines = [] }

abbrev get_line : List Bytes
get_line = codes "GET a" ∷ []

text-IsLine : IsLine (codes "GET a")
text-IsLine = record {
  one_line = (refl, (refl, (refl, (refl, (refl, tt)))));
  not_empty = omega arith;
  fits = omega arith;
}

read_request_lem_example :
    (b' : InputBuffer) × (rest : Bytes) × (read_request idle
        (map data_read (2 ∷ 0 ∷ 9 ∷ 9 ∷ 9 ∷ 9 ∷ 9 ∷ []))
        (codes "GET a\n\n")
      ≡ some (finished (stored [] get_line), b', rest))
    × (b'.request_lines ≡ stored [] get_line)
    × (b'.unread ++ rest ≡ [])
read_request_lem_example =
    read_request_lem idle (2 ∷ 0 ∷ 9 ∷ 9 ∷ 9 ∷ 9 ∷ 9 ∷ []) (codes "GET a\n\n") get_line []
      (text-IsLine, tt) (unfold request_text in refl) (omega arith)

abbrev core : Core
core = record { find_contact = λ name. none; now = pos 1000 }

-- a query on rows that are numbers, without a table
abbrev fresh : Query ℕ
fresh = Query.new Output.new none

abbrev limited : Query ℕ
limited = record fresh { limit = pos 5 }

parse_lines_run : parse_lines core fresh (codes "Limit: 5" ∷ []) ≡ some (limited, [])
unfolding parse_lines parse_header find_header strip_prefix parse_limit_line set_limit next_field
    take_field is_space lstrip rstrip atoi is_digit
parse_lines_run = refl

parse_lines-IsValid_example : IsValid limited
parse_lines-IsValid_example =
    parse_lines-IsValid core Output.new none (codes "Limit: 5" ∷ []) limited [] parse_lines_run

abbrev refused : OutputBuffer
refused = record Output.new { error_message = codes "bad"; response_code = 400 }

refused_run :
    parse_lines core (record fresh { output = refused }) (codes "Limit: 5" ∷ [])
    ≡ some (record limited { output = refused }, [])
unfolding parse_lines parse_header find_header strip_prefix parse_limit_line set_limit next_field
    take_field is_space lstrip rstrip atoi is_digit
refused_run = refl

-- a line of one letter
unfoldable letters : ℕ → Bytes
letters n = replicate n b'a'

OneLine-letters : (n : ℕ) → OneLine (letters n)
unfolding letters
OneLine-letters zero = tt
OneLine-letters (suc n) = (refl, OneLine-letters n)

length-letters : (n : ℕ) → length (letters n) ≡ n
unfolding letters
length-letters n = length-replicate n b'a'

read_request-line_too_long_example :
    (b' : InputBuffer) × (rest : Bytes) × (read_request
        (record idle { unread = letters 65536 })
        (map data_read [])
        []
      ≡ some (line_too_long, b', rest))
read_request-line_too_long_example =
    read_request-line_too_long (record idle { unread = letters 65536 }) [] []
      (omega (arith, length-letters 65536)) (OneLine-letters 65536) tt
      (omega (arith, length-letters 65536)) (omega arith)
