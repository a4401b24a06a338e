-- ===== src/Text.antt =====
-- src/strutil.cc, and what the program uses of the C library on strings. A string is the list of its
-- bytes before the terminating zero; a pointer into it is what is left from there on.
use Prim.Native.Char.{code}
use Prim.Native.String.{String}
use naemon_livestatus.Prelude.{
  ℕ, zero, suc, ◌+◌, ◌-◌, ◌*◌, ◌/◌, ◌%◌, ◌^◌, ◌≡◌, refl, arith, Bool, true, false, not, ◌&&◌, ◌||◌,
  List, [], ◌∷◌, ◌++◌, Option, none, some, reverse, length, drop, ltb, leb, ◌==◌, if◌then◌else◌, ℤ,
  pos, negsuc, neg, min,
}
pub mod Fields
pub mod Fuel
pub mod Escape
pub mod Numbers

abbrev pub Bytes : Type 0
Bytes = List ℕ

-- the code points of an ASCII literal
abbrev pub codes : String → Bytes
codes String.[] = []
codes (String.◌∷◌ c s) = code c ∷ codes s

-- `isspace` and `isdigit` in the C locale
unfoldable pub is_space : ℕ → Bool
is_space c = c == 32 || (leb 9 c && leb c 13)

unfoldable pub is_digit : ℕ → Bool
is_digit c = leb b'0' c && leb c b'9'

-- `strcmp(a, b) == 0`
unfoldable pub str_equal : Bytes → Bytes → Bool
str_equal [] [] = true
str_equal (a ∷ s) (b ∷ t) = a == b && str_equal s t
str_equal _ _ = false

pub str_equal→eq : (s t : Bytes) → str_equal s t ≡ true → s ≡ t
unfolding str_equal
str_equal→eq [] [] h = refl
str_equal→eq [] (b ∷ t) h = cc
str_equal→eq (a ∷ s) [] h = cc
str_equal→eq (a ∷ s) (b ∷ t) h = ground (arith, str_equal→eq s t)

pub str_equal_self : (s : Bytes) → str_equal s s ≡ true
unfolding str_equal
str_equal_self [] = refl
str_equal_self (a ∷ s) = ground (arith, str_equal_self s)

-- `strncmp(s, prefix, strlen(prefix)) == 0`, with what follows the prefix
unfoldable pub strip_prefix : Bytes → Bytes → Option Bytes
strip_prefix [] s = some s
strip_prefix (p ∷ ps) [] = none
strip_prefix (p ∷ ps) (c ∷ s) = let rest = strip_prefix ps s in if p == c then rest else none

unfoldable pub lstrip : Bytes → Bytes
unfolding is_space
lstrip [] = []
lstrip (c ∷ s) = let rest = lstrip s in if is_space c then rest else c ∷ s

-- `w` walks back from the end
unfoldable pub rstrip : Bytes → Bytes
unfolding lstrip
rstrip s = reverse (lstrip (reverse s))

-- from `end = begin` up to white space: the field, and what `*c` points to afterwards
unfoldable pub take_field : Bytes → Bytes × Bytes
unfolding is_space
take_field [] = ([], [])
take_field (c ∷ s) =
    let (field, rest) = take_field s in if is_space c then ([], s) else (c ∷ field, rest)

-- the returned pointer (null for none), and `*c` afterwards
unfoldable pub next_field : Bytes → Option Bytes × Bytes
unfolding lstrip take_field
next_field line = elim (lstrip line) [
  | [] ↦ (none, [])
  | c ∷ s ↦ (some (take_field (c ∷ s)).0, (take_field (c ∷ s)).1)
]

-- `while (0 != (column_name = next_field(&line)))`: all the fields of a line; `none` if the fuel runs out
unfoldable pub fields : ℕ → Bytes → Option (List Bytes)
unfolding next_field
fields zero line = none
fields (suc fuel) line =
    let more = fields fuel (next_field line).1 in
    elim (next_field line).0 [
      | none ↦ some []
      | some field ↦ elim more [ none ↦ none | some rest ↦ some (field ∷ rest) ]
    ]

unfoldable pub take_token : ℕ → Bytes → Bytes × Bytes
take_token delim [] = ([], [])
take_token delim (c ∷ s) =
    let (token, rest) = take_token delim s in if c == delim then ([], s) else (c ∷ token, rest)

unfoldable pub next_token : ℕ → Bytes → Option Bytes × Bytes
unfolding take_token
next_token delim [] = (none, [])
next_token delim (c ∷ s) = (some (take_token delim (c ∷ s)).0, (take_token delim (c ∷ s)).1)

unfoldable pub save_next_token : ℕ → Bytes → Bytes × Bytes
unfolding next_token
save_next_token delim s = elim (next_token delim s).0 [
  | none ↦ ([], (next_token delim s).1)
  | some token ↦ (token, (next_token delim s).1)
]

-- `none` stands for the read in front of `a` where `b` is longer
unfoldable pub ends_with : Bytes → Bytes → Option Bool
unfolding str_equal
ends_with a b =
    if ltb (length a) (length b) then none else some (str_equal (drop (length a - length b) a) b)

-- a backslash at the very end is dropped
unfoldable pub unescape_newlines : Bytes → Bytes
unescape_newlines [] = []
unescape_newlines (c ∷ []) = if c == b'\\' then [] else c ∷ []
unescape_newlines (c ∷ e ∷ s) =
    let escaped = (if e == b'n' then b'\n' else e) ∷ unescape_newlines s in
    let plain = c ∷ unescape_newlines (e ∷ s) in if c == b'\\' then escaped else plain

-- the digits of `strtol`, onto the value read so far
unfoldable pub digits_value : ℕ → Bytes → ℕ
unfolding is_digit
digits_value n [] = n
digits_value n (c ∷ s) =
    let rest = digits_value (10 * n + (c - b'0')) s in if is_digit c then rest else n

-- `(int)` of a long: the low 32 bits, as a signed number
unfoldable pub to_int32 : ℤ → ℤ
to_int32 z =
    let word : ℕ = elim z [ pos n ↦ n % 2 ^ 32 | negsuc n ↦ 2 ^ 32 - 1 - n % 2 ^ 32 ] in
    if ltb word (2 ^ 31) then pos word else negsuc (2 ^ 32 - word - 1)

-- a long stops at its ends
unfoldable pub long_neg : ℕ → ℤ
long_neg n = neg (pos (min n (2 ^ 63)))

unfoldable pub long_pos : ℕ → ℤ
long_pos n = pos (min n (2 ^ 63 - 1))

strtol_signed : Bytes → ℤ
unfolding digits_value long_neg long_pos
strtol_signed [] = pos 0
strtol_signed (c ∷ s) =
    if c == b'-'
    then long_neg (digits_value 0 s)
    else long_pos (digits_value 0 (if c == b'+' then s else c ∷ s))

-- `atoi`, as `(int) strtol(s, 0, 10)`
unfoldable pub atoi : Bytes → ℤ
unfolding strtol_signed to_int32 lstrip
atoi s = to_int32 (strtol_signed (lstrip s))

-- the decimal digits of a number, in front of what stands behind them
unfoldable pub decimal_onto : ℕ → ℕ → Bytes → Bytes
decimal_onto zero n acc = acc
decimal_onto (suc fuel) n acc =
    let more = decimal_onto fuel (n / 10) ((b'0' + n % 10) ∷ acc) in
    if ltb n 10 then (b'0' + n) ∷ acc else more

-- `%lu` and `%d` of `snprintf`
unfoldable pub decimal : ℕ → Bytes
unfolding decimal_onto
decimal n = decimal_onto (n + 1) n []

unfoldable pub signed_decimal : ℤ → Bytes
unfolding decimal
signed_decimal (pos n) = decimal n
signed_decimal (negsuc n) = b'-' ∷ decimal (n + 1)
