-- ===== src/Text/Fuel.antt =====
-- The loop over `next_field` of src/strutil.cc comes to an end: a field takes at least a byte of the line.
use mathlib.Core.Option.{none-ne-some}
use naemon_livestatus.Prelude.{
  ℕ, zero, suc, ◌<◌, ◌≤◌, ◌≡◌, refl, ap, sym, ◌∙◌, Bool, true, false, List, [], ◌∷◌, Option, none,
  some, if◌then◌else◌, arith, length, Option-cases, inl, inr,
}
use naemon_livestatus.Text.{Bytes, is_space, lstrip, take_field, next_field, fields}

length-if :
    (b : Bool) (n : ℕ) (s t : Bytes) → length s ≤ n → length t ≤ n → length (if b then s else t) ≤ n
length-if true n s t h k = h
length-if false n s t h k = k

length-lstrip : (s : Bytes) → length (lstrip s) ≤ length s
unfolding lstrip
length-lstrip [] = omega arith
length-lstrip (c ∷ s) =
    length-if (is_space c) (suc (length s)) (lstrip s) (c ∷ s) (omega (arith, length-lstrip s))
      (omega arith)

rest_if :
    (b : Bool) (c : ℕ) (s field rest : Bytes)
    → length rest ≤ length s
    → length (if◌then◌else◌ {A = Bytes × Bytes} b ([], s) (c ∷ field, rest)).1 ≤ length s
rest_if true c s field rest h = omega arith
rest_if false c s field rest h = h

length-take_field : (s : Bytes) → length (take_field s).1 ≤ length s
unfolding take_field
length-take_field [] = omega arith
length-take_field (c ∷ s) =
    let shorter =
      rest_if (is_space c) c s (take_field s).0 (take_field s).1 (length-take_field s) in
    omega (arith, shorter)

take_field_shorter : (c : ℕ) (s : Bytes) → length (take_field (c ∷ s)).1 ≤ length s
unfolding take_field
take_field_shorter c s =
    rest_if (is_space c) c s (take_field s).0 (take_field s).1 (length-take_field s)

abbrev field_of : Bytes → Option Bytes × Bytes
field_of [] = (none, [])
field_of (c ∷ s) = (some (take_field (c ∷ s)).0, (take_field (c ∷ s)).1)

of_line :
    (s : Bytes)
    → (elim s [ [] ↦ (none, []) | c ∷ t ↦ (some (take_field (c ∷ t)).0, (take_field (c ∷ t)).1) ])
      ≡ field_of s
of_line [] = refl
of_line (c ∷ s) = refl

next_field-field_of : (line : Bytes) → next_field line ≡ field_of (lstrip line)
unfolding next_field
next_field-field_of line = of_line (lstrip line)

field_of_shorter :
    (s field : Bytes) → (field_of s).0 ≡ some field → length (field_of s).1 < length s
field_of_shorter [] field e = absurd (none-ne-some _ e)
field_of_shorter (c ∷ s) field e = omega (arith, take_field_shorter c s)

-- a field takes a byte
next_field_shorter :
    (line field : Bytes)
    → (next_field line).0 ≡ some field
    → length (next_field line).1 < length line
next_field_shorter line field e =
    let same = next_field-field_of line in
    let first = ap (λ (z : Option Bytes × Bytes). z.0) same in
    let shorter = field_of_shorter (lstrip line) field (sym first ∙ e) in
    let rest = ap (λ (z : Option Bytes × Bytes). length z.1) same in
    omega (arith, shorter, rest, length-lstrip line)

-- With more fuel than the line has bytes, its fields are all read.
pub fields-some :
    (fuel : ℕ) (line : Bytes)
    → length line < fuel
    → (names : List Bytes) × (fields fuel line ≡ some names)
unfolding fields
fields-some zero line h = absurd (omega arith)
fields-some (suc fuel) line h = elim (Option-cases (next_field line).0) [
  | inl e ↦ ([], rw (e, fields) refl)
  | inr (field, e) ↦
      let (names, more) =
        fields-some fuel (next_field line).1 (omega (arith, next_field_shorter line field e)) in
      (field ∷ names, rw (e, more, fields) refl)
]
