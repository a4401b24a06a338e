-- ===== src/Query/Paging/Plain.antt =====
-- `Limit:` and `Offset:` without `Sort:`.
use mathlib.Core.Bool.{true≢false}
use naemon_livestatus.Prelude.{
  ℕ, zero, suc, ◌+◌, ◌-◌, ◌≤◌, ◌<◌, ◌≡◌, refl, ap, ap₂, sym, ◌∙◌, List, [], ◌∷◌, if◌then◌else◌,
  arith, length, take, drop, max, leb, ltb, ◌&&◌, Bool, true, false, ℤ, pos, ltb_ℤ, leb_ℤ, ◌+ℤ◌,
  ◌-ℤ◌, ◌^◌,
}
use naemon_livestatus.Query.Paging.{add_int, plain_page}
use naemon_livestatus.Query.Paging.Cut.{add_int-pos}

-- the two tests of a row, and the rest of the page
abbrev step {ℓ} : {Row : Type ℓ} → Bool → Bool → Bool → ℕ → Row → List Row × ℕ → List Row × ℕ
step wrapped over before line row rest =
    if over
    then (if wrapped then rest else ([], suc line))
    else if before
    then rest
    else (row ∷ rest.0, rest.1)

over_limit : ℕ → ℕ → ℕ → Bool
over_limit limit offset line =
    leb_ℤ (pos 0) (pos limit) && ltb_ℤ (add_int (pos offset) (pos limit)) (pos (suc line))

over_limit_lem :
    (limit offset line : ℕ)
    → offset + limit < 2 ^ 31
    → over_limit limit offset line ≡ ltb (offset + limit) (suc line)
unfolding over_limit
over_limit_lem limit offset line b =
    ap (λ sum. leb_ℤ (pos 0) (pos limit) && ltb_ℤ sum (pos (suc line))) (add_int-pos offset limit b)
    ∙ ground arith

over_limit_overflow :
    (limit offset line : ℕ)
    → limit < 2 ^ 31
    → offset < 2 ^ 31
    → 2 ^ 31 ≤ offset + limit
    → over_limit limit offset line ≡ true
unfolding over_limit add_int ◌+ℤ◌ ◌-ℤ◌
over_limit_overflow limit offset line l o b = ground arith

no_step {ℓ} :
    {Row : Type ℓ} (wrapped over before : Bool) (line : ℕ) (row : Row) (rest : List Row × ℕ)
    → over ≡ true
    → rest.0 ≡ []
    → (step wrapped over before line row rest).0 ≡ []
no_step true true before line row rest e h = h
no_step false true before line row rest e h = refl
no_step wrapped false before line row rest e h = absurd (true≢false (sym e))

before_offset : (offset line : ℕ) → leb_ℤ (pos (suc line)) (pos offset) ≡ leb (suc line) offset
before_offset offset line = ground arith

cut_none {ℓ} : {A : Type ℓ} (n m : ℕ) → take {A = A} n (drop m []) ≡ []
cut_none zero m = refl
cut_none (suc n) zero = refl
cut_none (suc n) (suc m) = refl

module _ {ℓ} {Row : Type ℓ} where
  shown :
      (limit offset line : ℕ) (row : Row) (rows rest : List Row)
      → offset ≤ line
      → line < offset + limit
      → rest ≡ take (offset + limit - max (suc line) offset) (drop (offset - suc line) rows)
      → row ∷ rest ≡ take (offset + limit - max line offset) (drop (offset - line) (row ∷ rows))
  shown limit offset line row rows rest h k e =
      let none_left : offset - line ≡ 0 = omega arith in
      let none_after : offset - suc line ≡ 0 = omega arith in
      let size : offset + limit - max line offset ≡ suc (offset + limit - max (suc line) offset) =
        omega arith in
      ap (◌∷◌ row)
        (e ∙ ap (λ n. take (offset + limit - max (suc line) offset) (drop n rows)) none_after)
      ∙ sym (ap₂ (λ n m. take n (drop m (row ∷ rows))) size none_left)

  page_step :
      (wrapped over before : Bool) (limit offset line : ℕ) (row : Row) (rows : List Row)
      (rest : List Row × ℕ)
      → over ≡ ltb (offset + limit) (suc line)
      → before ≡ leb (suc line) offset
      → rest.0 ≡ take (offset + limit - max (suc line) offset) (drop (offset - suc line) rows)
      → (step wrapped over before line row rest).0
        ≡ take (offset + limit - max line offset) (drop (offset - line) (row ∷ rows))
  page_step true true before limit offset line row rows rest o b e =
      let after : offset + limit - max (suc line) offset ≡ 0 = ground arith in
      let now : offset + limit - max line offset ≡ 0 = ground arith in
      e
      ∙ ap (λ n. take n (drop (offset - suc line) rows)) after
      ∙ sym (ap (λ n. take n (drop (offset - line) (row ∷ rows))) now)
  page_step false true before limit offset line row rows rest o b e =
      let now : offset + limit - max line offset ≡ 0 = ground arith in
      sym (ap (λ n. take n (drop (offset - line) (row ∷ rows))) now)
  page_step wrapped false true limit offset line row rows rest o b e =
      let size : offset + limit - max (suc line) offset ≡ offset + limit - max line offset =
        ground arith in
      let left : offset - line ≡ suc (offset - suc line) = ground arith in
      e
      ∙ ap (λ n. take n (drop (offset - suc line) rows)) size
      ∙ sym (ap (λ m. take (offset + limit - max line offset) (drop m (row ∷ rows))) left)
  page_step wrapped false false limit offset line row rows rest o b e =
      shown limit offset line row rows rest.0 (ground arith) (ground arith) e

  plain_page_from :
      (wrapped : Bool) (limit offset line : ℕ) (rows : List Row)
      → offset + limit < 2 ^ 31
      → (plain_page wrapped (pos limit) (pos offset) line rows).0
        ≡ take (offset + limit - max line offset) (drop (offset - line) rows)
  unfolding plain_page over_limit
  plain_page_from wrapped limit offset line [] b = sym (cut_none _ _)
  plain_page_from wrapped limit offset line (row ∷ rows) b =
      page_step wrapped (over_limit limit offset line) (leb_ℤ (pos (suc line)) (pos offset)) limit
        offset line row rows (plain_page wrapped (pos limit) (pos offset) (suc line) rows)
        (over_limit_lem limit offset line b) (before_offset offset line)
        (plain_page_from wrapped limit offset (suc line) rows b)

  -- Without Sort:, a query with a Limit: and an Offset: with a sum below 2 ^ 31 prints limit rows
  -- (or as many as there are) from the place offset on in the order of the table, in the wrapped
  -- format and in the others.
  pub plain_page-limit :
      (wrapped : Bool) (limit offset : ℕ) (rows : List Row)
      → offset + limit < 2 ^ 31
      → (plain_page wrapped (pos limit) (pos offset) 0 rows).0 ≡ take limit (drop offset rows)
  plain_page-limit wrapped limit offset rows b =
      let size : offset + limit - max 0 offset ≡ limit = omega arith in
      let all : offset - 0 ≡ offset = omega arith in
      plain_page_from wrapped limit offset 0 rows b ∙ ap₂ (λ n m. take n (drop m rows)) size all

  count_step :
      (over before : Bool) (line : ℕ) (row : Row) (rest : List Row × ℕ)
      → (step true over before line row rest).1 ≡ rest.1
  count_step true before line row rest = refl
  count_step false true line row rest = refl
  count_step false false line row rest = refl

  count_from :
      (limit offset : ℤ) (line : ℕ) (rows : List Row)
      → (plain_page true limit offset line rows).1 ≡ line + length rows
  unfolding plain_page
  count_from limit offset line [] = omega arith
  count_from limit offset line (row ∷ rows) =
      let next = count_from limit offset (suc line) rows in
      count_step (leb_ℤ (pos 0) limit && ltb_ℤ (add_int offset limit) (pos (suc line))) _ line row _
      ∙ next
      ∙ omega arith

  -- In the wrapped format, every row that is accepted is counted, whatever the limit and the offset
  -- are.
  pub plain_page_count :
      (limit offset : ℤ) (rows : List Row) → (plain_page true limit offset 0 rows).1 ≡ length rows
  plain_page_count limit offset rows = count_from limit offset 0 rows ∙ omega arith

  -- With a limit and an offset that fit into 31 bits and a sum that does not, no row is printed.
  pub plain_page_overflow :
      (wrapped : Bool) (limit offset line : ℕ) (rows : List Row)
      → limit < 2 ^ 31
      → offset < 2 ^ 31
      → 2 ^ 31 ≤ offset + limit
      → (plain_page wrapped (pos limit) (pos offset) line rows).0 ≡ []
  unfolding plain_page over_limit
  plain_page_overflow wrapped limit offset line [] l o b = refl
  plain_page_overflow wrapped limit offset line (row ∷ rows) l o b =
      let over : over_limit limit offset line ≡ true =
        over_limit_overflow limit offset line l o b in
      no_step wrapped (over_limit limit offset line) _ line row _ over
        (plain_page_overflow wrapped limit offset (suc line) rows l o b)
