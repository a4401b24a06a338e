-- ===== src/Query/Paging.antt =====
-- src/Query.cc: `Sort:`, `Limit:` and `Offset:` in `processDataset` and `finish`. `limit` is -1 without
-- a `Limit:`, and `offset` is 0 without an `Offset:`.
pub mod Sorted
pub mod Cut
pub mod Limits
pub mod Plain
use naemon_livestatus.Prelude.{
  ℕ, zero, suc, ◌+◌, Bool, true, false, ◌&&◌, List, [], ◌∷◌, ◌++◌, Option, none, some, ◌>>=◌,
  if◌then◌else◌, length, ℤ, pos, negsuc, ltb_ℤ, leb_ℤ, ◌+ℤ◌, ◌-ℤ◌, ◌^◌, ◌-◌,
}
use naemon_livestatus.Sorter.{extract}
use naemon_livestatus.Sorter.Top.{insert_all}

-- the sum of two `int`s, which wraps around
unfoldable pub add_int : ℤ → ℤ → ℤ
add_int a b =
    let sum = a +ℤ b in
    if leb_ℤ (pos (2 ^ 31)) sum
    then sum -ℤ pos (2 ^ 32)
    else if ltb_ℤ sum (negsuc (2 ^ 31 - 1))
    then sum +ℤ pos (2 ^ 32)
    else sum

-- `numelems`
unfoldable pub num_elems : ℤ → ℤ → ℕ → ℤ
num_elems limit offset size =
    let rest = pos size -ℤ offset in
    if ltb_ℤ (pos size) (add_int limit offset)
    then (if ltb_ℤ rest (pos 0) then pos 0 else rest)
    else limit

-- `numelems == 0`
abbrev pub is_zero : ℤ → Bool
is_zero (pos zero) = true
is_zero _ = false

module _ {ℓ} {Row : Type ℓ} (compare : Row → Row → ℤ) where
  -- `while (((data = _sorter.extract()) != 0) && numelems--)`; the last entry of `outbuf` comes first, as
  -- it is printed
  unfoldable pub drain : ℕ → ℤ → List Row → List Row → Option (List Row)
  drain zero n h outbuf = none
  drain (suc fuel) n h outbuf = do
    (row?, h') ← extract compare h
    elim row? [
      | none ↦ some outbuf
      | some row ↦
          let rest = drain fuel (n -ℤ pos 1) h' (row ∷ outbuf) in
          if is_zero n then some outbuf else rest
    ]

  -- the rows that a query with `Sort:` prints
  unfoldable pub sorted_page : ℤ → ℤ → List Row → Option (List Row)
  sorted_page limit offset rows = do
    h ← insert_all compare (add_int limit offset) [] rows
    drain (length h + 1) (num_elems limit offset (length h)) h []

-- `processDataset` without `Sort:`, for each row that is accepted: the rows that are printed, and how many
-- were counted. `wrapped` is the output format that also gives the total count.
unfoldable pub plain_page {ℓ} : {Row : Type ℓ} → Bool → ℤ → ℤ → ℕ → List Row → List Row × ℕ
plain_page wrapped limit offset line [] = ([], line)
plain_page wrapped limit offset line (row ∷ rows) =
    let current_line = pos (suc line) in
    let rest = plain_page wrapped limit offset (suc line) rows in
    if leb_ℤ (pos 0) limit && ltb_ℤ (add_int offset limit) current_line
    then (if wrapped then rest else ([], suc line))
    else if leb_ℤ current_line offset
    then rest
    else (row ∷ rest.0, rest.1)
