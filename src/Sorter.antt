-- ===== src/Sorter.antt =====
-- src/RowSortedSet.cc and .h: the heap that sorts the result rows of a query. The vector `_heap` is
-- a list. `none` is an access outside the vector, or a loop that ran out of fuel; the children
-- show that neither happens.
use naemon_livestatus.Prelude.{
  ℕ, zero, suc, ◌+◌, ◌-◌, ◌*◌, ◌/◌, Bool, ◌&&◌, List, [], ◌∷◌, ◌++◌, Option, none, some, ◌>>=◌, ltb,
  ◌==◌, if◌then◌else◌, length, get_elem?, set, ℤ, pos, neg, is_pos, is_neg, ltb_ℤ,
}
pub mod Order
pub mod Compare
pub mod Up
pub mod Down
pub mod Insert
pub mod Top

-- `_sort_col_t`: the comparison of the column, and whether it sorts downwards
pub record SortColumn {ℓ} (Row : Type ℓ) : Type ℓ where
  pub compare : Row → Row → ℤ
  pub desc : Bool

module _ {ℓ} {Row : Type ℓ} where
  -- `RowSortedSet::compare`, on the rest of the sort columns
  unfoldable pub compare_columns : List (SortColumn Row) → Row → Row → ℤ
  compare_columns [] a b = pos 0
  compare_columns (c ∷ cs) a b =
      let diff = if c.desc then neg (c.compare a b) else c.compare a b in
      elim diff [ pos zero ↦ compare_columns cs a b | other ↦ other ]

-- `(cur-1)>>1`
abbrev pub parent : ℕ → ℕ
parent cur = (cur - 1) / 2

-- `std::vector::back` and `pop_back`
abbrev pub back {ℓ} : {Row : Type ℓ} → List Row → Option Row
back [] = none
back (x ∷ []) = some x
back (x ∷ y ∷ h) = back (y ∷ h)

abbrev pub pop_back {ℓ} : {Row : Type ℓ} → List Row → List Row
pop_back [] = []
pop_back (x ∷ []) = []
pop_back (x ∷ y ∷ h) = x ∷ pop_back (y ∷ h)

-- The comparison is the one of the sort columns.
module _ {ℓ} {Row : Type ℓ} (compare : Row → Row → ℤ) where
  -- the loop of `insert`: the hole at `cur` moves up while its parent sorts before `row`
  unfoldable pub sift_up : ℕ → List Row → Row → ℕ → Option (List Row)
  sift_up zero h row cur = none
  sift_up (suc fuel) h row cur =
      let rise = do
        p ← get_elem? h (parent cur)
        let next = sift_up fuel (set h cur p) row (parent cur)
        if is_neg (compare p row) then next else some (set h cur row)
      in if cur == 0 then some (set h cur row) else rise

  -- the choice between the children of the hole in `extract`
  unfoldable pub larger_child : List Row → ℕ → Option ℕ
  larger_child h cur =
      let child = 2 * cur + 1 in
      let both = do
        r ← get_elem? h (child + 1)
        l ← get_elem? h child
        some (if is_pos (compare r l) then child + 1 else child)
      in if ltb (child + 1) (length h) then both else some child

  -- the loop of `extract`: the hole at `cur` moves down while its larger child sorts after `last`
  unfoldable pub sift_down : ℕ → List Row → Row → ℕ → Option (List Row)
  sift_down zero h last cur = none
  sift_down (suc fuel) h last cur =
      let sink = do
        child ← larger_child h cur
        c ← get_elem? h child
        let next = sift_down fuel (set h cur c) last child
        if is_pos (compare c last) then next else some (set h cur last)
      in if ltb (2 * cur + 1) (length h) then sink else some (set h cur last)

  -- `RowSortedSet::extract`: the result is null if the heap is empty
  unfoldable pub extract : List Row → Option (Option Row × List Row)
  unfolding sift_down
  extract [] = some (none, [])
  extract (row ∷ []) = some (some row, [])
  extract (row ∷ x ∷ h) = do
    last ← back (x ∷ h)
    h' ← sift_down (length h + 1) (pop_back (row ∷ x ∷ h)) last 0
    some (some row, h')

  -- `RowSortedSet::insert`
  unfoldable pub insert : List Row → Row → ℤ → Option (List Row)
  unfolding sift_up extract
  insert h row limit = do
    let grown = h ++ row ∷ []
    h' ← sift_up (length grown) grown row (length grown - 1)
    let shrunk = do (row', rest) ← extract h'; some rest
    if is_pos limit && ltb_ℤ limit (pos (length h')) then shrunk else some h'
