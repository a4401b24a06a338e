-- ===== src/Tests/Sorting.antt =====
-- Sorting and cutting: rows that are numbers, sorted by their value.
use mathlib.Core.List.Perm
use naemon_livestatus.Prelude.{
  ℕ, zero, suc, ◌≡◌, refl, true, List, [], ◌∷◌, ◌++◌, some, take, Perm, arith, ℤ, pos, negsuc, ◌-ℤ◌,
  ◌+ℤ◌, inl,
}
use naemon_livestatus.Sorter.{SortColumn, insert, extract, sift_up, sift_down, larger_child}
use naemon_livestatus.Sorter.Order.{IsOrder, IsHeap, IsSorted}
use naemon_livestatus.Sorter.Top.{insert_all, Holds, insert_all-Holds}
use naemon_livestatus.Query.Paging.{add_int, sorted_page, drain, num_elems}
use naemon_livestatus.Query.Paging.Limits.{sorted_page-offset}

-- `IntColumn::compare` on small numbers
abbrev pub by_number : ℕ → ℕ → ℤ
by_number a b = pos a -ℤ pos b

pub by_number-IsOrder : IsOrder by_number
unfolding ◌-ℤ◌
by_number-IsOrder = record { flip = λ a b. ground arith; trans = λ a b c p q. ground arith }

abbrev rows : List ℕ
rows = 5 ∷ 3 ∷ 9 ∷ 1 ∷ []

sorted_page_run : sorted_page by_number (pos 2) (pos 1) rows ≡ some (3 ∷ 5 ∷ [])
unfolding sorted_page drain num_elems insert_all insert extract sift_up sift_down larger_child
    add_int ◌+ℤ◌ ◌-ℤ◌
sorted_page_run = refl

sorted_page-offset_example :
    (s : List ℕ) × Perm s rows
    × IsSorted by_number s
    × (sorted_page by_number (negsuc 0) (pos 3) rows ≡ some (take 2 s))
sorted_page-offset_example = sorted_page-offset by_number-IsOrder 1 rows (omega arith) (omega arith)

abbrev columns : List (SortColumn ℕ)
columns = record { compare = by_number; desc = true } ∷ []

abbrev heap : List ℕ
heap = 5 ∷ 3 ∷ []

heap-IsHeap : IsHeap by_number 0 heap
heap-IsHeap zero p q = absurd (omega arith)
heap-IsHeap (suc zero) p q = unfold ◌-ℤ◌ in refl
heap-IsHeap (suc (suc c)) p q = absurd (omega arith)

nothing_held : Holds by_number-IsOrder 0 (pos 2) [] [] []
nothing_held = record {
  heap = λ c p q. absurd (omega arith);
  same = Perm.refl _;
  before = tt;
  bounded = λ p. omega arith;
  full = inl refl;
}

insert_all-Holds_example :
    (h' out' : List ℕ) × (insert_all by_number (pos 2) [] rows ≡ some h')
    × Holds by_number-IsOrder 0 (pos 2) (rows ++ []) h' out'
insert_all-Holds_example = insert_all-Holds by_number-IsOrder 0 (pos 2) [] [] [] rows nothing_held
