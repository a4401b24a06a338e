-- ===== src/Sorter/Order.antt =====
-- The order that a comparison function stands for, and the heap order.
use naemon_livestatus.Prelude.{
  ℕ, zero, suc, ◌<◌, ◌≡◌, true, false, List, length, get_or, ℤ, is_pos, is_neg, arith, All, [], ◌∷◌,
}
use naemon_livestatus.Sorter.{parent}

-- What a comparison of rows has to keep to: swapping the rows swaps the sign, and "not after" is
-- transitive.
pub record IsOrder {ℓ} {Row : Type ℓ} (compare : Row → Row → ℤ) : Type ℓ where
  pub flip : (a b : Row) → is_neg (compare a b) ≡ is_pos (compare b a)
  pub trans :
      (a b c : Row)
      → is_pos (compare a b) ≡ false
      → is_pos (compare b c) ≡ false
      → is_pos (compare a c) ≡ false

module _ {ℓ} {Row : Type ℓ} (compare : Row → Row → ℤ) where
  -- `a` does not sort after `b`
  abbrev pub Le : Row → Row → Type 0
  Le a b = is_pos (compare a b) ≡ false

  -- every row but the root sorts no later than its parent; `d` is what lies outside the vector
  abbrev pub IsHeap : Row → List Row → Type 0
  IsHeap d h = (c : ℕ) → 0 < c → c < length h → Le (get_or h c d) (get_or h (parent c) d)

  -- ascending
  abbrev pub IsSorted : List Row → Type ℓ
  IsSorted [] = Unit
  IsSorted (x ∷ xs) = All (Le x) xs × IsSorted xs

  pub Le-prop : (a b : Row) → IsProp (Le a b)
  Le-prop a b = hlevel

pos_of : (d : ℤ) → is_neg d ≡ true → is_pos d ≡ false
pos_of d h = ground arith

module _ {ℓ} {Row : Type ℓ} {compare : Row → Row → ℤ} (o : IsOrder compare) where
  pub le_of_after : (a b : Row) → is_pos (compare a b) ≡ true → Le compare b a
  le_of_after a b h = ground (arith, o.flip b a, pos_of (compare b a))

  pub le_of_before : (a b : Row) → is_neg (compare a b) ≡ true → Le compare a b
  le_of_before a b h = pos_of (compare a b) h

  pub le_of_not_before : (a b : Row) → is_neg (compare a b) ≡ false → Le compare b a
  le_of_not_before a b h = ground (arith, o.flip a b)

  pub le_self : (a : Row) → Le compare a a
  le_self a = ground (arith, o.flip a a, pos_of (compare a a))

  root_last_below :
      (k : ℕ) (d : Row) (h : List Row) (i : ℕ)
      → IsHeap compare d h
      → i < k
      → i < length h
      → Le compare (get_or h i d) (get_or h 0 d)
  root_last_below zero d h i v f p = absurd (omega arith)
  root_last_below (suc k) d h zero v f p = le_self (get_or h 0 d)
  root_last_below (suc k) d h (suc i) v f p =
      o.trans _ _ _ (v (suc i) (omega arith) p)
        (root_last_below k d h (parent (suc i)) v (omega arith) (omega arith))

  -- the root of a heap sorts last
  pub root_last :
      (d : Row) (h : List Row) (i : ℕ)
      → IsHeap compare d h
      → i < length h
      → Le compare (get_or h i d) (get_or h 0 d)
  root_last d h i v p = root_last_below (suc i) d h i v (omega arith) p
