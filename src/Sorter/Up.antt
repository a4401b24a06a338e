-- ===== src/Sorter/Up.antt =====
-- The loop of `RowSortedSet::insert`.
use mathlib.Core.List.Perm
use native.Mathlib.Decide.{ℕ_discrete}
use naemon_livestatus.Prelude.{
  ℕ, zero, suc, ◌<◌, ◌≡◌, ◌≢◌, refl, List, Perm, some, arith, length, get_or, set, length-set,
  get_or-set, set_move-perm, get_or-set_move, length-set-set, get_elem?-get_or, ◌>>=◌, ℤ, is_neg,
  Bool-cases, inl, inr, false, ◌==◌,
}
use naemon_livestatus.Sorter.{parent, sift_up}
use naemon_livestatus.Sorter.Order.{IsOrder, Le, IsHeap, le_of_before, le_of_not_before}

module _ {ℓ} {Row : Type ℓ} {compare : Row → Row → ℤ} (o : IsOrder compare) (d : Row) where
  -- only the edge above `i` may be out of order
  pub record UpInv (a : List Row) (i : ℕ) : Type ℓ where
    pub inside : i < length a
    pub edges :
        (c : ℕ) → 0 < c → c < length a → c ≢ i → Le compare (get_or a c d) (get_or a (parent c) d)
    pub bridged :
        (c : ℕ)
        → 0 < c
        → c < length a
        → parent c ≡ i
        → 0 < i
        → Le compare (get_or a c d) (get_or a (parent i) d)

  module _ (h : List Row) (row : Row) (i : ℕ) (v : UpInv (set h i row) i) (up : 0 < i) where
    abbrev p : Row
    p = get_or h (parent i) d

    abbrev next : List Row
    next = set (set h i p) (parent i) row

    inside : i < length h
    inside = omega (arith, v.inside, length-set h i row)

    move-edges :
        Le compare p row
        → (c : ℕ) → 0 < c
        → c < length next
        → c ≢ parent i
        → Le compare (get_or next c d) (get_or next (parent c) d)
    move-edges below c pc lc ne = ground (
      arith,
      inside,
      length-set-set h i (parent i) p row,
      length-set h i row,
      get_or-set_move h i (parent i) row d c,
      get_or-set_move h i (parent i) row d (parent c),
      get_or-set h i c row d,
      get_or-set h i (parent c) row d,
      get_or-set h i (parent i) row d,
      v.edges c,
      v.bridged c,
      o.trans (get_or h c d) p row,
    )

    move-bridged :
        (c : ℕ)
        → 0 < c
        → c < length next
        → parent c ≡ parent i
        → 0 < parent i
        → Le compare (get_or next c d) (get_or next (parent (parent i)) d)
    move-bridged c pc lc e pp = ground (
      arith,
      inside,
      length-set-set h i (parent i) p row,
      length-set h i row,
      get_or-set_move h i (parent i) row d c,
      get_or-set_move h i (parent i) row d (parent (parent i)),
      get_or-set h i c row d,
      get_or-set h i (parent (parent i)) row d,
      get_or-set h i (parent i) row d,
      v.edges c,
      v.edges (parent i),
      o.trans (get_or h c d) p (get_or h (parent (parent i)) d),
    )

    move-UpInv : Le compare p row → UpInv next (parent i)
    move-UpInv below = record {
      inside = omega (arith, inside, length-set-set h i (parent i) p row);
      edges = move-edges below;
      bridged = move-bridged;
    }

  settled :
      (a : List Row) (i : ℕ)
      → UpInv a i
      → (0 < i → Le compare (get_or a i d) (get_or a (parent i) d))
      → IsHeap compare d a
  settled a i v last c pc lc = elim (ℕ_discrete c i) [
    | yes e ↦ rw e (last (omega arith))
    | no ne ↦ v.edges c pc lc ne
  ]

  last :
      (h : List Row) (row : Row) (i : ℕ)
      → i < length h
      → 0 < i
      → is_neg (compare (get_or h (parent i) d) row) ≡ false
      → Le compare (get_or (set h i row) i d) (get_or (set h i row) (parent i) d)
  last h row i hi pi less = ground (
    arith,
    get_or-set h i i row d,
    get_or-set h i (parent i) row d,
    le_of_not_before o (get_or h (parent i) d) row,
  )

  -- The loop ends, and leaves a heap of the same rows.
  pub sift_up_lem :
      (fuel : ℕ) (h : List Row) (row : Row) (i : ℕ)
      → i < fuel
      → UpInv (set h i row) i
      → (a : List Row) × (sift_up compare fuel h row i ≡ some a)
        × IsHeap compare d a
        × Perm a (set h i row)
  unfolding sift_up
  sift_up_lem zero h row i f v = absurd (omega arith)
  sift_up_lem (suc fuel) h row i f v = elim (Bool-cases (i == 0)) [
    | inl root ↦ (set h i row, rw (root, ◌>>=◌) refl, settled _ i v (ground arith), Perm.refl _)
    | inr below ↦
        let hi : i < length h = omega (arith, v.inside, length-set h i row) in
        let load = get_elem?-get_or h (parent i) d (omega arith) in
        let up : 0 < i = ground arith in
        elim (Bool-cases (is_neg (compare (get_or h (parent i) d) row))) [
          | inl less ↦
              let (a, e, heap, same) =
                sift_up_lem fuel (set h i (get_or h (parent i) d)) row (parent i) (omega arith)
                  (move-UpInv h row i v up (le_of_before o _ _ less)) in
              (
                a,
                rw (below, load, less) e,
                heap,
                Perm.trans same (set_move-perm h i (parent i) row d hi (omega arith) (omega arith)),
              )
          | inr less ↦ (
            set h i row,
            rw (below, load, less) refl,
            settled _ i v (λ pi. last h row i hi pi less),
            Perm.refl _,
          )
        ]
  ]
