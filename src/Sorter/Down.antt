-- ===== src/Sorter/Down.antt =====
-- The loop of `RowSortedSet::extract`.
use mathlib.Core.List.Perm
use native.Mathlib.Decide.{ℕ_discrete}
use naemon_livestatus.Prelude.{
  ℕ, zero, suc, ◌+◌, ◌*◌, ◌<◌, ◌≤◌, ◌≡◌, ◌≢◌, ◌⊎◌, List, Perm, some, arith, length, get_or, set,
  length-set, length-set-set, get_or-set, get_or-set_move, set_move-perm, get_elem?-get_or, ℤ,
  is_pos, Bool-cases, inl, inr, ltb, ltb→lt,
}
use naemon_livestatus.Sorter.{parent, larger_child, sift_down}
use naemon_livestatus.Sorter.Order.{IsOrder, Le, IsHeap, le_of_after, le_self}

module _ {ℓ} {Row : Type ℓ} {compare : Row → Row → ℤ} (o : IsOrder compare) (d : Row) where
  -- only the edges below `i` may be out of order
  pub record DownInv (a : List Row) (i : ℕ) : Type ℓ where
    pub inside : i < length a
    pub edges :
        (c : ℕ)
        → 0 < c
        → c < length a
        → parent c ≢ i
        → Le compare (get_or a c d) (get_or a (parent c) d)
    pub bridged :
        (c : ℕ)
        → 0 < c
        → c < length a
        → parent c ≡ i
        → 0 < i
        → Le compare (get_or a c d) (get_or a (parent i) d)

  -- `m` is the child of `i` that sorts last
  record IsLargerChild (h : List Row) (i m : ℕ) : Type ℓ where
    inside : m < length h
    child : parent m ≡ i
    pos : 0 < m
    most : (c : ℕ) → 0 < c → c < length h → parent c ≡ i → Le compare (get_or h c d) (get_or h m d)

  most_of_two :
      (h : List Row) (i m n : ℕ)
      → ((c : ℕ) → 0 < c → c < length h → parent c ≡ i → (c ≡ m) ⊎ (c ≡ n))
      → Le compare (get_or h n d) (get_or h m d)
      → (c : ℕ) → 0 < c
      → c < length h
      → parent c ≡ i
      → Le compare (get_or h c d) (get_or h m d)
  most_of_two h i m n two le c pc lc e = elim (two c pc lc e) [
    | inl at ↦ rw at (le_self o (get_or h m d))
    | inr at ↦ rw at le
  ]

  larger_child_lem :
      (h : List Row) (i : ℕ)
      → 2 * i + 1 < length h
      → (m : ℕ) × (larger_child compare h i ≡ some m) × IsLargerChild h i m
  unfolding larger_child
  larger_child_lem h i two = elim (Bool-cases (ltb (2 * i + 1 + 1) (length h))) [
    | inl both ↦
        let hr : 2 * i + 1 + 1 < length h = ground arith in
        let lr = get_elem?-get_or h (2 * i + 1 + 1) d hr in
        let ll = get_elem?-get_or h (2 * i + 1) d two in
        elim (Bool-cases (is_pos (compare (get_or h (2 * i + 1 + 1) d) (get_or h (2 * i + 1) d)))) [
          | inl right ↦ (
            2 * i + 1 + 1,
            rw (both, lr, ll, right),
            record {
              inside = hr;
              child = omega arith;
              pos = omega arith;
              most =
                  most_of_two h i _ (2 * i + 1) (λ c pc lc e. omega arith)
                    (le_of_after o _ _ right);
            },
          )
          | inr left ↦ (
            2 * i + 1,
            rw (both, lr, ll, left),
            record {
              inside = two;
              child = omega arith;
              pos = omega arith;
              most = most_of_two h i _ (2 * i + 1 + 1) (λ c pc lc e. omega arith) left;
            },
          )
        ]
    | inr one ↦ (
      2 * i + 1,
      rw one,
      record {
        inside = two;
        child = omega arith;
        pos = omega arith;
        most = most_of_two h i _ (2 * i + 1) (λ c pc lc e. ground arith) (le_self o _);
      },
    )
  ]

  module _ (h : List Row) (last : Row) (i m : ℕ) (v : DownInv (set h i last) i)
      (s : IsLargerChild h i m) where
    abbrev c : Row
    c = get_or h m d

    abbrev next : List Row
    next = set (set h i c) m last

    inside : i < length h
    inside = omega (arith, v.inside, length-set h i last)

    sink-edges :
        Le compare last c
        → (k : ℕ) → 0 < k
        → k < length next
        → parent k ≢ m
        → Le compare (get_or next k d) (get_or next (parent k) d)
    sink-edges below k pk lk ne = ground (
      arith,
      inside,
      s.child,
      s.pos,
      s.inside,
      length-set-set h i m c last,
      length-set h i last,
      get_or-set_move h i m last d k,
      get_or-set_move h i m last d (parent k),
      get_or-set h i k last d,
      get_or-set h i (parent k) last d,
      v.edges k,
      v.bridged k,
      v.bridged m,
      get_or-set h i m last d,
      s.most k,
    )

    sink-bridged :
        (k : ℕ)
        → 0 < k
        → k < length next
        → parent k ≡ m
        → 0 < m
        → Le compare (get_or next k d) (get_or next (parent m) d)
    sink-bridged k pk lk e pm = ground (
      arith,
      inside,
      s.child,
      s.inside,
      length-set-set h i m c last,
      length-set h i last,
      get_or-set_move h i m last d k,
      get_or-set_move h i m last d (parent m),
      get_or-set h i k last d,
      get_or-set h i m last d,
      v.edges k,
    )

    sink-DownInv : Le compare last c → DownInv next m
    sink-DownInv below = record {
      inside = omega (arith, s.inside, length-set-set h i m c last);
      edges = sink-edges below;
      bridged = sink-bridged;
    }

    settled : Le compare c last → IsHeap compare d (set h i last)
    settled below k pk lk = elim (ℕ_discrete (parent k) i) [
      | yes e ↦ ground (
        arith,
        inside,
        length-set h i last,
        get_or-set h i k last d,
        get_or-set h i (parent k) last d,
        s.most k,
        o.trans (get_or h k d) c last,
      )
      | no ne ↦ v.edges k pk lk ne
    ]

  -- The loop ends, and leaves a heap of the same rows.
  pub sift_down_lem :
      (fuel : ℕ) (h : List Row) (last : Row) (i : ℕ)
      → length h ≤ i + fuel
      → DownInv (set h i last) i
      → (a : List Row) × (sift_down compare fuel h last i ≡ some a)
        × IsHeap compare d a
        × Perm a (set h i last)
  unfolding sift_down
  sift_down_lem zero h last i f v = absurd (omega (arith, v.inside, length-set h i last))
  sift_down_lem (suc fuel) h last i f v = elim (Bool-cases (ltb (2 * i + 1) (length h))) [
    | inl more ↦
        let (m, chosen, s) = larger_child_lem h i (ltb→lt _ _ more) in
        let hi : i < length h = omega (arith, v.inside, length-set h i last) in
        let load = get_elem?-get_or h m d s.inside in
        elim (Bool-cases (is_pos (compare (get_or h m d) last))) [
          | inl after ↦
              let (a, e, heap, same) =
                sift_down_lem fuel (set h i (get_or h m d)) last m
                  (omega (arith, s.pos, s.child, length-set h i (get_or h m d)))
                  (sink-DownInv h last i m v s (le_of_after o _ _ after)) in
              (
                a,
                rw (more, chosen, load, after) e,
                heap,
                Perm.trans same
                    (set_move-perm h i m last d hi s.inside (omega (arith, s.pos, s.child))),
              )
          | inr done ↦ (
            set h i last,
            rw (more, chosen, load, done),
            settled h last i m v s done,
            Perm.refl _,
          )
        ]
    | inr leaf ↦ (
      set h i last,
      rw leaf,
      (λ k pk lk. v.edges k pk lk (ground (arith, length-set h i last))),
      Perm.refl _,
    )
  ]
