-- ===== src/Sorter/Insert.antt =====
-- `RowSortedSet::extract` and `RowSortedSet::insert` on a heap.
use mathlib.Core.List.Perm
use naemon_livestatus.Prelude.{
  ℕ, suc, ◌+◌, ◌-◌, ◌<◌, ◌≡◌, refl, List, [], ◌∷◌, ◌++◌, Perm, ◌∙◌, sym, subst, Bool, some, arith,
  length, set, get_or-set, length-append, get_or-append, All, ℤ, pos, is_pos, ltb_ℤ, Bool-cases,
  inl, inr, ◌&&◌, true, false, ap, All-perm, All_of_get_or, length-perm,
}
use naemon_livestatus.Sorter.{back, pop_back, parent, sift_up, extract, insert}
use naemon_livestatus.Sorter.Order.{IsOrder, Le, IsHeap, Le-prop, root_last}
use naemon_livestatus.Sorter.Up.{UpInv, sift_up_lem}
use naemon_livestatus.Sorter.Down.{DownInv, sift_down_lem}

-- whether `insert` takes a row out again
abbrev pub overflows : ℕ → ℤ → Bool
overflows size limit = is_pos limit && ltb_ℤ limit (pos size)

-- the vector's last entry, and the others
module _ {ℓ} {A : Type ℓ} where
  back_lem :
      (x : A) (xs : List A)
      → (l : A) × (back (x ∷ xs) ≡ some l) × (pop_back (x ∷ xs) ++ l ∷ [] ≡ x ∷ xs)
  back_lem x [] = (x, refl, refl)
  back_lem x (y ∷ xs) = let (l, e, f) = back_lem y xs in (l, e, ap (◌∷◌ x) f)

  pub concat-perm : (xs : List A) (x : A) → Perm (xs ++ x ∷ []) (x ∷ xs)
  concat-perm [] x = Perm.refl _
  concat-perm (y ∷ xs) x = Perm.trans (Perm.cons y (concat-perm xs x)) (Perm.swap x y xs)

  set-concat : (xs : List A) (x : A) → set (xs ++ x ∷ []) (length xs) x ≡ xs ++ x ∷ []
  set-concat [] x = refl
  set-concat (y ∷ xs) x = ap (◌∷◌ y) (set-concat xs x)

module _ {ℓ} {Row : Type ℓ} {compare : Row → Row → ℤ} (o : IsOrder compare) (d : Row) where
  -- what `extract` leaves of a heap that holds `row` at its root
  pub record Extracted (row : Row) (h h' : List Row) : Type ℓ where
    pub heap : IsHeap compare d h'
    pub same : Perm (row ∷ h') h
    pub last : All (λ r. Le compare r row) h'

  extract_start :
      (row l : Row) (b : List Row)
      → IsHeap compare d ((row ∷ b) ++ l ∷ [])
      → DownInv o d (set (row ∷ b) 0 l) 0
  extract_start row l b v = record {
    inside = omega arith;
    edges = λ c pc lc ne. ground (
      arith,
      get_or-set (row ∷ b) 0 c l d,
      get_or-set (row ∷ b) 0 (parent c) l d,
      get_or-append (row ∷ b) (l ∷ []) c d,
      get_or-append (row ∷ b) (l ∷ []) (parent c) d,
      length-append (row ∷ b) (l ∷ []),
      v c,
    );
    bridged = λ c pc lc e p. absurd (omega arith);
  }

  all_last :
      (row : Row) (h : List Row)
      → IsHeap compare d (row ∷ h)
      → All (λ r. Le compare r row) (row ∷ h)
  all_last row h v = All_of_get_or _ (row ∷ h) d (λ i li. root_last o d (row ∷ h) i v li)

  pub extract_lem :
      (row : Row) (h : List Row)
      → IsHeap compare d (row ∷ h)
      → (h' : List Row) × (extract compare (row ∷ h) ≡ some (some row, h'))
        × Extracted row (row ∷ h) h'
  unfolding extract
  extract_lem row [] v =
      ([], refl, record { heap = λ c pc lc. absurd (omega arith); same = Perm.refl _; last = tt })
  extract_lem row (x ∷ h) v =
      let (l, e, f) = back_lem x h in
      let b = pop_back (x ∷ h) in
      let size : length b + 1 ≡ length (x ∷ h) =
        omega (arith, length-append b (l ∷ []), ap length f) in
      let start = extract_start row l b (subst (λ z. IsHeap compare d (row ∷ z)) (sym f) v) in
      let (h', done, heap, same) =
        sift_down_lem o d (length h + 1) (row ∷ b) l 0 (omega arith) start in
      let whole : Perm (row ∷ h') (row ∷ x ∷ h) = Perm.cons row (
        Perm.trans same (
          Perm.trans (Perm.symm (concat-perm b l)) (subst (Perm (b ++ l ∷ [])) f (Perm.refl _)))) in
      (
        h',
        rw (e, done) refl,
        record {
          heap = heap;
          same = whole;
          last =
              (All-perm _ (λ r. Le-prop compare r row) (Perm.symm whole)
                (all_last row (x ∷ h) v)).1;
        },
      )

  insert_start :
      (h : List Row) (row : Row) → IsHeap compare d h → UpInv o d (h ++ row ∷ []) (length h)
  insert_start h row v = record {
    inside = omega (arith, length-append h (row ∷ []));
    edges = λ c pc lc ne. ground (
      arith,
      length-append h (row ∷ []),
      v c,
      get_or-append h (row ∷ []) c d,
      get_or-append h (row ∷ []) (parent c) d,
    );
    bridged = λ c pc lc e p. absurd (omega (arith, length-append h (row ∷ [])));
  }

  -- the first half of `insert`: the row is added to the heap
  grown_lem :
      (h : List Row) (row : Row)
      → IsHeap compare d h
      → (a : List Row) × (sift_up compare
            (length (h ++ row ∷ []))
            (h ++ row ∷ [])
            row
            (length (h ++ row ∷ []) - 1)
          ≡ some a)
        × IsHeap compare d a
        × Perm a (row ∷ h)
  grown_lem h row v =
      let size : length (h ++ row ∷ []) - 1 ≡ length h =
        omega (arith, length-append h (row ∷ [])) in
      let start = insert_start h row v in
      let (a, e, heap, same) =
        sift_up_lem o d (length (h ++ row ∷ [])) (h ++ row ∷ []) row _ (omega (arith, start.inside))
          (subst (λ i. UpInv o d (set (h ++ row ∷ []) i row) i) (sym size)
            (subst (λ z. UpInv o d z (length h)) (sym (set-concat h row)) start)) in
      (
        a,
        e,
        heap,
        Perm.trans same (subst (λ z. Perm z (row ∷ h)) (sym unchanged) (concat-perm h row)),
      )
    where
      unchanged : set (h ++ row ∷ []) (length (h ++ row ∷ []) - 1) row ≡ h ++ row ∷ []
      unchanged =
          ap (λ i. set (h ++ row ∷ []) i row) (omega (arith, length-append h (row ∷ [])))
          ∙ set-concat h row

  -- what `insert` makes of a heap
  pub data Inserted (h : List Row) (row : Row) (limit : ℤ) (h' : List Row) : Type ℓ where
    kept : overflows (suc (length h)) limit ≡ false → Perm h' (row ∷ h) → Inserted h row limit h'
    dropped :
        (out : Row)
        → overflows (suc (length h)) limit ≡ true
        → Perm (out ∷ h') (row ∷ h)
        → All (λ r. Le compare r out) h'
        → Inserted h row limit h'

  shrink_lem :
      (a : List Row)
      → IsHeap compare d a
      → 0 < length a
      → (out : Row) × (h' : List Row) × (extract compare a ≡ some (some out, h'))
        × Extracted out a h'
  shrink_lem [] v h = absurd (omega arith)
  shrink_lem (out ∷ a) v h = let (h', e, x) = extract_lem out a v in (out, h', e, x)

  -- For a comparison that is an order, insert into a heap ends with a heap that holds the old rows
  -- and the new one, less, if they would exceed a positive limit, one that no other row sorts after.
  pub insert_lem :
      (h : List Row) (row : Row) (limit : ℤ)
      → IsHeap compare d h
      → (h' : List Row) × (insert compare h row limit ≡ some h')
        × IsHeap compare d h'
        × Inserted h row limit h'
  unfolding insert
  insert_lem h row limit v =
      let (a, e, heap, same) = grown_lem h row v in
      let size = length-perm same in
      elim (Bool-cases (overflows (length a) limit)) [
        | inl over ↦
            let (out, h', taken, x) = shrink_lem a heap (omega (arith, size)) in
            (
              h',
              rw (e, over, taken) refl,
              x.heap,
              Inserted.dropped out (subst (λ n. overflows n limit ≡ true) size over)
                  (Perm.trans x.same same) x.last,
            )
        | inr fits ↦ (
          a,
          rw (e, fits) refl,
          heap,
          Inserted.kept (subst (λ n. overflows n limit ≡ false) size fits) same,
        )
      ]
