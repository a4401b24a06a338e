-- ===== src/Sorter/Top.antt =====
-- What the heap holds after a series of calls of `RowSortedSet::insert`.
use mathlib.Core.List.{Mem, mem-cons, mem-cons_self, not-mem-nil, perm_middle}
use mathlib.Core.List.Perm
use mathlib.Core.Logic.Or
use naemon_livestatus.Prelude.{
  ◌≡◌, ◌⊎◌, inl, inr, refl, ap, sym, ◌∙◌, subst, true, List, [], ◌∷◌, ◌++◌, Perm, Option, some,
  ◌>>=◌, arith, length, length-perm, All, All-perm, All-map, All-prop, append-nil, ℤ, pos, is_pos,
  ◌≤ℤ◌,
}
use naemon_livestatus.Sorter.{insert}
use naemon_livestatus.Sorter.Order.{IsOrder, Le, Le-prop, IsHeap}
use naemon_livestatus.Sorter.Insert.{Inserted, kept, dropped, insert_lem}

-- the calls for a list of rows, in turn
unfoldable pub insert_all {ℓ} :
    {Row : Type ℓ} → (Row → Row → ℤ) → ℤ → List Row → List Row → Option (List Row)
insert_all compare limit h [] = some h
insert_all compare limit h (r ∷ rs) = do
  h' ← insert compare h r limit
  insert_all compare limit h' rs

module _ {ℓ} {Row : Type ℓ} {compare : Row → Row → ℤ} (o : IsOrder compare) (d : Row) where
  -- `h` is a heap of those of `rows` that sort first, as many as the limit admits; `out` are the others
  pub record Holds (limit : ℤ) (rows h out : List Row) : Type ℓ where
    pub heap : IsHeap compare d h
    pub same : Perm (h ++ out) rows
    pub before : All (λ y. All (λ x. Le compare x y) h) out
    pub bounded : is_pos limit ≡ true → pos (length h) ≤ℤ limit
    pub full : (out ≡ []) ⊎ ((is_pos limit ≡ true) × (limit ≡ pos (length h)))

  All_of_mem : (y a : Row) (h : List Row) → All (λ x. Le compare x y) h → Mem a h → Le compare a y
  All_of_mem y a [] v m = absurd (not-mem-nil m)
  All_of_mem y a (x ∷ h) v m =
      Or.elim (Le-prop compare a y) (mem-cons.0 m) (λ e. rw e v.0) (All_of_mem y a h v.1)

  -- a row that lies after all of the heap still does so after one more row came and `out` went
  before_step :
      (h h' : List Row) (row out y : Row)
      → Perm (out ∷ h') (row ∷ h)
      → All (λ r. Le compare r out) h'
      → All (λ x. Le compare x y) h
      → All (λ x. Le compare x y) h'
  before_step h h' row out y same last v =
      Or.elim (All-prop _ (λ x. Le-prop compare x y) h')
        (mem-cons.0 ((Perm.mem_iff same).0 mem-cons_self))
        (λ e.
          All-perm _ (λ x. Le-prop compare x y)
            (Perm.symm (Perm.cons_inv (subst (λ z. Perm (z ∷ h') (row ∷ h)) e same))) v)
        (λ m. All-map h' (λ x le. o.trans x out y le (All_of_mem y out h v m)) last)

  insert_step :
      (limit : ℤ) (rows h out : List Row) (row : Row) (h' : List Row)
      → Holds limit rows h out
      → IsHeap compare d h'
      → Inserted o d h row limit h'
      → (out' : List Row) × Holds limit (row ∷ rows) h' out'
  insert_step limit rows h out row h' v heap (kept fits same) =
      let none_out : out ≡ [] = ground (arith, v.full) in
      (
        [],
        record {
          heap = heap;
          same = Perm.trans (subst (λ z. Perm z (row ∷ h)) (sym (append-nil h')) same) (
              Perm.cons row
                (subst (λ z. Perm z rows) (ap (◌++◌ h) none_out ∙ append-nil h) v.same));
          before = tt;
          bounded = λ p. ground (arith, length-perm same, v.bounded p);
          full = inl refl;
        },
      )
  insert_step limit rows h out row h' v heap (dropped w over same last) = (
    w ∷ out,
    record {
      heap = heap;
      same =
          Perm.trans (perm_middle h' out)
            (Perm.trans (Perm.append same (Perm.refl out)) (Perm.cons row v.same));
      before = (last, All-map out (λ y. before_step h h' row w y same last) v.before);
      bounded = λ p. ground (arith, length-perm same, v.bounded p);
      full = inr (ground (arith, length-perm same, v.bounded));
    },
  )

  insert-Holds :
      (limit : ℤ) (rows h out : List Row) (row : Row)
      → Holds limit rows h out
      → (h' out' : List Row) × (insert compare h row limit ≡ some h')
        × Holds limit (row ∷ rows) h' out'
  insert-Holds limit rows h out row v =
      let (h', e, heap, i) = insert_lem o d h row limit v.heap in
      let (out', v') = insert_step limit rows h out row h' v heap i in (h', out', e, v')

  -- For a comparison that is an order: from a heap that holds, of the rows so far, those that sort
  -- first within the limit, every further call of insert ends, and the heap then holds those of all
  -- the rows together.
  pub insert_all-Holds :
      (limit : ℤ) (rows h out rs : List Row)
      → Holds limit rows h out
      → (h' out' : List Row) × (insert_all compare limit h rs ≡ some h')
        × Holds limit (rs ++ rows) h' out'
  unfolding insert_all
  insert_all-Holds limit rows h out [] v = (h, out, refl, v)
  insert_all-Holds limit rows h out (r ∷ rs) v =
      let (h1, out1, e, v1) = insert-Holds limit rows h out r v in
      let (h', out', f, v') = insert_all-Holds limit (r ∷ rows) h1 out1 rs v1 in
      (
        h',
        out',
        rw e f,
        record {
          heap = v'.heap;
          same = Perm.trans v'.same (perm_middle rs rows);
          before = v'.before;
          bounded = v'.bounded;
          full = v'.full;
        },
      )
