-- ===== src/Query/Run/Heap.antt =====
-- The heap of rows of src/Query.cc that a run fills: its calls of `RowSorter::insert` end.
use mathlib.Core.Option.{none-ne-some}
use mathlib.Core.Bool.{true≢false}
use naemon_livestatus.Prelude.{
  true, List, [], ◌∷◌, some, ◌>>=◌, ℤ, pos, negsuc, ◌≤ℤ◌, is_pos, ◌≡◌, refl, sym, ap, ◌∙◌, inl, inr,
  subst, Option-cases, arith,
}
use naemon_livestatus.Sorter.{insert}
use naemon_livestatus.Sorter.Order.{IsOrder}
use naemon_livestatus.Sorter.Top.{insert_all, insert_all-Holds}
use naemon_livestatus.Query.Paging.Limits.{nothing-Holds}
use naemon_livestatus.Query.Paging.{add_int}
use naemon_livestatus.Query.Run.{Plan, Run}

above_zero : (limit : ℤ) → is_pos limit ≡ true → pos 0 ≤ℤ limit
above_zero (pos n) h = omega arith
above_zero (negsuc n) h = absurd (true≢false (sym h))

inserts :
    {Row : Type 0} {compare : Row → Row → ℤ} (o : IsOrder compare) (limit : ℤ) (xs : List Row)
    → (h : List Row) × (insert_all compare limit [] xs ≡ some h)
unfolding insert_all
inserts o limit [] = ([], refl)
inserts o limit (x ∷ xs) =
    let (h, _, e, _) =
      insert_all-Holds o x limit [] [] [] (x ∷ xs) (nothing-Holds o x limit (above_zero limit)) in
    (h, e)

module _ {Row Agg : Type 0} (p : Plan Row Agg) where
  -- the calls of the heap end, whatever rows come
  abbrev pub Inserts : List Row → Type 0
  Inserts h =
      (xs : List Row)
      → (h' : List Row) × (insert_all p.compare (add_int p.limit p.offset) h xs ≡ some h')

  pub first_insert :
      (h : List Row) (row : Row)
      → Inserts h
      → (h' : List Row) × (insert p.compare h row (add_int p.limit p.offset) ≡ some h')
  unfolding insert_all
  first_insert h row i =
      let (_, e) = i (row ∷ []) in
      elim (Option-cases (insert p.compare h row (add_int p.limit p.offset))) [
        | inl n ↦ absurd (none-ne-some _ (rw n at e))
        | inr r ↦ r
      ]

  module _ (before : List Row) (row : Row) (h : List Row)
      (inserted : insert p.compare before row (add_int p.limit p.offset) ≡ some h) where
    pub insert_rest :
        (xs : List Row)
        → insert_all p.compare (add_int p.limit p.offset) before (row ∷ xs)
          ≡ insert_all p.compare (add_int p.limit p.offset) h xs
    unfolding insert_all
    insert_rest xs =
        ap (λ o. o >>= (λ h'. insert_all p.compare (add_int p.limit p.offset) h' xs)) inserted

    pub after-Inserts : Inserts before → Inserts h
    after-Inserts i xs = let (h', e) = i (row ∷ xs) in (h', sym (insert_rest xs) ∙ e)

  pub started-Inserts : IsOrder p.compare → (r : Run Row Agg) → r.heap ≡ [] → Inserts r.heap
  started-Inserts o r empty = subst Inserts (sym empty) (inserts o (add_int p.limit p.offset))
