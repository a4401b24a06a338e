-- ===== src/Query/Paging/Limits.antt =====
-- The page that a query with `Sort:` prints.
use mathlib.Core.Bool.{true≢false}
use mathlib.Core.List.Perm
use naemon_livestatus.Prelude.{
  ℕ, zero, suc, ◌+◌, ◌-◌, ◌≤◌, ◌<◌, ◌≡◌, ◌⊎◌, inl, inr, refl, ap, sym, ◌∙◌, subst, Perm, List, [],
  ◌∷◌, ◌++◌, some, ◌>>=◌, arith, length, length-append, take, take_all, take-append, drop, All,
  All-append, All-map, All-perm, All-prop, length-perm, append-nil, true, ℤ, pos, negsuc, is_pos,
  ◌≤ℤ◌, ◌^◌,
}
use naemon_livestatus.Sorter.{extract}
use naemon_livestatus.Sorter.Top.{insert_all, Holds, insert_all-Holds}
use naemon_livestatus.Sorter.Order.{IsOrder, Le, Le-prop, IsSorted}
use naemon_livestatus.Query.Paging.{add_int, num_elems, drain, sorted_page}
use naemon_livestatus.Query.Paging.Sorted.{Drained, drain_lem}
use naemon_livestatus.Query.Paging.Cut.{
  drop_over, page_lem, num_elems_lem, num_elems_zero, num_elems_whole, no_limit, add_int-pos,
  num_elems_offset, offset_limit,
}

module _ {ℓ} {Row : Type ℓ} {compare : Row → Row → ℤ} (o : IsOrder compare) (d : Row) where
  IsSorted-append :
      (xs ys : List Row)
      → IsSorted compare xs
      → IsSorted compare ys
      → All (λ y. All (λ x. Le compare x y) xs) ys
      → IsSorted compare (xs ++ ys)
  IsSorted-append [] ys s t v = t
  IsSorted-append (x ∷ xs) ys s t v = (
    All-append (Le compare x) xs ys s.0 (All-map ys (λ y a. a.0) v),
    IsSorted-append xs ys s.1 t (All-map ys (λ y a. a.1) v),
  )

  pub nothing-Holds :
      (limit : ℤ) → (is_pos limit ≡ true → pos 0 ≤ℤ limit) → Holds o d limit [] [] []
  nothing-Holds limit b = record {
    heap = λ c p q. absurd (omega arith);
    same = Perm.refl _;
    before = tt;
    bounded = b;
    full = inl refl;
  }

  -- every list can be sorted, by a heap without a limit
  exists-IsSorted : (rows : List Row) → (s : List Row) × Perm s rows × IsSorted compare s
  exists-IsSorted rows =
      let (h, out, e, v) =
        insert_all-Holds o d (pos 0) [] [] [] rows (nothing-Holds (pos 0) (λ p. omega arith)) in
      let none_out : out ≡ [] = ground (arith, v.full) in
      let (s, t) = drain_lem o d (length h + 1) h v.heap (omega arith) in
      (
        s,
        Perm.trans t.same (
            subst (λ z. Perm z rows) (append-nil h)
              (subst (λ z. Perm (h ++ z) rows) none_out
                (Perm.trans v.same
                  (subst (λ z. Perm (rows ++ []) z) (append-nil rows) (Perm.refl _))))),
        t.ascends,
      )

  -- the heap `h` that the rows end in; `kept` are its rows in order, `gone` the others in order
  record Split (limit : ℤ) (rows h kept gone : List Row) : Type ℓ where
    filled : insert_all compare limit [] rows ≡ some h
    drained : Drained o d (length h + 1) h kept
    size : length kept ≡ length h
    same : Perm (kept ++ gone) rows
    ascends : IsSorted compare (kept ++ gone)
    bounded : is_pos limit ≡ true → pos (length h) ≤ℤ limit
    full : (gone ≡ []) ⊎ ((is_pos limit ≡ true) × (limit ≡ pos (length h)))

  no_rows : (gone out : List Row) → Perm gone out → out ≡ [] → gone ≡ []
  no_rows [] out p e = refl
  no_rows (x ∷ gone) out p e = absurd (omega (arith, length-perm p, ap (length {A = Row}) e))

  exists-Split :
      (limit : ℤ) (rows : List Row)
      → (is_pos limit ≡ true → pos 0 ≤ℤ limit)
      → (h kept gone : List Row) × Split limit rows h kept gone
  exists-Split limit rows b =
      let (h, out, e, v) = insert_all-Holds o d limit [] [] [] rows (nothing-Holds limit b) in
      let (kept, t) = drain_lem o d (length h + 1) h v.heap (omega arith) in
      let (gone, p, q) = exists-IsSorted out in
      let later : All (λ y. All (λ x. Le compare x y) kept) gone =
        All-perm _ (λ y. All-prop _ (λ x. Le-prop compare x y) kept) (Perm.symm p)
          (All-map out (λ y a. All-perm _ (λ x. Le-prop compare x y) (Perm.symm t.same) a)
            v.before) in
      (
        h,
        kept,
        gone,
        record {
          filled = e;
          drained = t;
          size = length-perm t.same;
          same =
              Perm.trans (Perm.append t.same p) (subst (Perm (h ++ out)) (append-nil rows) v.same);
          ascends = IsSorted-append kept gone t.ascends q later;
          bounded = v.bounded;
          full = elim v.full [ inl none_out ↦ inl (no_rows gone out p none_out) | inr w ↦ inr w ];
        },
      )

  filled_page :
      (limit offset sum : ℤ) (rows h : List Row)
      → add_int limit offset ≡ sum
      → insert_all compare sum [] rows ≡ some h
      → sorted_page compare limit offset rows
        ≡ drain compare (length h + 1) (num_elems limit offset (length h)) h []
  unfolding sorted_page
  filled_page limit offset sum rows h e f =
      ap (λ o. o >>= (λ h. drain compare (length h + 1) (num_elems limit offset (length h)) h []))
        (ap (λ l. insert_all compare l [] rows) e ∙ f)

  abbrev Page : ℤ → ℤ → List Row → (List Row → List Row) → Type ℓ
  Page limit offset rows cut =
      (s : List Row) × Perm s rows
      × IsSorted compare s
      × (sorted_page compare limit offset rows ≡ some (cut s))

  some-Page :
      (limit offset : ℕ) (rows : List Row)
      → 0 < limit + offset
      → limit + offset < 2 ^ 31
      → Page (pos limit) (pos offset) rows (λ s. take limit (drop offset s))
  some-Page limit offset rows w b =
      let (h, kept, gone, t) = exists-Split (pos (limit + offset)) rows (λ p. omega arith) in
      let fits : length h ≤ limit + offset = ground (arith, t.bounded) in
      let all : (gone ≡ []) ⊎ (length kept ≡ limit + offset) = ground (arith, t.full, t.size) in
      (
        kept ++ gone,
        t.same,
        t.ascends,
        filled_page (pos limit) (pos offset) _ rows h (add_int-pos limit offset b) t.filled
            ∙ ap (λ n. drain compare (length h + 1) n h [])
                (num_elems_lem limit offset (length h) fits b)
            ∙ t.drained.counted (length h - offset) []
            ∙ ap some (
                append-nil _
                ∙ ap (λ n. drop (n - (n - offset)) kept) (sym t.size)
                ∙ page_lem limit offset kept gone (omega (arith, t.size)) all),
      )

  empty-Page : (rows : List Row) → Page (pos 0) (pos 0) rows (λ s. [])
  empty-Page rows =
      let (h, kept, gone, t) = exists-Split (pos 0) rows (λ p. omega arith) in
      (
        kept ++ gone,
        t.same,
        t.ascends,
        filled_page (pos 0) (pos 0) _ rows h (add_int-pos 0 0 (omega arith)) t.filled
            ∙ ap (λ n. drain compare (length h + 1) n h []) (num_elems_zero (length h))
            ∙ t.drained.counted 0 []
            ∙ ap some (append-nil _ ∙ drop_over (length h - 0) kept (omega (arith, t.size))),
      )

  limited-Page :
      (limit offset : ℕ) (rows : List Row)
      → limit + offset < 2 ^ 31
      → Page (pos limit) (pos offset) rows (λ s. take limit (drop offset s))
  limited-Page zero zero rows b = empty-Page rows
  limited-Page zero (suc offset) rows b = some-Page zero (suc offset) rows (omega arith) b
  limited-Page (suc limit) offset rows b = some-Page (suc limit) offset rows (omega arith) b

  -- neither is given
  whole-Page : (rows : List Row) → Page (negsuc 0) (pos 0) rows (λ s. s)
  whole-Page rows =
      let (h, kept, gone, t) = exists-Split (negsuc 0) rows (λ p. absurd (true≢false (sym p))) in
      let all : gone ≡ [] = elim t.full [ inl e ↦ e | inr w ↦ absurd (true≢false (sym w.0)) ] in
      (
        kept ++ gone,
        t.same,
        t.ascends,
        filled_page (negsuc 0) (pos 0) _ rows h no_limit t.filled
            ∙ ap (λ n. drain compare (length h + 1) n h []) (num_elems_whole (length h))
            ∙ t.drained.whole 0 []
            ∙ ap some (append-nil kept ∙ sym (ap (◌++◌ kept) all ∙ append-nil kept)),
      )

  -- an offset of at least two, and no limit: the heap holds one row less than the offset
  offset-Page :
      (k : ℕ) (rows : List Row)
      → k < length rows
      → suc (suc k) < 2 ^ 31
      → Page (negsuc 0) (pos (suc (suc k))) rows (take (suc k))
  offset-Page k rows w b =
      let (h, kept, gone, t) = exists-Split (pos (suc k)) rows (λ p. omega arith) in
      let count : length (kept ++ gone) ≡ length rows = length-perm t.same in
      let size : length h ≡ suc k = elim t.full [
        | inl e ↦
            omega (
              arith,
              t.size,
              count,
              length-append kept gone,
              ap (length {A = Row}) e,
              t.bounded refl,
            )
        | inr (p, e) ↦ ground (arith, e)
      ] in
      (
        kept ++ gone,
        t.same,
        t.ascends,
        filled_page (negsuc 0) (pos (suc (suc k))) _ rows h (offset_limit k b) t.filled
            ∙ ap (λ n. drain compare (length h + 1) n h []) (num_elems_offset k (length h) size b)
            ∙ t.drained.whole 0 []
            ∙ ap some (
                append-nil kept
                ∙ sym (
                    ap (λ n. take n (kept ++ gone)) (sym size ∙ sym t.size)
                    ∙ take-append kept gone)),
      )

no_page {ℓ} :
    {Row : Type ℓ} (compare : Row → Row → ℤ) (limit offset : ℤ)
    → sorted_page compare limit offset [] ≡ some []
unfolding sorted_page drain extract insert_all
no_page compare limit offset = refl

module _ {ℓ} {Row : Type ℓ} {compare : Row → Row → ℤ} (o : IsOrder compare) where
  -- For a comparison of rows that is an order: a query with Sort:, a Limit: of limit and an Offset:
  -- of offset, either of which may be 0 and which have a sum below 2 ^ 31, prints limit rows (or as
  -- many as there are) from the place offset on of its rows in ascending order; the calls of the
  -- heap all end.
  pub sorted_page-limit :
      (limit offset : ℕ) (rows : List Row)
      → limit + offset < 2 ^ 31
      → (s : List Row) × Perm s rows
        × IsSorted compare s
        × (sorted_page compare (pos limit) (pos offset) rows ≡ some (take limit (drop offset s)))
  sorted_page-limit limit offset [] b = (
    [],
    Perm.refl _,
    tt,
    no_page compare (pos limit) (pos offset)
        ∙ ap some (
            sym (
              ap (take limit) (drop_over offset [] (omega arith))
              ∙ take_all limit [] (omega arith))),
  )
  sorted_page-limit limit offset (r ∷ rows) b = limited-Page o r limit offset (r ∷ rows) b

  -- For a comparison that is an order, a query with Sort: and neither Limit: nor Offset: prints all
  -- its rows in ascending order.
  pub sorted_page_whole :
      (rows : List Row)
      → (s : List Row) × Perm s rows
        × IsSorted compare s
        × (sorted_page compare (negsuc 0) (pos 0) rows ≡ some s)
  sorted_page_whole [] = ([], Perm.refl _, tt, no_page compare (negsuc 0) (pos 0))
  sorted_page_whole (r ∷ rows) = whole-Page o r (r ∷ rows)

  -- For a comparison that is an order: a query with Sort:, an Offset: of k + 2 below 2 ^ 31 and no
  -- Limit:, on more than k rows, prints the first k + 1 of them in ascending order, and none of
  -- those from the offset on.
  pub sorted_page-offset :
      (k : ℕ) (rows : List Row)
      → k < length rows
      → suc (suc k) < 2 ^ 31
      → (s : List Row) × Perm s rows
        × IsSorted compare s
        × (sorted_page compare (negsuc 0) (pos (suc (suc k))) rows ≡ some (take (suc k) s))
  sorted_page-offset k [] h b = absurd (omega arith)
  sorted_page-offset k (r ∷ rows) h b = offset-Page o r k (r ∷ rows) h b
