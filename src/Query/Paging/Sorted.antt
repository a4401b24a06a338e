-- ===== src/Query/Paging/Sorted.antt =====
-- `Sort:` with `Limit:` and `Offset:`.
use mathlib.Core.List.Perm
use naemon_livestatus.Prelude.{
  ℕ, zero, suc, ◌-◌, ◌≤◌, ◌<◌, ◌≡◌, refl, ap, sym, ◌∙◌, Perm, List, [], ◌∷◌, ◌++◌, some,
  if◌then◌else◌, arith, length, length-append, drop, All, All-append, All-perm, length-perm,
  append_assoc, ℤ, pos, negsuc, ◌-ℤ◌,
}
use naemon_livestatus.Sorter.{extract}
use naemon_livestatus.Sorter.Order.{IsOrder, Le, Le-prop, IsHeap, IsSorted}
use naemon_livestatus.Sorter.Insert.{extract_lem, concat-perm}
use naemon_livestatus.Query.Paging.{is_zero, drain}

pos-minus_one : (n : ℕ) → pos (suc n) -ℤ pos 1 ≡ pos n
unfolding ◌-ℤ◌
pos-minus_one n = ground arith

negsuc-minus_one : (n : ℕ) → negsuc n -ℤ pos 1 ≡ negsuc (suc n)
unfolding ◌-ℤ◌
negsuc-minus_one n = ground arith

pub drop_all {ℓ} : {A : Type ℓ} (xs : List A) → drop (length xs) xs ≡ []
drop_all [] = refl
drop_all (x ∷ xs) = drop_all xs

drop_none {ℓ} : {A : Type ℓ} (n : ℕ) → drop {A = A} n [] ≡ []
drop_none zero = refl
drop_none (suc n) = refl

module _ {ℓ} {Row : Type ℓ} (compare : Row → Row → ℤ) where
  -- one pass of the loop
  drain_next :
      (fuel : ℕ) (n : ℤ) (row : Row) (h h' outbuf : List Row)
      → extract compare h ≡ some (some row, h')
      → drain compare (suc fuel) n h outbuf
        ≡ (if is_zero n then some outbuf else drain compare fuel (n -ℤ pos 1) h' (row ∷ outbuf))
  unfolding drain
  drain_next fuel n row h h' outbuf e = rw e refl

  drain_end :
      (fuel : ℕ) (n : ℤ) (outbuf : List Row) → drain compare (suc fuel) n [] outbuf ≡ some outbuf
  unfolding drain extract
  drain_end fuel n outbuf = refl

  drop_concat :
      (n : ℕ) (xs : List Row) (x : Row) (ys : List Row)
      → n ≤ length xs
      → drop n (xs ++ x ∷ []) ++ ys ≡ drop n xs ++ x ∷ ys
  drop_concat zero xs x ys h = append_assoc xs (x ∷ []) ys
  drop_concat (suc n) [] x ys h = absurd (omega arith)
  drop_concat (suc n) (y ∷ xs) x ys h = drop_concat n xs x ys (omega arith)

module _ {ℓ} {Row : Type ℓ} {compare : Row → Row → ℤ} (o : IsOrder compare) (d : Row) where
  IsSorted-concat :
      (xs : List Row) (x : Row)
      → IsSorted compare xs
      → All (λ y. Le compare y x) xs
      → IsSorted compare (xs ++ x ∷ [])
  IsSorted-concat [] x s v = (tt, tt)
  IsSorted-concat (y ∷ xs) x s v =
      (All-append (Le compare y) xs (x ∷ []) s.0 (v.0, tt), IsSorted-concat xs x s.1 v.1)

  -- what the loop does to a heap: `sorted` are its rows in order
  pub record Drained (fuel : ℕ) (h sorted : List Row) : Type ℓ where
    pub same : Perm sorted h
    pub ascends : IsSorted compare sorted
    pub counted :
        (n : ℕ) (outbuf : List Row)
        → drain compare fuel (pos n) h outbuf ≡ some (drop (length h - n) sorted ++ outbuf)
    pub whole :
        (n : ℕ) (outbuf : List Row)
        → drain compare fuel (negsuc n) h outbuf ≡ some (sorted ++ outbuf)

  drain_counted :
      (fuel : ℕ) (row : Row) (h h' sorted : List Row)
      → extract compare (row ∷ h) ≡ some (some row, h')
      → length (row ∷ h') ≡ length (row ∷ h)
      → Drained fuel h' sorted
      → (n : ℕ) (outbuf : List Row)
      → drain compare (suc fuel) (pos n) (row ∷ h) outbuf
        ≡ some (drop (length (row ∷ h) - n) (sorted ++ row ∷ []) ++ outbuf)
  drain_counted fuel row h h' sorted e size t zero outbuf =
      let all : length (row ∷ h) - 0 ≡ length (sorted ++ row ∷ []) =
        omega (arith, size, length-perm t.same, length-append sorted (row ∷ [])) in
      drain_next compare fuel (pos 0) row (row ∷ h) h' outbuf e
      ∙ ap (λ xs. some (xs ++ outbuf))
          (sym (ap (λ k. drop k (sorted ++ row ∷ [])) all ∙ drop_all (sorted ++ row ∷ [])))
  drain_counted fuel row h h' sorted e size t (suc n) outbuf =
      let k : length h' - n ≡ length (row ∷ h) - suc n = omega (arith, size) in
      drain_next compare fuel (pos (suc n)) row (row ∷ h) h' outbuf e
      ∙ ap (λ m. drain compare fuel m h' (row ∷ outbuf)) (pos-minus_one n)
      ∙ t.counted n (row ∷ outbuf)
      ∙ ap some (
          sym (
            drop_concat compare (length h' - n) sorted row outbuf
              (omega (arith, length-perm t.same)))
          ∙ ap (λ i. drop i (sorted ++ row ∷ []) ++ outbuf) k)

  pub drain_lem :
      (fuel : ℕ) (h : List Row)
      → IsHeap compare d h
      → length h < fuel
      → (sorted : List Row) × Drained fuel h sorted
  drain_lem zero h v f = absurd (omega arith)
  drain_lem (suc fuel) [] v f = (
    [],
    record {
      same = Perm.refl _;
      ascends = tt;
      counted = λ n outbuf.
          drain_end compare fuel (pos n) outbuf
          ∙ ap (λ xs. some (xs ++ outbuf)) (sym (drop_none (0 - n)));
      whole = λ n outbuf. drain_end compare fuel (negsuc n) outbuf;
    },
  )
  drain_lem (suc fuel) (row ∷ h) v f =
      let (h', e, x) = extract_lem o d row h v in
      let size = length-perm x.same in
      let (sorted, t) = drain_lem fuel h' x.heap (omega arith) in
      (
        sorted ++ row ∷ [],
        record {
          same = Perm.trans (concat-perm sorted row) (Perm.trans (Perm.cons row t.same) x.same);
          ascends =
              IsSorted-concat sorted row t.ascends
                (All-perm _ (λ y. Le-prop compare y row) (Perm.symm t.same) x.last);
          counted = drain_counted fuel row h h' sorted e size t;
          whole = λ n outbuf.
              drain_next compare fuel (negsuc n) row (row ∷ h) h' outbuf e
              ∙ ap (λ m. drain compare fuel m h' (row ∷ outbuf)) (negsuc-minus_one n)
              ∙ t.whole (suc n) (row ∷ outbuf)
              ∙ ap some (sym (append_assoc sorted (row ∷ []) outbuf));
        },
      )
