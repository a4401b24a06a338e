-- ===== src/Prelude/Arrays.antt =====
-- Lists that are written by index.
use Prim.Native.Nat.{ℕ, zero, suc, ◌<◌}
use mathlib.Core.Path.{◌≡◌, refl}
use mathlib.Core.Logic.{◌≢◌}
use mathlib.Core.List.{List, [], ◌∷◌, ◌++◌, Perm}
use mathlib.Core.List.Perm
use native.Mathlib.Omega.{arith}
use naemon_livestatus.Prelude.Tests.{◌==◌, if◌then◌else◌}
use naemon_livestatus.Prelude.Lists.{length, get_or, set, length-set}

module _ {ℓ} {A : Type ℓ} where
  pub get_or-set :
      (xs : List A) (i j : ℕ) (v d : A)
      → i < length xs
      → get_or (set xs i v) j d ≡ (if i == j then v else get_or xs j d)
  get_or-set [] i j v d h = absurd (omega arith)
  get_or-set (x ∷ xs) zero zero v d h = refl
  get_or-set (x ∷ xs) (suc i) (suc j) v d h = ground (arith, get_or-set xs i j v d)
  get_or-set (x ∷ xs) i j v d h = ground arith

  pub get_or-append :
      (xs ys : List A) (i : ℕ) (d : A) → i < length xs → get_or (xs ++ ys) i d ≡ get_or xs i d
  get_or-append [] ys i d h = absurd (omega arith)
  get_or-append (x ∷ xs) ys zero d h = refl
  get_or-append (x ∷ xs) ys (suc i) d h = get_or-append xs ys i d (omega arith)

  -- what a write of `v` at `i` leaves, with the old entry, is what was there, with `v`
  pub set-perm :
      (xs : List A) (i : ℕ) (v d : A) → i < length xs → Perm (get_or xs i d ∷ set xs i v) (v ∷ xs)
  set-perm [] i v d h = absurd (omega arith)
  set-perm (x ∷ xs) zero v d h = Perm.swap v x xs
  set-perm (x ∷ xs) (suc i) v d h =
      Perm.trans (Perm.swap x (get_or xs i d) (set xs i v))
        (Perm.trans (Perm.cons x (set-perm xs i v d (omega arith))) (Perm.swap v x xs))

  -- a hole at `i` that moves to `j`: the entry at `j` is written at `i`, and `v` goes to `j`
  pub set_move-perm :
      (xs : List A) (i j : ℕ) (v d : A)
      → i < length xs
      → j < length xs
      → i ≢ j
      → Perm (set (set xs i (get_or xs j d)) j v) (set xs i v)
  set_move-perm xs i j v d hi hj ne =
      let b = set xs i (get_or xs j d) in
      let kept : get_or b j d ≡ get_or xs j d =
        ground (arith, get_or-set xs i j (get_or xs j d) d) in
      let second : Perm (get_or xs j d ∷ set b j v) (v ∷ b) =
        subst_head kept (set-perm b j v d (ground (arith, length-set xs i (get_or xs j d)))) in
      let first = Perm.cons v (set-perm xs i (get_or xs j d) d hi) in
      let third = Perm.cons (get_or xs j d) (set-perm xs i v d hi) in
      Perm.cons_inv (
        Perm.cons_inv (
          Perm.trans (Perm.cons _ second) (
            Perm.trans (Perm.swap v (get_or xs i d) b) (
              Perm.trans first (
                Perm.trans (Perm.swap (get_or xs j d) v xs)
                  (Perm.trans (Perm.symm third) (Perm.swap _ _ _)))))))
    where
      subst_head : {x y : A} {l m : List A} → x ≡ y → Perm (x ∷ l) m → Perm (y ∷ l) m
      subst_head e p = rw e at p

  -- what such a move leaves, index by index
  pub get_or-set_move :
      (xs : List A) (i j : ℕ) (v d : A) (c : ℕ)
      → i < length xs
      → j < length xs
      → get_or (set (set xs i (get_or xs j d)) j v) c d
        ≡ (if j == c then v else if i == c then get_or xs j d else get_or xs c d)
  get_or-set_move xs i j v d c hi hj = ground (
    arith,
    length-set xs i (get_or xs j d),
    get_or-set (set xs i (get_or xs j d)) j c v d,
    get_or-set xs i c (get_or xs j d) d,
  )

  pub length-set-set : (xs : List A) (i j : ℕ) (v w : A) → length (set (set xs i v) j w) ≡ length xs
  length-set-set xs i j v w = omega (arith, length-set xs i v, length-set (set xs i v) j w)
