-- ===== src/Prelude/Members.antt =====
-- Members of a list, and lists that are related place by place.
use mathlib.Core.Path.{◌≡◌, refl, sym, subst}
use mathlib.Core.Logic.{◌⊎◌, inl, inr}
use mathlib.Core.List.{List, [], ◌∷◌, ◌++◌, reverse, reverse-append}
use naemon_livestatus.Prelude.Lists.{All}

module _ {ℓ} {A : Type ℓ} where
  -- `x` is in the list, with the place where it stands
  pub data In (x : A) : List A → Type ℓ where
    here : {xs : List A} → In x (x ∷ xs)
    there : {y : A} {xs : List A} → In x xs → In x (y ∷ xs)

  pub In-single : (x y : A) → In x (y ∷ []) → x ≡ y
  In-single x y here = refl
  In-single x y (there i) = elim i [ ]

  pub In-append_left : (x : A) (xs ys : List A) → In x xs → In x (xs ++ ys)
  In-append_left x [] ys i = elim i [ ]
  In-append_left x (y ∷ xs) ys here = here
  In-append_left x (y ∷ xs) ys (there i) = there (In-append_left x xs ys i)

  pub In-append_right : (x : A) (xs ys : List A) → In x ys → In x (xs ++ ys)
  In-append_right x [] ys i = i
  In-append_right x (y ∷ xs) ys i = there (In-append_right x xs ys i)

  pub In-append_cases : (x : A) (xs ys : List A) → In x (xs ++ ys) → In x xs ⊎ In x ys
  In-append_cases x [] ys i = inr i
  In-append_cases x (y ∷ xs) ys here = inl here
  In-append_cases x (y ∷ xs) ys (there i) = elim (In-append_cases x xs ys i) [
    | inl j ↦ inl (there j)
    | inr j ↦ inr j
  ]

  pub All-In {κ} : (P : A → Type κ) (xs : List A) (x : A) → All P xs → In x xs → P x
  All-In P (y ∷ xs) x h here = h.0
  All-In P (y ∷ xs) x h (there i) = All-In P xs x h.1 i
  All-In P [] x h i = elim i [ ]

  pub All_of_members {κ} : (P : A → Type κ) (xs : List A) → ((x : A) → In x xs → P x) → All P xs
  All_of_members P [] f = tt
  All_of_members P (x ∷ xs) f = (f x here, All_of_members P xs (λ y i. f y (there i)))

  pub In-reverse : (x : A) (xs : List A) → In x (reverse xs) → In x xs
  In-reverse x [] i = i
  In-reverse x (y ∷ xs) i =
      elim (In-append_cases x (reverse xs) (y ∷ []) (subst (In x) (reverse-append (y ∷ []) xs) i)) [
        | inl j ↦ there (In-reverse x xs j)
        | inr j ↦ subst (λ z. In x (z ∷ xs)) (In-single x y j) here
      ]

  pub reverse-In : (x : A) (xs : List A) → In x xs → In x (reverse xs)
  reverse-In x [] i = i
  reverse-In x (y ∷ xs) here =
      subst (In x) (sym (reverse-append (x ∷ []) xs)) (In-append_right x (reverse xs) (x ∷ []) here)
  reverse-In x (y ∷ xs) (there i) =
      subst (In x) (sym (reverse-append (y ∷ []) xs))
        (In-append_left x (reverse xs) (y ∷ []) (reverse-In x xs i))

  -- place by place
  pub data Pointwise {κ} (R : A → A → Type κ) : List A → List A → Type (ℓ ⊔ κ) where
    unrelated : Pointwise R [] []
    related : {x y : A} {xs ys : List A} → R x y → Pointwise R xs ys → Pointwise R (x ∷ xs) (y ∷ ys)
