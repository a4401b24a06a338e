-- ===== src/Query/Paging/Cut.antt =====
-- `numelems` of `finish` in src/Query.cc, and the cut of a sorted list that it makes.

use naemon_livestatus.Prelude.{
  ◌<◌, ◌^◌, negsuc, ℕ, zero, suc, ◌+◌, ◌-◌, ◌≤◌, ◌≡◌, ◌⊎◌, inl, inr, refl, ap, sym, ◌∙◌, List, [],
  ◌∷◌, ◌++◌, arith, length, length-drop, take, take_all, take-append, drop, append-nil, Bool-cases,
  ltb, pos, negsuc, ◌+ℤ◌, ◌-ℤ◌,
}
use naemon_livestatus.Query.Paging.{add_int, num_elems}
use naemon_livestatus.Query.Paging.Sorted.{drop_all}

pub drop_over {ℓ} : {A : Type ℓ} (n : ℕ) (xs : List A) → length xs ≤ n → drop n xs ≡ []
drop_over zero [] h = refl
drop_over zero (x ∷ xs) h = absurd (omega arith)
drop_over (suc n) [] h = refl
drop_over (suc n) (x ∷ xs) h = drop_over n xs (omega arith)

pub drop_append {ℓ} :
    {A : Type ℓ} (n : ℕ) (xs ys : List A) → n ≤ length xs → drop n (xs ++ ys) ≡ drop n xs ++ ys
drop_append zero xs ys h = refl
drop_append (suc n) [] ys h = absurd (omega arith)
drop_append (suc n) (x ∷ xs) ys h = drop_append n xs ys (omega arith)

pub drop_min {ℓ} :
    {A : Type ℓ} (n : ℕ) (xs : List A) → drop (length xs - (length xs - n)) xs ≡ drop n xs
drop_min n xs = elim (Bool-cases (ltb (length xs) n)) [
  | inl e ↦
      let all : length xs - (length xs - n) ≡ length xs = ground arith in
      ap (λ k. drop k xs) all ∙ drop_all xs ∙ sym (drop_over n xs (ground arith))
  | inr e ↦ let same : length xs - (length xs - n) ≡ n = ground arith in ap (λ k. drop k xs) same
]

-- the rows that the heap holds, `kept`, and those that it let go
pub page_lem {ℓ} :
    {A : Type ℓ} (limit offset : ℕ) (kept gone : List A)
    → length kept ≤ limit + offset
    → (gone ≡ []) ⊎ (length kept ≡ limit + offset)
    → drop (length kept - (length kept - offset)) kept ≡ take limit (drop offset (kept ++ gone))
page_lem limit offset kept gone h (inl e) =
    drop_min offset kept
    ∙ sym (
        ap (λ xs. take limit (drop offset xs)) (ap (◌++◌ kept) e ∙ append-nil kept)
        ∙ take_all limit (drop offset kept) (omega (arith, length-drop offset kept)))
page_lem limit offset kept gone h (inr e) =
    let size : length (drop offset kept) ≡ limit = omega (arith, length-drop offset kept) in
    drop_min offset kept
    ∙ sym (
        ap (take limit) (drop_append offset kept gone (omega arith))
        ∙ ap (λ n. take n (drop offset kept ++ gone)) (sym size)
        ∙ take-append (drop offset kept) gone)

pub num_elems_lem :
    (limit offset n : ℕ)
    → n ≤ limit + offset
    → limit + offset < 2 ^ 31
    → num_elems (pos limit) (pos offset) n ≡ pos (n - offset)
unfolding num_elems add_int ◌+ℤ◌ ◌-ℤ◌
num_elems_lem limit offset n h b = ground arith

pub num_elems_zero : (n : ℕ) → num_elems (pos 0) (pos 0) n ≡ pos 0
unfolding num_elems add_int ◌+ℤ◌ ◌-ℤ◌
num_elems_zero n = ground arith

pub num_elems_whole : (n : ℕ) → num_elems (negsuc 0) (pos 0) n ≡ negsuc 0
unfolding num_elems add_int ◌+ℤ◌ ◌-ℤ◌
num_elems_whole n = ground arith

pub no_limit : add_int (negsuc 0) (pos 0) ≡ negsuc 0
unfolding add_int ◌+ℤ◌
no_limit = refl

pub add_int-pos : (a b : ℕ) → a + b < 2 ^ 31 → add_int (pos a) (pos b) ≡ pos (a + b)
unfolding add_int ◌+ℤ◌ ◌-ℤ◌
add_int-pos a b h = ground arith

pub num_elems_offset :
    (k n : ℕ)
    → n ≡ suc k
    → suc (suc k) < 2 ^ 31
    → num_elems (negsuc 0) (pos (suc (suc k))) n ≡ negsuc 0
unfolding num_elems add_int ◌+ℤ◌ ◌-ℤ◌
num_elems_offset k n h b = ground arith

pub offset_limit :
    (k : ℕ) → suc (suc k) < 2 ^ 31 → add_int (negsuc 0) (pos (suc (suc k))) ≡ pos (suc k)
unfolding add_int ◌+ℤ◌ ◌-ℤ◌
offset_limit k h = ground arith
