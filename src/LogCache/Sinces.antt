-- ===== src/LogCache/Sinces.antt =====
-- The map of log files of src/LogCache.cc, with the time of the first line as the key.
use naemon_livestatus.Prelude.{
  true, false, ◌||◌, List, [], ◌∷◌, ℤ, pos, ltb_ℤ, Bool-cases, inl, inr, ◌⊎◌, ◌≡◌, refl, sym, subst,
  In, here, there, All, All-In, All_of_members, arith, or_neither, or_either,
}
use mathlib.Core.Bool.{true≢false}
use naemon_livestatus.Filter.{equal_ℤ}
use naemon_livestatus.Logfile.{Logfile}
use naemon_livestatus.LogCache.Index.{has_since, insert_logfile, add_logfile}

module _ {Object : Type 0} where
  -- in the order of time, without two files of the same time
  abbrev pub Rising : List (Logfile Object) → Type 0
  Rising [] = Unit
  Rising (x ∷ xs) = All (λ y. ltb_ℤ x.since y.since ≡ true) xs × Rising xs

  insert_logfile-In :
      (log y : Logfile Object) (xs : List (Logfile Object))
      → In y (insert_logfile log xs)
      → (y ≡ log) ⊎ In y xs
  unfolding insert_logfile
  insert_logfile-In log y [] here = inl refl
  insert_logfile-In log y [] (there i) = inr i
  insert_logfile-In log y (x ∷ xs) i = elim (Bool-cases (ltb_ℤ log.since x.since)) [
    | inl h ↦ front (rw h at i)
    | inr h ↦ behind (insert_logfile-In log y xs) (rw h at i)
  ]
    where
      front : {y : Logfile Object} → In y (log ∷ x ∷ xs) → (y ≡ log) ⊎ In y (x ∷ xs)
      front here = inl refl
      front (there j) = inr j

      behind :
          {y : Logfile Object}
          → (In y (insert_logfile log xs) → (y ≡ log) ⊎ In y xs)
          → In y (x ∷ insert_logfile log xs)
          → (y ≡ log) ⊎ In y (x ∷ xs)
      behind f here = inr here
      behind f (there j) = elim (f j) [ inl e ↦ inl e | inr k ↦ inr (there k) ]

  In-insert_logfile :
      (log y : Logfile Object) (xs : List (Logfile Object))
      → (y ≡ log) ⊎ In y xs
      → In y (insert_logfile log xs)
  unfolding insert_logfile
  In-insert_logfile log y [] (inl e) = subst (λ z. In z (log ∷ [])) (sym e) here
  In-insert_logfile log y [] (inr i) = elim i [ ]
  In-insert_logfile log y (x ∷ xs) i = elim (Bool-cases (ltb_ℤ log.since x.since)) [
    | inl h ↦ rw h (front i)
    | inr h ↦ rw h (behind (In-insert_logfile log y xs) i)
  ]
    where
      front : {y : Logfile Object} → (y ≡ log) ⊎ In y (x ∷ xs) → In y (log ∷ x ∷ xs)
      front (inl e) = subst (λ z. In z (log ∷ x ∷ xs)) (sym e) here
      front (inr j) = there j

      behind :
          {y : Logfile Object}
          → ((y ≡ log) ⊎ In y xs → In y (insert_logfile log xs))
          → (y ≡ log) ⊎ In y (x ∷ xs)
          → In y (x ∷ insert_logfile log xs)
      behind f (inl e) = there (f (inl e))
      behind f (inr here) = here
      behind f (inr (there j)) = there (f (inr j))

  insert_logfile-Rising :
      (log : Logfile Object) (xs : List (Logfile Object))
      → Rising xs
      → has_since log.since xs ≡ false
      → Rising (insert_logfile log xs)
  unfolding insert_logfile has_since
  insert_logfile-Rising log [] r h = (tt, tt)
  insert_logfile-Rising log (x ∷ xs) r h = elim (Bool-cases (ltb_ℤ log.since x.since)) [
    | inl less ↦ rw less (
      (
        less,
        All_of_members _ xs (λ y i. let later = All-In _ xs y r.0 i in ground (arith, less, later)),
      ),
      r,
    )
    | inr more ↦
        let (other, others) = or_neither (equal_ℤ x.since log.since) (has_since log.since xs) h in
        let before : ltb_ℤ x.since log.since ≡ true = ground (arith, more, other) in
        rw more (
          All_of_members _ (insert_logfile log xs) (λ y i. elim (insert_logfile-In log y xs i) [
            | inl e ↦ subst (λ z. ltb_ℤ x.since z.since ≡ true) (sym e) before
            | inr j ↦ All-In _ xs y r.0 j
          ]),
          insert_logfile-Rising log xs r.1 others,
        )
  ]

  has_since-In :
      (t : ℤ) (xs : List (Logfile Object))
      → has_since t xs ≡ true
      → (y : Logfile Object) × In y xs × (equal_ℤ y.since t ≡ true)
  unfolding has_since
  has_since-In t [] h = absurd (true≢false (sym h))
  has_since-In t (x ∷ xs) h = elim (or_either (equal_ℤ x.since t) (has_since t xs) h) [
    | inl e ↦ (x, here, e)
    | inr k ↦ let (y, i, e) = has_since-In t xs k in (y, there i, e)
  ]

  pub add_logfile-Rising :
      (log : Logfile Object) (files : List (Logfile Object))
      → Rising files
      → Rising (add_logfile log files)
  unfolding add_logfile
  add_logfile-Rising log files r =
      elim (Bool-cases (equal_ℤ log.since (pos 0) || has_since log.since files)) [
        | inl h ↦ rw h r
        | inr h ↦ rw h (
            insert_logfile-Rising log files r
              (or_neither (equal_ℤ log.since (pos 0)) (has_since log.since files) h).1)
      ]

  pub add_logfile-In :
      (log y : Logfile Object) (files : List (Logfile Object))
      → In y (add_logfile log files)
      → ((y ≡ log) × (equal_ℤ log.since (pos 0) ≡ false)) ⊎ In y files
  unfolding add_logfile
  add_logfile-In log y files i =
      elim (Bool-cases (equal_ℤ log.since (pos 0) || has_since log.since files)) [
        | inl h ↦ inr (rw h at i)
        | inr h ↦ elim (insert_logfile-In log y files (rw h at i)) [
          | inl e ↦
              inl (e, (or_neither (equal_ℤ log.since (pos 0)) (has_since log.since files) h).0)
          | inr j ↦ inr j
        ]
      ]

  pub In-add_logfile :
      (log y : Logfile Object) (files : List (Logfile Object))
      → In y files
      → In y (add_logfile log files)
  unfolding add_logfile
  In-add_logfile log y files i =
      elim (Bool-cases (equal_ℤ log.since (pos 0) || has_since log.since files)) [
        | inl h ↦ rw h i
        | inr h ↦ rw h (In-insert_logfile log y files (inr i))
      ]

  -- a file with a time stamp is added, unless there is one of its time
  pub added :
      (log : Logfile Object) (files : List (Logfile Object))
      → equal_ℤ log.since (pos 0) ≡ false
      → (y : Logfile Object) × In y (add_logfile log files)
        × (equal_ℤ y.since log.since ≡ true)
        × ((y ≡ log) ⊎ In y files)
  unfolding add_logfile
  added log files e = elim (Bool-cases (has_since log.since files)) [
    | inl h ↦ let (y, i, same) = has_since-In log.since files h in rw (e, h) (y, i, same, inr i)
    | inr h ↦ rw (e, h) (log, In-insert_logfile log log files (inl refl), ground arith, inl refl)
  ]
