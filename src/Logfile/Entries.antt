-- ===== src/Logfile/Entries.antt =====
-- The map of messages of src/Logfile.cc: which entries it has after each operation.
use naemon_livestatus.Prelude.{
  ℕ, arith, ltb→lt, or_neither, All, All-map, ◌<◌, ◌≡◌, refl, sym, ◌∙◌, ap, ◌⊎◌, inl, inr, Bool,
  true, false, List, [], ◌∷◌, ltb, ◌==◌, ==_iff, Bool-cases, if◌then◌else◌, In, here, there,
  or_either,
}
use mathlib.Core.Bool.{true≢false}
use naemon_livestatus.Logfile.{has_key, insert, keep}

module _ {ℓ} {A : Type ℓ} where
  choose-In :
      (b : Bool) (x y : A) (rest : List A)
      → In x (if b then y ∷ rest else rest)
      → ((x ≡ y) × (b ≡ true)) ⊎ In x rest
  choose-In true x y rest here = inl (refl, refl)
  choose-In true x y rest (there i) = inr i
  choose-In false x y rest i = inr i

  In-choose_rest :
      (b : Bool) (x y : A) (rest : List A) → In x rest → In x (if b then y ∷ rest else rest)
  In-choose_rest true x y rest i = there i
  In-choose_rest false x y rest i = i

module _ {ℓ} {A : Type ℓ} where
  pub keep-In :
      (p : A → Bool) (x : ℕ × A) (es : List (ℕ × A)) → In x (keep p es) → In x es × (p x.1 ≡ true)
  unfolding keep
  keep-In p x [] i = elim i [ ]
  keep-In p x (e ∷ es) i = elim (choose-In (p e.1) x e (keep p es) i) [
    | inl (same, h) ↦ (rw same here, ap (λ (y : ℕ × A). p y.1) same ∙ h)
    | inr j ↦ let (k, h) = keep-In p x es j in (there k, h)
  ]

  pub In-keep :
      (p : A → Bool) (x : ℕ × A) (es : List (ℕ × A)) → In x es → p x.1 ≡ true → In x (keep p es)
  unfolding keep
  In-keep p x [] i h = elim i [ ]
  In-keep p x (e ∷ es) here h = rw h here
  In-keep p x (e ∷ es) (there i) h = In-choose_rest (p e.1) x e (keep p es) (In-keep p x es i h)

  pub insert-In :
      (key : ℕ) (a : A) (x : ℕ × A) (es : List (ℕ × A))
      → In x (insert key a es)
      → (x ≡ (key, a)) ⊎ In x es
  unfolding insert
  insert-In key a x [] here = inl refl
  insert-In key a x [] (there i) = elim i [ ]
  insert-In key a x (e ∷ es) i = elim (Bool-cases (ltb key e.0)) [
    | inl h ↦ in_front (rw h at i)
    | inr h ↦ behind (insert-In key a x es) (rw h at i)
  ]
    where
      in_front : {x : ℕ × A} {ys : List (ℕ × A)} → In x ((key, a) ∷ ys) → (x ≡ (key, a)) ⊎ In x ys
      in_front here = inl refl
      in_front (there j) = inr j

      behind :
          {x e : ℕ × A} {ys zs : List (ℕ × A)}
          → (In x ys → (x ≡ (key, a)) ⊎ In x zs)
          → In x (e ∷ ys)
          → (x ≡ (key, a)) ⊎ In x (e ∷ zs)
      behind f here = inr here
      behind f (there j) = elim (f j) [ inl h ↦ inl h | inr k ↦ inr (there k) ]

  pub In-insert_self : (key : ℕ) (a : A) (es : List (ℕ × A)) → In (key, a) (insert key a es)
  unfolding insert
  In-insert_self key a [] = here
  In-insert_self key a (e ∷ es) = elim (Bool-cases (ltb key e.0)) [
    | inl h ↦ rw h here
    | inr h ↦ rw h (there (In-insert_self key a es))
  ]

  pub In-insert_other :
      (key : ℕ) (a : A) (x : ℕ × A) (es : List (ℕ × A)) → In x es → In x (insert key a es)
  unfolding insert
  In-insert_other key a x [] i = elim i [ ]
  In-insert_other key a x (e ∷ es) i = elim (Bool-cases (ltb key e.0)) [
    | inl h ↦ rw h (there i)
    | inr h ↦ rw h (deeper (In-insert_other key a x es) i)
  ]
    where
      deeper :
          {x e : ℕ × A} {ys zs : List (ℕ × A)} → (In x ys → In x zs) → In x (e ∷ ys) → In x (e ∷ zs)
      deeper f here = here
      deeper f (there j) = there (f j)

  pub has_key-In : (key : ℕ) (es : List (ℕ × A)) → has_key key es ≡ true → (a : A) × In (key, a) es
  unfolding has_key
  has_key-In key [] h = absurd (true≢false (sym h))
  has_key-In key (e ∷ es) h = elim (or_either (e.0 == key) (has_key key es) h) [
    | inl same ↦ (e.1, rw (sym ((==_iff e.0 key).0 same)) here)
    | inr later ↦ let (a, i) = has_key-In key es later in (a, there i)
  ]

module _ {ℓ} {A : Type ℓ} where
  -- the order of a map
  abbrev pub Ascending : List (ℕ × A) → Type 0
  Ascending [] = Unit
  Ascending (x ∷ xs) = All (λ y. x.0 < y.0) xs × Ascending xs

  keep-All :
      (p : A → Bool) (n : ℕ) (es : List (ℕ × A))
      → All (λ y. n < y.0) es
      → All (λ y. n < y.0) (keep p es)
  unfolding keep
  keep-All p n [] h = tt
  keep-All p n (e ∷ es) h = elim (Bool-cases (p e.1)) [
    | inl k ↦ rw k (h.0, keep-All p n es h.1)
    | inr k ↦ rw k (keep-All p n es h.1)
  ]

  pub keep-Ascending : (p : A → Bool) (es : List (ℕ × A)) → Ascending es → Ascending (keep p es)
  unfolding keep
  keep-Ascending p [] h = tt
  keep-Ascending p (e ∷ es) h = elim (Bool-cases (p e.1)) [
    | inl k ↦ rw k (keep-All p e.0 es h.0, keep-Ascending p es h.1)
    | inr k ↦ rw k (keep-Ascending p es h.1)
  ]

  insert-All :
      (key : ℕ) (a : A) (n : ℕ) (es : List (ℕ × A))
      → n < key
      → All (λ y. n < y.0) es
      → All (λ y. n < y.0) (insert key a es)
  unfolding insert
  insert-All key a n [] l h = (l, tt)
  insert-All key a n (e ∷ es) l h = elim (Bool-cases (ltb key e.0)) [
    | inl k ↦ rw k (l, h)
    | inr k ↦ rw k (h.0, insert-All key a n es l h.1)
  ]

  pub insert-Ascending :
      (key : ℕ) (a : A) (es : List (ℕ × A))
      → has_key key es ≡ false
      → Ascending es
      → Ascending (insert key a es)
  unfolding insert has_key
  insert-Ascending key a [] new h = (tt, tt)
  insert-Ascending key a (e ∷ es) new h =
      let (other, rest) = or_neither (e.0 == key) (has_key key es) new in
      elim (Bool-cases (ltb key e.0)) [
        | inl k ↦
            let less : key < e.0 = ltb→lt _ _ k in
            rw k ((less, All-map es (λ y l. omega (arith, l, less)) h.0), h)
        | inr k ↦
            rw k (insert-All key a e.0 es (ground arith) h.0, insert-Ascending key a es rest h.1)
      ]
