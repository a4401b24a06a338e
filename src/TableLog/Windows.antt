-- ===== src/TableLog/Windows.antt =====
-- The part of a file's messages that `answerQueryReverse` of src/Logfile.cc hands to a query.
use naemon_livestatus.Prelude.{
  ℕ, ◌-◌, negsuc, ◌+◌, ◌*◌, ◌^◌, ◌<◌, ◌≤◌, true, false, [], ◌∷◌, ◌++◌, ◌≡◌, sym, subst, Bool-cases,
  inl, inr, ltb, ltb→lt, ℤ, pos, ltb_ℤ, ◌≤ℤ◌, In, here, there, All, All-In, All_of_members,
  In-reverse, arith, reverse, All-append,
}
use mathlib.Core.List.{reverse-append}
use mathlib.Core.Bool.{true≢false}
use naemon_livestatus.LogEntry.{LogEntry}
use naemon_livestatus.Logfile.{Entries, make_key, low32}
use naemon_livestatus.Logfile.Entries.{Ascending}
use naemon_livestatus.TableLog.{up_to}
use naemon_livestatus.TableLog.Feeding.{Falling, cut, reaches}

-- a message whose time is that of its key, and fits into 32 bits
pub record Timed {Object : Type 0} (x : ℕ × LogEntry Object) : Type 0 where
  pub stamp : ℕ
  pub line : ℕ
  pub time : x.1.time ≡ pos stamp
  pub key : x.0 ≡ stamp * 2 ^ 32 + line
  pub stamp_fits : stamp < 2 ^ 32
  pub line_fits : line < 2 ^ 32

module _ {Object : Type 0} where
  pub cut-In :
      (since : ℤ) (x : ℕ × LogEntry Object) (xs : Entries Object) → In x (cut since xs) → In x xs
  unfolding cut
  cut-In since x [] i = i
  cut-In since x (y ∷ xs) i = elim (Bool-cases (ltb_ℤ y.1.time since)) [
    | inl h ↦ elim (rw h at i) [ ]
    | inr h ↦ deeper (cut-In since x xs) (rw h at i)
  ]
    where
      deeper :
          {x y : ℕ × LogEntry Object} {ys zs : Entries Object}
          → (In x ys → In x zs)
          → In x (y ∷ ys)
          → In x (y ∷ zs)
      deeper f here = here
      deeper f (there j) = there (f j)

  pub In-cut :
      (since : ℤ) (x : ℕ × LogEntry Object) (xs : Entries Object)
      → Falling xs
      → In x xs
      → ltb_ℤ x.1.time since ≡ false
      → In x (cut since xs)
  unfolding cut
  In-cut since x [] f i h = i
  In-cut since x (y ∷ xs) f here h = rw h here
  In-cut since x (y ∷ xs) f (there i) h =
      let later : x.1.time ≤ℤ y.1.time = All-In (λ z. z.1.time ≤ℤ y.1.time) xs x f.0 i in
      let first : ltb_ℤ y.1.time since ≡ false = ground (arith, later, h) in
      rw first (there (In-cut since x xs f.1 i h))

  pub cut-Falling : (since : ℤ) (xs : Entries Object) → Falling xs → Falling (cut since xs)
  unfolding cut
  cut-Falling since [] f = tt
  cut-Falling since (y ∷ xs) f = elim (Bool-cases (ltb_ℤ y.1.time since)) [
    | inl h ↦ rw h tt
    | inr h ↦ rw h (
      All_of_members _ (cut since xs)
          (λ x i. All-In (λ z. z.1.time ≤ℤ y.1.time) xs x f.0 (cut-In since x xs i)),
      cut-Falling since xs f.1,
    )
  ]

  -- where the loop stops, a message is too old
  pub reaches-false :
      (since : ℤ) (xs : Entries Object)
      → reaches since xs ≡ false
      → (x : ℕ × LogEntry Object) × In x xs × (ltb_ℤ x.1.time since ≡ true)
  unfolding reaches
  reaches-false since [] h = absurd (true≢false h)
  reaches-false since (y ∷ xs) h = elim (Bool-cases (ltb_ℤ y.1.time since)) [
    | inl k ↦ (y, here, k)
    | inr k ↦ let (x, i, l) = reaches-false since xs (rw k at h) in (x, there i, l)
  ]

  pub up_to-In :
      (key : ℕ) (x : ℕ × LogEntry Object) (xs : Entries Object) → In x (up_to key xs) → In x xs
  unfolding up_to
  up_to-In key x [] i = i
  up_to-In key x (y ∷ xs) i = elim (Bool-cases (ltb key y.0)) [
    | inl h ↦ elim (rw h at i) [ ]
    | inr h ↦ deeper (up_to-In key x xs) (rw h at i)
  ]
    where
      deeper :
          {x y : ℕ × LogEntry Object} {ys zs : Entries Object}
          → (In x ys → In x zs)
          → In x (y ∷ ys)
          → In x (y ∷ zs)
      deeper f here = here
      deeper f (there j) = there (f j)

  pub In-up_to :
      (key : ℕ) (x : ℕ × LogEntry Object) (xs : Entries Object)
      → Ascending xs
      → In x xs
      → x.0 ≤ key
      → In x (up_to key xs)
  unfolding up_to
  In-up_to key x [] a i h = i
  In-up_to key x (y ∷ xs) a here h =
      let first : ltb key x.0 ≡ false = ground (arith, h) in rw first here
  In-up_to key x (y ∷ xs) a (there i) h =
      let later : y.0 < x.0 = All-In (λ z. y.0 < z.0) xs x a.0 i in
      let first : ltb key y.0 ≡ false = ground (arith, h, later) in
      rw first (there (In-up_to key x xs a.1 i h))

  up_to-Ascending : (key : ℕ) (xs : Entries Object) → Ascending xs → Ascending (up_to key xs)
  unfolding up_to
  up_to-Ascending key [] a = tt
  up_to-Ascending key (y ∷ xs) a = elim (Bool-cases (ltb key y.0)) [
    | inl h ↦ rw h tt
    | inr h ↦ rw h (
      All_of_members _ (up_to key xs)
          (λ x i. All-In (λ z. y.0 < z.0) xs x a.0 (up_to-In key x xs i)),
      up_to-Ascending key xs a.1,
    )
  ]

  Falling-last :
      (xs : Entries Object) (y : ℕ × LogEntry Object)
      → Falling xs
      → All (λ x. y.1.time ≤ℤ x.1.time) xs
      → Falling (xs ++ y ∷ [])
  Falling-last [] y f h = (tt, tt)
  Falling-last (x ∷ xs) y f h = (All-append _ xs (y ∷ []) f.0 (h.0, tt), Falling-last xs y f.1 h.1)

  older_key : (x y : ℕ × LogEntry Object) → Timed x → Timed y → x.0 < y.0 → x.1.time ≤ℤ y.1.time
  older_key x y p q h =
      let less : p.stamp ≤ q.stamp = omega (arith, p.key, q.key, h, p.line_fits, q.line_fits) in
      subst (λ t. t ≤ℤ y.1.time) (sym p.time)
        (subst (λ t. pos p.stamp ≤ℤ t) (sym q.time) (omega (arith, less)))

  reverse-Falling :
      (xs : Entries Object)
      → Ascending xs
      → ((x : ℕ × LogEntry Object) → In x xs → Timed x)
      → Falling (reverse xs)
  reverse-Falling [] a t = tt
  reverse-Falling (x ∷ xs) a t = subst Falling (sym (reverse-append (x ∷ []) xs)) (
      Falling-last (reverse xs) x (reverse-Falling xs a.1 (λ y i. t y (there i))) (
        All_of_members _ (reverse xs) (λ y i.
          let j = In-reverse y xs i in
          older_key x y (t x here) (t y (there j)) (All-In (λ z. x.0 < z.0) xs y a.0 j))))

  -- the entries of a file that are handed out, before those that are too old are cut off
  pub window-Falling :
      (key : ℕ) (xs : Entries Object)
      → Ascending xs
      → ((x : ℕ × LogEntry Object) → In x xs → Timed x)
      → Falling (reverse (up_to key xs))
  window-Falling key xs a t =
      reverse-Falling (up_to key xs) (up_to-Ascending key xs a) (λ x i. t x (up_to-In key x xs i))

  -- a message in front of the end of the interval is in front of the key that is searched for
  pub in_front-key :
      (until : ℤ) (x : ℕ × LogEntry Object)
      → until ≤ℤ pos (2 ^ 32 - 1)
      → Timed x
      → ltb_ℤ x.1.time until ≡ true
      → x.0 ≤ make_key until 999999999
  unfolding make_key low32
  in_front-key (pos u) x h t less =
      let before : t.stamp < u = ltb→lt t.stamp u (ground (arith, less, t.time)) in
      omega (arith, t.key, t.line_fits, before, h)
  in_front-key (negsuc u) x h t less = absurd (ground (arith, less, t.time))
