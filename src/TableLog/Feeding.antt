-- ===== src/TableLog/Feeding.antt =====
-- What a query does with a list of messages, for src/TableLog.cc.
use naemon_livestatus.Prelude.{
  Bool, true, false, ◌&&◌, [], ◌∷◌, ◌++◌, if◌then◌else◌, ◌≡◌, refl, Bool-cases, inl, inr, ℤ, ltb_ℤ,
  ◌≤ℤ◌, All,
}
use naemon_livestatus.LogEntry.{LogEntry}
use naemon_livestatus.Logfile.{Entries}
use naemon_livestatus.TableLog.{visit_back}

-- from the newest message on
abbrev pub Falling : {Object : Type 0} → Entries Object → Type 0
Falling [] = Unit
Falling (x ∷ xs) = All (λ y. y.1.time ≤ℤ x.1.time) xs × Falling xs

module _ {Object : Type 0} where
  -- the messages up to the first one that is too old
  unfoldable pub cut : ℤ → Entries Object → Entries Object
  cut since [] = []
  cut since (x ∷ xs) = let rest = cut since xs in if ltb_ℤ x.1.time since then [] else x ∷ rest

  -- no message is too old
  unfoldable pub reaches : ℤ → Entries Object → Bool
  reaches since [] = true
  reaches since (x ∷ xs) =
      let rest = reaches since xs in if ltb_ℤ x.1.time since then false else rest

module _ {Object State : Type 0} (process : State → LogEntry Object → State × Bool) where
  -- a query takes messages until it has enough
  unfoldable pub feed : State → Entries Object → State × Bool
  feed q [] = (q, true)
  feed q (x ∷ xs) =
      let (q', more) = process q x.1 in let rest = feed q' xs in if more then rest else (q', false)

  pub feed-append :
      (q : State) (xs ys : Entries Object)
      → feed q (xs ++ ys)
        ≡ (if (feed q xs).1 then feed (feed q xs).0 ys else ((feed q xs).0, false))
  unfolding feed
  feed-append q [] ys = refl
  feed-append q (x ∷ xs) ys = elim (Bool-cases (process q x.1).1) [
    | inl h ↦ rw h (feed-append (process q x.1).0 xs ys)
    | inr h ↦ rw h refl
  ]

  pub visit_back-feed :
      (since : ℤ) (xs : Entries Object) (q : State)
      → visit_back process since xs q
        ≡ ((feed q (cut since xs)).0, (feed q (cut since xs)).1 && reaches since xs)
  unfolding visit_back feed cut reaches
  visit_back-feed since [] q = refl
  visit_back-feed since (x ∷ xs) q = elim (Bool-cases (ltb_ℤ x.1.time since)) [
    | inl h ↦ rw h refl
    | inr h ↦ elim (Bool-cases (process q x.1).1) [
      | inl k ↦ rw (h, k) (visit_back-feed since xs (process q x.1).0)
      | inr k ↦ rw (h, k) refl
    ]
  ]
