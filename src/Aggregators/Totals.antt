-- ===== src/Aggregators/Totals.antt =====
-- What the aggregators hold after all rows of a group.
use mathlib.Core.Bool.{true≢false}
use mathlib.Core.Logic.Or
use mathlib.Core.List.{Mem, mem-cons}
use naemon_livestatus.Prelude.{
  ℕ, suc, ◌+◌, ◌≡◌, ◌⊎◌, inl, inr, refl, ap, sym, ◌∙◌, Bool, true, false, Bool-cases, List, [], ◌∷◌,
  length, All, arith, Option, if◌then◌else◌, ◌==◌, ℤ, pos, ltb_ℤ, ◌≤ℤ◌,
}
use naemon_livestatus.Filter.{Filter}
use naemon_livestatus.Query.{StatsOperation, stats_min}
use naemon_livestatus.Aggregators.{
  CountAggregator, is_counted, consume_count, consume_counts, IntAggregator, next_aggr, consume_int,
  consume_ints,
}

-- the rows that are counted
unfoldable pub counted : {Row : Type 0} → Option (Filter Row) → List Row → List Row
counted f [] = []
counted f (row ∷ rows) = if is_counted f row then row ∷ counted f rows else counted f rows

one_more : (a b : ℕ) → suc a + b ≡ a + suc b
one_more a b = omega arith

-- A CountAggregator counts, on top of what it held, exactly the rows that its filter accepts, and
-- all rows if it has none.
pub consume_counts_lem :
    {Row : Type 0} (a : CountAggregator Row) (rows : List Row)
    → (consume_counts a rows).count ≡ a.count + length (counted a.filter rows)
unfolding consume_counts consume_count counted
consume_counts_lem a [] = omega arith
consume_counts_lem a (row ∷ rows) = elim (Bool-cases (is_counted a.filter row)) [
  | inl e ↦
      ap (λ b. (consume_counts (if b then record a { count = suc a.count } else a) rows).count) e
      ∙ consume_counts_lem (record a { count = suc a.count }) rows
      ∙ one_more a.count (length (counted a.filter rows))
      ∙ sym (
          ap
            (λ b.
              a.count + length (if b then row ∷ counted a.filter rows else counted a.filter rows))
            e)
  | inr e ↦
      ap (λ b. (consume_counts (if b then record a { count = suc a.count } else a) rows).count) e
      ∙ consume_counts_lem a rows
      ∙ sym (
          ap
            (λ b.
              a.count + length (if b then row ∷ counted a.filter rows else counted a.filter rows))
            e)
]

abbrev with_aggr : StatsOperation → ℕ → ℤ → IntAggregator
with_aggr op count aggr = record { operation = op; count = count; aggr = aggr }

min_of :
    (one before : Bool) (aggr v : ℤ)
    → one ≡ false
    → before ≡ ltb_ℤ v aggr
    → let next = if one then v else if before then v else aggr in
      (next ≤ℤ aggr) × (next ≤ℤ v) × ((next ≡ aggr) ⊎ (next ≡ v))
min_of true before aggr v e f = absurd (true≢false e)
min_of false true aggr v e f = (ground arith, omega arith, inr refl)
min_of false false aggr v e f = (omega arith, ground arith, inl refl)

min_step :
    (n : ℕ) (aggr v : ℤ)
    → (next_aggr stats_min (suc (suc n)) aggr v ≤ℤ aggr)
      × (next_aggr stats_min (suc (suc n)) aggr v ≤ℤ v)
      × ((next_aggr stats_min (suc (suc n)) aggr v ≡ aggr)
          ⊎ (next_aggr stats_min (suc (suc n)) aggr v ≡ v))
unfolding next_aggr
min_step n aggr v = min_of (suc (suc n) == 1) (ltb_ℤ v aggr) aggr v (ground arith) refl

-- the least of a first value and of more of them
record Least (a : ℤ) (values : List ℤ) (least : ℤ) : Type 0 where
  pub below_first : least ≤ℤ a
  pub below : All (λ v. least ≤ℤ v) values
  pub found : (least ≡ a) ⊎ Mem least values

mem_later : (x v : ℤ) (vs : List ℤ) → Mem x vs → Mem x (v ∷ vs)
mem_later x v vs m = mem-cons.1 (Or.inr m)

step-Least :
    (n : ℕ) (a v : ℤ) (vs : List ℤ) (r : ℤ)
    → Least (next_aggr stats_min (suc (suc n)) a v) vs r
    → Least a (v ∷ vs) r
step-Least n a v vs r t =
    let (first, value, either) = min_step n a v in
    record {
      below_first = omega (arith, t.below_first, first);
      below = (omega (arith, t.below_first, value), t.below);
      found = elim t.found [
        | inr m ↦ inr (mem_later r v vs m)
        | inl e ↦ elim either [ inl f ↦ inl (e ∙ f) | inr f ↦ inr (mem-cons.1 (Or.inl (e ∙ f))) ]
      ];
    }

consume_ints-Least :
    (n : ℕ) (a : ℤ) (values : List ℤ)
    → Least a values (consume_ints (with_aggr stats_min (suc n) a) values).aggr
unfolding consume_ints consume_int
consume_ints-Least n a [] = record { below_first = omega arith; below = tt; found = inl refl }
consume_ints-Least n a (v ∷ vs) =
    step-Least n a v vs _ (consume_ints-Least (suc n) (next_aggr stats_min (suc (suc n)) a v) vs)

-- After at least one value, the minimum that a fresh IntAggregator holds is one of the values, and
-- none of them is below it.
consume_ints-least :
    (v : ℤ) (vs : List ℤ)
    → let least = (consume_ints (with_aggr stats_min 0 (pos 0)) (v ∷ vs)).aggr in
      All (λ x. least ≤ℤ x) (v ∷ vs) × Mem least (v ∷ vs)
unfolding consume_ints consume_int next_aggr
consume_ints-least v vs =
    let t = consume_ints-Least 0 v vs in
    (
      (t.below_first, t.below),
      elim t.found [ inl e ↦ mem-cons.1 (Or.inl e) | inr m ↦ mem_later _ v vs m ],
    )
