-- ===== src/Query/Run/Counts.antt =====
-- A query with `Stats:` lines that count, and without columns: `StatsColumn::createAggregator` of
-- src/StatsColumn.cc makes a `CountAggregator` of each, which src/CountAggregator.cc is about.
use naemon_livestatus.Prelude.{
  ℕ, ◌-◌, ◌%◌, ◌^◌, ◌<◌, ◌≤◌, Bool, true, false, List, [], ◌∷◌, map, Option, some, if◌then◌else◌,
  ltb, length, ℤ, pos, negsuc, ◌≡◌, refl, ap, ◌∙◌, inl, inr, arith, Bool-cases,
}
use naemon_livestatus.Print.{
  Writer, output_integer, output_dataset_begin, output_dataset_end, output_field_separator,
}
use naemon_livestatus.Filter.{Filter}
use naemon_livestatus.Aggregators.{CountAggregator, is_counted, consume_count, consume_counts}
use naemon_livestatus.Aggregators.Totals.{counted, consume_counts_lem}
use naemon_livestatus.Query.Run.{OutStat, Plan, Moment, Run, do_stats, is_grouped}
use naemon_livestatus.Query.Run.Ends.{output_aggregators, close_output, start}
use naemon_livestatus.Query.Run.Steps.{accepted_rows, if_is_true}
use naemon_livestatus.Query.Run.Totals.{total_from, total, print_totals, answer-total}
use naemon_livestatus.Query.Run.Answer.{Answers, Interrupted}

-- the `uint32_t` of an aggregator as an `int`
abbrev pub as_int : ℕ → ℤ
as_int n = if ltb (n % 2 ^ 32) (2 ^ 31) then pos (n % 2 ^ 32) else negsuc (2 ^ 32 - 1 - n % 2 ^ 32)

-- `CountAggregator::output`
unfoldable pub output_count : {Row : Type 0} → CountAggregator Row → Writer → Writer
output_count a w = output_integer w (as_int a.count)

-- `createAggregator` for `STATS_OP_COUNT`
abbrev pub count_stat : {Row : Type 0} → Filter Row → OutStat Row (CountAggregator Row)
count_stat f = record {
  create = record { filter = some f; count = 0 };
  consume = λ row a. consume_count a row;
  output = output_count;
}

-- numbers with field separators between them
unfoldable pub print_numbers : Bool → List ℕ → Writer → Writer
print_numbers first [] w = w
print_numbers first (n ∷ ns) w =
    print_numbers false ns (output_integer (if first then w else output_field_separator w) (pos n))

as_int-small : (n : ℕ) → n < 2 ^ 31 → as_int n ≡ pos n
as_int-small n h =
    let same : n % 2 ^ 32 ≡ n = omega (arith, h) in
    ap (λ k. if ltb k (2 ^ 31) then pos k else negsuc (2 ^ 32 - 1 - k)) same
    ∙ if_is_true (ltb n (2 ^ 31)) _ _ (ground (arith, h))

module _ {Row : Type 0} where
  -- how many rows a filter accepts
  abbrev pub accepted_count : List Row → Filter Row → ℕ
  accepted_count xs f = length (counted (some f) xs)

  counted_length : (f : Option (Filter Row)) (xs : List Row) → length (counted f xs) ≤ length xs
  unfolding counted
  counted_length f [] = omega arith
  counted_length f (x ∷ xs) = elim (Bool-cases (is_counted f x)) [
    | inl e ↦ rw e (let shorter = counted_length f xs in omega (arith, shorter))
    | inr e ↦ rw e (let shorter = counted_length f xs in omega (arith, shorter))
  ]

  total_from-counts :
      (f : Filter Row) (a : CountAggregator Row) (xs : List Row)
      → total_from (count_stat f) a xs ≡ consume_counts a xs
  unfolding total_from consume_counts
  total_from-counts f a [] = refl
  total_from-counts f a (x ∷ xs) = total_from-counts f (consume_count a x) xs

  output_total :
      (f : Filter Row) (xs : List Row) (w : Writer)
      → length xs < 2 ^ 31
      → output_count (total xs (count_stat f)) w ≡ output_integer w (pos (accepted_count xs f))
  unfolding output_count
  output_total f xs w h =
      let a : CountAggregator Row = record { filter = some f; count = 0 } in
      let count : (total xs (count_stat f)).count ≡ accepted_count xs f =
        ap (λ (b : CountAggregator Row). b.count) (total_from-counts f a xs)
        ∙ consume_counts_lem a xs
        ∙ omega arith in
      let few = counted_length (some f) xs in
      ap (output_integer w)
        (ap as_int count ∙ as_int-small (accepted_count xs f) (omega (arith, few, h)))

  module _ (p : Plan Row (CountAggregator Row)) (xs : List Row) (h : length xs < 2 ^ 31) where
    aggregators-numbers :
        (first : Bool) (fs : List (Filter Row)) (w : Writer)
        → output_aggregators p first (map count_stat fs) (map (total xs) (map count_stat fs)) w
          ≡ print_numbers first (map (accepted_count xs) fs) w
    unfolding output_aggregators print_numbers
    aggregators-numbers first [] w = refl
    aggregators-numbers first (f ∷ fs) w =
        let w' = if first then w else output_field_separator w in
        ap (output_aggregators p false (map count_stat fs) (map (total xs) (map count_stat fs)))
          (output_total f xs w' h)
        ∙ aggregators-numbers false fs (output_integer w' (pos (accepted_count xs f)))

  -- the line of the response
  abbrev pub print_counts : List (Filter Row) → List Row → Writer → Writer
  print_counts fs xs w =
      output_dataset_end (print_numbers true (map (accepted_count xs) fs) (output_dataset_begin w))

  -- A query without columns whose Stats: lines all count, of fewer than 2 ^ 31 accepted rows, ends
  -- with one line of numbers: for each Stats: line, in their order, how many of the accepted rows
  -- its own filter accepts too; or it ends with an error, for the same causes as any query with
  -- statistics and without columns.
  pub answer-counts :
      (p : Plan Row (CountAggregator Row)) (fs : List (Filter Row)) (rows : List (Moment × Row))
      (w : Writer) (r : Run Row (CountAggregator Row))
      → p.stats ≡ map count_stat fs
      → do_stats p ≡ true
      → is_grouped p ≡ false
      → start p w ≡ some r
      → length (accepted_rows p rows) < 2 ^ 31
      → Answers p
          (Interrupted p rows r.writer)
          rows
          w
          (λ w'. w' ≡ close_output p 1 (print_counts fs (accepted_rows p rows) r.writer))
  answer-counts p fs rows w r same stats alone started few =
      let xs = accepted_rows p rows in
      let line : print_totals p xs r.writer ≡ print_counts fs xs r.writer = ap output_dataset_end (
        ap (λ ss. output_aggregators p true ss (map (total xs) ss) (output_dataset_begin r.writer))
          same
        ∙ aggregators-numbers p xs few true fs (output_dataset_begin r.writer)) in
      let (w', answered, result) = answer-total p stats alone rows w r started in
      (
        w',
        answered,
        elim result [ inl failed ↦ inl failed | inr e ↦ inr (e ∙ ap (close_output p 1) line) ],
      )
