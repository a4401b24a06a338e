-- ===== src/Query/Run/Grouping.antt =====
-- A query with statistics and columns answers with a line for each group: the columns of its first row, and what
-- the aggregators make of the rows of the group.

use naemon_livestatus.Prelude.{
  ℕ, suc, ◌+◌, Bool, true, false, ltb, ◌*◌, ◌||◌, or_true, List, [], ◌∷◌, ◌++◌, Option, none, some,
  if◌then◌else◌, length, ◌≡◌, refl, sym, ap, ◌∙◌, inl, inr, subst, arith,
}
use naemon_livestatus.Text.{Bytes}
use naemon_livestatus.Sorter.{insert}
use naemon_livestatus.Sorter.Top.{insert_all}
use naemon_livestatus.Query.Paging.{add_int}
use naemon_livestatus.Query.Run.{
  Plan, Moment, Run, do_stats, is_grouped, group_spec, created, spec_equal, find_group, consume_row,
  consumed, row_size, exceeded, too_large, process_group, process_stats, process_accepted,
}
use naemon_livestatus.Query.Run.Ends.{held}
use naemon_livestatus.Query.Run.Steps.{
  accepted_rows, is_large, Causes, Ran, Good, Failed-too_large, Ran-none, Ran-map, Ran-step,
  if_is_true, if_is_false,
}
use naemon_livestatus.Query.Run.Heap.{Inserts, first_insert, insert_rest, after-Inserts}
use naemon_livestatus.Query.Run.Totals.{consume_rows}
use naemon_livestatus.Query.Run.Groups.{
  known, keys_of, members, firsts, held_appended, held_consumed, find_group-known, keys_consumed,
  keys_appended, spec_equal_self, known_appended,
}

module _ {Row Agg : Type 0} (p : Plan Row Agg) (stats : do_stats p ≡ true)
    (grouped : is_grouped p ≡ true) where
  -- each group has seen its rows, and a row of each new group is in the heap
  pub record Grouped (before : Run Row Agg) (xs : List Row) (r : Run Row Agg) : Type 0 where
    pub groups :
        (spec : List Bytes)
        → held p (find_group spec r.groups)
          ≡ consume_rows p.stats (members p spec xs) (held p (find_group spec before.groups))
    pub heap :
        insert_all p.compare
          (add_int p.limit p.offset)
          before.heap
          (firsts p (keys_of before.groups) xs)
        ≡ some r.heap
    pub writer : r.writer ≡ before.writer
    pub lines : r.current_line ≡ before.current_line + length (firsts p (keys_of before.groups) xs)

  process_accepted_lem :
      (r : Run Row Agg) (row : Row) → process_accepted p r row ≡ process_group p r row
  unfolding process_accepted process_stats
  process_accepted_lem r row =
      if_is_true (do_stats p) _ _ stats ∙ if_is_true (is_grouped p) _ _ grouped

  abbrev after : Run Row Agg → Row → Run Row Agg
  after r row = (consumed p r row).0

  members_more :
      (spec : List Bytes) (row : Row) (xs : List Row) (b : Bool) (as' : List Agg)
      → consume_rows p.stats (members p spec xs) (if b then consume_row p.stats row as' else as')
        ≡ consume_rows p.stats (if b then row ∷ members p spec xs else members p spec xs) as'
  unfolding consume_rows
  members_more spec row xs true as' = refl
  members_more spec row xs false as' = refl

  -- a row of a group that is there
  after-groups :
      (r : Run Row Agg) (row : Row) (xs : List Row) (spec : List Bytes)
      → known (group_spec p row) (keys_of r.groups) ≡ true
      → consume_rows p.stats (members p spec xs) (held p (find_group spec (after r row).groups))
        ≡ consume_rows p.stats (members p spec (row ∷ xs)) (held p (find_group spec r.groups))
  unfolding members
  after-groups r row xs spec is_known =
      ap (consume_rows p.stats (members p spec xs))
        (held_consumed p spec (group_spec p row) row r.groups is_known)
      ∙ members_more spec row xs (spec_equal (group_spec p row) spec)
          (held p (find_group spec r.groups))

  firsts-known :
      (r : Run Row Agg) (row : Row) (xs : List Row)
      → known (group_spec p row) (keys_of r.groups) ≡ true
      → firsts p (keys_of r.groups) (row ∷ xs) ≡ firsts p (keys_of (after r row).groups) xs
  unfolding firsts
  firsts-known r row xs is_known =
      if_is_true (known (group_spec p row) (keys_of r.groups)) _ _ is_known
      ∙ ap (λ keys. firsts p keys xs) (sym (keys_consumed p (group_spec p row) row r.groups))

  after-Grouped :
      (before : Run Row Agg) (row : Row) (xs : List Row) (r : Run Row Agg)
      → known (group_spec p row) (keys_of before.groups) ≡ true
      → Grouped (after before row) xs r
      → Grouped before (row ∷ xs) r
  after-Grouped before row xs r is_known g =
      let same = firsts-known before row xs is_known in
      record {
        groups = λ spec. g.groups spec ∙ after-groups before row xs spec is_known;
        heap = ap (insert_all p.compare (add_int p.limit p.offset) before.heap) same ∙ g.heap;
        writer = g.writer;
        lines = g.lines ∙ ap (λ (rows : List Row). before.current_line + length rows) (sym same);
      }

  abbrev made : Run Row Agg → Row → List Row → Run Row Agg
  made r row h = record r {
    current_line = suc r.current_line;
    heap = h;
    groups = r.groups ++ (group_spec p row, created p) ∷ [];
  }

  made-known :
      (r : Run Row Agg) (row : Row) (h : List Row)
      → known (group_spec p row) (keys_of (made r row h).groups) ≡ true
  made-known r row h =
      let new = group_spec p row in
      ap (known new) (keys_appended p new r.groups)
      ∙ known_appended new new (keys_of r.groups)
      ∙ ap (λ b. known new (keys_of r.groups) || b) (spec_equal_self new)
      ∙ or_true (known new (keys_of r.groups))

  one_more : (a b : ℕ) → suc a + b ≡ a + suc b
  one_more a b = omega arith

  firsts-new :
      (r : Run Row Agg) (row : Row) (h : List Row) (xs : List Row)
      → known (group_spec p row) (keys_of r.groups) ≡ false
      → firsts p (keys_of r.groups) (row ∷ xs)
        ≡ row ∷ firsts p (keys_of (after (made r row h) row).groups) xs
  unfolding firsts
  firsts-new r row h xs is_new =
      let new = group_spec p row in
      let m = made r row h in
      let keys : keys_of (after m row).groups ≡ keys_of r.groups ++ new ∷ [] =
        keys_consumed p new row m.groups ∙ keys_appended p new r.groups in
      if_is_false (known new (keys_of r.groups)) _ _ is_new
      ∙ ap (λ k. row ∷ firsts p k xs) (sym keys)

  made-Grouped :
      (before : Run Row Agg) (row : Row) (h : List Row) (xs : List Row) (r : Run Row Agg)
      → known (group_spec p row) (keys_of before.groups) ≡ false
      → insert p.compare before.heap row (add_int p.limit p.offset) ≡ some h
      → Grouped (after (made before row h) row) xs r
      → Grouped before (row ∷ xs) r
  made-Grouped before row h xs r is_new inserted g =
      let new = group_spec p row in
      let m = made before row h in
      let same = firsts-new before row h xs is_new in
      record {
        groups = λ spec.
            g.groups spec
            ∙ after-groups m row xs spec (made-known before row h)
            ∙ ap (consume_rows p.stats (members p spec (row ∷ xs)))
                (held_appended p spec new before.groups);
        heap =
            ap (insert_all p.compare (add_int p.limit p.offset) before.heap) same
            ∙ insert_rest p before.heap row h inserted (firsts p (keys_of (after m row).groups) xs)
            ∙ g.heap;
        writer = g.writer;
        lines =
            g.lines
            ∙ one_more before.current_line (length (firsts p (keys_of (after m row).groups) xs))
            ∙ ap (λ (rows : List Row). before.current_line + length rows) (sym same);
      }

  group_there :
      (r : Run Row Agg) (row : Row) (aggr : List Agg)
      → find_group (group_spec p row) r.groups ≡ some aggr
      → process_group p r row ≡ some (consumed p r row)
  unfolding process_group
  group_there r row aggr found = rw (found, process_group) refl

  -- what is made of a new group, by whether the rows grow too large
  abbrev grown : Run Row Agg → Row → List Row → Bool → Option (Run Row Agg × Bool)
  grown r row h too_many =
      if too_many then some (too_large p (made r row h)) else some (consumed p (made r row h) row)

  group_new :
      (r : Run Row Agg) (row : Row) (h : List Row)
      → find_group (group_spec p row) r.groups ≡ none
      → insert p.compare r.heap row (add_int p.limit p.offset) ≡ some h
      → process_group p r row
        ≡ grown r row h (ltb p.max_response_size (length h * row_size (group_spec p row)))
  unfolding process_group
  group_new r row h missing inserted = rw (missing, inserted, process_group) refl

  grown-Good :
      (Cause : Type 0) (rows : List (Moment × Row)) (P : Run Row Agg → Type 0) (r : Run Row Agg)
      (row : Row) (h : List Row) (b : Bool)
      → (b ≡ true → Cause)
      → Ran p Cause rows (after (made r row h) row) P
      → Good p Cause rows P (grown r row h b)
  unfolding too_large exceeded
  grown-Good Cause rows P r row h true burst ran =
      (_, refl, inl (Failed-too_large p (made r row h), burst refl))
  grown-Good Cause rows P r row h false burst ran = (_, refl, ran)

  -- the row of a new group makes the groups too large
  abbrev pub Bursts : Type 0 → Run Row Agg → List Row → Type 0
  Bursts Cause r xs =
      (before later h : List Row) (row : Row)
      → firsts p (keys_of r.groups) xs ≡ before ++ row ∷ later
      → insert_all p.compare (add_int p.limit p.offset) r.heap (before ++ row ∷ []) ≡ some h
      → ltb p.max_response_size (length h * row_size (group_spec p row)) ≡ true
      → Cause

  step-known :
      (Cause : Type 0) (m : Moment) (row : Row) (rows : List (Moment × Row)) (r : Run Row Agg)
      (aggr : List Agg)
      → find_group (group_spec p row) r.groups ≡ some aggr
      → known (group_spec p row) (keys_of r.groups) ≡ true
      → Bursts Cause r (row ∷ accepted_rows p rows)
      → ((r' : Run Row Agg)
          → r'.writer ≡ r.writer
          → Inserts p r'.heap
          → Bursts Cause r' (accepted_rows p rows)
          → Ran p Cause rows r' (Grouped r' (accepted_rows p rows)))
      → Inserts p r.heap
      → Good p Cause rows (Grouped r (row ∷ accepted_rows p rows)) (process_group p r row)
  step-known Cause m row rows r aggr found is_known bursts again i =
      let xs = accepted_rows p rows in
      let next = after r row in
      (
        (next, true),
        group_there r row aggr found,
        Ran-map p Cause rows next (Grouped next xs) (Grouped r (row ∷ xs))
            (λ r' g. after-Grouped r row xs r' is_known g)
            (again next refl i (λ before later h other e.
              bursts before later h other (firsts-known r row xs is_known ∙ e))),
      )

  step-new :
      (Cause : Type 0) (m : Moment) (row : Row) (rows : List (Moment × Row)) (r : Run Row Agg)
      → find_group (group_spec p row) r.groups ≡ none
      → known (group_spec p row) (keys_of r.groups) ≡ false
      → Bursts Cause r (row ∷ accepted_rows p rows)
      → ((r' : Run Row Agg)
          → r'.writer ≡ r.writer
          → Inserts p r'.heap
          → Bursts Cause r' (accepted_rows p rows)
          → Ran p Cause rows r' (Grouped r' (accepted_rows p rows)))
      → Inserts p r.heap
      → Good p Cause rows (Grouped r (row ∷ accepted_rows p rows)) (process_group p r row)
  unfolding insert_all
  step-new Cause m row rows r missing is_new bursts again i =
      let xs = accepted_rows p rows in
      let (h, inserted) = first_insert p r.heap row i in
      let next = after (made r row h) row in
      let firsts_now = firsts-new r row h xs is_new in
      subst (Good p Cause rows (Grouped r (row ∷ xs))) (sym (group_new r row h missing inserted)) (
        grown-Good Cause rows (Grouped r (row ∷ xs)) r row h _
          (bursts [] (firsts p (keys_of next.groups) xs) h row firsts_now
            (insert_rest p r.heap row h inserted []))
          (Ran-map p Cause rows next (Grouped next xs) (Grouped r (row ∷ xs))
            (λ r' g. made-Grouped r row h xs r' is_new inserted g)
            (again next refl (after-Inserts p r.heap row h inserted i)
              (λ before later h' other e filled.
                bursts (row ∷ before) later h' other (firsts_now ∙ ap (◌∷◌ row) e)
                  (insert_rest p r.heap row h inserted (before ++ other ∷ []) ∙ filled)))))

  pub process_all-Grouped :
      (Cause : Type 0) (rows : List (Moment × Row)) (r : Run Row Agg)
      → Causes p Cause rows
      → (is_large p r.writer ≡ true → Cause)
      → Inserts p r.heap
      → Bursts Cause r (accepted_rows p rows)
      → Ran p Cause rows r (Grouped r (accepted_rows p rows))
  unfolding accepted_rows insert_all firsts members consume_rows
  process_all-Grouped Cause [] r causes large i bursts =
      Ran-none p Cause r (Grouped r [])
        (record { groups = λ spec. refl; heap = refl; writer = refl; lines = omega arith })
  process_all-Grouped Cause ((m, row) ∷ rows) r (trouble, causes) large i bursts =
      let xs = accepted_rows p rows in
      let again : (r' : Run Row Agg)
          → r'.writer ≡ r.writer
          → Inserts p r'.heap
          → Bursts Cause r' xs
          → Ran p Cause rows r' (Grouped r' xs) =
        λ r' same i' b.
          process_all-Grouped Cause rows r' causes (λ e. large (ap (is_large p) (sym same) ∙ e)) i'
            b in
      Ran-step p Cause m row rows r (Bursts Cause r) (Grouped r) large trouble (again r refl i)
        (λ b.
          subst (Good p Cause rows (Grouped r (row ∷ xs))) (sym (process_accepted_lem r row))
            (elim (find_group-known p (group_spec p row) r.groups) [
              | inr (aggr, found, is_known) ↦
                  step-known Cause m row rows r aggr found is_known b again i
              | inl (missing, is_new) ↦ step-new Cause m row rows r missing is_new b again i
            ]))
        bursts
