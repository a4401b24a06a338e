-- ===== src/Filter/Combine.antt =====
-- The stack of filters: `And:`, `Or:` and `Negate:` replace its last filters by one.
use mathlib.Core.Bool.{and-true, and_assoc}
use naemon_livestatus.Prelude.{
  ℕ, suc, ◌≡◌, ◌+◌, ◌<◌, refl, ap, ap₂, sym, ◌∙◌, Bool, true, false, not, ◌&&◌, if◌then◌else◌,
  Option, some, none, ltb, arith,
}
use naemon_livestatus.Filter.{
  Filter, Filters, negating, nil, cons, AndOr, and_them, or_them, combined, accepts, all_accept,
  any_accepts, add_subfilter, size, steal_last, move_last, combine_filters, negate_last,
}

all_accept-add :
    {Row : Type 0} (fs : Filters Row) (f : Filter Row) (row : Row)
    → all_accept (add_subfilter fs f) row ≡ all_accept fs row && accepts f row
unfolding add_subfilter all_accept
all_accept-add nil f row = and-true (accepts f row)
all_accept-add (cons g gs) f row =
    ap (λ b. accepts g row && b) (all_accept-add gs f row)
    ∙ sym (and_assoc (accepts g row) (all_accept gs row) (accepts f row))

size-add :
    {Row : Type 0} (fs : Filters Row) (f : Filter Row) → size (add_subfilter fs f) ≡ suc (size fs)
unfolding size add_subfilter
size-add nil f = refl
size-add (cons g gs) f = ap suc (size-add gs f)

steal_last-add :
    {Row : Type 0} (fs : Filters Row) (f : Filter Row)
    → steal_last (add_subfilter fs f) ≡ some (fs, f)
unfolding steal_last add_subfilter
steal_last-add nil f = refl
steal_last-add (cons g gs) f = rw (steal_last-add gs f)

-- the stack `fs` with `newer` pushed on it, the newest of them first
unfoldable pub push_all : {Row : Type 0} → Filters Row → Filters Row → Filters Row
push_all fs nil = fs
push_all fs (cons f newer) = add_subfilter (push_all fs newer) f

unfoldable join : {Row : Type 0} → Filters Row → Filters Row → Filters Row
join nil gs = gs
join (cons f fs) gs = cons f (join fs gs)

join-add :
    {Row : Type 0} (fs : Filters Row) (f : Filter Row) (gs : Filters Row)
    → join (add_subfilter fs f) gs ≡ join fs (cons f gs)
unfolding join add_subfilter
join-add nil f gs = refl
join-add (cons g fs) f gs = ap (cons g) (join-add fs f gs)

join-nil : {Row : Type 0} (fs : Filters Row) → join fs nil ≡ fs
unfolding join
join-nil nil = refl
join-nil (cons f fs) = ap (cons f) (join-nil fs)

join_to_nil : {Row : Type 0} (fs : Filters Row) → join nil fs ≡ fs
unfolding join
join_to_nil fs = refl

move_last_next :
    {Row : Type 0} (count : ℕ) (fs : Filters Row) (f : Filter Row) (taken : Filters Row)
    → move_last (suc count) (add_subfilter fs f) taken ≡ move_last count fs (add_subfilter taken f)
unfolding move_last
move_last_next {Row} count fs f taken =
    ap
      (λ (o : Option (Filters Row × Filter Row)). elim o [
        | none ↦ (add_subfilter fs f, taken)
        | some (rest, last) ↦ move_last count rest (add_subfilter taken last)
      ])
      (steal_last-add fs f)

move_last_lem :
    {Row : Type 0} (fs newer taken : Filters Row)
    → move_last (size newer) (push_all fs newer) taken ≡ (fs, join taken newer)
unfolding size push_all
move_last_lem fs nil taken = unfold move_last in ap (λ t. (fs, t)) (sym (join-nil taken))
move_last_lem fs (cons f newer) taken =
    move_last_next (size newer) (push_all fs newer) f taken
    ∙ move_last_lem fs newer (add_subfilter taken f)
    ∙ ap (λ t. (fs, t)) (join-add taken f newer)

size-push_all :
    {Row : Type 0} (fs newer : Filters Row) → size (push_all fs newer) ≡ size fs + size newer
unfolding size push_all
size-push_all fs nil = omega arith
size-push_all fs (cons f newer) =
    omega (arith, size-add (push_all fs newer) f, size-push_all fs newer)

-- what the new filter says of a row
abbrev pub combined_accepts : {Row : Type 0} → AndOr → Filters Row → Row → Bool
combined_accepts and_them fs row = all_accept fs row
combined_accepts or_them fs row = any_accepts fs row

combined_lem :
    {Row : Type 0} (andor : AndOr) (fs : Filters Row) (row : Row)
    → accepts (combined andor fs) row ≡ combined_accepts andor fs row
unfolding accepts
combined_lem and_them fs row = refl
combined_lem or_them fs row = refl

-- And: n and Or: n, with at least n filters on the stack, replace the last n by one filter: a row is
-- then accepted when the filters below accept it and all, or one, of the n do, and the stack has one
-- filter more than were below.
pub combine_filters_lem :
    {Row : Type 0} (andor : AndOr) (fs newer : Filters Row)
    → (stack : Filters Row) × (combine_filters (size newer) andor (push_all fs newer) ≡ some stack)
      × (size stack ≡ suc (size fs))
      × ((row : Row) → all_accept stack row ≡ all_accept fs row && combined_accepts andor newer row)
unfolding combine_filters
combine_filters_lem andor fs newer =
    let enough : ltb (size (push_all fs newer)) (size newer) ≡ false =
      ground (arith, size-push_all fs newer) in
    let moved = move_last_lem fs newer nil in
    (
      add_subfilter fs (combined andor newer),
      ap₂
          (λ b (m : Filters _ × Filters _).
            if b then none else some (add_subfilter m.0 (combined andor m.1)))
          enough (moved ∙ ap (λ t. (fs, t)) (join_to_nil newer)),
      size-add fs _,
      λ row.
          all_accept-add fs (combined andor newer) row
          ∙ ap (λ b. all_accept fs row && b) (combined_lem andor newer row),
    )

-- With fewer filters on the stack than And: or Or: asks for, nothing is combined.
pub combine_filters_missing :
    {Row : Type 0} (count : ℕ) (andor : AndOr) (fs : Filters Row)
    → size fs < count
    → combine_filters count andor fs ≡ none
unfolding combine_filters
combine_filters_missing count andor fs h =
    let missing : ltb (size fs) count ≡ true = ground arith in
    ap
      (λ b.
        if b
        then none
        else some
            (add_subfilter (move_last count fs nil).0 (combined andor (move_last count fs nil).1)))
      missing

-- Negate: replaces the last filter of the stack by its negation, so that a row is accepted when the
-- filters below accept it and that one does not; the number of filters stays; on an empty stack it
-- fails.
pub negate_last_lem :
    {Row : Type 0} (fs : Filters Row) (f : Filter Row)
    → (negate_last {Row = Row} nil ≡ none)
      × ((stack : Filters Row) × (negate_last (add_subfilter fs f) ≡ some stack)
          × (size stack ≡ size (add_subfilter fs f))
          × ((row : Row) → all_accept stack row ≡ all_accept fs row && not (accepts f row)))
unfolding negate_last
negate_last_lem {Row} fs f = (
  unfold steal_last in refl,
  (
    add_subfilter fs (negating f),
    ap
        (λ (o : Option (Filters Row × Filter Row)). elim o [
          | none ↦ none
          | some (rest, last) ↦ some (add_subfilter rest (negating last))
        ])
        (steal_last-add fs f),
    size-add fs (negating f) ∙ sym (size-add fs f),
    λ row. all_accept-add fs (negating f) row ∙ (unfold accepts in refl),
  ),
)
