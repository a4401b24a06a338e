-- ===== src/Filter/TimeLimits.antt =====
-- `findTimeLimits`: which rows lie in the interval that it leaves.
use mathlib.Core.Bool.{true≢false}
use naemon_livestatus.Prelude.{
  suc, ◌+◌, ◌≡◌, refl, ap, sym, ◌∙◌, Bool, true, false, ◌&&◌, ◌||◌, Bool-cases, inl, inr,
  if◌then◌else◌, arith, ℤ, pos, negsuc, pos_part, neg_part, ltb_ℤ, leb_ℤ, ◌+ℤ◌, ◌-ℤ◌, xor, and_both,
  or_neither,
}
use naemon_livestatus.Text.{Bytes, str_equal, str_equal_self}
use naemon_livestatus.Filter.{
  Column, Op, equal, regex, equal_icase, regex_icase, greater, less, equal_ℤ, accepts_ordered,
  TimeColumnFilter, Filter, Filters, anding, oring, negating, int_filter, time_filter,
  string_filter, nil, cons, accepts, all_accept, accepts_time,
}
use naemon_livestatus.Filter.Narrowing.{
  Limits, time_limits_at, time_limits, find_time_limits, limits_of_all,
}

-- lower ≤ t < upper
abbrev pub within : Limits → ℤ → Bool
within limits t = leb_ℤ limits.0 t && ltb_ℤ t limits.1

add_one : (a : ℤ) → pos_part (a +ℤ pos 1) + neg_part a ≡ suc (pos_part a) + neg_part (a +ℤ pos 1)
unfolding ◌+ℤ◌
add_one (pos n) = ground arith
add_one (negsuc n) = ground arith

sub_one : (a : ℤ) → suc (pos_part (a -ℤ pos 1)) + neg_part a ≡ pos_part a + neg_part (a -ℤ pos 1)
unfolding ◌-ℤ◌
sub_one (pos n) = ground arith
sub_one (negsuc n) = ground arith

at_keeps :
    (op : Op) (negate : Bool) (ref t : ℤ) (limits : Limits)
    → xor (accepts_ordered op t ref) negate ≡ true
    → within limits t ≡ true
    → within (time_limits_at op negate ref limits) t ≡ true
unfolding time_limits_at
at_keeps equal false ref t (lower, upper) a w = let p = add_one ref in ground arith
at_keeps equal true ref t (lower, upper) a w =
    let p = add_one lower in let q = sub_one upper in ground arith
at_keeps greater false ref t (lower, upper) a w = let p = add_one ref in ground arith
at_keeps less false ref t (lower, upper) a w = ground arith
at_keeps greater true ref t (lower, upper) a w =
    let p = add_one ref in let q = sub_one upper in ground arith
at_keeps less true ref t (lower, upper) a w = ground arith
at_keeps regex negate ref t limits a w = w
at_keeps equal_icase negate ref t limits a w = w
at_keeps regex_icase negate ref t limits a w = w

-- `limits` is the interval so far, `next` what a step makes of it
if_within :
    (b : Bool) (next limits : Limits) (t : ℤ)
    → within next t ≡ true
    → within limits t ≡ true
    → within (if b then next else limits) t ≡ true
if_within true next limits t p q = p
if_within false next limits t p q = q

-- there is no `Or` outside a `Negate`
unfoldable mutual
  pub has_or : {Row : Type 0} → Filter Row → Bool
  has_or (anding fs) = any_has_or fs
  has_or (oring fs) = true
  has_or (negating f) = false
  has_or (int_filter f) = false
  has_or (time_filter f) = false
  has_or (string_filter f) = false

  pub any_has_or : {Row : Type 0} → Filters Row → Bool
  any_has_or nil = false
  any_has_or (cons f fs) = has_or f || any_has_or fs

-- the time columns of that name show the time `t` in the row
unfoldable mutual
  pub ShowsTime : {Row : Type 0} → Filter Row → Bytes → Row → ℤ → Type 0
  ShowsTime (anding fs) name row t = AllShowTime fs name row t
  ShowsTime (oring fs) name row t = AllShowTime fs name row t
  ShowsTime (negating f) name row t = Unit
  ShowsTime (int_filter f) name row t = Unit
  ShowsTime (time_filter f) name row t =
      str_equal name f.column.name ≡ true → f.column.get_value row ≡ t
  ShowsTime (string_filter f) name row t = Unit

  pub AllShowTime : {Row : Type 0} → Filters Row → Bytes → Row → ℤ → Type 0
  AllShowTime nil name row t = Unit
  AllShowTime (cons f fs) name row t = ShowsTime f name row t × AllShowTime fs name row t

time_keeps :
    {Row : Type 0} (f : TimeColumnFilter Row) (name : Bytes) (row : Row) (t : ℤ) (limits : Limits)
    → (str_equal name f.column.name ≡ true → f.column.get_value row ≡ t)
    → accepts_time f row ≡ true
    → within limits t ≡ true
    → within (time_limits f name limits) t ≡ true
unfolding time_limits accepts_time
time_keeps f name row t limits shows a w = elim (Bool-cases (str_equal name f.column.name)) [
  | inl e ↦
      let taken : xor (accepts_ordered f.op t f.ref_value) f.negate ≡ true =
        ap (λ z. xor (accepts_ordered f.op z f.ref_value) f.negate) (sym (shows e)) ∙ a in
      if_within (str_equal name f.column.name && ltb_ℤ limits.0 limits.1) _ limits t
        (at_keeps f.op f.negate f.ref_value t limits taken w) w
  | inr e ↦
      ap
        (λ b.
          within
            (if b && ltb_ℤ limits.0 limits.1
              then time_limits_at f.op f.negate f.ref_value limits
              else limits)
            t)
        e
      ∙ w
]

mutual
  unfolding has_or ShowsTime accepts find_time_limits

  filter_keeps :
      {Row : Type 0} (f : Filter Row) (name : Bytes) (row : Row) (t : ℤ) (limits : Limits)
      → has_or f ≡ false
      → ShowsTime f name row t
      → accepts f row ≡ true
      → within limits t ≡ true
      → within (find_time_limits f name limits) t ≡ true
  filter_keeps (anding fs) name row t limits clean s a w =
      limits_of_all-keeps fs name row t limits clean s a w
  filter_keeps (oring fs) name row t limits clean s a w = absurd (true≢false clean)
  filter_keeps (negating f) name row t limits clean s a w = w
  filter_keeps (int_filter f) name row t limits clean s a w = w
  filter_keeps (time_filter f) name row t limits clean s a w = time_keeps f name row t limits s a w
  filter_keeps (string_filter f) name row t limits clean s a w = w

  limits_of_all-keeps :
      {Row : Type 0} (fs : Filters Row) (name : Bytes) (row : Row) (t : ℤ) (limits : Limits)
      → any_has_or fs ≡ false
      → AllShowTime fs name row t
      → all_accept fs row ≡ true
      → within limits t ≡ true
      → within (limits_of_all fs name limits) t ≡ true
  limits_of_all-keeps nil name row t limits clean s a w = w
  limits_of_all-keeps (cons f fs) name row t limits clean s a w =
      let both = and_both (accepts f row) (all_accept fs row) a in
      let first =
        filter_keeps f name row t limits (or_neither (has_or f) (any_has_or fs) clean).0 s.0 both.0
          w in
      limits_of_all-keeps fs name row t _ (or_neither (has_or f) (any_has_or fs) clean).1 s.1 both.1
        first

-- For a filter with no Or outside a Negate: when it accepts a row whose time, as every time column
-- of that name in the filter outside a Negate shows it, lies in the interval, then the time lies in
-- the interval that findTimeLimits leaves.
pub find_time_limits-keeps :
    {Row : Type 0} (f : Filter Row) (name : Bytes) (row : Row) (t : ℤ) (limits : Limits)
    → has_or f ≡ false
    → ShowsTime f name row t
    → accepts f row ≡ true
    → within limits t ≡ true
    → within (find_time_limits f name limits) t ≡ true
find_time_limits-keeps f name row t limits clean s a w =
    filter_keeps f name row t limits clean s a w

equal_narrows :
    (ref : ℤ) (limits : Limits) (b : Bool) (t : ℤ)
    → b ≡ ltb_ℤ limits.0 limits.1
    → within (if b then time_limits_at equal false ref limits else limits) t ≡ true
    → (within limits t ≡ true) × (equal_ℤ t ref ≡ true)
unfolding time_limits_at
equal_narrows ref (lower, upper) true t e w = let p = add_one ref in (ground arith, ground arith)
equal_narrows ref (lower, upper) false t e w = (ground arith, ground arith)

unequal : (a b t : ℤ) → equal_ℤ a b ≡ false → equal_ℤ t a ≡ true → equal_ℤ t b ≡ true → ⊥
unequal a b t h p q = ground arith

-- the filter `column = ref`
abbrev pub asks_for : {Row : Type 0} → Column Row ℤ → ℤ → Filter Row
asks_for column ref =
    time_filter (record { column = column; op = equal; negate = false; ref_value = ref })

asks_for_narrows :
    {Row : Type 0} (column : Column Row ℤ) (ref : ℤ) (limits : Limits) (t : ℤ)
    → within (find_time_limits (asks_for column ref) column.name limits) t ≡ true
    → (within limits t ≡ true) × (equal_ℤ t ref ≡ true)
unfolding find_time_limits time_limits
asks_for_narrows column ref limits t w =
    let same = ap (λ b. b && ltb_ℤ limits.0 limits.1) (str_equal_self column.name) in
    equal_narrows ref limits _ t same w

not_true : (b : Bool) → (b ≡ true → ⊥) → b ≡ false
not_true true f = absurd (f refl)
not_true false f = refl

-- Of two filters that ask one time column for two different times, joined by an Or, findTimeLimits
-- leaves no time at all in the interval, whatever it was.
pub find_time_limits-oring :
    {Row : Type 0} (column : Column Row ℤ) (a b : ℤ) (limits : Limits) (t : ℤ)
    → equal_ℤ a b ≡ false
    → within
        (find_time_limits
          (oring (cons (asks_for column a) (cons (asks_for column b) nil)))
          column.name
          limits)
        t
      ≡ false
unfolding find_time_limits
find_time_limits-oring column a b limits t h = not_true _ (λ w.
    let second =
      asks_for_narrows column b (find_time_limits (asks_for column a) column.name limits) t w in
    let first = asks_for_narrows column a limits t second.0 in unequal a b t h first.1 second.1)
