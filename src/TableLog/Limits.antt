-- ===== src/TableLog/Limits.antt =====
-- `findTimeLimits` of src/TimeColumnFilter.cc and src/AndingFilter.cc never moves the end of the interval
-- further out, so that the end which src/TableLog.cc works with stays in front of the clock.
use naemon_livestatus.Prelude.{
  Bool, true, false, ◌&&◌, ◌≡◌, Bool-cases, inl, inr, arith, ℤ, ltb_ℤ, ◌≤ℤ◌, ◌+ℤ◌, ◌-ℤ◌, and_both,
}
use naemon_livestatus.Text.{Bytes, str_equal}
use naemon_livestatus.Filter.{
  Op, equal, regex, equal_icase, regex_icase, greater, less, Filter, Filters, anding, oring,
  negating, int_filter, time_filter, string_filter, nil, cons, TimeColumnFilter,
}
use naemon_livestatus.Filter.Narrowing.{
  Limits, time_limits_at, time_limits, find_time_limits, limits_of_all,
}

time_limits_at-upper :
    (op : Op) (negate : Bool) (ref : ℤ) (limits : Limits)
    → ltb_ℤ limits.0 limits.1 ≡ true
    → (time_limits_at op negate ref limits).1 ≤ℤ limits.1
unfolding time_limits_at ◌+ℤ◌ ◌-ℤ◌
time_limits_at-upper equal false ref (lower, upper) h = ground arith
time_limits_at-upper equal true ref (lower, upper) h = ground arith
time_limits_at-upper greater false ref (lower, upper) h = ground arith
time_limits_at-upper less false ref (lower, upper) h = ground arith
time_limits_at-upper greater true ref (lower, upper) h = ground arith
time_limits_at-upper less true ref (lower, upper) h = ground arith
time_limits_at-upper regex negate ref limits h = omega arith
time_limits_at-upper equal_icase negate ref limits h = omega arith
time_limits_at-upper regex_icase negate ref limits h = omega arith

time_limits-upper :
    {Row : Type 0} (f : TimeColumnFilter Row) (name : Bytes) (limits : Limits)
    → (time_limits f name limits).1 ≤ℤ limits.1
unfolding time_limits
time_limits-upper f name limits =
    elim (Bool-cases (str_equal name f.column.name && ltb_ℤ limits.0 limits.1)) [
      | inl h ↦ rw h (
          time_limits_at-upper f.op f.negate f.ref_value limits
            (and_both (str_equal name f.column.name) (ltb_ℤ limits.0 limits.1) h).1)
      | inr h ↦ rw h (omega arith)
    ]

mutual
  unfolding find_time_limits

  find_upper :
      {Row : Type 0} (f : Filter Row) (name : Bytes) (limits : Limits)
      → (find_time_limits f name limits).1 ≤ℤ limits.1
  find_upper (anding fs) name limits = all_upper fs name limits
  find_upper (oring fs) name limits = all_upper fs name limits
  find_upper (negating f) name limits = omega arith
  find_upper (int_filter f) name limits = omega arith
  find_upper (time_filter f) name limits = time_limits-upper f name limits
  find_upper (string_filter f) name limits = omega arith

  all_upper :
      {Row : Type 0} (fs : Filters Row) (name : Bytes) (limits : Limits)
      → (limits_of_all fs name limits).1 ≤ℤ limits.1
  all_upper nil name limits = omega arith
  all_upper (cons f fs) name limits =
      let first = find_upper f name limits in
      let rest = all_upper fs name (find_time_limits f name limits) in omega (arith, first, rest)

pub find_time_limits-upper :
    {Row : Type 0} (f : Filter Row) (name : Bytes) (limits : Limits)
    → (find_time_limits f name limits).1 ≤ℤ limits.1
find_time_limits-upper f name limits = find_upper f name limits
