-- ===== src/Filter/Narrowing.antt =====
-- src/AndingFilter.cc, OringFilter.cc and the filters of int, time and string columns: what a filter tells a
-- table beforehand, so that the table need not hand all its rows to the query.
use naemon_livestatus.Prelude.{
  ℕ, zero, suc, ◌*◌, ◌/◌, ◌^◌, Bool, true, false, ◌&&◌, ◌||◌, Option, none, some, ltb, ◌==◌,
  if◌then◌else◌, ℤ, pos, negsuc, ltb_ℤ, leb_ℤ, ◌+ℤ◌, ◌-ℤ◌, and32, or32, and_not32, all_ones,
}
use naemon_livestatus.Text.{Bytes, str_equal}
use naemon_livestatus.Filter.{
  Op, equal, greater, less, equal_ℤ, IntColumnFilter, TimeColumnFilter, Filter, Filters, anding,
  oring, negating, int_filter, time_filter, string_filter, nil, cons, int_ref,
}

-- `while (bit) { *mask &= ~bit; bit >>= 1; }`
unfoldable pub clear_down : ℕ → ℕ → ℕ → ℕ
clear_down zero mask bit = mask
clear_down (suc fuel) mask bit =
    let rest = clear_down fuel (and_not32 mask bit) (bit / 2) in if bit == 0 then mask else rest

-- `while (true) { *mask &= ~bit; if (bit == 0x80000000) return true; bit <<= 1; }`
unfoldable pub clear_up : ℕ → ℕ → ℕ → ℕ
clear_up zero mask bit = mask
clear_up (suc fuel) mask bit =
    let rest = clear_up fuel (and_not32 mask bit) (bit * 2) in
    if bit == 2 ^ 31 then and_not32 mask bit else rest

-- the `switch` of `IntColumnFilter::optimizeBitmask`, on a reference between 0 and 31: the result and
-- the new mask
unfoldable pub optimize_int_at : Op → Bool → ℕ → ℕ → Bool × ℕ
optimize_int_at equal false ref mask = (true, and32 mask (2 ^ ref))
optimize_int_at equal true ref mask = (true, and_not32 mask (2 ^ ref))
optimize_int_at less true ref mask = (true, clear_down 33 mask (2 ^ ref / 2))
optimize_int_at greater false ref mask = (true, clear_down 33 mask (2 ^ ref))
optimize_int_at greater true ref mask =
    (true, if ref == 31 then mask else clear_up 33 mask (2 ^ ref * 2))
optimize_int_at less false ref mask = (true, clear_up 33 mask (2 ^ ref))
optimize_int_at _ negate ref mask = (false, mask)

-- a reference out of range cannot be handled with the mask
unfoldable pub optimize_int_ref : Op → Bool → ℤ → ℕ → Bool × ℕ
optimize_int_ref op negate (pos ref) mask =
    if ltb 31 ref then (true, mask) else optimize_int_at op negate ref mask
optimize_int_ref op negate (negsuc _) mask = (true, mask)

unfoldable pub optimize_int : {Row : Type 0} → IntColumnFilter Row → Bytes → ℕ → Bool × ℕ
optimize_int f column_name mask =
    if str_equal column_name f.column.name
    then optimize_int_ref f.op f.negate (int_ref f) mask
    else (false, mask)

-- `Filter::optimizeBitmask` of each class: the result, and `*mask` afterwards
unfoldable mutual
  pub optimize_bitmask : {Row : Type 0} → Filter Row → Bytes → ℕ → Bool × ℕ
  optimize_bitmask (anding fs) name mask = optimize_all fs name false mask
  optimize_bitmask (oring fs) name mask = optimize_any fs name mask 0
  optimize_bitmask (negating f) name mask = (false, mask)
  optimize_bitmask (int_filter f) name mask = optimize_int f name mask
  optimize_bitmask (time_filter f) name mask = (false, mask)
  optimize_bitmask (string_filter f) name mask = (false, mask)

  -- the loop of `AndingFilter::optimizeBitmask`, with `optimized` so far
  pub optimize_all : {Row : Type 0} → Filters Row → Bytes → Bool → ℕ → Bool × ℕ
  optimize_all nil name optimized mask = (optimized, mask)
  optimize_all (cons f fs) name optimized mask =
      let (done, mask') = optimize_bitmask f name mask in
      optimize_all fs name (optimized || done) mask'

  -- the loop of `OringFilter::optimizeBitmask`, with `m` so far
  pub optimize_any : {Row : Type 0} → Filters Row → Bytes → ℕ → ℕ → Bool × ℕ
  optimize_any nil name mask m = (true, and32 mask m)
  optimize_any (cons f fs) name mask m =
      let (done, mm) = optimize_bitmask f name all_ones in
      let rest = optimize_any fs name mask (or32 m mm) in if done then rest else (false, mask)

-- `*lower` and `*upper`
abbrev pub Limits : Type 0
Limits = ℤ × ℤ

-- `TimeColumnFilter::findTimeLimits`, for the right column and an interval that is not empty
unfoldable pub time_limits_at : Op → Bool → ℤ → Limits → Limits
time_limits_at equal false ref (lower, upper) =
    if leb_ℤ lower ref && ltb_ℤ ref upper then (ref, ref +ℤ pos 1) else (upper, upper)
time_limits_at equal true ref (lower, upper) =
    if equal_ℤ ref lower
    then (lower +ℤ pos 1, upper)
    else if equal_ℤ ref (upper -ℤ pos 1)
    then (lower, upper -ℤ pos 1)
    else (lower, upper)
time_limits_at greater false ref (lower, upper) =
    if leb_ℤ lower ref then (ref +ℤ pos 1, upper) else (lower, upper)
time_limits_at less false ref (lower, upper) =
    if ltb_ℤ ref upper then (lower, ref) else (lower, upper)
time_limits_at greater true ref (lower, upper) =
    if ltb_ℤ ref (upper -ℤ pos 1) then (lower, ref +ℤ pos 1) else (lower, upper)
time_limits_at less true ref (lower, upper) =
    if ltb_ℤ lower ref then (ref, upper) else (lower, upper)
time_limits_at _ negate ref limits = limits

unfoldable pub time_limits : {Row : Type 0} → TimeColumnFilter Row → Bytes → Limits → Limits
unfolding time_limits_at
time_limits f column_name limits =
    if str_equal column_name f.column.name && ltb_ℤ limits.0 limits.1
    then time_limits_at f.op f.negate f.ref_value limits
    else limits

-- `Filter::findTimeLimits` of each class. `OringFilter` inherits it from `AndingFilter`.
unfoldable mutual
  unfolding time_limits

  pub find_time_limits : {Row : Type 0} → Filter Row → Bytes → Limits → Limits
  find_time_limits (anding fs) name limits = limits_of_all fs name limits
  find_time_limits (oring fs) name limits = limits_of_all fs name limits
  find_time_limits (negating f) name limits = limits
  find_time_limits (int_filter f) name limits = limits
  find_time_limits (time_filter f) name limits = time_limits f name limits
  find_time_limits (string_filter f) name limits = limits

  pub limits_of_all : {Row : Type 0} → Filters Row → Bytes → Limits → Limits
  limits_of_all nil name limits = limits
  limits_of_all (cons f fs) name limits = limits_of_all fs name (find_time_limits f name limits)

-- the test of `StringColumnFilter::indexFilter`; the second argument says that the column is the one asked for
unfoldable pub index_string : Op → Bool → Bytes → Option Bytes
index_string equal true ref = some ref
index_string _ _ ref = none

-- `indexFilter` of each class: the reference that an index may be asked for
unfoldable pub index_filter : {Row : Type 0} → Filter Row → Bytes → Option Bytes
index_filter (string_filter f) name = index_string f.op (str_equal name f.column.name) f.ref_string
index_filter _ name = none

-- `AndingFilter::findIndexFilter`
unfoldable pub find_index_filter : {Row : Type 0} → Filters Row → Bytes → Option Bytes
find_index_filter nil name = none
find_index_filter (cons f fs) name = elim (index_filter f name) [
  | none ↦ find_index_filter fs name
  | some ref ↦ some ref
]
