-- ===== src/Filter/Selected.antt =====
-- `optimizeBitmask` on a whole filter: no value of a row that the filter accepts is lost.
use mathlib.Core.Bool.{true≢false}
use naemon_livestatus.Prelude.{
  ℕ, ◌<◌, ◌≡◌, ap, sym, ◌∙◌, Bool, true, false, ◌&&◌, ◌||◌, Bool-cases, inl, inr, ltb,
  if◌then◌else◌, arith, ℤ, pos, negsuc, and32, or32, all_ones, test_bit, test_bit-bitwise,
  test_bit-all_ones, xor, and_both, or_either, or_true,
}
use naemon_livestatus.Text.{Bytes, str_equal}
use naemon_livestatus.Filter.{
  Op, int_ref, accepts_ordered, IntColumnFilter, Filter, Filters, anding, oring, negating,
  int_filter, time_filter, string_filter, nil, cons, accepts, all_accept, any_accepts, accepts_int,
}
use naemon_livestatus.Filter.Narrowing.{
  optimize_int_at, optimize_int_ref, optimize_int, optimize_bitmask, optimize_all, optimize_any,
}
use naemon_livestatus.Filter.Bitmask.{optimize_int_at-IsExact, optimize_int_at_skips}

-- the integer columns of that name show the value `v` in the row
unfoldable mutual
  pub Shows : {Row : Type 0} → Filter Row → Bytes → Row → ℕ → Type 0
  Shows (anding fs) name row v = AllShow fs name row v
  Shows (oring fs) name row v = AllShow fs name row v
  Shows (negating f) name row v = Unit
  Shows (int_filter f) name row v =
      str_equal name f.column.name ≡ true → f.column.get_value row ≡ pos v
  Shows (time_filter f) name row v = Unit
  Shows (string_filter f) name row v = Unit

  pub AllShow : {Row : Type 0} → Filters Row → Bytes → Row → ℕ → Type 0
  AllShow nil name row v = Unit
  AllShow (cons f fs) name row v = Shows f name row v × AllShow fs name row v

at_keeps :
    (op : Op) (negate : Bool) (ref v mask : ℕ)
    → ref < 32
    → v < 32
    → xor (accepts_ordered op (pos v) (pos ref)) negate ≡ true
    → test_bit mask v ≡ true
    → test_bit (optimize_int_at op negate ref mask).1 v ≡ true
at_keeps op negate ref v mask hr hv accepted set =
    elim (Bool-cases (optimize_int_at op negate ref mask).0) [
      | inl e ↦
          optimize_int_at-IsExact op negate ref v mask hr hv e
          ∙ ap (λ b. b && xor (accepts_ordered op (pos v) (pos ref)) negate) set
          ∙ accepted
      | inr e ↦ ap (λ m. test_bit m v) (optimize_int_at_skips op negate ref mask e) ∙ set
    ]

int_at_keeps :
    (op : Op) (negate : Bool) (ref : ℤ) (v mask : ℕ)
    → v < 32
    → xor (accepts_ordered op (pos v) ref) negate ≡ true
    → test_bit mask v ≡ true
    → test_bit (optimize_int_ref op negate ref mask).1 v ≡ true
unfolding optimize_int_ref
int_at_keeps op negate (pos ref) v mask hv accepted set = elim (Bool-cases (ltb 31 ref)) [
  | inl e ↦
      ap (λ b. test_bit (if b then (true, mask) else optimize_int_at op negate ref mask).1 v) e
      ∙ set
  | inr e ↦
      ap (λ b. test_bit (if b then (true, mask) else optimize_int_at op negate ref mask).1 v) e
      ∙ at_keeps op negate ref v mask (ground arith) hv accepted set
]
int_at_keeps op negate (negsuc _) v mask hv accepted set = set

if_same : {A : Type 0} (b : Bool) {x y : A} {z : A} → x ≡ z → y ≡ z → (if b then x else y) ≡ z
if_same true p q = p
if_same false p q = q

int_keeps :
    {Row : Type 0} (f : IntColumnFilter Row) (name : Bytes) (row : Row) (v mask : ℕ)
    → (str_equal name f.column.name ≡ true → f.column.get_value row ≡ pos v)
    → v < 32
    → accepts_int f row ≡ true
    → test_bit mask v ≡ true
    → test_bit (optimize_int f name mask).1 v ≡ true
unfolding optimize_int accepts_int
int_keeps f name row v mask shows hv accepted set =
    elim (Bool-cases (str_equal name f.column.name)) [
      | inl e ↦
          let taken : xor (accepts_ordered f.op (pos v) (int_ref f)) f.negate ≡ true =
            ap (λ z. xor (accepts_ordered f.op z (int_ref f)) f.negate) (sym (shows e))
            ∙ accepted in
          ap
            (λ b.
              test_bit
                (if b then optimize_int_ref f.op f.negate (int_ref f) mask else (false, mask)).1 v)
            e
          ∙ int_at_keeps f.op f.negate (int_ref f) v mask hv taken set
      | inr e ↦
          ap
            (λ b.
              test_bit
                (if b then optimize_int_ref f.op f.negate (int_ref f) mask else (false, mask)).1 v)
            e
          ∙ set
    ]

bit-and32 :
    (a b k : ℕ) → k < 32 → test_bit a k ≡ true → test_bit b k ≡ true → test_bit (and32 a b) k ≡ true
bit-and32 a b k h p q = test_bit-bitwise _ 32 a b k h ∙ ap (λ x. x && test_bit b k) p ∙ q

bit-or32_left : (a b k : ℕ) → k < 32 → test_bit a k ≡ true → test_bit (or32 a b) k ≡ true
bit-or32_left a b k h p = test_bit-bitwise _ 32 a b k h ∙ ap (λ x. x || test_bit b k) p

bit-or32_right : (a b k : ℕ) → k < 32 → test_bit b k ≡ true → test_bit (or32 a b) k ≡ true
bit-or32_right a b k h p =
    test_bit-bitwise _ 32 a b k h ∙ ap (λ x. test_bit a k || x) p ∙ or_true (test_bit a k)

if_keeps :
    (b : Bool) (x : Bool × ℕ) (mask v : ℕ)
    → test_bit x.1 v ≡ true
    → test_bit mask v ≡ true
    → test_bit (if b then x else (false, mask)).1 v ≡ true
if_keeps true x mask v p q = p
if_keeps false x mask v p q = q

-- the loop of an `Or`, whose mask so far has the bit already
any_keeps_set :
    {Row : Type 0} (fs : Filters Row) (name : Bytes) (v mask m : ℕ)
    → v < 32
    → test_bit mask v ≡ true
    → test_bit m v ≡ true
    → test_bit (optimize_any fs name mask m).1 v ≡ true
unfolding optimize_any
any_keeps_set nil name v mask m hv set seen = bit-and32 mask m v hv set seen
any_keeps_set (cons f fs) name v mask m hv set seen =
    let mm = (optimize_bitmask f name all_ones).1 in
    let more = any_keeps_set fs name v mask (or32 m mm) hv set (bit-or32_left m mm v hv seen) in
    if_keeps (optimize_bitmask f name all_ones).0 _ mask v more set

mutual
  unfolding Shows accepts optimize_bitmask

  filter_keeps :
      {Row : Type 0} (f : Filter Row) (name : Bytes) (row : Row) (v mask : ℕ)
      → Shows f name row v
      → v < 32
      → accepts f row ≡ true
      → test_bit mask v ≡ true
      → test_bit (optimize_bitmask f name mask).1 v ≡ true
  filter_keeps (anding fs) name row v mask s hv a set =
      all_keeps fs name row v false mask s hv a set
  filter_keeps (oring fs) name row v mask s hv a set = any_keeps fs name row v mask 0 s hv a set
  filter_keeps (negating f) name row v mask s hv a set = set
  filter_keeps (int_filter f) name row v mask s hv a set = int_keeps f name row v mask s hv a set
  filter_keeps (time_filter f) name row v mask s hv a set = set
  filter_keeps (string_filter f) name row v mask s hv a set = set

  all_keeps :
      {Row : Type 0} (fs : Filters Row) (name : Bytes) (row : Row) (v : ℕ) (done : Bool) (mask : ℕ)
      → AllShow fs name row v
      → v < 32
      → all_accept fs row ≡ true
      → test_bit mask v ≡ true
      → test_bit (optimize_all fs name done mask).1 v ≡ true
  all_keeps nil name row v done mask s hv a set = set
  all_keeps (cons f fs) name row v done mask s hv a set =
      let first =
        filter_keeps f name row v mask s.0 hv (and_both (accepts f row) (all_accept fs row) a).0
          set in
      all_keeps fs name row v _ _ s.1 hv (and_both (accepts f row) (all_accept fs row) a).1 first

  any_keeps :
      {Row : Type 0} (fs : Filters Row) (name : Bytes) (row : Row) (v mask m : ℕ)
      → AllShow fs name row v
      → v < 32
      → any_accepts fs row ≡ true
      → test_bit mask v ≡ true
      → test_bit (optimize_any fs name mask m).1 v ≡ true
  any_keeps nil name row v mask m s hv a set = absurd (true≢false (sym a))
  any_keeps (cons f fs) name row v mask m s hv a set =
      let mm = (optimize_bitmask f name all_ones).1 in
      let rest : test_bit (optimize_any fs name mask (or32 m mm)).1 v ≡ true =
        elim (or_either (accepts f row) (any_accepts fs row) a) [
          | inl here ↦ any_keeps_set fs name v mask (or32 m mm) hv set (
              bit-or32_right m mm v hv
                (filter_keeps f name row v all_ones s.0 hv here (test_bit-all_ones v hv)))
          | inr later ↦ any_keeps fs name row v mask (or32 m mm) s.1 hv later set
        ] in
      if_keeps (optimize_bitmask f name all_ones).0 _ mask v rest set

-- optimizeBitmask never drops the value of a row that the filter accepts: a bit of the mask stays
-- set when its value is below 32 and is shown for that row by every integer column of that name in
-- the filter outside a Negate.
pub optimize_bitmask-keeps :
    {Row : Type 0} (f : Filter Row) (name : Bytes) (row : Row) (v mask : ℕ)
    → Shows f name row v
    → v < 32
    → accepts f row ≡ true
    → test_bit mask v ≡ true
    → test_bit (optimize_bitmask f name mask).1 v ≡ true
optimize_bitmask-keeps f name row v mask s hv a set = filter_keeps f name row v mask s hv a set
