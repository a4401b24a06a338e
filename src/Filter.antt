-- ===== src/Filter.antt =====
-- src/AndingFilter.cc, OringFilter.cc, NegatingFilter.h and the filters of int, time and string columns:
-- a filter is a tree, and a row is tested by `accepts`. The regular expressions are those of the C
-- library or of ICU: a filter holds what compiling its pattern gave.
pub mod Combine
pub mod Narrowing
pub mod Bitmask
pub mod Selected
pub mod TimeLimits
pub mod Index
use naemon_livestatus.Prelude.{
  ℕ, zero, suc, ◌+◌, ◌-◌, ◌*◌, ◌/◌, ◌^◌, Bool, true, false, not, ◌&&◌, ◌||◌, List, [], ◌∷◌, ◌++◌,
  Option, none, some, ltb, leb, ◌==◌, if◌then◌else◌, ℤ, pos, negsuc, ltb_ℤ, leb_ℤ, ◌+ℤ◌, ◌-ℤ◌,
  and32, or32, and_not32, all_ones, xor,
}
use naemon_livestatus.Text.{Bytes, str_equal, atoi}

-- `OP_...`; a negative operator id is a flag of its own, and `OP_INVALID` is the absence of a value
pub data Op : Type 0 where
  equal regex equal_icase regex_icase greater less : Op

-- equality of two integers
abbrev pub equal_ℤ : ℤ → ℤ → Bool
equal_ℤ a b = leb_ℤ a b && leb_ℤ b a

-- `A` to `Z`
abbrev pub to_lower : ℕ → ℕ
to_lower c = if leb b'A' c && leb c b'Z' then c + 32 else c

unfoldable pub str_equal_icase : Bytes → Bytes → Bool
str_equal_icase [] [] = true
str_equal_icase (a ∷ s) (b ∷ t) = to_lower a == to_lower b && str_equal_icase s t
str_equal_icase _ _ = false

-- `strcmp(a, b) < 0`
unfoldable pub str_less : Bytes → Bytes → Bool
str_less [] [] = false
str_less [] (b ∷ t) = true
str_less (a ∷ s) [] = false
str_less (a ∷ s) (b ∷ t) = ltb a b || (a == b && str_less s t)

-- a column: its name, and its value in a row
pub record Column (Row : Type 0) (Value : Type 0) : Type 0 where
  pub name : Bytes
  pub get_value : Row → Value

-- `IntColumnFilter`: the reference stays a text, which is converted at each use
pub record IntColumnFilter (Row : Type 0) : Type 0 where
  pub column : Column Row ℤ
  pub op : Op
  pub negate : Bool
  pub ref_string : Bytes

-- `TimeColumnFilter`: the reference is converted in the constructor, when no query is set yet
pub record TimeColumnFilter (Row : Type 0) : Type 0 where
  pub column : Column Row ℤ
  pub op : Op
  pub negate : Bool
  pub ref_value : ℤ

-- `StringColumnFilter`: `regex` is the compiled pattern, if there is one
pub record StringColumnFilter (Row : Type 0) : Type 0 where
  pub column : Column Row Bytes
  pub op : Op
  pub negate : Bool
  pub ref_string : Bytes
  pub regex : Option (Bytes → Bool)

mutual
  pub data Filter (Row : Type 0) : Type 0 where
    anding : Filters Row → Filter Row
    oring : Filters Row → Filter Row
    negating : Filter Row → Filter Row
    int_filter : IntColumnFilter Row → Filter Row
    time_filter : TimeColumnFilter Row → Filter Row
    string_filter : StringColumnFilter Row → Filter Row

  -- `_subfilters`, from front to back
  pub data Filters (Row : Type 0) : Type 0 where
    nil : Filters Row
    cons : Filter Row → Filters Row → Filters Row

-- `switch (_opid)` on integers
abbrev pub accepts_ordered : Op → ℤ → ℤ → Bool
accepts_ordered equal act ref = equal_ℤ act ref
accepts_ordered greater act ref = ltb_ℤ ref act
accepts_ordered less act ref = ltb_ℤ act ref
accepts_ordered _ act ref = true

abbrev pub int_ref : {Row : Type 0} → IntColumnFilter Row → ℤ
int_ref f = atoi f.ref_string

unfoldable pub accepts_int : {Row : Type 0} → IntColumnFilter Row → Row → Bool
accepts_int f row = xor (accepts_ordered f.op (f.column.get_value row) (int_ref f)) f.negate

unfoldable pub accepts_time : {Row : Type 0} → TimeColumnFilter Row → Row → Bool
accepts_time f row = xor (accepts_ordered f.op (f.column.get_value row) f.ref_value) f.negate

abbrev pub matches : Option (Bytes → Bool) → Bytes → Bool
matches none s = false
matches (some m) s = m s

abbrev pub accepts_text : Op → Option (Bytes → Bool) → Bytes → Bytes → Bool
accepts_text equal m act ref = str_equal ref act
accepts_text equal_icase m act ref = str_equal_icase ref act
accepts_text regex m act ref = matches m act
accepts_text regex_icase m act ref = matches m act
accepts_text greater m act ref = str_less ref act
accepts_text less m act ref = str_less act ref

unfoldable pub accepts_string : {Row : Type 0} → StringColumnFilter Row → Row → Bool
accepts_string f row =
    xor (accepts_text f.op f.regex (f.column.get_value row) f.ref_string) f.negate

-- `Filter::accepts` of each class
unfoldable mutual
  pub accepts : {Row : Type 0} → Filter Row → Row → Bool
  accepts (anding fs) row = all_accept fs row
  accepts (oring fs) row = any_accepts fs row
  accepts (negating f) row = not (accepts f row)
  accepts (int_filter f) row = accepts_int f row
  accepts (time_filter f) row = accepts_time f row
  accepts (string_filter f) row = accepts_string f row

  -- the loop of `AndingFilter::accepts`
  pub all_accept : {Row : Type 0} → Filters Row → Row → Bool
  all_accept nil row = true
  all_accept (cons f fs) row = accepts f row && all_accept fs row

  -- the loop of `OringFilter::accepts`
  pub any_accepts : {Row : Type 0} → Filters Row → Row → Bool
  any_accepts nil row = false
  any_accepts (cons f fs) row = accepts f row || any_accepts fs row

-- `AndingFilter::addSubfilter`
unfoldable pub add_subfilter : {Row : Type 0} → Filters Row → Filter Row → Filters Row
add_subfilter nil f = cons f nil
add_subfilter (cons g gs) f = cons g (add_subfilter gs f)

unfoldable pub size : {Row : Type 0} → Filters Row → ℕ
size nil = 0
size (cons f fs) = suc (size fs)

-- `AndingFilter::stealLastSubfilter`: the subfilters that remain, and the last one
unfoldable pub steal_last : {Row : Type 0} → Filters Row → Option (Filters Row × Filter Row)
steal_last nil = none
steal_last (cons f fs) = elim (steal_last fs) [
  | none ↦ some (nil, f)
  | some (rest, last) ↦ some (cons f rest, last)
]

pub data AndOr : Type 0 where
  and_them or_them : AndOr

abbrev pub combined : {Row : Type 0} → AndOr → Filters Row → Filter Row
combined and_them fs = anding fs
combined or_them fs = oring fs

-- `while (count--)`: what is left on the stack, and the subfilters of the new filter
unfoldable pub move_last :
    {Row : Type 0} → ℕ → Filters Row → Filters Row → Filters Row × Filters Row
move_last zero fs taken = (fs, taken)
move_last (suc count) fs taken = elim (steal_last fs) [
  | none ↦ (fs, taken)
  | some (rest, last) ↦ move_last count rest (add_subfilter taken last)
]

-- `AndingFilter::combineFilters`: nothing when fewer are on the stack, an error of code 400
unfoldable pub combine_filters : {Row : Type 0} → ℕ → AndOr → Filters Row → Option (Filters Row)
combine_filters count andor fs =
    let (left, taken) = move_last count fs nil in
    if ltb (size fs) count then none else some (add_subfilter left (combined andor taken))

-- `Query::parseNegateLine`: the last filter is replaced by its negation
unfoldable pub negate_last : {Row : Type 0} → Filters Row → Option (Filters Row)
negate_last fs = elim (steal_last fs) [
  | none ↦ none
  | some (rest, last) ↦ some (add_subfilter rest (negating last))
]
