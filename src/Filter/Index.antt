-- ===== src/Filter/Index.antt =====
-- `indexFilter` and `findIndexFilter`: which value of a column an index is asked for.
use mathlib.Core.Bool.{true≢false}
use mathlib.Core.Option.{some_inj, none-ne-some}
use naemon_livestatus.Prelude.{
  ◌≡◌, ◌≢◌, refl, ap, ap₂, sym, ◌∙◌, Bool, true, false, not, ◌&&◌, inl, inr, Option, some, none,
  Option-cases, xor, xor-false, xor-true, and_both, not-true,
}
use naemon_livestatus.Text.{Bytes, str_equal, str_equal_self, str_equal→eq}
use naemon_livestatus.Filter.{
  Op, equal, regex, equal_icase, regex_icase, greater, less, accepts_text, StringColumnFilter,
  Filters, anding, oring, negating, int_filter, time_filter, string_filter, nil, cons, accepts,
  all_accept, any_accepts, accepts_int, accepts_time, accepts_string,
}
use naemon_livestatus.Filter.Narrowing.{index_string, index_filter, find_index_filter}

-- the string columns of that name among the subfilters show the text `s` in the row
unfoldable pub ShowsText : {Row : Type 0} → Filters Row → Bytes → Row → Bytes → Type 0
ShowsText nil name row s = Unit
ShowsText (cons (string_filter f) fs) name row s =
    (str_equal name f.column.name ≡ true → f.column.get_value row ≡ s) × ShowsText fs name row s
ShowsText (cons _ fs) name row s = ShowsText fs name row s

-- none of the string filters among the subfilters is negated
unfoldable pub is_plain : {Row : Type 0} → Filters Row → Bool
is_plain nil = true
is_plain (cons (string_filter f) fs) = not f.negate && is_plain fs
is_plain (cons _ fs) = is_plain fs

index_string_sound :
    (op : Op) (same : Bool) (ref found act : Bytes) (m : Option (Bytes → Bool))
    → index_string op same ref ≡ some found
    → accepts_text op m act ref ≡ true
    → (same ≡ true) × (act ≡ found)
unfolding index_string
index_string_sound equal true ref found act m e a =
    (refl, sym (str_equal→eq ref act a) ∙ some_inj.0 e)
index_string_sound equal false ref found act m e a = absurd (none-ne-some _ e)
index_string_sound regex same ref found act m e a = absurd (none-ne-some _ e)
index_string_sound equal_icase same ref found act m e a = absurd (none-ne-some _ e)
index_string_sound regex_icase same ref found act m e a = absurd (none-ne-some _ e)
index_string_sound greater same ref found act m e a = absurd (none-ne-some _ e)
index_string_sound less same ref found act m e a = absurd (none-ne-some _ e)

index_filter_sound :
    {Row : Type 0} (f : StringColumnFilter Row) (name : Bytes) (row : Row) (ref : Bytes)
    → f.negate ≡ false
    → index_filter (string_filter f) name ≡ some ref
    → accepts_string f row ≡ true
    → (str_equal name f.column.name ≡ true) × (f.column.get_value row ≡ ref)
unfolding index_filter accepts_string
index_filter_sound f name row ref plain e a =
    let act = f.column.get_value row in
    let taken : accepts_text f.op f.regex act f.ref_string ≡ true =
      sym (xor-false _) ∙ sym (ap (xor (accepts_text f.op f.regex act f.ref_string)) plain) ∙ a in
    index_string_sound f.op _ f.ref_string ref act f.regex e taken

-- When no string filter among the subfilters is negated and findIndexFilter returns a reference, a
-- row that all the subfilters accept, and of which all string columns of that name show one text,
-- shows the reference.
pub find_index_filter_sound :
    {Row : Type 0} (fs : Filters Row) (name : Bytes) (row : Row) (s ref : Bytes)
    → is_plain fs ≡ true
    → ShowsText fs name row s
    → find_index_filter fs name ≡ some ref
    → all_accept fs row ≡ true
    → s ≡ ref
unfolding is_plain ShowsText find_index_filter accepts index_filter
find_index_filter_sound nil name row s ref plain shows e a = absurd (none-ne-some _ e)
find_index_filter_sound (cons (string_filter f) fs) name row s ref plain shows e a =
    let at = and_both (accepts_string f row) (all_accept fs row) a in
    let clean = and_both (not f.negate) (is_plain fs) plain in
    let rest : Option Bytes → Option Bytes =
      λ o. elim o [ none ↦ find_index_filter fs name | some r ↦ some r ] in
    elim (Option-cases (index_filter (string_filter f) name)) [
      | inl missing ↦
          find_index_filter_sound fs name row s ref clean.1 shows.1 (sym (ap rest missing) ∙ e) at.1
      | inr (r, found) ↦
          let right = index_filter_sound f name row r (not-true f.negate clean.0) found at.0 in
          sym (shows.0 right.0) ∙ right.1 ∙ some_inj.0 (sym (ap rest found) ∙ e)
    ]
find_index_filter_sound (cons (anding gs) fs) name row s ref plain shows e a =
    find_index_filter_sound fs name row s ref plain shows e
      (and_both (all_accept gs row) (all_accept fs row) a).1
find_index_filter_sound (cons (oring gs) fs) name row s ref plain shows e a =
    find_index_filter_sound fs name row s ref plain shows e
      (and_both (any_accepts gs row) (all_accept fs row) a).1
find_index_filter_sound (cons (negating f) fs) name row s ref plain shows e a =
    find_index_filter_sound fs name row s ref plain shows e
      (and_both (not (accepts f row)) (all_accept fs row) a).1
find_index_filter_sound (cons (int_filter f) fs) name row s ref plain shows e a =
    find_index_filter_sound fs name row s ref plain shows e
      (and_both (accepts_int f row) (all_accept fs row) a).1
find_index_filter_sound (cons (time_filter f) fs) name row s ref plain shows e a =
    find_index_filter_sound fs name row s ref plain shows e
      (and_both (accepts_time f row) (all_accept fs row) a).1

-- A filter column != ref names its reference for the index, although no row that it accepts shows
-- that text.
index_filter-negated :
    {Row : Type 0} (f : StringColumnFilter Row) (row : Row)
    → f.op ≡ equal
    → f.negate ≡ true
    → (index_filter (string_filter f) f.column.name ≡ some f.ref_string)
      × (accepts (string_filter f) row ≡ true → f.column.get_value row ≢ f.ref_string)
unfolding index_filter index_string accepts accepts_string
index_filter-negated f row o n =
    let act = f.column.get_value row in
    (
      ap (λ op. index_string op (str_equal f.column.name f.column.name) f.ref_string) o
          ∙ ap (λ b. index_string equal b f.ref_string) (str_equal_self f.column.name),
      λ a same.
          let differs : not (str_equal f.ref_string act) ≡ true =
            sym (ap₂ (λ op b. xor (accepts_text op f.regex act f.ref_string) b) o n ∙ xor-true _)
            ∙ a in
          true≢false
            (sym differs ∙ ap not (ap (str_equal f.ref_string) same ∙ str_equal_self f.ref_string)),
    )
