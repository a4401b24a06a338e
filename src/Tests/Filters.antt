-- ===== src/Tests/Filters.antt =====
-- Filters on rows that are numbers or texts.
use naemon_livestatus.Prelude.{
  suc, ◌≡◌, refl, Bool, true, false, ◌&&◌, some, none, arith, ℤ, pos, test_bit, all_ones, xor,
}
use naemon_livestatus.Text.{Bytes, codes, str_equal, atoi}
use naemon_livestatus.Filter.{
  Column, equal, less, greater, accepts_ordered, StringColumnFilter, Filter, Filters, anding, oring,
  int_filter, time_filter, string_filter, nil, cons, accepts, all_accept, accepts_int, accepts_time,
  accepts_string, or_them, combine_filters, size,
}
use naemon_livestatus.Filter.Narrowing.{
  optimize_int_at, optimize_bitmask, find_time_limits, index_filter, index_string,
  find_index_filter,
}
use naemon_livestatus.Filter.Bitmask.{optimize_int_at-IsExact}
use naemon_livestatus.Filter.Selected.{Shows, optimize_bitmask-keeps}
use naemon_livestatus.Filter.TimeLimits.{
  within, has_or, ShowsTime, asks_for, find_time_limits-keeps, find_time_limits-oring,
}
use naemon_livestatus.Filter.Index.{ShowsText, is_plain, find_index_filter_sound}
use naemon_livestatus.Filter.Combine.{push_all, combined_accepts, combine_filters_lem}

abbrev state : Column ℤ ℤ
state = record { name = codes "state"; get_value = λ r. r }

-- `state >= 2` and `state = 4`
abbrev at_least_two : Filter ℤ
at_least_two =
    int_filter (record { column = state; op = less; negate = true; ref_string = codes "2" })

abbrev is_four : Filter ℤ
is_four = int_filter (record { column = state; op = equal; negate = false; ref_string = codes "4" })

abbrev either : Filter ℤ
either = oring (cons is_four (cons at_least_two nil))

either-Shows : Shows either (codes "state") (pos 3) 3
unfolding Shows
either-Shows = ((λ e. refl), ((λ e. refl), tt))

either-accepts : accepts either (pos 3) ≡ true
unfolding accepts accepts_int atoi
either-accepts = refl

optimize_bitmask-keeps_example :
    test_bit (optimize_bitmask either (codes "state") all_ones).1 3 ≡ true
optimize_bitmask-keeps_example =
    optimize_bitmask-keeps either (codes "state") (pos 3) 3 all_ones either-Shows (omega arith)
      either-accepts (unfold test_bit in refl)

optimize_int_at-IsExact_example :
    test_bit (optimize_int_at less true 2 all_ones).1 3
    ≡ test_bit all_ones 3 && xor (accepts_ordered less (pos 3) (pos 2)) true
optimize_int_at-IsExact_example =
    optimize_int_at-IsExact less true 2 3 all_ones (omega arith) (omega arith)
      (unfold optimize_int_at in refl)

-- `time > 10` and `time < 20`
abbrev between : Filter ℤ
between = anding (
    cons (time_filter (record { column = state; op = greater; negate = false; ref_value = pos 10 }))
      (cons (time_filter (record { column = state; op = less; negate = false; ref_value = pos 20 }))
        nil))

between_shows : ShowsTime between (codes "state") (pos 15) (pos 15)
unfolding ShowsTime
between_shows = ((λ e. refl), ((λ e. refl), tt))

find_time_limits-keeps_example :
    within (find_time_limits between (codes "state") (pos 0, pos 100)) (pos 15) ≡ true
find_time_limits-keeps_example =
    find_time_limits-keeps between (codes "state") (pos 15) (pos 15) (pos 0, pos 100)
      (unfold has_or in refl) between_shows (unfold accepts accepts_time in refl) refl

find_time_limits-oring_example :
    within
      (find_time_limits
        (oring (cons (asks_for state (pos 3)) (cons (asks_for state (pos 7)) nil)))
        (codes "state")
        (pos 0, pos 100))
      (pos 3)
    ≡ false
find_time_limits-oring_example =
    find_time_limits-oring state (pos 3) (pos 7) (pos 0, pos 100) (pos 3) refl

abbrev host : Column Bytes Bytes
host = record { name = codes "host"; get_value = λ r. r }

abbrev host_is : Bool → StringColumnFilter Bytes
host_is negate = record {
  column = host;
  op = equal;
  negate = negate;
  ref_string = codes "a";
  regex = none;
}

abbrev one_host : Filters Bytes
one_host = cons (string_filter (host_is false)) nil

one_host_shows : ShowsText one_host (codes "host") (codes "a") (codes "a")
unfolding ShowsText
one_host_shows = ((λ e. refl), tt)

find_index_filter_sound_example : codes "a" ≡ codes "a"
find_index_filter_sound_example =
    find_index_filter_sound one_host (codes "host") (codes "a") (codes "a") (codes "a")
      (unfold is_plain in refl) one_host_shows
      (unfold find_index_filter index_filter index_string str_equal in refl)
      (unfold accepts accepts_string str_equal in refl)

combine_filters_lem_example :
    (stack : Filters ℤ) × (combine_filters
        (size (cons is_four (cons at_least_two nil)))
        or_them
        (push_all (cons between nil) (cons is_four (cons at_least_two nil)))
      ≡ some stack)
    × (size stack ≡ suc (size (cons between nil)))
    × ((row : ℤ)
        → all_accept stack row
          ≡ all_accept (cons between nil) row
            && combined_accepts or_them (cons is_four (cons at_least_two nil)) row)
combine_filters_lem_example =
    combine_filters_lem or_them (cons between nil) (cons is_four (cons at_least_two nil))
