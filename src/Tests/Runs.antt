-- ===== src/Tests/Runs.antt =====
-- Queries from start to finish, and the waiting of a query: rows that are numbers.
use mathlib.Core.Option.{none-ne-some}
use naemon_livestatus.Prelude.{
  ℕ, suc, ◌+◌, ◌%◌, ◌≤◌, ◌*◌, ◌≡◌, refl, sym, true, false, List, [], ◌∷◌, ◌++◌, ◌||◌, map, none,
  some, Option, ◌>>=◌, length, take, Perm, ℤ, pos, negsuc, arith, ◌↔◌, inl, ◌+ℤ◌, ◌^◌, ◌<◌,
}
use naemon_livestatus.Text.{Bytes, codes, decimal, atoi}
use naemon_livestatus.Output
use naemon_livestatus.Output.{add_buffer, add_char}
use naemon_livestatus.Print.{
  Writer, json, utf8, put_char, output_unsigned, output_dataset_begin, output_dataset_end,
  output_field_separator,
}
use naemon_livestatus.Filter.{
  Filter, nil, cons, accepts, all_accept, accepts_int, int_filter, equal,
}
use naemon_livestatus.Sorter.Order.{IsSorted}
use naemon_livestatus.Query
use naemon_livestatus.Query.{Query}
use naemon_livestatus.Query.Run.{
  OutColumn, OutStat, Plan, Moment, Run, process_all, process_dataset, process_plain,
  process_accepted, process_stats, print_row, print_fields, print_more, consume_row,
}
use naemon_livestatus.Query.Run.Ends.{
  start, finish, open_output, without_headers, begun, print_rows, close_output, closing,
  output_aggregators, print_stats, print_results,
}
use naemon_livestatus.Query.Run.Steps.{accepted_rows}
use naemon_livestatus.Query.Run.Totals.{answer-total, print_totals}
use naemon_livestatus.Aggregators.{CountAggregator}
use naemon_livestatus.Query.Run.Counts.{count_stat, print_counts, answer-counts}
use naemon_livestatus.Query.Run.Groups.{members, firsts}
use naemon_livestatus.Query.Run.Pages.{Disturbed, page_rows, answer-plain, answer-IsSorted}
use naemon_livestatus.Query.Run.Summaries.{Crowded, print_summaries, answer-groups}
use naemon_livestatus.Query.Run.Answer.{answer, finish_or_fail, Answers, Results, Interrupted}
use naemon_livestatus.Query.Paging.{add_int}
use naemon_livestatus.Query.Wait.{
  expired, ended, deadline_reached, waiting, is_refused, Event, turn, signalled, spurious, deadline,
  do_wait,
}
use naemon_livestatus.Query.Wait.Ending.{Ends, deadline_lem, do_wait-Ends, do_wait-lost}
use naemon_livestatus.Query.Wait.Refused.{do_wait-refused}
use naemon_livestatus.Query.Wait.Reason.{Known, was_true, was_reached, do_wait-reason}
use naemon_livestatus.Tests.Sorting.{by_number, by_number-IsOrder}

-- a column that shows a number below 10, and one for whether it is odd
abbrev digit : OutColumn ℕ
digit = record {
  name = codes "n";
  output = λ row w. put_char w (b'0' + row);
  value_as_string = λ row. (b'0' + row) ∷ [];
}

abbrev parity : OutColumn ℕ
parity = record {
  name = codes "odd";
  output = λ row w. put_char w (b'0' + row % 2);
  value_as_string = λ row. (b'0' + row % 2) ∷ [];
}

abbrev counter : OutStat ℕ ℕ
counter = record { create = 0; consume = λ row n. suc n; output = λ n w. output_unsigned w n }

abbrev plan : {Agg : Type 0} → List (OutColumn ℕ) → List (OutStat ℕ Agg) → Plan ℕ Agg
plan columns stats = record {
  filter = nil;
  is_authorized = λ row. true;
  columns = columns;
  stats = stats;
  compare = by_number;
  do_sorting = false;
  show_column_headers = false;
  limit = pos 2;
  offset = pos 1;
  time_limit = negsuc 0;
  time_limit_timeout = pos 0;
  max_response_size = 1000;
}

abbrev plain_plan : Plan ℕ ℕ
plain_plan = plan (digit ∷ parity ∷ []) []

abbrev sorted_plan : Plan ℕ ℕ
sorted_plan = record (plan (digit ∷ parity ∷ []) []) { do_sorting = true }

abbrev total_plan : Plan ℕ ℕ
total_plan = plan [] (counter ∷ counter ∷ [])

abbrev grouped_plan : Plan ℕ ℕ
grouped_plan = plan (parity ∷ []) (counter ∷ [])

abbrev writer : Writer
writer = record {
  output = Output.new;
  output_format = json;
  data_encoding = utf8;
  field_separator = codes ";";
  dataset_separator = codes "\n";
  list_separator = codes ",";
  host_service_separator = codes "|";
  need_ds_separator = false;
  timezone_offset = pos 0;
}

abbrev at_time : ℤ → Moment
at_time now = record { now = now; terminating = false; terminating_later = false }

abbrev rows : List (Moment × ℕ)
rows = map (λ n. (at_time (pos 0), n)) (5 ∷ 3 ∷ 9 ∷ 1 ∷ [])

abbrev started : Plan ℕ ℕ → Run ℕ ℕ
started p = begun p (without_headers p writer)

plain_started : start plain_plan writer ≡ some (started plain_plan)
unfolding start open_output
plain_started = refl

sorted_started : start sorted_plan writer ≡ some (started sorted_plan)
unfolding start open_output
sorted_started = refl

total_started : start total_plan writer ≡ some (started total_plan)
unfolding start open_output
total_started = refl

grouped_started : start grouped_plan writer ≡ some (started grouped_plan)
unfolding start open_output
grouped_started = refl

answer-plain_example :
    let xs = accepted_rows plain_plan rows in
    Answers plain_plan
      (Disturbed plain_plan rows (page_rows (some 2) 1 xs) (started plain_plan).writer)
      rows
      writer
      (λ w'.
        w'
        ≡ close_output plain_plan
            (length xs)
            (print_rows plain_plan (page_rows (some 2) 1 xs) (started plain_plan).writer))
answer-plain_example =
    answer-plain plain_plan (λ row w. refl, (λ row w. refl, tt)) (some 2) 1 rows writer
      (started plain_plan) refl refl refl refl (omega arith) plain_started

answer-IsSorted_example :
    let xs = accepted_rows sorted_plan rows in
    (s : List ℕ) × Perm s xs
    × IsSorted by_number s
    × Answers sorted_plan
        (Interrupted sorted_plan rows (started sorted_plan).writer)
        rows
        writer
        (λ w'.
          w'
          ≡ close_output sorted_plan
              (length xs)
              (print_rows sorted_plan (page_rows (some 2) 1 s) (started sorted_plan).writer))
answer-IsSorted_example =
    answer-IsSorted sorted_plan by_number-IsOrder (some 2) 1 rows writer (started sorted_plan) refl
      refl refl refl (λ e. absurd (none-ne-some _ (sym e))) (omega arith) sorted_started

answer-total_example :
    Answers total_plan (Interrupted total_plan rows (started total_plan).writer) rows writer (λ w'.
      w'
      ≡ close_output total_plan 1
          (print_totals total_plan (accepted_rows total_plan rows) (started total_plan).writer))
answer-total_example =
    answer-total total_plan refl refl rows writer (started total_plan) total_started

answer-groups_example :
    let xs = accepted_rows grouped_plan rows in
    let groups = firsts grouped_plan [] xs in
    ((spec : List Bytes) → members grouped_plan spec groups ≡ take 1 (members grouped_plan spec xs))
    × (s : List ℕ) × Perm s groups
    × IsSorted by_number s
    × Results grouped_plan (Crowded grouped_plan rows (started grouped_plan)) rows writer (
        print_summaries grouped_plan xs (page_rows (some 2) 1 s) (started grouped_plan).writer
        >>= (λ w'. some (close_output grouped_plan (length groups) w')))
answer-groups_example =
    answer-groups grouped_plan refl refl by_number-IsOrder (some 2) 1 rows writer
      (started grouped_plan) refl refl (λ e. absurd (none-ne-some _ (sym e))) (omega arith)
      grouped_started

-- an object that is a number, to be other than 0
abbrev not_zero : Filter ℕ
not_zero = int_filter (record {
  column = record { name = codes "n"; get_value = λ row. pos row };
  op = equal;
  negate = true;
  ref_string = codes "0";
})

four_accepted :
    length (accepted_rows (plan [] (map count_stat (not_zero ∷ not_zero ∷ []))) rows) < 2 ^ 31
unfolding accepted_rows all_accept
four_accepted = omega arith

abbrev count_plan : Plan ℕ (CountAggregator ℕ)
count_plan = plan [] (map count_stat (not_zero ∷ not_zero ∷ []))

count_started :
    start count_plan writer ≡ some (begun count_plan (without_headers count_plan writer))
unfolding start open_output
count_started = refl

answer-counts_example :
    Answers count_plan
      (Interrupted count_plan rows (begun count_plan (without_headers count_plan writer)).writer)
      rows
      writer
      (λ w'.
        w'
        ≡ close_output count_plan 1 (
            print_counts
              (not_zero ∷ not_zero ∷ [])
              (accepted_rows count_plan rows)
              (begun count_plan (without_headers count_plan writer)).writer))
answer-counts_example =
    answer-counts count_plan (not_zero ∷ not_zero ∷ []) rows writer
      (begun count_plan (without_headers count_plan writer)) refl refl refl count_started
      four_accepted

abbrev waiting_query : Query ℕ
waiting_query = record (Query.new Output.new none) {
  wait_condition = cons not_zero nil;
  wait_timeout = pos 500;
  wait_trigger = 2;
}

zero_refused : all_accept waiting_query.wait_condition 0 ≡ false
unfolding all_accept accepts accepts_int atoi
zero_refused = refl

one_accepted : all_accept waiting_query.wait_condition 1 ≡ true
unfolding all_accept accepts accepts_int atoi
one_accepted = refl

-- the deadline of `waiting_query` is valid at this time
is_valid : is_refused waiting_query 7 600000 ≡ false
unfolding deadline
is_valid = refl

do_wait-Ends_example : Ends (
    do_wait waiting_query 7 600000 0
      (spurious ∷ turn 0 ∷ turn 0 ∷ signalled 2 ∷ turn 1 ∷ turn 0 ∷ []))
do_wait-Ends_example =
    do_wait-Ends waiting_query 7 600000 0 0 0 (spurious ∷ []) (signalled 2 ∷ turn 1 ∷ [])
      (turn 0 ∷ []) is_valid (inl (1, refl, one_accepted))

do_wait-lost_example :
    do_wait waiting_query 7 600000 0 (signalled 2 ∷ turn 1 ∷ turn 1 ∷ []) ≡ waiting
do_wait-lost_example = do_wait-lost waiting_query 7 600000 0 1 (1 ∷ []) is_valid zero_refused

abbrev events : List (Event ℕ)
events = turn 0 ∷ signalled 2 ∷ turn 1 ∷ []

do_wait-reason_example :
    Known waiting_query
      (all_accept waiting_query.wait_condition 0 || was_true waiting_query events)
      (was_reached waiting_query events)
      (do_wait waiting_query 7 600000 0 events)
do_wait-reason_example = do_wait-reason waiting_query 7 600000 0 events

-- half a second behind the second, and a timeout of half a second
is_invalid : is_refused waiting_query 7 500000 ≡ true
unfolding deadline
is_invalid = refl

do_wait-refused_example :
    let phase = do_wait waiting_query 7 500000 0 (turn 0 ∷ deadline_reached ∷ turn 0 ∷ []) in
    ¬ (phase ≡ waiting) × ¬ (phase ≡ ended expired)
do_wait-refused_example =
    do_wait-refused waiting_query 7 500000 0 (turn 0 ∷ deadline_reached ∷ turn 0 ∷ []) is_invalid

deadline_lem_example :
    let d = deadline 7 500000 500 in
    (d.0 * 1000000000 + d.1 ≡ 7 * 1000000000 + 500000 * 1000 + 500 * 1000000)
    × (d.1 ≤ 1000000000)
    × ((d.1 ≡ 1000000000) ↔ (500000 + 1000 * (500 % 1000) ≡ 1000000))
deadline_lem_example = deadline_lem 7 500000 500 (omega arith)

abbrev shown : Option Writer → Bytes
shown none = codes "nothing"
shown (some w) = w.output.error_message ++ w.output.buffer

plain_plan_run : shown (answer plain_plan rows writer) ≡ codes "[[3,1],\n[9,1]]\n"
unfolding answer start open_output without_headers begun process_all process_dataset
    process_accepted process_plain accepts all_accept print_row print_fields print_more
    output_dataset_begin output_dataset_end output_field_separator add_buffer add_char
    finish_or_fail finish print_results close_output closing add_int ◌+ℤ◌
plain_plan_run = refl

total_plan_run : shown (answer total_plan rows writer) ≡ codes "[[4,4]]\n"
unfolding answer start open_output without_headers begun process_all process_dataset
    process_accepted process_stats consume_row print_stats output_aggregators accepts all_accept
    output_dataset_begin output_dataset_end output_field_separator add_buffer add_char
    finish_or_fail finish print_results close_output closing decimal
total_plan_run = refl
