-- ===== src/Tests/LogQuery.antt =====
-- Queries of the log.
use naemon_livestatus.Prelude.{
  IsSome, ◌+◌, ◌*◌, ◌^◌, ℕ, ◌≡◌, ◌+ℤ◌, ◌∙◌, refl, sym, subst, arith, Bool, true, false, List, [],
  ◌∷◌, Option, none, some, ℤ, pos, ◌≤ℤ◌, In, here, there, test_bit, test_bit-zero, bitwise,
}
use mathlib.Core.Bool.{true≢false}
use naemon_livestatus.Text.{Bytes, codes, str_equal, atoi, strip_prefix, take_token, next_token}
use naemon_livestatus.LogEntry.{LogEntry, Objects, begins, split_text}
use naemon_livestatus.LogEntry.Messages.{
  handle_notification_entry, handle_passive_check_entry, handle_external_command_entry,
  handle_notes, handle_text_entry,
}
use naemon_livestatus.LogEntry.Status.{handle_status_entry}
use naemon_livestatus.LogEntry.Parse.{
  read_stamped, classify, refer_to_objects, message_entry, or_else, resolve, parse, empty_entry,
  read_message, is_malformed, strip_newlines, drop_newlines, other_text,
}
use naemon_livestatus.Logfile.{
  File, Logfile, Entries, make_key, low32, content, store_entry, insert, has_key,
}
use naemon_livestatus.Logfile.Ending.{end_of, end_from, read_over, last_mark}
use naemon_livestatus.LogCache.{Focus, handle_new_message, as_ulong}
use naemon_livestatus.LogCache.Load.{
  Settings, load, load_file, load_rest, load_missing, load_range, load_entry,
}
use naemon_livestatus.LogCache.Messages.{message, messages}
use naemon_livestatus.Filter.Narrowing.{
  optimize_bitmask, optimize_int, optimize_int_ref, optimize_int_at, find_time_limits, time_limits,
  time_limits_at,
}
use naemon_livestatus.Filter.{Filter, anding, cons, nil, time_filter, int_filter, less, equal}
use naemon_livestatus.Filter.TimeLimits.{ShowsTime, has_or}
use naemon_livestatus.Filter.Selected.{Shows}
use mathlib.Core.Option.{some_inj}
use naemon_livestatus.LogCache.Readable.{Readable}
use naemon_livestatus.TableLog.Termination.{answer_log_query-IsSome}
use naemon_livestatus.TableLog.{
  answer_log_query, end_time, seek, walk, is_over, answer_query_reverse, visit_back, up_to, unsnoc,
  go_older,
}
use naemon_livestatus.TableLog.Windows.{Timed}
use naemon_livestatus.TableLog.Archive.{idents, IsLog, Settled}
use naemon_livestatus.TableLog.Walk.{Settled-Ready}
use naemon_livestatus.TableLog.Report.{IsArchive}
use naemon_livestatus.TableLog.Result.{Reported, answer_log_query-Reported}

abbrev nothing_known : Objects Bytes
nothing_known = record {
  find_host = λ name. none;
  find_service = λ host name. none;
  find_contact = λ name. none;
  find_command = λ name. none;
}

abbrev few_lines : Settings Bytes
few_lines = record { objects = nothing_known; max_lines = 100; should_terminate = false }

abbrev two_lines : File
two_lines = codes "[1260722267] LOG VERSION: 2.0\n" ∷ codes "[1260722267] LOG VERSION: 2.0\n" ∷ []

abbrev same_disk : Bytes → Option File
same_disk path = some two_lines

abbrev line_at : ℕ → Bytes → LogEntry Bytes
line_at n line = elim (parse nothing_known n line) [ none ↦ empty_entry n line | some e ↦ e ]

abbrev first : LogEntry Bytes
first = line_at 1 (codes "[1260722267] LOG VERSION: 2.0\n")

abbrev second : LogEntry Bytes
second = line_at 2 (codes "[1260722267] LOG VERSION: 2.0\n")

abbrev both : Entries Bytes
both = (1260722267 * 2 ^ 32 + 1, first) ∷ (1260722267 * 2 ^ 32 + 2, second) ∷ []

two_messages :
    (messages few_lines 0 two_lines ≡ both)
    × (first.time ≡ pos 1260722267)
    × (second.time ≡ pos 1260722267)
unfolding other_text handle_text_entry atoi messages message make_key low32 parse read_message
    strip_newlines drop_newlines is_malformed read_stamped classify refer_to_objects message_entry
    or_else resolve handle_status_entry handle_notification_entry handle_passive_check_entry
    handle_external_command_entry handle_notes begins strip_prefix split_text next_token take_token
two_messages = (refl, refl, refl)

ending : (path : Bytes) → end_time same_disk [] path ≡ pos 1260722267
unfolding end_time end_of end_from content read_over last_mark atoi
ending path = refl

both_cases :
    (P : ℕ × LogEntry Bytes → Type 0)
    → P (1260722267 * 2 ^ 32 + 1, first)
    → P (1260722267 * 2 ^ 32 + 2, second)
    → (x : ℕ × LogEntry Bytes) → In x (messages few_lines 0 two_lines)
    → P x
both_cases P p q x i = go (subst (In x) two_messages.0 i)
  where
    go : {y : ℕ × LogEntry Bytes} → In y both → P y
    go here = p
    go (there here) = q
    go (there (there j)) = elim j [ ]

at_stamp : {a : ℤ} → a ≡ pos 1260722267 → (a ≤ℤ pos 1260722267) × (pos 1260722267 ≤ℤ a)
at_stamp e = (
  subst (λ t. t ≤ℤ pos 1260722267) (sym e) (omega arith),
  subst (λ t. pos 1260722267 ≤ℤ t) (sym e) (omega arith),
)

two_lines-IsLog : (path : Bytes) → IsLog few_lines same_disk [] (path, pos 1260722267)
two_lines-IsLog path =
    let (_, at_first, at_second) = two_messages in
    let at_end = ending path in
    record {
      opened = refl;
      timed =
          both_cases Timed
            (record {
              stamp = 1260722267;
              line = 1;
              time = at_first;
              key = refl;
              stamp_fits = omega arith;
              line_fits = omega arith;
            })
            (record {
              stamp = 1260722267;
              line = 2;
              time = at_second;
              key = refl;
              stamp_fits = omega arith;
              line_fits = omega arith;
            });
      starts =
          both_cases (λ x. pos 1260722267 ≤ℤ x.1.time) (at_stamp at_first).1 (at_stamp at_second).1;
      ends = λ positive. (
        (at_stamp at_end).1,
        both_cases (λ x. x.1.time ≤ℤ end_time same_disk [] path)
            (subst (λ t. first.time ≤ℤ t) (sym at_end) (at_stamp at_first).0)
            (subst (λ t. second.time ≤ℤ t) (sym at_end) (at_stamp at_second).0),
      );
    }

abbrev unread : Bytes → Logfile Bytes
unread path = record {
  path = path;
  since = pos 1260722267;
  watch = false;
  read_pos = 0;
  lineno = 0;
  entries = [];
  logclasses_read = 0;
}

unread-Settled : (path : Bytes) → Settled few_lines same_disk [] (unread path)
unread-Settled path = record {
  file = two_lines-IsLog path;
  still = refl;
  coherent = record {
    sound = λ x i. elim i [ ];
    complete = λ x l i b. absurd (true≢false (sym b ∙ test_bit-zero x.1.logclass));
  };
  ascending = tt;
}

-- the newest file and an older one, which has the same lines
abbrev two_files : Focus Bytes
two_files = record {
  counts = record { num_cached = pos 0; max_cached = 10; num_at_last_check = 0 };
  older = unread (codes "old") ∷ [];
  current = unread (codes "log");
  newer = [];
}

two_files-IsArchive : IsArchive few_lines same_disk [] (omega arith) refl two_files
two_files-IsArchive =
    let (_, at_first, at_second) = two_messages in
    record {
      chrono = (
        (
          both_cases (λ x. x.1.time ≤ℤ pos 1260722267) (at_stamp at_first).0 (at_stamp at_second).0,
          tt,
        ),
        (tt, tt),
      );
      older = (unread-Settled (codes "old"), tt);
      current = λ logclasses.
          Settled-Ready few_lines same_disk [] (pos 0) (pos 0) (omega arith) logclasses
            (λ (q : Unit) e. (q, true)) (omega arith) refl (unread (codes "log"))
            (unread-Settled (codes "log"));
    }

-- class 2, from the time of the lines on
abbrev recent : Filter (LogEntry Bytes)
recent = anding (
    cons
      (time_filter (record {
        column = record { name = codes "time"; get_value = λ e. e.time };
        op = less;
        negate = true;
        ref_value = pos 1260722267;
      }))
      (cons
        (int_filter (record {
          column = record { name = codes "class"; get_value = λ e. pos e.logclass };
          op = equal;
          negate = false;
          ref_string = codes "2";
        }))
        nil))

abbrev collect : List (LogEntry Bytes) → LogEntry Bytes → List (LogEntry Bytes) × Bool
collect q e = (e ∷ q, true)

abbrev gathered : List (LogEntry Bytes) × Focus Bytes
gathered = elim (answer_log_query collect few_lines same_disk [] 3 recent 1260722300 two_files []) [
  | none ↦ ([], two_files)
  | some r ↦ r
]

gathers :
    (answer_log_query collect few_lines same_disk [] 3 recent 1260722300 two_files []
      ≡ some gathered)
    × (gathered.0 ≡ first ∷ second ∷ first ∷ second ∷ [])
unfolding answer_log_query optimize_bitmask optimize_int optimize_int_ref optimize_int_at str_equal
    atoi bitwise seek find_time_limits walk is_over end_time end_of content end_from last_mark
    read_over time_limits time_limits_at answer_query_reverse visit_back up_to unsnoc go_older load
    load_file load_rest load_missing load_range load_entry store_entry handle_new_message insert
    has_key test_bit other_text handle_text_entry make_key low32 parse read_message strip_newlines
    drop_newlines is_malformed read_stamped classify refer_to_objects message_entry or_else resolve
    handle_status_entry handle_notification_entry handle_passive_check_entry
    handle_external_command_entry handle_notes begins strip_prefix split_text next_token take_token
    as_ulong ◌+ℤ◌
gathers = (refl, refl)

recent_columns :
    (e : LogEntry Bytes)
    → ShowsTime recent (codes "time") e e.time × Shows recent (codes "class") e e.logclass
unfolding ShowsTime Shows
recent_columns e = ((λ _. refl, (tt, tt)), (tt, (λ _. refl, tt)))

recent_has_no_or : has_or recent ≡ false
unfolding has_or
recent_has_no_or = refl

answer_log_query-Reported_example :
    Reported collect few_lines same_disk []
      (omega arith)
      refl
      recent
      1260722300
      (idents two_files)
      []
      gathered.0
answer_log_query-Reported_example =
    answer_log_query-Reported collect few_lines same_disk [] (omega arith) refl recent 1260722300
      recent_has_no_or (omega arith) recent_columns 3 two_files gathered.1 [] gathered.0
      two_files-IsArchive gathers.0

lines_parse : (n : ℕ) → IsSome (parse nothing_known n (codes "[1260722267] LOG VERSION: 2.0\n"))
unfolding parse read_message strip_newlines drop_newlines is_malformed read_stamped classify
    refer_to_objects message_entry or_else resolve handle_status_entry handle_notification_entry
    handle_passive_check_entry handle_external_command_entry handle_notes begins strip_prefix
    split_text next_token take_token other_text handle_text_entry atoi
lines_parse n = (_, refl)

two_lines-Readable : Readable few_lines two_lines
two_lines-Readable n line here = lines_parse n
two_lines-Readable n line (there here) = lines_parse n
two_lines-Readable n line (there (there i)) = elim i [ ]

answer_log_query-IsSome_example :
    IsSome (answer_log_query collect few_lines same_disk [] 2 recent 1260722300 two_files [])
answer_log_query-IsSome_example =
    answer_log_query-IsSome few_lines same_disk
      (λ path file e. subst (Readable few_lines) (some_inj.0 e) two_lines-Readable) [] (omega arith)
      refl collect recent 1260722300 2 two_files [] (omega arith) two_files-IsArchive (omega arith)
