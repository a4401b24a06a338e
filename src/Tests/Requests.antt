-- ===== src/Tests/Requests.antt =====
-- Requests and their answers.
use naemon_livestatus.Prelude.{◌≡◌, refl, Bool, true, false, List, [], ◌∷◌, none, some, pos}
use naemon_livestatus.Text.{
  str_equal, lstrip, next_field, take_field, Bytes, codes, rstrip, strip_prefix,
}
use naemon_livestatus.Output
use naemon_livestatus.Input.{
  InputBuffer, data_read, read_request, scan_lines, await, make_room, store_request_line, next_line,
}
use naemon_livestatus.Query.Parse.{parse_lines, find_header}
use naemon_livestatus.Query.{Core, no_filter}
use naemon_livestatus.Store.{
  Store, StoreTable, Surroundings, Served, told, lock, find_table, method_of,
}
use naemon_livestatus.Store.Answer.{
  answer_request, answer_get_request, answer_outcome, answer_method, ask, ask_with,
}
use naemon_livestatus.Store.Locking.{answer_request-unlocked}
use naemon_livestatus.Query.Answered.{lacks_value, has_bare_stats}
use naemon_livestatus.Store.Refusing.{Refused, answer_get_request-Refused}

abbrev small_core : Core
small_core = record { find_contact = λ name. none; now = pos 1000 }

abbrev no_tables : List (Bytes × StoreTable Bytes Bytes)
no_tables = []

abbrev quiet : Surroundings
quiet = record {
  alive = true;
  terminating = false;
  rotation = pos 0;
  now = pos 1;
  folder = record { log_file = codes "log"; archive_path = codes "archive"; archive = none };
  disk = λ path. none;
  replies = none;
  stack = [];
}

abbrev empty_store : Store Bytes
empty_store = record {
  log_cache = record {
    counts = record { num_cached = pos 0; max_cached = 10; num_at_last_check = 0 };
    files = [];
    last_update = pos 0;
  };
  locked = false;
}

abbrev waiting_input : List Bytes → InputBuffer
waiting_input lines = record { read_offset = 0; unread = []; request_lines = lines }

abbrev nothing_served : Served Bytes
nothing_served = told empty_store (waiting_input []) Output.new

-- a table that uses the log cache, and prints nothing
abbrev log_table : StoreTable Bytes Bytes
log_table = record {
  table = record {
    name = codes "log";
    column = λ name. none;
    dummy_column = λ name. record { name = name; create_filter = λ op negate ref. no_filter };
    find_object = λ name. none;
  };
  has_logcache = true;
  add_all_columns = λ q. q;
  start = λ index q. (index, q);
  answer_query = λ index q. (index, q);
  finish = λ index q. (index, q);
  cleanup_query = λ index q. (index, q);
}

abbrev log_tables : List (Bytes × StoreTable Bytes Bytes)
log_tables = (codes "log", log_table) ∷ []

abbrev stopping : Surroundings
stopping = record quiet { terminating = true }

abbrev served : Bool × Served Bytes
served =
    elim (answer_request small_core log_tables stopping empty_store (waiting_input []) Output.new
      (data_read 8 ∷ []) (codes "GET log\n\n")) [ none ↦ (true, nothing_served) | some r ↦ r ]

serves :
    answer_request small_core log_tables stopping empty_store
      (waiting_input [])
      Output.new
      (data_read 8 ∷ [])
      (codes "GET log\n\n")
    ≡ some served
unfolding answer_request read_request scan_lines await make_room answer_outcome store_request_line
    rstrip next_line answer_method method_of strip_prefix answer_get_request parse_lines ask
    find_table str_equal ask_with lock
serves = refl

answer_request-unlocked_example : served.1.store.locked ≡ false
answer_request-unlocked_example =
    answer_request-unlocked small_core log_tables stopping empty_store (waiting_input []) Output.new
      (data_read 8 ∷ []) (codes "GET log\n\n") served.0 served.1 refl serves

unknown_table : find_table (codes "x") no_tables ≡ none
unfolding find_table
unknown_table = refl

complete : has_bare_stats (codes "Limit: 5" ∷ codes "StatsOr: 2" ∷ []) ≡ false
unfolding has_bare_stats lacks_value find_header strip_prefix rstrip lstrip next_field take_field
complete = refl

answer_get_request-Refused_example :
    let input = waiting_input (codes "Limit: 5" ∷ codes "StatsOr: 2" ∷ []) in
    (r : Served Bytes) × (answer_get_request small_core no_tables quiet empty_store input Output.new
        (codes "x")
      ≡ some r)
    × Refused small_core no_tables empty_store (codes "x") r
answer_get_request-Refused_example =
    answer_get_request-Refused small_core no_tables quiet empty_store
      (waiting_input (codes "Limit: 5" ∷ codes "StatsOr: 2" ∷ [])) Output.new (codes "x") refl
      unknown_table complete
