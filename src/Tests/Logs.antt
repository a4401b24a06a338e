-- ===== src/Tests/Logs.antt =====
-- Log lines, log files and the log cache.
use naemon_livestatus.Prelude.{
  ℕ, zero, suc, ◌+◌, ◌%◌, ◌^◌, ◌<◌, ◌⊎◌, ◌+ℤ◌, sym, ◌∙◌, test_bit-zero, test_bit, bitwise, ◌≡◌,
  refl, arith, Bool, ◌||◌, All, or_neither, true, false, some, none, pos, ◌++◌, ◌∷◌, [], ◌==◌,
}
use naemon_livestatus.Text.{Bytes, codes, atoi, strip_prefix, take_token, next_token}
use naemon_livestatus.LogEntry.{
  LogEntry, Objects, core_stopping, class_program, begins, split_text, has_word, telling_byte,
  service_state, service_state_to_int, class_invalid,
}
use naemon_livestatus.LogEntry.Messages.{
  handle_text_entry, handle_notification_entry, handle_passive_check_entry,
  handle_external_command_entry, handle_notes, handle_programm_entry, notified_state, unreadable,
  read_notification,
}
use naemon_livestatus.LogEntry.Status.{handle_status_entry}
use naemon_livestatus.LogEntry.Parse.{
  other_text, read_stamped, classify, refer_to_objects, message_entry, or_else, resolve, parse,
  empty_entry, read_message, is_malformed, strip_newlines, drop_newlines,
}
use naemon_livestatus.LogEntry.Alerts
use naemon_livestatus.LogEntry.Alerts.{Alert, alert_line, parse-alert_line}
use naemon_livestatus.LogEntry.Notifications
use naemon_livestatus.LogEntry.Notifications.{
  Notification, read_notification-order, state_first, command_first,
}
use naemon_livestatus.LogEntry.Shape.{IsShaped}
use naemon_livestatus.LogEntry.Shape.Reading.{parse-IsShaped}
use naemon_livestatus.Logfile
use naemon_livestatus.Logfile.{File, store_entry, has_key, insert, make_key, low32}
use naemon_livestatus.LogCache.{Focus, fits, as_ulong, check_mem_cycle, handle_new_message}
use naemon_livestatus.LogCache.Load.{
  load_entry, Settings, load, load_file, load_grown, load_rest, load_missing, load_range,
}
use naemon_livestatus.LogCache.Count.{CountsAll, in_memory, handle_new_message-CountsAll}
use naemon_livestatus.LogCache.Bound.{OnlyCurrent, handle_new_message-bound}
use naemon_livestatus.LogCache.Keep.{Keeps, handle_new_message-Keeps}
use naemon_livestatus.LogCache.Coherent.{Coherent, Loaded}
use naemon_livestatus.LogCache.Once.{load_once}
use naemon_livestatus.LogCache.Grown.{AtEnd, load_watched-Loaded}
use mathlib.Core.Bool.{true≢false}

-- a core that knows nothing
abbrev no_objects : Objects Bytes
no_objects = record {
  find_host = λ name. none;
  find_service = λ host name. none;
  find_contact = λ name. none;
  find_command = λ name. none;
}

abbrev load_alert : Alert
load_alert = record {
  host_name = codes "a";
  svc_desc = codes "b";
  state = codes "OK";
  state_type = codes "SOFT";
  attempt = codes "2";
  check_output = codes "up";
}

load_alert-IsPlain : Alerts.IsPlain load_alert
load_alert-IsPlain = record {
  host_name = (λ e. cc, (refl, tt));
  svc_desc = (λ e. cc, (refl, tt));
  state = (λ e. cc, (refl, (refl, tt)));
  state_type = (λ e. cc, (refl, (refl, (refl, (refl, tt)))));
  attempt = (λ e. cc, (refl, tt));
  check_output = (λ e. cc, (refl, (refl, tt)));
}

unfoldable has_newline : Bytes → Bool
has_newline [] = false
has_newline (c ∷ s) = c == b'\n' || has_newline s

no_newline : (s : Bytes) → has_newline s ≡ false → All (λ c. (c == b'\n') ≡ false) s
unfolding has_newline
no_newline [] h = tt
no_newline (c ∷ s) h =
    let (here, later) = or_neither (c == b'\n') (has_newline s) h in (here, no_newline s later)

one_line : has_newline (alert_line (codes "1260722267") load_alert) ≡ false
unfolding has_newline
one_line = refl

parse-alert_line_example :
    parse no_objects 7 (alert_line (codes "1260722267") load_alert ++ b'\n' ∷ [])
    ≡ some
        (record (Alerts.told load_alert
          (empty_entry 7 (alert_line (codes "1260722267") load_alert))) {
            time = atoi (codes "1260722267");
            host = none;
            service = none;
          })
parse-alert_line_example =
    parse-alert_line no_objects 7 (codes "1260722267") load_alert load_alert-IsPlain refl
      (no_newline (alert_line (codes "1260722267") load_alert) one_line)

abbrev start : LogEntry Bytes
start = empty_entry 1 []

abbrev mail : Notification
mail = record {
  contact_name = codes "c";
  host_name = codes "a";
  svc_desc = codes "b";
  state = codes "OK";
  command_name = codes "mail";
  check_output = codes "up";
}

mail-IsPlain : Notifications.IsPlain mail
mail-IsPlain = record {
  contact_name = (λ e. cc, (refl, tt));
  host_name = (λ e. cc, (refl, tt));
  svc_desc = (λ e. cc, (refl, tt));
  state = (λ e. cc, (refl, (refl, tt)));
  command_name = (λ e. cc, (refl, (refl, (refl, (refl, tt)))));
  check_output = (λ e. cc, (refl, (refl, tt)));
}

readable : unreadable true (notified_state true (some mail.state)) ≡ false
unfolding unreadable notified_state service_state_to_int service_state telling_byte
readable = refl

other : unreadable true (notified_state true (some mail.command_name)) ≡ true
unfolding unreadable notified_state service_state_to_int service_state telling_byte
other = refl

read_notification-order_example :
    (read_notification true (state_first true mail) start ≡ Notifications.told true mail start)
    × (read_notification true (command_first true mail) start ≡ Notifications.told true mail start)
read_notification-order_example =
    read_notification-order true mail mail-IsPlain start readable other

starts :
    handle_programm_entry (codes "restarting...") start
    ≡ some (record start { logclass = class_program; type = core_stopping })
unfolding handle_programm_entry has_word begins strip_prefix
starts = refl

invalid :
    parse no_objects 1 (codes "x\n")
    ≡ some (record (empty_entry 1 (codes "x")) { logclass = class_invalid })
unfolding parse read_message strip_newlines drop_newlines is_malformed
invalid = refl

parse-IsShaped_example :
    IsShaped (record (empty_entry {Object = Bytes} 1 (codes "x")) { logclass = class_invalid })
parse-IsShaped_example =
    parse-IsShaped no_objects 1 (codes "x\n")
      (record (empty_entry 1 (codes "x")) { logclass = class_invalid }) invalid

abbrev settings : Settings Bytes
settings = record { objects = no_objects; max_lines = 100; should_terminate = false }

-- a cache that holds one more message than was counted, and its limit is 0
abbrev one_too_many : Focus Bytes
one_too_many = record {
  counts = record { num_cached = pos 20000; max_cached = 0; num_at_last_check = 0 };
  older = [];
  current = record (Logfile.new (codes "log") false none) { entries = (0, start) ∷ [] };
  newer = [];
}

handle_new_message-bound_example :
    (fits
        (handle_new_message 1 one_too_many).counts
        (handle_new_message 1 one_too_many).counts.num_cached
      ≡ true)
    ⊎ (as_ulong (pos 20000 +ℤ pos 1) < (0 + check_mem_cycle) % 2 ^ 64)
    ⊎ OnlyCurrent (handle_new_message 1 one_too_many)
handle_new_message-bound_example = handle_new_message-bound 1 one_too_many

handle_new_message-Keeps_example : Keeps 1 one_too_many (handle_new_message 1 one_too_many)
handle_new_message-Keeps_example = handle_new_message-Keeps 1 one_too_many

abbrev uncounted : Focus Bytes
uncounted = record one_too_many {
  counts = record { num_cached = pos 0; max_cached = 0; num_at_last_check = 0 };
}

uncounted_lem : pos 0 +ℤ pos 1 ≡ pos (in_memory uncounted)
unfolding ◌+ℤ◌
uncounted_lem = refl

handle_new_message-CountsAll_example : CountsAll (handle_new_message 1 uncounted)
handle_new_message-CountsAll_example = handle_new_message-CountsAll 1 uncounted uncounted_lem

abbrev version_line : Bytes
version_line = codes "[1260722267] LOG VERSION: 2.0\n"

-- the cache opened at a new file
abbrev opened : Bool → Focus Bytes
opened watch = record {
  counts = record { num_cached = pos 0; max_cached = 10; num_at_last_check = 0 };
  older = [];
  current = Logfile.new (codes "log") watch none;
  newer = [];
}

abbrev loaded : Bool → Focus Bytes
loaded watch = elim (load settings 7 (some (version_line ∷ [])) (opened watch)) [
  | none ↦ opened watch
  | some f ↦ f
]

loads :
    (watch : Bool) → load settings 7 (some (version_line ∷ [])) (opened watch) ≡ some (loaded watch)
unfolding load load_file load_grown load_rest load_missing load_range Logfile.new bitwise test_bit
    parse read_message strip_newlines drop_newlines is_malformed read_stamped classify
    refer_to_objects message_entry or_else resolve handle_status_entry handle_notification_entry
    handle_passive_check_entry handle_external_command_entry handle_notes begins strip_prefix
    split_text next_token take_token
loads true = refl
loads false = refl

new-Coherent : (watch : Bool) (file : File) → Coherent settings file (opened watch).current
unfolding Logfile.new
new-Coherent watch file = record {
  sound = λ x i. elim i [ ];
  complete = λ x l i b. absurd (true≢false (sym b ∙ test_bit-zero x.1.logclass));
}

is_watched : (watch : Bool) → (opened watch).current.watch ≡ watch
unfolding Logfile.new
is_watched watch = refl

not_read : ((opened true).current.logclasses_read == 0) ≡ false → ⊥
unfolding Logfile.new
not_read e = true≢false e

five_of_seven : (k : ℕ) → k < 32 → test_bit 5 k ≡ true → test_bit 7 k ≡ true
unfolding test_bit
five_of_seven zero l b = refl
five_of_seven (suc zero) l b = refl
five_of_seven (suc (suc zero)) l b = refl
five_of_seven (suc (suc (suc k))) l b = absurd (true≢false (sym b ∙ test_bit-zero k))

-- the file at its first load
first_load : Loaded settings 7 ([] ++ version_line ∷ []) (opened true) (loaded true)
first_load =
    load_watched-Loaded settings (omega arith) refl 7 [] (version_line ∷ []) (opened true)
      (loaded true) (is_watched true) (new-Coherent true []) (λ e. absurd (not_read e)) (loads true)

abbrev next_line : Bytes
next_line = codes "[1260722268] LOG VERSION: 2.0\n"

-- the file has grown by a line
abbrev loaded_again : Focus Bytes
loaded_again = elim (load settings 7 (some (version_line ∷ next_line ∷ [])) (loaded true)) [
  | none ↦ opened true
  | some f ↦ f
]

loads_again :
    load settings 7 (some (version_line ∷ next_line ∷ [])) (loaded true) ≡ some loaded_again
unfolding load load_file load_grown load_rest load_missing load_range Logfile.new bitwise test_bit
    parse read_message strip_newlines drop_newlines is_malformed read_stamped classify
    refer_to_objects message_entry or_else resolve handle_status_entry handle_notification_entry
    handle_passive_check_entry handle_external_command_entry handle_notes begins strip_prefix
    split_text next_token take_token load_entry store_entry other_text handle_text_entry has_key
    handle_new_message as_ulong ◌+ℤ◌
loads_again = refl

where_it_stopped : AtEnd settings (version_line ∷ []) (loaded true).current
unfolding load load_file load_grown load_rest load_missing load_range Logfile.new bitwise test_bit
    parse read_message strip_newlines drop_newlines is_malformed read_stamped classify
    refer_to_objects message_entry or_else resolve handle_status_entry handle_notification_entry
    handle_passive_check_entry handle_external_command_entry handle_notes begins strip_prefix
    split_text next_token take_token load_entry store_entry other_text handle_text_entry has_key
    handle_new_message as_ulong ◌+ℤ◌
where_it_stopped = record { lineno = refl; read_pos = refl }

load_watched-Loaded_example :
    Loaded settings 7 ((version_line ∷ []) ++ next_line ∷ []) (loaded true) loaded_again
load_watched-Loaded_example =
    load_watched-Loaded settings (omega arith) refl 7 (version_line ∷ []) (next_line ∷ [])
      (loaded true) loaded_again (first_load.watch ∙ is_watched true) first_load.coherent
      (λ e. where_it_stopped) loads_again

load_once_example :
    Loaded settings 7 (version_line ∷ []) (opened false) (loaded false)
    × (load settings 5 (some []) (loaded false) ≡ some (loaded false))
load_once_example =
    load_once settings 7 5 (version_line ∷ []) (some []) (opened false) (loaded false) (omega arith)
      refl (is_watched false) (new-Coherent false (version_line ∷ [])) (loads false) five_of_seven
