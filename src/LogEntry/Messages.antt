-- ===== src/LogEntry/Messages.antt =====
-- The other handlers of src/LogEntry.cc: notifications, passive checks, commands, notes, texts and
-- messages of the program itself.
use naemon_livestatus.Prelude.{
  Bool, true, false, not, ◌&&◌, ◌||◌, Option, none, some, drop, ◌==◌, if◌then◌else◌, pos, ℕ,
}
use naemon_livestatus.Text.{Bytes, next_token, save_next_token, atoi}
use naemon_livestatus.LogEntry.{
  LogEntry, core_stopping, log_version, log_initial_states, class_info, class_program,
  class_notification, class_passivecheck, class_command, begins, has_word, split_text,
  host_state_to_int, service_state_to_int,
}
use naemon_livestatus.LogEntry.Status.{initial, read_names}

-- the state that a notification names, and whether it could be read
unfoldable pub notified_state : Bool → Option Bytes → ℕ
notified_state true s = service_state_to_int s
notified_state false s = host_state_to_int s

unfoldable pub unreadable : Bool → ℕ → Bool
unreadable svc state = (svc && state == 4) || (not svc && state == 3)

module _ {Object : Type 0} where
  -- state type and command, swapped where the first one is no state
  unfoldable pub set_notified :
      Bool → Option Bytes → Option Bytes → LogEntry Object → LogEntry Object
  set_notified svc state_type command_name e =
      let state = notified_state svc state_type in
      if unreadable svc state
      then record e {
        state_type = command_name;
        command_name = state_type;
        state = pos (notified_state svc command_name);
      }
      else record e { state_type = state_type; command_name = command_name; state = pos state }

  unfoldable pub read_notification : Bool → Bytes → LogEntry Object → LogEntry Object
  read_notification svc scan e =
      let (contact_name, scan1) = next_token b';' scan in
      let (named, scan2) = read_names svc scan1 (record e { contact_name = contact_name }) in
      let (state_type, scan3) = save_next_token b';' scan2 in
      let (command_name, scan4) = next_token b';' scan3 in
      let (check_output, _) = next_token b';' scan4 in
      record (set_notified svc (some state_type) command_name named) { check_output = check_output }

  unfoldable pub handle_notification_entry : Bytes → LogEntry Object → Option (LogEntry Object)
  handle_notification_entry text e =
      let (title, scan) = split_text text in
      if begins "HOST NOTIFICATION: " text || begins "SERVICE NOTIFICATION: " text
      then some (
          read_notification (initial text == b'S') scan
            (record e { logclass = class_notification; text = title }))
      else none

  unfoldable pub handle_passive_check_entry : Bytes → LogEntry Object → Option (LogEntry Object)
  handle_passive_check_entry text e =
      let (title, scan) = split_text text in
      let (named, scan1) =
        read_names (initial (drop 8 text) == b'S') scan
          (record e { logclass = class_passivecheck; text = title }) in
      let (state, scan2) = save_next_token b';' scan1 in
      if begins "PASSIVE SERVICE CHECK: " text || begins "PASSIVE HOST CHECK: " text
      then some (record named { state = atoi state; check_output = (next_token b';' scan2).0 })
      else none

  unfoldable pub handle_notes : Bytes → LogEntry Object → Option (LogEntry Object)
  handle_notes text e =
      let (title, scan) = split_text text in
      if begins "SERVICE NOTE: " text || begins "HOST NOTE: " text
      then some
          (read_names (initial text == b'S') scan
            (record e { logclass = class_info; text = title })).0
      else none

  -- `cmd` is null for an empty command, and `strstr` has no text to search: `none` inside
  unfoldable pub command_names : Option Bytes → Bytes → LogEntry Object → Option (LogEntry Object)
  command_names none scan e = none
  command_names (some cmd) scan e =
      if has_word "_HOST" cmd && not (has_word "_HOSTGROUP" cmd)
      then some (read_names false scan e).0
      else if has_word "_SVC" cmd
      then some (read_names true scan e).0
      else some e

  -- the outer option is the result of the handler, the inner one is `none` where a null pointer is read
  unfoldable pub handle_external_command_entry :
      Bytes → LogEntry Object → Option (Option (LogEntry Object))
  handle_external_command_entry text e =
      let (title, scan) = split_text text in
      let (cmd, scan1) = next_token b';' scan in
      if begins "EXTERNAL COMMAND: " text
      then some (command_names cmd scan1 (record e { logclass = class_command; text = title }))
      else none

  unfoldable pub handle_text_entry : Bytes → LogEntry Object → Option (LogEntry Object)
  handle_text_entry text e =
      if begins "LOG VERSION: 2.0" text
      then some (record e { logclass = class_program; type = log_version })
      else if begins "logging initial states" text || begins "logging intitial states" text
      then some (record e { logclass = class_program; type = log_initial_states })
      else none

  unfoldable pub handle_programm_entry : Bytes → LogEntry Object → Option (LogEntry Object)
  handle_programm_entry text e =
      if has_word "starting..." text
        || has_word "shutting down..." text
        || has_word "Bailing out" text
        || has_word "standby mode..." text
      then some (record e { logclass = class_program; type = core_stopping })
      else if has_word "restarting..." text
      then some (record e { logclass = class_program })
      else none
