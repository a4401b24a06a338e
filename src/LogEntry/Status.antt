-- ===== src/LogEntry/Status.antt =====
-- `handleStatusEntry` of src/LogEntry.cc. A handler answers `none` where the source returns false.
use naemon_livestatus.Prelude.{
  ℕ, Bool, true, false, ◌||◌, [], ◌∷◌, Option, none, some, ◌==◌, if◌then◌else◌, pos,
}
use naemon_livestatus.Text.{Bytes, next_token, save_next_token, atoi}
use naemon_livestatus.LogEntry.{
  LogEntry, EntryType, untyped, alert_host, alert_service, downtime_alert_host,
  downtime_alert_service, state_host, state_host_initial, state_service, state_service_initial,
  flapping_host, flapping_service, timeperiod_transition, acknowledge_alert_host,
  acknowledge_alert_service, class_info, class_alert, class_state, begins, split_text,
  host_state_to_int, service_state_to_int,
}

-- the first byte of the text
abbrev pub initial : Bytes → ℕ
initial [] = 0
initial (c ∷ s) = c

module _ {Object : Type 0} where
  -- `_host_name`, and `_svc_desc` for a service
  unfoldable pub read_names : Bool → Bytes → LogEntry Object → LogEntry Object × Bytes
  read_names svc scan e =
      let (host_name, scan1) = next_token b';' scan in
      let (svc_desc, scan2) = next_token b';' scan1 in
      if svc
      then (record e { host_name = host_name; svc_desc = svc_desc }, scan2)
      else (record e { host_name = host_name }, scan1)

  -- state, state type, attempt and output
  unfoldable pub read_state : Bool → LogEntry Object × Bytes → LogEntry Object
  read_state svc (e, scan) =
      let (state, scan1) = save_next_token b';' scan in
      let (state_type, scan2) = next_token b';' scan1 in
      let (attempt, scan3) = save_next_token b';' scan2 in
      let (check_output, _) = next_token b';' scan3 in
      record e {
        state =
            pos (if svc then service_state_to_int (some state) else host_state_to_int (some state));
        state_type = state_type;
        attempt = atoi attempt;
        check_output = check_output;
      }

  -- state type and comment
  unfoldable pub read_comment : LogEntry Object × Bytes → LogEntry Object
  read_comment (e, scan) =
      let (state_type, scan1) = next_token b';' scan in
      let (comment, _) = next_token b';' scan1 in
      record e { state_type = state_type; comment = comment }

  -- state type, contact and comment
  unfoldable pub read_acknowledge : LogEntry Object × Bytes → LogEntry Object
  read_acknowledge (e, scan) =
      let (state_type, scan1) = next_token b';' scan in
      let (contact_name, scan2) = next_token b';' scan1 in
      let (comment, _) = next_token b';' scan2 in
      record e { state_type = state_type; contact_name = contact_name; comment = comment }

  -- the comment alone
  unfoldable pub read_info : LogEntry Object × Bytes → LogEntry Object
  read_info (e, scan) = record e { comment = (next_token b';' scan).0 }

  -- class and type are set, and the text is cut at its colon
  unfoldable pub begin : ℕ → EntryType → Bool → Bytes → LogEntry Object → LogEntry Object × Bytes
  begin logclass type svc text e =
      let (title, scan) = split_text text in
      read_names svc scan (record e { logclass = logclass; type = type; text = title })

  -- alerts and initial or current states; the first byte tells them apart
  unfoldable pub state_entry : Bool → Bytes → LogEntry Object → LogEntry Object
  state_entry svc text e =
      let alert = if svc then alert_service else alert_host in
      let first = if svc then state_service_initial else state_host_initial in
      let current = if svc then state_service else state_host in
      let c = initial text in
      read_state svc (
        if c == (if svc then b'S' else b'H')
        then begin class_alert alert svc text e
        else begin class_state (if c == b'I' then first else current) svc text e)

  unfoldable pub handle_status_entry : Bytes → LogEntry Object → Option (LogEntry Object)
  handle_status_entry text e =
      if begins "INITIAL HOST STATE: " text
        || begins "CURRENT HOST STATE: " text
        || begins "HOST ALERT: " text
      then some (state_entry false text e)
      else if begins "HOST DOWNTIME ALERT: " text
      then some (read_comment (begin class_alert downtime_alert_host false text e))
      else if begins "HOST ACKNOWLEDGE ALERT: " text
      then some (read_acknowledge (begin class_alert acknowledge_alert_host false text e))
      else if begins "HOST FLAPPING ALERT: " text
      then some (read_comment (begin class_alert flapping_host false text e))
      else if begins "HOST NOTIFICATION SUPPRESSED: " text || begins "HOST INFO: " text
      then some (read_info (begin class_info untyped false text e))
      else if begins "INITIAL SERVICE STATE: " text
          || begins "CURRENT SERVICE STATE: " text
          || begins "SERVICE ALERT: " text
      then some (state_entry true text e)
      else if begins "SERVICE DOWNTIME ALERT: " text
      then some (read_comment (begin class_alert downtime_alert_service true text e))
      else if begins "SERVICE ACKNOWLEDGE ALERT: " text
      then some (read_acknowledge (begin class_alert acknowledge_alert_service true text e))
      else if begins "SERVICE FLAPPING ALERT: " text
      then some (read_comment (begin class_alert flapping_service true text e))
      else if begins "SERVICE NOTIFICATION SUPPRESSED: " text || begins "SERVICE INFO: " text
      then some (read_info (begin class_info untyped true text e))
      else if begins "TIMEPERIOD TRANSITION: " text
      then some (record e { logclass = class_state; type = timeperiod_transition })
      else none
