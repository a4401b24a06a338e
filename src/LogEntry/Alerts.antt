-- ===== src/LogEntry/Alerts.antt =====
-- A service alert as the core logs it, read by the constructor of src/LogEntry.cc.
use naemon_livestatus.Prelude.{
  ℕ, suc, ◌≤◌, ◌≡◌, refl, ap, ◌∙◌, true, false, [], ◌∷◌, ◌++◌, some, ◌==◌, pos, All, length, arith,
  ltb, get_or, ap₂, length-append, sym,
}
use naemon_livestatus.Text.{Bytes, codes, atoi, take_token, next_token, strip_prefix}
use naemon_livestatus.LogEntry.{
  LogEntry, Objects, alert_service, class_alert, begins, split_text, service_state_to_int,
}
use naemon_livestatus.LogEntry.Status.{
  handle_status_entry, state_entry, begin, read_names, read_state,
}
use naemon_livestatus.LogEntry.Parse.{
  parse, classify, refer_to_objects, update_references, set_host, set_service, set_contact,
  set_command, empty_entry, or_else, resolve, safe, message_entry, is_malformed, read_message,
  read_stamped,
}
use naemon_livestatus.LogEntry.Tokens.{
  IsToken, next_token-token, next_token-last, save_next_token-token, strip_newlines-line,
  take-stamp, drop-stamp, get_or-stamp,
}

-- the fields of a service alert
pub record Alert : Type 0 where
  pub host_name : Bytes
  pub svc_desc : Bytes
  pub state : Bytes
  pub state_type : Bytes
  pub attempt : Bytes
  pub check_output : Bytes

abbrev pub fields_text : Alert → Bytes
fields_text a =
    a.host_name
    ++ b';'
      ∷ (a.svc_desc
          ++ b';'
            ∷ (a.state ++ b';' ∷ (a.state_type ++ b';' ∷ (a.attempt ++ b';' ∷ a.check_output))))

-- no field is empty or has a `;`
pub record IsPlain (a : Alert) : Type 0 where
  pub host_name : IsToken b';' a.host_name
  pub svc_desc : IsToken b';' a.svc_desc
  pub state : IsToken b';' a.state
  pub state_type : IsToken b';' a.state_type
  pub attempt : IsToken b';' a.attempt
  pub check_output : IsToken b';' a.check_output

-- a line as the core writes it: a time stamp of ten bytes in brackets, a space and the text
abbrev pub stamped_line : Bytes → Bytes → Bytes
stamped_line stamp text = b'[' ∷ (stamp ++ b']' ∷ b' ' ∷ text)

abbrev pub alert_line : Bytes → Alert → Bytes
alert_line stamp a = stamped_line stamp (codes "SERVICE ALERT: " ++ fields_text a)

-- what the entry says of the alert
abbrev pub told : {Object : Type 0} → Alert → LogEntry Object → LogEntry Object
told a e = record e {
  logclass = class_alert;
  type = alert_service;
  text = some (codes "SERVICE ALERT");
  host_name = some a.host_name;
  svc_desc = some a.svc_desc;
  state = pos (service_state_to_int (some a.state));
  state_type = some a.state_type;
  attempt = atoi a.attempt;
  check_output = some a.check_output;
}

module _ {Object : Type 0} (a : Alert) (h : IsPlain a) where
  names_read :
      (e : LogEntry Object)
      → read_names true (fields_text a) e ≡ (
        record e { host_name = some a.host_name; svc_desc = some a.svc_desc },
        a.state ++ b';' ∷ (a.state_type ++ b';' ∷ (a.attempt ++ b';' ∷ a.check_output)),
      )
  unfolding read_names
  names_read e =
      rw
        (
          next_token-token b';' a.host_name _ h.host_name,
          next_token-token b';' a.svc_desc _ h.svc_desc,
        )
        refl

  state_read :
      (e : LogEntry Object)
      → read_state true
          (e, a.state ++ b';' ∷ (a.state_type ++ b';' ∷ (a.attempt ++ b';' ∷ a.check_output)))
        ≡ record e {
          state = pos (service_state_to_int (some a.state));
          state_type = some a.state_type;
          attempt = atoi a.attempt;
          check_output = some a.check_output;
        }
  unfolding read_state
  state_read e =
      rw
        (
          save_next_token-token b';' a.state _ h.state,
          next_token-token b';' a.state_type _ h.state_type,
          save_next_token-token b';' a.attempt _ h.attempt,
          next_token-last b';' a.check_output h.check_output,
        )
        refl

  entry_read :
      (e : LogEntry Object)
      → state_entry true (codes "SERVICE ALERT: " ++ fields_text a) e ≡ told a e
  unfolding state_entry begin split_text next_token take_token
  entry_read e = ap (read_state true) (names_read _) ∙ state_read _

  handled :
      (e : LogEntry Object)
      → handle_status_entry (codes "SERVICE ALERT: " ++ fields_text a) e ≡ some (told a e)
  unfolding handle_status_entry begins strip_prefix
  handled e = ap some (entry_read e)

classified :
    {Object : Type 0} (o : Objects Object) (a : Alert) (h : IsPlain a) (e : LogEntry Object)
    → classify o (codes "SERVICE ALERT: " ++ fields_text a) e
      ≡ some (update_references o (told a e))
unfolding classify refer_to_objects or_else resolve
classified o a h e =
    let text = codes "SERVICE ALERT: " ++ fields_text a in
    ap (λ r. resolve o text e (or_else (safe r) (message_entry text e))) (handled a h e)

ltb_of_le : (m n : ℕ) → m ≤ n → ltb n m ≡ false
ltb_of_le m n h = ground arith

is_malformed-stamped_line :
    (stamp text : Bytes) → length stamp ≡ 10 → is_malformed (stamped_line stamp text) ≡ false
unfolding is_malformed
is_malformed-stamped_line stamp text ten =
    let rest = b']' ∷ b' ' ∷ text in
    let long : ltb (suc (length (stamp ++ rest))) 13 ≡ false =
      ltb_of_le 13 _ (omega (arith, ten, length-append stamp rest)) in
    let closed : get_or (stamp ++ rest) 10 0 ≡ b']' = get_or-stamp 10 stamp rest (sym ten) in
    rw (long, closed) refl

read_message-stamped_line :
    {Object : Type 0} (o : Objects Object) (lineno : ℕ) (stamp text : Bytes)
    → length stamp ≡ 10
    → read_message o lineno (stamped_line stamp text)
      ≡ read_stamped o (empty_entry lineno (stamped_line stamp text)) stamp text
unfolding read_message
read_message-stamped_line o lineno stamp text ten =
    let rest = b']' ∷ b' ' ∷ text in
    rw (is_malformed-stamped_line stamp text ten) (
      ap₂ (read_stamped o (empty_entry lineno (stamped_line stamp text)))
        (take-stamp 10 stamp rest ten) (drop-stamp 12 stamp rest (omega (arith, ten))))

-- The constructor of LogEntry reads a service alert as the core logs it back: with fields that are
-- not empty and have no semicolon, a time stamp of ten bytes and no newline inside the line, the
-- entry holds exactly the fields, the state and the attempt as numbers, and the host and service
-- that the core has under those names.
pub parse-alert_line :
    {Object : Type 0} (o : Objects Object) (lineno : ℕ) (stamp : Bytes) (a : Alert)
    → IsPlain a
    → length stamp ≡ 10
    → All (λ c. (c == b'\n') ≡ false) (alert_line stamp a)
    → parse o lineno (alert_line stamp a ++ b'\n' ∷ [])
      ≡ some (record (told a (empty_entry lineno (alert_line stamp a))) {
        time = atoi stamp;
        host = o.find_host a.host_name;
        service = o.find_service (some a.host_name) a.svc_desc;
      })
unfolding parse read_stamped update_references set_host set_service set_contact set_command
    empty_entry
parse-alert_line o lineno stamp a h ten plain =
    ap (read_message o lineno) (strip_newlines-line (alert_line stamp a) plain)
    ∙ read_message-stamped_line o lineno stamp (codes "SERVICE ALERT: " ++ fields_text a) ten
    ∙ classified o a h _
