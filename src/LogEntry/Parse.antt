-- ===== src/LogEntry/Parse.antt =====
-- The constructor of `LogEntry`, `LogEntry::LogEntry(lineno, line)`, and `updateReferences` of
-- src/LogEntry.cc.
use naemon_livestatus.Prelude.{
  ℕ, Bool, ◌||◌, [], ◌∷◌, Option, none, some, reverse, length, take, drop, get_or, not, ltb, ◌==◌,
  if◌then◌else◌, pos,
}
use naemon_livestatus.Text.{Bytes, atoi}
use naemon_livestatus.LogEntry.{LogEntry, Objects, untyped, class_info, class_invalid}
use naemon_livestatus.LogEntry.Status.{handle_status_entry}
use naemon_livestatus.LogEntry.Messages.{
  handle_notification_entry, handle_passive_check_entry, handle_external_command_entry,
  handle_notes, handle_text_entry, handle_programm_entry,
}

unfoldable pub drop_newlines : Bytes → Bytes
drop_newlines [] = []
drop_newlines (c ∷ s) = let rest = drop_newlines s in if c == b'\n' then rest else c ∷ s

-- `while (_msglen > 0 && _msg[_msglen-1] == '\n')`
unfoldable pub strip_newlines : Bytes → Bytes
strip_newlines line = reverse (drop_newlines (reverse line))

-- `while (*_options == ' ')`
unfoldable pub skip_spaces : Bytes → Bytes
skip_spaces [] = []
skip_spaces (c ∷ s) = let rest = skip_spaces s in if c == b' ' then rest else c ∷ s

-- what follows the first colon and its spaces; the end of the text where there is none
unfoldable pub options_of : Bytes → Bytes
options_of [] = []
options_of (c ∷ s) = let rest = options_of s in if c == b':' then skip_spaces s else rest

-- no time stamp in brackets
unfoldable pub is_malformed : Bytes → Bool
is_malformed msg =
    ltb (length msg) 13 || not (get_or msg 0 0 == b'[') || not (get_or msg 11 0 == b']')

module _ {Object : Type 0} where
  -- all elements zero, then the line itself
  unfoldable pub empty_entry : ℕ → Bytes → LogEntry Object
  empty_entry lineno msg = record {
    lineno = lineno;
    time = pos 0;
    logclass = class_info;
    type = untyped;
    complete = msg;
    options = options_of msg;
    text = none;
    host_name = none;
    svc_desc = none;
    command_name = none;
    contact_name = none;
    state = pos 0;
    state_type = none;
    attempt = pos 0;
    check_output = none;
    comment = none;
    host = none;
    service = none;
    contact = none;
    command = none;
  }

  -- null pointers look nothing up
  unfoldable pub set_host : Objects Object → Option Bytes → LogEntry Object → LogEntry Object
  set_host o none e = e
  set_host o (some name) e = record e { host = o.find_host name }

  unfoldable pub set_service : Objects Object → Option Bytes → LogEntry Object → LogEntry Object
  set_service o none e = e
  set_service o (some desc) e = record e { service = o.find_service e.host_name desc }

  unfoldable pub set_contact : Objects Object → Option Bytes → LogEntry Object → LogEntry Object
  set_contact o none e = e
  set_contact o (some name) e = record e { contact = o.find_contact name }

  unfoldable pub set_command : Objects Object → Option Bytes → LogEntry Object → LogEntry Object
  set_command o none e = e
  set_command o (some name) e = record e { command = o.find_command name }

  unfoldable pub update_references : Objects Object → LogEntry Object → LogEntry Object
  update_references o e =
      set_command o e.command_name
        (set_contact o e.contact_name (set_service o e.svc_desc (set_host o e.host_name e)))

  -- a handler that answered ends the chain
  unfoldable pub or_else :
      Option (Option (LogEntry Object))
      → Option (Option (LogEntry Object))
      → Option (Option (LogEntry Object))
  or_else (some e) other = some e
  or_else none other = other

  -- the answer of a handler that reads no null pointer
  abbrev pub safe : Option (LogEntry Object) → Option (Option (LogEntry Object))
  safe none = none
  safe (some e) = some (some e)

  -- the handlers after the first one
  unfoldable pub message_entry : Bytes → LogEntry Object → Option (Option (LogEntry Object))
  message_entry text e = or_else (safe (handle_notification_entry text e)) (
      or_else (safe (handle_passive_check_entry text e))
        (or_else (handle_external_command_entry text e) (safe (handle_notes text e))))

  -- the five handlers whose entries refer to objects
  unfoldable pub refer_to_objects : Bytes → LogEntry Object → Option (Option (LogEntry Object))
  refer_to_objects text e = or_else (safe (handle_status_entry text e)) (message_entry text e)

  unfoldable pub other_text : Bytes → LogEntry Object → LogEntry Object
  other_text text e = elim (handle_text_entry text e) [
    | some e' ↦ e'
    | none ↦ elim (handle_programm_entry text e) [ none ↦ e | some e' ↦ e' ]
  ]

  unfoldable pub resolve :
      Objects Object
      → Bytes
      → LogEntry Object
      → Option (Option (LogEntry Object))
      → Option (LogEntry Object)
  resolve o text e none = some (other_text text e)
  resolve o text e (some none) = none
  resolve o text e (some (some e')) = some (update_references o e')

  unfoldable pub classify : Objects Object → Bytes → LogEntry Object → Option (LogEntry Object)
  classify o text e = resolve o text e (refer_to_objects text e)

  -- the time stamp, and the text behind it
  unfoldable pub read_stamped :
      Objects Object → LogEntry Object → Bytes → Bytes → Option (LogEntry Object)
  read_stamped o e stamp text = classify o text (record e { time = atoi stamp; text = some text })

  unfoldable pub read_message : Objects Object → ℕ → Bytes → Option (LogEntry Object)
  read_message o lineno msg =
      let e = empty_entry lineno msg in
      if is_malformed msg
      then some (record e { logclass = class_invalid })
      else read_stamped o e (take 10 (drop 1 msg)) (drop 13 msg)

  -- `none` where the constructor reads a null pointer
  unfoldable pub parse : Objects Object → ℕ → Bytes → Option (LogEntry Object)
  parse o lineno line = read_message o lineno (strip_newlines line)
