-- ===== src/LogEntry.antt =====
-- src/LogEntry.h, and of src/LogEntry.cc the functions that read a state from its text. A pointer of
-- the entry that may be null is an optional text.
use Prim.Native.String.{String}
pub mod Status
pub mod Messages
pub mod Parse
pub mod Tokens
pub mod Alerts
pub mod Notifications
pub mod Programm
pub mod Shape
use naemon_livestatus.Prelude.{
  ℕ, zero, suc, ◌-◌, ◌^◌, Bool, true, false, ◌||◌, List, [], ◌∷◌, Option, none, some, reverse, drop,
  ◌==◌, if◌then◌else◌, ℤ,
}
use naemon_livestatus.Text.{Bytes, codes, strip_prefix, next_token}

-- `LogEntryType`, in the order of its numbers
pub data EntryType : Type 0 where
  untyped alert_host alert_service downtime_alert_host downtime_alert_service : EntryType
  state_host state_host_initial state_service state_service_initial : EntryType
  flapping_host flapping_service timeperiod_transition : EntryType
  core_starting core_stopping log_version log_initial_states : EntryType
  acknowledge_alert_host acknowledge_alert_service : EntryType

-- `LOGCLASS_*`
abbrev pub class_info : ℕ
class_info = 0

abbrev pub class_alert : ℕ
class_alert = 1

abbrev pub class_program : ℕ
class_program = 2

abbrev pub class_notification : ℕ
class_notification = 3

abbrev pub class_passivecheck : ℕ
class_passivecheck = 4

abbrev pub class_command : ℕ
class_command = 5

abbrev pub class_state : ℕ
class_state = 6

-- -1 as an unsigned number
abbrev pub class_invalid : ℕ
class_invalid = 2 ^ 32 - 1

abbrev pub class_all : ℕ
class_all = 65535

-- the lookups of the monitoring core
pub record Objects (Object : Type 0) : Type 0 where
  pub find_host : Bytes → Option Object
  pub find_service : Option Bytes → Bytes → Option Object
  pub find_contact : Bytes → Option Object
  pub find_command : Bytes → Option Object

pub record LogEntry (Object : Type 0) : Type 0 where
  pub lineno : ℕ
  pub time : ℤ
  pub logclass : ℕ
  pub type : EntryType
  pub complete : Bytes
  pub options : Bytes
  pub text : Option Bytes
  pub host_name : Option Bytes
  pub svc_desc : Option Bytes
  pub command_name : Option Bytes
  pub contact_name : Option Bytes
  pub state : ℤ
  pub state_type : Option Bytes
  pub attempt : ℤ
  pub check_output : Option Bytes
  pub comment : Option Bytes
  pub host : Option Object
  pub service : Option Object
  pub contact : Option Object
  pub command : Option Object

-- `!strncmp(text, prefix, strlen(prefix))`
unfoldable pub begins : String → Bytes → Bool
begins prefix text = elim (strip_prefix (codes prefix) text) [ none ↦ false | some rest ↦ true ]

-- `strstr(text, word)`
unfoldable pub has_word : String → Bytes → Bool
has_word word [] = begins word []
has_word word (c ∷ text) = begins word (c ∷ text) || has_word word text

-- `scan = _text; _text = next_token(&scan, ':'); scan++`: the new text, and where `scan` is then. The
-- text has a colon and a space, since it begins with one of the prefixes of the caller.
unfoldable pub split_text : Bytes → Option Bytes × Bytes
split_text text = ((next_token b':' text).0, drop 1 (next_token b':' text).1)

-- the byte that a state is told by: the last one, or the one in front of a last `)`; 0 for the byte in
-- front of the text, where the previous token ends
unfoldable pub telling_byte : Bytes → ℕ
telling_byte s = elim (reverse s) [
  | [] ↦ 0
  | c ∷ [] ↦ if c == b')' then 0 else c
  | c ∷ d ∷ r ↦ if c == b')' then d else c
]

unfoldable pub service_state : ℕ → ℕ
service_state last =
    if last == b'K'
    then 0
    else if last == b'Y'
    then 0
    else if last == b'G'
    then 1
    else if last == b'L'
    then 2
    else if last == b'N'
    then 3
    else 4

unfoldable pub host_state : ℕ → ℕ
host_state last =
    if last == b'P'
    then 0
    else if last == b'Y'
    then 0
    else if last == b'N'
    then 1
    else if last == b'E'
    then 2
    else 3

-- `serviceStateToInt`
unfoldable pub service_state_to_int : Option Bytes → ℕ
service_state_to_int none = 3
service_state_to_int (some []) = 3
service_state_to_int (some (c ∷ s)) = service_state (telling_byte (c ∷ s))

-- `hostStateToInt`
unfoldable pub host_state_to_int : Option Bytes → ℕ
host_state_to_int none = 2
host_state_to_int (some []) = 3
host_state_to_int (some (c ∷ s)) = host_state (telling_byte (c ∷ s))
