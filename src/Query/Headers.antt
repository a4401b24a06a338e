-- ===== src/Query/Headers.antt =====
-- src/Query.cc: the headers of a request that are settings of the query.
use naemon_livestatus.Prelude.{
  ℕ, suc, ◌+◌, ◌*◌, ◌-◌, ◌/◌, ◌%◌, Bool, true, false, ◌||◌, not, List, [], ◌∷◌, ◌++◌, Option, none,
  some, if◌then◌else◌, leb, ℤ, pos, negsuc, is_neg, leb_ℤ, ◌+ℤ◌, ◌-ℤ◌,
}
use naemon_livestatus.Text.{Bytes, codes, str_equal, next_field, atoi, is_digit, lstrip, to_int32}
use naemon_livestatus.Output.{ResponseHeader, off, fixed16}
use naemon_livestatus.Print.{csv, json, python, wrapped_json}
use naemon_livestatus.Query.{Query, Core, Table, AuthUser, user, unknown_user, refuse}

abbrev pub starts_with_digit : Bytes → Bool
starts_with_digit [] = false
starts_with_digit (c ∷ s) = is_digit c

-- `!isdigit(value[0]) || number < 0`
abbrev pub is_bad_number : Bytes → Bool
is_bad_number value = not (starts_with_digit value) || is_neg (atoi value)

-- `char c = atoi(token)`, and 0 without a token: a byte
unfoldable pub separator : Option Bytes → Bytes
separator none = 0 ∷ []
separator (some token) = elim (atoi token) [
  | pos n ↦ (n % 256) ∷ []
  | negsuc n ↦ (255 - n % 256) ∷ []
]

-- `wt_names`, from the place `i` on
unfoldable pub find_trigger : List Bytes → ℕ → Bytes → Option ℕ
find_trigger [] i value = none
find_trigger (name ∷ names) i value =
    let rest = find_trigger names (suc i) value in if str_equal value name then some i else rest

abbrev pub wt_names : List Bytes
wt_names =
    codes "all"
    ∷ codes "check"
    ∷ codes "state"
    ∷ codes "log"
    ∷ codes "downtime"
    ∷ codes "comment"
    ∷ codes "command"
    ∷ codes "program"
    ∷ []

abbrev pub auth_user_of : Option ℕ → AuthUser
auth_user_of none = unknown_user
auth_user_of (some contact) = user contact

module _ {Row : Type 0} where
  -- the value is what `next_field` returned, which is null if there is no field
  unfoldable pub set_limit : Query Row → Option Bytes → Query Row
  set_limit q none = refuse q (codes "Header Limit: missing value")
  set_limit q (some value) =
      if is_bad_number value
      then refuse q (codes "Invalid value for Limit: must be non-negative integer")
      else record q { limit = atoi value }

  unfoldable pub parse_limit_line : Query Row → Bytes → Query Row
  parse_limit_line q line = set_limit q (next_field line).0

  unfoldable pub set_offset : Query Row → Option Bytes → Query Row
  set_offset q none = refuse q (codes "Header Offset: missing value")
  set_offset q (some value) =
      if is_bad_number value
      then refuse q (codes "Invalid value for Offset: must be non-negative integer")
      else record q { offset = atoi value }

  unfoldable pub parse_offset_line : Query Row → Bytes → Query Row
  parse_offset_line q line = set_offset q (next_field line).0

  unfoldable pub set_timelimit : Core → Query Row → Option Bytes → Query Row
  set_timelimit core q none = refuse q (codes "Header Timelimit: missing value")
  set_timelimit core q (some value) =
      if is_bad_number value
      then refuse q (codes "Invalid value for Timelimit: must be non-negative integer (seconds)")
      else record q { time_limit = atoi value; time_limit_timeout = core.now +ℤ atoi value }

  unfoldable pub parse_timelimit_line : Core → Query Row → Bytes → Query Row
  parse_timelimit_line core q line = set_timelimit core q (next_field line).0

  unfoldable pub set_wait_timeout : Query Row → Option Bytes → Query Row
  set_wait_timeout q none = refuse q (codes "WaitTimeout: missing value")
  set_wait_timeout q (some value) =
      if is_bad_number value
      then refuse q (codes "Invalid value for WaitTimeout: must be non-negative integer")
      else record q { wait_timeout = atoi value }

  unfoldable pub parse_wait_timeout_line : Query Row → Bytes → Query Row
  parse_wait_timeout_line q line = set_wait_timeout q (next_field line).0

  unfoldable pub set_output_format : Query Row → Option Bytes → Query Row
  set_output_format q none =
      refuse q (codes "Missing output format. Only 'csv' and 'json' are available.")
  set_output_format q (some format) =
      if str_equal format (codes "csv")
      then record q { output_format = csv }
      else if str_equal format (codes "json")
      then record q { output_format = json }
      else if str_equal format (codes "python")
      then record q { output_format = python }
      else if str_equal format (codes "wrapped_json")
      then record q { output_format = wrapped_json }
      else refuse q
          (codes "Invalid output format. Only 'csv', 'json' and 'wrapped_json' are available.")

  unfoldable pub parse_output_format_line : Query Row → Bytes → Query Row
  parse_output_format_line q line = set_output_format q (next_field line).0

  unfoldable pub set_column_headers : Query Row → Option Bytes → Query Row
  set_column_headers q none =
      refuse q (codes "Missing value for ColumnHeaders: must be 'on' or 'off'")
  set_column_headers q (some value) =
      if str_equal value (codes "on")
      then record q { show_column_headers = true }
      else if str_equal value (codes "off")
      then record q { show_column_headers = false }
      else refuse q (codes "Invalid value for ColumnHeaders: must be 'on' or 'off'")

  unfoldable pub parse_column_headers_line : Query Row → Bytes → Query Row
  parse_column_headers_line q line = set_column_headers q (next_field line).0

  -- `OutputBuffer::setDoKeepalive`
  abbrev with_keepalive : Query Row → Bool → Query Row
  with_keepalive q b = let o = q.output in record q { output = record o { do_keepalive = b } }

  unfoldable pub set_keep_alive : Query Row → Option Bytes → Query Row
  set_keep_alive q none = refuse q (codes "Missing value for KeepAlive: must be 'on' or 'off'")
  set_keep_alive q (some value) =
      if str_equal value (codes "on")
      then with_keepalive q true
      else if str_equal value (codes "off")
      then with_keepalive q false
      else refuse q (codes "Invalid value for KeepAlive: must be 'on' or 'off'")

  unfoldable pub parse_keep_alive_line : Query Row → Bytes → Query Row
  parse_keep_alive_line q line = set_keep_alive q (next_field line).0

  -- `OutputBuffer::setResponseHeader`
  abbrev with_response_header : Query Row → ResponseHeader → Query Row
  with_response_header q r =
      let o = q.output in record q { output = record o { response_header = r } }

  unfoldable pub set_response_header : Query Row → Option Bytes → Query Row
  set_response_header q none =
      refuse q (codes "Missing value for ResponseHeader: must be 'off' or 'fixed16'")
  set_response_header q (some value) =
      if str_equal value (codes "off")
      then with_response_header q off
      else if str_equal value (codes "fixed16")
      then with_response_header q fixed16
      else refuse q (
          codes "Invalid value '"
          ++ value
          ++ codes "' for ResponseHeader: must be 'off' or 'fixed16'")

  unfoldable pub parse_response_header_line : Query Row → Bytes → Query Row
  parse_response_header_line q line = set_response_header q (next_field line).0

  unfoldable pub parse_separators_line : Query Row → Bytes → Query Row
  parse_separators_line q line =
      let (dssep, l1) = next_field line in
      let (fieldsep, l2) = next_field l1 in
      let (listsep, l3) = next_field l2 in
      let (hssep, l4) = next_field l3 in
      record q {
        dataset_separator = separator dssep;
        field_separator = separator fieldsep;
        list_separator = separator listsep;
        host_service_separator = separator hssep;
      }

  unfoldable pub set_wait_trigger : Query Row → Bytes → Option ℕ → Query Row
  set_wait_trigger q value (some i) = record q { wait_trigger = i }
  set_wait_trigger q value none = refuse q (
      codes "WaitTrigger: invalid trigger '"
      ++ value
      ++ codes "'. Allowed are all, check, state, log, downtime, comment, command and program.")

  unfoldable pub wait_trigger_field : Query Row → Option Bytes → Query Row
  wait_trigger_field q none = refuse q (codes "WaitTrigger: missing keyword")
  wait_trigger_field q (some value) = set_wait_trigger q value (find_trigger wt_names 0 value)

  unfoldable pub parse_wait_trigger_line : Query Row → Bytes → Query Row
  parse_wait_trigger_line q line = wait_trigger_field q (next_field line).0

  unfoldable pub set_wait_object : Query Row → Bytes → Option ℕ → Query Row
  set_wait_object q spec (some object) = record q { wait_object = some object }
  set_wait_object q spec none =
      let q' = record q { wait_object = none } in
      refuse q'
        (codes "WaitObject: object '" ++ spec ++ codes "' not found or not supported by this table")

  unfoldable pub wait_object_in : Query Row → Option (Table Row) → Bytes → Query Row
  wait_object_in q none line = q
  wait_object_in q (some table) line =
      set_wait_object q (lstrip line) (table.find_object (lstrip line))

  unfoldable pub parse_wait_object_line : Query Row → Bytes → Query Row
  parse_wait_object_line q line = wait_object_in q q.table line

  unfoldable pub auth_user_in : Core → Query Row → Option (Table Row) → Bytes → Query Row
  auth_user_in core q none line = q
  auth_user_in core q (some table) line = record q {
    auth_user = auth_user_of (core.find_contact line);
  }

  unfoldable pub parse_auth_user_header : Core → Query Row → Bytes → Query Row
  parse_auth_user_header core q line = auth_user_in core q q.table line

-- `full` of `parseLocaltimeLine`, from `dif`: the quotient and the remainder of C round towards zero
unfoldable pub half_hours : ℤ → ℤ
half_hours (pos n) = if leb 900 (n % 1800) then pos (n / 1800 + 1) else pos (n / 1800)
half_hours (negsuc n) =
    let up = suc n / 1800 in pos 0 -ℤ pos (if leb 900 (suc n % 1800) then up + 1 else up)

-- `full * 1800`
unfoldable pub seconds : ℤ → ℤ
seconds (pos n) = pos (n * 1800)
seconds (negsuc n) = negsuc (suc n * 1800 - 1)

module _ {Row : Type 0} where
  unfoldable pub set_localtime : Core → Query Row → Option Bytes → Query Row
  set_localtime core q none = refuse q (codes "Header Localtime: missing value")
  set_localtime core q (some value) =
      let full = half_hours (to_int32 (atoi value -ℤ core.now)) in
      if leb_ℤ (pos 48) full || leb_ℤ full (negsuc 47)
      then refuse q (codes "Invalid Localtime header: timezone difference greater then 24 hours")
      else record q { timezone_offset = seconds full }

  unfoldable pub parse_localtime_line : Core → Query Row → Bytes → Query Row
  parse_localtime_line core q line = set_localtime core q (next_field line).0
