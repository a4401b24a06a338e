-- ===== src/Query/Valid.antt =====
-- What the headers of a request leave alone: the ranges of a query's numbers, and an error.
use mathlib.Core.Bool.{true≢false}
use naemon_livestatus.Prelude.{
  ℕ, ◌≡◌, refl, ap, Bool, true, false, not, ◌||◌, [], ◌∷◌, Option, none, some, if◌then◌else◌, arith,
  length, ℤ, pos, negsuc, is_neg, leb_ℤ, ◌-ℤ◌, ◌-◌, ◌%◌, or_neither,
}
use naemon_livestatus.Text.{Bytes, codes, str_equal, atoi, to_int32, lstrip}
use naemon_livestatus.Output.{OutputBuffer, has_error, is_empty, set_error}
use naemon_livestatus.Query.{Query, Core, Table, refuse}
use naemon_livestatus.Query.Headers.{
  starts_with_digit, is_bad_number, set_limit, set_offset, set_timelimit, set_wait_timeout,
  set_output_format, set_column_headers, set_keep_alive, set_response_header, separator,
  set_wait_trigger, wait_trigger_field, set_wait_object, wait_object_in, auth_user_in, half_hours,
  seconds, parse_separators_line, set_localtime,
}

-- the numbers of a query: `limit` is -1 or more, the offset and the timeout are not negative, the time zone
-- is less than a day away, and each separator is one byte
abbrev pub IsValid : {Row : Type 0} → Query Row → Type 0
IsValid q =
    (leb_ℤ (negsuc 0) q.limit ≡ true)
    × (is_neg q.offset ≡ false)
    × (is_neg q.wait_timeout ≡ false)
    × (leb_ℤ (negsuc 84599) q.timezone_offset ≡ true)
    × (leb_ℤ q.timezone_offset (pos 84600) ≡ true)
    × (length q.dataset_separator ≡ 1)
    × (length q.field_separator ≡ 1)
    × (length q.list_separator ≡ 1)
    × (length q.host_service_separator ≡ 1)

-- an error that is set stays
abbrev pub Keeps : OutputBuffer → OutputBuffer → Type 0
Keeps o o' =
    has_error o ≡ true → (o'.error_message ≡ o.error_message) × (o'.response_code ≡ o.response_code)

-- what a header may do to a query
pub record Step {Row : Type 0} (q q' : Query Row) : Type 0 where
  pub valid : IsValid q → IsValid q'
  pub keeps : Keeps q.output q'.output

pub step_if :
    {Row : Type 0} {q x y : Query Row} (b : Bool)
    → Step q x
    → Step q y
    → Step q (if b then x else y)
step_if true s t = s
step_if false s t = t

if_false {ℓ} : {A : Type ℓ} (b : Bool) (x y : A) → b ≡ false → (if b then x else y) ≡ y
if_false true x y e = absurd (true≢false e)
if_false false x y e = refl

set_error_full :
    (o : OutputBuffer) (code : ℕ) (message : Bytes)
    → is_empty o.error_message ≡ false
    → set_error o code message ≡ o
unfolding set_error
set_error_full o code message e = if_false (is_empty o.error_message) _ o e

pub set_error-Keeps :
    (o : OutputBuffer) (code : ℕ) (message : Bytes) → Keeps o (set_error o code message)
set_error-Keeps o code message e =
    let same = set_error_full o code message (ground arith) in
    (ap (λ o. o.error_message) same, ap (λ o. o.response_code) same)

pub step_self : {Row : Type 0} (q : Query Row) → Step q q
step_self q = record { valid = λ v. v; keeps = λ e. (refl, refl) }

pub step_error :
    {Row : Type 0} (q : Query Row) (code : ℕ) (message : Bytes)
    → Step q (record q { output = set_error q.output code message })
step_error q code message = record { valid = λ v. v; keeps = set_error-Keeps q.output code message }

pub step_refuse : {Row : Type 0} (q : Query Row) (message : Bytes) → Step q (refuse q message)
step_refuse q message = step_error q _ message

good_number : (value : Bytes) → is_bad_number value ≡ false → is_neg (atoi value) ≡ false
good_number value e = (or_neither (not (starts_with_digit value)) (is_neg (atoi value)) e).1

at_least : (z : ℤ) → is_neg z ≡ false → leb_ℤ (negsuc 0) z ≡ true
at_least (pos n) e = ground arith
at_least (negsuc n) e = absurd (true≢false e)

step_if_known :
    {Row : Type 0} {q x y : Query Row} (b : Bool)
    → (b ≡ true → Step q x)
    → (b ≡ false → Step q y)
    → Step q (if b then x else y)
step_if_known true s t = s refl
step_if_known false s t = t refl

zone_lem :
    (full : ℤ)
    → leb_ℤ (pos 48) full || leb_ℤ full (negsuc 47) ≡ false
    → (leb_ℤ (negsuc 84599) (seconds full) ≡ true) × (leb_ℤ (seconds full) (pos 84600) ≡ true)
unfolding seconds
zone_lem (pos n) e = (ground arith, ground arith)
zone_lem (negsuc n) e = (ground arith, ground arith)

length-separator : (token : Option Bytes) → length (separator token) ≡ 1
unfolding separator
length-separator none = refl
length-separator (some token) =
    elim (atoi token)
      as (λ z.
        length (elim z as (λ _. Bytes) [ pos n ↦ (n % 256) ∷ [] | negsuc n ↦ (255 - n % 256) ∷ [] ])
        ≡ 1) [ pos n ↦ refl | negsuc n ↦ refl ]

module _ {Row : Type 0} (q : Query Row) where
  pub limit_step : (value : Option Bytes) → Step q (set_limit q value)
  unfolding set_limit
  limit_step none = step_refuse q _
  limit_step (some value) =
      step_if_known (is_bad_number value) (λ e. step_refuse q _)
        (λ e. record {
          valid = λ v.
              (at_least (atoi value) (good_number value e), v.1, v.2, v.3, v.4, v.5, v.6, v.7, v.8);
          keeps = λ e. (refl, refl);
        })

  pub offset_step : (value : Option Bytes) → Step q (set_offset q value)
  unfolding set_offset
  offset_step none = step_refuse q _
  offset_step (some value) =
      step_if_known (is_bad_number value) (λ e. step_refuse q _)
        (λ e. record {
          valid = λ v. (v.0, good_number value e, v.2, v.3, v.4, v.5, v.6, v.7, v.8);
          keeps = λ e. (refl, refl);
        })

  pub wait_timeout_step : (value : Option Bytes) → Step q (set_wait_timeout q value)
  unfolding set_wait_timeout
  wait_timeout_step none = step_refuse q _
  wait_timeout_step (some value) =
      step_if_known (is_bad_number value) (λ e. step_refuse q _)
        (λ e. record {
          valid = λ v. (v.0, v.1, good_number value e, v.3, v.4, v.5, v.6, v.7, v.8);
          keeps = λ e. (refl, refl);
        })

  -- a change of nothing that `IsValid` and `Keeps` speak of
  pub timelimit_step : (core : Core) (value : Option Bytes) → Step q (set_timelimit core q value)
  unfolding set_timelimit
  timelimit_step core none = step_refuse q _
  timelimit_step core (some value) =
      step_if (is_bad_number value) (step_refuse q _)
        (record { valid = λ v. v; keeps = λ e. (refl, refl) })

  pub localtime_step : (core : Core) (value : Option Bytes) → Step q (set_localtime core q value)
  unfolding set_localtime
  localtime_step core none = step_refuse q _
  localtime_step core (some value) =
      let full = half_hours (to_int32 (atoi value -ℤ core.now)) in
      step_if_known (leb_ℤ (pos 48) full || leb_ℤ full (negsuc 47)) (λ e. step_refuse q _)
        (λ e. record {
          valid = λ v. let z = zone_lem full e in (v.0, v.1, v.2, z.0, z.1, v.5, v.6, v.7, v.8);
          keeps = λ e. (refl, refl);
        })

  pub separators_step : (line : Bytes) → Step q (parse_separators_line q line)
  unfolding parse_separators_line
  separators_step line = record {
    valid = λ v. (
      v.0,
      v.1,
      v.2,
      v.3,
      v.4,
      length-separator _,
      length-separator _,
      length-separator _,
      length-separator _,
    );
    keeps = λ e. (refl, refl);
  }

  pub output_format_step : (value : Option Bytes) → Step q (set_output_format q value)
  unfolding set_output_format
  output_format_step none = step_refuse q _
  output_format_step (some format) =
      step_if (str_equal format (codes "csv"))
        (record { valid = λ v. v; keeps = λ e. (refl, refl) })
        (step_if (str_equal format (codes "json"))
          (record { valid = λ v. v; keeps = λ e. (refl, refl) })
          (step_if (str_equal format (codes "python"))
            (record { valid = λ v. v; keeps = λ e. (refl, refl) })
            (step_if (str_equal format (codes "wrapped_json"))
              (record { valid = λ v. v; keeps = λ e. (refl, refl) }) (step_refuse q _))))

  pub column_headers_step : (value : Option Bytes) → Step q (set_column_headers q value)
  unfolding set_column_headers
  column_headers_step none = step_refuse q _
  column_headers_step (some value) =
      step_if (str_equal value (codes "on")) (record { valid = λ v. v; keeps = λ e. (refl, refl) })
        (step_if (str_equal value (codes "off"))
          (record { valid = λ v. v; keeps = λ e. (refl, refl) }) (step_refuse q _))

  pub keep_alive_step : (value : Option Bytes) → Step q (set_keep_alive q value)
  unfolding set_keep_alive
  keep_alive_step none = step_refuse q _
  keep_alive_step (some value) =
      step_if (str_equal value (codes "on")) (record { valid = λ v. v; keeps = λ e. (refl, refl) })
        (step_if (str_equal value (codes "off"))
          (record { valid = λ v. v; keeps = λ e. (refl, refl) }) (step_refuse q _))

  pub response_header_step : (value : Option Bytes) → Step q (set_response_header q value)
  unfolding set_response_header
  response_header_step none = step_refuse q _
  response_header_step (some value) =
      step_if (str_equal value (codes "off")) (record { valid = λ v. v; keeps = λ e. (refl, refl) })
        (step_if (str_equal value (codes "fixed16"))
          (record { valid = λ v. v; keeps = λ e. (refl, refl) }) (step_refuse q _))

  set_trigger_step : (value : Bytes) (found : Option ℕ) → Step q (set_wait_trigger q value found)
  unfolding set_wait_trigger
  set_trigger_step value none = step_refuse q _
  set_trigger_step value (some i) = record { valid = λ v. v; keeps = λ e. (refl, refl) }

  pub wait_trigger_step : (value : Option Bytes) → Step q (wait_trigger_field q value)
  unfolding wait_trigger_field
  wait_trigger_step none = step_refuse q _
  wait_trigger_step (some value) = set_trigger_step value _

  set_object_step : (spec : Bytes) (found : Option ℕ) → Step q (set_wait_object q spec found)
  unfolding set_wait_object
  set_object_step spec none = record { valid = λ v. v; keeps = set_error-Keeps q.output _ _ }
  set_object_step spec (some i) = record { valid = λ v. v; keeps = λ e. (refl, refl) }

  pub wait_object_step :
      (table : Option (Table Row)) (line : Bytes) → Step q (wait_object_in q table line)
  unfolding wait_object_in
  wait_object_step none line = step_self q
  wait_object_step (some table) line = set_object_step (lstrip line) _

  pub auth_user_step :
      (core : Core) (table : Option (Table Row)) (line : Bytes)
      → Step q (auth_user_in core q table line)
  unfolding auth_user_in
  auth_user_step core none line = step_self q
  auth_user_step core (some table) line = record { valid = λ v. v; keeps = λ e. (refl, refl) }
