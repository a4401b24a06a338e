-- ===== src/LogEntry/Shape.antt =====
-- How class, type and names of an entry belong together, in src/LogEntry.cc.
pub mod Handlers
pub mod Reading
use mathlib.Core.Bool.{true≢false}
use mathlib.Core.Option.{some_inj, none-ne-some}
use naemon_livestatus.Prelude.{
  ℕ, [], ◌∷◌, ◌≡◌, refl, ap, sym, ◌∙◌, ◌⊎◌, ◌≢◌, arith, inl, inr, Bool, true, false, Option, none,
  some, subst, ◌==◌, if◌then◌else◌, ◌||◌, not, ◌&&◌,
}
use naemon_livestatus.Text.{Bytes, next_token, save_next_token}
use naemon_livestatus.LogEntry
use naemon_livestatus.LogEntry.{
  LogEntry, EntryType, Objects, untyped, alert_host, alert_service, downtime_alert_host,
  downtime_alert_service, state_host, state_host_initial, state_service, state_service_initial,
  flapping_host, flapping_service, timeperiod_transition, core_starting, core_stopping, log_version,
  log_initial_states, acknowledge_alert_host, acknowledge_alert_service, class_info, class_alert,
  class_program, class_state, class_invalid, class_notification, class_passivecheck, class_command,
  split_text,
}
use naemon_livestatus.LogEntry.Status.{
  handle_status_entry, state_entry, begin, read_names, read_state, read_comment, read_acknowledge,
  read_info,
}
use naemon_livestatus.LogEntry.Messages.{
  handle_notification_entry, handle_passive_check_entry, handle_external_command_entry,
  handle_notes, handle_text_entry, handle_programm_entry, command_names, read_notification,
  set_notified,
}
use naemon_livestatus.LogEntry.Parse.{
  parse, classify, resolve, refer_to_objects, message_entry, update_references, set_host,
  set_service, set_contact, set_command, empty_entry, or_else, safe, other_text, read_message,
  read_stamped,
}

-- the class that the entries of a type have; those without a type have any of the others
abbrev pub class_of : EntryType → Option ℕ
class_of untyped = none
class_of alert_host = some class_alert
class_of alert_service = some class_alert
class_of downtime_alert_host = some class_alert
class_of downtime_alert_service = some class_alert
class_of acknowledge_alert_host = some class_alert
class_of acknowledge_alert_service = some class_alert
class_of flapping_host = some class_alert
class_of flapping_service = some class_alert
class_of state_host = some class_state
class_of state_host_initial = some class_state
class_of state_service = some class_state
class_of state_service_initial = some class_state
class_of timeperiod_transition = some class_state
class_of core_starting = some class_program
class_of core_stopping = some class_program
class_of log_version = some class_program
class_of log_initial_states = some class_program

-- A typed entry has the class of its type, an alert or a state has a type, and a service is never named
-- without its host.
pub record IsShaped {Object : Type 0} (e : LogEntry Object) : Type 0 where
  pub of_type : (c : ℕ) → class_of e.type ≡ some c → e.logclass ≡ c
  pub typed :
      (e.logclass ≡ class_alert) ⊎ (e.logclass ≡ class_state) → (c : ℕ) × (class_of e.type ≡ some c)
  pub hosted : (d : Bytes) → e.svc_desc ≡ some d → (n : Bytes) × (e.host_name ≡ some n)

-- Where `next_token` finds nothing, it finds nothing afterwards.
next_token-after :
    (delim : ℕ) (s : Bytes) (d : Bytes)
    → (next_token delim (next_token delim s).1).0 ≡ some d
    → (n : Bytes) × ((next_token delim s).0 ≡ some n)
unfolding next_token
next_token-after delim [] d h = absurd (none-ne-some _ h)
next_token-after delim (c ∷ s) d h = (_, refl)

-- class and type fit together
abbrev pub Fits : ℕ → EntryType → Type 0
Fits logclass type =
    ((c : ℕ) → class_of type ≡ some c → logclass ≡ c)
    × ((logclass ≡ class_alert) ⊎ (logclass ≡ class_state) → (c : ℕ) × (class_of type ≡ some c))

pub fits_class : (type : EntryType) (c : ℕ) → class_of type ≡ some c → Fits c type
fits_class type c h = (λ d k. some_inj.0 (sym h ∙ k), λ _. (c, h))

pub fits_untyped :
    (type : EntryType) (c : ℕ) → type ≡ untyped → c ≢ class_alert → c ≢ class_state → Fits c type
fits_untyped type c h p q =
    (λ d k. absurd (none-ne-some _ (sym (ap class_of h) ∙ k)), λ k. absurd (ground arith))

pub branch_class :
    (b : Bool) (s t : EntryType)
    → class_of s ≡ some class_state
    → class_of t ≡ some class_state
    → class_of (if b then s else t) ≡ some class_state
branch_class true s t p q = p
branch_class false s t p q = q

module _ {Object : Type 0} where
  -- what a handler may touch later: nothing of these
  abbrev pub Same : LogEntry Object → LogEntry Object → Type 0
  Same e e' =
      (e.logclass ≡ e'.logclass)
      × (e.type ≡ e'.type)
      × (e.host_name ≡ e'.host_name)
      × (e.svc_desc ≡ e'.svc_desc)

  pub Same-IsShaped : (e e' : LogEntry Object) → Same e e' → IsShaped e → IsShaped e'
  Same-IsShaped e e' (p, q, r, s) h = record {
    of_type = λ c k. sym p ∙ h.of_type c (ap class_of q ∙ k);
    typed = λ k. let (c, l) = h.typed (rw p k) in (c, sym (ap class_of q) ∙ l);
    hosted = λ d k. let (n, l) = h.hosted d (s ∙ k) in (n, sym r ∙ l);
  }

  pub read_names-IsShaped :
      (svc : Bool) (scan : Bytes) (e : LogEntry Object)
      → e.svc_desc ≡ none
      → Fits e.logclass e.type
      → IsShaped (read_names svc scan e).0
  unfolding read_names
  read_names-IsShaped true scan e h (p, q) = record {
    of_type = p;
    typed = q;
    hosted = λ d k. next_token-after b';' scan d k;
  }
  read_names-IsShaped false scan e h (p, q) = record {
    of_type = p;
    typed = q;
    hosted = λ d k. absurd (none-ne-some _ (sym h ∙ k));
  }

  pub begin-IsShaped :
      (logclass : ℕ) (type : EntryType) (svc : Bool) (text : Bytes) (e : LogEntry Object)
      → e.svc_desc ≡ none
      → Fits logclass type
      → IsShaped (begin logclass type svc text e).0
  unfolding begin
  begin-IsShaped logclass type svc text e h fits = read_names-IsShaped svc _ _ h fits

  -- what a handler answers, if it answers
  pub record AllSome (answer : Option (LogEntry Object)) : Type 0 where
    pub shaped : (e : LogEntry Object) → answer ≡ some e → IsShaped e

  pub none-AllSome : AllSome none
  none-AllSome = record { shaped = λ e k. absurd (none-ne-some _ k) }

  pub some-AllSome : (e : LogEntry Object) → IsShaped e → AllSome (some e)
  some-AllSome e h = record { shaped = λ e' k. subst IsShaped (some_inj.0 k) h }

  pub branch :
      (b : Bool) (x y : Option (LogEntry Object))
      → AllSome x
      → AllSome y
      → AllSome (if b then x else y)
  branch true x y p q = p
  branch false x y p q = q

  pub branch_pair :
      (b : Bool) (x y : LogEntry Object × Bytes)
      → IsShaped x.0
      → IsShaped y.0
      → IsShaped (if b then x else y).0
  branch_pair true x y p q = p
  branch_pair false x y p q = q

  pub read_state-IsShaped :
      (svc : Bool) (p : LogEntry Object × Bytes) → IsShaped p.0 → IsShaped (read_state svc p)
  unfolding read_state
  read_state-IsShaped svc p = Same-IsShaped p.0 _ (refl, refl, refl, refl)

  pub read_comment-IsShaped :
      (p : LogEntry Object × Bytes) → IsShaped p.0 → IsShaped (read_comment p)
  unfolding read_comment
  read_comment-IsShaped p = Same-IsShaped p.0 _ (refl, refl, refl, refl)

  pub read_acknowledge-IsShaped :
      (p : LogEntry Object × Bytes) → IsShaped p.0 → IsShaped (read_acknowledge p)
  unfolding read_acknowledge
  read_acknowledge-IsShaped p = Same-IsShaped p.0 _ (refl, refl, refl, refl)

  pub read_info-IsShaped : (p : LogEntry Object × Bytes) → IsShaped p.0 → IsShaped (read_info p)
  unfolding read_info
  read_info-IsShaped p = Same-IsShaped p.0 _ (refl, refl, refl, refl)
