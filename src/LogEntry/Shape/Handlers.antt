-- ===== src/LogEntry/Shape/Handlers.antt =====
-- The handlers and the constructor of src/LogEntry.cc keep class, type and names together.
use mathlib.Core.Option.{some_inj, none-ne-some}
use naemon_livestatus.Prelude.{
  ℕ, Option-cases, Bool-cases, drop, ◌==◌, ◌≡◌, refl, sym, ◌∙◌, ◌≢◌, arith, inl, inr, Bool, true,
  false, Option, none, some, ◌==◌, if◌then◌else◌,
}
use naemon_livestatus.Text.{Bytes, strip_prefix}
use naemon_livestatus.LogEntry.{
  LogEntry, EntryType, begins, untyped, alert_host, alert_service, downtime_alert_host,
  downtime_alert_service, state_host, state_host_initial, state_service, state_service_initial,
  flapping_host, flapping_service, timeperiod_transition, core_stopping, log_version,
  log_initial_states, acknowledge_alert_host, acknowledge_alert_service, class_info, class_alert,
  class_program, class_state, class_notification, class_passivecheck, class_command, split_text,
}
use naemon_livestatus.LogEntry.Status.{initial, handle_status_entry, state_entry, begin}
use naemon_livestatus.LogEntry.Messages.{
  handle_notification_entry, handle_passive_check_entry, handle_external_command_entry,
  handle_notes, handle_text_entry, handle_programm_entry, command_names, read_notification,
  set_notified, unreadable, notified_state,
}
use naemon_livestatus.LogEntry.Parse.{refer_to_objects, message_entry, or_else, safe, other_text}
use naemon_livestatus.LogEntry.Shape.{
  class_of, IsShaped, Same-IsShaped, Fits, fits_class, fits_untyped, branch, branch_pair,
  branch_class, AllSome, none-AllSome, some-AllSome, read_names-IsShaped, begin-IsShaped,
  read_state-IsShaped, read_comment-IsShaped, read_acknowledge-IsShaped, read_info-IsShaped,
}

module _ {Object : Type 0} where
  set_notified-IsShaped :
      (svc : Bool) (a b : Option Bytes) (e : LogEntry Object)
      → IsShaped e
      → IsShaped (set_notified svc a b e)
  unfolding set_notified
  set_notified-IsShaped svc a b e h = elim (Bool-cases (unreadable svc (notified_state svc a))) [
    | inl k ↦ rw k (Same-IsShaped e _ (refl, refl, refl, refl) h)
    | inr k ↦ rw k (Same-IsShaped e _ (refl, refl, refl, refl) h)
  ]

  -- cutting further tokens keeps an entry as it is
  read_notification-IsShaped :
      (svc : Bool) (scan : Bytes) (e : LogEntry Object)
      → e.svc_desc ≡ none
      → Fits e.logclass e.type
      → IsShaped (read_notification svc scan e)
  unfolding read_notification
  read_notification-IsShaped svc scan e h fits =
      Same-IsShaped _ _ (refl, refl, refl, refl)
        (set_notified-IsShaped svc _ _ _ (read_names-IsShaped svc _ _ h fits))

  -- what a chain of handlers answers, if it answers and reads no null pointer
  pub record Answer (answer : Option (Option (LogEntry Object))) : Type 0 where
    pub entry : (e : LogEntry Object) → answer ≡ some (some e) → IsShaped e

  or_else-Answer :
      (x y : Option (Option (LogEntry Object))) → Answer x → Answer y → Answer (or_else x y)
  unfolding or_else
  or_else-Answer none y p q = q
  or_else-Answer (some x) y p q = p

  safe-Answer : (x : Option (LogEntry Object)) → AllSome x → Answer (safe x)
  safe-Answer none h = record { entry = λ e k. absurd (none-ne-some _ k) }
  safe-Answer (some x) h = record { entry = λ e k. h.shaped e (some_inj.0 k) }

  branch-Answer :
      (b : Bool) (x : Option (LogEntry Object)) → AllSome x → Answer (if b then some x else none)
  branch-Answer true x h = record { entry = λ e k. h.shaped e (some_inj.0 k) }
  branch-Answer false x h = record { entry = λ e k. absurd (none-ne-some _ k) }

  command_names-AllSome :
      (cmd : Option Bytes) (scan : Bytes) (e : LogEntry Object)
      → e.svc_desc ≡ none
      → Fits e.logclass e.type
      → AllSome (command_names cmd scan e)
  unfolding command_names
  command_names-AllSome none scan e h fits = none-AllSome
  command_names-AllSome (some cmd) scan e h fits =
      branch _ _ _ (some-AllSome _ (read_names-IsShaped false scan e h fits)) (
        branch _ _ _ (some-AllSome _ (read_names-IsShaped true scan e h fits)) (
          some-AllSome _ (record {
            of_type = fits.0;
            typed = fits.1;
            hosted = λ d k. absurd (none-ne-some _ (sym h ∙ k));
          })))

  module _ (text : Bytes) (e : LogEntry Object) (fresh : e.svc_desc ≡ none) where
    started :
        (type : EntryType) (c : ℕ) (svc : Bool)
        → class_of type ≡ some c
        → IsShaped (begin c type svc text e).0
    started type c svc h = begin-IsShaped c type svc text e fresh (fits_class type c h)

    informed : (svc : Bool) → IsShaped (begin class_info untyped svc text e).0
    informed svc =
        begin-IsShaped class_info untyped svc text e fresh
          (fits_untyped untyped class_info refl (omega arith) (omega arith))

    pub titled :
        (type : EntryType) (c : ℕ) → Fits c type → IsShaped (record e { logclass = c; type = type })
    titled type c fits = record {
      of_type = fits.0;
      typed = fits.1;
      hosted = λ d k. absurd (none-ne-some _ (sym fresh ∙ k));
    }

    state_entry-IsShaped : (svc : Bool) → IsShaped (state_entry svc text e)
    unfolding state_entry
    state_entry-IsShaped true = read_state-IsShaped true _ (
        branch_pair _ _ _ (started alert_service class_alert true refl) (
          started _ class_state true
            (branch_class (initial text == b'I') state_service_initial state_service refl refl)))
    state_entry-IsShaped false = read_state-IsShaped false _ (
        branch_pair _ _ _ (started alert_host class_alert false refl) (
          started _ class_state false
            (branch_class (initial text == b'I') state_host_initial state_host refl refl)))

    handle_status_entry-AllSome : AllSome (handle_status_entry text e)
    unfolding handle_status_entry
    handle_status_entry-AllSome = branch _ _ _ (some-AllSome _ (state_entry-IsShaped false)) (
        branch _ _ _
          (some-AllSome _
            (read_comment-IsShaped _ (started downtime_alert_host class_alert false refl)))
          (branch _ _ _
            (some-AllSome _
              (read_acknowledge-IsShaped _ (started acknowledge_alert_host class_alert false refl)))
            (branch _ _ _
              (some-AllSome _
                (read_comment-IsShaped _ (started flapping_host class_alert false refl)))
              (branch _ _ _ (some-AllSome _ (read_info-IsShaped _ (informed false))) (
                branch _ _ _ (some-AllSome _ (state_entry-IsShaped true)) (
                  branch _ _ _
                    (some-AllSome _ (
                      read_comment-IsShaped _
                        (started downtime_alert_service class_alert true refl)))
                    (branch _ _ _
                      (some-AllSome _ (
                        read_acknowledge-IsShaped _
                          (started acknowledge_alert_service class_alert true refl)))
                      (branch _ _ _
                        (some-AllSome _ (
                          read_comment-IsShaped _ (started flapping_service class_alert true refl)))
                        (branch _ _ _ (some-AllSome _ (read_info-IsShaped _ (informed true))) (
                          branch _ _ _
                            (some-AllSome _ (
                              titled timeperiod_transition class_state
                                (fits_class timeperiod_transition class_state refl)))
                            none-AllSome))))))))))

    module _ (plain : e.type ≡ untyped) where
      free : (c : ℕ) → c ≢ class_alert → c ≢ class_state → Fits c e.type
      free c p q = fits_untyped e.type c plain p q

      handle_notification_entry-AllSome : AllSome (handle_notification_entry text e)
      unfolding handle_notification_entry
      handle_notification_entry-AllSome =
          branch _ _ _
            (some-AllSome _ (
              read_notification-IsShaped _ _ _ fresh
                (free class_notification (omega arith) (omega arith))))
            none-AllSome

      handle_passive_check_entry-AllSome : AllSome (handle_passive_check_entry text e)
      unfolding handle_passive_check_entry
      handle_passive_check_entry-AllSome =
          branch _ _ _
            (some-AllSome _ (
              Same-IsShaped _ _ (refl, refl, refl, refl)
                (read_names-IsShaped (initial (drop 8 text) == b'S') (split_text text).1
                  (record e { logclass = class_passivecheck; text = (split_text text).0 }) fresh
                  (free class_passivecheck (omega arith) (omega arith)))))
            none-AllSome

      handle_notes-AllSome : AllSome (handle_notes text e)
      unfolding handle_notes
      handle_notes-AllSome =
          branch _ _ _
            (some-AllSome _
              (read_names-IsShaped _ _ _ fresh (free class_info (omega arith) (omega arith))))
            none-AllSome

      handle_text_entry-AllSome : AllSome (handle_text_entry text e)
      unfolding handle_text_entry
      handle_text_entry-AllSome =
          branch _ _ _
            (some-AllSome _
              (titled log_version class_program (fits_class log_version class_program refl)))
            (branch _ _ _
              (some-AllSome _ (
                titled log_initial_states class_program
                  (fits_class log_initial_states class_program refl)))
              none-AllSome)

      handle_programm_entry-AllSome : AllSome (handle_programm_entry text e)
      unfolding handle_programm_entry
      handle_programm_entry-AllSome =
          branch _ _ _
            (some-AllSome _
              (titled core_stopping class_program (fits_class core_stopping class_program refl)))
            (branch _ _ _
              (some-AllSome _
                (titled e.type class_program (free class_program (omega arith) (omega arith))))
              none-AllSome)

      handle_external_command_entry-Answer : Answer (handle_external_command_entry text e)
      unfolding handle_external_command_entry
      handle_external_command_entry-Answer =
          branch-Answer _ _
            (command_names-AllSome _ _ _ fresh (free class_command (omega arith) (omega arith)))

      pub refer_to_objects-Answer : Answer (refer_to_objects text e)
      unfolding refer_to_objects message_entry
      refer_to_objects-Answer = or_else-Answer _ _ (safe-Answer _ handle_status_entry-AllSome) (
          or_else-Answer _ _ (safe-Answer _ handle_notification_entry-AllSome) (
            or_else-Answer _ _ (safe-Answer _ handle_passive_check_entry-AllSome) (
              or_else-Answer _ _ handle_external_command_entry-Answer
                (safe-Answer _ handle_notes-AllSome))))

      pub other_text-IsShaped : IsShaped e → IsShaped (other_text text e)
      unfolding other_text handle_text_entry begins strip_prefix
      other_text-IsShaped h = elim (Option-cases (handle_text_entry text e)) [
        | inr (e', k) ↦ rw k (handle_text_entry-AllSome.shaped e' k)
        | inl k ↦ rw k (elim (Option-cases (handle_programm_entry text e)) [
          | inr (e', l) ↦ rw l (handle_programm_entry-AllSome.shaped e' l)
          | inl l ↦ rw l h
        ])
      ]
