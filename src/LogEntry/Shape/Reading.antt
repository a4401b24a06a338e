-- ===== src/LogEntry/Shape/Reading.antt =====
-- The constructor of src/LogEntry.cc makes entries whose class, type and names fit together.
use naemon_livestatus.Prelude.{ℕ, take, drop, ◌≡◌, refl, arith, Option, none, some}
use naemon_livestatus.Text.{Bytes, atoi}
use naemon_livestatus.LogEntry.{LogEntry, Objects, untyped, class_info, class_invalid}
use naemon_livestatus.LogEntry.Parse.{
  strip_newlines, parse, classify, resolve, update_references, set_host, set_service, set_contact,
  set_command, empty_entry, other_text, read_message, read_stamped,
}
use naemon_livestatus.LogEntry.Shape.{
  IsShaped, Same-IsShaped, fits_untyped, branch, AllSome, none-AllSome, some-AllSome,
}
use naemon_livestatus.LogEntry.Shape.Handlers.{
  Answer, titled, other_text-IsShaped, refer_to_objects-Answer,
}

module _ {Object : Type 0} where
  set_host-IsShaped :
      (o : Objects Object) (n : Option Bytes) (e : LogEntry Object)
      → IsShaped e
      → IsShaped (set_host o n e)
  unfolding set_host
  set_host-IsShaped o none e h = h
  set_host-IsShaped o (some n) e h = Same-IsShaped e _ (refl, refl, refl, refl) h

  set_service-IsShaped :
      (o : Objects Object) (n : Option Bytes) (e : LogEntry Object)
      → IsShaped e
      → IsShaped (set_service o n e)
  unfolding set_service
  set_service-IsShaped o none e h = h
  set_service-IsShaped o (some n) e h = Same-IsShaped e _ (refl, refl, refl, refl) h

  set_contact-IsShaped :
      (o : Objects Object) (n : Option Bytes) (e : LogEntry Object)
      → IsShaped e
      → IsShaped (set_contact o n e)
  unfolding set_contact
  set_contact-IsShaped o none e h = h
  set_contact-IsShaped o (some n) e h = Same-IsShaped e _ (refl, refl, refl, refl) h

  set_command-IsShaped :
      (o : Objects Object) (n : Option Bytes) (e : LogEntry Object)
      → IsShaped e
      → IsShaped (set_command o n e)
  unfolding set_command
  set_command-IsShaped o none e h = h
  set_command-IsShaped o (some n) e h = Same-IsShaped e _ (refl, refl, refl, refl) h

  update_references-IsShaped :
      (o : Objects Object) (e : LogEntry Object) → IsShaped e → IsShaped (update_references o e)
  unfolding update_references
  update_references-IsShaped o e h =
      set_command-IsShaped o _ _
        (set_contact-IsShaped o _ _ (set_service-IsShaped o _ _ (set_host-IsShaped o _ e h)))

  resolve-AllSome :
      (o : Objects Object) (text : Bytes) (e : LogEntry Object)
      (a : Option (Option (LogEntry Object)))
      → IsShaped (other_text text e)
      → Answer a
      → AllSome (resolve o text e a)
  unfolding resolve
  resolve-AllSome o text e none h k = some-AllSome _ h
  resolve-AllSome o text e (some none) h k = none-AllSome
  resolve-AllSome o text e (some (some e')) h k =
      some-AllSome _ (update_references-IsShaped o e' (k.entry e' refl))

  read_message-AllSome :
      (o : Objects Object) (lineno : ℕ) (msg : Bytes) → AllSome (read_message o lineno msg)
  unfolding read_message read_stamped classify empty_entry
  read_message-AllSome o lineno msg =
      let text = drop 13 msg in
      let e : LogEntry Object = record (empty_entry lineno msg) {
        time = atoi (take 10 (drop 1 msg));
        text = some text;
      } in
      branch _ _ _
        (some-AllSome _ (
          titled text (empty_entry lineno msg) refl untyped class_invalid
            (fits_untyped untyped class_invalid refl (omega arith) (omega arith))))
        (resolve-AllSome o text e _
          (other_text-IsShaped text e refl refl (
            titled text e refl untyped class_info
              (fits_untyped untyped class_info refl (omega arith) (omega arith))))
          (refer_to_objects-Answer text e refl refl))

-- Whatever the line, class, type and names of the entry that the constructor makes fit together: an
-- entry with a type has the class of that type, an alert or a state has a type, and a service is
-- never named without its host.
pub parse-IsShaped :
    {Object : Type 0} (o : Objects Object) (lineno : ℕ) (line : Bytes) (e : LogEntry Object)
    → parse o lineno line ≡ some e
    → IsShaped e
unfolding parse
parse-IsShaped o lineno line e h = (read_message-AllSome o lineno (strip_newlines line)).shaped e h
