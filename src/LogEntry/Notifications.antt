-- ===== src/LogEntry/Notifications.antt =====
-- Notifications of src/LogEntry.cc, whose state and command may stand in either order.
use naemon_livestatus.Prelude.{◌≡◌, refl, ◌∙◌, Bool, true, false, ◌++◌, ◌∷◌, pos, some}
use naemon_livestatus.Text.{Bytes}
use naemon_livestatus.LogEntry.{LogEntry}
use naemon_livestatus.LogEntry.Status.{read_names}
use naemon_livestatus.LogEntry.Messages.{
  notified_state, unreadable, set_notified, read_notification,
}
use naemon_livestatus.LogEntry.Tokens.{
  IsToken, next_token-token, next_token-last, save_next_token-token,
}

-- the fields of a notification; `svc_desc` is not used for a host
pub record Notification : Type 0 where
  pub contact_name : Bytes
  pub host_name : Bytes
  pub svc_desc : Bytes
  pub state : Bytes
  pub command_name : Bytes
  pub check_output : Bytes

-- no field is empty or has a `;`
pub record IsPlain (n : Notification) : Type 0 where
  pub contact_name : IsToken b';' n.contact_name
  pub host_name : IsToken b';' n.host_name
  pub svc_desc : IsToken b';' n.svc_desc
  pub state : IsToken b';' n.state
  pub command_name : IsToken b';' n.command_name
  pub check_output : IsToken b';' n.check_output

abbrev names_text : Bool → Notification → Bytes → Bytes
names_text true n rest = n.host_name ++ b';' ∷ (n.svc_desc ++ b';' ∷ rest)
names_text false n rest = n.host_name ++ b';' ∷ rest

-- what follows the title: state and command, or command and state
abbrev pub state_first : Bool → Notification → Bytes
state_first svc n =
    n.contact_name
    ++ b';' ∷ names_text svc n (n.state ++ b';' ∷ (n.command_name ++ b';' ∷ n.check_output))

abbrev pub command_first : Bool → Notification → Bytes
command_first svc n =
    n.contact_name
    ++ b';' ∷ names_text svc n (n.command_name ++ b';' ∷ (n.state ++ b';' ∷ n.check_output))

module _ {Object : Type 0} where
  abbrev with_names : Bool → Notification → LogEntry Object → LogEntry Object
  with_names true n e = record e {
    contact_name = some n.contact_name;
    host_name = some n.host_name;
    svc_desc = some n.svc_desc;
  }
  with_names false n e = record e {
    contact_name = some n.contact_name;
    host_name = some n.host_name;
  }

  -- what the entry says of the notification
  abbrev pub told : Bool → Notification → LogEntry Object → LogEntry Object
  told svc n e = record (with_names svc n e) {
    state_type = some n.state;
    command_name = some n.command_name;
    state = pos (notified_state svc (some n.state));
    check_output = some n.check_output;
  }

  module _ (svc : Bool) (n : Notification) (h : IsPlain n) (e : LogEntry Object) where
    names_read :
        (svc' : Bool) (rest : Bytes)
        → read_names svc' (names_text svc' n rest) (record e { contact_name = some n.contact_name })
          ≡ (with_names svc' n e, rest)
    unfolding read_names
    names_read true rest =
        rw
          (
            next_token-token b';' n.host_name _ h.host_name,
            next_token-token b';' n.svc_desc _ h.svc_desc,
          )
          refl
    names_read false rest = rw (next_token-token b';' n.host_name _ h.host_name) refl

    fields_read :
        (a b : Bytes)
        → IsToken b';' a
        → IsToken b';' b
        → read_notification svc
            (n.contact_name ++ b';' ∷ names_text svc n (a ++ b';' ∷ (b ++ b';' ∷ n.check_output)))
            e
          ≡ record (set_notified svc (some a) (some b) (with_names svc n e)) {
            check_output = some n.check_output;
          }
    unfolding read_notification
    fields_read a b p q =
        rw
          (
            next_token-token b';' n.contact_name _ h.contact_name,
            names_read svc _,
            save_next_token-token b';' a _ p,
            next_token-token b';' b _ q,
            next_token-last b';' n.check_output h.check_output,
          )
          refl

    -- A notification is read the same whether its state stands in front of its command or, as in
    -- custom and downtime notifications, behind it: for fields that are not empty and have no
    -- semicolon, where the state can be read as one and the command cannot, both orders give the
    -- same entry, with all the fields of the notification.
    pub read_notification-order :
        unreadable svc (notified_state svc (some n.state)) ≡ false
        → unreadable svc (notified_state svc (some n.command_name)) ≡ true
        → (read_notification svc (state_first svc n) e ≡ told svc n e)
          × (read_notification svc (command_first svc n) e ≡ told svc n e)
    unfolding set_notified
    read_notification-order readable other = (
      fields_read n.state n.command_name h.state h.command_name ∙ rw readable refl,
      fields_read n.command_name n.state h.command_name h.state ∙ rw other refl,
    )
