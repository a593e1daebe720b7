-- ===== src/Gateway/Loop/Causes.antt =====
-- What may be asked of signal-cli because of an event, and a client that keeps a list of its calls.
use signal_gateway.Common.{
  ◌≡◌, refl, inl, inr, true, Option, none, some, List, [], ◌∷◌, ◌++◌, ◌⊎◌, Option-cases, map,
}
use signal_gateway.Common.Text.{Text, codes}
use signal_gateway.LogMessage.{Origin, display_origin}
use signal_gateway.LimiterSet.{Destination, recipients, group}
use signal_gateway.SignalCli.{
  Calls, Envelope, DataMessage, SendParams, ReceiptParams, recipients_of, group_ids_of,
}
use signal_gateway.TrustSet.{is_trusted}
use signal_gateway.Gateway.{GatewayConfig, SignalAlertMessage, alert_target, alert_text}
use signal_gateway.Gateway.Loop.{
  received, Event, alert_received, signal_received, Outcome, continue, exit, reply_target,
}

pub data Call : Type 0 where
  sent : SendParams → Call
  receipt : ReceiptParams → Call

-- Which calls fail is any function of the calls before and of their arguments.
abbrev pub recorder {κ} :
    {E : Type κ}
    → (List Call → SendParams → E ⊎ Unit {0})
    → (List Call → ReceiptParams → E ⊎ Unit {0})
    → Calls (List Call) E
recorder send_result receipt_result = record {
  send = λ p calls. (calls ++ sent p ∷ [], send_result calls p);
  send_receipt = λ r calls. (calls ++ receipt r ∷ [], receipt_result calls r);
}

abbrev pub Any {ℓ} : {A : Type ℓ} → (A → Type 0) → List A → Type 0
Any P [] = ⊥
Any P (x ∷ xs) = P x ⊎ Any P xs

-- Whom an alert is for, in the recipients and the groups of a call: those of its own destination, or
-- else the configured group, or else every admin.
pub data IsFor (config : GatewayConfig) : Option Destination → List Text → List Text → Type 0 where
  own_group : (g : Text) → IsFor config (some (group g)) [] (g ∷ [])
  own_recipients : (rs : List Text) → IsFor config (some (recipients rs)) rs []
  alert_group : (g : Text) → config.alert_group_id ≡ some g → IsFor config none [] (g ∷ [])
  all_admins :
      config.alert_group_id ≡ none
      → IsFor config none (map (λ admin. admin.0) config.signal_admins) []

-- The text of an alert, with the line of its origin before it, if there is one.
abbrev pub worded : Option Origin → Text → Text
worded none text = text
worded (some origin) text = codes "[" ++ display_origin origin ++ codes "]\n" ++ text

-- What may be sent because of an alert: a message with its text to whom it is for.
pub record IsAlertCall (config : GatewayConfig) (msg : SignalAlertMessage) (p : SendParams)
    : Type 0 where
  pub target : IsFor config msg.destination_override p.recipients p.group_ids
  pub message : p.message ≡ worded msg.origin msg.text

-- Where an answer goes: to the group of the message alone, or to its sender alone if it has none.
pub data IsBack (sender : Text) : Option Text → List Text → List Text → Type 0 where
  to_its_group : (g : Text) → IsBack sender (some g) [] (g ∷ [])
  to_its_sender : IsBack sender none (sender ∷ []) []

-- What may be sent because of a message: only if it is a data message of an admin.
pub record IsReplyCall (config : GatewayConfig) (msg : Envelope) (p : SendParams) : Type 0 where
  pub trusted : is_trusted config.signal_admins msg.source_uuid ≡ true
  pub dm : DataMessage
  pub has_data : msg.data_message ≡ some dm
  pub target : IsBack msg.source_uuid dm.group_info p.recipients p.group_ids

pub record IsReceiptCall (config : GatewayConfig) (msg : Envelope) (r : ReceiptParams)
    : Type 0 where
  pub trusted : is_trusted config.signal_admins msg.source_uuid ≡ true
  pub dm : DataMessage
  pub has_data : msg.data_message ≡ some dm
  pub recipient : r.recipient ≡ msg.source_uuid
  pub target_timestamp : r.target_timestamp ≡ dm.timestamp ∷ []

abbrev pub IsCausedBy {μ} : {P : Type μ} → GatewayConfig → Event P → Call → Type 0
IsCausedBy config (alert_received (some msg) now) (sent p) = IsAlertCall config msg p
IsCausedBy config (signal_received (received msg) now) (sent p) = IsReplyCall config msg p
IsCausedBy config (signal_received (received msg) now) (receipt r) = IsReceiptCall config msg r
IsCausedBy config _ _ = ⊥

abbrev pub state_of {ℓ κ μ} : {St : Type μ} {E : Type ℓ} {P : Type κ} → Outcome St E P → St
state_of (continue st) = st
state_of (exit x st) = st

pub alert_text-worded : (msg : SignalAlertMessage) → alert_text msg ≡ worded msg.origin msg.text
unfolding alert_text
alert_text-worded msg = elim (Option-cases msg.origin) [
  | inl e ↦ rw (e, alert_text)
  | inr (o, e) ↦ rw (e, alert_text)
]

pub alert_target-IsFor :
    (config : GatewayConfig) (d : Option Destination)
    → IsFor config d (recipients_of (alert_target config d)) (group_ids_of (alert_target config d))
unfolding alert_target
alert_target-IsFor config none = elim (Option-cases config.alert_group_id) [
  | inl e ↦ rw e (all_admins refl)
  | inr (g, e) ↦ rw e (alert_group g refl)
]
alert_target-IsFor config (some (group g)) = own_group g
alert_target-IsFor config (some (recipients rs)) = own_recipients rs

pub reply_target-IsBack :
    (msg : Envelope) (dm : DataMessage)
    → IsBack msg.source_uuid dm.group_info
        (recipients_of (reply_target msg dm))
        (group_ids_of (reply_target msg dm))
unfolding reply_target
reply_target-IsBack msg dm = go dm.group_info refl
  where
    go :
        (g : Option Text)
        → dm.group_info ≡ g
        → IsBack msg.source_uuid g
            (recipients_of (reply_target msg dm))
            (group_ids_of (reply_target msg dm))
    go none e = rw (e, reply_target) to_its_sender
    go (some g) e = rw (e, reply_target) (to_its_group g)
