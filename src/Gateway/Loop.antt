-- ===== src/Gateway/Loop.antt =====
-- signal-gateway/src/gateway/mod.rs: the loop of `do_run` as events, each a branch of its select with
-- the clock's milliseconds. The state is signal-cli's and the assistant's, each of any type.
pub mod Admins
pub mod Causes
pub mod Replies
use signal_gateway.Common.{
  ℕ, Bool, true, false, Option, none, some, List, [], ◌∷◌, ◌++◌, if◌then◌else◌, ◌⊎◌, inl, inr,
}
use signal_gateway.Common.Text.{Text}
use signal_gateway.Assistant.{system}
use signal_gateway.SignalCli.{
  Calls, Envelope, DataMessage, MessageTarget, to_recipients, to_group, SignalMessage, send_message,
  send_read_receipt,
}
use signal_gateway.TrustSet.{is_trusted}
use signal_gateway.Gateway.{
  GatewayConfig, SignalAlertMessage, get_summary, alert_text, alert_message,
}
use signal_gateway.Gateway.Messages.{
  Services, SourcedAdminMessageResponse, SourcedMessageResult, record_for,
  handle_signal_admin_message, response_or_error,
}

pub data Received {ℓ} (P : Type ℓ) : Type ℓ where
  stream_closed : Received P
  bad_message : P → Received P
  received : Envelope → Received P

pub data Event {ℓ} (P : Type ℓ) : Type ℓ where
  stop_requested : Event P
  alert_received : Option SignalAlertMessage → ℕ → Event P
  signal_received : Received P → ℕ → Event P

-- How the loop ends: with `Ok` in three ways, with an error in two, or in a panic.
pub data Exit {ℓ κ} (E : Type ℓ) (P : Type κ) : Type (ℓ ⊔ κ) where
  stopped alerts_closed closed : Exit E P
  send_error : E → Exit E P
  parse_error : P → Exit E P
  panicked : Exit E P

pub data Outcome {ℓ κ μ} (St : Type μ) (E : Type ℓ) (P : Type κ) : Type (ℓ ⊔ (κ ⊔ μ)) where
  continue : St → Outcome St E P
  exit : Exit E P → St → Outcome St E P

-- To the group that a message came from, or to its sender.
unfoldable pub reply_target : Envelope → DataMessage → MessageTarget
reply_target msg dm = elim dm.group_info [
  | some group_id ↦ to_group group_id
  | none ↦ to_recipients (msg.source_uuid ∷ [])
]

unfoldable pub reply_message :
    GatewayConfig → Envelope → DataMessage → SourcedAdminMessageResponse → SignalMessage
unfolding reply_target
reply_message config msg dm sourced = record {
  sender = config.signal_account;
  target = reply_target msg dm;
  message = sourced.resp.text;
  attachments = sourced.resp.attachments;
}

module _ {ℓ κ μ ν} {S : Type ℓ} {E : Type κ} {P : Type μ} {B : Type ν} (client : Calls S E)
    (config : GatewayConfig) (services : Services B) where
  -- Where the message was sent, it goes into the assistant's history.
  abbrev pub after_send : S × (E ⊎ Unit {0}) → Option B → Option B → Outcome (S × Option B) E P
  after_send (s, inl e) failed_b sent_b = exit (send_error e) (s, failed_b)
  after_send (s, inr ok) failed_b sent_b = continue (s, sent_b)

  unfoldable pub send_alert : SignalAlertMessage → ℕ → S × Option B → Outcome (S × Option B) E P
  send_alert msg now (s, b) = elim (get_summary msg) [
    | none ↦ exit panicked (s, b)
    | some summary ↦
        after_send (send_message client (alert_message config msg) s) b
          (record_for services system (alert_text msg) now b)
  ]

  pub send_response :
      Envelope
      → DataMessage
      → ℕ
      → Option SourcedMessageResult
      → S × Option B
      → Outcome (S × Option B) E P
  send_response msg dm now none (s, b) = continue (s, b)
  send_response msg dm now (some result) (s, b) =
      let sourced = response_or_error result in
      after_send (send_message client (reply_message config msg dm sourced) s) b
        (record_for services sourced.source sourced.resp.text now b)

  -- The handler and the read receipt touch different states; an error of the receipt is only logged.
  pub handle_data_message : Envelope → DataMessage → ℕ → S × Option B → Outcome (S × Option B) E P
  unfolding send_response
  handle_data_message msg dm now (s, b) =
      if is_trusted config.signal_admins msg.source_uuid
      then (let (b', result) = handle_signal_admin_message services msg dm b in
          let (s', receipt) = send_read_receipt client msg config.signal_account s in
          send_response msg dm now result (s', b'))
      else continue (s, b)

  unfoldable pub handle_envelope : Envelope → ℕ → S × Option B → Outcome (S × Option B) E P
  unfolding handle_data_message
  handle_envelope msg now st = elim msg.data_message [
    | none ↦ continue st
    | some dm ↦ handle_data_message msg dm now st
  ]

  unfoldable pub handle_event : Event P → S × Option B → Outcome (S × Option B) E P
  unfolding send_alert handle_envelope
  handle_event stop_requested st = exit stopped st
  handle_event (alert_received none now) st = exit alerts_closed st
  handle_event (alert_received (some msg) now) st = send_alert msg now st
  handle_event (signal_received stream_closed now) st = exit closed st
  handle_event (signal_received (bad_message e) now) st = exit (parse_error e) st
  handle_event (signal_received (received msg) now) st = handle_envelope msg now st

  unfoldable pub event_loop : List (Event P) → S × Option B → Outcome (S × Option B) E P
  unfolding handle_event
  event_loop [] st = continue st
  event_loop (event ∷ events) st = elim (handle_event event st) [
    | continue st' ↦ event_loop events st'
    | exit e st' ↦ exit e st'
  ]
