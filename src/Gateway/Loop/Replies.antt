-- ===== src/Gateway/Loop/Replies.antt =====
-- What the loop asks of signal-cli, with a client that keeps a list of its calls.
use signal_gateway.Common.{
  ℕ, ◌≡◌, refl, inl, inr, true, Option, none, some, List, [], ◌∷◌, ◌++◌, ◌⊎◌, Bool-cases,
  Option-cases, sym, subst, All, All-append,
}
use signal_gateway.SignalCli.{
  Envelope, DataMessage, SendParams, ReceiptParams, send_params, send_message, send_read_receipt,
}
use signal_gateway.TrustSet.{is_trusted}
use signal_gateway.Gateway.{GatewayConfig, SignalAlertMessage, get_summary, alert_message}
use signal_gateway.Gateway.Messages.{Services, SourcedMessageResult, response_or_error}
use signal_gateway.Gateway.Loop.{
  stream_closed, bad_message, received, Event, stop_requested, alert_received, signal_received,
  Outcome, continue, exit, reply_message, after_send, send_alert, send_response,
  handle_data_message, handle_envelope, handle_event, event_loop,
}
use signal_gateway.Gateway.Loop.Causes.{
  Call, sent, receipt, recorder, Any, IsAlertCall, IsReplyCall, IsReceiptCall, IsCausedBy, state_of,
  alert_text-worded, alert_target-IsFor, reply_target-IsBack,
}

module _ {κ μ ν} {E : Type κ} {B : Type ν} (P : Type μ)
    (send_result : List Call → SendParams → E ⊎ Unit {0})
    (receipt_result : List Call → ReceiptParams → E ⊎ Unit {0}) (config : GatewayConfig)
    (services : Services B) where
  after_send-state :
      (r : E ⊎ Unit {0}) (calls : List Call) (b b' : Option B)
      → (state_of (
          after_send {P = P}
            (recorder send_result receipt_result)
            config
            services
            (calls, r)
            b
            b')).0
        ≡ calls
  after_send-state (inl e) calls b b' = refl
  after_send-state (inr ok) calls b b' = refl

  module _ (Q : Call → Type 0) where
    -- Every call so far is as `Q` says, in the state that an event leads to.
    abbrev Kept : Outcome (List Call × Option B) E P → Type 0
    Kept o = All Q (state_of o).0

    keep : (calls : List Call) (c : Call) → All Q calls → Q c → All Q (calls ++ c ∷ [])
    keep calls c h q = All-append Q calls (c ∷ []) h (q, tt)

    after_send-Kept :
        (calls : List Call) (p : SendParams) (b b' : Option B)
        → All Q calls
        → Q (sent p)
        → Kept (
            after_send {P = P}
              (recorder send_result receipt_result)
              config
              services
              (calls ++ sent p ∷ [], send_result calls p)
              b
              b')
    after_send-Kept calls p b b' h q =
        subst (All Q) (sym (after_send-state (send_result calls p) (calls ++ sent p ∷ []) b b'))
          (keep calls (sent p) h q)

    send_alert-Kept :
        (msg : SignalAlertMessage) (now : ℕ) (calls : List Call) (b : Option B)
        → All Q calls
        → ((p : SendParams) → IsAlertCall config msg p → Q (sent p))
        → Kept (
            send_alert {P = P}
              (recorder send_result receipt_result)
              config
              services
              msg
              now
              (calls, b))
    unfolding send_alert send_message send_params alert_message
    send_alert-Kept msg now calls b h q = elim (Option-cases (get_summary msg)) [
      | inl e ↦ rw (e, send_alert) h
      | inr (s, e) ↦
          rw (e, send_alert)
            (after_send-Kept calls (send_params (alert_message config msg)) b _ h (
              q _ (record {
                target = alert_target-IsFor config msg.destination_override;
                message = alert_text-worded msg;
              })))
    ]

    send_response-Kept :
        (msg : Envelope) (dm : DataMessage) (now : ℕ) (result : Option SourcedMessageResult)
        (calls : List Call) (b : Option B)
        → is_trusted config.signal_admins msg.source_uuid ≡ true
        → msg.data_message ≡ some dm
        → All Q calls
        → ((p : SendParams) → IsReplyCall config msg p → Q (sent p))
        → Kept (
            send_response {P = P}
              (recorder send_result receipt_result)
              config
              services
              msg
              dm
              now
              result
              (calls, b))
    unfolding send_response send_message send_params reply_message
    send_response-Kept msg dm now none calls b t e h q = h
    send_response-Kept msg dm now (some result) calls b t e h q =
        after_send-Kept calls (send_params (reply_message config msg dm (response_or_error result)))
          b _ h
          (q _ (record { trusted = t; dm = dm; has_data = e; target = reply_target-IsBack msg dm }))

    receipt-All :
        (msg : Envelope) (calls : List Call)
        → is_trusted config.signal_admins msg.source_uuid ≡ true
        → All Q calls
        → ((r : ReceiptParams) → IsReceiptCall config msg r → Q (receipt r))
        → All Q
            (send_read_receipt
              (recorder send_result receipt_result)
              msg
              config.signal_account
              calls).0
    unfolding send_read_receipt
    receipt-All msg calls t h k = elim (Option-cases msg.data_message) [
      | inl e ↦ rw (e, send_read_receipt) h
      | inr (dm, e) ↦
          rw (e, send_read_receipt)
            (keep calls _ h (
              k _ (record {
                trusted = t;
                dm = dm;
                has_data = e;
                recipient = refl;
                target_timestamp = refl;
              })))
    ]

    data_message-Kept :
        (msg : Envelope) (dm : DataMessage) (now : ℕ) (calls : List Call) (b : Option B)
        → msg.data_message ≡ some dm
        → All Q calls
        → ((p : SendParams) → IsReplyCall config msg p → Q (sent p))
        → ((r : ReceiptParams) → IsReceiptCall config msg r → Q (receipt r))
        → Kept (
            handle_data_message {P = P}
              (recorder send_result receipt_result)
              config
              services
              msg
              dm
              now
              (calls, b))
    unfolding handle_data_message
    data_message-Kept msg dm now calls b e h q k =
        elim (Bool-cases (is_trusted config.signal_admins msg.source_uuid)) [
          | inl t ↦
              rw (t, handle_data_message)
                (send_response-Kept msg dm now _ _ _ t e (receipt-All msg calls t h k) q)
          | inr t ↦ rw (t, handle_data_message) h
        ]

    envelope-Kept :
        (msg : Envelope) (now : ℕ) (calls : List Call) (b : Option B)
        → All Q calls
        → ((p : SendParams) → IsReplyCall config msg p → Q (sent p))
        → ((r : ReceiptParams) → IsReceiptCall config msg r → Q (receipt r))
        → Kept (
            handle_envelope {P = P}
              (recorder send_result receipt_result)
              config
              services
              msg
              now
              (calls, b))
    unfolding handle_envelope
    envelope-Kept msg now calls b h q k = elim (Option-cases msg.data_message) [
      | inl e ↦ rw (e, handle_envelope) h
      | inr (dm, e) ↦ rw (e, handle_envelope) (data_message-Kept msg dm now calls b e h q k)
    ]

    event-Kept :
        (event : Event P) (st : List Call × Option B)
        → All Q st.0
        → ((c : Call) → IsCausedBy config event c → Q c)
        → Kept (handle_event (recorder send_result receipt_result) config services event st)
    unfolding handle_event
    event-Kept stop_requested st h q = h
    event-Kept (alert_received none now) st h q = h
    event-Kept (alert_received (some msg) now) (calls, b) h q =
        send_alert-Kept msg now calls b h (λ p. q (sent p))
    event-Kept (signal_received stream_closed now) st h q = h
    event-Kept (signal_received (bad_message e) now) st h q = h
    event-Kept (signal_received (received msg) now) (calls, b) h q =
        envelope-Kept msg now calls b h (λ p. q (sent p)) (λ r. q (receipt r))

    loop-Kept :
        (events : List (Event P)) (st : List Call × Option B)
        → All Q st.0
        → ((c : Call) → Any (λ event. IsCausedBy config event c) events → Q c)
        → Kept (event_loop (recorder send_result receipt_result) config services events st)
    unfolding event_loop
    loop-Kept [] st h q = h
    loop-Kept (event ∷ events) st h q =
        go (handle_event (recorder send_result receipt_result) config services event st)
          (λ st' k. loop-Kept events st' k (λ c i. q c (inr i)))
          (event-Kept event st h (λ c i. q c (inl i)))
      where
        go :
            (o : Outcome (List Call × Option B) E P)
            → ((st' : List Call × Option B)
                → All Q st'.0
                → Kept
                    (event_loop (recorder send_result receipt_result) config services events st'))
            → Kept o
            → Kept (elim o [
              | continue st' ↦
                  event_loop (recorder send_result receipt_result) config services events st'
              | exit e st' ↦ exit e st'
            ])
        go (continue st') rest k = rest st' k
        go (exit x st') rest k = k

  -- Whatever the events, whichever calls fail (after whatever calls before), everything the loop asks
  -- of signal-cli has a cause among the events. It is a message with an alert's text, to the alert's
  -- own group or recipients or, where it names none, to the configured group or else to every admin;
  -- or, for a data message of an admin, a receipt for that message to its sender, or a message to its
  -- group alone or, where it has none, to its sender alone.
  pub event_loop-caused :
      (events : List (Event P)) (b : Option B)
      → All
          (λ c. Any (λ event. IsCausedBy config event c) events)
          (state_of
            (event_loop (recorder send_result receipt_result) config services events ([], b))).0
  event_loop-caused events b =
      loop-Kept (λ c. Any (λ event. IsCausedBy config event c) events) events ([], b) tt (λ c i. i)
