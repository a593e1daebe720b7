-- ===== src/Gateway/Loop/Admins.antt =====
-- Messages that are no admin's have no effect on the loop.
use signal_gateway.Common.{
  ℕ, ◌≡◌, refl, ◌∙◌, inl, inr, Bool, true, false, Option, none, some, List, [], ◌∷◌, if◌then◌else◌,
  Bool-cases, Option-cases, sym, subst,
}
use signal_gateway.SignalCli.{Calls, Envelope, DataMessage}
use signal_gateway.TrustSet.{SignalTrustSet, is_trusted}
use signal_gateway.Gateway.{GatewayConfig}
use signal_gateway.Gateway.Messages.{Services}
use signal_gateway.Gateway.Loop.{
  stream_closed, bad_message, received, Event, stop_requested, alert_received, signal_received,
  Outcome, continue, exit, handle_data_message, handle_envelope, handle_event, event_loop,
}

-- Every event but a received message, and of those a data message of a trusted account.
abbrev pub is_admitted {μ} : {P : Type μ} → SignalTrustSet → Event P → Bool
is_admitted admins stop_requested = true
is_admitted admins (alert_received msg now) = true
is_admitted admins (signal_received stream_closed now) = true
is_admitted admins (signal_received (bad_message e) now) = true
is_admitted admins (signal_received (received msg) now) = elim msg.data_message [
  | none ↦ false
  | some dm ↦ is_trusted admins msg.source_uuid
]

abbrev pub admitted {μ} : {P : Type μ} → SignalTrustSet → List (Event P) → List (Event P)
admitted admins [] = []
admitted admins (event ∷ events) =
    if is_admitted admins event then event ∷ admitted admins events else admitted admins events

module _ {ℓ κ μ ν} {S : Type ℓ} {E : Type κ} {P : Type μ} {B : Type ν} (client : Calls S E)
    (config : GatewayConfig) (services : Services B) where
  data_message-ignored :
      (msg : Envelope) (dm : DataMessage) (now : ℕ) (st : S × Option B)
      → is_trusted config.signal_admins msg.source_uuid ≡ false
      → handle_data_message {P = P} client config services msg dm now st ≡ continue st
  unfolding handle_data_message
  data_message-ignored msg dm now (s, b) h = rw (h, handle_data_message) refl

  envelope-ignored :
      (msg : Envelope) (now : ℕ) (st : S × Option B)
      → is_admitted {P = P} config.signal_admins (signal_received (received msg) now) ≡ false
      → handle_envelope {P = P} client config services msg now st ≡ continue st
  unfolding handle_envelope
  envelope-ignored msg now st h = elim (Option-cases msg.data_message) [
    | inl e ↦ rw (e, handle_envelope) refl
    | inr (dm, e) ↦
        rw (e, handle_envelope)
          (data_message-ignored msg dm now st (
            subst
              (λ o.
                (elim o [ none ↦ false | some d ↦ is_trusted config.signal_admins msg.source_uuid ])
                ≡ false)
              e h))
  ]

  event-ignored :
      (event : Event P) (st : S × Option B)
      → is_admitted config.signal_admins event ≡ false
      → handle_event client config services event st ≡ continue st
  unfolding handle_event
  event-ignored stop_requested st h = cc
  event-ignored (alert_received msg now) st h = cc
  event-ignored (signal_received stream_closed now) st h = cc
  event-ignored (signal_received (bad_message e) now) st h = cc
  event-ignored (signal_received (received msg) now) st h = envelope-ignored msg now st h

  loop_head :
      (o : Outcome (S × Option B) E P) (event : Event P) (events : List (Event P))
      (st : S × Option B)
      → handle_event client config services event st ≡ o
      → event_loop client config services (event ∷ events) st ≡ (elim o [
        | continue st' ↦ event_loop client config services events st'
        | exit e st' ↦ exit e st'
      ])
  unfolding event_loop
  loop_head o event events st e = rw (e, event_loop) refl

  after_event :
      (o : Outcome (S × Option B) E P) (event : Event P) (events others : List (Event P))
      (st : S × Option B)
      → handle_event client config services event st ≡ o
      → ((st' : S × Option B)
          → event_loop client config services events st'
            ≡ event_loop client config services others st')
      → event_loop client config services (event ∷ events) st
        ≡ event_loop client config services (event ∷ others) st
  after_event (continue st') event events others st e h =
      loop_head (continue st') event events st e
      ∙ h st'
      ∙ sym (loop_head (continue st') event others st e)
  after_event (exit x st') event events others st e h =
      loop_head (exit x st') event events st e ∙ sym (loop_head (exit x st') event others st e)

  -- Messages without data, and messages of senders that are not admins, change nothing at all: the
  -- loop does and ends up as if they had not been received. No handler sees them, and nothing is
  -- sent for them, not even a receipt.
  pub event_loop-admitted :
      (events : List (Event P)) (st : S × Option B)
      → event_loop client config services events st
        ≡ event_loop client config services (admitted config.signal_admins events) st
  event_loop-admitted [] st = refl
  event_loop-admitted (event ∷ events) st =
      elim (Bool-cases (is_admitted config.signal_admins event)) [
        | inl a ↦
            rw a (after_event _ event events _ st refl (λ st'. event_loop-admitted events st'))
        | inr a ↦ rw a (
            loop_head (continue st) event events st (event-ignored event st a)
            ∙ event_loop-admitted events st)
      ]
