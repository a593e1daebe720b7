-- ===== src/Assistant/Worker/Answers.antt =====
-- Every request that enters the queue is answered once, in order.
use mathlib.Core.List.{append_assoc, append-nil, map-append}
use signal_gateway.Common.{
  ℕ, zero, suc, ◌+◌, ◌≡◌, refl, sym, ap, ap₂, ◌∙◌, inl, inr, Bool, true, false, ◌||◌, not, List, [],
  ◌∷◌, ◌++◌, map, subst, arith, ltb, length, Bool-cases,
}
use signal_gateway.Common.Text.{Text}
use signal_gateway.Assistant.{ChatMessage}
use signal_gateway.Assistant.Worker.{
  Answer, Input, prompt, recording, compact, debug, Prompted, Phase, selecting, prompting,
  compacting, draining_stops, draining_inputs, exited, Agent, Event, requested, recorded,
  asked_compaction, asked_debug, asked_stop, token_cancelled, dropped, input_received,
  stop_received, cancel_seen, prompt_finished, compact_finished, drained, is_exited, is_selecting,
  gone, response_of, new_agent, try_send, send_or_leave, request_stop, exit, send_answer, end_input,
  receive_stop, finish_prompt, finish_compact, request, record_message, start_input, receive_input,
  drain_input, drain, turn, run, chat_message, request_queue_size, stop_queue_size,
}

abbrev pub range : ℕ → List ℕ
range zero = []
range (suc n) = range n ++ n ∷ []

abbrev pub senders : {T : Type 0} → List (Input T) → List ℕ
senders [] = []
senders (prompt msg sender ∷ inputs) = sender ∷ senders inputs
senders (_ ∷ inputs) = senders inputs

abbrev pub in_flight : Phase → List ℕ
in_flight (prompting sender was_canceled) = sender ∷ []
in_flight _ = []

plus_one : (n : ℕ) → suc n ≡ n + 1
plus_one n = omega arith

range_one : (n : ℕ) → range (suc n) ≡ range (n + 1)
range_one n = ap range (plus_one n)

senders-append :
    {T : Type 0} (xs ys : List (Input T)) → senders (xs ++ ys) ≡ senders xs ++ senders ys
senders-append [] ys = refl
senders-append (prompt msg sender ∷ xs) ys = ap (◌∷◌ sender) (senders-append xs ys)
senders-append (recording msg ∷ xs) ys = senders-append xs ys
senders-append (compact ∷ xs) ys = senders-append xs ys
senders-append (debug ∷ xs) ys = senders-append xs ys

map-gone {κ} :
    (E : Type κ) {T : Type 0} (inputs : List (Input T))
    → map (λ p. p.0) (gone {E = E} inputs) ≡ senders inputs
map-gone E [] = refl
map-gone E (prompt msg sender ∷ inputs) = ap (◌∷◌ sender) (map-gone E inputs)
map-gone E (recording msg ∷ inputs) = map-gone E inputs
map-gone E (compact ∷ inputs) = map-gone E inputs
map-gone E (debug ∷ inputs) = map-gone E inputs

is_selecting_lem : (phase : Phase) → is_selecting phase ≡ true → phase ≡ selecting
is_selecting_lem selecting h = refl
is_selecting_lem (prompting sender was_canceled) h = cc
is_selecting_lem (compacting was_canceled) h = cc
is_selecting_lem draining_stops h = cc
is_selecting_lem draining_inputs h = cc
is_selecting_lem exited h = cc

module _ {ℓ κ} {A : Type ℓ} {E : Type κ} {T : Type 0} where
  abbrev pub answered : Agent A E T → List ℕ
  answered self = map (λ p. p.0) self.answers

  -- The channels that have returned, the one of the request in progress and those in the queue.
  abbrev pub all_senders : Agent A E T → List ℕ
  all_senders self = answered self ++ (in_flight self.phase ++ senders self.input_rx)

  abbrev pub IsOrdered : Agent A E T → Type 0
  IsOrdered self = all_senders self ≡ range self.requests

  -- Of a state in which the request in progress, if any, is answered.
  abbrev IsFree : Agent A E T → Type 0
  IsFree self = answered self ++ senders self.input_rx ≡ range self.requests

  exit-IsOrdered : (self : Agent A E T) → IsFree self → IsOrdered (exit self)
  unfolding exit
  exit-IsOrdered self h =
      append-nil _
      ∙ map-append (λ p. p.0) self.answers (gone self.input_rx)
      ∙ ap (◌++◌ (answered self)) (map-gone E self.input_rx)
      ∙ h

  end_input-IsOrdered :
      (self : Agent A E T) (was_canceled : Bool)
      → IsFree self
      → IsOrdered (end_input self was_canceled)
  unfolding end_input
  end_input-IsOrdered self false h = h
  end_input-IsOrdered self true h = elim (Bool-cases self.is_cancelled) [
    | inl e ↦ rw (e, end_input) (exit-IsOrdered self h)
    | inr e ↦ rw (e, end_input) h
  ]

  send_answer-IsFree :
      (self : Agent A E T) (sender : ℕ) (response : Answer E)
      → answered self ++ sender ∷ senders self.input_rx ≡ range self.requests
      → IsFree (send_answer self sender response)
  unfolding send_answer
  send_answer-IsFree self sender response h =
      ap (λ xs. xs ++ senders self.input_rx) (map-append (λ p. p.0) self.answers _)
      ∙ append_assoc (answered self) (sender ∷ []) (senders self.input_rx)
      ∙ h

  in_phase :
      (self : Agent A E T) (phase : Phase)
      → self.phase ≡ phase
      → IsOrdered self
      → answered self ++ (in_flight phase ++ senders self.input_rx) ≡ range self.requests
  in_phase self phase e h =
      subst (λ p. answered self ++ (in_flight p ++ senders self.input_rx) ≡ range self.requests) e h

  try_send-none :
      (self : Agent A E T) (input : Input T)
      → senders (input ∷ []) ≡ []
      → IsOrdered self
      → IsOrdered (send_or_leave self input)
  unfolding send_or_leave try_send
  try_send-none self input q h =
      elim (Bool-cases
        (is_exited self.phase || not (ltb (length self.input_rx) request_queue_size))) [
          | inl e ↦ rw (e, send_or_leave, try_send) h
          | inr e ↦
              rw
                (
                  e,
                  send_or_leave,
                  try_send,
                  senders-append self.input_rx (input ∷ []),
                  q,
                  append-nil (senders self.input_rx),
                )
                h
        ]

  receive_stop-IsOrdered :
      (self : Agent A E T) (phase : Phase)
      → self.phase ≡ phase
      → IsOrdered self
      → IsOrdered (receive_stop self phase)
  unfolding receive_stop
  receive_stop-IsOrdered self selecting e h = in_phase self _ e h
  receive_stop-IsOrdered self (prompting sender false) e h = in_phase self _ e h
  receive_stop-IsOrdered self (prompting sender true) e h = h
  receive_stop-IsOrdered self (compacting false) e h = in_phase self _ e h
  receive_stop-IsOrdered self (compacting true) e h = h
  receive_stop-IsOrdered self draining_stops e h = h
  receive_stop-IsOrdered self draining_inputs e h = h
  receive_stop-IsOrdered self exited e h = h

  finish_prompt-IsOrdered :
      (self : Agent A E T) (phase : Phase) (assistant : A) (result : Prompted E)
      → self.phase ≡ phase
      → IsOrdered self
      → IsOrdered (finish_prompt self phase assistant result)
  unfolding finish_prompt
  finish_prompt-IsOrdered self (prompting sender was_canceled) assistant result e h =
      let s = record self { assistant = assistant } in
      end_input-IsOrdered (send_answer s sender (response_of result)) was_canceled
        (send_answer-IsFree s sender (response_of result) (in_phase self _ e h))
  finish_prompt-IsOrdered self selecting assistant result e h = h
  finish_prompt-IsOrdered self (compacting was_canceled) assistant result e h = h
  finish_prompt-IsOrdered self draining_stops assistant result e h = h
  finish_prompt-IsOrdered self draining_inputs assistant result e h = h
  finish_prompt-IsOrdered self exited assistant result e h = h

  finish_compact-IsOrdered :
      (self : Agent A E T) (phase : Phase) (assistant : A)
      → self.phase ≡ phase
      → IsOrdered self
      → IsOrdered (finish_compact self phase assistant)
  unfolding finish_compact
  finish_compact-IsOrdered self (compacting was_canceled) assistant e h =
      end_input-IsOrdered (record self { assistant = assistant }) was_canceled (in_phase self _ e h)
  finish_compact-IsOrdered self selecting assistant e h = h
  finish_compact-IsOrdered self (prompting sender was_canceled) assistant e h = h
  finish_compact-IsOrdered self draining_stops assistant e h = h
  finish_compact-IsOrdered self draining_inputs assistant e h = h
  finish_compact-IsOrdered self exited assistant e h = h

module _ {ℓ κ} {A : Type ℓ} {E : Type κ} {T : Type 0} (from_timestamp_millis : ℕ → T)
    (assistant_record : A → ChatMessage T → A) (debug_log : A → A) where
  start_input-IsOrdered :
      (self : Agent A E T) (input : Input T)
      → answered self ++ senders (input ∷ self.input_rx) ≡ range self.requests
      → self.phase ≡ selecting
      → IsOrdered (start_input from_timestamp_millis assistant_record debug_log self input)
  unfolding start_input
  start_input-IsOrdered self (prompt msg sender) h e = h
  start_input-IsOrdered self (recording msg) h e = rw e h
  start_input-IsOrdered self compact h e = h
  start_input-IsOrdered self debug h e = rw e h

  receive_input-IsOrdered :
      (self : Agent A E T) (inputs : List (Input T))
      → self.input_rx ≡ inputs
      → self.phase ≡ selecting
      → IsOrdered self
      → IsOrdered (receive_input from_timestamp_millis assistant_record debug_log self inputs)
  unfolding receive_input
  receive_input-IsOrdered self [] q e h = elim (Bool-cases self.is_dropped) [
    | inl d ↦ rw (d, receive_input) (exit-IsOrdered self (in_phase self selecting e h))
    | inr d ↦ rw (d, receive_input) h
  ]
  receive_input-IsOrdered self (input ∷ inputs) q e h =
      start_input-IsOrdered (record self { input_rx = inputs }) input
        (subst (λ is. answered self ++ senders is ≡ range self.requests) q
          (in_phase self selecting e h))
        e

  waiting :
      (self : Agent A E T) (inputs : List (Input T))
      → self.input_rx ≡ inputs
      → self.phase ≡ draining_inputs
      → IsOrdered self
      → answered self ++ senders inputs ≡ range self.requests
  waiting self inputs q e h =
      subst (λ is. answered self ++ senders is ≡ range self.requests) q
        (in_phase self draining_inputs e h)

  drain_input-IsOrdered :
      (self : Agent A E T) (inputs : List (Input T))
      → self.input_rx ≡ inputs
      → self.phase ≡ draining_inputs
      → IsOrdered self
      → IsOrdered (drain_input from_timestamp_millis assistant_record debug_log self inputs)
  unfolding drain_input
  drain_input-IsOrdered self [] q e h = in_phase self draining_inputs e h
  drain_input-IsOrdered self (prompt msg sender ∷ inputs) q e h =
      let s = record self { input_rx = inputs; assistant = assistant_record self.assistant msg } in
      rw e (send_answer-IsFree s sender _ (waiting self _ q e h))
  drain_input-IsOrdered self (recording msg ∷ inputs) q e h = rw e (waiting self _ q e h)
  drain_input-IsOrdered self (compact ∷ inputs) q e h = rw e (waiting self _ q e h)
  drain_input-IsOrdered self (debug ∷ inputs) q e h = rw e (waiting self _ q e h)

  drain-IsOrdered :
      (self : Agent A E T) (phase : Phase)
      → self.phase ≡ phase
      → IsOrdered self
      → IsOrdered (drain from_timestamp_millis assistant_record debug_log self phase)
  unfolding drain
  drain-IsOrdered self draining_stops e h = elim (Bool-cases (ltb 0 self.stop_rx)) [
    | inl d ↦ rw (d, drain) h
    | inr d ↦ rw (d, drain) (in_phase self draining_stops e h)
  ]
  drain-IsOrdered self draining_inputs e h = drain_input-IsOrdered self self.input_rx refl e h
  drain-IsOrdered self selecting e h = h
  drain-IsOrdered self (prompting sender was_canceled) e h = h
  drain-IsOrdered self (compacting was_canceled) e h = h
  drain-IsOrdered self exited e h = h

  request-IsOrdered :
      (self : Agent A E T) (prompt_text : Text) (ts_ms : ℕ)
      → IsOrdered self
      → IsOrdered
          (request from_timestamp_millis assistant_record debug_log self prompt_text ts_ms).0
  unfolding request try_send
  request-IsOrdered self prompt_text ts_ms h =
      elim (Bool-cases
        (is_exited self.phase || not (ltb (length self.input_rx) request_queue_size))) [
          | inl e ↦ rw (e, request, try_send) h
          | inr e ↦
              rw (e, request, try_send, senders-append self.input_rx)
                (ap (◌++◌ (answered self)) (
                    sym (
                      append_assoc (in_flight self.phase) (senders self.input_rx)
                        (self.requests ∷ [])))
                  ∙ sym (
                      append_assoc (answered self) (in_flight self.phase ++ senders self.input_rx)
                        (self.requests ∷ []))
                  ∙ ap (λ xs. xs ++ self.requests ∷ []) h
                  ∙ range_one self.requests)
        ]

  request_stop-IsOrdered : (self : Agent A E T) → IsOrdered self → IsOrdered (request_stop self)
  unfolding request_stop
  request_stop-IsOrdered self h =
      elim (Bool-cases (is_exited self.phase || not (ltb self.stop_rx stop_queue_size))) [
        | inl e ↦ rw (e, request_stop) h
        | inr e ↦ rw (e, request_stop) h
      ]

  turn-IsOrdered :
      (self : Agent A E T) (event : Event A E T)
      → IsOrdered self
      → IsOrdered (turn from_timestamp_millis assistant_record debug_log self event)
  unfolding turn record_message
  turn-IsOrdered self (requested prompt_text ts_ms) h = request-IsOrdered self prompt_text ts_ms h
  turn-IsOrdered self (recorded sent_by text ts_ms) h =
      try_send-none self (recording (chat_message from_timestamp_millis sent_by text ts_ms)) refl h
  turn-IsOrdered self asked_compaction h = try_send-none self compact refl h
  turn-IsOrdered self asked_debug h = try_send-none self debug refl h
  turn-IsOrdered self asked_stop h = request_stop-IsOrdered self h
  turn-IsOrdered self token_cancelled h = h
  turn-IsOrdered self dropped h = h
  turn-IsOrdered self input_received h = elim (Bool-cases (is_selecting self.phase)) [
    | inl e ↦
        rw (e, turn)
          (receive_input-IsOrdered self self.input_rx refl (is_selecting_lem self.phase e) h)
    | inr e ↦ rw (e, turn) h
  ]
  turn-IsOrdered self stop_received h = elim (Bool-cases (ltb 0 self.stop_rx || self.is_dropped)) [
    | inl e ↦ rw (e, turn) (receive_stop-IsOrdered self self.phase refl h)
    | inr e ↦ rw (e, turn) h
  ]
  turn-IsOrdered self cancel_seen h = elim (Bool-cases (is_selecting self.phase)) [
    | inl e ↦ elim (Bool-cases self.is_cancelled) [
      | inl c ↦
          rw (e, c, turn)
            (exit-IsOrdered self (in_phase self selecting (is_selecting_lem self.phase e) h))
      | inr c ↦ rw (e, c, turn) h
    ]
    | inr e ↦ rw (e, turn) h
  ]
  turn-IsOrdered self (prompt_finished assistant result) h =
      finish_prompt-IsOrdered self self.phase assistant result refl h
  turn-IsOrdered self (compact_finished assistant) h =
      finish_compact-IsOrdered self self.phase assistant refl h
  turn-IsOrdered self drained h = drain-IsOrdered self self.phase refl h

  pub run-IsOrdered :
      (self : Agent A E T) (events : List (Event A E T))
      → IsOrdered self
      → IsOrdered (run from_timestamp_millis assistant_record debug_log self events)
  unfolding run
  run-IsOrdered self [] h = h
  run-IsOrdered self (event ∷ events) h =
      run-IsOrdered (turn from_timestamp_millis assistant_record debug_log self event) events
        (turn-IsOrdered self event h)

  -- Whatever the callers, the assistant and the runtime do, in whatever order, every request that
  -- entered the queue has one place: the requests answered, then the one in progress, then those
  -- waiting are all of them, once each and in the order they came.
  pub run-ordered :
      (assistant : A) (events : List (Event A E T))
      → let self =
          run from_timestamp_millis assistant_record debug_log (new_agent assistant) events in
        all_senders self ≡ range self.requests
  unfolding new_agent
  run-ordered assistant events = run-IsOrdered (new_agent assistant) events refl

  -- When the worker is gone, or waits with an empty queue, every request that entered the queue has
  -- been answered, once, and in the order they came.
  pub run-all_answered :
      (assistant : A) (events : List (Event A E T)) (self : Agent A E T)
      → run from_timestamp_millis assistant_record debug_log (new_agent assistant) events ≡ self
      → in_flight self.phase ≡ []
      → senders self.input_rx ≡ []
      → answered self ≡ range self.requests
  run-all_answered assistant events self e idle empty =
      sym (append-nil _)
      ∙ ap₂ (λ xs ys. answered self ++ (xs ++ ys)) (sym idle) (sym empty)
      ∙ subst IsOrdered e (run-ordered assistant events)
