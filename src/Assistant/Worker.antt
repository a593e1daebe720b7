-- ===== src/Assistant/Worker.antt =====
-- signal-gateway/src/assistant/mod.rs and worker.rs: the queue before the assistant and the worker
-- that takes requests from it, as events: what a caller, the assistant or the runtime does next.
-- The assistant's state and its future's results are of any kind; a oneshot channel is a number.
pub mod Answers
pub mod Stop
mod Tests
use signal_gateway.Common.{
  ℕ, zero, suc, ◌+◌, ◌-◌, Bool, true, false, ◌&&◌, ◌||◌, Option, none, some, List, [], ◌∷◌, ◌++◌,
  if◌then◌else◌, ltb, length, not, ◌⊎◌, inl, inr,
}
use signal_gateway.Common.Text.{Text}
use signal_gateway.Assistant.{
  SentBy, user_to_assistant, ChatMessage, AssistantResponse, AdminMessageResponse,
  assistant_response_to_admin,
}

pub data AssistantError {ℓ} (E : Type ℓ) : Type ℓ where
  queue_full worker_gone cancelled : AssistantError E
  assistant_error : E → AssistantError E

pub data Answer {ℓ} (E : Type ℓ) : Type ℓ where
  ok : AdminMessageResponse → Answer E
  err : AssistantError E → Answer E

pub data Input (T : Type 0) : Type 0 where
  prompt : ChatMessage T → ℕ → Input T
  recording : ChatMessage T → Input T
  compact : Input T
  debug : Input T

-- What the assistant's `prompt` returns.
pub data Prompted {ℓ} (E : Type ℓ) : Type ℓ where
  responded : AssistantResponse → Prompted E
  interrupted : Prompted E
  prompt_error : E → Prompted E

-- Where the worker is: in `run`, in `handle_input` (with what is told the assistant's token), in the
-- two loops of `handle_stop`, or gone.
pub data Phase : Type 0 where
  selecting : Phase
  prompting : ℕ → Bool → Phase
  compacting : Bool → Phase
  draining_stops draining_inputs : Phase
  exited : Phase

abbrev pub request_queue_size : ℕ
request_queue_size = 16

abbrev pub stop_queue_size : ℕ
stop_queue_size = 3

-- The worker with its channels; the token; whether the agent is dropped; the number of requests that
-- entered the queue, and what their oneshot channels returned, in that order.
pub record Agent {ℓ κ} (A : Type ℓ) (E : Type κ) (T : Type 0) : Type (ℓ ⊔ κ) where
  pub assistant : A
  pub input_rx : List (Input T)
  pub stop_rx : ℕ
  pub is_cancelled : Bool
  pub is_dropped : Bool
  pub phase : Phase
  pub requests : ℕ
  pub answers : List (ℕ × Answer E)

pub data Event {ℓ κ} (A : Type ℓ) (E : Type κ) (T : Type 0) : Type (ℓ ⊔ κ) where
  -- The callers.
  requested : Text → ℕ → Event A E T
  recorded : SentBy → Text → ℕ → Event A E T
  asked_compaction asked_debug asked_stop : Event A E T
  token_cancelled : Event A E T
  dropped : Event A E T
  -- The branches of the worker's selects, and a round of a loop of `handle_stop`.
  input_received stop_received cancel_seen : Event A E T
  prompt_finished : A → Prompted E → Event A E T
  compact_finished : A → Event A E T
  drained : Event A E T

abbrev pub is_exited : Phase → Bool
is_exited exited = true
is_exited _ = false

-- The requests that are dropped with the queue: their channels close.
abbrev pub gone {κ} : {E : Type κ} {T : Type 0} → List (Input T) → List (ℕ × Answer E)
gone [] = []
gone (prompt msg sender ∷ inputs) = (sender, err worker_gone) ∷ gone inputs
gone (_ ∷ inputs) = gone inputs

abbrev pub response_of {κ} : {E : Type κ} → Prompted E → Answer E
response_of (responded resp) = ok (assistant_response_to_admin resp)
response_of interrupted = err cancelled
response_of (prompt_error e) = err (assistant_error e)

abbrev pub is_selecting : Phase → Bool
is_selecting selecting = true
is_selecting _ = false

abbrev pub chat_message : {T : Type 0} → (ℕ → T) → SentBy → Text → ℕ → ChatMessage T
chat_message from_timestamp_millis sent_by text ts_ms = record {
  sent_by = sent_by;
  timestamp = from_timestamp_millis ts_ms;
  text = text;
}

module _ {ℓ κ} {A : Type ℓ} {E : Type κ} {T : Type 0} where
  pub new_agent : A → Agent A E T
  new_agent assistant = record {
    assistant = assistant;
    input_rx = [];
    stop_rx = 0;
    is_cancelled = false;
    is_dropped = false;
    phase = selecting;
    requests = 0;
    answers = [];
  }

  -- `input_tx.try_send`: none where the queue is full or the worker is gone.
  pub try_send : Agent A E T → Input T → Option (Agent A E T)
  try_send self input =
      if is_exited self.phase || not (ltb (length self.input_rx) request_queue_size)
      then none
      else some (record self { input_rx = self.input_rx ++ input ∷ [] })

  pub send_or_leave : Agent A E T → Input T → Agent A E T
  unfolding try_send
  send_or_leave self input = elim (try_send self input) [ none ↦ self | some sent ↦ sent ]

  unfoldable pub request_stop : Agent A E T → Agent A E T
  request_stop self =
      if is_exited self.phase || not (ltb self.stop_rx stop_queue_size)
      then self
      else record self { stop_rx = self.stop_rx + 1 }

  -- `return` from `run`, which drops the worker.
  pub exit : Agent A E T → Agent A E T
  exit self = record self {
    phase = exited;
    input_rx = [];
    stop_rx = 0;
    answers = self.answers ++ gone self.input_rx;
  }

  pub send_answer : Agent A E T → ℕ → Answer E → Agent A E T
  send_answer self sender response = record self {
    answers = self.answers ++ (sender, response) ∷ [];
  }

  -- The end of `handle_input`, and what `run` does with its result.
  pub end_input : Agent A E T → Bool → Agent A E T
  unfolding exit
  end_input self was_canceled =
      if was_canceled
      then (if self.is_cancelled then exit self else record self { phase = draining_stops })
      else record self { phase = selecting }

  -- `stop_rx.recv()` in `run` and in `handle_input`, ready likewise.
  pub receive_stop : Agent A E T → Phase → Agent A E T
  receive_stop self selecting = record self { stop_rx = self.stop_rx - 1; phase = draining_stops }
  receive_stop self (prompting sender false) = record self {
    stop_rx = self.stop_rx - 1;
    phase = prompting sender true;
  }
  receive_stop self (compacting false) = record self {
    stop_rx = self.stop_rx - 1;
    phase = compacting true;
  }
  receive_stop self _ = self

  pub finish_prompt : Agent A E T → Phase → A → Prompted E → Agent A E T
  unfolding end_input send_answer
  finish_prompt self (prompting sender was_canceled) assistant result =
      end_input (send_answer (record self { assistant = assistant }) sender (response_of result))
        was_canceled
  finish_prompt self _ assistant result = self

  pub finish_compact : Agent A E T → Phase → A → Agent A E T
  unfolding end_input
  finish_compact self (compacting was_canceled) assistant =
      end_input (record self { assistant = assistant }) was_canceled
  finish_compact self _ assistant = self

-- The time of a message from milliseconds, and the assistant's own methods.
module _ {ℓ κ} {A : Type ℓ} {E : Type κ} {T : Type 0} (from_timestamp_millis : ℕ → T)
    (assistant_record : A → ChatMessage T → A) (debug_log : A → A) where
  -- The first part of `request`: with the error where it ends there, and otherwise the channel that
  -- is waited for.
  unfoldable pub request : Agent A E T → Text → ℕ → Agent A E T × (AssistantError E ⊎ ℕ)
  unfolding try_send
  request self prompt_text ts_ms =
      let msg = chat_message from_timestamp_millis user_to_assistant prompt_text ts_ms in
      elim (try_send self (prompt msg self.requests)) [
        | none ↦ (self, inl queue_full)
        | some sent ↦ (record sent { requests = self.requests + 1 }, inr self.requests)
      ]

  unfoldable pub record_message : Agent A E T → SentBy → Text → ℕ → Agent A E T
  unfolding send_or_leave
  record_message self sent_by text ts_ms =
      send_or_leave self (recording (chat_message from_timestamp_millis sent_by text ts_ms))

  -- The start of `handle_input`.
  pub start_input : Agent A E T → Input T → Agent A E T
  start_input self (prompt msg sender) = record self { phase = prompting sender false }
  start_input self (recording msg) = record self { assistant = assistant_record self.assistant msg }
  start_input self compact = record self { phase = compacting false }
  start_input self debug = record self { assistant = debug_log self.assistant }

  -- `input_rx.recv()` in `run`, which is ready where an input is there or the agent is dropped.
  pub receive_input : Agent A E T → List (Input T) → Agent A E T
  unfolding start_input exit
  receive_input self [] = if self.is_dropped then exit self else self
  receive_input self (input ∷ inputs) = start_input (record self { input_rx = inputs }) input

  -- A round of the second loop of `handle_stop`.
  pub drain_input : Agent A E T → List (Input T) → Agent A E T
  unfolding send_answer
  drain_input self [] = record self { phase = selecting }
  drain_input self (prompt msg sender ∷ inputs) =
      send_answer
        (record self { input_rx = inputs; assistant = assistant_record self.assistant msg }) sender
        (err cancelled)
  drain_input self (recording msg ∷ inputs) = record self {
    input_rx = inputs;
    assistant = assistant_record self.assistant msg;
  }
  drain_input self (_ ∷ inputs) = record self { input_rx = inputs }

  -- A round of a loop of `handle_stop`.
  unfoldable pub drain : Agent A E T → Phase → Agent A E T
  unfolding drain_input
  drain self draining_stops =
      if ltb 0 self.stop_rx
      then record self { stop_rx = self.stop_rx - 1 }
      else record self { phase = draining_inputs }
  drain self draining_inputs = drain_input self self.input_rx
  drain self _ = self

  -- One event. What is not ready does not happen.
  unfoldable pub turn : Agent A E T → Event A E T → Agent A E T
  unfolding request record_message send_or_leave request_stop receive_input receive_stop exit
      finish_prompt finish_compact drain
  turn self (requested prompt_text ts_ms) = (request self prompt_text ts_ms).0
  turn self (recorded sent_by text ts_ms) = record_message self sent_by text ts_ms
  turn self asked_compaction = send_or_leave self compact
  turn self asked_debug = send_or_leave self debug
  turn self asked_stop = request_stop self
  turn self token_cancelled = record self { is_cancelled = true }
  turn self dropped = record self { is_cancelled = true; is_dropped = true }
  turn self input_received =
      if is_selecting self.phase then receive_input self self.input_rx else self
  turn self stop_received =
      if ltb 0 self.stop_rx || self.is_dropped then receive_stop self self.phase else self
  turn self cancel_seen = if is_selecting self.phase && self.is_cancelled then exit self else self
  turn self (prompt_finished assistant result) = finish_prompt self self.phase assistant result
  turn self (compact_finished assistant) = finish_compact self self.phase assistant
  turn self drained = drain self self.phase

  unfoldable pub run : Agent A E T → List (Event A E T) → Agent A E T
  run self [] = self
  run self (event ∷ events) = run (turn self event) events
