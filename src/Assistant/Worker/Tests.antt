-- ===== src/Assistant/Worker/Tests.antt =====
-- Runs of the agent and its worker, and instances of the theorems. The assistant of the tests is the
-- list of the texts it has recorded.
use signal_gateway.Common.{ℕ, ◌+◌, ◌≡◌, refl, false, List, [], ◌∷◌, ◌++◌, length, replicate, inl}
use signal_gateway.Common.Text.{Text, codes}
use signal_gateway.Assistant.{ChatMessage, user_to_assistant, system}
use signal_gateway.Assistant.Worker.{
  Agent, Event, requested, recorded, asked_stop, token_cancelled, input_received, stop_received,
  cancel_seen, prompt_finished, drained, interrupted, err, cancelled, queue_full, worker_gone,
  new_agent, request, draining_stops, selecting, prompt, compact, run, turn, try_send,
  send_or_leave, record_message, request_stop, receive_input, start_input, receive_stop,
  finish_prompt, end_input, exit, send_answer, drain, drain_input,
}
use signal_gateway.Assistant.Worker.Answers.{all_senders, range, run-ordered}
use signal_gateway.Assistant.Worker.Stop.{stopped, record_all, handle_stop-ends}

abbrev millis : ℕ → ℕ
millis ts_ms = ts_ms

abbrev texts : List Text → ChatMessage ℕ → List Text
texts seen msg = seen ++ msg.text ∷ []

abbrev keep : List Text → List Text
keep seen = seen

-- Two requests; the second is still waiting when the first is stopped.
abbrev stop_events : List (Event (List Text) ℕ ℕ)
stop_events =
    requested (codes "a") 1
    ∷ requested (codes "b") 2
    ∷ input_received
    ∷ asked_stop
    ∷ stop_received
    ∷ recorded system (codes "c") 3
    ∷ prompt_finished (codes "a" ∷ []) interrupted
    ∷ []

abbrev with_rounds : List (Event (List Text) ℕ ℕ)
with_rounds = stop_events ++ replicate 4 drained

both_cancelled :
    (run millis texts keep (new_agent []) with_rounds).answers
    ≡ (0, err cancelled) ∷ (1, err cancelled) ∷ []
unfolding new_agent run turn try_send send_or_leave record_message request request_stop
    receive_input start_input receive_stop finish_prompt end_input exit send_answer drain
    drain_input
both_cancelled = refl

-- After a shutdown the requests that waited fail.
shut_down :
    (run {E = ℕ} millis texts keep
      (new_agent [])
      (requested (codes "a") 1 ∷ token_cancelled ∷ cancel_seen ∷ [])).answers
    ≡ (0, err worker_gone) ∷ []
unfolding new_agent run turn try_send request exit
shut_down = refl

-- A request to a worker that is gone is refused as one to a full queue.
gone_is_full :
    (request {E = ℕ} millis texts keep
      (run millis texts keep (new_agent []) (token_cancelled ∷ cancel_seen ∷ []))
      (codes "a")
      1).1
    ≡ inl queue_full
unfolding new_agent run turn try_send request exit
gone_is_full = refl

run-ordered_example :
    all_senders (run millis texts keep (new_agent []) stop_events)
    ≡ range (run millis texts keep (new_agent []) stop_events).requests
run-ordered_example = run-ordered millis texts keep [] stop_events

abbrev stopping : Agent (List Text) ℕ ℕ
stopping = record {
  assistant = [];
  input_rx =
      prompt (record { sent_by = user_to_assistant; timestamp = 1; text = codes "a" }) 0
      ∷ compact
      ∷ [];
  stop_rx = 1;
  is_cancelled = false;
  is_dropped = false;
  phase = draining_stops;
  requests = 1;
  answers = [];
}

handle_stop-ends_example :
    run millis texts keep stopping
      (replicate (stopping.stop_rx + (2 + length stopping.input_rx)) drained)
    ≡ record stopping {
      assistant = record_all texts stopping.assistant stopping.input_rx;
      input_rx = [];
      stop_rx = 0;
      phase = selecting;
      answers = stopping.answers ++ stopped stopping.input_rx;
    }
handle_stop-ends_example = handle_stop-ends millis texts keep stopping refl
