-- ===== src/Assistant/Worker/Stop.antt =====
-- `handle_stop` comes to an end, and what it has done then.
use mathlib.Core.List.{append_assoc, append-nil}
use signal_gateway.Common.{
  ℕ, zero, suc, ◌+◌, ◌-◌, ◌≡◌, refl, sym, ap, ◌∙◌, List, [], ◌∷◌, ◌++◌, arith, length, replicate,
}
use signal_gateway.Assistant.{ChatMessage}
use signal_gateway.Assistant.Worker.{
  Answer, err, cancelled, Input, prompt, recording, compact, debug, Phase, selecting,
  draining_stops, draining_inputs, Agent, drained, send_answer, drain_input, drain, turn, run,
}

-- The answers to the requests of a queue that is stopped.
abbrev pub stopped {κ} : {E : Type κ} {T : Type 0} → List (Input T) → List (ℕ × Answer E)
stopped [] = []
stopped (prompt msg sender ∷ inputs) = (sender, err cancelled) ∷ stopped inputs
stopped (_ ∷ inputs) = stopped inputs

-- Every message of the queue is recorded, prompts too.
abbrev pub record_all {ℓ} :
    {A : Type ℓ} {T : Type 0} → (A → ChatMessage T → A) → A → List (Input T) → A
record_all recorded assistant [] = assistant
record_all recorded assistant (prompt msg sender ∷ inputs) =
    record_all recorded (recorded assistant msg) inputs
record_all recorded assistant (recording msg ∷ inputs) =
    record_all recorded (recorded assistant msg) inputs
record_all recorded assistant (_ ∷ inputs) = record_all recorded assistant inputs

pred_eq : (n k : ℕ) → suc n ≡ 0 + (2 + k) → n ≡ suc k
pred_eq n k h = omega arith

one_less : (n : ℕ) → suc n - 1 ≡ n
one_less n = omega arith

module _ {ℓ κ} {A : Type ℓ} {E : Type κ} {T : Type 0} (from_timestamp_millis : ℕ → T)
    (assistant_record : A → ChatMessage T → A) (debug_log : A → A) (self : Agent A E T) where
  abbrev state : A → List (Input T) → ℕ → Phase → List (ℕ × Answer E) → Agent A E T
  state assistant input_rx stop_rx phase answers = record self {
    assistant = assistant;
    input_rx = input_rx;
    stop_rx = stop_rx;
    phase = phase;
    answers = answers;
  }

  abbrev run_rounds : ℕ → Agent A E T → Agent A E T
  run_rounds n s = run from_timestamp_millis assistant_record debug_log s (replicate n drained)

  drain_inputs :
      (inputs : List (Input T)) (assistant : A) (stops : ℕ) (answers : List (ℕ × Answer E))
      → run_rounds (suc (length inputs)) (state assistant inputs stops draining_inputs answers)
        ≡ state
            (record_all assistant_record assistant inputs)
            []
            stops
            selecting
            (answers ++ stopped inputs)
  unfolding run turn drain drain_input send_answer
  drain_inputs [] assistant stops answers =
      ap (state assistant [] stops selecting) (sym (append-nil answers))
  drain_inputs (prompt msg sender ∷ inputs) assistant stops answers =
      drain_inputs inputs (assistant_record assistant msg) stops
        (answers ++ (sender, err cancelled) ∷ [])
      ∙ ap (state _ [] stops selecting) (append_assoc answers _ (stopped inputs))
  drain_inputs (recording msg ∷ inputs) assistant stops answers =
      drain_inputs inputs (assistant_record assistant msg) stops answers
  drain_inputs (compact ∷ inputs) assistant stops answers =
      drain_inputs inputs assistant stops answers
  drain_inputs (debug ∷ inputs) assistant stops answers =
      drain_inputs inputs assistant stops answers

  take_stop :
      (stops : ℕ) (inputs : List (Input T)) (assistant : A) (answers : List (ℕ × Answer E))
      → turn from_timestamp_millis assistant_record debug_log
          (state assistant inputs (suc stops) draining_stops answers)
          drained
        ≡ state assistant inputs stops draining_stops answers
  unfolding turn drain
  take_stop stops inputs assistant answers = ground (arith, one_less stops)

  drain_stops :
      (stops n : ℕ) (inputs : List (Input T)) (assistant : A) (answers : List (ℕ × Answer E))
      → n ≡ stops + (2 + length inputs)
      → run_rounds n (state assistant inputs stops draining_stops answers)
        ≡ state
            (record_all assistant_record assistant inputs)
            []
            0
            selecting
            (answers ++ stopped inputs)
  unfolding run turn drain
  drain_stops zero zero inputs assistant answers e = absurd (omega arith)
  drain_stops zero (suc n) inputs assistant answers e =
      ap (λ k. run_rounds k (state assistant inputs 0 draining_inputs answers)) (pred_eq n _ e)
      ∙ drain_inputs inputs assistant 0 answers
  drain_stops (suc stops) zero inputs assistant answers e = absurd (omega arith)
  drain_stops (suc stops) (suc n) inputs assistant answers e =
      ap (run_rounds n) (take_stop stops inputs assistant answers)
      ∙ drain_stops stops n inputs assistant answers (omega arith)

  -- Where a stop has been received and nothing else comes, `handle_stop` ends: it takes the stop
  -- signals that are left, then each waiting input, and the worker waits again. Every request that
  -- waited has been answered as cancelled, in order, and every message that waited, those of the
  -- requests too, has been recorded.
  pub handle_stop-ends :
      self.phase ≡ draining_stops
      → run from_timestamp_millis assistant_record debug_log self
          (replicate (self.stop_rx + (2 + length self.input_rx)) drained)
        ≡ record self {
          assistant = record_all assistant_record self.assistant self.input_rx;
          input_rx = [];
          stop_rx = 0;
          phase = selecting;
          answers = self.answers ++ stopped self.input_rx;
        }
  handle_stop-ends e =
      ap
        (λ p.
          run_rounds (self.stop_rx + (2 + length self.input_rx))
            (state self.assistant self.input_rx self.stop_rx p self.answers))
        e
      ∙ drain_stops self.stop_rx _ self.input_rx self.assistant self.answers refl
