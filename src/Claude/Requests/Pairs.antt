-- ===== src/Claude/Requests/Pairs.antt =====
-- The history as the API wants it: every tool use followed by its results.
use signal_gateway.Common.{
  ℕ, zero, suc, ◌≡◌, refl, ap, ◌∙◌, ◌≢◌, inl, inr, Bool, true, false, ◌&&◌, not, Option, none, some,
  List, [], ◌∷◌, ◌++◌, if◌then◌else◌, ◌⊎◌, Bool-cases,
}
use signal_gateway.Common.Text.{Text, codes, text_eq, text_eq_refl}
use signal_gateway.Gateway.Tools.{Tool, ToolResult}
use signal_gateway.MessageBuffer.{ContentBlock, text, tool_use, tool_result, MessageContent, push}
use signal_gateway.Claude.{
  SystemContent, MessagesResponse, assistant_content, tool_result_content, Reply, request_failed,
  api_error, responded, World, ClaudeConfig, ClaudeAssistant, push_message,
}
use signal_gateway.Claude.Requests.{
  Result, cancelled, after_tool, run_tool, run_tools, after_tools, use_tools, handle_response,
  handle_reply, iterate, handle_request,
}

-- The ids of the tool uses, and of the tool results, of a message.
abbrev pub uses : {V : Type 0} → List (ContentBlock V) → List Text
uses [] = []
uses (tool_use id name input ∷ bs) = id ∷ uses bs
uses (_ ∷ bs) = uses bs

abbrev pub results : {V : Type 0} → List (ContentBlock V) → List Text
results [] = []
results (tool_result id content is_error ∷ bs) = id ∷ results bs
results (_ ∷ bs) = results bs

abbrev pub no_ids : List Text → Bool
no_ids [] = true
no_ids (id ∷ ids) = false

-- What is left of the ids that are waited for, none where others come.
abbrev pub strip_ids : List Text → List Text → Option (List Text)
strip_ids [] waiting = some waiting
strip_ids (id ∷ ids) [] = none
strip_ids (id ∷ ids) (w ∷ waiting) = if text_eq id w then strip_ids ids waiting else none

abbrev pub accept : List Text → Option (List Text) → Option (List Text)
accept ids none = none
accept ids (some rest) = if no_ids ids && not (no_ids rest) then none else some rest

-- The ids that a message leaves waiting for their results: while some are, only results may come, in
-- order, and none else. None where the history is not as it should be.
abbrev pub follow : {V : Type 0} → Option (List Text) → MessageContent V → Option (List Text)
follow none m = none
follow (some waiting) m =
    if text_eq m.role (codes "assistant")
    then (if no_ids waiting then some (uses m.content) else none)
    else accept (results m.content) (strip_ids (results m.content) waiting)

abbrev pub follow_all :
    {V : Type 0} → Option (List Text) → List (MessageContent V) → Option (List Text)
follow_all waiting [] = waiting
follow_all waiting (m ∷ ms) = follow_all (follow waiting m) ms

-- Every tool use is followed by its results, and there are no others.
abbrev pub IsPaired : {V : Type 0} → ClaudeAssistant V → Type 0
IsPaired self = follow_all (some []) self.messages.messages ≡ some []

follow_all-append :
    {V : Type 0} (waiting : Option (List Text)) (ms : List (MessageContent V))
    (m : MessageContent V)
    → follow_all waiting (ms ++ m ∷ []) ≡ follow (follow_all waiting ms) m
follow_all-append waiting [] m = refl
follow_all-append waiting (n ∷ ms) m = follow_all-append (follow waiting n) ms m

-- The state of the history, with the ids that wait for their results.
abbrev Waits : {V : Type 0} → ClaudeAssistant V → List Text → Type 0
Waits self ids = follow_all (some []) self.messages.messages ≡ some ids

follow_result :
    (V : Type 0) (id content : Text) (is_error : Bool) (ids : List Text)
    → follow {V = V} (some (id ∷ ids)) (tool_result_content id content is_error) ≡ some ids
unfolding tool_result_content text_eq
follow_result V id content is_error ids = rw (text_eq_refl id, follow) refl

push-result :
    (V : Type 0) (size : V → ℕ) (self : ClaudeAssistant V) (id content : Text) (is_error : Bool)
    (ids : List Text)
    → Waits self (id ∷ ids)
    → Waits (push_message size (tool_result_content id content is_error) self) ids
unfolding push_message push
push-result V size self id content is_error ids h =
    follow_all-append (some []) self.messages.messages (tool_result_content id content is_error)
    ∙ ap (λ w. follow {V = V} w (tool_result_content id content is_error)) h
    ∙ follow_result V id content is_error ids

push-uses :
    {V : Type 0} (size : V → ℕ) (self : ClaudeAssistant V) (content : List (ContentBlock V))
    → IsPaired self
    → Waits (push_message size (assistant_content content) self) (uses content)
unfolding push_message push assistant_content text_eq
push-uses size self content h =
    follow_all-append (some []) self.messages.messages (assistant_content content)
    ∙ ap (λ w. follow w (assistant_content content)) h

module _ {ℓ κ} {W : Type ℓ} {E : Type κ} {V : Type 0} (world : World W E V)
    (estimate_json_size : V → ℕ) (config : ClaudeConfig) where
  open world use {is_cancelled, select_send, has_executor, tools, execute}

  abbrev Answered : (W × ClaudeAssistant V × List Text) × Bool → Type 0
  Answered ((w, self, attachments), all) = all ≡ true → IsPaired self

  after_tool-Answered :
      (id : Text) (ids : List Text) (r : W × Option (Text ⊎ ToolResult)) (self : ClaudeAssistant V)
      (attachments : List Text)
      (next : W × ClaudeAssistant V × List Text → (W × ClaudeAssistant V × List Text) × Bool)
      → Waits self (id ∷ ids)
      → ((st : W × ClaudeAssistant V × List Text) → Waits st.1 ids → Answered (next st))
      → Answered (after_tool world estimate_json_size config id r self attachments next)
  after_tool-Answered id ids (w, none) self attachments next h k = λ e. cc
  after_tool-Answered id ids (w, some (inl err)) self attachments next h k =
      k _ (push-result V estimate_json_size self id err true ids h)
  after_tool-Answered id ids (w, some (inr result)) self attachments next h k =
      k _ (push-result V estimate_json_size self id result.text false ids h)

  run_tool-Answered :
      (id name : Text) (input : V) (ids : List Text) (r : W × Bool) (self : ClaudeAssistant V)
      (attachments : List Text)
      (next : W × ClaudeAssistant V × List Text → (W × ClaudeAssistant V × List Text) × Bool)
      → Waits self (id ∷ ids)
      → ((st : W × ClaudeAssistant V × List Text) → Waits st.1 ids → Answered (next st))
      → Answered (run_tool world estimate_json_size config id name input r self attachments next)
  unfolding run_tool
  run_tool-Answered id name input ids (w, true) self attachments next h k = λ e. cc
  run_tool-Answered id name input ids (w, false) self attachments next h k =
      after_tool-Answered id ids (execute name input w) self attachments next h k

  run_tools-Answered :
      (blocks : List (ContentBlock V)) (st : W × ClaudeAssistant V × List Text)
      → Waits st.1 (uses blocks)
      → Answered (run_tools world estimate_json_size config blocks st)
  unfolding run_tools
  run_tools-Answered [] (w, self, attachments) h = λ e. h
  run_tools-Answered (tool_use id name input ∷ blocks) (w, self, attachments) h =
      run_tool-Answered id name input (uses blocks) (is_cancelled w) self attachments _ h
        (λ st. run_tools-Answered blocks st)
  run_tools-Answered (text t ∷ blocks) st h = run_tools-Answered blocks st h
  run_tools-Answered (tool_result id content is_error ∷ blocks) st h =
      run_tools-Answered blocks st h

  -- At the end: paired, unless the request was cancelled.
  abbrev Settled : W × ClaudeAssistant V × Result E → Type κ
  Settled (w, self, result) = result ≢ cancelled → IsPaired self

  after_tools-Settled :
      (r : (W × ClaudeAssistant V × List Text) × Bool)
      (next : W × ClaudeAssistant V × List Text → W × ClaudeAssistant V × Result E)
      → Answered r
      → ((st : W × ClaudeAssistant V × List Text) → IsPaired st.1 → Settled (next st))
      → Settled (after_tools world estimate_json_size config r next)
  after_tools-Settled ((w, self, attachments), false) next h k = λ n. absurd (n refl)
  after_tools-Settled ((w, self, attachments), true) next h k = k (w, self, attachments) (h refl)

  use_tools-Settled :
      (content : List (ContentBlock V)) (r : W × Bool) (self : ClaudeAssistant V)
      (attachments : List Text)
      (next : W × ClaudeAssistant V × List Text → W × ClaudeAssistant V × Result E)
      → IsPaired self
      → ((st : W × ClaudeAssistant V × List Text) → IsPaired st.1 → Settled (next st))
      → Settled (use_tools world estimate_json_size config content r self attachments next)
  unfolding use_tools
  use_tools-Settled content (w, false) self attachments next h k = λ n. h
  use_tools-Settled content (w, true) self attachments next h k =
      after_tools-Settled _ next
        (run_tools-Answered content _ (push-uses estimate_json_size self content h)) k

  handle_response-Settled :
      (response : MessagesResponse V) (w : W) (self : ClaudeAssistant V) (attachments : List Text)
      (next : W × ClaudeAssistant V × List Text → W × ClaudeAssistant V × Result E)
      → IsPaired self
      → ((st : W × ClaudeAssistant V × List Text) → IsPaired st.1 → Settled (next st))
      → Settled (handle_response world estimate_json_size config response w self attachments next)
  unfolding handle_response
  handle_response-Settled response w self attachments next h k =
      elim (Bool-cases (text_eq response.stop_reason (codes "tool_use"))) [
        | inl e ↦
            rw (e, handle_response)
              (use_tools-Settled response.content (has_executor w) self attachments next h k)
        | inr e ↦ rw (e, handle_response) (λ n. h)
      ]

  handle_reply-Settled :
      (r : W × Option (Reply E V)) (self : ClaudeAssistant V) (attachments : List Text)
      (next : W × ClaudeAssistant V × List Text → W × ClaudeAssistant V × Result E)
      → IsPaired self
      → ((st : W × ClaudeAssistant V × List Text) → IsPaired st.1 → Settled (next st))
      → Settled (handle_reply world estimate_json_size config r self attachments next)
  unfolding handle_reply
  handle_reply-Settled (w, none) self attachments next h k = λ n. absurd (n refl)
  handle_reply-Settled (w, some (request_failed e)) self attachments next h k = λ n. h
  handle_reply-Settled (w, some (api_error message)) self attachments next h k = λ n. h
  handle_reply-Settled (w, some (responded response)) self attachments next h k =
      handle_response-Settled response w self attachments next h k

  iterate-Settled :
      (n : ℕ) (system : List SystemContent) (ts : List (Tool V))
      (st : W × ClaudeAssistant V × List Text)
      → IsPaired st.1
      → Settled (iterate world estimate_json_size config n system ts st)
  unfolding iterate
  iterate-Settled zero system ts (w, self, attachments) h = λ e. h
  iterate-Settled (suc n) system ts (w, self, attachments) h =
      elim (Bool-cases (is_cancelled w).1) [
        | inl e ↦ rw (e, iterate) (λ c. absurd (c refl))
        | inr e ↦
            rw (e, iterate)
              (handle_reply-Settled _ self attachments _ h (λ st'. iterate-Settled n system ts st'))
      ]

  -- A request that is not cancelled leaves the history as the API wants it, if it was so before:
  -- whether it ends in an answer or in an error, and whatever tools were used on the way, every tool
  -- use is followed by its results, in order.
  pub handle_request-IsPaired :
      (self : ClaudeAssistant V) (w : W)
      → IsPaired self
      → (handle_request world estimate_json_size config self w).2 ≢ cancelled
      → IsPaired (handle_request world estimate_json_size config self w).1
  unfolding handle_request
  handle_request-IsPaired self w h n =
      iterate-Settled config.claude_max_iterations _ _ ((tools w).0, self, []) h n
