-- ===== src/Claude/Requests.antt =====
-- signal-gateway-assistant/claude/src/lib.rs: `handle_request`, the loop of requests and tool uses,
-- and `prompt`. The loop is structural on the iterations that are left.
pub mod Pairs
pub mod Budget
mod Tests
use signal_gateway.Common.{
  ℕ, zero, suc, Bool, true, false, Option, none, some, List, [], ◌∷◌, ◌++◌, if◌then◌else◌, ◌⊎◌, inl,
  inr,
}
use signal_gateway.Common.Text.{Text, codes, text_eq}
use signal_gateway.Assistant.{AssistantResponse}
use signal_gateway.Gateway.Tools.{Tool, ToolResult}
use signal_gateway.MessageBuffer.{ContentBlock, text, tool_use, tool_result, MessageContent}
use signal_gateway.Claude.{
  SystemContent, MessagesRequest, MessagesResponse, assistant_content, tool_result_content, Reply,
  request_failed, api_error, responded, World, ClaudeConfig, ClaudeAssistant, system_content,
  final_text, push_message, maybe_compact,
}

pub data ClaudeError {κ} (E : Type κ) : Type κ where
  request_error : E → ClaudeError E
  api : Text → ClaudeError E
  too_many_iterations : ℕ → ClaudeError E
  tool_executor_gone : ClaudeError E

pub data Result {κ} (E : Type κ) : Type κ where
  done : AssistantResponse → Result E
  cancelled : Result E
  failed : ClaudeError E → Result E

module _ {ℓ κ} {W : Type ℓ} {E : Type κ} {V : Type 0} (world : World W E V)
    (estimate_json_size : V → ℕ) (config : ClaudeConfig) where
  open world use {is_cancelled, select_send, has_executor, tools, execute}

  abbrev pub State : Type ℓ
  State = W × ClaudeAssistant V × List Text

  -- The result of a tool goes into the history; the loop stops where it was cancelled.
  abbrev pub after_tool :
      Text
      → W × Option (Text ⊎ ToolResult)
      → ClaudeAssistant V
      → List Text
      → (State → State × Bool)
      → State × Bool
  after_tool id (w, none) self attachments next = ((w, self, attachments), false)
  after_tool id (w, some (inl err)) self attachments next =
      next (w, push_message estimate_json_size (tool_result_content id err true) self, attachments)
  after_tool id (w, some (inr result)) self attachments next = next (
    w,
    push_message estimate_json_size (tool_result_content id result.text false) self,
    attachments ++ result.attachments,
  )

  pub run_tool :
      Text
      → Text
      → V
      → W × Bool
      → ClaudeAssistant V
      → List Text
      → (State → State × Bool)
      → State × Bool
  run_tool id name input (w, true) self attachments next = ((w, self, attachments), false)
  run_tool id name input (w, false) self attachments next =
      after_tool id (execute name input w) self attachments next

  -- The tool uses of a response, in order; false where they were cancelled.
  pub run_tools : List (ContentBlock V) → State → State × Bool
  unfolding run_tool
  run_tools [] st = (st, true)
  run_tools (tool_use id name input ∷ blocks) (w, self, attachments) =
      run_tool id name input (is_cancelled w) self attachments (λ st. run_tools blocks st)
  run_tools (text t ∷ blocks) st = run_tools blocks st
  run_tools (tool_result id content is_error ∷ blocks) st = run_tools blocks st

  unfoldable pub request_of :
      List SystemContent → List (Tool V) → ClaudeAssistant V → MessagesRequest V
  request_of system ts self = record {
    model = config.claude_model;
    max_tokens = config.claude_max_tokens;
    system = system;
    messages = self.messages.messages;
    tools = ts;
  }

  abbrev pub Finished : Type (ℓ ⊔ κ)
  Finished = W × ClaudeAssistant V × Result E

  abbrev pub after_tools : State × Bool → (State → Finished) → Finished
  after_tools ((w, self, attachments), false) next = (w, self, cancelled)
  after_tools (st, true) next = next st

  -- A response that asks for tools.
  pub use_tools :
      List (ContentBlock V)
      → W × Bool
      → ClaudeAssistant V
      → List Text
      → (State → Finished)
      → Finished
  unfolding run_tools
  use_tools content (w, false) self attachments next = (w, self, failed tool_executor_gone)
  use_tools content (w, true) self attachments next =
      after_tools
        (run_tools content
          (w, push_message estimate_json_size (assistant_content content) self, attachments))
        next

  pub handle_response :
      MessagesResponse V → W → ClaudeAssistant V → List Text → (State → Finished) → Finished
  unfolding use_tools
  handle_response response w self attachments next =
      if text_eq response.stop_reason (codes "tool_use")
      then use_tools response.content (has_executor w) self attachments next
      else (
        w,
        self,
        done (record { text = final_text response.content; attachments = attachments }),
      )

  pub handle_reply :
      W × Option (Reply E V) → ClaudeAssistant V → List Text → (State → Finished) → Finished
  unfolding handle_response
  handle_reply (w, none) self attachments next = (w, self, cancelled)
  handle_reply (w, some (request_failed e)) self attachments next =
      (w, self, failed (request_error e))
  handle_reply (w, some (api_error message)) self attachments next = (w, self, failed (api message))
  handle_reply (w, some (responded response)) self attachments next =
      handle_response response w self attachments next

  pub iterate : ℕ → List SystemContent → List (Tool V) → State → Finished
  unfolding handle_reply
  iterate zero system ts (w, self, attachments) =
      (w, self, failed (too_many_iterations config.claude_max_iterations))
  iterate (suc n) system ts (w, self, attachments) = elim (is_cancelled w).1 [
    | true ↦ ((is_cancelled w).0, self, cancelled)
    | false ↦
        handle_reply (select_send (request_of system ts self) (is_cancelled w).0) self attachments
          (λ st. iterate n system ts st)
  ]

  unfoldable pub handle_request : ClaudeAssistant V → W → Finished
  unfolding iterate
  handle_request self w =
      let (w', ts) = tools w in
      iterate config.claude_max_iterations
        (system_content config config.system_prompts self.summary) ts (w', self, [])

  abbrev pub unless_cancelled : W × Bool → ClaudeAssistant V → Finished
  unless_cancelled (w, true) self = (w, self, cancelled)
  unless_cancelled (w, false) self = handle_request self w

  -- `Assistant::prompt`.
  unfoldable pub prompt : MessageContent V → ClaudeAssistant V → W → Finished
  unfolding maybe_compact
  prompt mc self w =
      let (w', self') =
        maybe_compact world estimate_json_size config (push_message estimate_json_size mc self) w in
      unless_cancelled (is_cancelled w') self'
