-- ===== src/Claude.antt =====
-- signal-gateway-assistant/claude/src/lib.rs (with the requests of api.rs): the assistant's history,
-- its compaction and its requests. What is outside (HTTP, tools, clock, cancellation) is a parameter:
-- operations on a state of any type, after each of which anything may have changed.
pub mod Requests
pub mod Compaction
use signal_gateway.Common.{
  ℕ, Bool, true, false, ◌&&◌, not, Option, none, some, List, [], ◌∷◌, ◌++◌, map, if◌then◌else◌, ltb,
  leb, ◌⊎◌, inl, inr,
}
use signal_gateway.Common.Text.{Text, codes, is_empty}
use signal_gateway.Assistant.{SentBy, ChatMessage, prefix, api_role}
use signal_gateway.Gateway.Tools.{Tool, ToolResult}
use signal_gateway.MessageBuffer.{
  ContentBlock, text, tool_use, tool_result, MessageContent, MessageBuffer, push, clear,
  no_messages, drop_oldest_messages,
}

pub record SystemContent : Type 0 where
  pub text : Text
  pub cached : Bool

unfoldable pub system_text : Text → SystemContent
system_text t = record { text = t; cached = false }

unfoldable pub set_cached : SystemContent → SystemContent
set_cached self = record self { cached = true }

pub record MessagesRequest (V : Type 0) : Type 0 where
  pub model : Text
  pub max_tokens : ℕ
  pub system : List SystemContent
  pub messages : List (MessageContent V)
  pub tools : List (Tool V)

pub record MessagesResponse (V : Type 0) : Type 0 where
  pub content : List (ContentBlock V)
  pub stop_reason : Text

-- `MessageContent::assistant` and `MessageContent::tool_result`.
unfoldable pub assistant_content : {V : Type 0} → List (ContentBlock V) → MessageContent V
assistant_content blocks = record { role = codes "assistant"; content = blocks }

unfoldable pub tool_result_content : {V : Type 0} → Text → Text → Bool → MessageContent V
tool_result_content tool_use_id content is_error = record {
  role = codes "user";
  content = tool_result tool_use_id content (if is_error then some true else none) ∷ [];
}

-- What a request comes to: an error of the client or of its decoding, an error that the API reports,
-- or a response.
pub data Reply {κ} (E : Type κ) (V : Type 0) : Type κ where
  request_failed : E → Reply E V
  api_error : Text → Reply E V
  responded : MessagesResponse V → Reply E V

-- What is outside. `select_send` and `execute` are none where the token is cancelled first.
pub record World {ℓ κ} (W : Type ℓ) (E : Type κ) (V : Type 0) : Type (ℓ ⊔ κ) where
  pub is_cancelled : W → W × Bool
  pub send : MessagesRequest V → W → W × Reply E V
  pub select_send : MessagesRequest V → W → W × Option (Reply E V)
  pub has_executor : W → W × Bool
  pub tools : W → W × List (Tool V)
  pub execute : Text → V → W → W × Option (Text ⊎ ToolResult)
  pub now : W → W × ℕ
  pub elapsed : ℕ → W → W × ℕ

pub record ClaudeConfig : Type 0 where
  pub claude_model : Text
  pub claude_max_tokens : ℕ
  pub claude_max_iterations : ℕ
  pub prompt_caching : Bool
  pub trigger_chars : ℕ
  pub min_interval : Option ℕ
  pub compaction_model : Text
  pub compaction_max_tokens : ℕ
  pub system_prompts : List Text
  pub compaction_prompt : Text

pub record ClaudeAssistant (V : Type 0) : Type 0 where
  pub summary : Text
  pub messages : MessageBuffer V
  pub last_auto_compaction : Option ℕ

-- `iter().map(text)` and `last_mut`.
abbrev pub cache_last : List SystemContent → List SystemContent
cache_last [] = []
cache_last (s ∷ []) = set_cached s ∷ []
cache_last (s ∷ (t ∷ ss)) = s ∷ cache_last (t ∷ ss)

-- The system prompts, then the summary if there is one; the last of them is cached.
unfoldable pub system_content : ClaudeConfig → List Text → Text → List SystemContent
system_content config prompts summary =
    let system = map system_text (prompts ++ (if is_empty summary then [] else summary ∷ [])) in
    if config.prompt_caching then cache_last system else system

-- The text blocks.
abbrev pub texts : {V : Type 0} → List (ContentBlock V) → List Text
texts [] = []
texts (text t ∷ bs) = t ∷ texts bs
texts (_ ∷ bs) = texts bs

-- `join("\n")`.
abbrev pub join_lines : List Text → Text
join_lines [] = []
join_lines (t ∷ []) = t
join_lines (t ∷ (u ∷ ts)) = t ++ b'\n' ∷ join_lines (u ∷ ts)

unfoldable pub final_text : {V : Type 0} → List (ContentBlock V) → Text
final_text content = join_lines (texts content)

-- A chat message, with its time as text.
unfoldable pub message_to_content : {V T : Type 0} → (T → Text) → ChatMessage T → MessageContent V
message_to_content format msg =
    let ts = format msg.timestamp in
    let t = elim (prefix msg.sent_by) as (λ o. Text) [
      | some p ↦ b'[' ∷ ts ++ codes "] " ++ p ++ b' ' ∷ msg.text
      | none ↦ b'[' ∷ ts ++ codes "] " ++ msg.text
    ] in
    record { role = api_role msg.sent_by; content = text t ∷ [] }

unfoldable pub push_message :
    {V : Type 0} → (V → ℕ) → MessageContent V → ClaudeAssistant V → ClaudeAssistant V
push_message estimate_json_size message self = record self {
  messages = push estimate_json_size self.messages message;
}

module _ {ℓ κ} {W : Type ℓ} {E : Type κ} {V : Type 0} (world : World W E V)
    (estimate_json_size : V → ℕ) (config : ClaudeConfig) where
  open world use {send, select_send, now, elapsed}

  unfoldable pub compaction_request : ClaudeAssistant V → MessagesRequest V
  compaction_request self = record {
    model = config.compaction_model;
    max_tokens = config.compaction_max_tokens;
    system = system_content config (config.compaction_prompt ∷ config.system_prompts) self.summary;
    messages = self.messages.messages;
    tools = [];
  }

  unfoldable pub summarized : ClaudeAssistant V → MessagesResponse V → ClaudeAssistant V
  summarized self parsed = record self {
    summary =
        codes "<summary type=\"activity\">\n" ++ final_text parsed.content ++ codes "\n</summary>";
    messages = clear estimate_json_size self.messages;
  }

  -- With no reply where it was cancelled.
  abbrev pub after_reply : ClaudeAssistant V → Option (Reply E V) → ClaudeAssistant V
  after_reply self none = self
  after_reply self (some (request_failed e)) = self
  after_reply self (some (api_error message)) = self
  after_reply self (some (responded parsed)) = summarized self parsed

  -- The automatic kind notes its time and cannot be cancelled.
  pub compact_now : Bool → ClaudeAssistant V → W → W × ClaudeAssistant V
  compact_now true self w =
      let (w₁, t) = now w in
      let (w₂, reply) = send (compaction_request self) w₁ in
      (w₂, after_reply (record self { last_auto_compaction = some t }) (some reply))
  compact_now false self w =
      let (w', reply) = select_send (compaction_request self) w in (w', after_reply self reply)

  unfoldable pub do_compact : Bool → ClaudeAssistant V → W → W × ClaudeAssistant V
  unfolding compact_now
  do_compact is_automatic self w =
      if no_messages self.messages.messages then (w, self) else compact_now is_automatic self w

  abbrev pub can_compact : Option ℕ → Option ℕ → W → W × Bool
  can_compact none last w = (w, true)
  can_compact (some min_interval) none w = (w, true)
  can_compact (some min_interval) (some t) w = let (w', e) = elapsed t w in (w', leb min_interval e)

  unfoldable pub maybe_compact : ClaudeAssistant V → W → W × ClaudeAssistant V
  unfolding do_compact
  maybe_compact self w =
      if leb self.messages.total_chars config.trigger_chars
      then (w, self)
      else (let (w', can) = can_compact config.min_interval self.last_auto_compaction w in
          if can then do_compact true self w' else (
            w',
            record self {
              messages = drop_oldest_messages estimate_json_size config.trigger_chars self.messages;
            },
          ))

  -- `Assistant::record_message` and `Assistant::compact`.
  unfoldable pub record_content : MessageContent V → ClaudeAssistant V → W → W × ClaudeAssistant V
  record_content mc self w = maybe_compact (push_message estimate_json_size mc self) w

  unfoldable pub compact : ClaudeAssistant V → W → W × ClaudeAssistant V
  compact self w = do_compact false self w
