-- ===== src/Claude/Requests/Tests.antt =====
-- Requests, and instances of the theorems. The world of the tests is the number of times that the
-- token is still found alive, and the responses to come.
use signal_gateway.Common.{
  ℕ, ◌-◌, ◌≡◌, refl, ◌≢◌, true, false, none, some, List, [], ◌∷◌, inr, ◌==◌,
}
use signal_gateway.Common.Text.{codes, text_eq}
use signal_gateway.Gateway.Tools.{new_result}
use signal_gateway.MessageBuffer.{text, tool_use, push, message_chars}
use signal_gateway.Claude.{
  MessagesResponse, assistant_content, tool_result_content, Reply, request_failed, responded, World,
  ClaudeConfig, ClaudeAssistant, push_message, final_text,
}
use signal_gateway.Claude.Requests.{
  done, cancelled, handle_request, iterate, handle_reply, handle_response, use_tools, run_tools,
  run_tool,
}
use signal_gateway.Claude.Requests.Pairs.{IsPaired, follow_all, handle_request-IsPaired}

abbrev TestWorld : Type 0
TestWorld = ℕ × List (MessagesResponse ℕ)

abbrev next_reply : List (MessagesResponse ℕ) → Reply ℕ ℕ
next_reply [] = request_failed 0
next_reply (r ∷ rs) = responded r

abbrev others : List (MessagesResponse ℕ) → List (MessagesResponse ℕ)
others [] = []
others (r ∷ rs) = rs

abbrev world : World TestWorld ℕ ℕ
world = record {
  is_cancelled = λ (k, rs). ((k - 1, rs), k == 0);
  send = λ request (k, rs). ((k, others rs), next_reply rs);
  select_send = λ request (k, rs). ((k, others rs), some (next_reply rs));
  has_executor = λ w. (w, true);
  tools = λ w. (w, []);
  execute = λ name input w. (w, some (inr (new_result (codes "ok"))));
  now = λ w. (w, 0);
  elapsed = λ t w. (w, 0);
}

abbrev config : ClaudeConfig
config = record {
  claude_model = codes "m";
  claude_max_tokens = 10;
  claude_max_iterations = 3;
  prompt_caching = false;
  trigger_chars = 100;
  min_interval = none;
  compaction_model = codes "m";
  compaction_max_tokens = 10;
  system_prompts = [];
  compaction_prompt = [];
}

abbrev fresh : ClaudeAssistant ℕ
fresh = record {
  summary = [];
  messages = record { messages = []; total_chars = 0 };
  last_auto_compaction = none;
}

abbrev asks : MessagesResponse ℕ
asks = record {
  content = tool_use (codes "1") (codes "logs") 0 ∷ tool_use (codes "2") (codes "logs") 0 ∷ [];
  stop_reason = codes "tool_use";
}

abbrev answers : MessagesResponse ℕ
answers = record { content = text (codes "fine") ∷ []; stop_reason = codes "end_turn" }

abbrev size : ℕ → ℕ
size v = 1

-- Cancelled between its two tool uses, a request leaves the second without its result, and so a
-- history that the API does not take.
left_open :
    follow_all
      (some [])
      (handle_request world size config fresh (2, asks ∷ answers ∷ [])).1.messages.messages
    ≡ some (codes "2" ∷ [])
unfolding handle_request iterate handle_reply handle_response use_tools run_tools run_tool text_eq
    push_message push message_chars assistant_content tool_result_content new_result
left_open = refl

both_answered :
    (handle_request world size config fresh (9, asks ∷ answers ∷ [])).2
    ≡ done (record { text = codes "fine"; attachments = [] })
unfolding handle_request iterate handle_reply handle_response use_tools run_tools run_tool text_eq
    push_message push final_text new_result
both_answered = refl

not_cancelled : (handle_request world size config fresh (9, asks ∷ answers ∷ [])).2 ≢ cancelled
unfolding handle_request iterate handle_reply handle_response use_tools run_tools run_tool text_eq
    push_message push final_text new_result
not_cancelled = λ e. cc

handle_request-IsPaired_example :
    IsPaired (handle_request world size config fresh (9, asks ∷ answers ∷ [])).1
handle_request-IsPaired_example =
    handle_request-IsPaired world size config fresh (9, asks ∷ answers ∷ []) refl not_cancelled
