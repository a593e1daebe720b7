-- ===== src/Claude/Compaction/Tests.antt =====
-- Instances of the theorems.
use signal_gateway.Common.{ℕ, Bool, true, none, some, [], ◌∷◌}
use signal_gateway.Common.Text.{codes}
use signal_gateway.MessageBuffer.{text}
use signal_gateway.Claude.{World, ClaudeConfig, ClaudeAssistant, responded}

-- A world in which every response is a summary and nothing is cancelled, and which ticks.
abbrev world : World ℕ ℕ ℕ
world = record {
  is_cancelled = λ w. (w, Bool.false);
  send = λ request w.
      (w, responded (record { content = text (codes "s") ∷ []; stop_reason = codes "end_turn" }));
  select_send = λ request w. (w, none);
  has_executor = λ w. (w, true);
  tools = λ w. (w, []);
  execute = λ name input w. (w, none);
  now = λ w. (w, w);
  elapsed = λ t w. (w, 5);
}

abbrev config : ClaudeConfig
config = record {
  claude_model = codes "m";
  claude_max_tokens = 10;
  claude_max_iterations = 3;
  prompt_caching = true;
  trigger_chars = 3;
  min_interval = some 60;
  compaction_model = codes "m";
  compaction_max_tokens = 10;
  system_prompts = [];
  compaction_prompt = [];
}

-- One message more than the limit allows, and a compaction not long ago.
abbrev full : ClaudeAssistant ℕ
full = record {
  summary = [];
  messages = record {
    messages = record { role = codes "user"; content = text (codes "long") ∷ [] } ∷ [];
    total_chars = 4;
  };
  last_auto_compaction = some 1;
}

abbrev size : ℕ → ℕ
size v = 1
