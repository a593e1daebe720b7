-- ===== src/MessageBuffer.antt =====
-- signal-gateway-assistant/claude/src/message_buffer.rs, and `drop_oldest_messages` of lib.rs beside
-- it. The JSON values and their serialized size are parameters; a sum of sizes never reaches 2^64.
pub mod Trim
mod Tests
use signal_gateway.Common.{
  ℕ, zero, suc, ◌+◌, ◌-◌, Bool, not, ◌&&◌, Option, none, some, List, [], ◌∷◌, ◌++◌, if◌then◌else◌,
  length, ltb,
}
use signal_gateway.Common.Text.{Text, utf8_len}

pub data ContentBlock {ℓ} (V : Type ℓ) : Type ℓ where
  text : Text → ContentBlock V
  tool_use : Text → Text → V → ContentBlock V
  tool_result : Text → Text → Option Bool → ContentBlock V

pub record MessageContent {ℓ} (V : Type ℓ) : Type ℓ where
  pub role : Text
  pub content : List (ContentBlock V)

pub record MessageBuffer {ℓ} (V : Type ℓ) : Type ℓ where
  pub messages : List (MessageContent V)
  pub total_chars : ℕ

abbrev pub no_messages {ℓ} : {A : Type ℓ} → List A → Bool
no_messages [] = Bool.true
no_messages (m ∷ ms) = Bool.false

module _ {ℓ} {V : Type ℓ} (estimate_json_size : V → ℕ) where
  abbrev pub block_chars : ContentBlock V → ℕ
  block_chars (text t) = utf8_len t
  block_chars (tool_use id name input) = estimate_json_size input
  block_chars (tool_result tool_use_id content is_error) = utf8_len content

  abbrev pub blocks_chars : List (ContentBlock V) → ℕ
  blocks_chars [] = 0
  blocks_chars (b ∷ bs) = block_chars b + blocks_chars bs

  unfoldable pub message_chars : MessageContent V → ℕ
  message_chars msg = blocks_chars msg.content

  unfoldable pub empty_buffer : MessageBuffer V
  empty_buffer = record { messages = []; total_chars = 0 }

  unfoldable pub push : MessageBuffer V → MessageContent V → MessageBuffer V
  push self msg = record {
    messages = self.messages ++ msg ∷ [];
    total_chars = self.total_chars + message_chars msg;
  }

  abbrev popped : List (MessageContent V) → ℕ → MessageBuffer V × Option (MessageContent V)
  popped [] total = (record { messages = []; total_chars = total }, none)
  popped (msg ∷ ms) total =
      (record { messages = ms; total_chars = total - message_chars msg }, some msg)

  unfoldable pub pop_front : MessageBuffer V → MessageBuffer V × Option (MessageContent V)
  pop_front self = popped self.messages self.total_chars

  unfoldable pub clear : MessageBuffer V → MessageBuffer V
  clear self = record { messages = []; total_chars = 0 }

  unfoldable pub is_empty : MessageBuffer V → Bool
  is_empty self = no_messages self.messages

  unfoldable pub len : MessageBuffer V → ℕ
  len self = length self.messages

  -- The loop, on fuel: a round takes one message off.
  pub drop_loop : ℕ → ℕ → MessageBuffer V → MessageBuffer V
  unfolding pop_front is_empty
  drop_loop zero target self = self
  drop_loop (suc fuel) target self =
      let rest = drop_loop fuel target (pop_front self).0 in
      if ltb target self.total_chars && not (is_empty self) then rest else self

  unfoldable pub drop_oldest_messages : ℕ → MessageBuffer V → MessageBuffer V
  unfolding drop_loop len
  drop_oldest_messages target self =
      if ltb target self.total_chars then drop_loop (len self) target self else self
