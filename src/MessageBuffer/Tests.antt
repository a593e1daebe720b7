-- ===== src/MessageBuffer/Tests.antt =====
-- A buffer of three messages, and instances of the theorems.
use signal_gateway.Common.{ℕ, ◌≡◌, refl, [], ◌∷◌}
use signal_gateway.Common.Text.{codes, utf8_len}
use signal_gateway.MessageBuffer.{
  MessageContent, MessageBuffer, text, tool_use, message_chars, drop_oldest_messages, len,
}
use signal_gateway.MessageBuffer.Trim.{IsCounted, Trimmed, drop_oldest_messages-Trimmed}

-- A JSON value is told by its size.
abbrev size : ℕ → ℕ
size n = n

abbrev said : MessageContent ℕ
said = record { role = codes "user"; content = text (codes "hello") ∷ [] }

abbrev used : MessageContent ℕ
used = record { role = codes "assistant"; content = tool_use (codes "1") (codes "logs") 7 ∷ [] }

abbrev buffer : MessageBuffer ℕ
buffer = record { messages = said ∷ used ∷ said ∷ []; total_chars = 17 }

buffer-IsCounted : IsCounted size buffer
unfolding message_chars utf8_len
buffer-IsCounted = refl

first_dropped :
    drop_oldest_messages size 12 buffer ≡ record { messages = used ∷ said ∷ []; total_chars = 12 }
unfolding drop_oldest_messages message_chars utf8_len len
first_dropped = refl

drop_oldest_messages-Trimmed_example :
    Trimmed size 12 buffer.messages (drop_oldest_messages size 12 buffer)
drop_oldest_messages-Trimmed_example = drop_oldest_messages-Trimmed size 12 buffer buffer-IsCounted
