-- ===== src/Claude/Compaction.antt =====
-- What a compaction of the history, automatic or not, leaves.
mod Tests
use signal_gateway.Common.{
  ℕ, ◌≤◌, ◌<◌, ◌≡◌, refl, inl, inr, Bool, true, false, Option, none, some, [], ◌++◌, ◌⊎◌,
  if◌then◌else◌, Bool-cases,
}
use signal_gateway.Common.Text.{Text, codes}
use signal_gateway.MessageBuffer.{MessageBuffer, clear, no_messages, drop_oldest_messages}
use signal_gateway.MessageBuffer.Trim.{Trimmed}
use signal_gateway.Claude.{
  MessagesRequest, MessagesResponse, Reply, request_failed, api_error, responded, World,
  ClaudeConfig, ClaudeAssistant, final_text, summarized, after_reply, compact_now, do_compact,
  compaction_request,
}

module _ {V : Type 0} (size : V → ℕ) where
  -- The history is empty, and the summary is the text of a response in its tags.
  pub record Summarized (self : ClaudeAssistant V) : Type 0 where
    pub response : MessagesResponse V
    pub summary :
        self.summary
        ≡ codes "<summary type=\"activity\">\n"
          ++ final_text response.content
          ++ codes "\n</summary>"
    pub empty : self.messages.messages ≡ []
    pub zero_chars : self.messages.total_chars ≡ 0

  pub record Unchanged (self self' : ClaudeAssistant V) : Type 0 where
    pub summary : self'.summary ≡ self.summary
    pub messages : self'.messages ≡ self.messages

  abbrev pub Compacted : ClaudeAssistant V → ClaudeAssistant V → Type 0
  Compacted self self' = Unchanged self self' ⊎ Summarized self'

module _ {ℓ κ} {W : Type ℓ} {E : Type κ} {V : Type 0} (world : World W E V) (size : V → ℕ)
    (config : ClaudeConfig) where
  after_reply-Compacted :
      (self : ClaudeAssistant V) (last : Option ℕ) (reply : Option (Reply E V))
      → Compacted size self
          (after_reply world size config (record self { last_auto_compaction = last }) reply)
  unfolding summarized clear
  after_reply-Compacted self last none = inl (record { summary = refl; messages = refl })
  after_reply-Compacted self last (some (request_failed e)) =
      inl (record { summary = refl; messages = refl })
  after_reply-Compacted self last (some (api_error message)) =
      inl (record { summary = refl; messages = refl })
  after_reply-Compacted self last (some (responded parsed)) =
      inr (record { response = parsed; summary = refl; empty = refl; zero_chars = refl })

  compact_now-Compacted :
      (is_automatic : Bool) (self : ClaudeAssistant V) (w : W)
      → Compacted size self (compact_now world size config is_automatic self w).1
  unfolding compact_now
  compact_now-Compacted true self w =
      let (w', t) = world.now w in
      after_reply-Compacted self (some t)
        (some (world.send (compaction_request world size config self) w').1)
  compact_now-Compacted false self w =
      after_reply-Compacted self self.last_auto_compaction
        (world.select_send (compaction_request world size config self) w).1

  -- A compaction is all or nothing: it leaves an empty history and a summary, the text of the
  -- response in its tags, or the history and the summary as they were.
  pub do_compact-Compacted :
      (is_automatic : Bool) (self : ClaudeAssistant V) (w : W)
      → Compacted size self (do_compact world size config is_automatic self w).1
  unfolding do_compact
  do_compact-Compacted is_automatic self w =
      elim (Bool-cases (no_messages self.messages.messages)) [
        | inl e ↦ rw (e, do_compact) (inl (record { summary = refl; messages = refl }))
        | inr e ↦ rw (e, do_compact) (compact_now-Compacted is_automatic self w)
      ]

  -- A compaction is due: there is no least interval, or none was made yet, or the last one is at
  -- least so long ago. The clock is read in the last case only, which may change what is outside.
  pub data IsDue (self : ClaudeAssistant V) (w w' : W) : Type ℓ where
    no_interval : config.min_interval ≡ none → w' ≡ w → IsDue self w w'
    first : self.last_auto_compaction ≡ none → w' ≡ w → IsDue self w w'
    long_ago :
        (m t : ℕ)
        → config.min_interval ≡ some m
        → self.last_auto_compaction ≡ some t
        → m ≤ (world.elapsed t w).1
        → w' ≡ (world.elapsed t w).0
        → IsDue self w w'

  pub record IsTooSoon (self : ClaudeAssistant V) (w w' : W) : Type ℓ where
    pub interval : ℕ
    pub last : ℕ
    pub has_interval : config.min_interval ≡ some interval
    pub has_last : self.last_auto_compaction ≡ some last
    pub soon : (world.elapsed last w).1 < interval
    pub outside : w' ≡ (world.elapsed last w).0

  -- What a reply makes of the assistant.
  abbrev pub Answered : Reply E V → ClaudeAssistant V → ClaudeAssistant V → Type 0
  Answered (request_failed e) self self' = Unchanged size self self'
  Answered (api_error message) self self' = Unchanged size self self'
  Answered (responded parsed) self self' =
      (self'.summary
        ≡ codes "<summary type=\"activity\">\n"
          ++ final_text parsed.content
          ++ codes "\n</summary>")
      × (self'.messages.messages ≡ [])
      × (self'.messages.total_chars ≡ 0)

  -- The time is noted, and the whole history is sent to the model for compactions, once.
  pub record IsTried (self : ClaudeAssistant V) (w : W) (w' : W) (self' : ClaudeAssistant V)
      : Type ℓ where
    pub noted : self'.last_auto_compaction ≡ some (world.now w).1
    pub request : MessagesRequest V
    pub model : request.model ≡ config.compaction_model
    pub max_tokens : request.max_tokens ≡ config.compaction_max_tokens
    pub history : request.messages ≡ self.messages.messages
    pub no_tools : request.tools ≡ []
    pub outside : w' ≡ (world.send request (world.now w).0).0
    pub answered : Answered (world.send request (world.now w).0).1 self self'

  -- What the check of the history's size leads to.
  pub data Checked (self : ClaudeAssistant V) (w w' : W) (self' : ClaudeAssistant V) : Type ℓ where
    small :
        self.messages.total_chars ≤ config.trigger_chars
        → w' ≡ w
        → self' ≡ self
        → Checked self w w' self'
    tried :
        config.trigger_chars < self.messages.total_chars
        → (w₁ : W) → IsDue self w w₁
        → IsTried self w₁ w' self'
        → Checked self w w' self'
    trimmed :
        config.trigger_chars < self.messages.total_chars
        → IsTooSoon self w w'
        → self'.summary ≡ self.summary
        → self'.last_auto_compaction ≡ self.last_auto_compaction
        → Trimmed size config.trigger_chars self.messages.messages self'.messages
        → Checked self w w' self'
