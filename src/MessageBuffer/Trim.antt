-- ===== src/MessageBuffer/Trim.antt =====
-- The cached number of characters, and which messages `drop_oldest_messages` drops.
use signal_gateway.Common.{
  ℕ, zero, suc, ◌+◌, ◌-◌, ◌≤◌, ◌<◌, ◌≡◌, refl, List, [], ◌∷◌, ◌++◌, length, ltb, drop, arith,
  Bool-cases, inl, inr,
}
use signal_gateway.MessageBuffer.{
  MessageContent, MessageBuffer, message_chars, push, popped, pop_front, clear, is_empty, len,
  drop_loop, drop_oldest_messages,
}

module _ {ℓ} {V : Type ℓ} (estimate_json_size : V → ℕ) where
  -- The characters of all messages, counted anew.
  abbrev pub counted : List (MessageContent V) → ℕ
  counted [] = 0
  counted (m ∷ ms) = message_chars estimate_json_size m + counted ms

  abbrev pub IsCounted : MessageBuffer V → Type 0
  IsCounted b = b.total_chars ≡ counted b.messages

  counted-append :
      (ms : List (MessageContent V)) (m : MessageContent V)
      → counted (ms ++ m ∷ []) ≡ counted ms + message_chars estimate_json_size m
  counted-append [] m = omega arith
  counted-append (n ∷ ms) m = omega (arith, counted-append ms m)

  popped-IsCounted :
      (ms : List (MessageContent V)) (t : ℕ)
      → t ≡ counted ms
      → IsCounted (popped estimate_json_size ms t).0
  popped-IsCounted [] t c = c
  popped-IsCounted (m ∷ ms) t c = omega arith

  -- Where the cached number of characters is right, it is right after a push, a pop and a clear.
  pub total_chars-IsCounted :
      (b : MessageBuffer V) (m : MessageContent V)
      → IsCounted b
      → IsCounted (push estimate_json_size b m)
        × IsCounted (pop_front estimate_json_size b).0
        × IsCounted (clear estimate_json_size b)
  unfolding push pop_front clear
  total_chars-IsCounted b m c = (
    omega (arith, counted-append b.messages m),
    popped-IsCounted b.messages b.total_chars c,
    refl,
  )

  -- What a trimmed buffer has to do with the messages before.
  pub record Trimmed (target : ℕ) (ms : List (MessageContent V)) (b : MessageBuffer V)
      : Type ℓ where
    pub dropped : ℕ
    pub suffix : b.messages ≡ drop dropped ms
    pub right : IsCounted b
    pub small : b.total_chars ≤ target
    pub needed : (j : ℕ) → j < dropped → target < counted (drop j ms)

  kept_all :
      (target : ℕ) (b : MessageBuffer V)
      → IsCounted b
      → b.total_chars ≤ target
      → Trimmed target b.messages b
  kept_all target b c h = record {
    dropped = 0;
    suffix = refl;
    right = c;
    small = h;
    needed = λ j l. absurd (omega arith);
  }

  needed_further :
      (target : ℕ) (m : MessageContent V) (ms : List (MessageContent V)) (k : ℕ)
      → target < counted (m ∷ ms)
      → ((j : ℕ) → j < k → target < counted (drop j ms))
      → (j : ℕ) → j < suc k
      → target < counted (drop j (m ∷ ms))
  needed_further target m ms k h n zero l = h
  needed_further target m ms k h n (suc j) l = n j (omega arith)

  drop_loop-Trimmed :
      (fuel target : ℕ) (ms : List (MessageContent V)) (t : ℕ)
      → length ms ≤ fuel
      → t ≡ counted ms
      → Trimmed target ms
          (drop_loop estimate_json_size fuel target (record { messages = ms; total_chars = t }))
  unfolding drop_loop is_empty pop_front
  drop_loop-Trimmed zero target [] t f c = kept_all target _ c (omega arith)
  drop_loop-Trimmed zero target (m ∷ ms) t f c = absurd (omega arith)
  drop_loop-Trimmed (suc fuel) target [] t f c = elim (Bool-cases (ltb target t)) [
    | inl e ↦ absurd (ground arith)
    | inr e ↦ rw e (kept_all target _ c (omega arith))
  ]
  drop_loop-Trimmed (suc fuel) target (m ∷ ms) t f c = elim (Bool-cases (ltb target t)) [
    | inl e ↦
        let r =
          drop_loop-Trimmed fuel target ms (t - message_chars estimate_json_size m) (omega arith)
            (omega arith) in
        rw e (record {
          dropped = suc r.dropped;
          suffix = r.suffix;
          right = r.right;
          small = r.small;
          needed = needed_further target m ms r.dropped (ground arith) r.needed;
        })
    | inr e ↦
        rw e (kept_all target (record { messages = m ∷ ms; total_chars = t }) c (ground arith))
  ]

  -- Where the cached number of characters is right, `drop_oldest_messages` drops the oldest messages
  -- only, leaves at most the target number of characters, rightly cached, and drops no more messages
  -- than that takes: before each drop there were too many characters.
  pub drop_oldest_messages-Trimmed :
      (target : ℕ) (b : MessageBuffer V)
      → IsCounted b
      → Trimmed target b.messages (drop_oldest_messages estimate_json_size target b)
  unfolding drop_oldest_messages len
  drop_oldest_messages-Trimmed target b c = elim (Bool-cases (ltb target b.total_chars)) [
    | inl e ↦
        rw e (drop_loop-Trimmed (length b.messages) target b.messages b.total_chars (omega arith) c)
    | inr e ↦ rw e (kept_all target b c (ground arith))
  ]
