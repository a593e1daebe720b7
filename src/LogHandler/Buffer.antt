-- ===== src/LogHandler/Buffer.antt =====
-- `LogBuffer` of signal-gateway/src/gateway/log_buffer.rs. The mutex makes each call one step; a
-- closure over the messages is a fold over them, newest first.
use signal_gateway.Common.{ℕ, Option, none, some, List, [], ◌∷◌, reverse}
use signal_gateway.Common.Int.{ℤ, pos}
use signal_gateway.CircularBuffer
use signal_gateway.CircularBuffer.{CircularBuffer}
use signal_gateway.LogMessage.{LogMessage, get_timestamp_or_fallback}

abbrev pub LogBuffer : Type 0
LogBuffer = CircularBuffer LogMessage

-- `none` is the panic on a capacity of 0.
unfoldable pub new_buffer : ℕ → Option LogBuffer
new_buffer capacity = CircularBuffer.new capacity

unfoldable pub push_back : LogBuffer → LogMessage → LogBuffer
push_back self msg = CircularBuffer.push_back self msg

unfoldable pub fold {ℓ} : {S : Type ℓ} → (S → LogMessage → S) → S → List LogMessage → S
fold f s [] = s
fold f s (m ∷ ms) = fold f (f s m) ms

unfoldable pub push_back_and_drain {ℓ} :
    {S : Type ℓ} → LogBuffer → LogMessage → (S → LogMessage → S) → S → LogBuffer × S
unfolding fold
push_back_and_drain self msg f s =
    let buf = CircularBuffer.push_back self msg in
    (CircularBuffer.clear buf, fold f s (reverse (CircularBuffer.iter buf)))

unfoldable pub with_iter {ℓ} : {R : Type ℓ} → LogBuffer → (List LogMessage → R) → R
with_iter self f = f (reverse (CircularBuffer.iter self))

unfoldable pub peek_back {ℓ} : {R : Type ℓ} → LogBuffer → (LogMessage → R) → Option R
peek_back self f = elim (CircularBuffer.back self) [ none ↦ none | some m ↦ some (f m) ]

unfoldable pub buffer_ts_secs : LogBuffer → ℤ
unfolding peek_back
buffer_ts_secs self = elim (peek_back self get_timestamp_or_fallback) [
  | none ↦ pos 0
  | some ts ↦ ts
]
