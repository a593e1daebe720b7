-- ===== src/CircularBuffer.antt =====
-- signal-gateway/src/circular_buffer.rs. The `VecDeque` is the list of its elements, oldest first; a
-- method that takes `&mut self` returns the new buffer.
pub mod Recent
mod Tests
use signal_gateway.Common.{
  ℕ, ◌<◌, Bool, Option, none, some, List, [], ◌∷◌, ◌++◌, length, drop, ◌==◌, ltb, if◌then◌else◌,
  reverse,
}

pub record CircularBuffer {ℓ} (T : Type ℓ) : Type ℓ where
  pub buf : List T
  pub capacity : ℕ

module _ {ℓ} {T : Type ℓ} where
  -- `none` is the panic on a capacity of 0.
  unfoldable pub new : ℕ → Option (CircularBuffer T)
  new capacity = if ltb 0 capacity then some (record { buf = []; capacity = capacity }) else none

  -- `pop_front`, its result unused.
  unfoldable pub push_back : CircularBuffer T → T → CircularBuffer T
  push_back self value =
      let buf = if length self.buf == self.capacity then drop 1 self.buf else self.buf in
      record self { buf = buf ++ value ∷ [] }

  last? : List T → Option T
  last? [] = none
  last? (x ∷ []) = some x
  last? (x ∷ y ∷ xs) = last? (y ∷ xs)

  unfoldable pub back : CircularBuffer T → Option T
  unfolding last?
  back self = last? self.buf

  unfoldable pub len : CircularBuffer T → ℕ
  len self = length self.buf

  unfoldable pub is_empty : CircularBuffer T → Bool
  is_empty self = len self == 0

  unfoldable pub iter : CircularBuffer T → List T
  iter self = self.buf

  unfoldable pub clear : CircularBuffer T → CircularBuffer T
  clear self = record self { buf = [] }
