-- ===== src/CircularBuffer/Recent.antt =====
-- The buffer holds the most recent elements, as many as its capacity.
use signal_gateway.Common.{
  ℕ, zero, suc, ◌-◌, ◌<◌, ◌≤◌, ◌≡◌, refl, sym, ap, ap₂, ◌∙◌, some, List, [], ◌∷◌, ◌++◌, length,
  length-append, length-drop, drop, ◌==◌, if◌then◌else◌, arith, inl, inr, Bool-cases, min,
}
use mathlib.Core.List.{append_assoc, append-nil}
use signal_gateway.CircularBuffer.{CircularBuffer, new, push_back, back, last?, len, iter}

module _ {ℓ} {T : Type ℓ} where
  -- The last `n` elements.
  abbrev pub recent : ℕ → List T → List T
  recent n xs = drop (length xs - n) xs

  drop-append_le : (k : ℕ) (xs ys : List T) → k ≤ length xs → drop k (xs ++ ys) ≡ drop k xs ++ ys
  drop-append_le zero xs ys h = refl
  drop-append_le (suc k) [] ys h = absurd (omega arith)
  drop-append_le (suc k) (x ∷ xs) ys h = drop-append_le k xs ys (omega arith)

  drop-one-drop : (k : ℕ) (xs : List T) → drop 1 (drop k xs) ≡ drop (suc k) xs
  drop-one-drop zero xs = refl
  drop-one-drop (suc k) [] = refl
  drop-one-drop (suc k) (x ∷ xs) = drop-one-drop k xs

  push_recent :
      (n : ℕ) (xs : List T) (x : T)
      → 0 < n
      → (if length (recent n xs) == n then drop 1 (recent n xs) else recent n xs) ++ x ∷ []
        ≡ recent n (xs ++ x ∷ [])
  push_recent n xs x h = elim (Bool-cases (length (recent n xs) == n)) [
    | inl full ↦
        let size = length-drop (length xs - n) xs in
        let next : suc (length xs - n) ≡ length (xs ++ x ∷ []) - n =
          ground (arith, size, length-append xs (x ∷ [])) in
        rw full (
          ap (λ l. l ++ x ∷ []) (drop-one-drop (length xs - n) xs)
          ∙ sym (drop-append_le (suc (length xs - n)) xs (x ∷ []) (ground (arith, size)))
          ∙ ap (λ k. drop k (xs ++ x ∷ [])) next)
    | inr room ↦
        let size = length-drop (length xs - n) xs in
        let none_dropped : length xs - n ≡ 0 = ground (arith, size) in
        let none_yet : length (xs ++ x ∷ []) - n ≡ 0 =
          ground (arith, size, length-append xs (x ∷ [])) in
        rw (room, none_dropped, none_yet)
  ]

  drop-nil : (k : ℕ) → drop {A = T} k [] ≡ []
  drop-nil zero = refl
  drop-nil (suc k) = refl

  last?-append : (xs : List T) (x : T) → last? (xs ++ x ∷ []) ≡ some x
  unfolding last?
  last?-append [] x = refl
  last?-append (y ∷ []) x = refl
  last?-append (y ∷ z ∷ xs) x = last?-append (z ∷ xs) x

  -- The buffer after a history of pushes.
  unfoldable pub push_all : CircularBuffer T → List T → CircularBuffer T
  push_all self [] = self
  push_all self (x ∷ xs) = push_all (push_back self x) xs

  push_all-buf :
      (n : ℕ) (self : CircularBuffer T) (seen xs : List T)
      → 0 < n
      → self.capacity ≡ n
      → self.buf ≡ recent n seen
      → ((push_all self xs).buf ≡ recent n (seen ++ xs)) × ((push_all self xs).capacity ≡ n)
  unfolding push_all push_back
  push_all-buf n self seen [] h c e = (e ∙ ap (recent n) (sym (append-nil seen)), c)
  push_all-buf n self seen (x ∷ xs) h c e = rw (← append_assoc seen (x ∷ []) xs) (
      push_all-buf n (push_back self x) (seen ++ x ∷ []) xs h c (
        ap₂ (λ (b : List T) (k : ℕ). (if length b == k then drop 1 b else b) ++ x ∷ []) e c
        ∙ push_recent n seen x h))

  -- After any sequence of pushes on a new buffer it holds the last ones, in order, as many as its
  -- capacity; its length is the smaller of the two numbers, and the capacity stays.
  pub push_all-recent :
      (capacity : ℕ) (b : CircularBuffer T) (xs : List T)
      → new capacity ≡ some b
      → (iter (push_all b xs) ≡ recent capacity xs)
        × (len (push_all b xs) ≡ min (length xs) capacity)
        × ((push_all b xs).capacity ≡ capacity)
  unfolding new iter len
  push_all-recent capacity b xs e =
      let positive : 0 < capacity = ground arith in
      let start : (b.buf ≡ []) × (b.capacity ≡ capacity) = ground arith in
      let (held, kept) =
        push_all-buf capacity b [] xs positive start.1 (start.0 ∙ sym (drop-nil (0 - capacity))) in
      (held, rw held (omega (arith, length-drop (length xs - capacity) xs)), kept)

  -- `back` is the element pushed last.
  pub back-push_back : (self : CircularBuffer T) (x : T) → back (push_back self x) ≡ some x
  unfolding back push_back
  back-push_back self x =
      last?-append (if length self.buf == self.capacity then drop 1 self.buf else self.buf) x
