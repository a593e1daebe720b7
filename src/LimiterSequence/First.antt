-- ===== src/LimiterSequence/First.antt =====
-- `LimiterSequence::evaluate`: every limiter has its turn, and the first that blocks is reported.
use signal_gateway.Common.{
  ℕ, suc, ◌+◌, ◌≡◌, refl, ap, ◌∙◌, Bool, true, false, not, ◌&&◌, if◌then◌else◌, Option, none, some,
  List, [], ◌∷◌, arith, Bool-cases, inl, inr,
}
use native.Mathlib.Numerals.{add-one}
use native.Mathlib.Nat.{add-zero}
use signal_gateway.LogMessage.{LogMessage}
use signal_gateway.LogMessage.Filter.{LogFilter, matches}
use signal_gateway.RateLimiter.Limiter
use signal_gateway.RateLimiter.Limiter.{Limiter}
use signal_gateway.LimiterSequence.{LimiterSequence, turn, loop, evaluate}

module _ (locked : ℕ → Bool) (log_msg : LogMessage) where
  -- The limiters afterwards: those whose filter matches have evaluated the message, and the others
  -- are as they were.
  abbrev pub turned : ℕ → LimiterSequence → LimiterSequence
  turned i [] = []
  turned i ((filter, limiter) ∷ es) =
      (
        filter,
        if matches filter log_msg then (Limiter.evaluate (locked i) limiter log_msg).0 else limiter,
      )
      ∷ turned (suc i) es

  -- A limiter blocks the message where its filter matches and it does not let the message pass.
  abbrev pub blocks : ℕ → LimiterSequence → List Bool
  blocks i [] = []
  blocks i ((filter, limiter) ∷ es) =
      (matches filter log_msg && not (Limiter.evaluate (locked i) limiter log_msg).1)
      ∷ blocks (suc i) es

  turn_lem :
      (i : ℕ) (filter : LogFilter) (limiter : Limiter)
      → turn (locked i) log_msg (filter, limiter) ≡ (
        (
          filter,
          if matches filter log_msg
              then (Limiter.evaluate (locked i) limiter log_msg).0
              else limiter,
        ),
        matches filter log_msg && not (Limiter.evaluate (locked i) limiter log_msg).1,
      )
  unfolding turn
  turn_lem i filter limiter = elim (Bool-cases (matches filter log_msg)) [
    | inl e ↦ rw e
    | inr e ↦ rw e
  ]

-- An entry of `blocks`.
abbrev blocked : (ℕ → Bool) → LogMessage → ℕ → LogFilter → Limiter → Bool
blocked locked log_msg i filter limiter =
    matches filter log_msg && not (Limiter.evaluate (locked i) limiter log_msg).1

-- The index of the first `true`.
abbrev pub first_true : List Bool → Option ℕ
first_true [] = none
first_true (true ∷ bs) = some 0
first_true (false ∷ bs) = elim (first_true bs) [ none ↦ none | some i ↦ some (suc i) ]

abbrev shifted : ℕ → Option ℕ → Option ℕ
shifted i none = none
shifted i (some k) = some (i + k)

shifted-suc :
    (i : ℕ) (o : Option ℕ)
    → shifted (suc i) o ≡ shifted i (elim o [ none ↦ none | some k ↦ some (suc k) ])
shifted-suc i none = refl
shifted-suc i (some k) = ap some (omega arith)

shifted-zero : (o : Option ℕ) → shifted 0 o ≡ o
shifted-zero none = refl
shifted-zero (some k) = ap some (omega arith)

loop-some :
    (locked : ℕ → Bool) (log_msg : LogMessage) (i k : ℕ) (es : LimiterSequence)
    → loop locked log_msg i (some k) es ≡ (turned locked log_msg i es, some k)
unfolding loop
loop-some locked log_msg i k [] = refl
loop-some locked log_msg i k ((filter, limiter) ∷ es) =
    elim (Bool-cases (blocked locked log_msg i filter limiter)) [
      | inl h ↦ rw (
        turn_lem locked log_msg i filter limiter,
        h,
        add-one,
        loop-some locked log_msg (suc i) k es,
      )
      | inr h ↦ rw (
        turn_lem locked log_msg i filter limiter,
        h,
        add-one,
        loop-some locked log_msg (suc i) k es,
      )
    ]

loop-none :
    (locked : ℕ → Bool) (log_msg : LogMessage) (i : ℕ) (es : LimiterSequence)
    → loop locked log_msg i none es
      ≡ (turned locked log_msg i es, shifted i (first_true (blocks locked log_msg i es)))
unfolding loop
loop-none locked log_msg i [] = refl
loop-none locked log_msg i ((filter, limiter) ∷ es) =
    elim (Bool-cases (blocked locked log_msg i filter limiter)) [
      | inl h ↦ rw (
        turn_lem locked log_msg i filter limiter,
        h,
        add-one,
        loop-some locked log_msg (suc i) i es,
        add-zero,
      )
      | inr h ↦ rw (
        turn_lem locked log_msg i filter limiter,
        h,
        add-one,
        loop-none locked log_msg (suc i) es,
        shifted-suc i (first_true (blocks locked log_msg (suc i) es)),
      )
    ]

-- Whatever an earlier limiter says, every limiter whose filter matches evaluates the message, and
-- the others are left as they were; the result is the index of the first limiter whose filter
-- matches and which does not let the message pass, and `Ok` where there is none.
pub sequence_evaluate_lem :
    (locked : ℕ → Bool) (log_msg : LogMessage) (es : LimiterSequence)
    → evaluate locked log_msg es
      ≡ (turned locked log_msg 0 es, first_true (blocks locked log_msg 0 es))
unfolding evaluate
sequence_evaluate_lem locked log_msg es =
    loop-none locked log_msg 0 es ∙ rw (shifted-zero (first_true (blocks locked log_msg 0 es)))
