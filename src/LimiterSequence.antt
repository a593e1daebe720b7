-- ===== src/LimiterSequence.antt =====
-- signal-gateway/src/limiter_sequence.rs: limits with a filter each, all applied to every message.
pub mod First
pub mod Tests
use signal_gateway.Common.{
  ℕ, zero, suc, ◌+◌, Bool, true, false, not, ◌&&◌, Option, none, some, List, [], ◌∷◌, if◌then◌else◌,
}
use signal_gateway.Common.Int.{ℤ, pos, max_ℤ}
use signal_gateway.LogMessage.{LogMessage}
use signal_gateway.LogMessage.Filter.{LogFilter, matches}
use signal_gateway.RateLimiter.Limiter
use signal_gateway.RateLimiter.Limiter.{
  Limiter, multi, source_location, RateThreshold, from_threshold, source_location_new,
}

pub record Limit : Type 0 where
  pub filter : LogFilter
  pub threshold : RateThreshold
  pub by_source_location : Bool

-- `none` is the panic on a window that does not fit an `i64`.
unfoldable pub make_limiter : Limit → Option (LogFilter × Limiter)
make_limiter self =
    if self.by_source_location
    then (elim (source_location_new self.threshold) [
      | none ↦ none
      | some l ↦ some (self.filter, source_location l)
    ])
    else (elim (from_threshold self.threshold) [
      | none ↦ none
      | some l ↦ some (self.filter, multi l)
    ])

abbrev pub LimiterSequence : Type 0
LimiterSequence = List (LogFilter × Limiter)

-- `limits.iter().collect()`.
unfoldable pub from_limits : List Limit → Option LimiterSequence
unfolding make_limiter
from_limits [] = some []
from_limits (l ∷ ls) = elim (make_limiter l) [
  | none ↦ none
  | some e ↦ (elim (from_limits ls) [ none ↦ none | some es ↦ some (e ∷ es) ])
]

-- One pair's turn: the limiter is evaluated where the filter matches; does it block the message?
unfoldable pub turn : Bool → LogMessage → LogFilter × Limiter → (LogFilter × Limiter) × Bool
turn locked log_msg (filter, limiter) =
    if matches filter log_msg
    then (let (limiter', passes) = Limiter.evaluate locked limiter log_msg in
        ((filter, limiter'), not passes))
    else ((filter, limiter), false)

abbrev is_none : Option ℕ → Bool
is_none none = true
is_none (some i) = false

-- The loop, from index `i` on; `locked i` is the outcome of the i-th limiter's `try_lock`.
pub loop : (ℕ → Bool) → LogMessage → ℕ → Option ℕ → LimiterSequence → LimiterSequence × Option ℕ
loop locked log_msg i maybe_idx [] = ([], maybe_idx)
loop locked log_msg i maybe_idx (e ∷ es) =
    let (e', blocks) = turn (locked i) log_msg e in
    let (es', idx) =
      loop locked log_msg (i + 1) (if blocks && is_none maybe_idx then some i else maybe_idx) es in
    (e' ∷ es', idx)

-- `none` is `Ok(())`, and `some i` is `Err(i)`.
unfoldable pub evaluate : (ℕ → Bool) → LogMessage → LimiterSequence → LimiterSequence × Option ℕ
unfolding loop
evaluate locked log_msg self = loop locked log_msg 0 none self

max_of : ℤ → LimiterSequence → ℤ
max_of a [] = a
max_of a ((f, l) ∷ es) = max_of (max_ℤ a (Limiter.ts_secs l)) es

unfoldable pub ts_secs : LimiterSequence → ℤ
unfolding max_of
ts_secs [] = pos 0
ts_secs ((f, l) ∷ es) = max_of (Limiter.ts_secs l) es
