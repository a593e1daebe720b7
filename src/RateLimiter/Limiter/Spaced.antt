-- ===== src/RateLimiter/Limiter/Spaced.antt =====
-- `SimpleRateLimiter`: events that pass are at least the window apart.
use signal_gateway.Common.{◌≡◌, ap, ◌∙◌, true, false, arith}
use signal_gateway.Common.Int.{
  ℤ, pos, ◌-ℤ◌, ◌≤ℤ◌, InI64, leb_ℤ, sub_i64_exact, eq_of_parts, -ℤ_parts,
}
use signal_gateway.RateLimiter.Limiter.{SimpleRateLimiter, simple_evaluate}

-- The time of an event that passes is noted.
noted :
    (s : SimpleRateLimiter) (ts : ℤ)
    → InI64 (ts -ℤ s.last_timestamp)
    → pos 0 ≤ℤ s.window
    → (simple_evaluate s ts).1 ≡ true
    → (simple_evaluate s ts).0 ≡ record { last_timestamp = ts; window = s.window }
unfolding simple_evaluate
noted s ts small w h = ground (
  arith,
  sub_i64_exact ts s.last_timestamp small,
  -ℤ_parts ts s.last_timestamp,
  eq_of_parts ts s.last_timestamp,
)

-- Where an event passes, the next one passes just if it is at least the window later; where an event
-- is blocked, the limiter stays as it is. (The differences of the timestamps are in the range of an
-- `i64`, and the window is not negative.)
pub simple_evaluate_spaced :
    (s : SimpleRateLimiter) (ts next : ℤ)
    → InI64 (ts -ℤ s.last_timestamp)
    → InI64 (next -ℤ ts)
    → pos 0 ≤ℤ s.window
    → ((simple_evaluate s ts).1 ≡ true
        → (simple_evaluate (simple_evaluate s ts).0 next).1 ≡ leb_ℤ s.window (next -ℤ ts))
      × ((simple_evaluate s ts).1 ≡ false → (simple_evaluate s ts).0 ≡ s)
unfolding simple_evaluate
simple_evaluate_spaced s ts next small small' w = (
  λ h.
      ap (λ t. (simple_evaluate t next).1) (noted s ts small w h)
      ∙ ground (arith, sub_i64_exact next ts small'),
  λ h. ground arith,
)
