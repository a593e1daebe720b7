-- ===== src/RateLimiter/Multi.antt =====
-- `MultiRateLimiter` of signal-gateway/src/rate_limiter.rs. A method returns the new state beside its
-- result; the mutex and the atomic make each call one step.
pub mod Rate
pub mod Few
mod Tests
use signal_gateway.Common.{ℕ, ◌^◌, Bool, not, Option, none, some, ltb, if◌then◌else◌}
use signal_gateway.Common.Int.{ℤ, pos, leb_ℤ, max_ℤ, add_i64}
use signal_gateway.RateLimiter.Ring
use signal_gateway.RateLimiter.Ring.{Inner, insert_and_pop}

pub record MultiRateLimiter : Type 0 where
  pub inner : Inner
  pub window : ℤ
  pub comparator_is_ge : Bool
  pub latest : ℤ

-- `none` is the panic where the window's seconds do not fit an `i64`.
unfoldable pub new : ℕ → ℕ → Bool → Option MultiRateLimiter
new num window_secs comparator_is_ge =
    if ltb window_secs (2 ^ 63)
    then some (record {
      inner = Ring.new num;
      window = pos window_secs;
      comparator_is_ge = comparator_is_ge;
      latest = pos 0;
    })
    else none

unfoldable pub get_latest : MultiRateLimiter → ℤ
get_latest self = self.latest

unfoldable pub evaluate : MultiRateLimiter → ℤ → MultiRateLimiter × Bool
evaluate self new_timestamp =
    let (inner, (earliest, latest)) = insert_and_pop self.inner new_timestamp in
    let threshold_met = leb_ℤ latest (add_i64 earliest self.window) in
    (
      record self { inner = inner; latest = max_ℤ self.latest latest },
      (if self.comparator_is_ge then threshold_met else not threshold_met),
    )
