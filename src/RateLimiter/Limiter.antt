-- ===== src/RateLimiter/Limiter.antt =====
-- `Limiter`, `SourceLocationRateLimiter` and `SimpleRateLimiter` of
-- signal-gateway/src/rate_limiter.rs. `locked` says whether a cleaner's `try_lock` succeeds.
pub mod Location
pub mod Parse
pub mod Apart
pub mod Spaced
mod Tests
use signal_gateway.Common.{ℕ, ◌^◌, Bool, not, ◌&&◌, Option, none, some, if◌then◌else◌, ltb}
use signal_gateway.Common.Int.{ℤ, pos, ltb_ℤ, max_ℤ, wrap_i64, sub_i64}
use signal_gateway.Common.Text.{Text, codes, text_eq}
use signal_gateway.ConcurrentMap.{
  ConcurrentMap, Key, empty, get, LazyMapCleaner, new_cleaner, maybe_clean,
}
use signal_gateway.LogMessage.{LogMessage, unwrap_or, get_timestamp_or_fallback}
use signal_gateway.RateLimiter.Multi
use signal_gateway.RateLimiter.Multi.{MultiRateLimiter, get_latest}
use Location.{Place, place_key}

-- `std::time::Duration`.
pub record Duration : Type 0 where
  pub as_secs : ℕ
  pub subsec_nanos : ℕ

pub record RateThreshold : Type 0 where
  pub times : ℕ
  pub duration : Duration
  pub comparator_is_ge : Bool

-- `MultiRateLimiter::from(threshold)`.
unfoldable pub from_threshold : RateThreshold → Option MultiRateLimiter
from_threshold src = Multi.new src.times src.duration.as_secs src.comparator_is_ge

pub record SourceLocationRateLimiter : Type 0 where
  pub fresh : MultiRateLimiter
  pub limiters : ConcurrentMap Place MultiRateLimiter
  pub lazy_map_cleaner : LazyMapCleaner
  pub latest_ts_sec : ℤ

-- The factory's product is computed at once: where the code panics at the first event, for a window
-- of 2^63 seconds or more, the model gives `none` here.
unfoldable pub source_location_new : RateThreshold → Option SourceLocationRateLimiter
source_location_new threshold = elim (from_threshold threshold) [
  | none ↦ none
  | some fresh ↦ some (record {
    fresh = fresh;
    limiters = empty;
    lazy_map_cleaner = new_cleaner (wrap_i64 (pos threshold.duration.as_secs));
    latest_ts_sec = pos 0;
  })
]

unfoldable pub source_location_evaluate :
    Bool → SourceLocationRateLimiter → Text → Text → ℤ → SourceLocationRateLimiter × Bool
source_location_evaluate locked self file line ts_sec =
    let (limiters, result) =
      get place_key (λ _. self.fresh) (file, line) (λ limiter. Multi.evaluate limiter ts_sec)
        self.limiters in
    let (cleaner, limiters') =
      maybe_clean get_latest locked ts_sec self.lazy_map_cleaner limiters in
    (
      record self {
        limiters = limiters';
        lazy_map_cleaner = cleaner;
        latest_ts_sec = max_ℤ self.latest_ts_sec ts_sec;
      },
      result,
    )

pub data Limiter : Type 0 where
  multi : MultiRateLimiter → Limiter
  source_location : SourceLocationRateLimiter → Limiter

-- `Limiter::evaluate`: true lets the event pass.
unfoldable pub evaluate : Bool → Limiter → LogMessage → Limiter × Bool
evaluate locked (multi limiter) log_msg =
    let (limiter', passes) = Multi.evaluate limiter (get_timestamp_or_fallback log_msg) in
    (multi limiter', passes)
evaluate locked (source_location limiter) log_msg =
    let file = unwrap_or log_msg.file (codes "?") in
    let line = unwrap_or log_msg.line (codes "?") in
    let (limiter', passes) =
      source_location_evaluate locked limiter file line (get_timestamp_or_fallback log_msg) in
    (source_location limiter', passes)

unfoldable pub ts_secs : Limiter → ℤ
ts_secs (multi m) = get_latest m
ts_secs (source_location s) = s.latest_ts_sec

pub record SimpleRateLimiter : Type 0 where
  pub last_timestamp : ℤ
  pub window : ℤ

unfoldable pub simple_new : Duration → Option SimpleRateLimiter
simple_new window =
    if ltb window.as_secs (2 ^ 63)
    then some (record { last_timestamp = pos 0; window = pos window.as_secs })
    else none

unfoldable pub simple_evaluate : SimpleRateLimiter → ℤ → SimpleRateLimiter × Bool
simple_evaluate self ts_sec =
    let last_ts = self.last_timestamp in
    let rate_limited = ltb_ℤ (sub_i64 ts_sec last_ts) self.window in
    (
      record self {
        last_timestamp =
            if not rate_limited && ltb_ℤ last_ts ts_sec
            then max_ℤ self.last_timestamp ts_sec
            else self.last_timestamp;
      },
      not rate_limited,
    )
