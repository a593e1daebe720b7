-- ===== src/LimiterSet.antt =====
-- signal-gateway/src/gateway/rate_limiter_set.rs and signal-gateway/src/gateway/route.rs: the limits
-- of a route, for each origin and over all.
pub mod Outcome
mod Tests
use signal_gateway.Common.{ℕ, Bool, Option, none, some, List, [], arith}
use signal_gateway.Common.Int.{ℤ, pos, wrap_i64}
use signal_gateway.Common.Text.{Text}
use signal_gateway.ConcurrentMap.{
  ConcurrentMap, Key, empty, get, LazyMapCleaner, new_cleaner, maybe_clean,
}
use signal_gateway.LogMessage.{Level, LogMessage, Origin, get_timestamp_or_fallback, origin_eq}
use signal_gateway.LogMessage.Filter.{LogFilter}
use signal_gateway.LogMessage.Origins.{origin_eq_iff}
use signal_gateway.LimiterSequence
use signal_gateway.LimiterSequence.{Limit, LimiterSequence, from_limits}
use signal_gateway.RateLimiter.Limiter.{Duration}

pub data LimitResult : Type 0 where
  passed : LimitResult
  limiter : ℕ → LimitResult
  global_limiter : ℕ → LimitResult

abbrev pub origin_key : Key Origin
origin_key = record { eq = origin_eq; eq_iff = origin_eq_iff }

-- `make_limiters` is what the factory makes for an origin.
pub record LimiterSet : Type 0 where
  pub make_limiters : LimiterSequence
  pub limiters : ConcurrentMap Origin LimiterSequence
  pub global_limiters : LimiterSequence
  pub lazy_map_cleaner : LazyMapCleaner

unfoldable pub new : LimiterSequence → LimiterSequence → Duration → LimiterSet
new make_limiters global_limiters max_origin_age = record {
  make_limiters = make_limiters;
  limiters = empty;
  global_limiters = global_limiters;
  lazy_map_cleaner = new_cleaner (wrap_i64 (pos max_origin_age.as_secs));
}

-- The outcomes of the `try_lock`s of a call: of the origin's limiters, of the set's own cleaner, and
-- of the global limiters.
pub record Locks : Type 0 where
  pub of_origin : ℕ → Bool
  pub own : Bool
  pub of_global : ℕ → Bool

abbrev of_global_result : Option ℕ → LimitResult
of_global_result (some i) = global_limiter i
of_global_result none = passed

-- What follows on the origin's result: the check of the global limiters, where it is none.
pub then_global : Locks → LogMessage → LimiterSet → Option ℕ → LimiterSet × LimitResult
then_global locks log_msg self (some i) = (self, limiter i)
then_global locks log_msg self none =
    let (global_limiters, result) =
      LimiterSequence.evaluate locks.of_global log_msg self.global_limiters in
    (record self { global_limiters = global_limiters }, of_global_result result)

unfoldable pub evaluate : Locks → LimiterSet → LogMessage → Origin → LimiterSet × LimitResult
unfolding then_global
evaluate locks self log_msg origin =
    let (limiters, origin_result) =
      get origin_key (λ _. self.make_limiters) origin
        (LimiterSequence.evaluate locks.of_origin log_msg) self.limiters in
    let (cleaner, limiters') =
      maybe_clean LimiterSequence.ts_secs locks.own (get_timestamp_or_fallback log_msg)
        self.lazy_map_cleaner limiters in
    then_global locks log_msg (record self { limiters = limiters'; lazy_map_cleaner = cleaner })
      origin_result

pub data Destination : Type 0 where
  recipients : List Text → Destination
  group : Text → Destination

pub record Route : Type 0 where
  pub alert_level : Level
  pub filter : LogFilter
  pub destination : Option Destination
  pub limits : List Limit
  pub global_limits : List Limit

unfoldable pub default_alert_level : Level
default_alert_level = Level.error

-- `Route::default()`.
unfoldable pub default_route : Route
unfolding default_alert_level
default_route = record {
  alert_level = default_alert_level;
  filter = record {
    msg_contains = [];
    msg_equals = [];
    msg_regex = none;
    module_equals = [];
    file_equals = [];
    line_equals = [];
  };
  destination = none;
  limits = [];
  global_limits = [];
}

-- `none` is a panic, on a window that does not fit an `i64`.
unfoldable pub make_limiter_set : Route → Duration → Option LimiterSet
make_limiter_set self max_origin_age = elim (from_limits self.limits) [
  | none ↦ none
  | some limiters ↦ (elim (from_limits self.global_limits) [
    | none ↦ none
    | some global_limiters ↦ some (new limiters global_limiters max_origin_age)
  ])
]
