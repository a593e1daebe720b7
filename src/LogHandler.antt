-- ===== src/LogHandler.antt =====
-- signal-gateway/src/gateway/log_buffer.rs and signal-gateway/src/gateway/log_handler.rs: the recent
-- messages of each origin, and which message becomes an alert.
pub mod Buffer
pub mod Checks
pub mod Handle
pub mod Alerts
pub mod Wipe
pub mod Logs
mod Tests
use signal_gateway.Common.{
  ℕ, zero, suc, ◌+◌, ◌<◌, Bool, true, false, not, ◌&&◌, ◌||◌, Option, none, some, List, [], ◌∷◌,
  ◌++◌, if◌then◌else◌, ltb, ◌==◌, length, reverse, arith,
}
use signal_gateway.Common.Int.{ℤ, pos, wrap_i64}
use signal_gateway.Common.Text.{Text}
use signal_gateway.CircularBuffer
use signal_gateway.CircularBuffer.{CircularBuffer}
use signal_gateway.ConcurrentMap.{
  ConcurrentMap, empty, get, LazyMapCleaner, new_cleaner, maybe_clean,
}
use signal_gateway.LimiterSequence
use signal_gateway.LimiterSequence.{Limit, LimiterSequence, from_limits}
use signal_gateway.LimiterSet
use signal_gateway.LimiterSet.{
  LimiterSet, LimitResult, passed, Locks, Route, Destination, origin_key, make_limiter_set,
}
use signal_gateway.LogFormat.{Chrono, LogFormatConfig, write_log_msg}
use signal_gateway.LogMessage.{
  Level, rank, LogMessage, Origin, origin_of, get_timestamp_or_fallback,
}
use signal_gateway.LogMessage.Filter.{matches}
use signal_gateway.RateLimiter.Limiter.{Duration}
use Buffer.{LogBuffer, push_back, push_back_and_drain, buffer_ts_secs}

pub data SuppressionReason : Type 0 where
  no_routes : SuppressionReason
  routes_failed : List (ℕ × LimitResult) → SuppressionReason
  overall_limiter : ℕ → SuppressionReason

pub data Verdict : Type 0 where
  alert_to : Option Destination → Verdict
  suppressed : SuppressionReason → Verdict

-- `next_buffer` is what the factory of `log_buffers` makes.
pub record LogHandler : Type 0 where
  pub log_format : LogFormatConfig
  pub debug_suppressions : ℕ
  pub next_buffer : LogBuffer
  pub log_buffers : ConcurrentMap Origin LogBuffer
  pub lazy_map_cleaner : LazyMapCleaner
  pub routes : List (Route × LimiterSet)
  pub overall_limits : LimiterSequence

-- What the loop over the routes has gathered: the failures, and the destination of the first route
-- that passed.
pub record Gathered : Type 0 where
  pub route_failures : List (ℕ × LimitResult)
  pub first_passed : Option (Option Destination)

-- Does the route look at the message at all?
abbrev pub applies : Route → LogMessage → Bool
applies route log_msg =
    not (ltb (rank route.alert_level) (rank log_msg.level)) && matches route.filter log_msg

pub record_result : ℕ → Route → LimitResult → Gathered → Gathered
record_result idx route passed g = elim g.first_passed [
  | none ↦ record g { first_passed = some route.destination }
  | some d ↦ g
]
record_result idx route (LimitResult.limiter i) g = record g {
  route_failures = g.route_failures ++ (idx, LimitResult.limiter i) ∷ [];
}
record_result idx route (LimitResult.global_limiter i) g = record g {
  route_failures = g.route_failures ++ (idx, LimitResult.global_limiter i) ∷ [];
}

-- One route's turn.
unfoldable pub route_turn :
    Locks → LogMessage → Origin → Route × LimiterSet → (Route × LimiterSet) × Option LimitResult
route_turn locks log_msg origin (route, limiter_set) =
    if applies route log_msg
    then (let (limiter_set', result) = LimiterSet.evaluate locks limiter_set log_msg origin in
        ((route, limiter_set'), some result))
    else ((route, limiter_set), none)

abbrev pub gather : ℕ → Route → Option LimitResult → Gathered → Gathered
gather idx route none g = g
gather idx route (some result) g = record_result idx route result g

-- The loop over the routes from index `idx` on; `locks idx` are the lock outcomes of that route.
pub check_routes :
    (ℕ → Locks)
    → LogMessage
    → Origin
    → ℕ
    → Gathered
    → List (Route × LimiterSet)
    → List (Route × LimiterSet) × Gathered
check_routes locks log_msg origin idx g [] = ([], g)
check_routes locks log_msg origin idx g (r ∷ rs) =
    let (r', result) = route_turn (locks idx) log_msg origin r in
    let (rs', g') = check_routes locks log_msg origin (idx + 1) (gather idx r.0 result g) rs in
    (r' ∷ rs', g')

-- What follows on the loop: the overall limits have their turn only where a route passed.
pub conclude : (ℕ → Bool) → LogMessage → LimiterSequence → Gathered → LimiterSequence × Verdict
conclude locked log_msg overall g = elim g.first_passed [
  | none ↦ (
    overall,
    suppressed (elim g.route_failures [ [] ↦ no_routes | f ∷ fs ↦ routes_failed (f ∷ fs) ]),
  )
  | some destination ↦
      (let (overall', result) = LimiterSequence.evaluate locked log_msg overall in
        (
          overall',
          (elim result [ none ↦ alert_to destination | some i ↦ suppressed (overall_limiter i) ]),
        ))
]

abbrev pub nothing_gathered : Gathered
nothing_gathered = record { route_failures = []; first_passed = none }

unfoldable pub check_rate_limiters :
    (ℕ → Locks) → (ℕ → Bool) → LogHandler → LogMessage → Origin → LogHandler × Verdict
unfolding check_routes conclude
check_rate_limiters locks overall_locked self log_msg origin =
    let (routes, g) = check_routes locks log_msg origin 0 nothing_gathered self.routes in
    let (overall, verdict) = conclude overall_locked log_msg self.overall_limits g in
    (record self { routes = routes; overall_limits = overall }, verdict)
