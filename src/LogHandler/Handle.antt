-- ===== src/LogHandler/Handle.antt =====
-- `LogHandler::new`, `handle_log_message` and `format_logs`.
use signal_gateway.Common.{
  ℕ, Bool, true, false, Option, none, some, List, [], ◌∷◌, ◌++◌, if◌then◌else◌, ltb,
}
use signal_gateway.Common.Int.{pos, wrap_i64}
use signal_gateway.Common.Text.{Text, utf8_len}
use signal_gateway.ConcurrentMap.{empty, get, new_cleaner, maybe_clean}
use signal_gateway.LimiterSequence.{Limit, from_limits}
use signal_gateway.LimiterSet.{LimiterSet, Locks, Route, Destination, origin_key, make_limiter_set}
use signal_gateway.LogFormat.{Chrono, LogFormatConfig, write_log_msg}
use signal_gateway.LogMessage.{LogMessage, Origin, origin_of}
use signal_gateway.RateLimiter.Limiter.{Duration}
use signal_gateway.LogHandler.{
  LogHandler, SuppressionReason, no_routes, routes_failed, overall_limiter, Verdict, alert_to,
  suppressed, check_rate_limiters,
}
use signal_gateway.LogHandler.Buffer.{
  LogBuffer, new_buffer, push_back, push_back_and_drain, buffer_ts_secs,
}

pub record LogHandlerConfig : Type 0 where
  pub log_buffer_size : ℕ
  pub max_origin_age : Duration
  pub debug_suppressions : ℕ
  pub log_format : LogFormatConfig
  pub routes : List Route
  pub overall_limits : List Limit

pub make_routes : Duration → List Route → Option (List (Route × LimiterSet))
make_routes max_age [] = some []
make_routes max_age (r ∷ rs) = elim (make_limiter_set r max_age) [
  | none ↦ none
  | some set ↦ (elim (make_routes max_age rs) [ none ↦ none | some sets ↦ some ((r, set) ∷ sets) ])
]

-- `none` is a panic: on a buffer of no message (the factory's, at the first message; here at once),
-- or on a window that does not fit an `i64`.
unfoldable pub new : LogHandlerConfig → Option LogHandler
unfolding make_routes
new config = elim (make_routes config.max_origin_age config.routes) [
  | none ↦ none
  | some routes ↦ (elim (from_limits config.overall_limits) [
    | none ↦ none
    | some overall ↦ (elim (new_buffer config.log_buffer_size) [
      | none ↦ none
      | some buffer ↦ some (record {
        log_format = config.log_format;
        debug_suppressions = config.debug_suppressions;
        next_buffer = buffer;
        log_buffers = empty;
        lazy_map_cleaner = new_cleaner (wrap_i64 (pos config.max_origin_age.as_secs));
        routes = routes;
        overall_limits = overall;
      })
    ])
  ])
]

-- Is a suppression logged?
unfoldable pub should_log : ℕ → SuppressionReason → Bool
should_log level no_routes = ltb 2 level
should_log level (routes_failed failures) = ltb 1 level
should_log level (overall_limiter i) = ltb 0 level

-- `SignalAlertMessage`, with the length of its `Summary::Prefix`.
pub record Alert : Type 0 where
  pub origin : Option Origin
  pub text : Text
  pub attachment_paths : List Text
  pub summary_prefix : ℕ
  pub destination_override : Option Destination

module _ (c : Chrono) where
  open c use {DateTime, timestamp_millis}

  -- The text so far, the length of its first message, and whether the next message is the first.
  unfoldable pub drain_step :
      LogFormatConfig → DateTime → Text × ℕ × Bool → LogMessage → Text × ℕ × Bool
  drain_step log_format now (text, first_msg_len, is_first) log_msg =
      let text' = text ++ write_log_msg c log_format log_msg now in
      (text', (if is_first then utf8_len text' else first_msg_len), false)

  -- What happens to the origin's buffer.
  unfoldable pub access_buffer :
      LogFormatConfig → DateTime → LogMessage → Verdict → LogBuffer → LogBuffer × Option (Text × ℕ)
  access_buffer log_format now log_msg (suppressed reason) buffer = (push_back buffer log_msg, none)
  access_buffer log_format now log_msg (alert_to destination) buffer =
      let (buffer', (text, first_msg_len, is_first)) =
        push_back_and_drain buffer log_msg (drain_step log_format now) ([], 0, true) in
      (buffer', some (text, first_msg_len))

  unfoldable pub alert_of : Origin → Verdict → Option (Text × ℕ) → Option Alert
  alert_of origin (suppressed reason) formatted = none
  alert_of origin (alert_to destination) none = none
  alert_of origin (alert_to destination) (some (text, first_msg_len)) = some (record {
    origin = some origin;
    text = text;
    attachment_paths = [];
    summary_prefix = first_msg_len;
    destination_override = destination;
  })

  -- The new state, and the alert put into the queue, if any (a closed queue is only logged).
  unfoldable pub handle_log_message :
      (ℕ → Locks)
      → (ℕ → Bool)
      → Bool
      → DateTime
      → LogHandler
      → LogMessage
      → LogHandler × Option Alert
  unfolding access_buffer alert_of drain_step
  handle_log_message locks overall_locked locked now self log_msg =
      let origin = origin_of log_msg in
      let (self', verdict) = check_rate_limiters locks overall_locked self log_msg origin in
      let (buffers, formatted) =
        get origin_key (λ _. self'.next_buffer) origin
          (access_buffer self'.log_format now log_msg verdict) self'.log_buffers in
      let (cleaner, buffers') =
        maybe_clean buffer_ts_secs locked (timestamp_millis now) self'.lazy_map_cleaner buffers in
      (
        record self' { log_buffers = buffers'; lazy_map_cleaner = cleaner },
        alert_of origin verdict formatted,
      )
