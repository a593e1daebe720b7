-- ===== src/LogHandler/Tests.antt =====
-- One message through a handler with one route, and instances of the theorems.
use signal_gateway.Common.{
  ◌≢◌, ℕ, ◌≡◌, refl, sym, ap, ◌∙◌, ◌*◌, ◌+◌, true, false, none, some, [], ◌∷◌, if◌then◌else◌, arith,
}
use signal_gateway.Common.Int.{pos, ◌-ℤ◌, ◌+ℤ◌, ◌≤ℤ◌, pos_part, add_i64, wrap_i64}
use signal_gateway.CircularBuffer
use signal_gateway.ConcurrentMap.{keep, ConcurrentMap, find, get, get_or_insert_with, len, is_due}
use signal_gateway.ConcurrentMap.Laws.{IsValid}
use signal_gateway.Common.Text.{codes, split_once, contains, starts_with, strip_prefix}
use signal_gateway.LimiterSet
use signal_gateway.LimiterSet.{Locks, Route, origin_key}
use signal_gateway.LimiterSequence.First
use signal_gateway.LimiterSequence.First.{first_true, blocks}
use signal_gateway.LimiterSequence.Tests.{message, limits, all_locked, any_message}
use signal_gateway.LogFormat.{Chrono}
use signal_gateway.LogMessage.{
  Level, get_timestamp_or_fallback, Origin, origin_of, origin_eq, matches_filter,
}
use signal_gateway.LogHandler.{LogHandler, check_rate_limiters}
use signal_gateway.LogHandler.Buffer.{LogBuffer, push_back, buffer_ts_secs}
use signal_gateway.LogHandler.Handle.{access_buffer, handle_log_message}
use signal_gateway.LogHandler.Checks.{
  answers, first_passed, failures, verdict_of, turned, overall_after, check_rate_limiters_lem,
}
use signal_gateway.LogHandler.Alerts.{
  buffer_at, verdict, alert_expected, buffer_expected, visited, handle_alert, handle_buffers,
}
use signal_gateway.LogHandler.Wipe.{handle_wipes}

-- A clock that counts seconds.
abbrev seconds_clock : Chrono
seconds_clock = record {
  DateTime = ℕ;
  from_timestamp = λ s n. some (pos_part s);
  since = λ a b. record { num_seconds = pos a -ℤ pos b; subsec_nanos = pos 0 };
  timestamp_millis = λ a. pos (1000 * a + 0);
}

abbrev locks : ℕ → Locks
locks i = record { of_origin = all_locked; own = true; of_global = all_locked }

abbrev route : Route
route = record {
  alert_level = Level.error;
  filter = any_message;
  destination = none;
  limits = [];
  global_limits = [];
}

abbrev next_buffer : LogBuffer
next_buffer = record { buf = []; capacity = 16 }

abbrev handler : LogHandler
handler = record {
  log_format = record { format_module = false; format_source_location = false };
  debug_suppressions = 0;
  next_buffer = next_buffer;
  log_buffers = record { inner = []; len_cache = 0 };
  lazy_map_cleaner = record {
    max_age = pos 86400;
    min_checkup_period = pos 3600;
    state = record { last_cleanup_size = 0; last_checkup = pos 0 };
  };
  routes = (route, LimiterSet.new [] [] (record { as_secs = 86400; subsec_nanos = 0 })) ∷ [];
  overall_limits = limits;
}

check_rate_limiters_lem_example :
    let answered = answers locks message (origin_of message) 0 handler.routes in
    let (h', verdict) = check_rate_limiters locks all_locked handler message (origin_of message) in
    (verdict
      ≡ verdict_of
          (first_passed answered)
          (failures 0 answered)
          (first_true (blocks all_locked message 0 handler.overall_limits)))
    × (h'.routes ≡ turned locks message (origin_of message) 0 handler.routes)
    × (h'.overall_limits
        ≡ overall_after
            (first_passed answered)
            handler.overall_limits
            (First.turned all_locked message 0 handler.overall_limits))
    × (h'.log_buffers ≡ handler.log_buffers)
check_rate_limiters_lem_example =
    check_rate_limiters_lem locks all_locked handler message (origin_of message)

handle_alert_example :
    (handle_log_message seconds_clock locks all_locked false 1002 handler message).1
    ≡ alert_expected seconds_clock locks all_locked false 1002 handler message
        (verdict seconds_clock locks all_locked false 1002 handler message)
handle_alert_example = handle_alert seconds_clock locks all_locked false 1002 handler message

abbrev origin : Origin
origin = origin_of message

handle_buffers_example :
    buffer_at
      (handle_log_message seconds_clock locks all_locked false 1002 handler message).0
      origin
    ≡ (if origin_eq origin origin
        then buffer_expected seconds_clock locks all_locked false 1002 handler message
            (verdict seconds_clock locks all_locked false 1002 handler message)
        else buffer_at handler origin)
handle_buffers_example =
    handle_buffers seconds_clock locks all_locked false 1002 handler message
      (λ (e : false ≡ true). cc) origin

abbrev now : ℕ
now = 2000000

-- One with no routes, so that every message only goes into its buffer.
abbrev quiet : LogHandler
quiet = record handler { routes = []; overall_limits = [] }

abbrev before_cleanup : ConcurrentMap Origin LogBuffer
before_cleanup = visited seconds_clock locks all_locked true now quiet message

-- The message's origin is the only one.
one_buffer :
    before_cleanup.inner
    ≡ (
      record { app = codes "db"; host = codes "web-1" },
      record { buf = message ∷ []; capacity = 16 },
    )
      ∷ []
unfolding get get_or_insert_with access_buffer check_rate_limiters push_back
    CircularBuffer.push_back origin_of
one_buffer = refl

none_in_future :
    (o : Origin) (v : LogBuffer)
    → find origin_key o before_cleanup.inner ≡ some v
    → buffer_ts_secs v ≤ℤ pos now
unfolding find buffer_ts_secs CircularBuffer.back get_timestamp_or_fallback
none_in_future o v e =
    let found : find origin_key o (
          (
            record { app = codes "db"; host = codes "web-1" },
            record { buf = message ∷ []; capacity = 16 },
          )
          ∷ [])
        ≡ some v =
      ap (find origin_key o) (sym one_buffer) ∙ e in
    ground arith

cleanup_due : is_due quiet.lazy_map_cleaner (pos (1000 * now + 0)) (len before_cleanup) ≡ true
unfolding is_due len get add_i64 wrap_i64 ◌+ℤ◌
cleanup_due = refl

quiet-IsValid : IsValid quiet.log_buffers
quiet-IsValid = record { cached = refl; distinct = tt }

handle_wipes_example :
    find origin_key origin
      (handle_log_message seconds_clock locks all_locked true now quiet message).0.log_buffers.inner
    ≡ none
handle_wipes_example =
    handle_wipes seconds_clock locks all_locked now quiet message now 0 86400 refl (omega arith)
      (omega arith) refl (omega arith) quiet-IsValid none_in_future cleanup_due origin

abbrev db_on_web : Origin
db_on_web = record { app = codes "db"; host = codes "web-1" }

abbrev filled_handler : LogHandler
filled_handler = record quiet {
  log_buffers = record {
    inner =
        (db_on_web, next_buffer)
        ∷ (record { app = codes "api"; host = codes "web-2" }, next_buffer)
        ∷ [];
    len_cache = 2;
  };
}

db_matches : keep (λ o b. matches_filter o (codes "db")) filled_handler.log_buffers.inner ≢ []
unfolding keep matches_filter split_once contains starts_with strip_prefix
db_matches e = cc
