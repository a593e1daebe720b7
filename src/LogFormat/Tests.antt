-- ===== src/LogFormat/Tests.antt =====
-- Durations as they are written, and instances of the theorems.
use signal_gateway.Common.{ℕ, ◌≡◌, refl, ◌≤◌, ◌+◌, ◌*◌, ◌/◌, ◌++◌, none, some, false, length, arith}
use signal_gateway.Common.Int.{pos, pos_part, ◌-ℤ◌}
use signal_gateway.Common.Text.{Text, codes}
use signal_gateway.Common.Decimal.{show, ilog10}
use signal_gateway.LogFormat.{
  TimeDelta, write_t_minus, as_u32, digit_count, Chrono, LogFormatConfig, spaces, write_log_msg,
}
use signal_gateway.LogMessage.{Level, LogMessage, to_str}
use signal_gateway.LogFormat.Future.{write_log_msg_future}

abbrev five_minutes : TimeDelta
five_minutes = record { num_seconds = pos 305; subsec_nanos = pos 250000000 }

five_minutes_written : write_t_minus five_minutes 8 ≡ codes "T-5m5.2s"
unfolding write_t_minus as_u32 show ilog10 digit_count
five_minutes_written = refl

-- A clock of nanoseconds, whose differences are less than a second.
abbrev nanos_clock : Chrono
nanos_clock = record {
  DateTime = ℕ;
  from_timestamp = λ s n. some (1000000000 * pos_part s + n);
  since = λ a b. record { num_seconds = pos 0; subsec_nanos = pos a -ℤ pos b };
  timestamp_millis = λ a. pos (a / 1000000);
}

abbrev tenth_ahead : LogMessage
tenth_ahead = record {
  level = Level.error;
  timestamp = some (pos 1);
  timestamp_nanos = 100000000;
  collected_at_timestamp = pos 1;
  collected_at_timestamp_nanos = 0;
  hostname = none;
  appname = none;
  msg = codes "disk full";
  module_path = none;
  file = none;
  line = none;
}

abbrev plain : LogFormatConfig
plain = record { format_module = false; format_source_location = false }

-- A message stamped a tenth of a second after the clock's time.
write_log_msg_future_example :
    (ms : ℕ) × (rest : Text) × (write_log_msg nanos_clock plain tenth_ahead 1000000000
      ≡ to_str tenth_ahead.level
        ++ spaces (length (to_str tenth_ahead.level)) 5
        ++ codes " "
        ++ (codes "T-" ++ show ms ++ codes "ms")
        ++ rest)
    × (3294 ≤ ms)
    × (ms ≤ 4294)
unfolding ◌-ℤ◌
write_log_msg_future_example =
    write_log_msg_future nanos_clock plain tenth_ahead 1000000000 1100000000 (pos 1) 99999999 refl
      refl refl (omega arith)
