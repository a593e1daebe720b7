-- ===== src/LimiterSequence/Tests.antt =====
-- Two limiters on one message, and an instance of the theorem.
use signal_gateway.Common.{ℕ, ◌≡◌, refl, Bool, true, false, none, some, [], ◌∷◌}
use signal_gateway.Common.Int.{pos, add_i64, wrap_i64, ◌+ℤ◌}
use signal_gateway.Common.Text.{codes}
use signal_gateway.LogMessage.{Level, LogMessage, get_timestamp_or_fallback}
use signal_gateway.LogMessage.Filter.{LogFilter, matches}
use signal_gateway.LimiterSequence.{LimiterSequence, turn, evaluate}
use signal_gateway.LimiterSequence.First.{turned, blocks, first_true, sequence_evaluate_lem}
use signal_gateway.RateLimiter.Limiter
use signal_gateway.RateLimiter.Limiter.{multi}
use signal_gateway.RateLimiter.Multi
use signal_gateway.RateLimiter.Ring
use signal_gateway.RateLimiter.Ring.{insert_and_pop}
use signal_gateway.RateLimiter.Multi.Rate.{fresh}

abbrev pub any_message : LogFilter
any_message = record {
  msg_contains = [];
  msg_equals = [];
  msg_regex = none;
  module_equals = [];
  file_equals = [];
  line_equals = [];
}

abbrev pub message : LogMessage
message = record {
  level = Level.error;
  timestamp = some (pos 1000);
  timestamp_nanos = 0;
  collected_at_timestamp = pos 1001;
  collected_at_timestamp_nanos = 0;
  hostname = some (codes "web-1");
  appname = some (codes "db");
  msg = codes "the disk is full";
  module_path = none;
  file = none;
  line = none;
}

-- One that lets the first message pass, and one that does not.
abbrev pub limits : LimiterSequence
limits = (any_message, multi (fresh 1 10 false)) ∷ (any_message, multi (fresh 1 10 true)) ∷ []

abbrev pub all_locked : ℕ → Bool
all_locked i = true

second_blocks : (evaluate all_locked message limits).1 ≡ some 1
unfolding evaluate turn matches Limiter.evaluate Multi.evaluate insert_and_pop Ring.new
    get_timestamp_or_fallback add_i64 wrap_i64 ◌+ℤ◌
second_blocks = refl

sequence_evaluate_lem_example :
    evaluate all_locked message limits
    ≡ (turned all_locked message 0 limits, first_true (blocks all_locked message 0 limits))
sequence_evaluate_lem_example = sequence_evaluate_lem all_locked message limits
