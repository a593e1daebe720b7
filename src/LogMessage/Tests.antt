-- ===== src/LogMessage/Tests.antt =====
-- A log message and a filter, and instances of the theorems.
use signal_gateway.Common.{◌≡◌, refl, ◌↔◌, true, none, []}
use signal_gateway.Common.Int.{pos}
use signal_gateway.Common.Text.{codes, contains, starts_with, strip_prefix}
use signal_gateway.LogMessage.{Level, LogMessage, Origin}
use signal_gateway.LogMessage.Filter.{LogFilter, matches, Meets, matches_iff}

abbrev filter : LogFilter
filter = record {
  msg_contains = codes "disk";
  msg_equals = [];
  msg_regex = none;
  module_equals = [];
  file_equals = [];
  line_equals = [];
}

abbrev message : LogMessage
message = record {
  level = Level.error;
  timestamp = none;
  timestamp_nanos = 0;
  collected_at_timestamp = pos 1000;
  collected_at_timestamp_nanos = 0;
  hostname = none;
  appname = none;
  msg = codes "the disk is full";
  module_path = none;
  file = none;
  line = none;
}

message-matches : matches filter message ≡ true
unfolding matches contains starts_with strip_prefix
message-matches = refl

matches_iff_example : (matches filter message ≡ true) ↔ Meets filter message
matches_iff_example = matches_iff filter message

abbrev db_on_web : Origin
db_on_web = record { app = codes "db"; host = codes "web-1" }
