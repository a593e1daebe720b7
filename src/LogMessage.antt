-- ===== src/LogMessage.antt =====
-- signal-gateway/src/log_message.rs: severity levels, log messages and their builder, origins.
pub mod Filter
pub mod Levels
pub mod Origins
mod Tests
use signal_gateway.Common.{
  ℕ, Bool, ◌&&◌, ◌||◌, Option, none, some, ◌++◌, ◌∷◌, List, map, arith, if◌then◌else◌, leb, ltb,
  ◌-◌,
}
use signal_gateway.Common.Int.{ℤ}
use signal_gateway.Common.Text.{Text, codes, text_eq, contains, split_once}

pub data Level : Type 0 where
  emergency alert critical error warning notice info debug trace : Level

-- The discriminant, by which the derived order compares.
abbrev pub rank : Level → ℕ
rank Level.emergency = 0
rank Level.alert = 1
rank Level.critical = 2
rank Level.error = 3
rank Level.warning = 4
rank Level.notice = 5
rank Level.info = 6
rank Level.debug = 7
rank Level.trace = 8

unfoldable pub to_str : Level → Text
to_str Level.emergency = codes "EMERG"
to_str Level.alert = codes "ALERT"
to_str Level.critical = codes "CRIT"
to_str Level.error = codes "ERROR"
to_str Level.warning = codes "WARN"
to_str Level.notice = codes "NOTE"
to_str Level.info = codes "INFO"
to_str Level.debug = codes "DEBUG"
to_str Level.trace = codes "TRACE"

-- `to_ascii_uppercase` of one character.
unfoldable pub to_upper : ℕ → ℕ
to_upper c = if leb b'a' c && leb c b'z' then c - 32 else c

-- The `match` on the text in capitals.
pub of_upper : Text → Option Level
of_upper s =
    if text_eq s (codes "EMERGENCY") || text_eq s (codes "EMERG")
    then some Level.emergency
    else if text_eq s (codes "ALERT")
    then some Level.alert
    else if text_eq s (codes "CRITICAL") || (text_eq s (codes "CRIT") || text_eq s (codes "FATAL"))
    then some Level.critical
    else if text_eq s (codes "ERROR") || text_eq s (codes "ERR")
    then some Level.error
    else if text_eq s (codes "WARNING") || text_eq s (codes "WARN")
    then some Level.warning
    else if text_eq s (codes "NOTICE") || text_eq s (codes "NOTE")
    then some Level.notice
    else if text_eq s (codes "INFO") || text_eq s (codes "INFORMATION")
    then some Level.info
    else if text_eq s (codes "DEBUG")
    then some Level.debug
    else if text_eq s (codes "TRACE")
    then some Level.trace
    else none

unfoldable pub parse : Text → Option Level
unfolding of_upper
parse s = of_upper (map to_upper s)

pub record LogMessage : Type 0 where
  pub level : Level
  pub timestamp : Option ℤ
  pub timestamp_nanos : ℕ
  pub collected_at_timestamp : ℤ
  pub collected_at_timestamp_nanos : ℕ
  pub hostname : Option Text
  pub appname : Option Text
  pub msg : Text
  pub module_path : Option Text
  pub file : Option Text
  pub line : Option Text

abbrev pub unwrap_or {ℓ} : {A : Type ℓ} → Option A → A → A
unwrap_or none d = d
unwrap_or (some a) d = a

unfoldable pub get_timestamp_or_fallback : LogMessage → ℤ
get_timestamp_or_fallback self = unwrap_or self.timestamp self.collected_at_timestamp

pub record LogMessageBuilder : Type 0 where
  pub level : Level
  pub msg : Text
  pub timestamp : Option ℤ
  pub timestamp_nanos : ℕ
  pub hostname : Option Text
  pub appname : Option Text
  pub module_path : Option Text
  pub file : Option Text
  pub line : Option Text

unfoldable pub builder : Level → Text → LogMessageBuilder
builder level msg = record {
  level = level;
  msg = msg;
  timestamp = none;
  timestamp_nanos = 0;
  hostname = none;
  appname = none;
  module_path = none;
  file = none;
  line = none;
}

-- The builder's setters, with what they set last.
unfoldable pub with_timestamp : LogMessageBuilder → ℤ → LogMessageBuilder
with_timestamp self ts = record self { timestamp = some ts }

unfoldable pub with_timestamp_nanos : LogMessageBuilder → ℕ → LogMessageBuilder
with_timestamp_nanos self nanos = record self { timestamp_nanos = nanos }

unfoldable pub with_hostname : LogMessageBuilder → Text → LogMessageBuilder
with_hostname self text = record self { hostname = some text }

unfoldable pub with_appname : LogMessageBuilder → Text → LogMessageBuilder
with_appname self text = record self { appname = some text }

unfoldable pub with_module_path : LogMessageBuilder → Text → LogMessageBuilder
with_module_path self text = record self { module_path = some text }

unfoldable pub with_file : LogMessageBuilder → Text → LogMessageBuilder
with_file self text = record self { file = some text }

unfoldable pub with_line : LogMessageBuilder → Text → LogMessageBuilder
with_line self text = record self { line = some text }

-- The clock's seconds and nanoseconds are arguments.
unfoldable pub build : LogMessageBuilder → ℤ → ℕ → LogMessage
build self now now_nanos = record {
  level = self.level;
  timestamp = self.timestamp;
  timestamp_nanos = self.timestamp_nanos;
  collected_at_timestamp = now;
  collected_at_timestamp_nanos = now_nanos;
  hostname = self.hostname;
  appname = self.appname;
  msg = self.msg;
  module_path = self.module_path;
  file = self.file;
  line = self.line;
}

pub record Origin : Type 0 where
  pub app : Text
  pub host : Text

-- `Origin::from(&log_msg)`.
unfoldable pub origin_of : LogMessage → Origin
origin_of msg = record {
  app = unwrap_or msg.appname (codes "");
  host = unwrap_or msg.hostname (codes "");
}

unfoldable pub display_origin : Origin → Text
display_origin self = self.app ++ b'@' ∷ self.host

unfoldable pub matches_filter : Origin → Text → Bool
matches_filter self filter = elim (split_once b'@' filter) [
  | some (app_filter, host_filter) ↦ contains app_filter self.app && contains host_filter self.host
  | none ↦ contains filter self.app || contains filter self.host
]

-- The derived `==`.
unfoldable pub origin_eq : Origin → Origin → Bool
origin_eq a b = text_eq a.app b.app && text_eq a.host b.host
