-- ===== src/JsonIngest.antt =====
-- signal-gateway-log-ingest/src/json/mod.rs: log messages as JSON, and a TCP connection that sends
-- them. The parsers of JSON, UTF-8, numbers and times, and the clock, are parameters.
pub mod Connection
use signal_gateway.Common.{
  ℕ, zero, suc, Option, none, some, List, [], ◌∷◌, ◌++◌, ◌⊎◌, inl, inr, length,
}
use signal_gateway.Common.Decimal.{show}
use signal_gateway.Common.Int.{ℤ}
use signal_gateway.Common.Text.{Text}
use signal_gateway.JsonLines.{
  Ending, value, no_more, braces_error, brackets_error, io_error, read_json_lines_value,
}
use signal_gateway.LogMessage.{
  Level, LogMessage, LogMessageBuilder, builder, with_timestamp, with_timestamp_nanos,
  with_hostname, with_appname, with_module_path, with_file, with_line, build, parse, unwrap_or,
}
use signal_gateway.Syslog.{if_some, and_then}

-- chrono's times and the numbers of JSON with a fraction, as far as the code uses them. A string is
-- read as a whole number, as a number with a fraction, or in the form of RFC 3339.
pub record Times : Type 1 where
  pub DateTime : Type 0
  pub Float : Type 0
  pub timestamp : DateTime → ℤ
  pub timestamp_subsec_nanos : DateTime → ℕ
  pub timestamp_opt : ℤ → ℕ → Option DateTime
  pub trunc : Float → ℤ
  pub fract_nanos : Float → ℕ
  pub parse_i64 : Text → Option ℤ
  pub parse_f64 : Text → Option Float
  pub parse_from_rfc3339 : Text → Option DateTime

pub record JsonLogMessage (D : Type 0) : Type 0 where
  pub message : Text
  pub level : Option Level
  pub timestamp : Option D
  pub hostname : Option Text
  pub appname : Option Text
  pub module_path : Option Text
  pub file : Option Text
  pub line : Option Text

pub data TimestampValue (F : Type 0) : Type 0 where
  integer : ℤ → TimestampValue F
  float : F → TimestampValue F
  string : Text → TimestampValue F

pub data LineValue : Type 0 where
  line_number : ℕ → LineValue
  line_text : Text → LineValue

-- Null, and a level that is not known, are no level.
unfoldable pub deserialize_opt_level : Option Text → Option Level
deserialize_opt_level opt = and_then opt parse

unfoldable pub deserialize_line : Option LineValue → Option Text
deserialize_line none = none
deserialize_line (some (line_number n)) = some (show n)
deserialize_line (some (line_text s)) = some s

module _ (t : Times) where
  open t use {
    DateTime, Float, timestamp, timestamp_subsec_nanos, timestamp_opt, trunc, fract_nanos,
    parse_i64, parse_f64, parse_from_rfc3339,
  }

  abbrev pub of_float : Float → Option DateTime
  of_float secs = timestamp_opt (trunc secs) (fract_nanos secs)

  -- `inl` is the error of a string in none of the forms.
  abbrev pub of_rfc3339 : Option DateTime → Text ⊎ Option DateTime
  of_rfc3339 none = inl []
  of_rfc3339 (some dt) = inr (some dt)

  abbrev pub of_f64 : Option Float → Text ⊎ Option DateTime → Text ⊎ Option DateTime
  of_f64 none otherwise = otherwise
  of_f64 (some secs) otherwise = inr (of_float secs)

  abbrev pub of_i64 : Option ℤ → Text ⊎ Option DateTime → Text ⊎ Option DateTime
  of_i64 none otherwise = otherwise
  of_i64 (some secs) otherwise = inr (timestamp_opt secs 0)

  unfoldable pub deserialize_timestamp : Option (TimestampValue Float) → Text ⊎ Option DateTime
  deserialize_timestamp none = inr none
  deserialize_timestamp (some (integer secs)) = inr (timestamp_opt secs 0)
  deserialize_timestamp (some (float secs)) = inr (of_float secs)
  deserialize_timestamp (some (string s)) =
      of_i64 (parse_i64 s) (of_f64 (parse_f64 s) (of_rfc3339 (parse_from_rfc3339 s)))

  abbrev pub with_time : LogMessageBuilder → DateTime → LogMessageBuilder
  with_time b ts =
      with_timestamp_nanos (with_timestamp b (timestamp ts)) (timestamp_subsec_nanos ts)

  unfoldable pub into_log_message : JsonLogMessage DateTime → ℤ → ℕ → LogMessage
  into_log_message self now now_nanos =
      let b = builder (unwrap_or self.level Level.error) self.message in
      let b₁ = if_some self.timestamp with_time b in
      let b₂ = if_some self.hostname with_hostname b₁ in
      let b₃ = if_some self.appname with_appname b₂ in
      let b₄ = if_some self.module_path with_module_path b₃ in
      let b₅ = if_some self.file with_file b₄ in
      let b₆ = if_some self.line with_line b₅ in build b₆ now now_nanos

-- How a connection ends: the values of a stream are over, one cannot be read or is no message, or
-- the stream fails.
pub data Closing {ℓ} (E : Type ℓ) : Type ℓ where
  clean : Closing E
  invalid_data : Closing E
  broken : E → Closing E
  out_of_fuel : Closing E

module _ {ℓ} {E : Type ℓ} (t : Times) (from_utf8 : List ℕ → Option Text)
    (from_str : Text → Option (JsonLogMessage t.DateTime)) (clock : ℕ → ℤ × ℕ)
    (ending : Ending E) where
  -- The first message that is not UTF-8, or is none, ends the connection.
  abbrev pub hand_over :
      Option (JsonLogMessage t.DateTime)
      → ℕ
      → (ℕ → List LogMessage × Closing E)
      → List LogMessage × Closing E
  hand_over none n rest = ([], invalid_data)
  hand_over (some m) n rest =
      let (ms, c) = rest (suc n) in (into_log_message t m (clock n).0 (clock n).1 ∷ ms, c)

  -- The messages handed to the gateway, and how the connection ends. The fuel is above the number of
  -- bytes, of which a value takes one or more.
  unfoldable pub connection_loop : ℕ → ℕ → List ℕ → List LogMessage × Closing E
  connection_loop zero n bytes = ([], out_of_fuel)
  connection_loop (suc fuel) n bytes =
      let (outcome, rest) = read_json_lines_value ending bytes in
      elim outcome [
        | value m ↦ hand_over (and_then (from_utf8 m) from_str) n (λ k. connection_loop fuel k rest)
        | no_more ↦ ([], clean)
        | braces_error buf ↦ ([], invalid_data)
        | brackets_error buf ↦ ([], invalid_data)
        | io_error e ↦ ([], broken e)
      ]

  unfoldable pub handle_tcp_connection : List ℕ → List LogMessage × Closing E
  unfolding connection_loop
  handle_tcp_connection bytes = connection_loop (suc (length bytes)) 0 bytes
