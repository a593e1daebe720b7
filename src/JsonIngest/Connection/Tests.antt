-- ===== src/JsonIngest/Connection/Tests.antt =====
-- A connection, and an instance of the theorem. A message of the tests is a value's text whole.
use signal_gateway.Common.{ℕ, ◌≡◌, refl, Option, none, some, List, [], ◌∷◌, ◌++◌, map, arith}
use signal_gateway.Common.Int.{ℤ, pos}
use signal_gateway.Common.Text.{Text, codes}
use signal_gateway.JsonLines.{read_json_lines_value, read}
use signal_gateway.JsonLines.Frames.{Items, end, plain, braces, print, ended}
use signal_gateway.JsonIngest.{Times, JsonLogMessage, clean, handle_tcp_connection}
use signal_gateway.JsonIngest.Connection.{print_lines, delivered, handle_tcp_connection-print_lines}

abbrev seconds : Times
seconds = record {
  DateTime = ℤ;
  Float = ℤ;
  timestamp = λ d. d;
  timestamp_subsec_nanos = λ d. 0;
  timestamp_opt = λ s n. some s;
  trunc = λ f. f;
  fract_nanos = λ f. 0;
  parse_i64 = λ s. none;
  parse_f64 = λ s. none;
  parse_from_rfc3339 = λ s. none;
}

abbrev clock : ℕ → ℤ × ℕ
clock n = (pos n, 0)

abbrev from_utf8 : List ℕ → Option Text
from_utf8 bytes = some bytes

abbrev from_str : Text → Option (JsonLogMessage ℤ)
from_str text = some (record {
  message = text;
  level = none;
  timestamp = none;
  hostname = none;
  appname = none;
  module_path = none;
  file = none;
  line = some (codes "3");
})

abbrev two_values : List (ℕ × Items)
two_values = (0, braces (plain b'1' end) end) ∷ (1, braces (plain b'\n' end) end) ∷ []

two_values_printed : print_lines two_values ≡ codes "{1}\n\n{\n}\n"
two_values_printed = refl

handle_tcp_connection-print_lines_example :
    handle_tcp_connection seconds from_utf8 from_str clock (ended ℕ) (print_lines two_values ++ [])
    ≡ delivered seconds from_utf8 from_str clock (ended ℕ) 0 (map (λ v. print v.1) two_values) clean
unfolding read_json_lines_value read
handle_tcp_connection-print_lines_example =
    handle_tcp_connection-print_lines seconds from_utf8 from_str clock (ended ℕ) two_values [] clean
      (((λ e. cc), ground arith), (((λ e. cc), ground arith), tt)) refl
