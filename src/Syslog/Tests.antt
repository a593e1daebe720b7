-- ===== src/Syslog/Tests.antt =====
-- Connections, and instances of the theorems. The parser of the tests takes a message's text whole.
use signal_gateway.Common.{
  ℕ, ◌+◌, ◌^◌, ◌≡◌, refl, ◌≢◌, true, false, Option, none, some, List, [], ◌∷◌, ◌++◌, arith, map,
  if◌then◌else◌,
}
use signal_gateway.Common.Int.{ℤ, pos}
use signal_gateway.Common.Decimal.{show}
use signal_gateway.Common.Text.{Text, codes}
use signal_gateway.Syslog.{
  Ending, eof, SyslogMessage, sev_err, capacity_overflow, error, invalid_data, unexpected_eof,
  broken, out_of_fuel, read_framed_syslog_bytes, read_octet_counted_message, read_count, push_digit,
  read_body, handle_tcp_connection,
}
use signal_gateway.Syslog.Framing.{octets, line, contents, octet_count_too_large}
use signal_gateway.Syslog.Connection.{
  Spaced, print_all, delivered, handle_tcp_connection-ends, handle_tcp_connection-print_all,
}

abbrev from_utf8 : List ℕ → Option Text
from_utf8 bytes = some bytes

abbrev from_str : Text → Option SyslogMessage
from_str [] = none
from_str (c ∷ s) = some (record {
  severity = sev_err;
  timestamp = none;
  timestamp_nanos = none;
  hostname = none;
  appname = some (codes "app");
  msg = c ∷ s;
  find_sdid = λ sd_id. none;
})

abbrev clock : ℕ → ℤ × ℕ
clock n = (pos (1000 + n), 0)

abbrev ended : Ending ℕ
ended = eof

abbrev two_frames : List Spaced
two_frames = ([], octets (codes "<1>a b")) ∷ (codes "\n ", line false (codes "1>c")) ∷ []

two_frames_printed : print_all false two_frames ≡ codes "6 <1>a b\n <1>c\n"
unfolding show
two_frames_printed = refl

short_body : read_framed_syslog_bytes ended false (codes "12 <1>a") ≡ error unexpected_eof
unfolding read_framed_syslog_bytes read_octet_counted_message read_count push_digit read_body
short_body = refl

bad_start : read_framed_syslog_bytes ended false (codes "0 a") ≡ error invalid_data
unfolding read_framed_syslog_bytes
bad_start = refl

octet_count_too_large_example :
    read_framed_syslog_bytes ended false (show (2 ^ 63) ++ b' ' ∷ codes "<1>")
    ≡ (if true then capacity_overflow else error invalid_data)
octet_count_too_large_example =
    octet_count_too_large ended false (2 ^ 63) (codes "<1>") (omega arith)

handle_tcp_connection-ends_example :
    (handle_tcp_connection from_utf8 from_str false (codes "tracing") clock ended (codes "9 a")).1
    ≢ out_of_fuel
handle_tcp_connection-ends_example =
    handle_tcp_connection-ends from_utf8 from_str false (codes "tracing") clock ended (codes "9 a")

handle_tcp_connection-print_all_example :
    handle_tcp_connection from_utf8 from_str false
      (codes "tracing")
      clock
      ended
      (print_all false two_frames ++ codes "x")
    ≡ (
      delivered from_utf8 from_str false
          (codes "tracing")
          clock
          0
          (map (λ s. contents s.1) two_frames),
      broken invalid_data,
    )
unfolding read_framed_syslog_bytes
handle_tcp_connection-print_all_example =
    handle_tcp_connection-print_all from_utf8 from_str false (codes "tracing") clock ended
      two_frames (codes "x") (broken invalid_data) (ground arith) refl
