-- ===== src/Syslog.antt =====
-- signal-gateway-log-ingest/src/syslog.rs: a TCP connection with syslog messages framed as in RFC 6587.
-- The stream is the list of the bytes to come and how it ends. The crate that reads a syslog message
-- and the check for UTF-8 are parameters; `usize` has 64 bits.
pub mod Framing
pub mod Connection
mod Tests
use signal_gateway.Common.{
  ℕ, zero, suc, ◌+◌, ◌-◌, ◌*◌, ◌^◌, Bool, true, false, ◌&&◌, ◌||◌, Option, none, some, List, [],
  ◌∷◌, ◌++◌, if◌then◌else◌, ltb, leb, ◌==◌, length, take, drop,
}
use signal_gateway.Common.Int.{ℤ}
use signal_gateway.Common.Text.{Text, codes}
use signal_gateway.LogMessage.{
  Level, LogMessage, LogMessageBuilder, builder, with_timestamp, with_timestamp_nanos,
  with_hostname, with_appname, with_module_path, with_file, with_line, build,
}

-- `std::io::Error`: the two kinds that the code tells apart or makes, and any other.
pub data Error {ℓ} (E : Type ℓ) : Type ℓ where
  unexpected_eof : Error E
  invalid_data : Error E
  other : E → Error E

-- How the stream ends: closed by the peer, or with an error that is not `UnexpectedEof`.
pub data Ending {ℓ} (E : Type ℓ) : Type ℓ where
  eof : Ending E
  failed : E → Ending E

-- What a byte past the last one reads as.
abbrev pub end_error {ℓ} : {E : Type ℓ} → Ending E → Error E
end_error eof = unexpected_eof
end_error (failed e) = other e

-- A reader's outcome; a message comes with the bytes that are left. A buffer of more than
-- `isize::MAX` bytes is a panic.
pub data Outcome {ℓ} (E : Type ℓ) : Type ℓ where
  message : List ℕ → List ℕ → Outcome E
  no_more : Outcome E
  error : Error E → Outcome E
  capacity_overflow : Outcome E

abbrev pub is_digit : ℕ → Bool
is_digit b = leb b'0' b && leb b b'9'

abbrev pub checked_mul : ℕ → ℕ → Option ℕ
checked_mul a b = if ltb (a * b) (2 ^ 64) then some (a * b) else none

abbrev pub checked_add : ℕ → ℕ → Option ℕ
checked_add a b = if ltb (a + b) (2 ^ 64) then some (a + b) else none

abbrev pub and_then {ℓ κ} : {A : Type ℓ} {B : Type κ} → Option A → (A → Option B) → Option B
and_then none f = none
and_then (some a) f = f a

unfoldable pub push_digit : ℕ → ℕ → Option ℕ
push_digit len b = and_then (checked_mul len 10) (λ l. checked_add l (b - b'0'))

pub data Count {ℓ} (E : Type ℓ) : Type ℓ where
  counted : ℕ → List ℕ → Count E
  refused : Error E → Count E

abbrev pub is_blank : ℕ → Bool
is_blank b = b == b' ' || (b == b'\t' || (b == b'\n' || b == b'\r'))

module _ {ℓ} {E : Type ℓ} (ending : Ending E) where
  -- The digits behind the first one, up to the space.
  unfoldable pub read_count : ℕ → List ℕ → Count E
  unfolding push_digit
  read_count len [] = refused (end_error ending)
  read_count len (b ∷ bs) =
      if is_digit b
      then (elim (push_digit len b) [ none ↦ refused invalid_data | some l ↦ read_count l bs ])
      else if b == b' '
      then counted len bs
      else refused invalid_data

  -- `vec![0u8; len]` and `read_exact`.
  unfoldable pub read_body : ℕ → List ℕ → Outcome E
  read_body len bs =
      if leb (2 ^ 63) len
      then capacity_overflow
      else if leb len (length bs)
      then message (take len bs) (drop len bs)
      else error (end_error ending)

  unfoldable pub read_octet_counted_message : ℕ → List ℕ → Outcome E
  unfolding read_count read_body
  read_octet_counted_message first_digit bs = elim (read_count (first_digit - b'0') bs) [
    | counted len rest ↦ read_body len rest
    | refused e ↦ error e
  ]

  -- The loop over `msg`.
  unfoldable pub read_until : ℕ → List ℕ → List ℕ → Outcome E
  read_until line_delimiter msg [] = elim ending [
    | eof ↦ message msg []
    | failed e ↦ error (other e)
  ]
  read_until line_delimiter msg (b ∷ bs) =
      if b == 0 || b == line_delimiter
      then message msg bs
      else read_until line_delimiter (msg ++ b ∷ []) bs

  unfoldable pub read_non_transparent_message : ℕ → Bool → List ℕ → Outcome E
  unfolding read_until
  read_non_transparent_message first_byte cr_is_delimiter bs =
      read_until (if cr_is_delimiter then b'\r' else b'\n') (first_byte ∷ []) bs

  unfoldable pub read_framed_syslog_bytes : Bool → List ℕ → Outcome E
  unfolding read_octet_counted_message read_non_transparent_message
  read_framed_syslog_bytes cr [] = elim ending [ eof ↦ no_more | failed e ↦ error (other e) ]
  read_framed_syslog_bytes cr (b ∷ bs) =
      if is_blank b
      then read_framed_syslog_bytes cr bs
      else if leb b'1' b && leb b b'9'
      then read_octet_counted_message b bs
      else if b == b'<'
      then read_non_transparent_message b cr bs
      else error invalid_data

-- `SyslogSeverity` of the crate that reads messages.
pub data SyslogSeverity : Type 0 where
  sev_emerg sev_alert sev_crit sev_err sev_warning sev_notice sev_info sev_debug : SyslogSeverity

unfoldable pub severity_to_level : SyslogSeverity → Level
severity_to_level sev_emerg = Level.emergency
severity_to_level sev_alert = Level.alert
severity_to_level sev_crit = Level.critical
severity_to_level sev_err = Level.error
severity_to_level sev_warning = Level.warning
severity_to_level sev_notice = Level.notice
severity_to_level sev_info = Level.info
severity_to_level sev_debug = Level.debug

-- What the code reads of a message: its fields, and the structured data as `find_sdid` and `get`.
pub record SyslogMessage : Type 0 where
  pub severity : SyslogSeverity
  pub timestamp : Option ℤ
  pub timestamp_nanos : Option ℕ
  pub hostname : Option Text
  pub appname : Option Text
  pub msg : Text
  pub find_sdid : Text → Option (Text → Option Text)

-- `if let Some(a) = ...`: the builder's setter where there is a value.
abbrev pub if_some {ℓ} :
    {A : Type ℓ}
    → Option A
    → (LogMessageBuilder → A → LogMessageBuilder)
    → LogMessageBuilder
    → LogMessageBuilder
if_some none set b = b
if_some (some a) set b = set b a

pub with_metadata : (Text → Option Text) → LogMessageBuilder → LogMessageBuilder
with_metadata get b =
    if_some (get (codes "line")) with_line
      (if_some (get (codes "file")) with_file (if_some (get (codes "module")) with_module_path b))

-- The clock's seconds and nanoseconds when the message is built.
unfoldable pub syslog_to_log_message : SyslogMessage → Text → ℤ → ℕ → LogMessage
unfolding severity_to_level with_metadata
syslog_to_log_message msg sd_id now now_nanos =
    let b = builder (severity_to_level msg.severity) msg.msg in
    let b₁ = if_some msg.timestamp with_timestamp b in
    let b₂ = if_some msg.timestamp_nanos with_timestamp_nanos b₁ in
    let b₃ = if_some msg.hostname with_hostname b₂ in
    let b₄ = if_some msg.appname with_appname b₃ in
    let b₅ = if_some (msg.find_sdid sd_id) (λ b get. with_metadata get b) b₄ in
    build b₅ now now_nanos

-- How a connection ends. The fuel is above the number of bytes, of which a message takes one or more.
pub data Closing {ℓ} (E : Type ℓ) : Type ℓ where
  clean : Closing E
  broken : Error E → Closing E
  panicked : Closing E
  out_of_fuel : Closing E

-- A message that is not UTF-8, or that cannot be read, is left out.
abbrev pub parse_message :
    (List ℕ → Option Text) → (Text → Option SyslogMessage) → List ℕ → Option SyslogMessage
parse_message from_utf8 from_str bytes = and_then (from_utf8 bytes) from_str

-- Before it, `n` messages were handed to the gateway: the `n`-th reading of the clock is next.
abbrev pub deliver {ℓ} :
    {E : Type ℓ}
    → Text
    → (ℕ → ℤ × ℕ)
    → Option SyslogMessage
    → ℕ
    → (ℕ → List LogMessage × Closing E)
    → List LogMessage × Closing E
deliver sd_id clock none n rest = rest n
deliver sd_id clock (some m) n rest =
    let (ms, c) = rest (suc n) in (syslog_to_log_message m sd_id (clock n).0 (clock n).1 ∷ ms, c)

module _ {ℓ} {E : Type ℓ} (from_utf8 : List ℕ → Option Text)
    (from_str : Text → Option SyslogMessage) (cr_is_delimiter : Bool) (sd_id : Text)
    (clock : ℕ → ℤ × ℕ) (ending : Ending E) where
  -- The messages handed to the gateway, and how the connection ends.
  unfoldable pub connection_loop : ℕ → ℕ → List ℕ → List LogMessage × Closing E
  connection_loop zero n bytes = ([], out_of_fuel)
  connection_loop (suc fuel) n bytes =
      elim (read_framed_syslog_bytes ending cr_is_delimiter bytes) [
        | message m rest ↦
            deliver sd_id clock (parse_message from_utf8 from_str m) n
              (λ k. connection_loop fuel k rest)
        | no_more ↦ ([], clean)
        | error e ↦ ([], broken e)
        | capacity_overflow ↦ ([], panicked)
      ]

  unfoldable pub handle_tcp_connection : List ℕ → List LogMessage × Closing E
  unfolding connection_loop
  handle_tcp_connection bytes = connection_loop (suc (length bytes)) 0 bytes
