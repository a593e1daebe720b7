-- ===== src/LogFormat.antt =====
-- signal-gateway/src/log_format.rs: how a log message is written for an alert. A writer is the text
-- that is written to it; `String` never refuses.
pub mod Align
pub mod Future
mod Tests
use signal_gateway.Common.{
  ℕ, zero, suc, ◌+◌, ◌-◌, ◌*◌, ◌/◌, ◌%◌, ◌^◌, ◌≤◌, ◌<◌, Bool, true, false, not, ◌&&◌, ◌||◌, Option,
  none, some, List, [], ◌∷◌, ◌++◌, if◌then◌else◌, ltb, leb, ◌==◌, length, replicate,
}
use signal_gateway.Common.Int.{ℤ, pos, negsuc, pos_part, neg_part, leb_ℤ}
use signal_gateway.Common.Text.{Text, codes, is_some}
use signal_gateway.Common.Decimal.{show, ilog10}
use signal_gateway.LogMessage.{LogMessage, to_str}

pub record LogFormatConfig : Type 0 where
  pub format_module : Bool
  pub format_source_location : Bool

-- chrono's `TimeDelta`, by what `num_seconds` and `subsec_nanos` return: both are truncated towards
-- zero, so neither has the other's opposite sign.
pub record TimeDelta : Type 0 where
  pub num_seconds : ℤ
  pub subsec_nanos : ℤ

-- `as u32` of an `i32`.
unfoldable pub as_u32 : ℤ → ℕ
as_u32 (pos n) = n % 2 ^ 32
as_u32 (negsuc n) = 2 ^ 32 - 1 - n % 2 ^ 32

abbrev pub negate : ℤ → ℤ
negate (pos zero) = pos 0
negate (pos (suc n)) = negsuc n
negate (negsuc n) = pos (suc n)

unfoldable pub digit_count : ℕ → ℕ
digit_count n = if n == 0 then 1 else ilog10 n + 1

-- `{n:02}`.
pub show_two : ℕ → Text
show_two n = if ltb n 10 then codes "0" ++ show n else show n

-- `for _ in width..align { write!(writer, " ")? }`.
abbrev pub spaces : ℕ → ℕ → Text
spaces width align = replicate (align - width) b' '

-- What is shown of a duration: its parts, and the digits behind the seconds.
pub record Shown : Type 0 where
  pub days : ℕ
  pub hours : ℕ
  pub mins : ℕ
  pub secs : ℕ
  pub frac : ℕ
  pub decimal_places : ℕ
  pub show_secs : Bool

pub shown_of : ℕ → ℕ → Shown
shown_of total_secs nanos =
    let decimal_places = if ltb total_secs 60 then 2 else if ltb total_secs 600 then 1 else 0 in
    let rounded = if ltb 3600 total_secs then total_secs - total_secs % 60 else total_secs in
    record {
      days = rounded / 86400;
      hours = rounded % 86400 / 3600;
      mins = rounded % 3600 / 60;
      secs = rounded % 60;
      frac =
          (if decimal_places == 2
            then nanos / 10000000
            else if decimal_places == 1
            then nanos / 100000000
            else 0);
      decimal_places = decimal_places;
      show_secs = leb total_secs 86400;
    }

-- The tests that both the width and the text make.
abbrev pub has_hours : Shown → Bool
has_hours s = ltb 0 s.hours || ltb 0 s.days

abbrev pub has_mins : Shown → Bool
has_mins s = ltb 0 s.mins || (ltb 0 s.hours || ltb 0 s.days)

abbrev pub has_secs : Shown → Bool
has_secs s =
    s.show_secs
    && (ltb 0 s.secs || (ltb 0 s.frac || (s.days == 0 && (s.hours == 0 && s.mins == 0))))

-- The width, for the right-alignment.
pub width_of : Shown → ℕ
width_of s =
    2
    + (if ltb 0 s.days then digit_count s.days + 1 else 0)
    + (if has_hours s then digit_count s.hours + 1 else 0)
    + (if has_mins s then digit_count s.mins + 1 else 0)
    + (if has_secs s
        then digit_count s.secs + s.decimal_places + 1 + (if ltb 0 s.decimal_places then 1 else 0)
        else 0)

pub show_seconds : Shown → Text
show_seconds s =
    if s.decimal_places == 2
    then show s.secs ++ codes "." ++ show_two s.frac ++ codes "s"
    else if s.decimal_places == 1
    then show s.secs ++ codes "." ++ show s.frac ++ codes "s"
    else show s.secs ++ codes "s"

-- The duration compactly, such as 1d2h30m.
pub text_of : Shown → Text
text_of s =
    (if ltb 0 s.days then show s.days ++ codes "d" else [])
    ++ (if has_hours s then show s.hours ++ codes "h" else [])
    ++ (if has_mins s then show s.mins ++ codes "m" else [])
    ++ (if has_secs s then show_seconds s else [])

pub write_magnitude : Text → ℕ → ℕ → ℕ → Text
write_magnitude prefix total_secs nanos align =
    if total_secs == 0
    then (let ms = nanos / 1000000 in
        spaces (2 + digit_count ms + 2) align ++ prefix ++ show ms ++ codes "ms")
    else (let s = shown_of total_secs nanos in spaces (width_of s) align ++ prefix ++ text_of s)

unfoldable pub write_t_minus : TimeDelta → ℕ → Text
unfolding write_magnitude shown_of width_of text_of show_seconds show_two
write_t_minus delta align =
    if leb_ℤ (pos 0) delta.num_seconds
    then write_magnitude (codes "T-") (pos_part delta.num_seconds) (as_u32 delta.subsec_nanos) align
    else write_magnitude (codes "T+") (neg_part delta.num_seconds)
        (as_u32 (negate delta.subsec_nanos)) align

-- chrono's clock times.
pub record Chrono : Type 1 where
  pub DateTime : Type 0
  pub from_timestamp : ℤ → ℕ → Option DateTime
  pub since : DateTime → DateTime → TimeDelta
  pub timestamp_millis : DateTime → ℤ

abbrev pub or_none {ℓ κ} : {A : Type ℓ} {B : Type κ} → Option A → (A → Option B) → Option B
or_none none f = none
or_none (some a) f = f a

-- `file:line`, with a `?` for what is missing.
pub write_location : Option Text → Option Text → Text
write_location none line = codes "?"
write_location (some file) none = file ++ codes ":" ++ codes "?"
write_location (some file) (some line) = file ++ codes ":" ++ line

pub write_module : Option Text → Bool → Text
write_module none has_location = []
write_module (some m) has_location = m ++ (if has_location then codes " " else [])

module _ (c : Chrono) where
  open c use {DateTime, from_timestamp, since}

  -- How long ago, 8 characters wide.
  pub write_age : LogMessage → DateTime → Text
  write_age log_msg now =
      elim (or_none log_msg.timestamp (λ ts. from_timestamp ts log_msg.timestamp_nanos)) [
        | some ts ↦ write_t_minus (since now ts) 8
        | none ↦ spaces 3 8 ++ codes "T-?"
      ]

  -- What is appended to the writer, the line's end included.
  unfoldable pub write_log_msg : LogFormatConfig → LogMessage → DateTime → Text
  unfolding write_age write_location write_module
  write_log_msg self log_msg now =
      let has_module = self.format_module && is_some log_msg.module_path in
      let has_location = self.format_source_location in
      let name = to_str log_msg.level in
      name
      ++ spaces (length name) 5
      ++ codes " "
      ++ write_age log_msg now
      ++ (if has_module || has_location
          then codes " ["
            ++ (if self.format_module then write_module log_msg.module_path has_location else [])
            ++ (if self.format_source_location
                then write_location log_msg.file log_msg.line
                else [])
            ++ codes "]"
          else [])
      ++ codes ": "
      ++ log_msg.msg
      ++ b'\n' ∷ []
