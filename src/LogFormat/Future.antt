-- ===== src/LogFormat/Future.antt =====
-- Timestamps less than a second in the future.
use signal_gateway.Common.{
  ℕ, suc, ◌+◌, ◌-◌, ◌/◌, ◌%◌, ◌^◌, ◌≤◌, ◌<◌, ◌≡◌, ◌∙◌, ap, replicate, if◌then◌else◌, ◌&&◌, ◌||◌,
  Option, none, some, refl, [], ◌++◌, length, arith,
}
use mathlib.Core.List.{append_assoc}
use signal_gateway.Common.Int.{ℤ, pos, negsuc}
use signal_gateway.Common.Text.{Text, codes, is_some}
use signal_gateway.Common.Decimal.{show, ilog10_thousands}
use signal_gateway.LogMessage.{LogMessage, to_str}
use signal_gateway.LogFormat.{
  as_u32, digit_count, spaces, write_t_minus, LogFormatConfig, Chrono, or_none, write_age,
  write_log_msg, write_location, write_module,
}

no_spaces : (w align : ℕ) → align ≤ w → spaces w align ≡ []
no_spaces w align h = ap (λ k. replicate k b' ') {x = align - w} {y = 0} (omega arith)

-- What the negative nanoseconds are when they are read as a `u32`, in milliseconds.
abbrev pub misread : ℕ → ℕ
misread n = (2 ^ 32 - 1 - n % 2 ^ 32) / 1000000

misread_bounds : (n : ℕ) → suc n < 10 ^ 9 → (3294 ≤ misread n) × (misread n ≤ 4294)
misread_bounds n h = (omega arith, omega arith)

four_digits : (ms : ℕ) → 1000 ≤ ms → 8 ≤ 2 + digit_count ms + 2
unfolding digit_count
four_digits ms h = ground (arith, ilog10_thousands ms h)

write_t_minus_future :
    (n : ℕ)
    → suc n < 10 ^ 9
    → write_t_minus (record { num_seconds = pos 0; subsec_nanos = negsuc n }) 8
      ≡ codes "T-" ++ show (misread n) ++ codes "ms"
unfolding write_t_minus as_u32
write_t_minus_future n h =
    let (low, high) = misread_bounds n h in
    rw (no_spaces (2 + digit_count (misread n) + 2) 8 (four_digits (misread n) (omega arith))) refl

write_age_future :
    (c : Chrono) (log_msg : LogMessage) (now stamp : c.DateTime) (t : ℤ) (n : ℕ)
    → log_msg.timestamp ≡ some t
    → c.from_timestamp t log_msg.timestamp_nanos ≡ some stamp
    → c.since now stamp ≡ (record { num_seconds = pos 0; subsec_nanos = negsuc n })
    → suc n < 10 ^ 9
    → write_age c log_msg now ≡ codes "T-" ++ show (misread n) ++ codes "ms"
unfolding write_age
write_age_future c log_msg now stamp t n e f g h =
    ap (λ o. age (or_none o (λ ts. c.from_timestamp ts log_msg.timestamp_nanos))) e
    ∙ ap age f
    ∙ ap (λ d. write_t_minus d 8) g
    ∙ write_t_minus_future n h
  where
    age : Option c.DateTime → Text
    age o = elim o [ some ts ↦ write_t_minus (c.since now ts) 8 | none ↦ spaces 3 8 ++ codes "T-?" ]

-- A text that goes on after its first two parts.
goes_on :
    (head age p q r s : Text)
    → (rest : Text) × (head ++ age ++ p ++ q ++ r ++ s ≡ head ++ age ++ rest)
goes_on head age p q r s = (p ++ (q ++ (r ++ s)), simp append_assoc)

-- The module and the place in brackets.
abbrev place : LogFormatConfig → LogMessage → Text
place config log_msg =
    if config.format_module && is_some log_msg.module_path || config.format_source_location
    then codes " ["
      ++ (if config.format_module
          then write_module log_msg.module_path config.format_source_location
          else [])
      ++ (if config.format_source_location then write_location log_msg.file log_msg.line else [])
      ++ codes "]"
    else []

-- A message whose timestamp is less than a second after the clock's time is written with its level,
-- padded to five characters, a space, and an age in the past between 3294 and 4294 milliseconds.
pub write_log_msg_future :
    (c : Chrono) (config : LogFormatConfig) (log_msg : LogMessage) (now stamp : c.DateTime) (t : ℤ)
    (n : ℕ)
    → log_msg.timestamp ≡ some t
    → c.from_timestamp t log_msg.timestamp_nanos ≡ some stamp
    → c.since now stamp ≡ (record { num_seconds = pos 0; subsec_nanos = negsuc n })
    → suc n < 10 ^ 9
    → (ms : ℕ) × (rest : Text) × (write_log_msg c config log_msg now
        ≡ to_str log_msg.level
          ++ spaces (length (to_str log_msg.level)) 5
          ++ codes " "
          ++ (codes "T-" ++ show ms ++ codes "ms")
          ++ rest)
      × (3294 ≤ ms)
      × (ms ≤ 4294)
unfolding write_log_msg write_age
write_log_msg_future c config log_msg now stamp t n e f g h =
    let line : (rest : Text) × (write_log_msg c config log_msg now
          ≡ to_str log_msg.level
            ++ spaces (length (to_str log_msg.level)) 5
            ++ codes " "
            ++ write_age c log_msg now
            ++ rest) =
      goes_on (to_str log_msg.level ++ spaces (length (to_str log_msg.level)) 5 ++ codes " ")
        (write_age c log_msg now) (place config log_msg) (codes ": ") log_msg.msg (codes "\n") in
    (
      misread n,
      line.0,
      line.1
          ∙ ap
              (λ age.
                to_str log_msg.level
                ++ spaces (length (to_str log_msg.level)) 5
                ++ codes " "
                ++ age
                ++ line.0)
              (write_age_future c log_msg now stamp t n e f g h),
      (misread_bounds n h).0,
      (misread_bounds n h).1,
    )
