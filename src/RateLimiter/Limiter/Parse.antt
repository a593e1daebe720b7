-- ===== src/RateLimiter/Limiter/Parse.antt =====
-- `RateThreshold::from_str` of signal-gateway/src/rate_limiter.rs. The parser of durations is a
-- parameter; an error is what it is about, not its wording.
pub mod Read
mod Tests
use signal_gateway.Common.{
  ℕ, zero, suc, ◌+◌, ◌-◌, ◌*◌, ◌%◌, ◌^◌, Bool, true, false, not, ◌&&◌, ◌||◌, Option, none, some,
  List, [], ◌∷◌, ◌++◌, if◌then◌else◌, ltb, leb, ◌==◌, reverse, ◌⊎◌, inl, inr,
}
use signal_gateway.Common.Decimal.{value}
use signal_gateway.Common.Text.{Text, codes, is_empty, text_eq, split_once}
use signal_gateway.RateLimiter.Limiter.{Duration, RateThreshold}

-- `char::is_whitespace`.
abbrev pub is_whitespace : ℕ → Bool
is_whitespace c =
    (leb 9 c && leb c 13)
    || (c == 0x20
        || (c == 0x85
            || (c == 0xA0
                || (c == 0x1680
                    || ((leb 0x2000 c && leb c 0x200A)
                        || (c == 0x2028
                            || (c == 0x2029 || (c == 0x202F || (c == 0x205F || c == 0x3000)))))))))

abbrev pub trim_start : Text → Text
trim_start [] = []
trim_start (c ∷ s) = if is_whitespace c then trim_start s else c ∷ s

abbrev pub trim : Text → Text
trim s = reverse (trim_start (reverse (trim_start s)))

abbrev pub is_ascii_digit : ℕ → Bool
is_ascii_digit c = leb b'0' c && leb c b'9'

-- What stands before the first digit, and the rest from there on.
unfoldable pub split_at_digit : Text → Option (Text × Text)
split_at_digit [] = none
split_at_digit (c ∷ s) =
    let rest = split_at_digit s in
    if is_ascii_digit c
    then some ([], c ∷ s)
    else (elim rest [ none ↦ none | some (a, b) ↦ some (c ∷ a, b) ])

abbrev pub all_digits : Text → Bool
all_digits [] = true
all_digits (c ∷ s) = is_ascii_digit c && all_digits s

-- `str::parse::<usize>` of a text that starts with a digit.
unfoldable pub parse_usize : Text → Option ℕ
parse_usize s = if all_digits s && ltb (value 0 s) (2 ^ 64) then some (value 0 s) else none

pub data ThresholdError {ℓ} (E : Type ℓ) : Type ℓ where
  missing_slash : ThresholdError E
  bad_duration : E → ThresholdError E
  missing_comparator : ThresholdError E
  invalid_number : ThresholdError E
  unexpected_comparator : ThresholdError E
  no_times : ThresholdError E

pub data Parsed {ℓ} (E : Type ℓ) (A : Type 0) : Type ℓ where
  ok : A → Parsed E A
  err : ThresholdError E → Parsed E A

module _ {ℓ} {E : Type ℓ} where
  -- The comparator, normalized to `>=` (true) or `<` (false); `times += 1` as in a release build.
  pub normalize : Text → ℕ → Parsed E (ℕ × Bool)
  normalize comparator times =
      if text_eq comparator (codes ">=") || text_eq comparator (codes "=>")
      then ok (times, true)
      else if text_eq comparator (codes ">")
      then ok ((times + 1) % 2 ^ 64, true)
      else if text_eq comparator (codes "<")
      then ok (times, false)
      else if text_eq comparator (codes "<=") || text_eq comparator (codes "=<")
      then ok ((times + 1) % 2 ^ 64, false)
      else if is_empty comparator
      then err missing_comparator
      else err unexpected_comparator

  pub checked : Duration → Parsed E (ℕ × Bool) → Parsed E RateThreshold
  checked duration (err e) = err e
  checked duration (ok (times, comparator_is_ge)) =
      if times == 0
      then err no_times
      else ok (record { times = times; duration = duration; comparator_is_ge = comparator_is_ge })

  pub from_comparison : Duration → Text → Parsed E RateThreshold
  unfolding normalize checked
  from_comparison duration first = elim (split_at_digit first) [
    | none ↦ err missing_comparator
    | some (comparator, num) ↦ (elim (parse_usize (trim num)) [
      | none ↦ err invalid_number
      | some times ↦ checked duration (normalize (trim comparator) times)
    ])
  ]

  unfoldable pub from_str : (Text → E ⊎ Duration) → Text → Parsed E RateThreshold
  unfolding from_comparison
  from_str parse_duration s = elim (split_once b'/' (trim s)) [
    | none ↦ err missing_slash
    | some (first, second) ↦ (elim (parse_duration (trim second)) [
      | inl e ↦ err (bad_duration e)
      | inr duration ↦ from_comparison duration (trim first)
    ])
  ]
