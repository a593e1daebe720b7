-- ===== src/RateLimiter/Limiter/Parse/Tests.antt =====
-- A threshold read, and an instance of the theorem.
use signal_gateway.Common.{ℕ, ◌≡◌, refl, true, ◌⊎◌, inr, arith}
use signal_gateway.Common.Text.{Text, codes, split_once, text_eq}
use signal_gateway.Common.Decimal.{show, value}
use signal_gateway.RateLimiter.Limiter.{Duration}
use signal_gateway.RateLimiter.Limiter.Parse.{
  ok, err, missing_comparator, from_str, split_at_digit, parse_usize,
}
use signal_gateway.RateLimiter.Limiter.Parse.Read.{more_than, from_str-reads}

-- A parser that knows ten seconds.
abbrev ten_seconds : Duration
ten_seconds = record { as_secs = 10; subsec_nanos = 0 }

abbrev parse_ten : Text → ℕ ⊎ Duration
parse_ten s = inr ten_seconds

no_comparator : from_str parse_ten (codes "5/10s") ≡ err missing_comparator
unfolding from_str split_once split_at_digit parse_usize value text_eq
no_comparator = refl

from_str-reads_example :
    from_str parse_ten (codes " > 12 / 10s ")
    ≡ ok (record { times = 13; duration = ten_seconds; comparator_is_ge = true })
unfolding show
from_str-reads_example =
    from_str-reads parse_ten (codes " > 12 / 10s ") (codes "> 12 ") (codes " 10s") (codes "> ")
      more_than 12 ten_seconds refl (ground arith) refl refl (ground arith) refl (omega arith)
      (omega arith)
