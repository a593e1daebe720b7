-- ===== src/RateLimiter/Limiter/Location.antt =====
-- A source location, the key of a `SourceLocationRateLimiter`.
use signal_gateway.Common.{◌≡◌, ap, ◌↔◌, Bool, true, ◌&&◌, arith}
use signal_gateway.Common.Text.{Text, text_eq, text_eq_iff}
use signal_gateway.ConcurrentMap.{Key}

abbrev pub Place : Type 0
Place = Text × Text

abbrev pub place_eq : Place → Place → Bool
place_eq a b = text_eq a.0 b.0 && text_eq a.1 b.1

pub place_eq_iff : (a b : Place) → (place_eq a b ≡ true) ↔ (a ≡ b)
place_eq_iff a b = (
  λ h. ground (arith, (text_eq_iff a.0 b.0).0, (text_eq_iff a.1 b.1).0),
  λ h. ground (
    arith,
    (text_eq_iff a.0 b.0).1 (ap (λ (p : Place). p.0) h),
    (text_eq_iff a.1 b.1).1 (ap (λ (p : Place). p.1) h),
  ),
)

abbrev pub place_key : Key Place
place_key = record { eq = place_eq; eq_iff = place_eq_iff }
