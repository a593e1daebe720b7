-- ===== src/LogMessage/Origins.antt =====
-- Origins: equality, and the filter strings of the logs command.
use signal_gateway.Common.{
  ◌≡◌, ap, ◌≢◌, ◌↔◌, ◌⊎◌, inl, inr, true, ◌∷◌, ◌++◌, arith, Bool-cases, All,
}
use signal_gateway.Common.Text.{
  Text, text_eq_iff, contains, contains_iff, IsSubstring, split_once-append, split_once-none,
}
use signal_gateway.LogMessage.{Origin, origin_eq, matches_filter}

pub origin_eq_iff : (a b : Origin) → (origin_eq a b ≡ true) ↔ (a ≡ b)
unfolding origin_eq
origin_eq_iff a b = (
  λ h. ground (arith, (text_eq_iff a.app b.app).0, (text_eq_iff a.host b.host).0),
  λ h. ground (
    arith,
    (text_eq_iff a.app b.app).1 (ap (λ (o : Origin). o.app) h),
    (text_eq_iff a.host b.host).1 (ap (λ (o : Origin). o.host) h),
  ),
)

-- (`a` has no `@`.) A filter with an `@` matches just if what stands before its first `@` is part of the app and what
-- stands behind it is part of the host; one with no `@` just if it is part of either.
pub matches_filter_lem :
    (o : Origin) (a h : Text)
    → All (λ c. c ≢ b'@') a
    → ((matches_filter o (a ++ b'@' ∷ h) ≡ true) ↔ (IsSubstring a o.app × IsSubstring h o.host))
      × ((matches_filter o a ≡ true) ↔ (IsSubstring a o.app ⊎ IsSubstring a o.host))
unfolding matches_filter
matches_filter_lem o a h no_at =
    rw (split_once-append b'@' a h no_at, split_once-none b'@' a no_at, matches_filter)
      (
        (
          λ p. ((contains_iff a o.app).0 (ground arith), (contains_iff h o.host).0 (ground arith)),
          λ p. ground (arith, (contains_iff a o.app).1 p.0, (contains_iff h o.host).1 p.1),
        ),
        (
          λ p. elim (Bool-cases (contains a o.app)) [
            | inl e ↦ inl ((contains_iff a o.app).0 e)
            | inr e ↦ inr ((contains_iff a o.host).0 (ground arith))
          ],
          λ p. elim p [
            | inl q ↦ ground (arith, (contains_iff a o.app).1 q)
            | inr q ↦ ground (arith, (contains_iff a o.host).1 q)
          ],
        ),
      )
