-- ===== src/RateLimiter/Limiter/Parse/Read.antt =====
-- Reading a rate threshold that is written out.
use mathlib.Core.List.{reverse-cons, reverse-reverse}
use signal_gateway.Common.{
  ℕ, zero, suc, ◌+◌, ◌/◌, ◌^◌, ◌<◌, ◌≡◌, refl, ap, ◌∙◌, ◌≢◌, Bool, true, false, some, [], ◌∷◌, ◌++◌,
  ltb, reverse, ◌⊎◌, inl, inr, arith, All, Bool-cases,
}
use signal_gateway.Common.Decimal.{show, show_fuel, value-show, length-show}
use signal_gateway.Common.Text.{Text, codes, text_eq, split_once, split_once-append}
use signal_gateway.RateLimiter.Limiter.{Duration}
use signal_gateway.RateLimiter.Limiter.Parse.{
  trim, trim_start, is_ascii_digit, all_digits, split_at_digit, parse_usize, ok, normalize, checked,
  from_comparison, from_str,
}

pub data Comparator : Type 0 where
  at_least more_than less_than at_most : Comparator

abbrev pub spelled : Comparator → Text
spelled at_least = codes ">="
spelled more_than = codes ">"
spelled less_than = codes "<"
spelled at_most = codes "<="

-- `> n` is `>= n + 1`, and `<= n` is `< n + 1`.
abbrev pub bound : Comparator → ℕ → ℕ
bound at_least n = n
bound more_than n = n + 1
bound less_than n = n
bound at_most n = n + 1

abbrev pub is_ge : Comparator → Bool
is_ge at_least = true
is_ge more_than = true
is_ge less_than = false
is_ge at_most = false

all_digits-append :
    (s t : Text) → all_digits s ≡ true → all_digits t ≡ true → all_digits (s ++ t) ≡ true
all_digits-append [] t h k = k
all_digits-append (c ∷ s) t h k = ground (arith, all_digits-append s t)

show_fuel-digits : (f n : ℕ) → all_digits (show_fuel f n) ≡ true
unfolding show_fuel
show_fuel-digits zero n = refl
show_fuel-digits (suc f) n = elim (Bool-cases (ltb n 10)) [
  | inl e ↦ rw e (ground arith)
  | inr e ↦
      rw e (all_digits-append (show_fuel f (n / 10)) _ (show_fuel-digits f (n / 10)) (ground arith))
]

split_at_digit-append :
    (a s : Text)
    → All (λ c. is_ascii_digit c ≡ false) a
    → all_digits s ≡ true
    → s ≢ []
    → split_at_digit (a ++ s) ≡ some (a, s)
unfolding split_at_digit
split_at_digit-append [] [] h k n = absurd (n refl)
split_at_digit-append [] (c ∷ s) h k n = ground arith
split_at_digit-append (c ∷ a) s h k n = ground (arith, split_at_digit-append a s)

trim_start_digits : (s : Text) → all_digits s ≡ true → trim_start s ≡ s
trim_start_digits [] h = refl
trim_start_digits (c ∷ s) h = ground arith

reverse-digits : (s : Text) → all_digits s ≡ true → all_digits (reverse s) ≡ true
reverse-digits [] h = refl
reverse-digits (c ∷ s) h =
    ap all_digits (reverse-cons c s)
    ∙ all_digits-append (reverse s) (c ∷ []) (reverse-digits s (ground arith)) (ground arith)

trim_digits : (s : Text) → all_digits s ≡ true → trim s ≡ s
trim_digits s h =
    ap (λ t. reverse (trim_start (reverse t))) (trim_start_digits s h)
    ∙ ap reverse (trim_start_digits (reverse s) (reverse-digits s h))
    ∙ reverse-reverse s

show-digits : (n : ℕ) → all_digits (show n) ≡ true
unfolding show
show-digits n = show_fuel-digits (suc n) n

parse_usize-show : (n : ℕ) → n < 2 ^ 64 → parse_usize (trim (show n)) ≡ some n
unfolding parse_usize
parse_usize-show n h =
    let digits = show-digits n in
    ap parse_usize (trim_digits (show n) digits) ∙ ground (arith, value-show n)

normalize-spelled {ℓ} :
    (E : Type ℓ) (c : Comparator) (n : ℕ)
    → bound c n < 2 ^ 64
    → normalize {E = E} (spelled c) n ≡ ok (bound c n, is_ge c)
unfolding normalize text_eq
normalize-spelled E at_least n h = refl
normalize-spelled E more_than n h = ap (λ k. ok (k, true)) (omega arith)
normalize-spelled E less_than n h = refl
normalize-spelled E at_most n h = ap (λ k. ok (k, false)) (omega arith)

bound-fits : (c : Comparator) (n : ℕ) → bound c n < 2 ^ 64 → n < 2 ^ 64
bound-fits at_least n h = h
bound-fits more_than n h = omega arith
bound-fits less_than n h = h
bound-fits at_most n h = omega arith

checked-ok {ℓ} :
    (E : Type ℓ) (d : Duration) (n : ℕ) (ge : Bool)
    → 0 < n
    → checked {E = E} d (ok (n, ge))
      ≡ ok (record { times = n; duration = d; comparator_is_ge = ge })
unfolding checked
checked-ok E d n ge h = ground arith

show-not_empty : (n : ℕ) → show n ≢ []
show-not_empty n e = absurd (ground (arith, length-show n))

-- `>= n / d`, `> n / d`, `< n / d` and `<= n / d`, with blanks around the parts, are read as the
-- threshold of the duration that the parser reads from `d`, with `n`, or `n + 1` where the
-- comparator leaves out or takes in `n` itself (`>`, `<=`), provided that this is positive and fits
-- 64 bits.
pub from_str-reads {ℓ} :
    {E : Type ℓ} (parse_duration : Text → E ⊎ Duration) (s first second comparator : Text)
    (c : Comparator) (n : ℕ) (d : Duration)
    → trim s ≡ first ++ b'/' ∷ second
    → All (λ x. x ≢ b'/') first
    → parse_duration (trim second) ≡ inr d
    → trim first ≡ comparator ++ show n
    → All (λ x. is_ascii_digit x ≡ false) comparator
    → trim comparator ≡ spelled c
    → bound c n < 2 ^ 64
    → 0 < bound c n
    → from_str parse_duration s
      ≡ ok (record { times = bound c n; duration = d; comparator_is_ge = is_ge c })
unfolding from_str from_comparison
from_str-reads {E = E} parse_duration s first second comparator c n d whole no_slash duration left
      no_digit same fits positive =
    let split : split_once b'/' (trim s) ≡ some (first, second) =
      ap (split_once b'/') whole ∙ split_once-append b'/' first second no_slash in
    let mid : split_at_digit (trim first) ≡ some (comparator, show n) =
      ap split_at_digit left
      ∙ split_at_digit-append comparator (show n) no_digit (show-digits n) (show-not_empty n) in
    let number = parse_usize-show n (bound-fits c n fits) in
    let bounds : checked {E = E} d (normalize (trim comparator) n)
        ≡ ok (record { times = bound c n; duration = d; comparator_is_ge = is_ge c }) =
      ap (λ t. checked d (normalize t n)) same
      ∙ ap (checked d) (normalize-spelled E c n fits)
      ∙ checked-ok E d (bound c n) (is_ge c) positive in
    let right : from_comparison {E = E} d (trim first)
        ≡ ok (record { times = bound c n; duration = d; comparator_is_ge = is_ge c }) =
      rw (mid, number, from_comparison) bounds in
    rw (split, duration, from_str) right
