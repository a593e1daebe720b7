-- ===== src/Gateway/Summaries.antt =====
-- Where the summary of an alert for the log can be cut out of its text.
use signal_gateway.Common.{
  ℕ, ◌+◌, ◌-◌, ◌≤◌, ◌<◌, ◌≡◌, refl, ap, ◌↔◌, inl, inr, none, some, [], ◌∷◌, ◌++◌, arith, leb, min,
  Bool-cases, Option-cases, leb→le, subst, sym,
}
use mathlib.Core.Option.{some-injective}
use signal_gateway.Common.Text.{Text, utf8_width, utf8_len}
use signal_gateway.Gateway.{SignalAlertMessage, prefix, slice_to, get_summary}

-- The first part of a text, of so many bytes.
abbrev pub IsCut : Text → ℕ → Text → Type 0
IsCut s n p = (rest : Text) × ((s ≡ p ++ rest) × (utf8_len p ≡ n))

pub width_positive : (c : ℕ) → 0 < utf8_width c
width_positive c = ground arith

pub add_less : (a b : ℕ) → a + b - a ≡ b
add_less a b = omega arith

cons_IsCut :
    (c : ℕ) (s : Text) (n : ℕ) (p : Text)
    → utf8_width c ≤ n
    → IsCut s (n - utf8_width c) p
    → IsCut (c ∷ s) n (c ∷ p)
unfolding utf8_len
cons_IsCut c s n p w (rest, (e, l)) = (rest, (ap (◌∷◌ c) e, omega (arith, w, l)))

slice_to-cons :
    (c : ℕ) (s : Text) (n : ℕ) (p : Text)
    → slice_to s n ≡ some p
    → slice_to (c ∷ s) (utf8_width c + n) ≡ some (c ∷ p)
unfolding slice_to
slice_to-cons c s n p h = ground (arith, width_positive c, add_less (utf8_width c) n)

slice_to-zero : (s : Text) → slice_to s 0 ≡ some []
unfolding slice_to
slice_to-zero [] = refl
slice_to-zero (c ∷ s) = refl

slice_to-none : (s : Text) (n : ℕ) → 0 < n → slice_to [] n ≡ none
unfolding slice_to
slice_to-none s n h = ground arith

nothing_IsCut : (s : Text) (n : ℕ) (p : Text) → n ≤ 0 → some [] ≡ some p → IsCut s n p
unfolding utf8_len
nothing_IsCut s n p z h =
    let e = some-injective [] p h in subst (IsCut s n) e (s, (refl, omega (arith, z)))

slice_to-IsCut : (s : Text) (n : ℕ) (p : Text) → slice_to s n ≡ some p → IsCut s n p
unfolding slice_to
slice_to-IsCut [] n p h = elim (Bool-cases (leb n 0)) [
  | inl z ↦ nothing_IsCut [] n p (leb→le n 0 z) (ground (arith, z))
  | inr z ↦ absurd (ground (arith, z))
]
slice_to-IsCut (c ∷ s) n p h = elim (Bool-cases (leb n 0)) [
  | inl z ↦ nothing_IsCut (c ∷ s) n p (leb→le n 0 z) (ground (arith, z))
  | inr z ↦ elim (Bool-cases (leb (utf8_width c) n)) [
    | inl w ↦ elim (Option-cases (slice_to s (n - utf8_width c))) [
      | inl e ↦ absurd (ground (arith, z, w, e))
      | inr (q, e) ↦
          subst (IsCut (c ∷ s) n) (some-injective (c ∷ q) p (ground (arith, z, w, e)))
            (cons_IsCut c s n q (leb→le _ _ w) (slice_to-IsCut s (n - utf8_width c) q e))
    ]
    | inr w ↦ absurd (ground (arith, z, w))
  ]
]

pub slice_to-append : (p rest : Text) → slice_to (p ++ rest) (utf8_len p) ≡ some p
unfolding utf8_len
slice_to-append [] rest = slice_to-zero rest
slice_to-append (c ∷ p) rest = slice_to-cons c (p ++ rest) (utf8_len p) p (slice_to-append p rest)

cut-slice_to : (s : Text) (n : ℕ) (p : Text) → IsCut s n p → slice_to s n ≡ some p
cut-slice_to s n p (rest, (e, l)) =
    subst (λ m. slice_to s m ≡ some p) l
      (subst (λ t. slice_to t (utf8_len p) ≡ some p) (sym e) (slice_to-append p rest))

-- Where the summary is to be a prefix of so many bytes, it is a text exactly where a prefix of the
-- alert's text has as many bytes as the text, that number and 512 allow, and then it is that prefix.
-- Where no prefix has, a character is cut in two and the code panics.
pub get_summary_iff :
    (msg : SignalAlertMessage) (n : ℕ) (p : Text)
    → msg.summary ≡ prefix n
    → (get_summary msg ≡ some p) ↔ IsCut msg.text (min (min (utf8_len msg.text) n) 512) p
unfolding get_summary
get_summary_iff msg n p e =
    rw (e, get_summary) (slice_to-IsCut msg.text _ p, cut-slice_to msg.text _ p)
