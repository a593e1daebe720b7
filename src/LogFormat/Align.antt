-- ===== src/LogFormat/Align.antt =====
-- `write_t_minus` computes the width of what it writes.
use signal_gateway.Common.{
  ℕ, zero, suc, ◌+◌, ◌-◌, ◌/◌, ◌^◌, ◌≤◌, ◌<◌, ◌≡◌, refl, sym, ap, ◌∙◌, inl, inr, Bool, true, false,
  [], ◌∷◌, ◌++◌, if◌then◌else◌, ltb, ◌==◌, length, length-append, arith, Bool-cases,
}
use mathlib.Core.List.{append_assoc}
use signal_gateway.Common.Int.{ℤ, pos, negsuc, pos_part, neg_part, leb_ℤ}
use signal_gateway.Common.Text.{Text, codes}
use signal_gateway.Common.Decimal.{show, ilog10, length-show, ilog10_small, ilog10_two}
use signal_gateway.LogFormat.{
  TimeDelta, as_u32, negate, digit_count, show_two, spaces, Shown, shown_of, has_hours, has_mins,
  has_secs, width_of, show_seconds, text_of, write_magnitude, write_t_minus,
}

digit_count-eq-length : (n : ℕ) → digit_count n ≡ length (show n)
unfolding digit_count ilog10
digit_count-eq-length n = ground (arith, length-show n)

length-show_two : (n : ℕ) → n < 100 → length (show_two n) ≡ 2
unfolding show_two
length-show_two n h = elim (Bool-cases (ltb n 10)) [
  | inl e ↦ rw e (ground (arith, length-show n, ilog10_small n))
  | inr e ↦ rw e (ground (arith, length-show n, ilog10_two n))
]

-- A number and its unit.
length-part :
    (b : Bool) (n : ℕ) (c : ℕ)
    → length (if b then show n ++ c ∷ [] else []) ≡ (if b then digit_count n + 1 else 0)
length-part true n c = length-append (show n) (c ∷ []) ∙ omega (arith, digit_count-eq-length n)
length-part false n c = refl

-- The decimal places hold the fraction.
record Fits (s : Shown) : Type 0 where
  hundredths : s.decimal_places ≡ 2 → s.frac < 100
  tenths : s.decimal_places ≡ 1 → s.frac < 10
  places : s.decimal_places ≤ 2

shown_of-Fits : (total nanos : ℕ) → nanos < 10 ^ 9 → Fits (shown_of total nanos)
unfolding shown_of
shown_of-Fits total nanos h = record {
  hundredths = λ e. ground arith;
  tenths = λ e. ground arith;
  places = ground arith;
}

length-show_seconds :
    (s : Shown)
    → Fits s
    → length (show_seconds s)
      ≡ digit_count s.secs + s.decimal_places + 1 + (if ltb 0 s.decimal_places then 1 else 0)
unfolding show_seconds
length-show_seconds s f = elim (Bool-cases (s.decimal_places == 2)) [
  | inl two ↦ rw two (
      ground (
        arith,
        length-append (show s.secs ++ codes "." ++ show_two s.frac) (codes "s"),
        length-append (show s.secs ++ codes ".") (show_two s.frac),
        length-append (show s.secs) (codes "."),
        length-show_two s.frac,
        f.hundredths,
        digit_count-eq-length s.secs,
      ))
  | inr more ↦ elim (Bool-cases (s.decimal_places == 1)) [
    | inl one ↦
        rw (more, one)
          (ground (
            arith,
            length-append (show s.secs ++ codes "." ++ show s.frac) (codes "s"),
            length-append (show s.secs ++ codes ".") (show s.frac),
            length-append (show s.secs) (codes "."),
            length-show s.frac,
            ilog10_small s.frac,
            f.tenths,
            digit_count-eq-length s.secs,
          ))
    | inr zero_places ↦
        rw (more, zero_places)
          (ground (
            arith,
            f.places,
            length-append (show s.secs) (codes "s"),
            digit_count-eq-length s.secs,
          ))
  ]
]

length-if_seconds :
    (s : Shown) (b : Bool)
    → Fits s
    → length (if b then show_seconds s else []) ≡ (
        if b
        then digit_count s.secs + s.decimal_places + 1 + (if ltb 0 s.decimal_places then 1 else 0)
        else 0)
length-if_seconds s true f = length-show_seconds s f
length-if_seconds s false f = refl

length-text_of : (s : Shown) → Fits s → 2 + length (text_of s) ≡ width_of s
unfolding text_of width_of
length-text_of s f = omega (
  arith,
  length-append {0},
  length-part (ltb 0 s.days) s.days b'd',
  length-part (has_hours s) s.hours b'h',
  length-part (has_mins s) s.mins b'm',
  length-if_seconds s (has_secs s) f,
)

-- Spaces in front of what is written with no alignment.
abbrev pub right_aligned : ℕ → Text → Text
right_aligned align body = spaces (length body) align ++ body

magnitude-aligned :
    (prefix : Text) (total nanos align : ℕ)
    → length prefix ≡ 2
    → (0 < total → nanos < 10 ^ 9)
    → write_magnitude prefix total nanos align
      ≡ right_aligned align (write_magnitude prefix total nanos 0)
unfolding write_magnitude
magnitude-aligned prefix total nanos align two small = elim (Bool-cases (total == 0)) [
  | inl e ↦
      let ms = nanos / 1000000 in
      let none : 0 - (2 + digit_count ms + 2) ≡ 0 = omega arith in
      let width : length (prefix ++ show ms ++ codes "ms") ≡ 2 + digit_count ms + 2 =
        omega (arith, length-append {0}, digit_count-eq-length ms, two) in
      rw e (
        simp (append_assoc, none)
          (ap (λ k. spaces k align ++ (prefix ++ (show ms ++ codes "ms")))
            (sym width ∙ ap length (append_assoc prefix (show ms) (codes "ms")))))
  | inr e ↦
      let s = shown_of total nanos in
      let none : 0 - width_of s ≡ 0 = omega arith in
      let width : length (prefix ++ text_of s) ≡ width_of s = omega (
        arith,
        length-append {0},
        length-text_of s (shown_of-Fits total nanos (small (ground arith))),
        two,
      ) in
      rw (e, none, width, append_assoc)
]

-- What chrono documents of a `TimeDelta`: less than a second beside the whole ones, with their sign.
pub record IsDelta (d : TimeDelta) : Type 0 where
  pub below_second : pos_part d.subsec_nanos + neg_part d.subsec_nanos < 10 ^ 9
  pub positive : 0 < pos_part d.num_seconds → neg_part d.subsec_nanos ≡ 0
  pub negative : 0 < neg_part d.num_seconds → pos_part d.subsec_nanos ≡ 0

as_u32_small : (z : ℤ) → neg_part z ≡ 0 → pos_part z < 10 ^ 9 → as_u32 z < 10 ^ 9
unfolding as_u32
as_u32_small (pos n) h k = omega arith
as_u32_small (negsuc n) h k = absurd (omega arith)

neg_part-negate : (z : ℤ) → (neg_part (negate z) ≡ pos_part z) × (pos_part (negate z) ≡ neg_part z)
neg_part-negate (pos zero) = (refl, refl)
neg_part-negate (pos (suc n)) = (refl, refl)
neg_part-negate (negsuc n) = (refl, refl)

-- The width that `write_t_minus` computes is that of the text it writes: its output is right-aligned
-- to `align` characters, for every duration that chrono makes.
pub write_t_minus-aligned :
    (d : TimeDelta) (align : ℕ)
    → IsDelta d
    → write_t_minus d align ≡ right_aligned align (write_t_minus d 0)
unfolding write_t_minus
write_t_minus-aligned d align v = elim (Bool-cases (leb_ℤ (pos 0) d.num_seconds)) [
  | inl e ↦ rw e (
      magnitude-aligned (codes "T-") (pos_part d.num_seconds) (as_u32 d.subsec_nanos) align refl
        (λ h. as_u32_small d.subsec_nanos (v.positive h) (omega (arith, v.below_second))))
  | inr e ↦
      let n = neg_part-negate d.subsec_nanos in
      rw e (
        magnitude-aligned (codes "T+") (neg_part d.num_seconds) (as_u32 (negate d.subsec_nanos))
          align refl
          (λ h.
            as_u32_small (negate d.subsec_nanos) (n.0 ∙ v.negative h)
              (omega (arith, v.below_second, n.1))))
]
