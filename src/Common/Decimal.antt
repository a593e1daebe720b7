-- ===== src/Common/Decimal.antt =====
-- Numbers in decimal, as `{}` writes them, and how long they are.
use signal_gateway.Common.{
  ℕ, zero, suc, ◌+◌, ◌-◌, ◌*◌, ◌/◌, ◌%◌, ◌≤◌, ◌<◌, ◌≡◌, refl, ◌∙◌, inl, inr, [], ◌∷◌, ◌++◌, arith,
  if◌then◌else◌, ltb, Bool-cases, length, length-append, All, All-append, subst,
}
use signal_gateway.Common.Text.{Text}

-- A number has fewer digits than the fuel, which starts above it.
unfoldable pub show_fuel : ℕ → ℕ → Text
show_fuel zero n = []
show_fuel (suc f) n =
    let front = show_fuel f (n / 10) in
    if ltb n 10 then (b'0' + n) ∷ [] else front ++ (b'0' + n % 10) ∷ []

unfoldable pub show : ℕ → Text
unfolding show_fuel
show n = show_fuel (suc n) n

pub ilog10_fuel : ℕ → ℕ → ℕ
ilog10_fuel zero n = 0
ilog10_fuel (suc f) n = let rest = ilog10_fuel f (n / 10) in if ltb n 10 then 0 else suc rest

unfoldable pub ilog10 : ℕ → ℕ
unfolding ilog10_fuel
ilog10 n = ilog10_fuel (suc n) n

length-show_fuel : (f n : ℕ) → n < f → length (show_fuel f n) ≡ suc (ilog10_fuel f n)
unfolding show_fuel ilog10_fuel
length-show_fuel zero n h = absurd (omega arith)
length-show_fuel (suc f) n h = elim (Bool-cases (ltb n 10)) [
  | inl small ↦ rw small
  | inr large ↦ rw large (
      length-append (show_fuel f (n / 10)) _
      ∙ omega (arith, length-show_fuel f (n / 10) (ground arith)))
]

pub length-show : (n : ℕ) → length (show n) ≡ suc (ilog10 n)
unfolding show ilog10
length-show n = length-show_fuel (suc n) n (omega arith)

ilog10_fuel_small : (f n : ℕ) → n < 10 → ilog10_fuel f n ≡ 0
unfolding ilog10_fuel
ilog10_fuel_small zero n h = refl
ilog10_fuel_small (suc f) n h = ground arith

pub ilog10_small : (n : ℕ) → n < 10 → ilog10 n ≡ 0
unfolding ilog10
ilog10_small n h = ilog10_fuel_small (suc n) n h

pub ilog10_two : (n : ℕ) → 10 ≤ n → n < 100 → ilog10 n ≡ 1
unfolding ilog10 ilog10_fuel
ilog10_two n l h = ground (arith, ilog10_fuel_small n (n / 10))

ilog10_fuel_more : (f k n : ℕ) → 10 ≤ n → k ≤ ilog10_fuel f (n / 10) → suc k ≤ ilog10_fuel (suc f) n
unfolding ilog10_fuel
ilog10_fuel_more f k n h l = ground arith

ilog10_fuel_thousands : (f n : ℕ) → 1000 ≤ n → 3 ≤ ilog10_fuel (suc (suc (suc f))) n
ilog10_fuel_thousands f n h = ilog10_fuel_more (suc (suc f)) 2 n (omega arith) (
    ilog10_fuel_more (suc f) 1 (n / 10) (omega arith)
      (ilog10_fuel_more f 0 (n / 10 / 10) (omega arith) (omega arith)))

-- A number of at least four digits.
pub ilog10_thousands : (n : ℕ) → 1000 ≤ n → 3 ≤ ilog10 n
unfolding ilog10
ilog10_thousands n h =
    subst (λ f. 3 ≤ ilog10_fuel f n) (fuel n h) (ilog10_fuel_thousands (n - 2) n h)
  where
    fuel : (n : ℕ) → 1000 ≤ n → suc (suc (suc (n - 2))) ≡ suc n
    fuel n h = omega arith

-- The value of a run of digits, most significant first, behind what stands for `acc`.
unfoldable pub value : ℕ → Text → ℕ
value acc [] = acc
value acc (c ∷ s) = value (acc * 10 + (c - b'0')) s

value-append : (acc : ℕ) (s t : Text) → value acc (s ++ t) ≡ value (value acc s) t
unfolding value
value-append acc [] t = refl
value-append acc (c ∷ s) t = value-append (acc * 10 + (c - b'0')) s t

value-show_fuel : (f n : ℕ) → n < f → value 0 (show_fuel f n) ≡ n
unfolding show_fuel value
value-show_fuel zero n h = absurd (omega arith)
value-show_fuel (suc f) n h = elim (Bool-cases (ltb n 10)) [
  | inl small ↦ rw small (omega arith)
  | inr large ↦ rw large (
      value-append 0 (show_fuel f (n / 10)) _
      ∙ omega (arith, value-show_fuel f (n / 10) (ground arith)))
]

pub value-show : (n : ℕ) → value 0 (show n) ≡ n
unfolding show
value-show n = value-show_fuel (suc n) n (omega arith)

abbrev pub IsDigit : ℕ → Type 0
IsDigit c = (b'0' ≤ c) × (c ≤ b'9')

-- A positive number starts with a digit other than 0.
pub record Digits (s : Text) : Type 0 where
  pub first : ℕ
  pub others : Text
  pub eq : s ≡ first ∷ others
  pub first_low : b'1' ≤ first
  pub first_high : first ≤ b'9'
  pub all : All IsDigit others

Digits-show_fuel : (f n : ℕ) → 0 < n → n < f → Digits (show_fuel f n)
unfolding show_fuel
Digits-show_fuel zero n pos h = absurd (omega arith)
Digits-show_fuel (suc f) n pos h = elim (Bool-cases (ltb n 10)) [
  | inl small ↦ record {
    first = b'0' + n;
    others = [];
    eq = rw small;
    first_low = omega arith;
    first_high = ground arith;
    all = tt;
  }
  | inr large ↦
      let d = Digits-show_fuel f (n / 10) (ground arith) (ground arith) in
      record {
        first = d.first;
        others = d.others ++ (b'0' + n % 10) ∷ [];
        eq = rw (large, d.eq);
        first_low = d.first_low;
        first_high = d.first_high;
        all = All-append IsDigit d.others _ d.all ((omega arith, omega arith), tt);
      }
]

pub Digits-show : (n : ℕ) → 0 < n → Digits (show n)
unfolding show
Digits-show n pos = Digits-show_fuel (suc n) n pos (omega arith)

pub value_ge : (acc : ℕ) (s : Text) → acc ≤ value acc s
unfolding value
value_ge acc [] = omega arith
value_ge acc (c ∷ s) = omega (arith, value_ge (acc * 10 + (c - b'0')) s)
