-- ===== src/RateLimiter/Ring/Count.antt =====
-- Counting the timestamps that lie within a window of the latest one.
use signal_gateway.Common.{
  ℕ, zero, suc, ◌+◌, ◌≤◌, ◌≡◌, refl, ap, inl, inr, Bool, true, List, [], ◌∷◌, ◌++◌, arith,
  if◌then◌else◌, leb, Bool-cases, length, drop, length-drop, All, All-imp,
}
use signal_gateway.Common.Int.{ℤ, ◌+ℤ◌, ◌≤ℤ◌, leb_ℤ, +ℤ_parts}
use signal_gateway.RateLimiter.Ring.Sorted.{IsSorted, insert, drop-All, All-head_or, head_or}
use signal_gateway.RateLimiter.Ring.History.{insert_all}

module _ (window latest : ℤ) where
  -- `t + window >= latest`.
  abbrev pub within : ℤ → Bool
  within t = leb_ℤ latest (t +ℤ window)

  unfoldable pub count_within : List ℤ → ℕ
  count_within [] = 0
  count_within (t ∷ ts) = if within t then suc (count_within ts) else count_within ts

  pub count_within-insert : (x : ℤ) (l : List ℤ) → count_within (insert x l) ≡ count_within (x ∷ l)
  unfolding count_within insert
  count_within-insert x [] = refl
  count_within-insert x (y ∷ l) = ground (arith, count_within-insert x l)

  pub count_within-insert_all :
      (l xs : List ℤ) → count_within (insert_all l xs) ≡ count_within l + count_within xs
  unfolding count_within insert_all
  count_within-insert_all l [] = omega arith
  count_within-insert_all l (x ∷ xs) =
      ground (arith, count_within-insert_all (insert x l) xs, count_within-insert x l)

  pub count_within-append :
      (l xs : List ℤ) → count_within (l ++ xs) ≡ count_within l + count_within xs
  unfolding count_within
  count_within-append [] xs = omega arith
  count_within-append (y ∷ l) xs = ground (arith, count_within-append l xs)

  pub within_mono : (a b : ℤ) → a ≤ℤ b → within a ≡ true → within b ≡ true
  within_mono a b h k = ground (arith, +ℤ_parts a window, +ℤ_parts b window)

  pub count_within-le : (l : List ℤ) → count_within l ≤ length l
  unfolding count_within
  count_within-le [] = omega arith
  count_within-le (y ∷ l) = ground (arith, count_within-le l)

  count_within-All : (l : List ℤ) → All (λ t. within t ≡ true) l → count_within l ≡ length l
  unfolding count_within
  count_within-All [] h = refl
  count_within-All (y ∷ l) h = rw h.0 (ap suc (count_within-All l h.1))

  later : (y : ℤ) (l : List ℤ) → IsSorted (y ∷ l) → within y ≡ true → All (λ t. within t ≡ true) l
  later y l s h = All-imp (λ t. y ≤ℤ t) (λ t. within t ≡ true) (λ t le. within_mono y t le h) l s.0

  -- In an ascending list at least `n` lie within the window just if the n-th from the end does.
  pub count_within_sorted :
      (l : List ℤ) (k n : ℕ) (d : ℤ)
      → IsSorted l
      → length l ≡ k + suc n
      → leb (suc n) (count_within l) ≡ within (head_or (drop k l) d)
  unfolding count_within
  count_within_sorted [] k n d s e = absurd (omega arith)
  count_within_sorted (y ∷ l) zero n d s e = elim (Bool-cases (within y)) [
    | inl h ↦ ground (arith, count_within-All l (later y l s h))
    | inr h ↦ ground (arith, count_within-le l)
  ]
  count_within_sorted (y ∷ l) (suc k) n d s e = elim (Bool-cases (within y)) [
    | inl h ↦
        let all = later y l s h in
        let front : within (head_or (drop k l) d) ≡ true =
          All-head_or (λ t. within t ≡ true) (drop k l) n d (omega (arith, length-drop k l))
            (drop-All _ k l all) in
        rw front (ground (arith, count_within-All l all))
    | inr h ↦ rw h (count_within_sorted l k n d s.1 (omega arith))
  ]
