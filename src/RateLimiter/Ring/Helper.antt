-- ===== src/RateLimiter/Ring/Helper.antt =====
-- What `insert_helper` does to an array `before ++ oldest ∷ behind`, with `idx` at the oldest.
use mathlib.Core.List.{append_assoc, append-nil}
use native.Mathlib.Numerals.{add-one}
use signal_gateway.Common.{
  ℕ, suc, ◌+◌, ◌-◌, ◌≡◌, refl, sym, ap, subst, ◌∙◌, inl, inr, false, List, [], ◌∷◌, ◌++◌, arith,
  ltb, Bool-cases, length, length-append, snoc-cases, get_or-append, All, All-append, All-right,
}
use signal_gateway.Common.Int.{ℤ, pos, leb_ℤ, ◌<ℤ◌}
use signal_gateway.RateLimiter.Ring.{
  Walk, shifting, ◌>>=◌, shift, wraparound, finish, insert_helper,
}
use signal_gateway.RateLimiter.Ring.Slide.{Outcome, found, all_later, shift-Outcome}
use signal_gateway.RateLimiter.Ring.Sorted.{IsSorted}
use signal_gateway.RateLimiter.Ring.Final.{
  Inserted, wraparound-append, finish_at_end, finish_inside, placed-Inserted,
}

-- The second loop, where the part before `idx` and the last element `b` are later.
second_loop :
    (x o : ℤ) (n : ℕ) (before behind : List ℤ) (b : ℤ) (w : Walk)
    → n ≡ suc (suc (length before + length behind))
    → IsSorted (o ∷ (behind ++ b ∷ before))
    → All (λ v. x <ℤ v) (b ∷ before)
    → Outcome x (b ∷ before) behind [] w
    → Inserted x o before (behind ++ b ∷ []) (finish x o n (length before) w)
second_loop x o n before behind b w e s late (found b2 m b1 eq le later res) = rw res (
    placed-Inserted x o n (length before) _ before (behind ++ b ∷ []) b2 m (b1 ++ b ∷ before)
      (b ∷ before) (b2 ++ m ∷ x ∷ (b1 ++ [])) (rw (append_assoc behind (b ∷ []) before) s)
      (append_assoc behind (b ∷ []) before
        ∙ ap (λ l. l ++ b ∷ before) eq
        ∙ append_assoc b2 (m ∷ b1) (b ∷ before))
      le (All-append _ b1 (b ∷ before) later late) refl refl
      (omega (
        arith,
        ap length eq,
        length-append b2 (m ∷ b1),
        length-append behind (b ∷ []),
        length-append b2 (m ∷ x ∷ (b1 ++ [])),
        ap length (append-nil b1),
      ))
      (rw (append-nil b1) (append_assoc b2 (m ∷ x ∷ b1) (b ∷ before))))
second_loop x o n before behind b w e s late (all_later d later res) =
    rw (res, append-nil behind)
      (finish_inside x o n b d before behind (omega arith)
        (All-append _ behind (b ∷ before) later late))

-- From the wraparound on, where `idx` is the last index.
wraparound_at_end :
    (x o : ℤ) (n : ℕ) (d : ℤ) (before : List ℤ)
    → n ≡ suc (length before)
    → All (λ v. x <ℤ v) before
    → Inserted x o before [] (
        finish x o n
          (length before)
          (wraparound x n (d ∷ before) >>= shift x (suc (length before)) 0))
unfolding shift wraparound
wraparound_at_end x o n d before e late = elim (snoc-cases before) [
  | inl z ↦
      let one : ltb 1 n ≡ false = ground (arith, ap length z) in
      rw one (finish_at_end x o n d before e late)
  | inr (q, b, z) ↦
      let last_later : x <ℤ b = (All-right _ q (b ∷ []) (subst (All (λ v. x <ℤ v)) z late)).0 in
      let wrap : wraparound x n (d ∷ before) ≡ shifting (b ∷ before) =
        ap (λ l. wraparound x n (d ∷ l)) z
        ∙ wraparound-append x n d q b (omega (arith, ap length z, length-append q (b ∷ [])))
        ∙ ground (arith, z) in
      subst
        (λ w.
          Inserted x o before []
            (finish x o n (length before) (w >>= shift x (suc (length before)) 0)))
        (sym wrap) (finish_at_end x o n b before e late)
]

-- Where the array ends in `b`.
wraparound_inside :
    (x o : ℤ) (n : ℕ) (d : ℤ) (before behind : List ℤ) (b : ℤ)
    → n ≡ suc (suc (length before + length behind))
    → IsSorted (o ∷ (behind ++ b ∷ before))
    → All (λ v. x <ℤ v) before
    → Inserted x o before (behind ++ b ∷ []) (
        finish x o n (length before) (
          wraparound x n (d ∷ (before ++ (behind ++ b ∷ [])))
          >>= shift x (suc (length before)) (length behind)))
wraparound_inside x o n d before behind b e s late =
    rw
      (
        ← append_assoc before behind (b ∷ []),
        wraparound-append x n d (before ++ behind) b (omega (arith, length-append before behind)),
      )
      (elim (Bool-cases (leb_ℤ b x)) [
        | inl le ↦
            rw (le, append_assoc before behind (b ∷ []))
              (placed-Inserted x o n (length before) _ before (behind ++ b ∷ []) behind b before
                (x ∷ before) (behind ++ b ∷ []) (rw (append_assoc behind (b ∷ []) before) s)
                (append_assoc behind (b ∷ []) before) (ground arith) late refl refl refl
                (append_assoc behind (b ∷ []) (x ∷ before)))
        | inr gt ↦
            rw (gt, append_assoc before behind (b ∷ []))
              (second_loop x o n before behind b _ e s (ground arith, late)
                (shift-Outcome x (length behind) (b ∷ before) behind b [] refl))
      ])

from_wraparound :
    (x o : ℤ) (n k : ℕ) (d : ℤ) (before behind : List ℤ)
    → n ≡ suc (length before + length behind)
    → k ≡ n - 1 - suc (length before)
    → IsSorted (o ∷ (behind ++ before))
    → All (λ v. x <ℤ v) before
    → Inserted x o before behind (
        finish x o n
          (length before)
          (wraparound x n (d ∷ (before ++ behind)) >>= shift x (suc (length before)) k))
from_wraparound x o n k d before behind e ek s late = elim (snoc-cases behind) [
  | inl z ↦
      let none_left : k ≡ 0 = omega (arith, ap length z) in
      rw (z, none_left, append-nil before)
        (wraparound_at_end x o n d before (omega (arith, ap length z)) late)
  | inr (behind', b, z) ↦
      let len : length behind ≡ suc (length behind') =
        omega (arith, ap length z, length-append behind' (b ∷ [])) in
      let left : k ≡ length behind' = omega arith in
      rw (z, left)
        (wraparound_inside x o n d before behind' b (omega arith)
          (subst (λ l. IsSorted (o ∷ l))
            (ap (λ l. l ++ before) z ∙ append_assoc behind' (b ∷ []) before) s)
          late)
]

-- From the first loop on.
from_start :
    (x o : ℤ) (n k : ℕ) (before behind : List ℤ) (w : Walk)
    → n ≡ suc (length before + length behind)
    → k ≡ n - 1 - suc (length before)
    → IsSorted (o ∷ (behind ++ before))
    → Outcome x [] before behind w
    → Inserted x o before behind
        (finish x o n (length before) (w >>= wraparound x n >>= shift x (suc (length before)) k))
from_start x o n k before behind w e ek s (found us m vs eq le late res) = rw res (
    placed-Inserted x o n (length before) _ before behind (behind ++ us) m vs (us ++ m ∷ x ∷ vs)
      behind s (ap (λ l. behind ++ l) eq ∙ sym (append_assoc behind us (m ∷ vs))) le late
      (sym (append_assoc us (m ∷ x ∷ vs) behind))
      (omega (arith, ap length eq, length-append us (m ∷ x ∷ vs), length-append us (m ∷ vs))) refl
      (sym (append_assoc behind us (m ∷ x ∷ vs))))
from_start x o n k before behind w e ek s (all_later d late res) =
    rw res (from_wraparound x o n k d before behind e ek s late)

pub insert_helper-Inserted :
    (x o : ℤ) (before behind : List ℤ)
    → IsSorted (o ∷ (behind ++ before))
    → Inserted x o before behind
        (insert_helper (record { timestamps = before ++ o ∷ behind; idx = length before }) x)
unfolding insert_helper
insert_helper-Inserted x o before behind s =
    let size : length (before ++ o ∷ behind) ≡ suc (length before + length behind) =
      omega (arith, length-append before (o ∷ behind)) in
    rw (get_or-append before o behind (pos 0), size, add-one)
      (from_start x o _ _ before behind _ refl refl s
        (shift-Outcome x (length before) [] before o behind refl))
