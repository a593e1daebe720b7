-- ===== src/RateLimiter/Ring/Slide.antt =====
-- The two loops of `insert_helper` on an array in three parts: the part walked, its end that is
-- overwritten, and the rest.
use signal_gateway.Common.{
  ℕ, zero, suc, ◌+◌, ◌≡◌, refl, sym, ap, ◌∙◌, inl, inr, List, [], ◌∷◌, ◌++◌, arith, if◌then◌else◌,
  Bool-cases, length, length-append, set, snoc-cases, get_or-append, set-append, All, All-append,
}
use signal_gateway.Common.Int.{ℤ, pos, leb_ℤ, ◌≤ℤ◌, ◌<ℤ◌}
use mathlib.Core.List.{append_assoc}
use signal_gateway.RateLimiter.Ring.{Walk, placed, shifting, shift}

set-append_next :
    (q : List ℤ) (m h : ℤ) (r : List ℤ) (v : ℤ)
    → set (q ++ m ∷ h ∷ r) (length q + 1) v ≡ q ++ m ∷ v ∷ r
set-append_next q m h r v =
    let here : q ++ m ∷ h ∷ r ≡ (q ++ m ∷ []) ++ h ∷ r = sym (append_assoc q (m ∷ []) (h ∷ r)) in
    let place : length q + 1 ≡ length (q ++ m ∷ []) = omega (arith, length-append q (m ∷ [])) in
    rw (here, place) (set-append (q ++ m ∷ []) h r v ∙ append_assoc q (m ∷ []) (v ∷ r))

-- One round, with `m` at the place that is read.
shift-suc :
    (x : ℤ) (lo k : ℕ) (q : List ℤ) (m h : ℤ) (r : List ℤ)
    → lo + k ≡ length q
    → shift x lo (suc k) (q ++ m ∷ h ∷ r)
      ≡ (if leb_ℤ m x then placed (q ++ m ∷ x ∷ r) else shift x lo k (q ++ m ∷ m ∷ r))
unfolding shift
shift-suc x lo k q m h r e =
    rw (e, get_or-append q m (h ∷ r) (pos 0), set-append_next q m h r x, set-append_next q m h r m)

-- How a loop over `mid` ends: the timestamp is written behind the last element that is not later,
-- or all are later and stand one place further.
pub data Outcome (x : ℤ) (pre mid post : List ℤ) (w : Walk) : Type 0 where
  found :
      (before : List ℤ) (m : ℤ) (after : List ℤ)
      → mid ≡ before ++ m ∷ after
      → m ≤ℤ x
      → All (λ a. x <ℤ a) after
      → w ≡ placed (pre ++ (before ++ m ∷ x ∷ (after ++ post)))
      → Outcome x pre mid post w
  all_later :
      (d : ℤ)
      → All (λ a. x <ℤ a) mid
      → w ≡ shifting (pre ++ d ∷ (mid ++ post))
      → Outcome x pre mid post w

-- One more element at the front of the part that has been walked.
all_later-suc :
    (x : ℤ) (pre mid post : List ℤ) (m : ℤ) (w : Walk)
    → x <ℤ m
    → Outcome x pre mid (m ∷ post) w
    → Outcome x pre (mid ++ m ∷ []) post w
all_later-suc x pre mid post m w h (found before b after e le late eq) =
    found before b (after ++ m ∷ [])
      (ap (λ t. t ++ m ∷ []) e ∙ append_assoc before (b ∷ after) (m ∷ [])) le
      (All-append _ after (m ∷ []) late (h, tt)) (rw (append_assoc after (m ∷ []) post) eq)
all_later-suc x pre mid post m w h (all_later d late eq) =
    all_later d (All-append _ mid (m ∷ []) late (h, tt)) (rw (append_assoc mid (m ∷ []) post) eq)

-- One round, given how the rest of the loop ends.
Outcome-snoc :
    (x : ℤ) (k : ℕ) (pre mid : List ℤ) (m h : ℤ) (post : List ℤ)
    → length mid ≡ k
    → Outcome x pre mid (m ∷ post) (shift x (length pre) k (pre ++ (mid ++ m ∷ m ∷ post)))
    → Outcome x pre
        (mid ++ m ∷ [])
        post
        (shift x (length pre) (suc k) (pre ++ ((mid ++ m ∷ []) ++ h ∷ post)))
Outcome-snoc x k pre mid m h post e rest =
    rw
      (
        append_assoc mid (m ∷ []) (h ∷ post),
        ← append_assoc pre mid (m ∷ h ∷ post),
        shift-suc x (length pre) k (pre ++ mid) m h post (omega (arith, length-append pre mid)),
      )
      (elim (Bool-cases (leb_ℤ m x)) [
        | inl le ↦ rw le (
            found mid m [] refl (ground arith) tt (ap placed (append_assoc pre mid (m ∷ x ∷ post))))
        | inr gt ↦
            rw (gt, append_assoc pre mid (m ∷ m ∷ post))
              (all_later-suc x pre mid post m _ (ground arith) rest)
      ])

-- The loop over `mid`, which stands behind `pre`.
pub shift-Outcome :
    (x : ℤ) (k : ℕ) (pre mid : List ℤ) (h : ℤ) (post : List ℤ)
    → length mid ≡ k
    → Outcome x pre mid post (shift x (length pre) k (pre ++ (mid ++ h ∷ post)))
unfolding shift
shift-Outcome x zero pre [] h post e = all_later h tt refl
shift-Outcome x zero pre (m ∷ mid) h post e = absurd (omega arith)
shift-Outcome x (suc k) pre mid h post e = elim (snoc-cases mid) [
  | inl z ↦ absurd (omega (arith, ap length z))
  | inr (mid', m, z) ↦
      let len : length mid' ≡ k = omega (arith, ap length z, length-append mid' (m ∷ [])) in
      rw z (Outcome-snoc x k pre mid' m h post len (shift-Outcome x k pre mid' m (m ∷ post) len))
]
