-- ===== src/RateLimiter/Multi/Rate.antt =====
-- Which events a `MultiRateLimiter` lets pass, told from the timestamps alone.
use signal_gateway.Common.{
  ℕ, zero, suc, ◌+◌, ◌^◌, ◌<◌, ◌≡◌, refl, sym, ap, ap₂, subst, ◌∙◌, inl, inr, Bool, not, ◌&&◌, List,
  [], ◌∷◌, ◌++◌, arith, some, if◌then◌else◌, leb, Bool-cases, length, drop, last_or, replicate,
  length-replicate, length-drop, All,
}
use signal_gateway.Common.Int.{ℤ, pos, ◌+ℤ◌, ltb_ℤ, max_ℤ, InI64, add_i64, add_i64_exact}
use signal_gateway.RateLimiter.Ring
use signal_gateway.RateLimiter.Ring.{Inner, insert_and_pop}
use signal_gateway.RateLimiter.Ring.Sorted.{
  insert, length-insert, All-insert, drop-All, All-head_or, head_or,
}
use signal_gateway.RateLimiter.Ring.Refine.{
  contents, IsValid, insert_and_pop_refines, replicate-IsSorted,
}
use signal_gateway.RateLimiter.Ring.History.{
  after, after-new, insert_all, length-insert_all, insert_all-IsSorted, All-insert_all, newest,
}
use signal_gateway.RateLimiter.Ring.Count.{
  within, within_mono, count_within, count_within-insert_all, count_within-append,
  count_within_sorted,
}
use signal_gateway.RateLimiter.Ring.Latest.{last_or-insert-suc, last_or-kept}
use signal_gateway.RateLimiter.Multi.{MultiRateLimiter, new, evaluate}

-- The limiter after a history of events.
unfoldable pub evaluate_all : MultiRateLimiter → List ℤ → MultiRateLimiter
evaluate_all self [] = self
evaluate_all self (x ∷ xs) = evaluate_all (evaluate self x).0 xs

inner-evaluate_all :
    (m : MultiRateLimiter) (xs : List ℤ) → (evaluate_all m xs).inner ≡ after m.inner xs
unfolding evaluate_all evaluate after
inner-evaluate_all m [] = refl
inner-evaluate_all m (x ∷ xs) = inner-evaluate_all (evaluate m x).0 xs

window-evaluate_all : (m : MultiRateLimiter) (xs : List ℤ) → (evaluate_all m xs).window ≡ m.window
unfolding evaluate_all evaluate
window-evaluate_all m [] = refl
window-evaluate_all m (x ∷ xs) = window-evaluate_all (evaluate m x).0 xs

comparator-evaluate_all :
    (m : MultiRateLimiter) (xs : List ℤ) → (evaluate_all m xs).comparator_is_ge ≡ m.comparator_is_ge
unfolding evaluate_all evaluate
comparator-evaluate_all m [] = refl
comparator-evaluate_all m (x ∷ xs) = comparator-evaluate_all (evaluate m x).0 xs

-- The evicted timestamp is in the window just if both the new one and the oldest kept are.
within-head_or-insert :
    (window latest x : ℤ) (l : List ℤ) (n : ℕ)
    → length l ≡ suc n
    → within window latest (head_or (insert x l) x)
      ≡ (within window latest (head_or l x) && within window latest x)
unfolding insert
within-head_or-insert window latest x [] n e = absurd (omega arith)
within-head_or-insert window latest x (y ∷ l) n e = elim (Bool-cases (ltb_ℤ x y)) [
  | inl lt ↦ rw lt (ground (arith, within_mono window latest x y))
  | inr ge ↦ rw ge (ground (arith, within_mono window latest y x))
]

abbrev pub verdict : Bool → Bool → Bool
verdict comparator_is_ge met = if comparator_is_ge then met else not met

evaluate-within :
    (m : MultiRateLimiter) (x : ℤ) (n : ℕ)
    → IsValid m.inner
    → length (contents m.inner) ≡ suc n
    → All (λ t. InI64 (t +ℤ m.window)) (x ∷ contents m.inner)
    → let latest = last_or (insert x (contents m.inner)) x in
      ((evaluate m x).1
        ≡ verdict m.comparator_is_ge
            (within m.window latest (head_or (contents m.inner) x) && within m.window latest x))
      × ((evaluate m x).0.latest ≡ max_ℤ m.latest latest)
unfolding evaluate
evaluate-within m x n v e small =
    let p = insert_and_pop_refines m.inner x v in
    let c = contents m.inner in
    let exact : add_i64 (head_or (insert x c) x) m.window ≡ head_or (insert x c) x +ℤ m.window =
      add_i64_exact _ _ (
        All-head_or (λ t. InI64 (t +ℤ m.window)) (insert x c) (suc n) x
          (omega (arith, length-insert x c))
          (All-insert (λ t. InI64 (t +ℤ m.window)) x c small.0 small.1)) in
    rw (p.earliest, p.latest, exact)
      (
        ap (verdict m.comparator_is_ge)
            (within-head_or-insert m.window (last_or (insert x c) x) x c n e),
        refl,
      )

-- The record that `new` makes.
abbrev pub fresh : ℕ → ℕ → Bool → MultiRateLimiter
fresh num secs ge = record {
  inner = Ring.new num;
  window = pos secs;
  comparator_is_ge = ge;
  latest = pos 0;
}

pub new-eq-fresh :
    (num secs : ℕ) (ge : Bool) (m : MultiRateLimiter)
    → new num secs ge ≡ some m
    → (m ≡ fresh num secs ge) × (secs < 2 ^ 63)
unfolding new
new-eq-fresh num secs ge m e = ground arith

pos_add_pos : (n : ℕ) → pos 0 +ℤ pos n ≡ pos n
unfolding ◌+ℤ◌
pos_add_pos n = ground arith

zero_in_range : (n : ℕ) → n < 2 ^ 63 → InI64 (pos 0 +ℤ pos n)
zero_in_range n h = rw pos_add_pos (omega arith)

-- What the limiter of `suc n` events has after a history.
module _ (n secs : ℕ) (ge : Bool) (history : List ℤ) where
  zeros : List ℤ
  zeros = replicate (suc n) (pos 0)

  state : MultiRateLimiter
  state = evaluate_all (fresh (suc n) secs ge) history

  held : contents state.inner ≡ drop (length history) (insert_all zeros history)
  unfolding zeros state
  held =
      ap contents (inner-evaluate_all (fresh (suc n) secs ge) history)
      ∙ (after-new (suc n) history (omega arith)).0

  state-IsValid : IsValid state.inner
  unfolding state
  state-IsValid =
      subst IsValid (sym (inner-evaluate_all (fresh (suc n) secs ge) history))
        (after-new (suc n) history (omega arith)).1

  length-insert_all-zeros : length (insert_all zeros history) ≡ length history + suc n
  unfolding zeros
  length-insert_all-zeros = omega (
    arith,
    length-insert_all (replicate (suc n) (pos 0)) history,
    length-replicate (suc n) (pos 0),
  )

  length-held : length (contents state.inner) ≡ suc n
  length-held =
      ap length held
      ∙ omega
          (arith, length-drop (length history) (insert_all zeros history), length-insert_all-zeros)

  latest-held : (d : ℤ) → last_or (contents state.inner) d ≡ newest (pos 0) history
  unfolding zeros
  latest-held d = ap (λ l. last_or l d) held ∙ last_or-kept n history d (replicate-IsSorted (suc n))

  -- The oldest one kept is in the window just if enough events are.
  within-held :
      (latest d : ℤ)
      → within (pos secs) latest (head_or (contents state.inner) d)
        ≡ leb (suc n) (count_within (pos secs) latest (zeros ++ history))
  unfolding zeros
  within-held latest d =
      ap (λ l. within (pos secs) latest (head_or l d)) held
      ∙ sym (
          count_within_sorted (pos secs) latest (insert_all zeros history) (length history) n d
            (insert_all-IsSorted zeros history (replicate-IsSorted (suc n)))
            length-insert_all-zeros)
      ∙ ap (leb (suc n)) (
          count_within-insert_all (pos secs) latest zeros history
          ∙ sym (count_within-append (pos secs) latest zeros history))

  small-held : (P : ℤ → Type 0) → P (pos 0) → All P history → All P (contents state.inner)
  unfolding zeros
  small-held P p h =
      subst (All P) (sym held)
        (drop-All P (length history) _ (All-insert_all P zeros history (all_zero (suc n)) h))
    where
      all_zero : (k : ℕ) → All P (replicate k (pos 0))
      all_zero zero = tt
      all_zero (suc k) = (p, all_zero k)

  newest-held :
      (x : ℤ) → last_or (insert x (contents state.inner)) x ≡ max_ℤ (newest (pos 0) history) x
  newest-held x =
      last_or-insert-suc x (contents state.inner) n x x state-IsValid.ascending length-held
      ∙ ap (λ a. max_ℤ a x) (latest-held x)

  window-state : state.window ≡ pos secs
  unfolding state
  window-state = window-evaluate_all (fresh (suc n) secs ge) history

  comparator-state : state.comparator_is_ge ≡ ge
  unfolding state
  comparator-state = comparator-evaluate_all (fresh (suc n) secs ge) history

  state-rate :
      (x : ℤ)
      → secs < 2 ^ 63
      → All (λ t. InI64 (t +ℤ pos secs)) (x ∷ history)
      → let latest = max_ℤ (newest (pos 0) history) x in
        (evaluate state x).1
        ≡ verdict ge (
            leb (suc n) (count_within (pos secs) latest (zeros ++ history))
            && within (pos secs) latest x)
  state-rate x small all =
      let kept = small-held (λ t. InI64 (t +ℤ pos secs)) (zero_in_range secs small) all.1 in
      let step =
        (evaluate-within state x n state-IsValid length-held (
          subst (λ w. All (λ t. InI64 (t +ℤ w)) (x ∷ contents state.inner)) (sym window-state)
            (all.0, kept))).0 in
      step
      ∙ ap₂
          (λ w g.
            let latest = last_or (insert x (contents state.inner)) x in
            verdict g (within w latest (head_or (contents state.inner) x) && within w latest x))
          window-state comparator-state
      ∙ ap
          (λ l.
            verdict ge
              (within (pos secs) l (head_or (contents state.inner) x) && within (pos secs) l x))
          (newest-held x)
      ∙ ap (λ b. verdict ge (b && within (pos secs) (max_ℤ (newest (pos 0) history) x) x))
          (within-held (max_ℤ (newest (pos 0) history) x) x)

-- After any history, the answer of a limiter that `new` made for `num > 0` events per `secs` to the
-- next event: its threshold is met just if the event itself and at least `num` earlier ones (`num`
-- zeros count as earlier events) lie within `secs` of the latest timestamp of all; `>=` answers
-- that, `<` its negation. (The timestamps stay in the range where `t + secs` is an `i64`.)
pub evaluate_rate :
    (num secs : ℕ) (ge : Bool) (m : MultiRateLimiter) (history : List ℤ) (x : ℤ)
    → 0 < num
    → new num secs ge ≡ some m
    → All (λ t. InI64 (t +ℤ pos secs)) (x ∷ history)
    → let latest = max_ℤ (newest (pos 0) history) x in
      (evaluate (evaluate_all m history) x).1
      ≡ verdict ge (
          leb num (count_within (pos secs) latest (replicate num (pos 0) ++ history))
          && within (pos secs) latest x)
unfolding state zeros
evaluate_rate zero secs ge m history x h e all = absurd (omega arith)
evaluate_rate (suc n) secs ge m history x h e all =
    let f = new-eq-fresh (suc n) secs ge m e in rw f.0 (state-rate n secs ge history x f.1 all)
