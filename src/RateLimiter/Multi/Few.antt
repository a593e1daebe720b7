-- ===== src/RateLimiter/Multi/Few.antt =====
-- `get_latest`, and how many events a threshold of `num` events takes.
use signal_gateway.Common.{
  ℕ, zero, suc, ◌<◌, ◌≡◌, refl, sym, ap, ◌∙◌, Bool, false, not, List, [], ◌∷◌, ◌++◌, arith, some,
  leb, length, last_or, replicate, length-replicate, All,
}
use signal_gateway.Common.Int.{ℤ, pos, ◌+ℤ◌, ◌<ℤ◌, max_ℤ, InI64}
use signal_gateway.RateLimiter.Ring.{insert_and_pop}
use signal_gateway.RateLimiter.Ring.Sorted.{insert, length-insert, tail}
use signal_gateway.RateLimiter.Ring.Refine.{
  contents, IsValid, new-IsValid, contents-new, insert_and_pop_refines, insert_and_pop-IsValid,
  last_or-tail,
}
use signal_gateway.RateLimiter.Ring.History.{newest}
use signal_gateway.RateLimiter.Ring.Count.{
  within, count_within, count_within-append, count_within-le,
}
use signal_gateway.RateLimiter.Ring.Latest.{last_or-insert-suc, last_or-replicate}
use signal_gateway.RateLimiter.Multi.{MultiRateLimiter, new, evaluate, get_latest}
use signal_gateway.RateLimiter.Multi.Rate.{evaluate_all, evaluate_rate, new-eq-fresh}

length-tail : (l : List ℤ) (n : ℕ) → length l ≡ suc n → length (tail l) ≡ n
length-tail [] n e = absurd (omega arith)
length-tail (x ∷ l) n e = omega arith

latest-evaluate_all :
    (m : MultiRateLimiter) (n : ℕ) (xs : List ℤ)
    → IsValid m.inner
    → length (contents m.inner) ≡ suc n
    → last_or (contents m.inner) (pos 0) ≡ m.latest
    → get_latest (evaluate_all m xs) ≡ newest m.latest xs
unfolding evaluate_all newest get_latest evaluate
latest-evaluate_all m n [] v len e = refl
latest-evaluate_all m n (x ∷ xs) v len e =
    let c = contents m.inner in
    let p = insert_and_pop_refines m.inner x v in
    let size = length-insert x c ∙ ap suc len in
    let last : last_or (insert x c) x ≡ max_ℤ m.latest x =
      last_or-insert-suc x c n x (pos 0) v.ascending len ∙ ap (λ a. max_ℤ a x) e in
    let next : max_ℤ m.latest (insert_and_pop m.inner x).1.1 ≡ max_ℤ m.latest x =
      ground (arith, p.latest, last) in
    latest-evaluate_all (evaluate m x).0 n xs (insert_and_pop-IsValid m.inner x v)
      (ap length p.kept ∙ length-tail (insert x c) (suc n) size)
      (ap (λ l. last_or l (pos 0)) p.kept
        ∙ last_or-tail (insert x c) n (pos 0) x size
        ∙ last
        ∙ sym next)
    ∙ ap (λ a. newest a xs) next

-- After any history `get_latest` of a new limiter of at least one event is the latest timestamp of
-- all (or 0, where all are negative).
pub get_latest_history :
    (num secs : ℕ) (ge : Bool) (m : MultiRateLimiter) (history : List ℤ)
    → 0 < num
    → new num secs ge ≡ some m
    → get_latest (evaluate_all m history) ≡ newest (pos 0) history
get_latest_history zero secs ge m history h e = absurd (omega arith)
get_latest_history (suc n) secs ge m history h e = rw (new-eq-fresh (suc n) secs ge m e).0 (
    latest-evaluate_all _ n history (new-IsValid (suc n) h)
      (ap length (contents-new (suc n)) ∙ length-replicate (suc n) (pos 0))
      (ap (λ l. last_or l (pos 0)) (contents-new (suc n)) ∙ last_or-replicate n (pos 0)))

count_within-replicate :
    (w l : ℤ) (n : ℕ) → within w l (pos 0) ≡ false → count_within w l (replicate n (pos 0)) ≡ 0
unfolding count_within
count_within-replicate w l zero h = refl
count_within-replicate w l (suc n) h = rw h (count_within-replicate w l n h)

-- Fewer than `num` earlier events never meet the threshold `num`, however close together: the event
-- that makes `num` of them within `secs` is not reported by `>= num / secs`, nor suppressed by `<`.
-- (The latest timestamp is more than `secs` after the zero that stands for the distant past, and the
-- timestamps stay in the range where `t + secs` is an `i64`.)
pub evaluate_few :
    (num secs : ℕ) (ge : Bool) (m : MultiRateLimiter) (history : List ℤ) (x : ℤ)
    → 0 < num
    → new num secs ge ≡ some m
    → All (λ t. InI64 (t +ℤ pos secs)) (x ∷ history)
    → length history < num
    → pos 0 +ℤ pos secs <ℤ max_ℤ (newest (pos 0) history) x
    → (evaluate (evaluate_all m history) x).1 ≡ not ge
evaluate_few num secs ge m history x h e all few recent =
    let latest = max_ℤ (newest (pos 0) history) x in
    let old : within (pos secs) latest (pos 0) ≡ false = ground arith in
    let zeros = replicate num (pos 0) in
    let low : leb num (count_within (pos secs) latest (zeros ++ history)) ≡ false = ground (
      arith,
      count_within-append (pos secs) latest zeros history,
      count_within-replicate (pos secs) latest num old,
      count_within-le (pos secs) latest history,
    ) in
    evaluate_rate num secs ge m history x h e all ∙ rw low (ground arith)
