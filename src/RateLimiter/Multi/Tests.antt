-- ===== src/RateLimiter/Multi/Tests.antt =====
-- Runs of a limiter of 2 events in 10 seconds, and instances of its theorems.
use signal_gateway.Common.{
  ◌≡◌, refl, true, not, List, [], ◌∷◌, ◌++◌, ◌&&◌, some, arith, leb, replicate,
}
use signal_gateway.Common.Int.{ℤ, pos, ◌+ℤ◌, max_ℤ, add_i64, wrap_i64}
use signal_gateway.RateLimiter.Ring
use signal_gateway.RateLimiter.Ring.{insert_and_pop}
use signal_gateway.RateLimiter.Ring.History.{newest}
use signal_gateway.RateLimiter.Ring.Count.{within, count_within}
use signal_gateway.RateLimiter.Multi.{MultiRateLimiter, new, evaluate}
use signal_gateway.RateLimiter.Multi.Rate.{evaluate_all, verdict, fresh, evaluate_rate}
use signal_gateway.RateLimiter.Multi.Few.{evaluate_few}

abbrev limiter : MultiRateLimiter
limiter = fresh 2 10 true

made : new 2 10 true ≡ some limiter
unfolding new
made = refl

abbrev seen : List ℤ
seen = pos 100 ∷ pos 95 ∷ pos 40 ∷ []

-- The event at 103 is the third within 10 seconds.
third_event : (evaluate (evaluate_all limiter seen) (pos 103)).1 ≡ true
unfolding evaluate evaluate_all insert_and_pop Ring.new add_i64 wrap_i64 ◌+ℤ◌
third_event = refl

evaluate_rate_example :
    (evaluate (evaluate_all limiter seen) (pos 103)).1
    ≡ verdict true (
        leb 2 (
          count_within
            (pos 10)
            (max_ℤ (newest (pos 0) seen) (pos 103))
            (replicate 2 (pos 0) ++ seen))
        && within (pos 10) (max_ℤ (newest (pos 0) seen) (pos 103)) (pos 103))
unfolding ◌+ℤ◌
evaluate_rate_example =
    evaluate_rate 2 10 true limiter seen (pos 103) (omega arith) made (ground arith)

-- Two events at once are not enough.
evaluate_few_example : (evaluate (evaluate_all limiter (pos 100 ∷ [])) (pos 100)).1 ≡ not true
unfolding ◌+ℤ◌ newest
evaluate_few_example =
    evaluate_few 2 10 true limiter (pos 100 ∷ []) (pos 100) (omega arith) made (ground arith)
      (omega arith) (ground arith)
