-- ===== src/RateLimiter/Ring/Tests.antt =====
-- Runs of the ring on a concrete array, and instances of its theorems.
use signal_gateway.Common.{◌≡◌, refl, drop, replicate, List, [], ◌∷◌, arith}
use signal_gateway.Common.Int.{ℤ, pos}
use signal_gateway.RateLimiter.Ring.{Inner, new, insert_and_pop}
use signal_gateway.RateLimiter.Ring.Refine.{contents, IsValid, Pops, insert_and_pop_refines}
use signal_gateway.RateLimiter.Ring.History.{after, insert_all, after-new}

-- 10, 30, 50 from the oldest on, which stands at index 1.
abbrev ring : Inner
ring = record { timestamps = pos 50 ∷ pos 10 ∷ pos 30 ∷ []; idx = 1 }

ring-IsValid : IsValid ring
ring-IsValid = record { in_range = omega arith; ascending = ground arith }

-- 40 goes between 30 and 50, which has to move round the end of the array.
insert_between :
    insert_and_pop ring (pos 40)
    ≡ (record { timestamps = pos 40 ∷ pos 50 ∷ pos 30 ∷ []; idx = 2 }, (pos 10, pos 50))
unfolding insert_and_pop
insert_between = refl

insert_and_pop_refines_example : Pops (contents ring) 3 (pos 40) (insert_and_pop ring (pos 40))
insert_and_pop_refines_example = insert_and_pop_refines ring (pos 40) ring-IsValid

abbrev history : List ℤ
history = pos 7 ∷ pos 3 ∷ pos 9 ∷ []

after-new_example :
    (contents (after (new 2) history) ≡ drop 3 (insert_all (replicate 2 (pos 0)) history))
    × IsValid (after (new 2) history)
after-new_example = after-new 2 history (omega arith)
