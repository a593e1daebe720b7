-- ===== src/CircularBuffer/Tests.antt =====
-- A buffer of 2 elements, and instances of the theorems.
use signal_gateway.Common.{ℕ, ◌≡◌, refl, some, List, [], ◌∷◌, min}
use signal_gateway.CircularBuffer.{CircularBuffer, new, iter, len, push_back}
use signal_gateway.CircularBuffer.Recent.{push_all, recent, push_all-recent}

abbrev two : CircularBuffer ℕ
two = record { buf = []; capacity = 2 }

two_made : new 2 ≡ some two
unfolding new
two_made = refl

abbrev pushed : List ℕ
pushed = 1 ∷ 2 ∷ 3 ∷ []

oldest_dropped : iter (push_all two pushed) ≡ 2 ∷ 3 ∷ []
unfolding iter push_all push_back
oldest_dropped = refl

push_all-recent_example :
    (iter (push_all two pushed) ≡ recent 2 pushed)
    × (len (push_all two pushed) ≡ min 3 2)
    × ((push_all two pushed).capacity ≡ 2)
push_all-recent_example = push_all-recent 2 two pushed two_made
