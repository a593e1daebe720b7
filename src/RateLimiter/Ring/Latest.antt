-- ===== src/RateLimiter/Ring/Latest.antt =====
-- The last element of the ring is the latest timestamp of the history.
use signal_gateway.Common.{
  ℕ, zero, suc, ◌<◌, ◌≡◌, refl, ap, ◌∙◌, inl, inr, List, [], ◌∷◌, arith, Bool-cases, length, drop,
  last_or, replicate, length-replicate,
}
use signal_gateway.Common.Int.{ℤ, pos, ◌≤ℤ◌, ltb_ℤ, max_ℤ}
use signal_gateway.RateLimiter.Ring.Sorted.{IsSorted, insert, insert-IsSorted, length-insert}
use signal_gateway.RateLimiter.Ring.History.{insert_all, length-insert_all, newest}

le-last_or : (y : ℤ) (l : List ℤ) → IsSorted (y ∷ l) → y ≤ℤ last_or l y
le-last_or y [] s = omega arith
le-last_or y (z ∷ l) s = ground (arith, le-last_or z l s.1)

last_or-insert :
    (x y : ℤ) (l : List ℤ) (d : ℤ)
    → IsSorted (y ∷ l)
    → last_or (insert x (y ∷ l)) d ≡ max_ℤ (last_or l y) x
unfolding insert
last_or-insert x y [] d s = ground arith
last_or-insert x y (z ∷ l) d s = elim (Bool-cases (ltb_ℤ x y)) [
  | inl lt ↦ rw lt (ground (arith, le-last_or y (z ∷ l) s))
  | inr ge ↦ rw ge (last_or-insert x z l y s.1)
]

pub last_or-insert-suc :
    (x : ℤ) (l : List ℤ) (n : ℕ) (d e : ℤ)
    → IsSorted l
    → length l ≡ suc n
    → last_or (insert x l) d ≡ max_ℤ (last_or l e) x
last_or-insert-suc x [] n d e s h = absurd (omega arith)
last_or-insert-suc x (y ∷ l) n d e s h = last_or-insert x y l d s

last_or-insert_all :
    (l xs : List ℤ) (n : ℕ) (d e : ℤ)
    → IsSorted l
    → length l ≡ suc n
    → last_or (insert_all l xs) d ≡ newest (last_or l e) xs
unfolding insert_all newest
last_or-insert_all [] [] n d e s h = absurd (omega arith)
last_or-insert_all (y ∷ l) [] n d e s h = refl
last_or-insert_all l (x ∷ xs) n d e s h =
    last_or-insert_all (insert x l) xs (suc n) d e (insert-IsSorted x l s)
      (omega (arith, length-insert x l))
    ∙ ap (λ a. newest a xs) (last_or-insert-suc x l n e e s h)

pub last_or-drop :
    (k : ℕ) (l : List ℤ) (d e : ℤ) → k < length l → last_or (drop k l) d ≡ last_or l e
last_or-drop k [] d e h = absurd (omega arith)
last_or-drop zero (y ∷ l) d e h = refl
last_or-drop (suc k) (y ∷ l) d e h = last_or-drop k l d y (omega arith)

pub last_or-replicate : (n : ℕ) (d : ℤ) → last_or (replicate (suc n) (pos 0)) d ≡ pos 0
last_or-replicate zero d = refl
last_or-replicate (suc n) d = last_or-replicate n (pos 0)

-- What the ring of `n` keeps of a history ends in the latest timestamp.
pub last_or-kept :
    (n : ℕ) (xs : List ℤ) (d : ℤ)
    → IsSorted (replicate (suc n) (pos 0))
    → last_or (drop (length xs) (insert_all (replicate (suc n) (pos 0)) xs)) d ≡ newest (pos 0) xs
last_or-kept n xs d s =
    let zeros = replicate (suc n) (pos 0) in
    last_or-drop (length xs) (insert_all zeros xs) d d
      (omega (arith, length-insert_all zeros xs, length-replicate (suc n) (pos 0)))
    ∙ last_or-insert_all zeros xs n d d s (length-replicate (suc n) (pos 0))
    ∙ ap (λ a. newest a xs) (last_or-replicate n d)
