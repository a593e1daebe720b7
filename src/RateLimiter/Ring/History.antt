-- ===== src/RateLimiter/Ring/History.antt =====
-- The ring after a whole history of timestamps: it holds the latest ones.
use signal_gateway.Common.{
  ℕ, suc, ◌+◌, ◌≤◌, ◌<◌, ◌≡◌, refl, sym, ap, ◌∙◌, List, [], ◌∷◌, arith, length, drop, replicate,
  All,
}
use signal_gateway.Common.Int.{ℤ, pos, max_ℤ}
use signal_gateway.RateLimiter.Ring.{Inner, new, insert_and_pop}
use signal_gateway.RateLimiter.Ring.Refine.{
  contents, contents-new, IsValid, new-IsValid, insert_and_pop_refines, insert_and_pop-IsValid,
}
use signal_gateway.RateLimiter.Ring.Sorted.{
  IsSorted, insert, insert-IsSorted, length-insert, tail-insert-drop, drop-IsSorted, All-insert,
  tail,
}

-- Every timestamp of a history, inserted.
unfoldable pub insert_all : List ℤ → List ℤ → List ℤ
insert_all l [] = l
insert_all l (x ∷ xs) = insert_all (insert x l) xs

-- The ring after that history.
unfoldable pub after : Inner → List ℤ → Inner
after s [] = s
after s (x ∷ xs) = after (insert_and_pop s x).0 xs

-- The latest of a history, and of `a`.
unfoldable pub newest : ℤ → List ℤ → ℤ
newest a [] = a
newest a (x ∷ xs) = newest (max_ℤ a x) xs

pub length-insert_all : (l xs : List ℤ) → length (insert_all l xs) ≡ length l + length xs
unfolding insert_all
length-insert_all l [] = omega arith
length-insert_all l (x ∷ xs) = omega (arith, length-insert_all (insert x l) xs, length-insert x l)

pub insert_all-IsSorted : (l xs : List ℤ) → IsSorted l → IsSorted (insert_all l xs)
unfolding insert_all
insert_all-IsSorted l [] s = s
insert_all-IsSorted l (x ∷ xs) s = insert_all-IsSorted (insert x l) xs (insert-IsSorted x l s)

pub All-insert_all {ℓ} :
    (P : ℤ → Type ℓ) (l xs : List ℤ) → All P l → All P xs → All P (insert_all l xs)
unfolding insert_all
All-insert_all P l [] h k = h
All-insert_all P l (x ∷ xs) h k = All-insert_all P (insert x l) xs (All-insert P x l k.0 h) k.1

drop-one : (l : List ℤ) → drop 1 l ≡ tail l
drop-one [] = refl
drop-one (x ∷ l) = refl

-- To have forgotten some before makes no difference to what is kept in the end.
insert_all-drop :
    (k : ℕ) (l xs : List ℤ)
    → IsSorted l
    → k ≤ length l
    → drop (length xs) (insert_all (drop k l) xs) ≡ drop (k + length xs) (insert_all l xs)
unfolding insert_all
insert_all-drop k l [] s h = ap (λ n. drop n l) (omega arith)
insert_all-drop k l (x ∷ xs) s h =
    let z = insert x (drop k l) in
    let m = length xs in
    ap (λ n. drop n (insert_all z xs)) {x = suc m} {y = 1 + m} (omega arith)
    ∙ sym (
        insert_all-drop 1 z xs (insert-IsSorted x _ (drop-IsSorted k l s))
          (omega (arith, length-insert x (drop k l))))
    ∙ ap (λ c. drop m (insert_all c xs)) (drop-one z ∙ tail-insert-drop k x l s (omega arith))
    ∙ insert_all-drop (suc k) (insert x l) xs (insert-IsSorted x l s)
        (omega (arith, length-insert x l))
    ∙ ap (λ n. drop n (insert_all (insert x l) xs)) {x = suc k + m} {y = k + suc m} (omega arith)

pub after-IsValid : (s : Inner) (xs : List ℤ) → IsValid s → IsValid (after s xs)
unfolding after
after-IsValid s [] v = v
after-IsValid s (x ∷ xs) v = after-IsValid (insert_and_pop s x).0 xs (insert_and_pop-IsValid s x v)

-- The ring holds as many timestamps as at the start: the latest of those it held and of the history.
pub contents-after :
    (s : Inner) (xs : List ℤ)
    → IsValid s
    → contents (after s xs) ≡ drop (length xs) (insert_all (contents s) xs)
unfolding after insert_all
contents-after s [] v = refl
contents-after s (x ∷ xs) v =
    let p = insert_and_pop_refines s x v in
    let sorted = insert-IsSorted x (contents s) v.ascending in
    contents-after (insert_and_pop s x).0 xs (insert_and_pop-IsValid s x v)
    ∙ ap (λ c. drop (length xs) (insert_all c xs)) (p.kept ∙ sym (drop-one (insert x (contents s))))
    ∙ insert_all-drop 1 (insert x (contents s)) xs sorted
        (omega (arith, length-insert x (contents s)))
    ∙ ap (λ n. drop n (insert_all (insert x (contents s)) xs)) {x = 1 + length xs}
        {y = suc (length xs)} (omega arith)

-- After any history a new ring of `n > 0` timestamps is valid and holds the `n` latest of the history
-- and `n` zeros, which stand for what is missing.
pub after-new :
    (n : ℕ) (xs : List ℤ)
    → 0 < n
    → (contents (after (new n) xs) ≡ drop (length xs) (insert_all (replicate n (pos 0)) xs))
      × IsValid (after (new n) xs)
after-new n xs h = (
  contents-after (new n) xs (new-IsValid n h)
      ∙ ap (λ c. drop (length xs) (insert_all c xs)) (contents-new n),
  after-IsValid (new n) xs (new-IsValid n h),
)
