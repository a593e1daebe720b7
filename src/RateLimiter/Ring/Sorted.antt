-- ===== src/RateLimiter/Ring/Sorted.antt =====
-- What the ring of timestamps stands for: an ascending list, into which a timestamp is inserted.
use signal_gateway.Common.{
  ℕ, zero, suc, ◌<◌, ◌≡◌, refl, ap, inl, inr, List, [], ◌∷◌, ◌++◌, arith, if◌then◌else◌, Bool-cases,
  length, drop, All, All-imp, All-left, All-right,
}
use signal_gateway.Common.Int.{ℤ, ltb_ℤ, ◌≤ℤ◌, ◌<ℤ◌}

abbrev pub IsSorted : List ℤ → Type 0
IsSorted [] = Unit {0}
IsSorted (x ∷ xs) = All (λ y. x ≤ℤ y) xs × IsSorted xs

-- Behind every element that is not later.
unfoldable pub insert : ℤ → List ℤ → List ℤ
insert x [] = x ∷ []
insert x (y ∷ ys) = if ltb_ℤ x y then x ∷ y ∷ ys else y ∷ insert x ys

-- The first element, or `d` of the empty list, and the others.
abbrev pub head_or : List ℤ → ℤ → ℤ
head_or [] d = d
head_or (x ∷ xs) d = x

abbrev pub tail : List ℤ → List ℤ
tail [] = []
tail (x ∷ xs) = xs

pub length-insert : (x : ℤ) (ys : List ℤ) → length (insert x ys) ≡ suc (length ys)
unfolding insert
length-insert x [] = refl
length-insert x (y ∷ ys) = ground (arith, length-insert x ys)

pub All-insert {ℓ} : (P : ℤ → Type ℓ) (x : ℤ) (ys : List ℤ) → P x → All P ys → All P (insert x ys)
unfolding insert
All-insert P x [] h k = (h, tt)
All-insert P x (y ∷ ys) h k = elim (Bool-cases (ltb_ℤ x y)) [
  | inl e ↦ rw e (h, k)
  | inr e ↦ rw e (k.0, All-insert P x ys h k.1)
]

pub insert-IsSorted : (x : ℤ) (ys : List ℤ) → IsSorted ys → IsSorted (insert x ys)
unfolding insert
insert-IsSorted x [] s = (tt, tt)
insert-IsSorted x (y ∷ ys) s = elim (Bool-cases (ltb_ℤ x y)) [
  | inl e ↦ rw e ((ground arith, All-imp _ (λ z. x ≤ℤ z) (λ z h. ground arith) ys s.0), s)
  | inr e ↦ rw e (All-insert (λ z. y ≤ℤ z) x ys (ground arith) s.0, insert-IsSorted x ys s.1)
]

-- Where the place is known.
pub insert_between :
    (x : ℤ) (us vs : List ℤ)
    → All (λ u. u ≤ℤ x) us
    → All (λ v. x <ℤ v) vs
    → insert x (us ++ vs) ≡ us ++ x ∷ vs
unfolding insert
insert_between x [] [] h k = refl
insert_between x [] (v ∷ vs) h k = ground arith
insert_between x (u ∷ us) vs h k = ground (arith, insert_between x us vs h.1 k)

pub IsSorted-left : (xs ys : List ℤ) → IsSorted (xs ++ ys) → IsSorted xs
IsSorted-left [] ys s = tt
IsSorted-left (x ∷ xs) ys s = (All-left _ xs ys s.0, IsSorted-left xs ys s.1)

-- What stands before an element is not later.
pub IsSorted-before :
    (xs : List ℤ) (y : ℤ) (ys : List ℤ) → IsSorted (xs ++ y ∷ ys) → All (λ x. x ≤ℤ y) xs
IsSorted-before [] y ys s = tt
IsSorted-before (x ∷ xs) y ys s = ((All-right _ xs (y ∷ ys) s.0).0, IsSorted-before xs y ys s.1)

pub drop-IsSorted : (k : ℕ) (xs : List ℤ) → IsSorted xs → IsSorted (drop k xs)
drop-IsSorted zero xs s = s
drop-IsSorted (suc k) [] s = tt
drop-IsSorted (suc k) (x ∷ xs) s = drop-IsSorted k xs s.1

pub drop-All {ℓ} : (P : ℤ → Type ℓ) (k : ℕ) (xs : List ℤ) → All P xs → All P (drop k xs)
drop-All P zero xs h = h
drop-All P (suc k) [] h = tt
drop-All P (suc k) (x ∷ xs) h = drop-All P k xs h.1

insert_first : (x : ℤ) (ys : List ℤ) → All (λ y. x <ℤ y) ys → insert x ys ≡ x ∷ ys
insert_first x ys h = insert_between x [] ys tt h

-- To insert and forget the oldest commutes with having forgotten some before.
pub tail-insert-drop :
    (k : ℕ) (x : ℤ) (ys : List ℤ)
    → IsSorted ys
    → k < suc (length ys)
    → tail (insert x (drop k ys)) ≡ drop (suc k) (insert x ys)
unfolding insert
tail-insert-drop zero x [] s h = refl
tail-insert-drop zero x (y ∷ ys) s h = ground arith
tail-insert-drop (suc k) x [] s h = absurd (omega arith)
tail-insert-drop (suc k) x (y ∷ ys) s h = elim (Bool-cases (ltb_ℤ x y)) [
  | inl e ↦ rw e (
      ap tail (
        insert_first x (drop k ys)
          (drop-All _ k ys (All-imp _ (λ z. x <ℤ z) (λ z q. ground arith) ys s.0))))
  | inr e ↦ rw e (tail-insert-drop k x ys s.1 (omega arith))
]

pub All-head_or {ℓ} :
    (P : ℤ → Type ℓ) (l : List ℤ) (n : ℕ) (d : ℤ) → length l ≡ suc n → All P l → P (head_or l d)
All-head_or P [] n d e h = absurd (omega arith)
All-head_or P (x ∷ l) n d e h = h.0
