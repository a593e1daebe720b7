-- ===== src/RateLimiter/Ring/Refine.antt =====
-- The ring read from its oldest timestamp on is an ascending list, and `insert_and_pop` is an
-- insertion into that list that gives up the first element.
use mathlib.Core.List.{append-nil}
use signal_gateway.Common.{
  ℕ, zero, suc, ◌<◌, ◌≡◌, refl, sym, ap, ap₂, subst, ◌∙◌, List, [], ◌∷◌, ◌++◌, arith, length,
  length-append, get_or, take, drop, last_or, replicate, length-replicate, drop-append_length,
  take-append_length, All,
}
use signal_gateway.Common.Int.{ℤ, pos, ◌≤ℤ◌}
use signal_gateway.RateLimiter.Ring.{Inner, new, fetch, next_idx, insert_and_pop}
use signal_gateway.RateLimiter.Ring.Helper.{insert_helper-Inserted}
use signal_gateway.RateLimiter.Ring.Sorted.{
  IsSorted, insert, insert-IsSorted, length-insert, head_or, tail,
}

-- Oldest first.
abbrev pub contents : Inner → List ℤ
contents s = drop s.idx s.timestamps ++ take s.idx s.timestamps

pub record IsValid (s : Inner) : Type 0 where
  pub in_range : s.idx < length s.timestamps
  pub ascending : IsSorted (contents s)

-- An array, cut at an index in range.
record Cut (s : Inner) : Type 0 where
  before : List ℤ
  oldest : ℤ
  behind : List ℤ
  same : s ≡ record { timestamps = before ++ oldest ∷ behind; idx = length before }

cut : (ts : List ℤ) (i : ℕ) → i < length ts → Cut (record { timestamps = ts; idx = i })
cut [] i h = absurd (omega arith)
cut (t ∷ ts) zero h = record { before = []; oldest = t; behind = ts; same = refl }
cut (t ∷ ts) (suc i) h =
    let c = cut ts i (omega arith) in
    record {
      before = t ∷ c.before;
      oldest = c.oldest;
      behind = c.behind;
      same = ap (λ (s : Inner). record { timestamps = t ∷ s.timestamps; idx = suc s.idx }) c.same;
    }

contents-cut :
    (before behind : List ℤ) (o : ℤ)
    → contents (record { timestamps = before ++ o ∷ behind; idx = length before })
      ≡ o ∷ (behind ++ before)
contents-cut before behind o =
    rw (drop-append_length before (o ∷ behind), take-append_length before (o ∷ behind))

-- The next index is at the cut, round the end of the array.
contents-next :
    (front back : List ℤ) (k : ℕ)
    → length front ≡ suc k
    → contents (record { timestamps = front ++ back; idx = next_idx (length (front ++ back)) k })
      ≡ back ++ front
contents-next front [] k e =
    let at_end : next_idx (length (front ++ [])) k ≡ 0 = ground (arith, length-append front []) in
    rw (at_end, append-nil front, append-nil front)
contents-next front (b ∷ back) k e =
    let inside : next_idx (length (front ++ b ∷ back)) k ≡ length front =
      ground (arith, length-append front (b ∷ back)) in
    rw (inside, drop-append_length front (b ∷ back), take-append_length front (b ∷ back))

last_or-append_suc :
    (front back : List ℤ) (k : ℕ) (d e : ℤ)
    → length front ≡ suc k
    → get_or (front ++ back) k d ≡ last_or front e
last_or-append_suc [] back k d e h = absurd (omega arith)
last_or-append_suc (a ∷ []) back zero d e h = refl
last_or-append_suc (a ∷ []) back (suc k) d e h = absurd (omega arith)
last_or-append_suc (a ∷ b ∷ front) back zero d e h = absurd (omega arith)
last_or-append_suc (a ∷ b ∷ front) back (suc k) d e h =
    last_or-append_suc (b ∷ front) back k d a (omega arith)

last_or_append :
    (xs ys : List ℤ) (k : ℕ) (d e : ℤ) → length ys ≡ suc k → last_or (xs ++ ys) d ≡ last_or ys e
last_or_append [] [] k d e h = absurd (omega arith)
last_or_append [] (y ∷ ys) k d e h = refl
last_or_append (x ∷ xs) ys k d e h = last_or_append xs ys k x e h

pub last_or-tail :
    (xs : List ℤ) (k : ℕ) (d e : ℤ) → length xs ≡ suc (suc k) → last_or (tail xs) d ≡ last_or xs e
last_or-tail [] k d e h = absurd (omega arith)
last_or-tail (x ∷ []) k d e h = absurd (omega arith)
last_or-tail (x ∷ y ∷ xs) k d e h = refl

tail-IsSorted : (xs : List ℤ) → IsSorted xs → IsSorted (tail xs)
tail-IsSorted [] s = tt
tail-IsSorted (x ∷ xs) s = s.1

-- What `insert_and_pop` returns and leaves behind, against the insertion into `l`.
pub record Pops (l : List ℤ) (n : ℕ) (x : ℤ) (r : Inner × (ℤ × ℤ)) : Type 0 where
  pub kept : contents r.0 ≡ tail (insert x l)
  pub earliest : r.1.0 ≡ head_or (insert x l) x
  pub latest : r.1.1 ≡ last_or (insert x l) x
  pub size : length r.0.timestamps ≡ n
  pub in_range : r.0.idx < n

cut-Pops :
    (x o : ℤ) (before behind : List ℤ)
    → IsSorted (o ∷ (behind ++ before))
    → Pops
        (o ∷ (behind ++ before))
        (length (before ++ o ∷ behind))
        x
        (insert_and_pop (record { timestamps = before ++ o ∷ behind; idx = length before }) x)
unfolding insert_and_pop
cut-Pops x o before behind s =
    let i = insert_helper-Inserted x o before behind s in
    let size : length (i.front ++ i.back) ≡ length (before ++ o ∷ behind) = omega (
      arith,
      i.front_length,
      i.back_length,
      length-append i.front i.back,
      length-append before (o ∷ behind),
    ) in
    record {
      kept =
          ap₂
            (λ (ts : List ℤ) (n : ℕ).
              contents (record { timestamps = ts; idx = next_idx n (length before) }))
            i.array (sym size)
          ∙ contents-next i.front i.back (length before) i.front_length
          ∙ i.order;
      earliest = i.evicted;
      latest =
          ap (λ ts. fetch ts (length before)) i.array
          ∙ last_or-append_suc i.front i.back (length before) (pos 0) x i.front_length
          ∙ sym (last_or_append i.back i.front (length before) x x i.front_length)
          ∙ ap (λ l. last_or l x) i.order
          ∙ last_or-tail _ _ x x (length-insert x (o ∷ (behind ++ before)));
      size = ap length i.array ∙ size;
      in_range = ground (arith, length-append before (o ∷ behind));
    }

-- On a valid ring `insert_and_pop` inserts into the ascending list, gives up and returns the list's
-- first element, and returns its last one; the array keeps its size and the index stays in range.
pub insert_and_pop_refines :
    (s : Inner) (x : ℤ) → IsValid s → Pops (contents s) (length s.timestamps) x (insert_and_pop s x)
insert_and_pop_refines s x v =
    let c = cut s.timestamps s.idx v.in_range in
    let order : contents s ≡ c.oldest ∷ (c.behind ++ c.before) =
      ap contents c.same ∙ contents-cut c.before c.behind c.oldest in
    rw order (
      subst
        (λ t. Pops (c.oldest ∷ (c.behind ++ c.before)) (length t.timestamps) x (insert_and_pop t x))
        (sym c.same) (cut-Pops x c.oldest c.before c.behind (subst IsSorted order v.ascending)))

-- `insert_and_pop` keeps a valid ring valid: the index in range, the timestamps ascending from it on.
pub insert_and_pop-IsValid : (s : Inner) (x : ℤ) → IsValid s → IsValid (insert_and_pop s x).0
insert_and_pop-IsValid s x v =
    let p = insert_and_pop_refines s x v in
    record {
      in_range = rw p.size p.in_range;
      ascending = rw p.kept (tail-IsSorted _ (insert-IsSorted x (contents s) v.ascending));
    }

pub replicate-IsSorted : (n : ℕ) → IsSorted (replicate n (pos 0))
replicate-IsSorted zero = tt
replicate-IsSorted (suc n) = (all_zero n, replicate-IsSorted n)
  where
    all_zero : (k : ℕ) → All (λ y. pos 0 ≤ℤ y) (replicate k (pos 0))
    all_zero zero = tt
    all_zero (suc k) = (omega arith, all_zero k)

pub contents-new : (n : ℕ) → contents (new n) ≡ replicate n (pos 0)
unfolding new
contents-new n = append-nil (replicate n (pos 0))

-- `new` wants a threshold of at least one event.
pub new-IsValid : (n : ℕ) → 0 < n → IsValid (new n)
unfolding new
new-IsValid n h = record {
  in_range = rw (length-replicate n (pos 0)) h;
  ascending = rw (append-nil (replicate n (pos 0))) (replicate-IsSorted n);
}
