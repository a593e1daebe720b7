-- ===== src/RateLimiter/Ring/Final.antt =====
-- The end of `insert_helper`: where the timestamp goes once the loops are done.
use mathlib.Core.List.{append_assoc, append-nil}
use signal_gateway.Common.{
  ℕ, suc, ◌-◌, ◌<◌, ◌≡◌, refl, sym, ap, subst, ◌∙◌, inl, inr, List, [], ◌∷◌, ◌++◌, arith,
  if◌then◌else◌, Bool-cases, length, length-append, set, get_or, get_or-append, set-append, All,
  All-append, All-imp,
}
use signal_gateway.Common.Int.{ℤ, pos, leb_ℤ, ltb_ℤ, ◌≤ℤ◌, ◌<ℤ◌, eq_of_parts}
use signal_gateway.RateLimiter.Ring.{placed, shifting, wraparound, finish, next_idx}
use signal_gateway.RateLimiter.Ring.Sorted.{
  IsSorted, insert, insert_between, IsSorted-before, head_or, tail,
}

-- The array and the evicted timestamp that are wanted: cut at `idx + 1` and put together the other
-- way round the array is the ascending list without its first element.
pub record Inserted (x oldest : ℤ) (before behind : List ℤ) (out : List ℤ × ℤ) : Type 0 where
  pub front : List ℤ
  pub back : List ℤ
  pub array : out.0 ≡ front ++ back
  pub front_length : length front ≡ suc (length before)
  pub back_length : length back ≡ length behind
  pub order : back ++ front ≡ tail (insert x (oldest ∷ (behind ++ before)))
  pub evicted : out.1 ≡ head_or (insert x (oldest ∷ (behind ++ before))) x

-- The place is behind `m`, which is not later.
insert_behind :
    (x o m : ℤ) (us vs : List ℤ)
    → IsSorted (o ∷ (us ++ m ∷ vs))
    → m ≤ℤ x
    → All (λ v. x <ℤ v) vs
    → insert x (o ∷ (us ++ m ∷ vs)) ≡ o ∷ (us ++ m ∷ x ∷ vs)
insert_behind x o m us vs s le late =
    ap (insert x) (sym (append_assoc (o ∷ us) (m ∷ []) vs))
    ∙ insert_between x (o ∷ us ++ m ∷ []) vs
        (All-append _ (o ∷ us) (m ∷ [])
          (All-imp (λ u. u ≤ℤ m) (λ u. u ≤ℤ x) (λ u h. omega arith) (o ∷ us)
            (IsSorted-before (o ∷ us) m vs s))
          (le, tt))
        late
    ∙ append_assoc (o ∷ us) (m ∷ []) (x ∷ vs)

-- All but the oldest are later.
insert_oldest :
    (x o : ℤ) (vs : List ℤ)
    → All (λ v. x <ℤ v) vs
    → insert x (o ∷ vs) ≡ (if ltb_ℤ o x then o ∷ x ∷ vs else x ∷ o ∷ vs)
unfolding insert
insert_oldest x o vs late = ground (arith, insert_between x [] vs tt late, eq_of_parts x o)

-- The wraparound on an array whose last element is known.
pub wraparound-append :
    (x : ℤ) (n : ℕ) (d : ℤ) (q : List ℤ) (b : ℤ)
    → n ≡ suc (suc (length q))
    → wraparound x n (d ∷ (q ++ b ∷ []))
      ≡ (if leb_ℤ b x then placed (x ∷ (q ++ b ∷ [])) else shifting (b ∷ (q ++ b ∷ [])))
unfolding wraparound
wraparound-append x n d q b e =
    let at_end : n - 1 ≡ suc (length q) = omega arith in
    let read : get_or (q ++ b ∷ []) (length q) (pos 0) ≡ b = get_or-append q b [] (pos 0) in
    rw (at_end, read) (ground arith)

finish_shifting :
    (x o : ℤ) (n idx : ℕ) (ts : List ℤ)
    → finish x o n idx (shifting ts)
      ≡ (if ltb_ℤ o x then (set ts (next_idx n idx) x, o) else (set ts (next_idx n idx) o, x))
unfolding finish
finish_shifting x o n idx ts = refl

-- The end of `insert_helper`, where all but the oldest are later: the array is `front` and `back`
-- once the place at `idx + 1` is written.
finish-Inserted :
    (x o : ℤ) (n : ℕ) (ts before behind : List ℤ) (front back : ℤ → List ℤ)
    → All (λ v. x <ℤ v) (behind ++ before)
    → ((y : ℤ) → set ts (next_idx n (length before)) y ≡ front y ++ back y)
    → ((y : ℤ) → length (front y) ≡ suc (length before))
    → ((y : ℤ) → length (back y) ≡ length behind)
    → ((y : ℤ) → back y ++ front y ≡ y ∷ (behind ++ before))
    → Inserted x o before behind (finish x o n (length before) (shifting ts))
finish-Inserted x o n ts before behind front back late array front_length back_length order =
    rw finish_shifting (elim (Bool-cases (ltb_ℤ o x)) [
      | inl lt ↦ rw lt (record {
        front = front x;
        back = back x;
        array = array x;
        front_length = front_length x;
        back_length = back_length x;
        order = rw (insert_oldest x o (behind ++ before) late, lt) (order x);
        evicted = rw (insert_oldest x o (behind ++ before) late, lt);
      })
      | inr ge ↦ rw ge (record {
        front = front o;
        back = back o;
        array = array o;
        front_length = front_length o;
        back_length = back_length o;
        order = rw (insert_oldest x o (behind ++ before) late, ge) (order o);
        evicted = rw (insert_oldest x o (behind ++ before) late, ge);
      })
    ])

-- `idx` is the last index.
pub finish_at_end :
    (x o : ℤ) (n : ℕ) (d : ℤ) (before : List ℤ)
    → n ≡ suc (length before)
    → All (λ v. x <ℤ v) before
    → Inserted x o before [] (finish x o n (length before) (shifting (d ∷ before)))
finish_at_end x o n d before e late =
    let f : next_idx n (length before) ≡ 0 = ground arith in
    finish-Inserted x o n (d ∷ before) before [] (λ y. y ∷ before) (λ y. []) late
      (λ y. rw f (ap (◌∷◌ y) (sym (append-nil before)))) (λ y. refl) (λ y. refl) (λ y. refl)

-- It is not: the place behind the part before it is written.
pub finish_inside :
    (x o : ℤ) (n : ℕ) (b d : ℤ) (before behind : List ℤ)
    → suc (length before) < n
    → All (λ v. x <ℤ v) (behind ++ b ∷ before)
    → Inserted x o before
        (behind ++ b ∷ [])
        (finish x o n (length before) (shifting (b ∷ before ++ d ∷ behind)))
finish_inside x o n b d before behind h late =
    let f : next_idx n (length before) ≡ suc (length before) = ground arith in
    let joined : (behind ++ b ∷ []) ++ before ≡ behind ++ b ∷ before =
      append_assoc behind (b ∷ []) before in
    finish-Inserted x o n (b ∷ before ++ d ∷ behind) before (behind ++ b ∷ []) (λ y. b ∷ before)
      (λ y. y ∷ behind) (rw joined late) (λ y. rw f (set-append (b ∷ before) d behind y))
      (λ y. refl) (λ y. omega (arith, length-append behind (b ∷ []))) (λ y. rw joined)

-- The timestamp has been written, behind `m`.
pub placed-Inserted :
    (x o : ℤ) (n idx : ℕ) (ts before behind us : List ℤ) (m : ℤ) (vs front back : List ℤ)
    → IsSorted (o ∷ (behind ++ before))
    → behind ++ before ≡ us ++ m ∷ vs
    → m ≤ℤ x
    → All (λ v. x <ℤ v) vs
    → ts ≡ front ++ back
    → length front ≡ suc (length before)
    → length back ≡ length behind
    → back ++ front ≡ us ++ m ∷ x ∷ vs
    → Inserted x o before behind (finish x o n idx (placed ts))
unfolding finish
placed-Inserted x o n idx ts before behind us m vs front back s e le late array fl bl order =
    let s' : IsSorted (o ∷ (us ++ m ∷ vs)) = subst (λ l. IsSorted (o ∷ l)) e s in
    let eq : insert x (o ∷ (behind ++ before)) ≡ o ∷ (us ++ m ∷ x ∷ vs) =
      ap (λ l. insert x (o ∷ l)) e ∙ insert_behind x o m us vs s' le late in
    record {
      front = front;
      back = back;
      array = array;
      front_length = fl;
      back_length = bl;
      order = rw eq order;
      evicted = rw eq;
    }
