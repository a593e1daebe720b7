-- ===== src/PathPrefix/Bounds.antt =====
-- The index that is found lies within the path, both counted in characters.
use signal_gateway.Common.{
  ℕ, zero, suc, ◌+◌, ◌-◌, ◌≤◌, ◌≡◌, ap, inl, inr, true, Option, none, some, List, [], ◌∷◌, reverse,
  map, arith, All, Bool-cases, Option-cases, length, length-append, length-reverse, length-drop,
  drop, take, subst,
}
use mathlib.Core.Option.{some-injective}
use signal_gateway.Common.Text.{Text, starts_with, starts_with_iff}
use signal_gateway.PathPrefix.{
  Finder, lone_double_star, leading_double_star, mid_double_star, no_double_star, match_from,
  match_indices, rmatch_indices, matched_length, search_right, search_left, find_path_prefix,
}

-- A match of a needle that ends within a text.
abbrev Fits : Text → ℕ → ℕ → Type 0
Fits needle n i = i + length needle ≤ n

starts_with_fits : (p s : Text) → starts_with p s ≡ true → length p ≤ length s
starts_with_fits p s h =
    let (r, e) = (starts_with_iff p s).0 h in omega (arith, ap length e, length-append p r)

move : (i n : ℕ) → suc i + n ≡ i + suc n
move i n = omega arith

match_from-Fits :
    (needle : Text) (skip i : ℕ) (s : Text)
    → All (Fits needle (i + length s)) (match_from needle skip i s)
unfolding match_from
match_from-Fits [] skip i [] = (omega arith, tt)
match_from-Fits (d ∷ needle) skip i [] = tt
match_from-Fits needle (suc skip) i (c ∷ s) =
    subst (λ n. All (Fits needle n) (match_from needle skip (suc i) s)) (move i (length s))
      (match_from-Fits needle skip (suc i) s)
match_from-Fits needle zero i (c ∷ s) =
    let found =
      subst (λ n. All (Fits needle n) (match_from needle (length needle - 1) (suc i) s))
        (move i (length s)) (match_from-Fits needle (length needle - 1) (suc i) s) in
    let rest =
      subst (λ n. All (Fits needle n) (match_from needle 0 (suc i) s)) (move i (length s))
        (match_from-Fits needle 0 (suc i) s) in
    elim (Bool-cases (starts_with needle (c ∷ s))) [
      | inl e ↦ rw (e, match_from) ((omega (arith, starts_with_fits needle (c ∷ s) e)), found)
      | inr e ↦ rw (e, match_from) rest
    ]

map_fits :
    (f : ℕ → ℕ) (P Q : ℕ → Type 0)
    → ((i : ℕ) → P i → Q (f i))
    → (xs : List ℕ) → All P xs
    → All Q (map f xs)
map_fits f P Q k [] h = tt
map_fits f P Q k (x ∷ xs) h = (k x h.0, map_fits f P Q k xs h.1)

match_indices-Fits : (needle s : Text) → All (Fits needle (length s)) (match_indices needle s)
unfolding match_indices
match_indices-Fits needle s =
    subst (λ n. All (Fits needle n) (match_from needle 0 0 s)) (omega arith)
      (match_from-Fits needle 0 0 s)

rmatch_indices-Fits : (needle s : Text) → All (Fits needle (length s)) (rmatch_indices needle s)
unfolding rmatch_indices
rmatch_indices-Fits needle s =
    map_fits (λ j. length s - (j + length needle)) (Fits (reverse needle) (length (reverse s)))
      (Fits needle (length s)) (λ j h. omega (arith, h, length-reverse needle, length-reverse s))
      (match_indices (reverse needle) (reverse s)) (match_indices-Fits (reverse needle) (reverse s))

-- A search whose results lie within what it searches.
abbrev IsWithin : (Text → Option ℕ) → Type 0
IsWithin f = (s : Text) (i : ℕ) → f s ≡ some i → i ≤ length s

search_right_within :
    (child : Text → Option ℕ) (needle target : Text) (is : List ℕ) (n : ℕ)
    → IsWithin child
    → All (Fits needle (length target)) is
    → search_right child (length needle) target is ≡ some n
    → n ≤ length target
unfolding search_right
search_right_within child needle target [] n h k e = cc
search_right_within child needle target (i ∷ is) n h k e =
    elim (Option-cases (child (drop (i + length needle) target))) [
      | inl q ↦ search_right_within child needle target is n h k.1 (ground (arith, q, e))
      | inr (idx, q) ↦
          let found = some-injective (idx + (i + length needle)) n (ground (arith, q, e)) in
          omega (arith, found, h _ idx q, length-drop (i + length needle) target, k.0)
    ]

search_left_within :
    (left right : Text → Option ℕ) (needle target : Text) (is : List ℕ) (n : ℕ)
    → IsWithin right
    → All (Fits needle (length target)) is
    → search_left left right (length needle) target is ≡ some n
    → n ≤ length target
unfolding search_left
search_left_within left right needle target [] n h k e = cc
search_left_within left right needle target (i ∷ is) n h k e =
    elim (Option-cases (left (take i target))) [
      | inl q ↦ search_left_within left right needle target is n h k.1 (ground (arith, q, e))
      | inr (l, q) ↦ elim (Option-cases (right (drop (i + length needle) target))) [
        | inl p ↦ absurd (ground (arith, q, p, e))
        | inr (idx, p) ↦
            let found = some-injective (idx + (i + length needle)) n (ground (arith, q, p, e)) in
            omega (arith, found, h _ idx p, length-drop (i + length needle) target, k.0)
      ]
    ]

matched_length_within :
    (target : Text) (o : Option Text) (n : ℕ) → matched_length target o ≡ some n → n ≤ length target
matched_length_within target none n e = cc
matched_length_within target (some r) n e =
    omega (arith, some-injective (length target - length r) n e)

-- Whatever the pattern and however its search goes on, the index that is found in a path, counted in
-- characters, is at most the number of the path's characters.
pub find_path_prefix_within :
    (f : Finder) (target : Text) (i : ℕ) → find_path_prefix f target ≡ some i → i ≤ length target
unfolding find_path_prefix
find_path_prefix_within lone_double_star target i e = omega (arith, some-injective _ _ e)
find_path_prefix_within (leading_double_star rneedle child) target i e =
    search_right_within _ rneedle target _ i (find_path_prefix_within child)
      (rmatch_indices-Fits rneedle target) e
find_path_prefix_within (mid_double_star needle left_child right_child) target i e =
    search_left_within (find_path_prefix left_child) _ needle target _ i
      (find_path_prefix_within right_child) (match_indices-Fits needle target) e
find_path_prefix_within (no_double_star globs last) target i e = matched_length_within target _ i e
