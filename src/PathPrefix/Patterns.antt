-- ===== src/PathPrefix/Patterns.antt =====
-- The recursion that reads a pattern comes to an end.
use mathlib.Core.Option.{some-injective}
use signal_gateway.Common.{
  ℕ, zero, suc, ◌+◌, ◌-◌, ◌≤◌, ◌<◌, ◌≡◌, ◌≢◌, refl, ap, inl, inr, Bool, true, false, Option, some,
  List, [], ◌∷◌, arith, if◌then◌else◌, Bool-cases, Option-cases, length, length-drop, drop, take,
  ◌==◌,
}
use signal_gateway.Common.Text.{Text, codes, starts_with, starts_with_iff}
use signal_gateway.PathPrefix.{
  Finder, GlobSegment, Matcher, Built, built, panicked, out_of_fuel, then_built, find_meta,
  rfind_meta, find_double_star, or_index, has_meta, split_slashes, slash_at, after_meta,
  build_segments, new_fuel, new,
}

length-take : {A : Type 0} (n : ℕ) (xs : List A) → length (take n xs) ≤ n
length-take zero xs = omega arith
length-take (suc n) [] = omega arith
length-take (suc n) (x ∷ xs) = omega (arith, length-take n xs)

length-take_list : {A : Type 0} (n : ℕ) (xs : List A) → length (take n xs) ≤ length xs
length-take_list zero xs = omega arith
length-take_list (suc n) [] = omega arith
length-take_list (suc n) (x ∷ xs) = omega (arith, length-take_list n xs)

find_double_star_bound : (p : Text) (i : ℕ) → find_double_star p ≡ some i → i + 2 ≤ length p
unfolding find_double_star
find_double_star_bound [] i h = cc
find_double_star_bound (c ∷ s) i h = elim (Bool-cases (starts_with (codes "**") (c ∷ s))) [
  | inl e ↦
      let (r, q) = (starts_with_iff (codes "**") (c ∷ s)).0 e in
      let z = some-injective 0 i (ground (arith, e, h)) in omega (arith, z, ap length q)
  | inr e ↦ elim (Option-cases (find_double_star s)) [
    | inl q ↦ absurd (ground (arith, e, q, h))
    | inr (j, q) ↦
        let z = some-injective (suc j) i (ground (arith, e, q, h)) in
        omega (arith, z, find_double_star_bound s j q)
  ]
]

==_false : (i : ℕ) → (i == 0) ≡ false → 0 < i
==_false i h = ground arith

IsBuilt : Built → Type 0
IsBuilt b = b ≢ out_of_fuel

then_built-IsBuilt :
    (b : Built) (k : Finder → Built)
    → IsBuilt b
    → ((f : Finder) → IsBuilt (k f))
    → IsBuilt (then_built b k)
unfolding IsBuilt
then_built-IsBuilt (built f) k h g = g f
then_built-IsBuilt panicked k h g = h
then_built-IsBuilt out_of_fuel k h g = h

if-IsBuilt :
    (b : Bool) (x y : Built)
    → (b ≡ true → IsBuilt x)
    → (b ≡ false → IsBuilt y)
    → IsBuilt (if b then x else y)
unfolding IsBuilt
if-IsBuilt true x y h k = h refl
if-IsBuilt false x y h k = k refl

built-IsBuilt : (f : Finder) → IsBuilt (built f)
unfolding IsBuilt
built-IsBuilt f = λ e. cc

panicked-IsBuilt : IsBuilt panicked
unfolding IsBuilt
panicked-IsBuilt = λ e. cc

module _ (glob : Text → Option Matcher) where
  build_segments-IsBuilt :
      (first : Bool) (working : Text) (globs : List GlobSegment) (segments : List Text)
      → IsBuilt (build_segments glob first working globs segments)
  unfolding build_segments IsBuilt
  build_segments-IsBuilt first working globs [] = λ e. cc
  build_segments-IsBuilt first working globs (segment ∷ segments) =
      elim (Bool-cases (has_meta segment)) [
        | inl e ↦ elim (Option-cases (glob segment)) [
          | inl q ↦ rw (e, q, build_segments) (λ x. cc)
          | inr (m, q) ↦ rw (e, q, build_segments) (build_segments-IsBuilt false _ _ segments)
        ]
        | inr e ↦ rw (e, build_segments) (build_segments-IsBuilt false _ _ segments)
      ]

  new_fuel-IsBuilt :
      (fuel : ℕ) (pattern : Text) → length pattern < fuel → IsBuilt (new_fuel glob fuel pattern)
  unfolding new_fuel
  new_fuel-IsBuilt zero pattern h = absurd (omega arith)
  new_fuel-IsBuilt (suc fuel) pattern h = elim (Option-cases (find_double_star pattern)) [
    | inl e ↦ rw (e, new_fuel) (build_segments-IsBuilt true [] [] (split_slashes pattern))
    | inr (i, e) ↦
        let fits = find_double_star_bound pattern i e in
        let rem = drop 2 pattern in
        let pref = take i pattern in
        let lits = or_index (find_meta rem) (length rem) in
        let st = after_meta (rfind_meta pref) in
        rw (e, new_fuel)
          (if-IsBuilt (i == 0) _ _
            (λ start.
              if-IsBuilt (length pattern == 2) _ _ (λ lone. built-IsBuilt _)
                (λ more.
                  if-IsBuilt (slash_at rem) _ _
                    (λ s.
                      then_built-IsBuilt _ _
                        (new_fuel-IsBuilt fuel (drop lits rem)
                          (omega (arith, length-drop lits rem, length-drop 2 pattern, fits, h)))
                        (λ f. built-IsBuilt _))
                    (λ s. panicked-IsBuilt)))
            (λ inside.
              if-IsBuilt (slash_at (drop (i - 1) pattern)) _ _
                (λ s.
                  then_built-IsBuilt _ _
                    (new_fuel-IsBuilt fuel (take st pref)
                      (omega (arith, length-take_list st pref, length-take i pattern, fits, h)))
                    (λ l.
                      then_built-IsBuilt _ _
                        (new_fuel-IsBuilt fuel (drop i pattern)
                          (omega (arith, length-drop i pattern, ==_false i inside, fits, h)))
                        (λ r. built-IsBuilt _)))
                (λ s. panicked-IsBuilt)))
  ]

  -- Reading a pattern ends in a finder or in a panic; the recursion never runs out.
  pub new-ends : (pattern : Text) → new glob pattern ≢ out_of_fuel
  unfolding new IsBuilt
  new-ends pattern = new_fuel-IsBuilt (suc (length pattern)) pattern (omega arith)
