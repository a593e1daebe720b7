-- ===== src/PathPrefix/Components.antt =====
-- A pattern without two stars does not end within a component of the path.
use mathlib.Core.List.{append_assoc}
use mathlib.Core.Option.{some-injective}
use signal_gateway.Common.{
  ℕ, ◌-◌, ◌≡◌, refl, sym, ap, ◌∙◌, ◌⊎◌, inl, inr, true, false, some, List, [], ◌∷◌, ◌++◌, arith,
  Bool-cases, Option-cases, length, length-append, subst, ◌==◌,
}
use signal_gateway.Common.Text.{Text, is_empty, strip_prefix, strip_prefix→eq}
use signal_gateway.PathPrefix.{
  GlobSegment, no_double_star, split_component, strip_globs, strip_last, slash_at,
  last_char_is_slash, breaks_component, find_path_prefix,
}

-- What is left begins a component, or nothing is left.
abbrev pub IsComponentStart : Text → Type 0
IsComponentStart b = (b ≡ []) ⊎ (slash_at b ≡ true)

-- A place in a path that is within no component: nothing stands before it, or what does ends in a
-- slash, or what follows begins with one, or nothing follows.
pub record IsBoundary (target : Text) (i : ℕ) : Type 0 where
  pub before : Text
  pub after : Text
  pub parts : target ≡ before ++ after
  pub index : length before ≡ i
  pub outside : (before ≡ []) ⊎ ((last_char_is_slash before ≡ true) ⊎ IsComponentStart after)

abbrev pub Left : Text → Text → Type 0
Left target r = (a : Text) × ((target ≡ a ++ r) × ((a ≡ []) ⊎ IsComponentStart r))

split_component-parts :
    (s : Text)
    → (s ≡ (split_component s).0 ++ (split_component s).1) × IsComponentStart (split_component s).1
unfolding split_component
split_component-parts [] = (refl, inl refl)
split_component-parts (c ∷ s) = elim (Bool-cases (c == b'/')) [
  | inl e ↦ rw (e, split_component) (refl, inr e)
  | inr e ↦ let h = split_component-parts s in rw (e, split_component) (ap (◌∷◌ c) h.0, h.1)
]

Left-after :
    (prefix rem target r : Text)
    → target ≡ prefix ++ rem
    → Left (split_component rem).1 r
    → Left target r
Left-after prefix rem target r e (a, (q, o)) =
    let h = split_component-parts rem in
    let c = (split_component rem).0 in
    (
      prefix ++ (c ++ a),
      (
        e
            ∙ ap (◌++◌ prefix) (h.0 ∙ ap (◌++◌ c) q ∙ sym (append_assoc c a r))
            ∙ sym (append_assoc prefix (c ++ a) r),
        elim o [
          | inl z ↦ inr (subst IsComponentStart (q ∙ ap (λ x. x ++ r) z) h.1)
          | inr z ↦ inr z
        ],
      ),
    )

pub strip_globs-Left :
    (globs : List GlobSegment) (target r : Text) → strip_globs globs target ≡ some r → Left target r
unfolding strip_globs
strip_globs-Left [] target r h = ([], (some-injective target r h, inl refl))
strip_globs-Left (g ∷ globs) target r h = elim (Option-cases (strip_prefix g.prefix target)) [
  | inl e ↦ absurd (ground (arith, e, h))
  | inr (rem, e) ↦ elim (Bool-cases (g.matcher (split_component rem).0)) [
    | inl m ↦
        Left-after g.prefix rem target r (strip_prefix→eq g.prefix target rem e)
          (strip_globs-Left globs (split_component rem).1 r (ground (arith, e, m, h)))
    | inr m ↦ absurd (ground (arith, e, m, h))
  ]
]

last_char-append :
    (a last : Text)
    → is_empty last ≡ false
    → last_char_is_slash (a ++ last) ≡ last_char_is_slash last
last_char-append [] last h = refl
last_char-append (c ∷ []) [] h = cc
last_char-append (c ∷ []) (d ∷ last) h = refl
last_char-append (c ∷ (d ∷ a)) last h = last_char-append (d ∷ a) last h

whole :
    (last r : Text)
    → breaks_component last r ≡ false
    → (last_char_is_slash last ≡ true) ⊎ IsComponentStart r
whole last [] h = inr (inl refl)
whole last (c ∷ r) h = elim (Bool-cases (slash_at (c ∷ r))) [
  | inl e ↦ inr (inr e)
  | inr e ↦ elim (Bool-cases (last_char_is_slash last)) [
    | inl q ↦ inl q
    | inr q ↦ absurd (ground (arith, e, q, h))
  ]
]

pub strip_last-boundary :
    (last target t r : Text)
    → Left target t
    → strip_last last t ≡ some r
    → (a : Text) × ((target ≡ a ++ r)
        × ((a ≡ []) ⊎ ((last_char_is_slash a ≡ true) ⊎ IsComponentStart r)))
unfolding strip_last
strip_last-boundary last target t r (a, (q, o)) h = elim (Bool-cases (is_empty last)) [
  | inl e ↦
      let z = some-injective t r (ground (arith, e, h)) in
      (
        a,
        (
          q ∙ ap (◌++◌ a) z,
          elim o [ inl x ↦ inl x | inr x ↦ inr (inr (subst IsComponentStart z x)) ],
        ),
      )
  | inr e ↦ elim (Option-cases (strip_prefix last t)) [
    | inl p ↦ absurd (ground (arith, e, p, h))
    | inr (rem, p) ↦ elim (Bool-cases (breaks_component last rem)) [
      | inl b ↦ absurd (ground (arith, e, p, b, h))
      | inr b ↦
          let z = some-injective rem r (ground (arith, e, p, b, h)) in
          (
            a ++ last,
            (
              q
                  ∙ ap (◌++◌ a) (strip_prefix→eq last t rem p ∙ ap (◌++◌ last) z)
                  ∙ sym (append_assoc a last r),
              inr (elim (whole last rem b) [
                | inl x ↦ inl (last_char-append a last e ∙ x)
                | inr x ↦ inr (subst IsComponentStart z x)
              ]),
            ),
          )
    ]
  ]
]

IsBoundary-of :
    (target r : Text) (i : ℕ)
    → (a : Text) × ((target ≡ a ++ r)
        × ((a ≡ []) ⊎ ((last_char_is_slash a ≡ true) ⊎ IsComponentStart r)))
    → length target - length r ≡ i
    → IsBoundary target i
IsBoundary-of target r i (a, (q, o)) h = record {
  before = a;
  after = r;
  parts = q;
  index = omega (arith, h, ap length q, length-append a r);
  outside = o;
}

-- Where a pattern without two stars matches, the match ends at a boundary of the path's components:
-- no component is cut in two.
pub no_double_star-IsBoundary :
    (globs : List GlobSegment) (last target : Text) (i : ℕ)
    → find_path_prefix (no_double_star globs last) target ≡ some i
    → IsBoundary target i
unfolding find_path_prefix
no_double_star-IsBoundary globs last target i h = elim (Option-cases (strip_globs globs target)) [
  | inl e ↦ absurd (ground (arith, e, h))
  | inr (t, e) ↦ elim (Option-cases (strip_last last t)) [
    | inl p ↦ absurd (ground (arith, e, p, h))
    | inr (r, p) ↦
        IsBoundary-of target r i
          (strip_last-boundary last target t r (strip_globs-Left globs target t e) p)
          (some-injective _ i (ground (arith, e, p, h)))
  ]
]
