-- ===== src/Common/Text.antt =====
-- Text as the list of its characters (Unicode scalar values), and the operations of Rust's `str`
-- that the code uses, each with what it says of the text.
use Prim.Native.Char.{code}
use Prim.Native.String.{String}
use signal_gateway.Common.{
  ℕ, ◌+◌, ◌≡◌, refl, ap, subst, ◌≢◌, ◌↔◌, inl, inr, Bool, true, false, ◌&&◌, ◌||◌, Option, none,
  some, List, [], ◌∷◌, ◌++◌, arith, if◌then◌else◌, ltb, ◌==◌, ==_refl, Bool-cases, Option-cases,
  All,
}

abbrev pub Text : Type 0
Text = List ℕ

-- A literal.
abbrev pub codes : String → Text
codes String.[] = []
codes (String.◌∷◌ c s) = code c ∷ codes s

abbrev pub is_empty : Text → Bool
is_empty [] = true
is_empty (c ∷ s) = false

unfoldable pub text_eq : Text → Text → Bool
text_eq [] [] = true
text_eq [] (d ∷ t) = false
text_eq (c ∷ s) [] = false
text_eq (c ∷ s) (d ∷ t) = c == d && text_eq s t

pub text_eq→eq : (s t : Text) → text_eq s t ≡ true → s ≡ t
unfolding text_eq
text_eq→eq [] [] h = refl
text_eq→eq [] (d ∷ t) h = cc
text_eq→eq (c ∷ s) [] h = cc
text_eq→eq (c ∷ s) (d ∷ t) h = ground (arith, text_eq→eq s t)

pub text_eq_refl : (s : Text) → text_eq s s ≡ true
unfolding text_eq
text_eq_refl [] = refl
text_eq_refl (c ∷ s) = ground (arith, text_eq_refl s)

pub text_eq_iff : (s t : Text) → (text_eq s t ≡ true) ↔ (s ≡ t)
text_eq_iff s t = (text_eq→eq s t, λ e. subst (λ u. text_eq s u ≡ true) e (text_eq_refl s))

-- `s.strip_prefix(p)`, the pattern first.
unfoldable pub strip_prefix : Text → Text → Option Text
strip_prefix [] s = some s
strip_prefix (c ∷ p) [] = none
strip_prefix (c ∷ p) (d ∷ s) = if c == d then strip_prefix p s else none

pub strip_prefix-append : (p s : Text) → strip_prefix p (p ++ s) ≡ some s
unfolding strip_prefix
strip_prefix-append [] s = refl
strip_prefix-append (c ∷ p) s = rw ==_refl (strip_prefix-append p s)

pub strip_prefix→eq : (p s r : Text) → strip_prefix p s ≡ some r → s ≡ p ++ r
unfolding strip_prefix
strip_prefix→eq [] s r h = ground arith
strip_prefix→eq (c ∷ p) [] r h = cc
strip_prefix→eq (c ∷ p) (d ∷ s) r h = ground (arith, strip_prefix→eq p s r)

abbrev pub is_some {ℓ} : {A : Type ℓ} → Option A → Bool
is_some none = false
is_some (some a) = true

-- `s.starts_with(p)`, the pattern first.
unfoldable pub starts_with : Text → Text → Bool
starts_with p s = is_some (strip_prefix p s)

pub starts_with_iff : (p s : Text) → (starts_with p s ≡ true) ↔ ((r : Text) × (s ≡ p ++ r))
unfolding starts_with
starts_with_iff p s = (to, λ h. rw (h.1, strip_prefix-append))
  where
    to : is_some (strip_prefix p s) ≡ true → (r : Text) × (s ≡ p ++ r)
    to h = elim (Option-cases (strip_prefix p s)) [
      | inl e ↦ absurd (ground (arith, e))
      | inr (r, e) ↦ (r, strip_prefix→eq p s r e)
    ]

-- `s.contains(p)`, the pattern first.
unfoldable pub contains : Text → Text → Bool
contains p [] = starts_with p []
contains p (d ∷ s) = starts_with p (d ∷ s) || contains p s

abbrev pub IsSubstring : Text → Text → Type 0
IsSubstring p s = (before : Text) × (after : Text) × (s ≡ before ++ (p ++ after))

contains→IsSubstring : (p s : Text) → contains p s ≡ true → IsSubstring p s
unfolding contains
contains→IsSubstring p [] h = let (r, e) = (starts_with_iff p []).0 h in ([], r, e)
contains→IsSubstring p (d ∷ s) h = elim (Bool-cases (starts_with p (d ∷ s))) [
  | inl e ↦ let (r, q) = (starts_with_iff p (d ∷ s)).0 e in ([], r, q)
  | inr e ↦ let (b, a, q) = contains→IsSubstring p s (ground arith) in (d ∷ b, a, ap (◌∷◌ d) q)
]

contains_of_starts_with : (p s : Text) → starts_with p s ≡ true → contains p s ≡ true
unfolding contains
contains_of_starts_with p [] h = h
contains_of_starts_with p (d ∷ s) h = rw h

contains-append : (p before after : Text) → contains p (before ++ (p ++ after)) ≡ true
unfolding contains
contains-append p [] after =
    contains_of_starts_with p (p ++ after) ((starts_with_iff p (p ++ after)).1 (after, refl))
contains-append p (d ∷ before) after = ground (arith, contains-append p before after)

pub contains_iff : (p s : Text) → (contains p s ≡ true) ↔ IsSubstring p s
contains_iff p s = (contains→IsSubstring p s, λ (b, a, e). rw e (contains-append p b a))

-- `s.split_once(c)`: what stands before and behind the first `c`.
unfoldable pub split_once : ℕ → Text → Option (Text × Text)
split_once c [] = none
split_once c (d ∷ s) =
    if d == c
    then some ([], s)
    else (elim (split_once c s) [ none ↦ none | some (a, b) ↦ some (d ∷ a, b) ])

pub split_once-append :
    (c : ℕ) (a b : Text) → All (λ d. d ≢ c) a → split_once c (a ++ c ∷ b) ≡ some (a, b)
unfolding split_once
split_once-append c [] b h = rw ==_refl
split_once-append c (d ∷ a) b h = ground (arith, split_once-append c a b h.1)

pub split_once-none : (c : ℕ) (s : Text) → All (λ d. d ≢ c) s → split_once c s ≡ none
unfolding split_once
split_once-none c [] h = refl
split_once-none c (d ∷ s) h = ground (arith, split_once-none c s h.1)

-- The bytes of a text in UTF-8: `s.len()`.
abbrev pub utf8_width : ℕ → ℕ
utf8_width c = if ltb c 0x80 then 1 else if ltb c 0x800 then 2 else if ltb c 0x10000 then 3 else 4

unfoldable pub utf8_len : Text → ℕ
utf8_len [] = 0
utf8_len (c ∷ s) = utf8_width c + utf8_len s
