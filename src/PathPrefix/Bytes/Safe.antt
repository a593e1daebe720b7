-- ===== src/PathPrefix/Bytes/Safe.antt =====
-- The slices do not panic.
use mathlib.Core.List.{append_assoc, reverse-append, reverse-reverse}
use signal_gateway.Common.{
  ℕ, zero, suc, ◌+◌, ◌-◌, ◌≡◌, refl, sym, ap, ◌∙◌, subst, inl, inr, Bool-cases, some, List, [], ◌∷◌,
  ◌++◌, map, reverse, arith, All, length, length-append, length-reverse, take, drop,
  take-append_length, drop-append_length,
}
use signal_gateway.Common.Text.{Text, utf8_width, utf8_len, starts_with, starts_with_iff}
use signal_gateway.Gateway.{slice_to}
use signal_gateway.Gateway.Summaries.{width_positive, add_less, slice_to-append}
use signal_gateway.PathPrefix.{match_from, match_indices, rmatch_indices}
use signal_gateway.PathPrefix.Bytes.{slice_from, byte_index}

pub utf8_len-append : (s t : Text) → utf8_len (s ++ t) ≡ utf8_len s + utf8_len t
unfolding utf8_len
utf8_len-append [] t = omega arith
utf8_len-append (c ∷ s) t = omega (arith, utf8_len-append s t)

slice_from-zero : (s : Text) → slice_from s 0 ≡ some s
unfolding slice_from
slice_from-zero [] = refl
slice_from-zero (c ∷ s) = refl

slice_from-cons :
    (c : ℕ) (s : Text) (n : ℕ) → slice_from (c ∷ s) (utf8_width c + n) ≡ slice_from s n
unfolding slice_from
slice_from-cons c s n = ground (arith, width_positive c, add_less (utf8_width c) n)

pub slice_from-append : (p r : Text) → slice_from (p ++ r) (utf8_len p) ≡ some r
unfolding utf8_len
slice_from-append [] r = slice_from-zero r
slice_from-append (c ∷ p) r = slice_from-cons c (p ++ r) (utf8_len p) ∙ slice_from-append p r

-- A needle stands at an index.
pub record IsMatch (needle s : Text) (i : ℕ) : Type 0 where
  pub before : Text
  pub after : Text
  pub parts : s ≡ before ++ (needle ++ after)
  pub index : length before ≡ i

snoc-length : (pre : Text) (c : ℕ) → length (pre ++ c ∷ []) ≡ suc (length pre)
snoc-length pre c = omega (arith, length-append pre (c ∷ []))

move_on :
    (needle : Text) (skip : ℕ) (pre : Text) (c : ℕ) (s : Text)
    → All (IsMatch needle (pre ++ c ∷ [] ++ s)) (match_from needle skip (length (pre ++ c ∷ [])) s)
    → All (IsMatch needle (pre ++ c ∷ s)) (match_from needle skip (suc (length pre)) s)
move_on needle skip pre c s h =
    subst (λ t. All (IsMatch needle t) (match_from needle skip (suc (length pre)) s))
      (append_assoc pre (c ∷ []) s)
      (subst (λ n. All (IsMatch needle (pre ++ c ∷ [] ++ s)) (match_from needle skip n s))
        (snoc-length pre c) h)

match_from-IsMatch :
    (needle : Text) (skip : ℕ) (pre s : Text)
    → All (IsMatch needle (pre ++ s)) (match_from needle skip (length pre) s)
unfolding match_from
match_from-IsMatch [] skip pre [] =
    (record { before = pre; after = []; parts = refl; index = refl }, tt)
match_from-IsMatch (d ∷ needle) skip pre [] = tt
match_from-IsMatch needle (suc skip) pre (c ∷ s) =
    move_on needle skip pre c s (match_from-IsMatch needle skip (pre ++ c ∷ []) s)
match_from-IsMatch needle zero pre (c ∷ s) = elim (Bool-cases (starts_with needle (c ∷ s))) [
  | inl e ↦
      let (r, q) = (starts_with_iff needle (c ∷ s)).0 e in
      rw (e, match_from)
        (
          record { before = pre; after = r; parts = ap (◌++◌ pre) q; index = refl },
          move_on needle (length needle - 1) pre c s
              (match_from-IsMatch needle (length needle - 1) (pre ++ c ∷ []) s),
        )
  | inr e ↦
      rw (e, match_from) (move_on needle 0 pre c s (match_from-IsMatch needle 0 (pre ++ c ∷ []) s))
]

pub match_indices-IsMatch : (needle s : Text) → All (IsMatch needle s) (match_indices needle s)
unfolding match_indices
match_indices-IsMatch needle s = match_from-IsMatch needle 0 [] s

map_All :
    (f : ℕ → ℕ) (P Q : ℕ → Type 0)
    → ((i : ℕ) → P i → Q (f i))
    → (xs : List ℕ) → All P xs
    → All Q (map f xs)
map_All f P Q k [] h = tt
map_All f P Q k (x ∷ xs) h = (k x h.0, map_All f P Q k xs h.1)

-- A match from the right.
reverse-IsMatch :
    (needle s : Text) (j : ℕ)
    → IsMatch (reverse needle) (reverse s) j
    → IsMatch needle s (length s - (j + length needle))
reverse-IsMatch needle s j m =
    let parts : s ≡ reverse m.after ++ (needle ++ reverse m.before) =
      sym (reverse-reverse s)
      ∙ ap reverse m.parts
      ∙ reverse-append m.before (reverse needle ++ m.after)
      ∙ ap (λ x. x ++ reverse m.before) (reverse-append (reverse needle) m.after)
      ∙ append_assoc (reverse m.after) (reverse (reverse needle)) (reverse m.before)
      ∙ ap (λ x. reverse m.after ++ (x ++ reverse m.before)) (reverse-reverse needle) in
    record {
      before = reverse m.after;
      after = reverse m.before;
      parts = parts;
      index = omega (
        arith,
        ap length parts,
        length-append (reverse m.after) (needle ++ reverse m.before),
        length-append needle (reverse m.before),
        length-reverse m.before,
        m.index,
      );
    }

pub rmatch_indices-IsMatch : (needle s : Text) → All (IsMatch needle s) (rmatch_indices needle s)
unfolding rmatch_indices
rmatch_indices-IsMatch needle s =
    map_All (λ j. length s - (j + length needle)) (IsMatch (reverse needle) (reverse s))
      (IsMatch needle s) (reverse-IsMatch needle s) (match_indices (reverse needle) (reverse s))
      (match_indices-IsMatch (reverse needle) (reverse s))

take_beyond : (p r : Text) (idx : ℕ) → take (idx + length p) (p ++ r) ≡ p ++ take idx r
take_beyond [] r idx = ap (λ n. take n r) (plain idx)
  where
    plain : (n : ℕ) → n + 0 ≡ n
    plain n = omega arith
take_beyond (c ∷ p) r idx =
    ap (λ n. take n (c ∷ (p ++ r))) (next idx (length p)) ∙ ap (◌∷◌ c) (take_beyond p r idx)
  where
    next : (m n : ℕ) → m + suc n ≡ suc (m + n)
    next m n = omega arith

module _ (needle s : Text) (i : ℕ) (m : IsMatch needle s i) where
  -- The text up to a match.
  taken : take i s ≡ m.before
  taken =
      subst (λ n. take n s ≡ m.before) m.index
        (ap (take (length m.before)) m.parts ∙ take-append_length m.before (needle ++ m.after))

  regrouped : s ≡ m.before ++ needle ++ m.after
  regrouped = m.parts ∙ sym (append_assoc m.before needle m.after)

  end_index : length (m.before ++ needle) ≡ i + length needle
  end_index = omega (arith, length-append m.before needle, m.index)

  left_behind : drop (i + length needle) s ≡ m.after
  left_behind =
      subst (λ n. drop n s ≡ m.after) end_index
        (ap (drop (length (m.before ++ needle))) regrouped
          ∙ drop-append_length (m.before ++ needle) m.after)

  end_bytes : utf8_len (m.before ++ needle) ≡ byte_index s i + utf8_len needle
  end_bytes = utf8_len-append m.before needle ∙ ap (λ p. utf8_len p + utf8_len needle) (sym taken)

  -- Both slices at a match are cut where a character ends.
  pub slice_to-match : slice_to s (byte_index s i) ≡ some (take i s)
  slice_to-match =
      ap (λ t. slice_to t (byte_index s i)) m.parts
      ∙ ap (λ p. slice_to (m.before ++ (needle ++ m.after)) (utf8_len p)) taken
      ∙ slice_to-append m.before (needle ++ m.after)
      ∙ ap some (sym taken)

  pub slice_from-match :
      slice_from s (byte_index s i + utf8_len needle) ≡ some (drop (i + length needle) s)
  slice_from-match =
      ap (slice_from s) (sym end_bytes)
      ∙ ap (λ t. slice_from t (utf8_len (m.before ++ needle))) regrouped
      ∙ slice_from-append (m.before ++ needle) m.after
      ∙ ap some (sym left_behind)

  pub byte_index-match :
      (idx : ℕ)
      → byte_index s (idx + (i + length needle))
        ≡ byte_index (drop (i + length needle) s) idx + (byte_index s i + utf8_len needle)
  byte_index-match idx =
      let whole : take (idx + (i + length needle)) s ≡ m.before ++ needle ++ take idx m.after =
        ap (λ n. take (idx + n) s) (sym end_index)
        ∙ ap (take (idx + length (m.before ++ needle))) regrouped
        ∙ take_beyond (m.before ++ needle) m.after idx in
      omega (
        arith,
        ap utf8_len whole,
        utf8_len-append (m.before ++ needle) (take idx m.after),
        end_bytes,
        ap (λ r. utf8_len (take idx r)) left_behind,
      )
