-- ===== src/PathPrefix/Bytes/Agree.antt =====
-- The search in bytes does not panic, and finds what the search in characters finds.
use signal_gateway.Common.{
  ℕ, ◌+◌, ◌-◌, ◌≡◌, refl, sym, ap, ◌∙◌, inl, inr, Option, Option-cases, none, some, List, [], ◌∷◌,
  ◌++◌, map, arith, All, length, length-append, take, drop, take-append_length,
}
use signal_gateway.Common.Text.{Text, utf8_len}
use signal_gateway.Syslog.{and_then}
use signal_gateway.PathPrefix.{
  GlobSegment, Finder, lone_double_star, leading_double_star, mid_double_star, no_double_star,
  match_indices, rmatch_indices, search_right, search_left, find_path_prefix, strip_globs,
  strip_last, matched_length,
}
use signal_gateway.PathPrefix.Components.{strip_globs-Left, strip_last-boundary}
use signal_gateway.PathPrefix.Bytes.{
  byte_index, Found, search_right_bytes, search_left_bytes, matched_bytes, find_bytes,
}
use signal_gateway.PathPrefix.Bytes.Safe.{
  utf8_len-append, IsMatch, match_indices-IsMatch, rmatch_indices-IsMatch, slice_to-match,
  slice_from-match, byte_index-match,
}

abbrev pub in_bytes : Text → Option ℕ → Option ℕ
in_bytes s none = none
in_bytes s (some i) = some (byte_index s i)

-- A search in bytes that does not panic and agrees with one in characters.
abbrev Agrees : (Text → Found) → (Text → Option ℕ) → Type 0
Agrees g f = (s : Text) → g s ≡ some (in_bytes s (f s))

search_right-Agrees :
    (g : Text → Found) (f : Text → Option ℕ) (needle target : Text) (is : List ℕ)
    → Agrees g f
    → All (IsMatch needle target) is
    → search_right_bytes g (utf8_len needle) target (map (byte_index target) is)
      ≡ some (in_bytes target (search_right f (length needle) target is))
unfolding search_right_bytes search_right
search_right-Agrees g f needle target [] h ms = refl
search_right-Agrees g f needle target (i ∷ is) h (m, ms) =
    let rest = drop (i + length needle) target in
    elim (Option-cases (f rest)) [
      | inl e ↦
          rw (slice_from-match needle target i m, h rest, e, search_right)
            (search_right-Agrees g f needle target is h ms)
      | inr (idx, e) ↦
          rw (slice_from-match needle target i m, h rest, e, search_right)
            (ap (λ n. some (some n)) (sym (byte_index-match needle target i m idx)))
    ]

search_left-Agrees :
    (g k : Text → Found) (f r : Text → Option ℕ) (needle target : Text) (is : List ℕ)
    → Agrees g f
    → Agrees k r
    → All (IsMatch needle target) is
    → search_left_bytes g k (utf8_len needle) target (map (byte_index target) is)
      ≡ some (in_bytes target (search_left f r (length needle) target is))
unfolding search_left_bytes search_left
search_left-Agrees g k f r needle target [] h l ms = refl
search_left-Agrees g k f r needle target (i ∷ is) h l (m, ms) =
    let rest = drop (i + length needle) target in
    elim (Option-cases (f (take i target))) [
      | inl e ↦
          rw (slice_to-match needle target i m, h (take i target), e, search_left)
            (search_left-Agrees g k f r needle target is h l ms)
      | inr (idx, e) ↦ elim (Option-cases (r rest)) [
        | inl q ↦ rw (
          slice_to-match needle target i m,
          h (take i target),
          e,
          slice_from-match needle target i m,
          l rest,
          q,
          search_left,
        )
        | inr (ridx, q) ↦
            rw
              (
                slice_to-match needle target i m,
                h (take i target),
                e,
                slice_from-match needle target i m,
                l rest,
                q,
                search_left,
              )
              (ap (λ n. some (some n)) (sym (byte_index-match needle target i m ridx)))
      ]
    ]

suffix_bytes :
    (target a r : Text)
    → target ≡ a ++ r
    → utf8_len target - utf8_len r ≡ byte_index target (length target - length r)
suffix_bytes target a r e = omega (arith, bytes, ap utf8_len chars)
  where
    bytes : utf8_len target ≡ utf8_len a + utf8_len r
    bytes = ap utf8_len e ∙ utf8_len-append a r

    before : (n m k : ℕ) → n ≡ m + k → n - k ≡ m
    before n m k h = omega arith

    chars : take (length target - length r) target ≡ a
    chars =
        ap (λ n. take n target)
          (before (length target) (length a) (length r) (ap length e ∙ length-append a r))
        ∙ ap (take (length a)) e
        ∙ take-append_length a r

matched-agrees :
    (globs : List GlobSegment) (last target : Text)
    → let remaining = and_then (strip_globs globs target) (strip_last last) in
      matched_bytes target remaining ≡ in_bytes target (matched_length target remaining)
matched-agrees globs last target = elim (Option-cases (strip_globs globs target)) [
  | inl e ↦ rw e
  | inr (t, e) ↦ elim (Option-cases (strip_last last t)) [
    | inl p ↦ rw (e, p)
    | inr (r, p) ↦
        let (a, (q, o)) =
          strip_last-boundary last target t r (strip_globs-Left globs target t e) p in
        rw (e, p) (ap some (suffix_bytes target a r q))
  ]
]

length_all : (s : Text) → take (length s) s ≡ s
length_all [] = refl
length_all (c ∷ s) = ap (◌∷◌ c) (length_all s)

-- Whatever the pattern and the path, no slice of the search is out of range or within a character,
-- and the byte that it finds is the one at which the character begins that the search in characters
-- finds.
pub find_bytes-find_path_prefix :
    (f : Finder) (target : Text)
    → find_bytes f target ≡ some (in_bytes target (find_path_prefix f target))
unfolding find_bytes find_path_prefix
find_bytes-find_path_prefix lone_double_star target =
    ap (λ s. some (some (utf8_len s))) (sym (length_all target))
find_bytes-find_path_prefix (leading_double_star rneedle child) target =
    search_right-Agrees (find_bytes child) (find_path_prefix child) rneedle target
      (rmatch_indices rneedle target) (find_bytes-find_path_prefix child)
      (rmatch_indices-IsMatch rneedle target)
find_bytes-find_path_prefix (mid_double_star needle left_child right_child) target =
    search_left-Agrees (find_bytes left_child) (find_bytes right_child)
      (find_path_prefix left_child) (find_path_prefix right_child) needle target
      (match_indices needle target) (find_bytes-find_path_prefix left_child)
      (find_bytes-find_path_prefix right_child) (match_indices-IsMatch needle target)
find_bytes-find_path_prefix (no_double_star globs last) target =
    ap some (matched-agrees globs last target)
