-- ===== src/PathPrefix/Bytes.antt =====
-- `find_path_prefix` of signal-gateway-log-ingest/src/path_prefix.rs with its indices in bytes, as they
-- are in the code, and with the panics of its slices: none of the outer Option. The searches of `str`
-- give the bytes before a match.
pub mod Safe
pub mod Agree
use signal_gateway.Common.{
  ℕ, ◌+◌, ◌-◌, Option, none, some, List, [], ◌∷◌, map, if◌then◌else◌, leb, take,
}
use signal_gateway.Common.Text.{Text, utf8_width, utf8_len}
use signal_gateway.Syslog.{and_then}
use signal_gateway.Gateway.{slice_to}
use signal_gateway.PathPrefix.{
  Finder, lone_double_star, leading_double_star, mid_double_star, no_double_star, match_indices,
  rmatch_indices, strip_globs, strip_last,
}

-- `&s[n..]`: none where it panics, which it does where there are fewer bytes or the cut is within a
-- character.
unfoldable pub slice_from : Text → ℕ → Option Text
slice_from [] n = if leb n 0 then some [] else none
slice_from (c ∷ s) n =
    let rest = slice_from s (n - utf8_width c) in
    if leb n 0 then some (c ∷ s) else if leb (utf8_width c) n then rest else none

-- The byte at which a character of a text begins.
abbrev pub byte_index : Text → ℕ → ℕ
byte_index s i = utf8_len (take i s)

abbrev pub Found : Type 0
Found = Option (Option ℕ)

abbrev pub then_found : ℕ → Found → Found → Found
then_found n none otherwise = none
then_found n (some none) otherwise = otherwise
then_found n (some (some idx)) otherwise = some (some (idx + n))

abbrev pub on_slice : Option Text → (Text → Found) → Found
on_slice none f = none
on_slice (some s) f = f s

pub search_right_bytes : (Text → Found) → ℕ → Text → List ℕ → Found
search_right_bytes child len target [] = some none
search_right_bytes child len target (slash_idx ∷ is) =
    let rest = search_right_bytes child len target is in
    let target_right = slash_idx + len in
    on_slice (slice_from target target_right) (λ s. then_found target_right (child s) rest)

-- What is done after the match on the left.
abbrev pub on_left : Found → Found → Found → Found
on_left none right otherwise = none
on_left (some none) right otherwise = otherwise
on_left (some (some idx)) right otherwise = right

pub search_left_bytes : (Text → Found) → (Text → Found) → ℕ → Text → List ℕ → Found
search_left_bytes left right len target [] = some none
search_left_bytes left right len target (needle_match_idx ∷ is) =
    let rest = search_left_bytes left right len target is in
    let target_right = needle_match_idx + len in
    on_slice (slice_to target needle_match_idx) (λ s.
      on_left (left s)
        (on_slice (slice_from target target_right)
          (λ r. then_found target_right (right r) (some none)))
        rest)

abbrev pub matched_bytes : Text → Option Text → Option ℕ
matched_bytes target none = none
matched_bytes target (some remaining) = some (utf8_len target - utf8_len remaining)

unfoldable pub find_bytes : Finder → Text → Found
unfolding search_right_bytes search_left_bytes
find_bytes lone_double_star target = some (some (utf8_len target))
find_bytes (leading_double_star rneedle child) target =
    search_right_bytes (λ s. find_bytes child s) (utf8_len rneedle) target
      (map (byte_index target) (rmatch_indices rneedle target))
find_bytes (mid_double_star needle left_child right_child) target =
    search_left_bytes (λ s. find_bytes left_child s) (λ s. find_bytes right_child s)
      (utf8_len needle) target (map (byte_index target) (match_indices needle target))
find_bytes (no_double_star globs last) target =
    some (matched_bytes target (and_then (strip_globs globs target) (strip_last last)))

-- `Finder::strip_path_prefix`.
unfoldable pub strip_bytes : Finder → Text → Option Text
strip_bytes f target = elim (find_bytes f target) [
  | none ↦ none
  | some none ↦ some target
  | some (some idx) ↦ slice_from target idx
]
