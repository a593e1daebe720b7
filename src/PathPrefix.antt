-- ===== src/PathPrefix.antt =====
-- signal-gateway-log-ingest/src/path_prefix.rs: glob patterns whose matches are stripped off the start
-- of a path. Texts are lists of characters, and an index counts those here; Bytes has the search with
-- the code's indices in bytes. The matcher of a glob within a path's component (the `globset` crate) is
-- a parameter, none where a glob is not valid.
pub mod Bounds
pub mod Bytes
pub mod Patterns
pub mod Components
mod Tests
use signal_gateway.Common.{
  ℕ, zero, suc, ◌+◌, ◌-◌, Bool, true, false, not, ◌&&◌, ◌||◌, Option, none, some, List, [], ◌∷◌,
  ◌++◌, reverse, map, if◌then◌else◌, ◌==◌, length, take, drop,
}
use signal_gateway.Common.Text.{Text, codes, is_empty, strip_prefix, starts_with}
use signal_gateway.Syslog.{and_then}

abbrev pub Matcher : Type 0
Matcher = Text → Bool

pub record GlobSegment : Type 0 where
  pub prefix : Text
  pub matcher : Matcher

-- `LeadingDoubleStar` is two constructors, without and with a child.
pub data Finder : Type 0 where
  lone_double_star : Finder
  leading_double_star : Text → Finder → Finder
  mid_double_star : Text → Finder → Finder → Finder
  no_double_star : List GlobSegment → Text → Finder

abbrev pub is_meta : ℕ → Bool
is_meta c = c == b'*' || (c == b'?' || (c == b'[' || c == b']'))

-- `find` and `rfind` of the metacharacters, and `find` of the two stars.
pub find_meta : Text → Option ℕ
find_meta [] = none
find_meta (c ∷ s) =
    let rest = find_meta s in
    if is_meta c then some 0 else (elim rest [ none ↦ none | some i ↦ some (suc i) ])

pub rfind_meta : Text → Option ℕ
rfind_meta [] = none
rfind_meta (c ∷ s) = elim (rfind_meta s) [
  | some i ↦ some (suc i)
  | none ↦ (if is_meta c then some 0 else none)
]

pub find_double_star : Text → Option ℕ
find_double_star [] = none
find_double_star (c ∷ s) =
    let rest = find_double_star s in
    if starts_with (codes "**") (c ∷ s)
    then some 0
    else (elim rest [ none ↦ none | some i ↦ some (suc i) ])

abbrev pub or_index : Option ℕ → ℕ → ℕ
or_index none d = d
or_index (some i) d = i

abbrev pub has_meta : Text → Bool
has_meta s = elim (find_meta s) [ none ↦ false | some i ↦ true ]

-- `s.split('/')`: at least one segment.
unfoldable pub split_slashes : Text → List Text
split_slashes [] = [] ∷ []
split_slashes (c ∷ s) =
    let rest = split_slashes s in
    if c == b'/' then [] ∷ rest else (elim rest [ [] ↦ (c ∷ []) ∷ [] | p ∷ ps ↦ (c ∷ p) ∷ ps ])

-- What `new` leads to.
pub data Built : Type 0 where
  built : Finder → Built
  panicked : Built
  out_of_fuel : Built

abbrev pub then_built : Built → (Finder → Built) → Built
then_built (built f) k = k f
then_built panicked k = panicked
then_built out_of_fuel k = out_of_fuel

-- `s[i] == '/'` of a byte that is there.
abbrev pub slash_at : Text → Bool
slash_at [] = false
slash_at (c ∷ s) = c == b'/'

-- The place behind the last metacharacter, or the start.
abbrev pub after_meta : Option ℕ → ℕ
after_meta none = 0
after_meta (some i) = i + 1

module _ (glob : Text → Option Matcher) where
  -- The loop over the segments, with the literal in progress.
  pub build_segments : Bool → Text → List GlobSegment → List Text → Built
  build_segments first working globs [] = built (no_double_star globs working)
  build_segments first working globs (segment ∷ segments) =
      let working' = if first then working else working ++ codes "/" in
      if has_meta segment
      then (elim (glob segment) [
        | none ↦ panicked
        | some matcher ↦
            build_segments false [] (globs ++ record { prefix = working'; matcher = matcher } ∷ [])
              segments
      ])
      else build_segments false (working' ++ segment) globs segments

  -- The recursion, on fuel: each part is shorter than the pattern.
  pub new_fuel : ℕ → Text → Built
  unfolding build_segments find_meta rfind_meta find_double_star
  new_fuel zero pattern = out_of_fuel
  new_fuel (suc fuel) pattern = elim (find_double_star pattern) [
    | none ↦ build_segments true [] [] (split_slashes pattern)
    | some star2_idx ↦
        (let rem = drop 2 pattern in
          let lits = or_index (find_meta rem) (length rem) in
          let pref = take star2_idx pattern in
          let st = after_meta (rfind_meta pref) in
          let right = new_fuel fuel (drop lits rem) in
          let left_child = new_fuel fuel (take st pref) in
          let right_child = new_fuel fuel (drop star2_idx pattern) in
          if star2_idx == 0
          then (if length pattern == 2
              then built lone_double_star
              else if slash_at rem
              then then_built right (λ child. built (leading_double_star (take lits rem) child))
              else panicked)
          else if slash_at (drop (star2_idx - 1) pattern)
          then then_built left_child
              (λ l. then_built right_child (λ r. built (mid_double_star (drop st pref) l r)))
          else panicked)
  ]

  unfoldable pub new : Text → Built
  unfolding new_fuel
  new pattern = new_fuel (suc (length pattern)) pattern

-- The starts of the matches of a needle, from the left; `skip` characters belong to the last match.
pub match_from : Text → ℕ → ℕ → Text → List ℕ
match_from needle skip i [] = if is_empty needle then i ∷ [] else []
match_from needle (suc skip) i (c ∷ s) = match_from needle skip (suc i) s
match_from needle zero i (c ∷ s) =
    let found = match_from needle (length needle - 1) (suc i) s in
    let rest = match_from needle 0 (suc i) s in
    if starts_with needle (c ∷ s) then i ∷ found else rest

unfoldable pub match_indices : Text → Text → List ℕ
unfolding match_from
match_indices needle s = match_from needle 0 0 s

-- From the right.
unfoldable pub rmatch_indices : Text → Text → List ℕ
unfolding match_indices
rmatch_indices needle s =
    map (λ j. length s - (j + length needle)) (match_indices (reverse needle) (reverse s))

-- The part before the first `/`, and the rest with it.
unfoldable pub split_component : Text → Text × Text
split_component [] = ([], [])
split_component (c ∷ s) =
    let (a, b) = split_component s in if c == b'/' then ([], c ∷ s) else (c ∷ a, b)

-- The loop over the globs: what is left of the target.
pub strip_globs : List GlobSegment → Text → Option Text
strip_globs [] target = some target
strip_globs (g ∷ globs) target = elim (strip_prefix g.prefix target) [
  | none ↦ none
  | some rem ↦
      (let (component, others) = split_component rem in
        if g.matcher component then strip_globs globs others else none)
]

abbrev pub last_char_is_slash : Text → Bool
last_char_is_slash [] = false
last_char_is_slash (c ∷ []) = c == b'/'
last_char_is_slash (c ∷ (d ∷ s)) = last_char_is_slash (d ∷ s)

abbrev pub breaks_component : Text → Text → Bool
breaks_component last remaining =
    not (is_empty remaining) && (not (slash_at remaining) && not (last_char_is_slash last))

pub strip_last : Text → Text → Option Text
strip_last last target = if is_empty last then some target else (elim (strip_prefix last target) [
  | none ↦ none
  | some remaining ↦ (if breaks_component last remaining then none else some remaining)
])

abbrev pub matched_length : Text → Option Text → Option ℕ
matched_length target none = none
matched_length target (some remaining) = some (length target - length remaining)

-- The backtracking searches, over the matches of a needle.
pub search_right : (Text → Option ℕ) → ℕ → Text → List ℕ → Option ℕ
search_right child len target [] = none
search_right child len target (i ∷ is) = elim (child (drop (i + len) target)) [
  | some idx ↦ some (idx + (i + len))
  | none ↦ search_right child len target is
]

abbrev pub add_to : ℕ → Option ℕ → Option ℕ
add_to n none = none
add_to n (some i) = some (i + n)

pub search_left : (Text → Option ℕ) → (Text → Option ℕ) → ℕ → Text → List ℕ → Option ℕ
search_left left right len target [] = none
search_left left right len target (i ∷ is) = elim (left (take i target)) [
  | some idx ↦ add_to (i + len) (right (drop (i + len) target))
  | none ↦ search_left left right len target is
]

unfoldable pub find_path_prefix : Finder → Text → Option ℕ
unfolding strip_globs strip_last search_right search_left
find_path_prefix lone_double_star target = some (length target)
find_path_prefix (leading_double_star rneedle child) target =
    search_right (λ s. find_path_prefix child s) (length rneedle) target
      (rmatch_indices rneedle target)
find_path_prefix (mid_double_star needle left_child right_child) target =
    search_left (λ s. find_path_prefix left_child s) (λ s. find_path_prefix right_child s)
      (length needle) target (match_indices needle target)
find_path_prefix (no_double_star globs last) target =
    matched_length target (and_then (strip_globs globs target) (strip_last last))

unfoldable pub strip_path_prefix : Finder → Text → Text
strip_path_prefix f target = elim (find_path_prefix f target) [
  | some idx ↦ drop idx target
  | none ↦ target
]

-- `StripPathPrefixes`: each finder in turn.
unfoldable pub strip_path_prefixes : List Finder → Text → Text
strip_path_prefixes [] target = target
strip_path_prefixes (f ∷ finders) target = strip_path_prefixes finders (strip_path_prefix f target)
