-- ===== src/PathPrefix/Tests.antt =====
-- Patterns and paths, and instances of the theorems. The matcher of the tests knows the glob `*`.
use signal_gateway.Common.{◌≡◌, ◌≢◌, refl, true, Option, none, some, [], ◌∷◌, if◌then◌else◌}
use signal_gateway.Common.Text.{Text, codes, utf8_len, text_eq, strip_prefix, starts_with}
use signal_gateway.PathPrefix.{
  Matcher, Finder, lone_double_star, leading_double_star, mid_double_star, no_double_star, built,
  panicked, out_of_fuel, new, new_fuel, build_segments, find_meta, rfind_meta, find_double_star,
  split_slashes, find_path_prefix, strip_path_prefix, strip_globs, strip_last, search_right,
  search_left, match_indices, rmatch_indices, match_from, split_component,
}
use signal_gateway.PathPrefix.Bytes.{find_bytes}
use signal_gateway.PathPrefix.Components.{IsBoundary, no_double_star-IsBoundary}
use signal_gateway.PathPrefix.Patterns.{new-ends}

abbrev any : Matcher
any s = true

abbrev glob : Text → Option Matcher
glob s = if text_eq s (codes "*") then some any else none

abbrev home : Finder
home = no_double_star (record { prefix = codes "/home/"; matcher = any } ∷ []) (codes "/")

home_built : new glob (codes "/home/*/") ≡ built home
unfolding new new_fuel build_segments find_meta rfind_meta find_double_star split_slashes text_eq
    starts_with strip_prefix
home_built = refl

home_stripped : strip_path_prefix home (codes "/home/ada/src/a.rs") ≡ codes "src/a.rs"
unfolding strip_path_prefix find_path_prefix strip_globs strip_last strip_prefix split_component
home_stripped = refl

stars_panic : new glob (codes "a**") ≡ panicked
unfolding new new_fuel build_segments find_meta rfind_meta find_double_star split_slashes text_eq
    starts_with strip_prefix
stars_panic = refl

-- A literal behind two stars is found within a component.
abbrev anywhere : Finder
anywhere = leading_double_star (codes "/src") (no_double_star [] [])

anywhere_built : new glob (codes "**/src") ≡ built anywhere
unfolding new new_fuel build_segments find_meta rfind_meta find_double_star split_slashes text_eq
    starts_with strip_prefix
anywhere_built = refl

anywhere_cuts : strip_path_prefix anywhere (codes "x/srcfoo/a.rs") ≡ codes "foo/a.rs"
unfolding strip_path_prefix find_path_prefix strip_globs strip_last strip_prefix split_component
    search_right rmatch_indices match_indices match_from starts_with
anywhere_cuts = refl

-- What stands before two stars matches where it matches a start only of the path before the needle.
abbrev one_then_stars : Finder
one_then_stars =
    mid_double_star (codes "/foo/") (no_double_star (record { prefix = []; matcher = any } ∷ []) [])
      lone_double_star

one_then_stars_built : new glob (codes "*/foo/**") ≡ built one_then_stars
unfolding new new_fuel build_segments find_meta rfind_meta find_double_star split_slashes text_eq
    starts_with strip_prefix
one_then_stars_built = refl

two_components : find_path_prefix one_then_stars (codes "a/b/foo/x") ≡ some 9
unfolding find_path_prefix strip_globs strip_last strip_prefix split_component search_left
    match_indices match_from starts_with
two_components = refl

-- The cut is behind a character of two bytes.
cut_behind : find_bytes home (codes "/home/adé/a.rs") ≡ some (some 11)
unfolding find_bytes strip_globs strip_last strip_prefix split_component utf8_len
cut_behind = refl

no_double_star-IsBoundary_example : IsBoundary (codes "/home/ada/src/a.rs") 10
unfolding find_path_prefix strip_globs strip_last strip_prefix split_component
no_double_star-IsBoundary_example =
    no_double_star-IsBoundary (record { prefix = codes "/home/"; matcher = any } ∷ []) (codes "/")
      (codes "/home/ada/src/a.rs") 10 refl

new-ends_example : new glob (codes "**/.cargo/*/**/x") ≢ out_of_fuel
new-ends_example = new-ends glob (codes "**/.cargo/*/**/x")
