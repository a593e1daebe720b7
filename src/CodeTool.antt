-- ===== src/CodeTool.antt =====
-- Model of signal-gateway-code-tool/src/cached.rs: `CachedFile`, a file of a tarball held in memory
-- with the places of its newlines, the iterator over a range of its lines, and the search for the
-- line of a place. A file's content is the list of its UTF-8 bytes, since the code counts and slices
-- bytes; the assertion of `CachedFile::new` makes the casts to `u32` of its newlines' indices and of
-- their number exact.
use signal_gateway.Common.{
  ℕ, zero, suc, ◌+◌, ◌-◌, ◌^◌, ◌%◌, ◌/◌, min, Bool, true, false, not, ◌&&◌, ◌||◌, Option, none,
  some, List, [], ◌∷◌, ◌⊎◌, inl, inr, if◌then◌else◌, ltb, leb, ◌==◌, length, get_elem?, take, drop,
}
mod Split
pub mod Lines
pub mod Search
mod Tests

abbrev pub Bytes : Type 0
Bytes = List ℕ

abbrev pub newline : ℕ
newline = 10

pub record CachedFile : Type 0 where
  content : Bytes
  newline_indices : List ℕ
  is_binary : Bool

-- The indices of the newlines, counted from `i`.
unfoldable pub enumerate_newlines : ℕ → Bytes → List ℕ
enumerate_newlines i [] = []
enumerate_newlines i (b ∷ bs) =
    let rest = enumerate_newlines (suc i) bs in if b == newline then i ∷ rest else rest

-- A byte that is not a continuation byte starts a character.
abbrev starts_char : ℕ → Bool
starts_char b = ltb b 128 || leb 192 b

-- The bytes of the first `n` characters.
take_chars : ℕ → Bytes → Bytes
take_chars n [] = []
take_chars n (b ∷ bs) =
    if starts_char b
    then elim n [ zero ↦ [] | suc n ↦ b ∷ take_chars n bs ]
    else b ∷ take_chars n bs

abbrev is_ascii_graphic : ℕ → Bool
is_ascii_graphic b = leb 33 b && leb b 126

abbrev is_ascii_whitespace : ℕ → Bool
is_ascii_whitespace b = b == 32 || b == 9 || b == 10 || b == 12 || b == 13

-- The characters that are neither graphic nor white space, each counted at its first byte.
count_non_printable : Bytes → ℕ
count_non_printable [] = 0
count_non_printable (b ∷ bs) =
    if starts_char b && not (is_ascii_graphic b) && not (is_ascii_whitespace b)
    then suc (count_non_printable bs)
    else count_non_printable bs

looks_binary : Bytes → Bool
unfolding take_chars count_non_printable
looks_binary content =
    let sample = take_chars 1000 content in ltb (length sample / 10) (count_non_printable sample)

-- `none` is the panic of the assertion.
unfoldable pub new : Bytes → Option CachedFile
unfolding looks_binary enumerate_newlines
new content =
    if leb (length content) (2 ^ 32 - 1)
    then some (record {
      content = content;
      newline_indices = enumerate_newlines 0 content;
      is_binary = looks_binary content;
    })
    else none

unfoldable pub ends_with_newline : Bytes → Bool
ends_with_newline [] = false
ends_with_newline (b ∷ []) = b == newline
ends_with_newline (b ∷ (c ∷ bs)) = ends_with_newline (c ∷ bs)

unfoldable pub line_count : CachedFile → ℕ
unfolding ends_with_newline
line_count file = elim file.content [
  | [] ↦ 0
  | _ ↦
      if ends_with_newline file.content
      then length file.newline_indices
      else length file.newline_indices + 1
]

pub record LineRangeIter : Type 0 where
  content : Bytes
  newline_indices : List ℕ
  current_line : ℕ
  end_line : ℕ

abbrev pub unwrap_or : Option ℕ → ℕ → ℕ
unwrap_or none d = d
unwrap_or (some n) d = n

unfoldable pub line_range : CachedFile → Option ℕ → Option ℕ → LineRangeIter
unfolding line_count
line_range file start end = record {
  content = file.content;
  newline_indices = file.newline_indices;
  current_line = unwrap_or start 1 - 1;
  end_line = min (unwrap_or end (line_count file)) (line_count file) - 1;
}

-- The start of a line, after the newline of the line before.
abbrev pub line_start : List ℕ → ℕ → Option ℕ
line_start nl zero = some 0
line_start nl (suc k) = elim (get_elem? nl k) [ none ↦ none | some i ↦ some (suc i) ]

-- The end of a line, at its newline or at the end of the content.
abbrev pub line_end : List ℕ → Bytes → ℕ → ℕ
line_end nl content line = unwrap_or (get_elem? nl line) (length content)

-- `&content[start..end]`.
abbrev pub slice : Bytes → ℕ → ℕ → Bytes
slice content start end = take (end - start) (drop start content)

-- The text of a line, whatever the range.
abbrev pub line_at : List ℕ → Bytes → ℕ → Option Bytes
line_at nl content line = elim (line_start nl line) [
  | none ↦ none
  | some start ↦
      if ltb (length content) start
      then none
      else some (slice content start (line_end nl content line))
]

unfoldable pub next : LineRangeIter → Option (Bytes × LineRangeIter)
next self =
    if ltb self.end_line self.current_line
    then none
    else elim (line_at self.newline_indices self.content self.current_line) [
      | none ↦ none
      | some line ↦ some (line, record self { current_line = suc self.current_line })
    ]

-- The lines that at most `fuel` calls of `next` give.
unfoldable pub collect : ℕ → LineRangeIter → List Bytes
unfolding next
collect zero self = []
collect (suc fuel) self = elim (next self) [
  | none ↦ []
  | some (line, self) ↦ line ∷ collect fuel self
]

-- The binary search of `idx` in increasing indices: where it is, or where it would stand.
unfoldable pub binary_search : ℕ → ℕ → List ℕ → ℕ ⊎ ℕ
binary_search pos idx [] = inr pos
binary_search pos idx (i ∷ is) =
    let rest = binary_search (suc pos) idx is in
    if ltb i idx then rest else if i == idx then inl pos else inr pos

unfoldable pub idx_to_line : CachedFile → ℕ → ℕ
unfolding binary_search
idx_to_line file idx = elim (binary_search 0 (idx % 2 ^ 32) file.newline_indices) [
  | inl pos ↦ pos + 1
  | inr pos ↦ pos + 1
]
