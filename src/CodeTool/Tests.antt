-- ===== src/CodeTool/Tests.antt =====
-- A file of three lines, and a range of them.
use signal_gateway.Common.{◌≡◌, refl, none, some, [], ◌∷◌, arith, false, drop, take, ◌-◌}
use signal_gateway.CodeTool.{
  Bytes, CachedFile, enumerate_newlines, new, looks_binary, take_chars, count_non_printable,
  line_count, ends_with_newline, line_range, next, collect, unwrap_or,
}
use signal_gateway.CodeTool.Split.{split_lines}
use signal_gateway.CodeTool.Lines.{collect-line_range}

-- The text `ab`, `c`, an empty line.
abbrev content : Bytes
content = 97 ∷ 98 ∷ 10 ∷ 99 ∷ 10 ∷ 10 ∷ []

abbrev file : CachedFile
file = record { content = content; newline_indices = 2 ∷ 4 ∷ 5 ∷ []; is_binary = false }

new-content : new content ≡ some file
unfolding new enumerate_newlines looks_binary take_chars count_non_printable
new-content = refl

line_count-file : line_count file ≡ 3
unfolding line_count ends_with_newline
line_count-file = refl

collect-file : collect 9 (line_range file (some 2) (some 7)) ≡ (99 ∷ []) ∷ [] ∷ []
unfolding collect line_range next line_count ends_with_newline
collect-file = refl

-- The one line of an empty file is empty, though the file has no line.
collect-empty :
    collect 9
      (line_range (record { content = []; newline_indices = []; is_binary = false }) none none)
    ≡ [] ∷ []
unfolding collect line_range next line_count
collect-empty = refl

collect-line_range_example :
    collect 3 (line_range file (some 2) none)
    ≡ take
        (unwrap_or none (line_count file) - (unwrap_or (some 2) 1 - 1))
        (drop (unwrap_or (some 2) 1 - 1) (split_lines content))
collect-line_range_example =
    collect-line_range content file (some 2) none 3 new-content (omega arith) (omega arith)
      (omega (arith, line_count-file))
