-- ===== src/CodeTool/Search.antt =====
-- The line of a place of a file, found by the binary search among its newlines.
use signal_gateway.Common.{ℕ, suc, ◌+◌, ◌⊎◌, inl, inr, [], ◌∷◌, if◌then◌else◌, ◌==◌}
use signal_gateway.CodeTool.{Bytes, newline, enumerate_newlines, binary_search}

abbrev pub count_newlines : Bytes → ℕ
count_newlines [] = 0
count_newlines (b ∷ bs) = if b == newline then suc (count_newlines bs) else count_newlines bs

abbrev position : ℕ ⊎ ℕ → ℕ
position (inl p) = p
position (inr p) = p

abbrev found : ℕ → ℕ → ℕ → Bytes → ℕ
found pos idx i bs = position (binary_search pos idx (enumerate_newlines i bs))

abbrev idx_to_line_at : ℕ ⊎ ℕ → ℕ
idx_to_line_at r = elim r [ inl p ↦ p + 1 | inr p ↦ p + 1 ]
