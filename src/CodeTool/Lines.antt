-- ===== src/CodeTool/Lines.antt =====
-- The range of lines that the iterator gives, against the splitting of the content.
use signal_gateway.Common.{
  ℕ, zero, suc, ◌+◌, ◌-◌, ◌<◌, ◌≤◌, min, ◌≡◌, refl, ap, ◌∙◌, sym, inl, inr, Bool, true, false,
  Option, none, some, List, [], ◌∷◌, arith, if◌then◌else◌, leb, length-drop, ◌^◌, ltb, ltb→lt,
  lt→ltb, le→ltb, Bool-cases, length, get_elem?, take, drop,
}
use mathlib.Core.Option.{some-injective}
use signal_gateway.CodeTool.{
  Bytes, CachedFile, new, line_count, LineRangeIter, line_range, line_at, next, collect, unwrap_or,
}
use signal_gateway.CodeTool.Split.{
  split_lines, newlines, split_lines-Numbers, split_lines_some, line_count-split_lines,
}

get_elem?-drop :
    (ls : List Bytes) (k : ℕ)
    → k < length ls
    → (l : Bytes) × (get_elem? ls k ≡ some l) × (drop k ls ≡ l ∷ drop (suc k) ls)
get_elem?-drop [] k h = absurd (omega arith)
get_elem?-drop (l ∷ ls) zero h = (l, refl, refl)
get_elem?-drop (l ∷ ls) (suc k) h = get_elem?-drop ls k (omega arith)

abbrev iter_at : Bytes → ℕ → ℕ → LineRangeIter
iter_at bs k e = record {
  content = bs;
  newline_indices = newlines bs;
  current_line = k;
  end_line = e;
}

next-end : (bs : Bytes) (k e : ℕ) → e < k → next (iter_at bs k e) ≡ none
unfolding next
next-end bs k e h = rw (lt→ltb e k h)

next-line :
    (bs : Bytes) (k e : ℕ) (l : Bytes)
    → k ≤ e
    → line_at (newlines bs) bs k ≡ some l
    → next (iter_at bs k e) ≡ some (l, iter_at bs (suc k) e)
unfolding next
next-line bs k e l h q = rw (le→ltb e k h, q)

none_left : (k e : ℕ) → e < k → suc e - k ≡ 0
none_left k e h = omega arith

one_left : (k e : ℕ) → k ≤ e → suc e - k ≡ suc (suc e - suc k)
one_left k e h = omega arith

not_ltb→le : (k e : ℕ) → ltb e k ≡ false → k ≤ e
not_ltb→le k e h = ground arith

collect-none : (fuel : ℕ) (self : LineRangeIter) → next self ≡ none → collect (suc fuel) self ≡ []
unfolding collect
collect-none fuel self h = rw (h, collect)

collect-some :
    (fuel : ℕ) (self : LineRangeIter) (l : Bytes) (rest : LineRangeIter)
    → next self ≡ some (l, rest)
    → collect (suc fuel) self ≡ l ∷ collect fuel rest
unfolding collect
collect-some fuel self l rest h = rw (h, collect)

collect-iter_at :
    (fuel k e : ℕ) (bs : Bytes)
    → e < length (split_lines bs)
    → suc e ≤ fuel + k
    → collect fuel (iter_at bs k e) ≡ take (suc e - k) (drop k (split_lines bs))
unfolding collect
collect-iter_at zero k e bs lt h = rw (none_left k e (omega arith))
collect-iter_at (suc fuel) k e bs lt h = elim (Bool-cases (ltb e k)) [
  | inl gt ↦
      let gt = ltb→lt e k gt in
      collect-none fuel (iter_at bs k e) (next-end bs k e gt) ∙ rw (none_left k e gt)
  | inr le ↦
      let le = not_ltb→le k e le in
      let (l, q, d) = get_elem?-drop (split_lines bs) k (omega arith) in
      collect-some fuel (iter_at bs k e) l (iter_at bs (suc k) e)
        (next-line bs k e l le (split_lines-Numbers bs k (omega arith) ∙ q))
      ∙ rw (d, one_left k e le) (ap (◌∷◌ l) (collect-iter_at fuel (suc k) e bs lt (omega arith)))
]

take_all : (n : ℕ) (ls : List Bytes) → length ls ≤ n → take n ls ≡ ls
take_all zero [] h = refl
take_all zero (l ∷ ls) h = absurd (omega arith)
take_all (suc n) [] h = refl
take_all (suc n) (l ∷ ls) h = ap (◌∷◌ l) (take_all n ls (omega arith))

take_past :
    (n k : ℕ) (ls : List Bytes)
    → take (min n (length ls) - k) (drop k ls) ≡ take (n - k) (drop k ls)
take_past n k ls = elim (Bool-cases (ltb n (length ls))) [
  | inl lt ↦ let lt = ltb→lt n (length ls) lt in ap (λ i. take i (drop k ls)) (omega arith)
  | inr le ↦
      let le = not_ltb→le (length ls) n le in
      take_all (min n (length ls) - k) (drop k ls) (omega (arith, length-drop k ls))
      ∙ sym (take_all (n - k) (drop k ls) (omega (arith, length-drop k ls)))
]

abbrev pub file_of : Bytes → Bool → CachedFile
file_of content t = record { content = content; newline_indices = newlines content; is_binary = t }

pub new-file :
    (content : Bytes) (file : CachedFile)
    → new content ≡ some file
    → (t : Bool) × (file ≡ file_of content t)
unfolding new
new-file content file h = go (leb (length content) (2 ^ 32 - 1)) _ h
  where
    go :
        (fits t : Bool)
        → (if fits then some (file_of content t) else none) ≡ some file
        → (t : Bool) × (file ≡ file_of content t)
    go true t h = (t, sym (some-injective _ _ h))
    go false t h = absurd (cc h)

last_line :
    (end : Option ℕ) (n : ℕ)
    → 1 ≤ n
    → 1 ≤ unwrap_or end 1
    → suc (min (unwrap_or end n) n - 1) ≡ min (unwrap_or end n) n
last_line none n h k = omega arith
last_line (some e) n h k = omega arith

collect-file_of :
    (content : Bytes) (t : Bool) (start end : Option ℕ) (fuel : ℕ)
    → 1 ≤ length (split_lines content)
    → 1 ≤ unwrap_or end 1
    → length (split_lines content) ≤ fuel
    → collect fuel (line_range (file_of content t) start end)
      ≡ take
          (unwrap_or end (length (split_lines content)) - (unwrap_or start 1 - 1))
          (drop (unwrap_or start 1 - 1) (split_lines content))
unfolding line_range
collect-file_of content t start end fuel l1 e1 f =
    let ls : List Bytes = split_lines content in
    let k : ℕ = unwrap_or start 1 - 1 in
    let n : ℕ = unwrap_or end (length ls) in
    let q = last_line end (length ls) l1 e1 in
    ap (λ c. collect fuel (iter_at content k (min (unwrap_or end c) c - 1)))
      (line_count-split_lines content t)
    ∙ collect-iter_at fuel k (min n (length ls) - 1) content (omega (arith, q)) (omega (arith, q))
    ∙ ap (λ i. take (i - k) (drop k ls)) q
    ∙ take_past n k ls

split_lines_of_length : (content : Bytes) → 1 ≤ length content → 1 ≤ length (split_lines content)
split_lines_of_length [] h = absurd (omega arith)
split_lines_of_length (b ∷ bs) h = split_lines_some b bs

-- The lines from `start` to `end` of a file that is not empty, `end` being no less than 1, are those
-- of the splitting of its content, in so many calls of the iterator as the file has lines or more.
pub collect-line_range :
    (content : Bytes) (file : CachedFile) (start end : Option ℕ) (fuel : ℕ)
    → new content ≡ some file
    → 1 ≤ length content
    → 1 ≤ unwrap_or end 1
    → line_count file ≤ fuel
    → collect fuel (line_range file start end)
      ≡ take
          (unwrap_or end (line_count file) - (unwrap_or start 1 - 1))
          (drop (unwrap_or start 1 - 1) (split_lines content))
collect-line_range content file start end fuel h l1 e1 f =
    let (t, q) = new-file content file h in
    let c = ap line_count q ∙ line_count-split_lines content t in
    ap (λ g. collect fuel (line_range g start end)) q
    ∙ collect-file_of content t start end fuel (split_lines_of_length content l1) e1
        (omega (arith, c, f))
    ∙ ap
        (λ n.
          take (unwrap_or end n - (unwrap_or start 1 - 1))
            (drop (unwrap_or start 1 - 1) (split_lines content)))
        (sym c)
