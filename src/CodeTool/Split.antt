-- ===== src/CodeTool/Split.antt =====
-- The splitting of a content at its newlines, against the places that a cached file notes.
use signal_gateway.Common.{
  ℕ, zero, suc, ◌+◌, ◌-◌, ◌<◌, ◌≤◌, ◌≡◌, refl, ap, ap₂, ◌∙◌, sym, inl, inr, Bool, true, false,
  Option, none, some, List, [], ◌∷◌, map, arith, if◌then◌else◌, ltb, ◌==◌, Bool-cases, length,
  get_elem?, take,
}
use mathlib.Core.Option.{some-injective}
use signal_gateway.CodeTool.{
  Bytes, newline, enumerate_newlines, ends_with_newline, line_count, line_start, line_end, line_at,
  slice, unwrap_or,
}

-- The first line grows by a byte.
abbrev prepend : ℕ → List Bytes → List Bytes
prepend b [] = (b ∷ []) ∷ []
prepend b (l ∷ ls) = (b ∷ l) ∷ ls

-- The lines of a content: what stands before each newline, and what stands after the last one if
-- that is not empty.
unfoldable pub split_lines : Bytes → List Bytes
split_lines [] = []
split_lines (b ∷ bs) =
    let rest = split_lines bs in if b == newline then [] ∷ rest else prepend b rest

enumerate_newlines-suc :
    (i : ℕ) (bs : Bytes) → enumerate_newlines (suc i) bs ≡ map suc (enumerate_newlines i bs)
unfolding enumerate_newlines
enumerate_newlines-suc i [] = refl
enumerate_newlines-suc i (b ∷ bs) = elim (Bool-cases (b == newline)) [
  | inl e ↦ rw (e, enumerate_newlines-suc (suc i) bs)
  | inr e ↦ rw (e, enumerate_newlines-suc (suc i) bs)
]

length-map : (nl : List ℕ) → length (map suc nl) ≡ length nl
length-map [] = refl
length-map (i ∷ nl) = ap suc (length-map nl)

get_elem?-map :
    (nl : List ℕ) (k : ℕ) (n : ℕ)
    → unwrap_or (get_elem? (map suc nl) k) (suc n) ≡ suc (unwrap_or (get_elem? nl k) n)
get_elem?-map [] k n = refl
get_elem?-map (i ∷ nl) zero n = refl
get_elem?-map (i ∷ nl) (suc k) n = get_elem?-map nl k n

-- A line after the first of a content that starts with some byte.
line_start-map :
    (nl : List ℕ) (k : ℕ)
    → line_start (map suc nl) (suc k)
      ≡ elim (line_start nl (suc k)) [ none ↦ none | some i ↦ some (suc i) ]
line_start-map [] k = refl
line_start-map (i ∷ nl) zero = refl
line_start-map (i ∷ nl) (suc k) = line_start-map nl k

-- The part of a content between two places.
abbrev cut : Bytes → Option ℕ → ℕ → Option Bytes
cut content s e = elim s [
  | none ↦ none
  | some start ↦ if ltb (length content) start then none else some (slice content start e)
]

cut-suc :
    (b : ℕ) (bs : Bytes) (s : Option ℕ) (e : ℕ)
    → cut (b ∷ bs) (elim s [ none ↦ none | some i ↦ some (suc i) ]) (suc e) ≡ cut bs s e
cut-suc b bs none e = refl
cut-suc b bs (some start) e = ground arith

line_at-newline :
    (nl : List ℕ) (b : ℕ) (bs : Bytes) (k : ℕ)
    → line_at (0 ∷ map suc nl) (b ∷ bs) (suc k) ≡ line_at nl bs k
line_at-newline nl b bs zero =
    ap (cut (b ∷ bs) (some 1)) (get_elem?-map nl 0 (length bs))
    ∙ cut-suc b bs (some 0) (line_end nl bs 0)
line_at-newline nl b bs (suc k) =
    ap₂ (cut (b ∷ bs)) (line_start-map nl k) (get_elem?-map nl (suc k) (length bs))
    ∙ cut-suc b bs (line_start nl (suc k)) (line_end nl bs (suc k))

line_at-suc :
    (nl : List ℕ) (b : ℕ) (bs : Bytes) (k : ℕ)
    → line_at (map suc nl) (b ∷ bs) (suc k) ≡ line_at nl bs (suc k)
line_at-suc nl b bs k =
    ap₂ (cut (b ∷ bs)) (line_start-map nl k) (get_elem?-map nl (suc k) (length bs))
    ∙ cut-suc b bs (line_start nl (suc k)) (line_end nl bs (suc k))

cut-first : (b : ℕ) (bs : Bytes) (e : ℕ) → cut (b ∷ bs) (some 0) (suc e) ≡ some (b ∷ slice bs 0 e)
cut-first b bs e = ground arith

line_at-first :
    (nl : List ℕ) (b : ℕ) (bs : Bytes)
    → line_at (map suc nl) (b ∷ bs) 0 ≡ some (b ∷ slice bs 0 (line_end nl bs 0))
line_at-first nl b bs =
    ap (cut (b ∷ bs) (some 0)) (get_elem?-map nl 0 (length bs)) ∙ cut-first b bs (line_end nl bs 0)

line_at-empty : (nl : List ℕ) (bs : Bytes) → line_at nl bs 0 ≡ some (slice bs 0 (line_end nl bs 0))
line_at-empty nl bs = ground arith

abbrev pub newlines : Bytes → List ℕ
newlines bs = enumerate_newlines 0 bs

newlines-cons :
    (b : ℕ) (bs : Bytes)
    → newlines (b ∷ bs)
      ≡ (if b == newline then 0 ∷ map suc (newlines bs) else map suc (newlines bs))
unfolding enumerate_newlines
newlines-cons b bs = rw (enumerate_newlines-suc 0 bs)

-- The line numbers of a content number its lines.
abbrev pub Numbers : List ℕ → Bytes → List Bytes → Type 0
Numbers nl bs ls = (k : ℕ) → k < length ls → line_at nl bs k ≡ get_elem? ls k

Numbers-newline :
    (b : ℕ) (bs : Bytes) (nl : List ℕ) (ls : List Bytes)
    → Numbers nl bs ls
    → Numbers (0 ∷ map suc nl) (b ∷ bs) ([] ∷ ls)
Numbers-newline b bs nl ls h zero lt = ground arith
Numbers-newline b bs nl ls h (suc k) lt = line_at-newline nl b bs k ∙ h k (omega arith)

take-[] : (n : ℕ) → take {A = ℕ} n [] ≡ []
take-[] zero = refl
take-[] (suc n) = refl

Numbers-prepend :
    (b : ℕ) (bs : Bytes) (nl : List ℕ) (ls : List Bytes)
    → (ls ≡ [] → bs ≡ [])
    → Numbers nl bs ls
    → Numbers (map suc nl) (b ∷ bs) (prepend b ls)
Numbers-prepend b bs nl [] emp h zero lt =
    line_at-first nl b bs ∙ rw (emp refl) (ap (λ l. some (b ∷ l)) (take-[] (line_end nl [] 0 - 0)))
Numbers-prepend b bs nl [] emp h (suc k) lt = absurd (omega arith)
Numbers-prepend b bs nl (l ∷ ls) emp h zero lt =
    line_at-first nl b bs
    ∙ ap (λ l. some (b ∷ l)) (some-injective _ _ (sym (line_at-empty nl bs) ∙ h 0 (omega arith)))
Numbers-prepend b bs nl (l ∷ ls) emp h (suc k) lt = line_at-suc nl b bs k ∙ h (suc k) lt

split_lines-empty : (bs : Bytes) → split_lines bs ≡ [] → bs ≡ []
unfolding split_lines
split_lines-empty [] h = refl
split_lines-empty (b ∷ bs) h = absurd (go (b == newline) (split_lines bs) h)
  where
    go : (t : Bool) (ls : List Bytes) → (if t then [] ∷ ls else prepend b ls) ≡ [] → ⊥
    go true ls h = cc
    go false [] h = cc
    go false (l ∷ ls) h = cc

-- The line of a number that is in range is that line of the splitting.
pub split_lines-Numbers : (bs : Bytes) → Numbers (newlines bs) bs (split_lines bs)
unfolding split_lines
split_lines-Numbers [] = λ k h. absurd (omega arith)
split_lines-Numbers (b ∷ bs) = elim (Bool-cases (b == newline)) [
  | inl e ↦
      rw (newlines-cons b bs, e)
        (Numbers-newline b bs (newlines bs) (split_lines bs) (split_lines-Numbers bs))
  | inr e ↦
      rw (newlines-cons b bs, e)
        (Numbers-prepend b bs (newlines bs) (split_lines bs) (split_lines-empty bs)
          (split_lines-Numbers bs))
]

split_lines-cons :
    (b : ℕ) (bs : Bytes)
    → split_lines (b ∷ bs)
      ≡ (if b == newline then [] ∷ split_lines bs else prepend b (split_lines bs))
unfolding split_lines
split_lines-cons b bs = refl

length-prepend : (b : ℕ) (ls : List Bytes) → 1 ≤ length ls → length (prepend b ls) ≡ length ls
length-prepend b [] h = absurd (omega arith)
length-prepend b (l ∷ ls) h = refl

pub split_lines_some : (b : ℕ) (bs : Bytes) → 1 ≤ length (split_lines (b ∷ bs))
split_lines_some b bs = go (split_lines (b ∷ bs)) (split_lines-empty (b ∷ bs))
  where
    go : (ls : List Bytes) → (ls ≡ [] → b ∷ bs ≡ []) → 1 ≤ length ls
    go [] h = absurd (cc (h refl))
    go (l ∷ ls) h = omega arith

length-newlines_last :
    (b : ℕ)
    → length (split_lines (b ∷ [])) ≡ (
        if ends_with_newline (b ∷ [])
        then length (newlines (b ∷ []))
        else length (newlines (b ∷ [])) + 1)
unfolding ends_with_newline enumerate_newlines split_lines
length-newlines_last b = elim (Bool-cases (b == newline)) [ inl e ↦ rw e | inr e ↦ rw e ]

length-newlines :
    (b : ℕ) (bs : Bytes)
    → length (split_lines (b ∷ bs)) ≡ (
        if ends_with_newline (b ∷ bs)
        then length (newlines (b ∷ bs))
        else length (newlines (b ∷ bs)) + 1)
unfolding ends_with_newline
length-newlines b [] = length-newlines_last b
length-newlines b (c ∷ bs) = elim (Bool-cases (b == newline)) [
  | inl e ↦
      rw (split_lines-cons b (c ∷ bs), newlines-cons b (c ∷ bs), e, length-map)
        (ground (arith, length-newlines c bs))
  | inr e ↦
      rw
        (
          split_lines-cons b (c ∷ bs),
          newlines-cons b (c ∷ bs),
          e,
          length-map,
          length-prepend b (split_lines (c ∷ bs)) (split_lines_some c bs),
        )
        (length-newlines c bs)
]

pub line_count-split_lines :
    (bs : Bytes) (t : Bool)
    → line_count (record { content = bs; newline_indices = newlines bs; is_binary = t })
      ≡ length (split_lines bs)
unfolding line_count split_lines
line_count-split_lines [] t = refl
line_count-split_lines (b ∷ bs) t = sym (length-newlines b bs)
