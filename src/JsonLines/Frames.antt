-- ===== src/JsonLines/Frames.antt =====
-- Values in a stream, and that the reader finds each of them.
use mathlib.Core.List.{append_assoc, append-nil}
use signal_gateway.Common.{
  ℕ, zero, suc, replicate, ◌+◌, ◌<◌, ◌≡◌, refl, sym, ap, ◌∙◌, ◌≢◌, inl, inr, Bool, true, false,
  List, [], ◌∷◌, ◌++◌, if◌then◌else◌, arith, All, Bool-cases,
}
use signal_gateway.Common.Text.{is_empty}
use signal_gateway.JsonLines.{
  Reader, continue, step, Ending, eof, value, no_more, read, start, read_json_lines_value,
}

-- A character of a string literal.
pub data Chunk : Type 0 where
  char : ℕ → Chunk
  escape : ℕ → Chunk

-- The bytes of a value, with its string literals, objects and arrays.
pub data Items : Type 0 where
  end : Items
  plain : ℕ → Items → Items
  string : List Chunk → Items → Items
  braces : Items → Items → Items
  brackets : Items → Items → Items

abbrev pub print_chunks : List Chunk → List ℕ
print_chunks [] = []
print_chunks (char c ∷ cs) = c ∷ print_chunks cs
print_chunks (escape c ∷ cs) = b'\\' ∷ c ∷ print_chunks cs

abbrev pub print : Items → List ℕ
print end = []
print (plain c is) = c ∷ print is
print (string cs is) = b'"' ∷ (print_chunks cs ++ b'"' ∷ print is)
print (braces js is) = b'{' ∷ (print js ++ b'}' ∷ print is)
print (brackets js is) = b'[' ∷ (print js ++ b']' ∷ print is)

-- The bytes that stand for themselves: inside an object or an array a line feed does too.
pub record IsPlain (inside : Bool) (c : ℕ) : Type 0 where
  pub quote : c ≢ b'"'
  pub open_brace : c ≢ b'{'
  pub open_bracket : c ≢ b'['
  pub close_brace : c ≢ b'}'
  pub close_bracket : c ≢ b']'
  pub line_feed : inside ≡ false → c ≢ b'\n'

abbrev pub IsChunk : Chunk → Type 0
IsChunk (char c) = (c ≢ b'\\') × (c ≢ b'"')
IsChunk (escape c) = Unit

abbrev pub IsItems : Bool → Items → Type 0
IsItems inside end = Unit
IsItems inside (plain c is) = IsPlain inside c × IsItems inside is
IsItems inside (string cs is) = All IsChunk cs × IsItems inside is
IsItems inside (braces js is) = IsItems true js × IsItems inside is
IsItems inside (brackets js is) = IsItems true js × IsItems inside is

abbrev reader : List ℕ → ℕ → ℕ → Bool → Reader
reader buf i j quoted = record {
  buf = buf;
  brace_depth = i;
  bracket_depth = j;
  quoted = quoted;
  escaped = false;
}

step_char :
    (buf : List ℕ) (i j c : ℕ)
    → c ≢ b'\\'
    → c ≢ b'"'
    → step (reader buf i j true) c ≡ continue (reader (buf ++ c ∷ []) i j true)
unfolding step
step_char buf i j c h k = ground arith

step_plain :
    (inside : Bool) (buf : List ℕ) (i j c : ℕ)
    → (inside ≡ true → 0 < i + j)
    → IsPlain inside c
    → step (reader buf i j false) c ≡ continue (reader (buf ++ c ∷ []) i j false)
unfolding step
step_plain inside buf i j c deep p = elim (Bool-cases inside) [
  | inl e ↦
      ground (arith, p.quote, p.open_brace, p.open_bracket, p.close_brace, p.close_bracket, deep e)
  | inr e ↦
      ground (
        arith,
        p.quote,
        p.open_brace,
        p.open_bracket,
        p.close_brace,
        p.close_bracket,
        p.line_feed e,
      )
]

module _ {ℓ} {E : Type ℓ} (ending : Ending E) where
  read-continue :
      (r r' : Reader) (b : ℕ) (bs : List ℕ)
      → step r b ≡ continue r'
      → read ending r (b ∷ bs) ≡ read ending r' bs
  unfolding read
  read-continue r r' b bs e = rw (e, read)

  read-chunks :
      (cs : List Chunk) (buf : List ℕ) (i j : ℕ) (rest : List ℕ)
      → All IsChunk cs
      → read ending (reader buf i j true) (print_chunks cs ++ b'"' ∷ rest)
        ≡ read ending (reader (buf ++ (print_chunks cs ++ b'"' ∷ [])) i j false) rest
  unfolding step
  read-chunks [] buf i j rest h = read-continue _ _ b'"' rest refl
  read-chunks (char c ∷ cs) buf i j rest h =
      read-continue _ _ c _ (step_char buf i j c h.0.0 h.0.1)
      ∙ read-chunks cs (buf ++ c ∷ []) i j rest h.1
      ∙ ap (λ b. read ending (reader b i j false) rest) (append_assoc buf (c ∷ []) _)
  read-chunks (escape c ∷ cs) buf i j rest h =
      read-continue (reader buf i j true)
        (record (reader (buf ++ b'\\' ∷ []) i j true) { escaped = true }) b'\\' _ refl
      ∙ read-continue _ (reader ((buf ++ b'\\' ∷ []) ++ c ∷ []) i j true) c _ refl
      ∙ read-chunks cs ((buf ++ b'\\' ∷ []) ++ c ∷ []) i j rest h.1
      ∙ ap (λ b. read ending (reader b i j false) rest) (simp append_assoc)

  -- From outside quotes, a value's bytes are taken into the buffer and the depths are as before.
  read-print :
      (inside : Bool) (is : Items) (buf : List ℕ) (i j : ℕ) (rest : List ℕ)
      → (inside ≡ true → 0 < i + j)
      → IsItems inside is
      → read ending (reader buf i j false) (print is ++ rest)
        ≡ read ending (reader (buf ++ print is) i j false) rest
  unfolding step
  read-print inside end buf i j rest deep h =
      ap (λ b. read ending (reader b i j false) rest) (sym (append-nil buf))
  read-print inside (plain c is) buf i j rest deep h =
      read-continue _ _ c _ (step_plain inside buf i j c deep h.0)
      ∙ read-print inside is (buf ++ c ∷ []) i j rest deep h.1
      ∙ ap (λ b. read ending (reader b i j false) rest) (append_assoc buf (c ∷ []) (print is))
  read-print inside (string cs is) buf i j rest deep h =
      read-continue (reader buf i j false) (reader (buf ++ b'"' ∷ []) i j true) b'"' _ refl
      ∙ ap (read ending (reader (buf ++ b'"' ∷ []) i j true))
          (append_assoc (print_chunks cs) (b'"' ∷ print is) rest)
      ∙ read-chunks cs (buf ++ b'"' ∷ []) i j (print is ++ rest) h.0
      ∙ read-print inside is _ i j rest deep h.1
      ∙ ap (λ b. read ending (reader b i j false) rest) (simp append_assoc)
  read-print inside (braces js is) buf i j rest deep h =
      read-continue (reader buf i j false) (reader (buf ++ b'{' ∷ []) (i + 1) j false) b'{' _ refl
      ∙ ap (read ending (reader (buf ++ b'{' ∷ []) (i + 1) j false))
          (append_assoc (print js) (b'}' ∷ print is) rest)
      ∙ read-print true js (buf ++ b'{' ∷ []) (i + 1) j (b'}' ∷ (print is ++ rest))
          (λ _. omega arith) h.0
      ∙ read-continue _ (reader (((buf ++ b'{' ∷ []) ++ print js) ++ b'}' ∷ []) i j false) b'}' _
          (ground arith)
      ∙ read-print inside is _ i j rest deep h.1
      ∙ ap (λ b. read ending (reader b i j false) rest) (simp append_assoc)
  read-print inside (brackets js is) buf i j rest deep h =
      read-continue (reader buf i j false) (reader (buf ++ b'[' ∷ []) i (j + 1) false) b'[' _ refl
      ∙ ap (read ending (reader (buf ++ b'[' ∷ []) i (j + 1) false))
          (append_assoc (print js) (b']' ∷ print is) rest)
      ∙ read-print true js (buf ++ b'[' ∷ []) i (j + 1) (b']' ∷ (print is ++ rest))
          (λ _. omega arith) h.0
      ∙ read-continue _ (reader (((buf ++ b'[' ∷ []) ++ print js) ++ b']' ∷ []) i j false) b']' _
          (ground arith)
      ∙ read-print inside is _ i j rest deep h.1
      ∙ ap (λ b. read ending (reader b i j false) rest) (simp append_assoc)

  read_blank :
      (n : ℕ) (rest : List ℕ)
      → read_json_lines_value ending (replicate n b'\n' ++ rest) ≡ read_json_lines_value ending rest
  unfolding read_json_lines_value step
  read_blank zero rest = refl
  read_blank (suc n) rest =
      read-continue start start b'\n' (replicate n b'\n' ++ rest) refl ∙ read_blank n rest

  read-line_end :
      (bs rest : List ℕ)
      → bs ≢ []
      → read ending (reader bs 0 0 false) (b'\n' ∷ rest) ≡ (value bs, rest)
  unfolding read step
  read-line_end [] rest h = absurd (h refl)
  read-line_end (b ∷ bs) rest h = refl

  -- A value of at least one byte whose objects, arrays and string literals are closed, on one line
  -- or with line feeds inside its objects and arrays, is read whole, whatever blank lines stand
  -- before it; the bytes behind the line feed that ends it are left for the next call.
  pub read_value :
      (n : ℕ) (is : Items) (rest : List ℕ)
      → print is ≢ []
      → IsItems false is
      → read_json_lines_value ending (replicate n b'\n' ++ (print is ++ b'\n' ∷ rest))
        ≡ (value (print is), rest)
  unfolding read_json_lines_value step
  read_value n is rest some_byte h =
      read_blank n (print is ++ b'\n' ∷ rest)
      ∙ read-print false is [] 0 0 (b'\n' ∷ rest) (λ (e : false ≡ true). cc) h
      ∙ read-line_end (print is) rest some_byte

abbrev pub ended {ℓ} : (E : Type ℓ) → Ending E
ended E = eof

-- The last value needs no line feed: where the stream ends behind it it is read whole, and where
-- only blank lines were left there are no more values.
pub read_last {ℓ} :
    (E : Type ℓ) (n : ℕ) (is : Items)
    → IsItems false is
    → read_json_lines_value (ended E) (replicate n b'\n' ++ print is)
      ≡ ((if is_empty (print is) then no_more else value (print is)), [])
unfolding read_json_lines_value read
read_last E n is h =
    read_blank (ended E) n (print is)
    ∙ ap (read (ended E) start) (sym (append-nil (print is)))
    ∙ read-print (ended E) false is [] 0 0 [] (λ (e : false ≡ true). cc) h
