-- ===== src/JsonLines.antt =====
-- signal-gateway-log-ingest/src/json/json_lines.rs: the reader of JSON values that may span lines.
-- The stream is the list of the bytes to come and how it ends; a depth never reaches 2^64.
pub mod Frames
mod Tests
use signal_gateway.Common.{
  ℕ, ◌+◌, ◌-◌, Bool, true, false, ◌&&◌, Option, none, some, List, [], ◌∷◌, ◌++◌, if◌then◌else◌,
  ◌==◌,
}
use signal_gateway.Common.Text.{is_empty}

-- The local variables of the loop.
pub record Reader : Type 0 where
  pub buf : List ℕ
  pub brace_depth : ℕ
  pub bracket_depth : ℕ
  pub quoted : Bool
  pub escaped : Bool

-- What a byte leads to: the next round, the end of the value, or an error.
pub data Step : Type 0 where
  continue : Reader → Step
  break : Step
  imbalanced_braces : List ℕ → Step
  imbalanced_brackets : List ℕ → Step

abbrev pub push : Reader → ℕ → Reader
push r b = record r { buf = r.buf ++ b ∷ [] }

-- A byte outside quotes.
pub unquoted_step : Reader → ℕ → Step
unquoted_step r b =
    if b == b'"'
    then continue (record (push r b) { quoted = true })
    else if b == b'{'
    then continue (record (push r b) { brace_depth = r.brace_depth + 1 })
    else if b == b'['
    then continue (record (push r b) { bracket_depth = r.bracket_depth + 1 })
    else if b == b'}'
    then (if r.brace_depth == 0
        then imbalanced_braces r.buf
        else continue (record (push r b) { brace_depth = r.brace_depth - 1 }))
    else if b == b']'
    then (if r.bracket_depth == 0
        then imbalanced_brackets r.buf
        else continue (record (push r b) { bracket_depth = r.bracket_depth - 1 }))
    else if b == b'\n'
    then (if r.brace_depth == 0 && r.bracket_depth == 0
        then (if is_empty r.buf then continue r else break)
        else continue (push r b))
    else continue (push r b)

-- A byte within quotes.
pub quoted_step : Reader → ℕ → Step
quoted_step r b =
    if b == b'\\'
    then continue (record (push r b) { escaped = true })
    else if b == b'"'
    then continue (record (push r b) { quoted = false })
    else continue (push r b)

unfoldable pub step : Reader → ℕ → Step
unfolding unquoted_step quoted_step
step r b =
    if r.escaped
    then continue (record (push r b) { escaped = false })
    else if r.quoted
    then quoted_step r b
    else unquoted_step r b

-- How the stream ends.
pub data Ending {ℓ} (E : Type ℓ) : Type ℓ where
  eof : Ending E
  failed : E → Ending E

pub data Outcome {ℓ} (E : Type ℓ) : Type ℓ where
  value : List ℕ → Outcome E
  no_more : Outcome E
  braces_error : List ℕ → Outcome E
  brackets_error : List ℕ → Outcome E
  io_error : E → Outcome E

module _ {ℓ} {E : Type ℓ} (ending : Ending E) where
  -- The loop: the outcome, and the bytes that are left.
  unfoldable pub read : Reader → List ℕ → Outcome E × List ℕ
  unfolding step
  read r [] = elim ending [
    | eof ↦ ((if is_empty r.buf then no_more else value r.buf), [])
    | failed e ↦ (io_error e, [])
  ]
  read r (b ∷ bs) = elim (step r b) [
    | continue r' ↦ read r' bs
    | break ↦ (value r.buf, bs)
    | imbalanced_braces buf ↦ (braces_error buf, bs)
    | imbalanced_brackets buf ↦ (brackets_error buf, bs)
  ]

abbrev pub start : Reader
start = record { buf = []; brace_depth = 0; bracket_depth = 0; quoted = false; escaped = false }

unfoldable pub read_json_lines_value {ℓ} : {E : Type ℓ} → Ending E → List ℕ → Outcome E × List ℕ
unfolding read
read_json_lines_value ending bytes = read ending start bytes
