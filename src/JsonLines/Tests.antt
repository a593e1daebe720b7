-- ===== src/JsonLines/Tests.antt =====
-- Values in a stream, and instances of the theorems.
use signal_gateway.Common.{ℕ, ◌≡◌, refl, [], ◌∷◌, ◌++◌, replicate, arith}
use signal_gateway.Common.Text.{codes}
use signal_gateway.JsonLines.{value, braces_error, step, read, read_json_lines_value}
use signal_gateway.JsonLines.Frames.{
  Items, end, plain, string, braces, char, escape, print, ended, read_value,
}

-- An object over two lines, with a brace and an escaped quote inside a literal.
abbrev object : Items
object =
    braces (plain b'\n' (string (char b'}' ∷ escape b'"' ∷ []) (plain b':' (plain b'1' end)))) end

two_values :
    read_json_lines_value (ended ℕ) (print object ++ b'\n' ∷ codes "{}")
    ≡ (value (print object), codes "{}")
unfolding read_json_lines_value read step
two_values = refl

-- The end of the stream within an object is no error.
cut_short : read_json_lines_value (ended ℕ) (codes "{") ≡ (value (codes "{"), [])
unfolding read_json_lines_value read step
cut_short = refl

one_too_many :
    read_json_lines_value (ended ℕ) (codes "{}}1") ≡ (braces_error (codes "{}"), codes "1")
unfolding read_json_lines_value read step
one_too_many = refl

read_value_example :
    read_json_lines_value (ended ℕ) (replicate 2 b'\n' ++ (print object ++ b'\n' ∷ codes "{}"))
    ≡ (value (print object), codes "{}")
read_value_example = read_value (ended ℕ) 2 object (codes "{}") (λ e. cc) (ground arith)
