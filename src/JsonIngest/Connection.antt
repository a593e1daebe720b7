-- ===== src/JsonIngest/Connection.antt =====
-- What a whole connection hands over, and how it ends.
mod Tests
use mathlib.Core.List.{append_assoc}
use mathlib.Core.Option.{some-injective}
use signal_gateway.Common.{
  ℕ, zero, suc, ◌+◌, ◌<◌, ◌≡◌, refl, ap, ◌∙◌, ◌≢◌, inl, inr, Bool, false, Option, none, some, List,
  [], ◌∷◌, ◌++◌, map, replicate, length, length-append, arith, All, Option-cases,
}
use signal_gateway.Common.Int.{ℤ}
use signal_gateway.Common.Text.{Text}
use signal_gateway.JsonLines.{
  Ending, Outcome, value, no_more, braces_error, brackets_error, io_error, read_json_lines_value,
}
use signal_gateway.JsonLines.Frames.{Items, print, IsItems, read_value}
use signal_gateway.LogMessage.{LogMessage}
use signal_gateway.Syslog.{and_then}
use signal_gateway.JsonIngest.{
  Times, JsonLogMessage, into_log_message, Closing, clean, invalid_data, broken, hand_over,
  connection_loop, handle_tcp_connection,
}

-- Blank lines and a value on a line, or over several lines.
abbrev pub print_lines : List (ℕ × Items) → List ℕ
print_lines [] = []
print_lines ((n, is) ∷ vs) = replicate n b'\n' ++ (print is ++ b'\n' ∷ print_lines vs)

abbrev pub IsLine : ℕ × Items → Type 0
IsLine v = (print v.1 ≢ []) × IsItems false v.1

-- How the connection ends on what is no value.
abbrev pub closing_of {ℓ} : {E : Type ℓ} → Outcome E → Option (Closing E)
closing_of (value m) = none
closing_of no_more = some clean
closing_of (braces_error buf) = some invalid_data
closing_of (brackets_error buf) = some invalid_data
closing_of (io_error e) = some (broken e)

shorter : (n : ℕ) (s t : List ℕ) → length t < length (replicate n b'\n' ++ (s ++ b'\n' ∷ t))
shorter n s t =
    omega (arith, length-append (replicate n b'\n') (s ++ b'\n' ∷ t), length-append s (b'\n' ∷ t))

module _ {ℓ} {E : Type ℓ} (t : Times) (from_utf8 : List ℕ → Option Text)
    (from_str : Text → Option (JsonLogMessage t.DateTime)) (clock : ℕ → ℤ × ℕ)
    (ending : Ending E) where
  -- The messages up to the first that cannot be read, each with the clock's next reading, and how
  -- the connection ends: at that message, or as given.
  pub delivered : ℕ → List (List ℕ) → Closing E → List LogMessage × Closing E
  delivered n [] c = ([], c)
  delivered n (m ∷ ms) c = elim (and_then (from_utf8 m) from_str) [
    | none ↦ ([], invalid_data)
    | some msg ↦
        (let (rest, c') = delivered (suc n) ms c in
          (into_log_message t msg (clock n).0 (clock n).1 ∷ rest, c'))
  ]

  abbrev run : ℕ → ℕ → List ℕ → List LogMessage × Closing E
  run = connection_loop t from_utf8 from_str clock ending

  loop_closing :
      (o : Outcome E) (rest : List ℕ) (fuel n : ℕ) (tail : List ℕ) (c : Closing E)
      → read_json_lines_value ending tail ≡ (o, rest)
      → closing_of o ≡ some c
      → run (suc fuel) n tail ≡ ([], c)
  unfolding connection_loop
  loop_closing (value m) rest fuel n tail c e h = cc
  loop_closing no_more rest fuel n tail c e h =
      rw (e, connection_loop) (ap (λ k. ([], k)) (some-injective _ _ h))
  loop_closing (braces_error buf) rest fuel n tail c e h =
      rw (e, connection_loop) (ap (λ k. ([], k)) (some-injective _ _ h))
  loop_closing (brackets_error buf) rest fuel n tail c e h =
      rw (e, connection_loop) (ap (λ k. ([], k)) (some-injective _ _ h))
  loop_closing (io_error x) rest fuel n tail c e h =
      rw (e, connection_loop) (ap (λ k. ([], k)) (some-injective _ _ h))

  loop_value :
      (fuel n : ℕ) (bytes m rest : List ℕ) (ms : List (List ℕ)) (c : Closing E)
      → read_json_lines_value ending bytes ≡ (value m, rest)
      → ((k : ℕ) → run fuel k rest ≡ delivered k ms c)
      → run (suc fuel) n bytes ≡ delivered n (m ∷ ms) c
  unfolding connection_loop delivered
  loop_value fuel n bytes m rest ms c e h =
      rw (e, connection_loop)
        (elim (Option-cases (and_then (from_utf8 m) from_str)) [
          | inl q ↦ rw (q, delivered) refl
          | inr (msg, q) ↦
              rw (q, delivered)
                (ap
                  (λ (p : List LogMessage × Closing E).
                    (into_log_message t msg (clock n).0 (clock n).1 ∷ p.0, p.1))
                  (ap (λ (p : Outcome E × List ℕ). run fuel (suc n) p.1) e ∙ h (suc n)))
        ])

  loop-print_lines :
      (vs : List (ℕ × Items)) (tail : List ℕ) (c : Closing E) (fuel n : ℕ)
      → All IsLine vs
      → closing_of (read_json_lines_value ending tail).0 ≡ some c
      → length (print_lines vs ++ tail) < fuel
      → run fuel n (print_lines vs ++ tail) ≡ delivered n (map (λ v. print v.1) vs) c
  unfolding delivered
  loop-print_lines vs tail c zero n h e enough = absurd (omega arith)
  loop-print_lines [] tail c (suc fuel) n h e enough = loop_closing _ _ fuel n tail c refl e
  loop-print_lines ((k, is) ∷ vs) tail c (suc fuel) n h e enough =
      let rest = print_lines vs ++ tail in
      let q =
        append_assoc (replicate k b'\n') (print is ++ b'\n' ∷ print_lines vs) tail
        ∙ ap (◌++◌ (replicate k b'\n')) (append_assoc (print is) (b'\n' ∷ print_lines vs) tail) in
      rw q (
        loop_value fuel n (replicate k b'\n' ++ (print is ++ b'\n' ∷ rest)) (print is) rest _ c
          (read_value ending k is rest h.0.0 h.0.1)
          (λ j.
            loop-print_lines vs tail c fuel j h.1 e
              (omega (arith, shorter k (print is) rest, ap length q, enough))))

  -- Of a connection that sends values, each closed by a line feed, and then bytes that are no value,
  -- the messages are handed to the gateway in order, up to the first that cannot be read, which
  -- ends the connection; where all can be, it ends as those last bytes say.
  pub handle_tcp_connection-print_lines :
      (vs : List (ℕ × Items)) (tail : List ℕ) (c : Closing E)
      → All IsLine vs
      → closing_of (read_json_lines_value ending tail).0 ≡ some c
      → handle_tcp_connection t from_utf8 from_str clock ending (print_lines vs ++ tail)
        ≡ delivered 0 (map (λ v. print v.1) vs) c
  unfolding handle_tcp_connection
  handle_tcp_connection-print_lines vs tail c h e =
      loop-print_lines vs tail c (suc (length (print_lines vs ++ tail))) 0 h e (omega arith)
