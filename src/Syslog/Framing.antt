-- ===== src/Syslog/Framing.antt =====
-- Both kinds of framing, and that the reader finds the message in each.
use mathlib.Core.List.{append_assoc, append-nil}
use mathlib.Core.Bool.{or-true}
use signal_gateway.Common.{
  ℕ, ◌+◌, ◌-◌, ◌*◌, ◌^◌, ◌≤◌, ◌<◌, ◌≡◌, refl, ap, ◌∙◌, ◌≢◌, inl, inr, Bool, true, false, none, some,
  List, [], ◌∷◌, ◌++◌, sym, ==_refl, if◌then◌else◌, arith, ltb, All, Bool-cases, length,
  length-append, take-append_length, drop-append_length,
}
use signal_gateway.Common.Decimal.{show, value, value-show, value_ge, IsDigit, Digits, Digits-show}
use signal_gateway.Syslog.{
  Ending, eof, message, error, invalid_data, capacity_overflow, is_digit, push_digit, counted,
  refused, read_count, read_body, read_octet_counted_message, read_until,
  read_non_transparent_message, is_blank, read_framed_syslog_bytes,
}

-- A message by its length, or by the byte behind it, which may be NUL. A message of the second
-- kind begins with `<`.
pub data Frame : Type 0 where
  octets : List ℕ → Frame
  line : Bool → List ℕ → Frame

abbrev pub contents : Frame → List ℕ
contents (octets m) = m
contents (line nul m) = b'<' ∷ m

abbrev pub line_end : Bool → ℕ
line_end cr = if cr then b'\r' else b'\n'

abbrev pub print : Bool → Frame → List ℕ
print cr (octets m) = show (length m) ++ b' ' ∷ m
print cr (line nul m) = b'<' ∷ (m ++ (if nul then 0 else line_end cr) ∷ [])

abbrev pub IsInside : Bool → ℕ → Type 0
IsInside cr b = (b ≢ 0) × (b ≢ line_end cr)

abbrev pub IsFrame : Bool → Frame → Type 0
IsFrame cr (octets m) = (0 < length m) × (length m < 2 ^ 63)
IsFrame cr (line nul m) = All (IsInside cr) m

abbrev pub IsBlank : ℕ → Type 0
IsBlank b = is_blank b ≡ true

push_digit_fits :
    (acc c : ℕ)
    → IsDigit c
    → acc * 10 + (c - b'0') < 2 ^ 64
    → push_digit acc c ≡ some (acc * 10 + (c - b'0'))
unfolding push_digit
push_digit_fits acc c d h = ground arith

push_digit_over : (acc c : ℕ) → IsDigit c → 2 ^ 64 ≤ acc * 10 + (c - b'0') → push_digit acc c ≡ none
unfolding push_digit
push_digit_over acc c d h = ground arith

is_digit-true : (c : ℕ) → IsDigit c → is_digit c ≡ true
is_digit-true c h = ground arith

from_zero : (k : ℕ) → k ≡ 0 + k
from_zero k = omega arith

first_value : (n : ℕ) (d : Digits (show n)) → value (d.first - b'0') d.others ≡ n
unfolding value
first_value n d =
    ap (λ k. value k d.others) (from_zero (d.first - b'0')) ∙ ap (value 0) (sym d.eq) ∙ value-show n

module _ {ℓ} {E : Type ℓ} (ending : Ending E) where
  read_count-digits :
      (s : List ℕ) (acc : ℕ) (rest : List ℕ)
      → All IsDigit s
      → value acc s < 2 ^ 64
      → read_count ending acc (s ++ b' ' ∷ rest) ≡ counted (value acc s) rest
  unfolding read_count value
  read_count-digits [] acc rest h fits = refl
  read_count-digits (c ∷ s) acc rest h fits =
      rw
        (
          is_digit-true c h.0,
          push_digit_fits acc c h.0 (omega (arith, fits, value_ge (acc * 10 + (c - b'0')) s)),
        )
        (read_count-digits s (acc * 10 + (c - b'0')) rest h.1 fits)

  read_count-overflow :
      (s : List ℕ) (acc : ℕ) (rest : List ℕ)
      → All IsDigit s
      → acc < 2 ^ 64
      → 2 ^ 64 ≤ value acc s
      → read_count ending acc (s ++ rest) ≡ refused invalid_data
  unfolding read_count value
  read_count-overflow [] acc rest h low over = absurd (omega arith)
  read_count-overflow (c ∷ s) acc rest h low over =
      elim (Bool-cases (ltb (acc * 10 + (c - b'0')) (2 ^ 64))) [
        | inl e ↦
            rw (is_digit-true c h.0, push_digit_fits acc c h.0 (ground arith))
              (read_count-overflow s (acc * 10 + (c - b'0')) rest h.1 (ground arith) over)
        | inr e ↦ rw (is_digit-true c h.0, push_digit_over acc c h.0 (ground arith))
      ]

  read_body-append :
      (m rest : List ℕ)
      → length m < 2 ^ 63
      → read_body ending (length m) (m ++ rest) ≡ message m rest
  unfolding read_body
  read_body-append m rest h =
      rw (take-append_length m rest, drop-append_length m rest)
        (ground (arith, length-append m rest))

  read_octets :
      (cr : Bool) (first : ℕ) (s m rest : List ℕ)
      → b'1' ≤ first
      → first ≤ b'9'
      → read_count ending (first - b'0') (s ++ b' ' ∷ (m ++ rest)) ≡ counted (length m) (m ++ rest)
      → length m < 2 ^ 63
      → read_framed_syslog_bytes ending cr (first ∷ (s ++ b' ' ∷ (m ++ rest))) ≡ message m rest
  unfolding read_framed_syslog_bytes read_octet_counted_message
  read_octets cr first s m rest low high e h = ground (arith, e, read_body-append m rest h)

  octets_lem :
      (cr : Bool) (m rest : List ℕ)
      → 0 < length m
      → length m < 2 ^ 63
      → read_framed_syslog_bytes ending cr (show (length m) ++ b' ' ∷ (m ++ rest)) ≡ message m rest
  unfolding value
  octets_lem cr m rest pos h =
      let d = Digits-show (length m) pos in
      let v = first_value (length m) d in
      rw d.eq (
        read_octets cr d.first d.others m rest d.first_low d.first_high
          (read_count-digits d.others (d.first - b'0') (m ++ rest) d.all (omega (arith, v, h))
            ∙ ap (λ n. counted n (m ++ rest)) v)
          h)

  read_until_lem :
      (cr nul : Bool) (msg m rest : List ℕ)
      → All (IsInside cr) m
      → read_until ending (line_end cr) msg (m ++ (if nul then 0 else line_end cr) ∷ rest)
        ≡ message (msg ++ m) rest
  unfolding read_until
  read_until_lem cr true msg [] rest h = ap (λ s. message s rest) (sym (append-nil msg))
  read_until_lem cr false msg [] rest h = rw (==_refl (line_end cr), or-true, append-nil msg)
  read_until_lem cr nul msg (b ∷ m) rest h =
      ground (arith, read_until_lem cr nul (msg ++ b ∷ []) m rest h.1, append_assoc msg (b ∷ []) m)

  -- A message that the peer does not end is read up to the end of the stream.
  read_until_eof :
      (cr : Bool) (msg m : List ℕ)
      → ending ≡ eof
      → All (IsInside cr) m
      → read_until ending (line_end cr) msg m ≡ message (msg ++ m) []
  unfolding read_until
  read_until_eof cr msg [] e h = rw (e, append-nil msg)
  read_until_eof cr msg (b ∷ m) e h =
      ground (arith, read_until_eof cr (msg ++ b ∷ []) m e h.1, append_assoc msg (b ∷ []) m)

  read-print :
      (cr : Bool) (f : Frame) (rest : List ℕ)
      → IsFrame cr f
      → read_framed_syslog_bytes ending cr (print cr f ++ rest) ≡ message (contents f) rest
  unfolding read_framed_syslog_bytes read_non_transparent_message
  read-print cr (octets m) rest h =
      ap (read_framed_syslog_bytes ending cr) (append_assoc (show (length m)) (b' ' ∷ m) rest)
      ∙ octets_lem cr m rest h.0 h.1
  read-print cr (line nul m) rest h =
      ap (read_framed_syslog_bytes ending cr)
        (ap (◌∷◌ b'<') (append_assoc m ((if nul then 0 else line_end cr) ∷ []) rest))
      ∙ read_until_lem cr nul (b'<' ∷ []) m rest h

  -- Blanks, line feeds and carriage returns before a frame are skipped. A frame is read whole,
  -- where a message sent by its length has at least one byte and fewer than 2^63, and one sent by a
  -- delimiter does not hold a delimiter; the bytes behind it are left.
  pub read_frame :
      (cr : Bool) (blanks : List ℕ) (f : Frame) (rest : List ℕ)
      → All IsBlank blanks
      → IsFrame cr f
      → read_framed_syslog_bytes ending cr (blanks ++ (print cr f ++ rest))
        ≡ message (contents f) rest
  unfolding read_framed_syslog_bytes
  read_frame cr [] f rest b h = read-print cr f rest h
  read_frame cr (c ∷ blanks) f rest b h = rw b.0 (read_frame cr blanks f rest b.1 h)

  pub read_blanks :
      (cr : Bool) (blanks : List ℕ)
      → All IsBlank blanks
      → read_framed_syslog_bytes ending cr blanks ≡ read_framed_syslog_bytes ending cr []
  unfolding read_framed_syslog_bytes
  read_blanks cr [] b = refl
  read_blanks cr (c ∷ blanks) b = rw b.0 (read_blanks cr blanks b.1)

  read_octets_large :
      (cr : Bool) (first n : ℕ) (s rest : List ℕ)
      → b'1' ≤ first
      → first ≤ b'9'
      → read_count ending (first - b'0') (s ++ b' ' ∷ rest)
        ≡ (if ltb n (2 ^ 64) then counted n rest else refused invalid_data)
      → 2 ^ 63 ≤ n
      → read_framed_syslog_bytes ending cr (first ∷ (s ++ b' ' ∷ rest))
        ≡ (if ltb n (2 ^ 64) then capacity_overflow else error invalid_data)
  unfolding read_framed_syslog_bytes read_octet_counted_message read_body
  read_octets_large cr first n s rest low high e h = elim (Bool-cases (ltb n (2 ^ 64))) [
    | inl q ↦ ground (arith, e, q)
    | inr q ↦ ground (arith, e, q)
  ]

  -- A length from 2^63 on is not read: from 2^64 on it is refused as invalid data, and below that
  -- the buffer for the message cannot be made, which is a panic.
  pub octet_count_too_large :
      (cr : Bool) (n : ℕ) (rest : List ℕ)
      → 2 ^ 63 ≤ n
      → read_framed_syslog_bytes ending cr (show n ++ b' ' ∷ rest)
        ≡ (if ltb n (2 ^ 64) then capacity_overflow else error invalid_data)
  unfolding value
  octet_count_too_large cr n rest h =
      let d = Digits-show n (omega arith) in
      let v = first_value n d in
      rw d.eq (
        read_octets_large cr d.first n d.others rest d.first_low d.first_high
          (elim (Bool-cases (ltb n (2 ^ 64))) [
            | inl q ↦
                rw (q, read_count-digits d.others (d.first - b'0') rest d.all (ground arith), v)
            | inr q ↦ rw (
              q,
              read_count-overflow d.others (d.first - b'0') (b' ' ∷ rest) d.all (ground arith)
                  (ground arith),
            )
          ])
          h)
