-- ===== src/Syslog/Connection.antt =====
-- What a whole connection delivers, how it ends, and that its loop ends.
use mathlib.Core.List.{append_assoc}
use signal_gateway.Common.{
  ℕ, zero, suc, ◌-◌, ◌^◌, ◌≤◌, ◌<◌, ◌≡◌, refl, ap, ◌∙◌, ◌≢◌, inl, inr, Bool, Option, none, some,
  List, [], ◌∷◌, ◌++◌, if◌then◌else◌, arith, All, Bool-cases, Option-cases, length, length-drop,
  leb, ◌&&◌, ◌||◌, ◌==◌, map, subst,
}
use mathlib.Core.Option.{some-injective}
use signal_gateway.Common.Int.{ℤ}
use signal_gateway.Common.Text.{Text}
use signal_gateway.LogMessage.{LogMessage}
use signal_gateway.Syslog.{
  Ending, eof, failed, Outcome, message, no_more, error, capacity_overflow, Count, counted, refused,
  read_count, read_body, read_octet_counted_message, read_until, read_non_transparent_message,
  read_framed_syslog_bytes, SyslogMessage, parse_message, deliver, Closing, clean, broken, panicked,
  out_of_fuel, syslog_to_log_message, connection_loop, handle_tcp_connection, is_blank, is_digit,
  push_digit,
}
use signal_gateway.Syslog.Framing.{Frame, contents, print, IsFrame, IsBlank, read_frame}

-- A frame with the blanks before it.
abbrev pub Spaced : Type 0
Spaced = List ℕ × Frame

abbrev pub print_all : Bool → List Spaced → List ℕ
print_all cr [] = []
print_all cr ((blanks, f) ∷ fs) = blanks ++ (print cr f ++ print_all cr fs)

abbrev pub IsSpaced : Bool → Spaced → Type 0
IsSpaced cr p = All IsBlank p.0 × IsFrame cr p.1

module _ {ℓ} {E : Type ℓ} (ending : Ending E) where
  -- What a message leaves is shorter than what there was.
  abbrev pub IsShorter : ℕ → Outcome E → Type 0
  IsShorter n (message m rest) = length rest < n
  IsShorter n _ = Unit

  abbrev IsCountShorter : ℕ → Count E → Type 0
  IsCountShorter n (counted len rest) = length rest < n
  IsCountShorter n (refused e) = Unit

  count_weaken : (n k : ℕ) (c : Count E) → n ≤ k → IsCountShorter n c → IsCountShorter k c
  count_weaken n k (counted len rest) h s = omega arith
  count_weaken n k (refused e) h s = tt

  weaken : (n k : ℕ) (o : Outcome E) → n ≤ k → IsShorter n o → IsShorter k o
  weaken n k (message m rest) h s = omega arith
  weaken n k no_more h s = tt
  weaken n k (error e) h s = tt
  weaken n k capacity_overflow h s = tt

  read_count-shorter :
      (len : ℕ) (bs : List ℕ) → IsCountShorter (length bs) (read_count ending len bs)
  unfolding read_count
  read_count-shorter len [] = tt
  read_count-shorter len (b ∷ bs) = elim (Bool-cases (is_digit b)) [
    | inl e ↦ elim (Option-cases (push_digit len b)) [
      | inl n ↦ rw (e, n) tt
      | inr (l, q) ↦
          rw (e, q)
            (count_weaken (length bs) (suc (length bs)) _ (omega arith) (read_count-shorter l bs))
    ]
    | inr e ↦ rw e (elim (Bool-cases (b == b' ')) [ inl q ↦ rw q (omega arith) | inr q ↦ rw q tt ])
  ]

  read_body-IsShorter :
      (len : ℕ) (bs : List ℕ) → IsShorter (suc (length bs)) (read_body ending len bs)
  unfolding read_body
  read_body-IsShorter len bs = elim (Bool-cases (leb (2 ^ 63) len)) [
    | inl e ↦ rw e tt
    | inr e ↦ rw e (elim (Bool-cases (leb len (length bs))) [
      | inl q ↦ rw q (omega (arith, length-drop len bs))
      | inr q ↦ rw q tt
    ])
  ]

  after_count-IsShorter :
      (n : ℕ) (c : Count E)
      → IsCountShorter n c
      → IsShorter
          (suc n)
          (elim c [ counted len rest ↦ read_body ending len rest | refused e ↦ error e ])
  after_count-IsShorter n (counted len rest) h =
      weaken (suc (length rest)) (suc n) _ (omega arith) (read_body-IsShorter len rest)
  after_count-IsShorter n (refused e) h = tt

  read_until-IsShorter :
      (d : ℕ) (msg bs : List ℕ) → IsShorter (suc (length bs)) (read_until ending d msg bs)
  unfolding read_until
  read_until-IsShorter d msg [] = elim ending as (λ k. IsShorter 1 (read_until k d msg [])) [
    | eof ↦ omega arith
    | failed e ↦ tt
  ]
  read_until-IsShorter d msg (b ∷ bs) = elim (Bool-cases (b == 0 || b == d)) [
    | inl e ↦ rw e (omega arith)
    | inr e ↦
        rw e
          (weaken (suc (length bs)) _ _ (omega arith) (read_until-IsShorter d (msg ++ b ∷ []) bs))
  ]

  pub read_framed-IsShorter :
      (cr : Bool) (bs : List ℕ) → IsShorter (length bs) (read_framed_syslog_bytes ending cr bs)
  unfolding read_framed_syslog_bytes read_octet_counted_message read_non_transparent_message
  read_framed-IsShorter cr [] =
      elim ending as (λ k. IsShorter 0 (read_framed_syslog_bytes k cr [])) [
        | eof ↦ tt
        | failed e ↦ tt
      ]
  read_framed-IsShorter cr (b ∷ bs) = elim (Bool-cases (is_blank b)) [
    | inl e ↦ rw e (weaken (length bs) _ _ (omega arith) (read_framed-IsShorter cr bs))
    | inr e ↦ rw e (elim (Bool-cases (leb b'1' b && leb b b'9')) [
      | inl q ↦ rw q (after_count-IsShorter _ _ (read_count-shorter (b - b'0') bs))
      | inr q ↦ rw q (elim (Bool-cases (b == b'<')) [
        | inl p ↦ rw p (read_until-IsShorter (if cr then b'\r' else b'\n') (b ∷ []) bs)
        | inr p ↦ rw p tt
      ])
    ])
  ]

-- How the connection ends on what is not a message.
abbrev pub closing_of {ℓ} : {E : Type ℓ} → Outcome E → Option (Closing E)
closing_of (message m rest) = none
closing_of no_more = some clean
closing_of (error e) = some (broken e)
closing_of capacity_overflow = some panicked

module _ (from_utf8 : List ℕ → Option Text) (from_str : Text → Option SyslogMessage) (cr : Bool)
    (sd_id : Text) (clock : ℕ → ℤ × ℕ) where
  -- The messages that can be read, in order, each with the clock's next reading.
  pub delivered : ℕ → List (List ℕ) → List LogMessage
  delivered n [] = []
  delivered n (m ∷ ms) = elim (parse_message from_utf8 from_str m) [
    | none ↦ delivered n ms
    | some msg ↦ syslog_to_log_message msg sd_id (clock n).0 (clock n).1 ∷ delivered (suc n) ms
  ]

  module _ {ℓ} {E : Type ℓ} (ending : Ending E) where
    abbrev run : ℕ → ℕ → List ℕ → List LogMessage × Closing E
    run = connection_loop from_utf8 from_str cr sd_id clock ending

    abbrev IsEnded : List LogMessage × Closing E → Type ℓ
    IsEnded r = r.1 ≢ out_of_fuel

    deliver-IsEnded :
        (o : Option SyslogMessage) (n : ℕ) (rest : ℕ → List LogMessage × Closing E)
        → ((k : ℕ) → IsEnded (rest k))
        → IsEnded (deliver sd_id clock o n rest)
    deliver-IsEnded none n rest h = h n
    deliver-IsEnded (some m) n rest h = h (suc n)

    outcome-IsEnded :
        (o : Outcome E) (fuel n : ℕ)
        → IsShorter ending fuel o
        → ((k : ℕ) (rest : List ℕ) → length rest < fuel → IsEnded (run fuel k rest))
        → IsEnded (elim o [
          | message m rest ↦
              deliver sd_id clock (parse_message from_utf8 from_str m) n (λ k. run fuel k rest)
          | no_more ↦ ([], clean)
          | error e ↦ ([], broken e)
          | capacity_overflow ↦ ([], panicked)
        ])
    outcome-IsEnded (message m rest) fuel n s h =
        deliver-IsEnded (parse_message from_utf8 from_str m) n _ (λ k. h k rest s)
    outcome-IsEnded no_more fuel n s h = λ e. cc
    outcome-IsEnded (error x) fuel n s h = λ e. cc
    outcome-IsEnded capacity_overflow fuel n s h = λ e. cc

    loop-IsEnded : (fuel n : ℕ) (bytes : List ℕ) → length bytes < fuel → IsEnded (run fuel n bytes)
    unfolding connection_loop
    loop-IsEnded zero n bytes h = absurd (omega arith)
    loop-IsEnded (suc fuel) n bytes h =
        outcome-IsEnded _ fuel n
          (weaken ending (length bytes) fuel _ (omega arith)
            (read_framed-IsShorter ending cr bytes))
          (λ k rest. loop-IsEnded fuel k rest)

    -- The loop over a connection's messages comes to an end on any bytes, however the stream ends.
    pub handle_tcp_connection-ends :
        (bytes : List ℕ)
        → (handle_tcp_connection from_utf8 from_str cr sd_id clock ending bytes).1 ≢ out_of_fuel
    unfolding handle_tcp_connection
    handle_tcp_connection-ends bytes = loop-IsEnded (suc (length bytes)) 0 bytes (omega arith)

    loop_closing :
        (o : Outcome E) (fuel n : ℕ) (tail : List ℕ) (c : Closing E)
        → read_framed_syslog_bytes ending cr tail ≡ o
        → closing_of o ≡ some c
        → run (suc fuel) n tail ≡ ([], c)
    unfolding connection_loop
    loop_closing (message m rest) fuel n tail c e h = cc
    loop_closing no_more fuel n tail c e h =
        rw (e, connection_loop) (ap (λ k. ([], k)) (some-injective _ _ h))
    loop_closing (error x) fuel n tail c e h =
        rw (e, connection_loop) (ap (λ k. ([], k)) (some-injective _ _ h))
    loop_closing capacity_overflow fuel n tail c e h =
        rw (e, connection_loop) (ap (λ k. ([], k)) (some-injective _ _ h))

    loop_message :
        (fuel n : ℕ) (bytes m rest : List ℕ) (ms : List (List ℕ)) (c : Closing E)
        → read_framed_syslog_bytes ending cr bytes ≡ message m rest
        → ((k : ℕ) → run fuel k rest ≡ (delivered k ms, c))
        → run (suc fuel) n bytes ≡ (delivered n (m ∷ ms), c)
    unfolding connection_loop delivered
    loop_message fuel n bytes m rest ms c e h =
        rw (e, connection_loop)
          (elim (Option-cases (parse_message from_utf8 from_str m)) [
            | inl q ↦ rw (q, delivered) (h n)
            | inr (msg, q) ↦ rw (q, delivered, h (suc n))
          ])

    frame_shorter :
        (s : Spaced) (rest : List ℕ)
        → IsSpaced cr s
        → length rest < length (s.0 ++ (print cr s.1 ++ rest))
    frame_shorter s rest h =
        subst (IsShorter ending (length (s.0 ++ (print cr s.1 ++ rest))))
          (read_frame ending cr s.0 s.1 rest h.0 h.1)
          (read_framed-IsShorter ending cr (s.0 ++ (print cr s.1 ++ rest)))

    loop-print_all :
        (fs : List Spaced) (tail : List ℕ) (c : Closing E) (fuel n : ℕ)
        → All (IsSpaced cr) fs
        → closing_of (read_framed_syslog_bytes ending cr tail) ≡ some c
        → length (print_all cr fs ++ tail) < fuel
        → run fuel n (print_all cr fs ++ tail) ≡ (delivered n (map (λ s. contents s.1) fs), c)
    unfolding delivered
    loop-print_all fs tail c zero n h e enough = absurd (omega arith)
    loop-print_all [] tail c (suc fuel) n h e enough = loop_closing _ fuel n tail c refl e
    loop-print_all ((b, f) ∷ fs) tail c (suc fuel) n h e enough =
        let rest = print_all cr fs ++ tail in
        let q =
          append_assoc b (print cr f ++ print_all cr fs) tail
          ∙ ap (◌++◌ b) (append_assoc (print cr f) (print_all cr fs) tail) in
        rw q (
          loop_message fuel n (b ++ (print cr f ++ rest)) (contents f) rest _ c
            (read_frame ending cr b f rest h.0.0 h.0.1)
            (λ k.
              loop-print_all fs tail c fuel k h.1 e
                (omega (arith, frame_shorter (b, f) rest h.0, ap length q, enough))))

    -- Of a connection that sends frames, with blanks before them, and then bytes that are no
    -- message, each message that can be read is handed to the gateway, in the order sent, and then
    -- the connection ends as those last bytes say: cleanly at the end of the stream, with an error,
    -- or in a panic.
    pub handle_tcp_connection-print_all :
        (fs : List Spaced) (tail : List ℕ) (c : Closing E)
        → All (IsSpaced cr) fs
        → closing_of (read_framed_syslog_bytes ending cr tail) ≡ some c
        → handle_tcp_connection from_utf8 from_str cr sd_id clock ending (print_all cr fs ++ tail)
          ≡ (delivered 0 (map (λ s. contents s.1) fs), c)
    unfolding handle_tcp_connection
    handle_tcp_connection-print_all fs tail c h e =
        loop-print_all fs tail c (suc (length (print_all cr fs ++ tail))) 0 h e (omega arith)
