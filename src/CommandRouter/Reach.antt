-- ===== src/CommandRouter/Reach.antt =====
-- Which messages a route gets, and that `build` refuses just the tables with a route that gets none.
use mathlib.Core.List.{append-nil, append_assoc}
use signal_gateway.Common.{
  ◌≡◌, refl, sym, ap, ◌∙◌, ◌↔◌, inl, inr, true, false, none, some, [], ◌∷◌, ◌++◌, arith, subst, ap₂,
  All, Bool-cases, Option-cases,
}
use signal_gateway.Common.Text.{
  Text, strip_prefix, strip_prefix-append, strip_prefix→eq, starts_with, starts_with_iff, is_some,
}
use signal_gateway.CommandRouter.{Handling, CommandRouter, route, hides, has_inaccessible, build}

covers :
    (p q message : Text)
    → starts_with p q ≡ true
    → starts_with q message ≡ true
    → starts_with p message ≡ true
covers p q message h k =
    let (r, e) = (starts_with_iff p q).0 h in
    let (t, f) = (starts_with_iff q message).0 k in
    (starts_with_iff p message).1 (r ++ t, f ∙ ap (λ u. u ++ t) e ∙ append_assoc p r t)

module _ {ℓ} {H : Type ℓ} where
  -- The first route whose prefix the message has, with what stands behind the prefix.
  pub record Chosen (rs : CommandRouter H) (message rest : Text) (handling : Handling H)
      : Type ℓ where
    pub before : CommandRouter H
    pub prefix : Text
    pub after : CommandRouter H
    pub table : rs ≡ before ++ (prefix, handling) ∷ after
    pub whole : message ≡ prefix ++ rest
    pub first : All (λ r. starts_with r.0 message ≡ false) before

  route-Chosen :
      (rs : CommandRouter H) (message rest : Text) (handling : Handling H)
      → route rs message ≡ some (rest, handling)
      → Chosen rs message rest handling
  unfolding route starts_with
  route-Chosen [] message rest handling h = cc
  route-Chosen ((p, k) ∷ rs) message rest handling h =
      elim (Option-cases (strip_prefix p message)) [
        | inl e ↦
            let c = route-Chosen rs message rest handling (ground (arith, e)) in
            record {
              before = (p, k) ∷ c.before;
              prefix = c.prefix;
              after = c.after;
              table = ap (◌∷◌ (p, k)) c.table;
              whole = c.whole;
              first = (ap is_some e, c.first);
            }
        | inr (stripped, e) ↦
            let same : (stripped ≡ rest) × (k ≡ handling) = ground (arith, e) in
            record {
              before = [];
              prefix = p;
              after = rs;
              table = ap (λ j. (p, j) ∷ rs) same.1;
              whole = strip_prefix→eq p message stripped e ∙ ap (λ t. p ++ t) same.0;
              first = tt;
            }
      ]

  route-append :
      (before after : CommandRouter H) (p rest : Text) (handling : Handling H)
      → All (λ r. starts_with r.0 (p ++ rest) ≡ false) before
      → route (before ++ (p, handling) ∷ after) (p ++ rest) ≡ some (rest, handling)
  unfolding route starts_with
  route-append [] after p rest handling h = ground (arith, strip_prefix-append p rest)
  route-append ((q, k) ∷ before) after p rest handling h =
      elim (Option-cases (strip_prefix q (p ++ rest))) [
        | inl e ↦ rw (e, route) (route-append before after p rest handling h.1)
        | inr (t, e) ↦ absurd (ground (arith, e))
      ]

  first-along :
      (before : CommandRouter H) (s t : Text)
      → s ≡ t
      → All (λ r. starts_with r.0 s ≡ false) before
      → All (λ r. starts_with r.0 t ≡ false) before
  first-along before s t e h = subst (λ u. All (λ r. starts_with r.0 u ≡ false) before) e h

  -- A message goes to a handling just if that is the one of the first route whose prefix it has, and
  -- what is handed on is the message without the prefix.
  pub route_iff :
      (rs : CommandRouter H) (message rest : Text) (handling : Handling H)
      → (route rs message ≡ some (rest, handling)) ↔ Chosen rs message rest handling
  route_iff rs message rest handling = (
    route-Chosen rs message rest handling,
    λ c.
        ap (λ t. route t message) c.table
        ∙ ap (route (c.before ++ (c.prefix, handling) ∷ c.after)) c.whole
        ∙ route-append c.before c.after c.prefix rest handling
            (first-along c.before message (c.prefix ++ rest) c.whole c.first),
  )

  hides-false :
      (q : Text) (before after : CommandRouter H) (p : Text) (k : Handling H)
      → hides q (before ++ (p, k) ∷ after) ≡ false
      → starts_with q p ≡ false
  unfolding hides
  hides-false q [] after p k h = ground arith
  hides-false q ((r, j) ∷ before) after p k h = hides-false q before after p k (ground arith)

  open_before :
      (before after : CommandRouter H) (p : Text) (k : Handling H)
      → has_inaccessible (before ++ (p, k) ∷ after) ≡ false
      → All (λ r. starts_with r.0 p ≡ false) before
  unfolding has_inaccessible
  open_before [] after p k h = tt
  open_before ((q, j) ∷ before) after p k h =
      (hides-false q before after p k (ground arith), open_before before after p k (ground arith))

  -- In a table that `build` accepts every route gets a message: the one that is just its prefix goes
  -- to that route, with nothing behind the prefix.
  pub build_reachable :
      (rs table before after : CommandRouter H) (p : Text) (handling : Handling H)
      → build rs ≡ some table
      → table ≡ before ++ (p, handling) ∷ after
      → route table p ≡ some ([], handling)
  unfolding build
  build_reachable rs table before after p handling h e =
      let accepted : has_inaccessible rs ≡ false = ground arith in
      let same : rs ≡ table = ground arith in
      let free =
        open_before before after p handling (ap has_inaccessible (sym (same ∙ e)) ∙ accepted) in
      ap₂ route e (sym (append-nil p))
      ∙ route-append before after p [] handling
          (first-along before p (p ++ []) (sym (append-nil p)) free)

  -- Two routes, the later of which gets no message since every message for it has the earlier prefix.
  pub record Hidden (rs : CommandRouter H) : Type ℓ where
    pub before : CommandRouter H
    pub earlier : Text
    pub first : Handling H
    pub between : CommandRouter H
    pub later : Text
    pub second : Handling H
    pub after : CommandRouter H
    pub table : rs ≡ before ++ (earlier, first) ∷ (between ++ (later, second) ∷ after)
    pub covered :
        (message : Text) → starts_with later message ≡ true → starts_with earlier message ≡ true

  -- A route behind a prefix that hides it.
  record Behind (p : Text) (rs : CommandRouter H) : Type ℓ where
    between : CommandRouter H
    later : Text
    second : Handling H
    after : CommandRouter H
    table : rs ≡ between ++ (later, second) ∷ after
    inside : starts_with p later ≡ true

  hides-Behind : (p : Text) (rs : CommandRouter H) → hides p rs ≡ true → Behind p rs
  unfolding hides
  hides-Behind p [] h = cc
  hides-Behind p ((q, k) ∷ rs) h = elim (Bool-cases (starts_with p q)) [
    | inl e ↦ record { between = []; later = q; second = k; after = rs; table = refl; inside = e }
    | inr e ↦
        let b = hides-Behind p rs (ground arith) in
        record {
          between = (q, k) ∷ b.between;
          later = b.later;
          second = b.second;
          after = b.after;
          table = ap (◌∷◌ (q, k)) b.table;
          inside = b.inside;
        }
  ]

  inaccessible-Hidden : (rs : CommandRouter H) → has_inaccessible rs ≡ true → Hidden rs
  unfolding has_inaccessible
  inaccessible-Hidden [] h = cc
  inaccessible-Hidden ((p, j) ∷ rs) h = elim (Bool-cases (hides p rs)) [
    | inl e ↦
        let b = hides-Behind p rs e in
        record {
          before = [];
          earlier = p;
          first = j;
          between = b.between;
          later = b.later;
          second = b.second;
          after = b.after;
          table = ap (◌∷◌ (p, j)) b.table;
          covered = λ message g. covers p b.later message b.inside g;
        }
    | inr e ↦
        let w = inaccessible-Hidden rs (ground arith) in
        record {
          before = (p, j) ∷ w.before;
          earlier = w.earlier;
          first = w.first;
          between = w.between;
          later = w.later;
          second = w.second;
          after = w.after;
          table = ap (◌∷◌ (p, j)) w.table;
          covered = w.covered;
        }
  ]

  -- A table that `build` refuses has a route whose every message has the prefix of an earlier route.
  pub build_refuses : (rs : CommandRouter H) → build rs ≡ none → Hidden rs
  unfolding build
  build_refuses rs h = inaccessible-Hidden rs (ground arith)
