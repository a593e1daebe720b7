-- ===== src/TrustSet/Update.antt =====
-- `update_trust`: what is trusted afterwards.
use signal_gateway.Common.{
  ◌≡◌, refl, sym, ap, ◌∙◌, Bool, true, false, not, ◌&&◌, ◌||◌, Option, none, some, List, [], ◌∷◌,
  if◌then◌else◌, ◌⊎◌, inl, inr, arith, Bool-cases, Option-cases,
}
use signal_gateway.Common.Text.{Text, text_eq, text_eq_iff}
use signal_gateway.TrustSet.{
  Identity, level_is_trusted, RpcClient, TrustError, contains_text, trusted_numbers, first_missing,
  has_revoked, trust_failed, trust_each, verify_reset, reset_trust, if_removed, if_trusted,
  verified, update_with, update_uuid, identities_or_empty,
}

-- What signal-cli documents of an account's calls for one contact: a list names the trusted numbers
-- of the moment and changes nothing, and `trust` adds its number to them.
pub record Trusts {ℓ κ} {S : Type ℓ} {E : Type κ} (signal_cli : RpcClient S E) (uuid : Text)
    (trusted : S → Text → Bool) : Type (ℓ ⊔ κ) where
  pub listed :
      (s : S) (ids : List Identity) (sn : Text)
      → (signal_cli.list_identities uuid s).1 ≡ inr (some ids)
      → contains_text (trusted_numbers ids) sn ≡ trusted s sn
  pub unchanged :
      (s : S) (sn : Text) → trusted (signal_cli.list_identities uuid s).0 sn ≡ trusted s sn
  pub added :
      (s : S) (number sn : Text)
      → (signal_cli.trust uuid number s).1 ≡ inr tt
      → trusted (signal_cli.trust uuid number s).0 sn ≡ (text_eq number sn || trusted s sn)

along : (xs : List Text) (a b : Text) → text_eq a b ≡ true → contains_text xs b ≡ contains_text xs a
along xs a b e = ap (contains_text xs) (sym ((text_eq_iff a b).0 e))

all_known :
    (known sns : List Text) (sn : Text)
    → first_missing known sns ≡ none
    → contains_text sns sn ≡ true
    → contains_text known sn ≡ true
all_known known [] sn h c = cc
all_known known (x ∷ sns) sn h c = elim (Bool-cases (text_eq x sn)) [
  | inl e ↦ along known x sn e ∙ ground arith
  | inr e ↦ all_known known sns sn (ground arith) (ground arith)
]

none_revoked :
    (sns : List Text) (ids : List Identity) (sn : Text)
    → has_revoked sns ids ≡ false
    → contains_text (trusted_numbers ids) sn ≡ true
    → contains_text sns sn ≡ true
unfolding has_revoked
none_revoked sns [] sn h c = cc
none_revoked sns (id ∷ ids) sn h c = elim (Bool-cases (level_is_trusted id.trust_level)) [
  | inr e ↦ none_revoked sns ids sn (ground arith) (ground arith)
  | inl t ↦ elim (Bool-cases (text_eq id.safety_number sn)) [
    | inl e ↦ along sns id.safety_number sn e ∙ ground arith
    | inr e ↦ none_revoked sns ids sn (ground arith) (ground arith)
  ]
]

result-cases {κ} : {E : Type κ} (r : E ⊎ Unit {0}) → ((e : E) × (r ≡ inl e)) ⊎ (r ≡ inr tt)
result-cases (inl e) = inl (e, refl)
result-cases (inr tt) = inr refl

module _ {ℓ κ} {S : Type ℓ} {E : Type κ} (signal_cli : RpcClient S E) (uuid : Text)
    (trusted : S → Text → Bool) (laws : Trusts signal_cli uuid trusted) where
  trust_each-known :
      (known sns : List Text) (s : S) (x : Text)
      → contains_text known x ≡ true
      → trust_each signal_cli uuid known (x ∷ sns) s ≡ trust_each signal_cli uuid known sns s
  unfolding trust_each
  trust_each-known known sns s x e = rw (e, trust_each)

  trust_each-added :
      (known sns : List Text) (s : S) (x : Text)
      → contains_text known x ≡ false
      → (signal_cli.trust uuid x s).1 ≡ inr tt
      → trust_each signal_cli uuid known (x ∷ sns) s
        ≡ trust_each signal_cli uuid known sns (signal_cli.trust uuid x s).0
  unfolding trust_each
  trust_each-added known sns s x e r = rw (e, r, trust_each)

  trust_each-failed :
      (known sns : List Text) (s : S) (x : Text) (err : E)
      → contains_text known x ≡ false
      → (signal_cli.trust uuid x s).1 ≡ inl err
      → (trust_each signal_cli uuid known (x ∷ sns) s).1 ≡ some (trust_failed err)
  unfolding trust_each
  trust_each-failed known sns s x err e r = rw (e, r, trust_each)

  trust_each-adds :
      (known sns : List Text) (s : S) (sn : Text)
      → (trust_each signal_cli uuid known sns s).1 ≡ none
      → trusted (trust_each signal_cli uuid known sns s).0 sn
        ≡ (trusted s sn || (contains_text sns sn && not (contains_text known sn)))
  unfolding trust_each
  trust_each-adds known [] s sn h = ground arith
  trust_each-adds known (x ∷ sns) s sn h = elim (Bool-cases (contains_text known x)) [
    | inl e ↦
        let skip = trust_each-known known sns s x e in
        let rest = trust_each-adds known sns s sn (ap (λ r. r.1) (sym skip) ∙ h) in
        let same = along known x sn in ap (λ r. trusted r.0 sn) skip ∙ rest ∙ ground arith
    | inr e ↦ elim (result-cases (signal_cli.trust uuid x s).1) [
      | inl (err, r) ↦ absurd (ground (arith, trust_each-failed known sns s x err e r))
      | inr r ↦
          let step = trust_each-added known sns s x e r in
          let rest =
            trust_each-adds known sns (signal_cli.trust uuid x s).0 sn
              (ap (λ t. t.1) (sym step) ∙ h) in
          let add = laws.added s x sn r in
          let same = along known x sn in ap (λ t. trusted t.0 sn) step ∙ rest ∙ ground arith
    ]
  ]

  verified-equal :
      (sns : List Text) (ids : List Identity) (sn : Text)
      → verify_reset signal_cli uuid sns ids ≡ none
      → contains_text (trusted_numbers ids) sn ≡ contains_text sns sn
  unfolding verify_reset
  verified-equal sns ids sn h = elim (Option-cases (first_missing (trusted_numbers ids) sns)) [
    | inr (a, e) ↦ absurd (ground arith)
    | inl e ↦ elim (Option-cases (first_missing sns (trusted_numbers ids))) [
      | inr (a, f) ↦ absurd (ground arith)
      | inl f ↦
          let there = all_known (trusted_numbers ids) sns sn e in
          let back = all_known sns (trusted_numbers ids) sn f in ground arith
    ]
  ]

  verified_listed :
      (sns : List Text) (s : S) (r : E ⊎ Option (List Identity)) (sn : Text)
      → ((ids : List Identity)
          → r ≡ inr (some ids)
          → contains_text (trusted_numbers ids) sn ≡ trusted s sn)
      → (verified signal_cli uuid sns (s, r)).1 ≡ none
      → trusted (verified signal_cli uuid sns (s, r)).0 sn ≡ contains_text sns sn
  unfolding verified
  verified_listed sns s (inl e) sn l h = cc
  verified_listed sns s (inr none) sn l h = cc
  verified_listed sns s (inr (some ids)) sn l h = sym (l ids refl) ∙ verified-equal sns ids sn h

  if_trusted-equal :
      (sns : List Text) (r : S × Option (TrustError E)) (sn : Text)
      → (if_trusted signal_cli uuid sns r).1 ≡ none
      → trusted (if_trusted signal_cli uuid sns r).0 sn ≡ contains_text sns sn
  unfolding if_trusted
  if_trusted-equal sns (s, some e) sn h = cc
  if_trusted-equal sns (s, none) sn h =
      verified_listed sns (signal_cli.list_identities uuid s).0
        (signal_cli.list_identities uuid s).1 sn
        (λ ids e. laws.listed s ids sn e ∙ sym (laws.unchanged s sn)) h

  reset_trust-equal :
      (sns : List Text) (r : S × (E ⊎ Unit {0})) (sn : Text)
      → (if_removed signal_cli uuid sns r).1 ≡ none
      → trusted (if_removed signal_cli uuid sns r).0 sn ≡ contains_text sns sn
  unfolding if_removed
  reset_trust-equal sns (s, inl e) sn h = cc
  reset_trust-equal sns (s, inr u) sn h =
      if_trusted-equal sns (trust_each signal_cli uuid [] sns s) sn h

  keep-equal :
      (sns : List Text) (ids : List Identity) (s : S) (sn : Text)
      → contains_text (trusted_numbers ids) sn ≡ trusted s sn
      → has_revoked sns ids ≡ false
      → (trust_each signal_cli uuid (trusted_numbers ids) sns s).1 ≡ none
      → trusted (trust_each signal_cli uuid (trusted_numbers ids) sns s).0 sn ≡ contains_text sns sn
  keep-equal sns ids s sn e r h =
      let adds = trust_each-adds (trusted_numbers ids) sns s sn h in
      let old = none_revoked sns ids sn r in adds ∙ ground arith

  update_with-equal :
      (sns : List Text) (ids : List Identity) (s : S) (sn : Text)
      → contains_text (trusted_numbers ids) sn ≡ trusted s sn
      → (update_with signal_cli uuid sns ids s).1 ≡ none
      → trusted (update_with signal_cli uuid sns ids s).0 sn ≡ contains_text sns sn
  unfolding update_with reset_trust
  update_with-equal sns ids s sn e h = elim (Bool-cases (has_revoked sns ids)) [
    | inl r ↦
        let same : update_with signal_cli uuid sns ids s
            ≡ if_removed signal_cli uuid sns (signal_cli.remove_contact uuid s) =
          ap
            (λ b.
              if b
              then reset_trust signal_cli uuid sns s
              else trust_each signal_cli uuid (trusted_numbers ids) sns s)
            r in
        ap (λ t. trusted t.0 sn) same
        ∙ reset_trust-equal sns (signal_cli.remove_contact uuid s) sn (ap (λ t. t.1) (sym same) ∙ h)
    | inr r ↦
        let same : update_with signal_cli uuid sns ids s
            ≡ trust_each signal_cli uuid (trusted_numbers ids) sns s =
          ap
            (λ b.
              if b
              then reset_trust signal_cli uuid sns s
              else trust_each signal_cli uuid (trusted_numbers ids) sns s)
            r in
        ap (λ t. trusted t.0 sn) same ∙ keep-equal sns ids s sn e r (ap (λ t. t.1) (sym same) ∙ h)
  ]

  -- Where signal-cli keeps to `Trusts`, the contact has safety numbers in the configuration, and
  -- signal-cli answers with the contact's identities, a round that reports success leaves exactly
  -- the configured numbers trusted.
  pub update_uuid-exact :
      (number : Text) (sns : List Text) (ids : List Identity) (s : S) (sn : Text)
      → (signal_cli.list_identities uuid s).1 ≡ inr (some ids)
      → (update_uuid signal_cli uuid (number ∷ sns) s).1 ≡ none
      → trusted (update_uuid signal_cli uuid (number ∷ sns) s).0 sn
        ≡ contains_text (number ∷ sns) sn
  unfolding update_uuid
  update_uuid-exact number sns ids s sn e h =
      let s' = (signal_cli.list_identities uuid s).0 in
      let same : update_uuid signal_cli uuid (number ∷ sns) s
          ≡ update_with signal_cli uuid (number ∷ sns) ids s' =
        ap
          (λ l.
            update_with signal_cli uuid (number ∷ sns) (identities_or_empty signal_cli uuid l) s')
          e in
      ap (λ t. trusted t.0 sn) same
      ∙ update_with-equal (number ∷ sns) ids s' sn
          (laws.listed s ids sn e ∙ sym (laws.unchanged s sn)) (ap (λ t. t.1) (sym same) ∙ h)
