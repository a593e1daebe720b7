-- ===== src/TrustSet/Tests.antt =====
-- A signal-cli that keeps a list of trusted numbers, and instances of the theorem.
use signal_gateway.Common.{
  ℕ, ◌≡◌, refl, sym, ap, ◌∙◌, Option, none, some, List, [], ◌∷◌, ◌||◌, ◌⊎◌, inr, arith, map,
}
use signal_gateway.Common.Text.{Text, codes, text_eq, utf8_len}
use signal_gateway.TrustSet.{
  Identity, trusted_verified, RpcClient, contains_text, trusted_numbers, update_uuid, parse_uuid,
  split_dashes, has_revoked, verify_reset,
}
use signal_gateway.TrustSet.Update.{Trusts, update_uuid-exact}

abbrev verified_identity : Text → Identity
verified_identity sn = record { safety_number = sn; trust_level = trusted_verified }

abbrev signal_cli : RpcClient (List Text) ℕ
signal_cli = record {
  list_identities = λ uuid s. (s, inr (some (map verified_identity s)));
  remove_contact = λ uuid s. ([], inr tt);
  trust = λ uuid sn s. (sn ∷ s, inr tt);
}

numbers_listed :
    (s : List Text) (sn : Text)
    → contains_text (trusted_numbers (map verified_identity s)) sn ≡ contains_text s sn
numbers_listed [] sn = refl
numbers_listed (x ∷ s) sn = ap (λ b. text_eq x sn || b) (numbers_listed s sn)

abbrev answer : List Identity → ℕ ⊎ Option (List Identity)
answer ids = inr (some ids)

same_list : (a b : List Identity) → answer a ≡ answer b → a ≡ b
same_list a b e = ground arith

signal_cli-Trusts : Trusts signal_cli (codes "u") contains_text
signal_cli-Trusts = record {
  listed = λ s ids sn e.
      ap (λ l. contains_text (trusted_numbers l) sn)
        (sym (same_list (map verified_identity s) ids e))
      ∙ numbers_listed s sn;
  unchanged = λ s sn. refl;
  added = λ s number sn e. refl;
}

-- One number is trusted that the configuration does not have.
abbrev old : List Text
old = codes "111" ∷ []

reset_succeeds : (update_uuid signal_cli (codes "u") (codes "222" ∷ []) old).1 ≡ none
unfolding update_uuid has_revoked verify_reset text_eq
reset_succeeds = refl

update_uuid-exact_example :
    contains_text (update_uuid signal_cli (codes "u") (codes "222" ∷ []) old).0 (codes "111")
    ≡ contains_text (codes "222" ∷ []) (codes "111")
update_uuid-exact_example =
    update_uuid-exact signal_cli (codes "u") contains_text signal_cli-Trusts (codes "222") []
      (map verified_identity old) old (codes "111") refl reset_succeeds

uuid_accepted :
    parse_uuid (codes "01234567-89ab-cdef-0123-456789abcdef")
    ≡ some (codes "01234567-89ab-cdef-0123-456789abcdef")
unfolding parse_uuid split_dashes utf8_len
uuid_accepted = refl
