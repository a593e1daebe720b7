-- ===== src/TrustSet.antt =====
-- signal-cli-jsonrpc-client/src/trust_set.rs: which Signal accounts are trusted, and how that is
-- brought to signal-cli. signal-cli is a parameter: its calls work on a state of any type.
pub mod Update
mod Tests
use signal_gateway.Common.{
  ℕ, suc, ◌+◌, Bool, true, false, not, ◌&&◌, ◌||◌, Option, none, some, List, [], ◌∷◌, ◌++◌,
  if◌then◌else◌, leb, ◌==◌, length, ◌⊎◌, inl, inr, map,
}
use signal_gateway.Common.Text.{Text, text_eq, utf8_len}
use signal_gateway.RateLimiter.Limiter.Parse.{is_whitespace, is_ascii_digit}

abbrev pub is_ascii_hexdigit : ℕ → Bool
is_ascii_hexdigit c = is_ascii_digit c || ((leb b'A' c && leb c b'F') || (leb b'a' c && leb c b'f'))

-- `s.split('-')`: the parts between the dashes, at least one.
unfoldable pub split_dashes : Text → List Text
split_dashes [] = [] ∷ []
split_dashes (c ∷ s) =
    let rest = split_dashes s in
    if c == b'-' then [] ∷ rest else (elim rest [ [] ↦ (c ∷ []) ∷ [] | p ∷ ps ↦ (c ∷ p) ∷ ps ])

pub all_hex : Text → Bool
all_hex [] = true
all_hex (c ∷ s) = is_ascii_hexdigit c && all_hex s

-- The loop over the parts and their expected lengths.
pub parts_fit : List Text → List ℕ → Bool
unfolding all_hex
parts_fit [] lens = true
parts_fit (p ∷ ps) [] = true
parts_fit (p ∷ ps) (n ∷ lens) = (utf8_len p == n && all_hex p) && parts_fit ps lens

-- `Uuid::from_str`: `none` is any of its errors.
unfoldable pub parse_uuid : Text → Option Text
unfolding parts_fit
parse_uuid s =
    let parts = split_dashes s in
    if not (utf8_len s == 36)
    then none
    else if not (length parts == 5)
    then none
    else if parts_fit parts (8 ∷ 4 ∷ 4 ∷ 4 ∷ 12 ∷ [])
    then some s
    else none

-- The loop of `SafetyNumber::from_str`: the number of digits, or none at another character.
pub count_digits : Text → ℕ → Option ℕ
count_digits [] digit_count = some digit_count
count_digits (c ∷ s) digit_count =
    let counted = count_digits s (digit_count + 1) in
    let passed = count_digits s digit_count in
    if is_ascii_digit c then counted else if is_whitespace c then passed else none

unfoldable pub parse_safety_number : Text → Option Text
unfolding count_digits
parse_safety_number s = elim (count_digits s 0) [
  | none ↦ none
  | some digit_count ↦ (if digit_count == 60 then some s else none)
]

-- UUIDs with their safety numbers, in the order in which the map is iterated.
abbrev pub SignalTrustSet : Type 0
SignalTrustSet = List (Text × List Text)

unfoldable pub is_trusted : SignalTrustSet → Text → Bool
is_trusted [] source_uuid = false
is_trusted ((uuid, safety_numbers) ∷ m) source_uuid =
    text_eq uuid source_uuid || is_trusted m source_uuid

pub data TrustLevel : Type 0 where
  untrusted trusted_unverified trusted_verified : TrustLevel

abbrev pub level_is_trusted : TrustLevel → Bool
level_is_trusted untrusted = false
level_is_trusted trusted_unverified = true
level_is_trusted trusted_verified = true

pub record Identity : Type 0 where
  pub safety_number : Text
  pub trust_level : TrustLevel

-- The calls of signal-cli for one account. A list is none where it cannot be decoded.
pub record RpcClient {ℓ κ} (S : Type ℓ) (E : Type κ) : Type (ℓ ⊔ κ) where
  pub list_identities : Text → S → S × (E ⊎ Option (List Identity))
  pub remove_contact : Text → S → S × (E ⊎ Unit {0})
  pub trust : Text → Text → S → S × (E ⊎ Unit {0})

pub data TrustError {κ} (E : Type κ) : Type κ where
  remove_failed : E → TrustError E
  trust_failed : E → TrustError E
  verify_failed : E → TrustError E
  bad_identities : TrustError E
  should_be_trusted : Text → TrustError E
  not_in_config : Text → TrustError E

abbrev pub contains_text : List Text → Text → Bool
contains_text [] sn = false
contains_text (s ∷ ss) sn = text_eq s sn || contains_text ss sn

-- The safety numbers of the trusted identities.
abbrev pub trusted_numbers : List Identity → List Text
trusted_numbers [] = []
trusted_numbers (id ∷ ids) =
    if level_is_trusted id.trust_level
    then id.safety_number ∷ trusted_numbers ids
    else trusted_numbers ids

-- The first of the second list that is missing in the first one.
abbrev pub first_missing : List Text → List Text → Option Text
first_missing known [] = none
first_missing known (sn ∷ sns) = if contains_text known sn then first_missing known sns else some sn

-- Is a trusted identity not in the configuration?
unfoldable pub has_revoked : List Text → List Identity → Bool
has_revoked safety_numbers [] = false
has_revoked safety_numbers (id ∷ ids) =
    (level_is_trusted id.trust_level && not (contains_text safety_numbers id.safety_number))
    || has_revoked safety_numbers ids

module _ {ℓ κ} {S : Type ℓ} {E : Type κ} (signal_cli : RpcClient S E) (uuid : Text) where
  open signal_cli use {list_identities, remove_contact, trust}

  -- Trust every number of the list that is not `known`; the loop stops at the first error.
  pub trust_each : List Text → List Text → S → S × Option (TrustError E)
  trust_each known [] s = (s, none)
  trust_each known (sn ∷ sns) s =
      let (s', result) = trust uuid sn s in
      let rest = trust_each known sns s' in
      let skipped = trust_each known sns s in
      if contains_text known sn
      then skipped
      else (elim result [ inl e ↦ (s', some (trust_failed e)) | inr u ↦ rest ])

  -- Does what is trusted now agree with the configuration?
  unfoldable pub verify_reset : List Text → List Identity → Option (TrustError E)
  verify_reset safety_numbers new_identities =
      let trusted_now = trusted_numbers new_identities in
      elim (first_missing trusted_now safety_numbers) [
        | some sn ↦ some (should_be_trusted sn)
        | none ↦ (elim (first_missing safety_numbers trusted_now) [
          | some sn ↦ some (not_in_config sn)
          | none ↦ none
        ])
      ]

  abbrev verified : List Text → S × (E ⊎ Option (List Identity)) → S × Option (TrustError E)
  unfolding verify_reset
  verified safety_numbers (s, inl e) = (s, some (verify_failed e))
  verified safety_numbers (s, inr none) = (s, some bad_identities)
  verified safety_numbers (s, inr (some ids)) = (s, verify_reset safety_numbers ids)

  abbrev if_trusted : List Text → S × Option (TrustError E) → S × Option (TrustError E)
  unfolding verified
  if_trusted safety_numbers (s, some e) = (s, some e)
  if_trusted safety_numbers (s, none) = verified safety_numbers (list_identities uuid s)

  abbrev if_removed : List Text → S × (E ⊎ Unit {0}) → S × Option (TrustError E)
  unfolding trust_each if_trusted
  if_removed safety_numbers (s, inl e) = (s, some (remove_failed e))
  if_removed safety_numbers (s, inr u) = if_trusted safety_numbers (trust_each [] safety_numbers s)

  -- The whole contact is removed, then every configured number is trusted and the outcome is checked.
  pub reset_trust : List Text → S → S × Option (TrustError E)
  unfolding if_removed
  reset_trust safety_numbers s = if_removed safety_numbers (remove_contact uuid s)

  -- `unwrap_or_default`, and an empty list after an error.
  abbrev pub identities_or_empty : E ⊎ Option (List Identity) → List Identity
  identities_or_empty (inl e) = []
  identities_or_empty (inr none) = []
  identities_or_empty (inr (some ids)) = ids

  -- What follows on the listing of the current identities.
  pub update_with : List Text → List Identity → S → S × Option (TrustError E)
  unfolding reset_trust trust_each
  update_with safety_numbers current_identities s =
      if has_revoked safety_numbers current_identities
      then reset_trust safety_numbers s
      else trust_each (trusted_numbers current_identities) safety_numbers s

  -- One round of the loop of `update_trust`; none is success.
  unfoldable pub update_uuid : List Text → S → S × Option (TrustError E)
  unfolding update_with
  update_uuid [] s = (s, none)
  update_uuid (sn ∷ sns) s =
      let (s', listed) = list_identities uuid s in
      update_with (sn ∷ sns) (identities_or_empty listed) s'

-- The loop goes on where a round has succeeded.
abbrev and_then {ℓ κ} :
    {S : Type ℓ} {E : Type κ}
    → S × Option (TrustError E)
    → (S → S × Option (TrustError E))
    → S × Option (TrustError E)
and_then (s, some e) f = (s, some e)
and_then (s, none) f = f s

module _ {ℓ κ} {S : Type ℓ} {E : Type κ} (signal_cli : RpcClient S E) where
  unfoldable pub update_trust : SignalTrustSet → S → S × Option (TrustError E)
  unfolding update_uuid
  update_trust [] s = (s, none)
  update_trust ((uuid, safety_numbers) ∷ m) s =
      and_then (update_uuid signal_cli uuid safety_numbers s) (update_trust m)
