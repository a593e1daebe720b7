-- ===== src/SignalCli.antt =====
-- signal-cli-jsonrpc-client/src/rpc.rs: what is received from signal-cli and sent to it. The JSON-RPC
-- call itself is a parameter: a function of its arguments on a state of any type.
use signal_gateway.Common.{
  ℕ, ◌+◌, Bool, false, Option, none, some, List, [], ◌∷◌, ◌++◌, if◌then◌else◌, ltb, ◌⊎◌, inr,
}
use signal_gateway.Common.Decimal.{show}
use signal_gateway.Common.Text.{Text, codes}

pub record DataMessage : Type 0 where
  pub timestamp : ℕ
  pub message : Text
  pub group_info : Option Text

pub record Envelope : Type 0 where
  pub source_uuid : Text
  pub timestamp : ℕ
  pub data_message : Option DataMessage

pub data MessageTarget : Type 0 where
  to_recipients : List Text → MessageTarget
  to_group : Text → MessageTarget

pub record SignalMessage : Type 0 where
  pub sender : Text
  pub target : MessageTarget
  pub message : Text
  pub attachments : List Text

-- The arguments of `send` and of `send_receipt`; those of `send` that are left out are false, none
-- or empty.
pub record SendParams : Type 0 where
  pub account : Option Text
  pub recipients : List Text
  pub group_ids : List Text
  pub note_to_self : Bool
  pub message : Text
  pub attachments : List Text
  pub text_style : List Text

pub record ReceiptParams : Type 0 where
  pub account : Option Text
  pub recipient : Text
  pub target_timestamp : List ℕ
  pub receipt_type : Text

pub record Calls {ℓ κ} (S : Type ℓ) (E : Type κ) : Type (ℓ ⊔ κ) where
  pub send : SendParams → S → S × (E ⊎ Unit {0})
  pub send_receipt : ReceiptParams → S → S × (E ⊎ Unit {0})

-- `char::len_utf16`.
abbrev pub len_utf16 : ℕ → ℕ
len_utf16 c = if ltb c 0x10000 then 1 else 2

unfoldable pub message_len_utf16 : Text → ℕ
message_len_utf16 [] = 0
message_len_utf16 (c ∷ s) = len_utf16 c + message_len_utf16 s

abbrev pub recipients_of : MessageTarget → List Text
recipients_of (to_recipients r) = r
recipients_of (to_group g) = []

abbrev pub group_ids_of : MessageTarget → List Text
group_ids_of (to_recipients r) = []
group_ids_of (to_group g) = g ∷ []

unfoldable pub send_params : SignalMessage → SendParams
send_params self = record {
  account = some self.sender;
  recipients = recipients_of self.target;
  group_ids = group_ids_of self.target;
  note_to_self = false;
  message = self.message;
  attachments = self.attachments;
  text_style = (codes "0:" ++ (show (message_len_utf16 self.message) ++ codes ":MONOSPACE")) ∷ [];
}

module _ {ℓ κ} {S : Type ℓ} {E : Type κ} (client : Calls S E) where
  open client use {send, send_receipt}

  unfoldable pub send_message : SignalMessage → S → S × (E ⊎ Unit {0})
  send_message self s = send (send_params self) s

  unfoldable pub send_read_receipt : Envelope → Text → S → S × (E ⊎ Unit {0})
  send_read_receipt self account s = elim self.data_message [
    | none ↦ (s, inr tt)
    | some dm ↦
        send_receipt
          (record {
            account = some account;
            recipient = self.source_uuid;
            target_timestamp = dm.timestamp ∷ [];
            receipt_type = codes "read";
          })
          s
  ]
