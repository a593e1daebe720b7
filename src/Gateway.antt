-- ===== src/Gateway.antt =====
-- signal-gateway/src/gateway/mod.rs: the alerts that are queued for the admins, and where they go.
pub mod Commands
pub mod Messages
pub mod Loop
pub mod Posts
pub mod Tools
pub mod Summaries
mod Tests
use signal_gateway.Common.{
  ℕ, zero, suc, ◌+◌, ◌-◌, Bool, Option, none, some, List, [], ◌∷◌, ◌++◌, if◌then◌else◌, leb, min,
  map,
}
use signal_gateway.Common.Text.{Text, codes, utf8_width, utf8_len}
use signal_gateway.LimiterSet.{Destination, recipients, group}
use signal_gateway.LogMessage.{Origin, display_origin}
use signal_gateway.SignalCli.{MessageTarget, to_recipients, to_group, SignalMessage}
use signal_gateway.TrustSet.{SignalTrustSet}

pub data Summary : Type 0 where
  prefix : ℕ → Summary
  owned : Text → Summary

-- `Summary::default()`.
abbrev pub default_summary : Summary
default_summary = prefix 512

pub record SignalAlertMessage : Type 0 where
  pub origin : Option Origin
  pub text : Text
  pub attachment_paths : List Text
  pub summary : Summary
  pub destination_override : Option Destination

-- `&s[..n]`: the characters of the first `n` bytes, none where it panics, which it does where there
-- are fewer bytes or the cut is within a character.
unfoldable pub slice_to : Text → ℕ → Option Text
slice_to [] n = if leb n 0 then some [] else none
slice_to (c ∷ s) n =
    let rest = slice_to s (n - utf8_width c) in
    if leb n 0
    then some []
    else if leb (utf8_width c) n
    then (elim rest [ none ↦ none | some p ↦ some (c ∷ p) ])
    else none

-- The text that is logged; none is a panic.
unfoldable pub get_summary : SignalAlertMessage → Option Text
unfolding slice_to
get_summary self = elim self.summary [
  | owned s ↦ some s
  | prefix n ↦ slice_to self.text (min (min (utf8_len self.text) n) 512)
]

-- What the loop reads of `GatewayConfig`.
pub record GatewayConfig : Type 0 where
  pub signal_account : Text
  pub signal_admins : SignalTrustSet
  pub alert_group_id : Option Text

-- `SignalTrustSet::uuids`.
abbrev pub uuids : SignalTrustSet → List Text
uuids signal_admins = map (λ p. p.0) signal_admins

abbrev pub default_target : GatewayConfig → MessageTarget
default_target config = elim config.alert_group_id [
  | some group_id ↦ to_group group_id
  | none ↦ to_recipients (uuids config.signal_admins)
]

unfoldable pub alert_target : GatewayConfig → Option Destination → MessageTarget
alert_target config none = default_target config
alert_target config (some (group group_id)) = to_group group_id
alert_target config (some (recipients rs)) = to_recipients rs

-- With the line of the origin before it, if there is one.
unfoldable pub alert_text : SignalAlertMessage → Text
alert_text msg = elim msg.origin [
  | some origin ↦ b'[' ∷ display_origin origin ++ codes "]\n" ++ msg.text
  | none ↦ msg.text
]

unfoldable pub alert_message : GatewayConfig → SignalAlertMessage → SignalMessage
unfolding alert_target alert_text
alert_message config msg = record {
  sender = config.signal_account;
  target = alert_target config msg.destination_override;
  message = alert_text msg;
  attachments = msg.attachment_paths;
}
