-- ===== src/Gateway/Messages.antt =====
-- signal-gateway/src/gateway/mod.rs: `handle_signal_admin_message`. A custom handler is a function.
use signal_gateway.Common.{ℕ, Option, none, some, List, ◌++◌, ◌⊎◌, inl, inr}
use signal_gateway.Common.Decimal.{show}
use signal_gateway.Common.Text.{Text, codes}
use signal_gateway.CommandRouter.{
  CommandRouter, Handling, help, gateway_command, claude, custom, route, help_text,
}
use signal_gateway.Assistant.{
  SentBy, user_to_system, assistant, system, AdminMessageResponse, new_response,
}
use signal_gateway.SignalCli.{DataMessage, Envelope}
use signal_gateway.Gateway.Commands.{
  GatewayCommand, Prometheus, Agent, Result, parse_gateway_command, handle_gateway_command,
}
use signal_gateway.AlertManager.{Labels}

pub record AdminMessage : Type 0 where
  pub message : Text
  pub timestamp : ℕ
  pub sender_uuid : Text
  pub group_id : Option Text

abbrev pub Handler : Type 0
Handler = AdminMessage → Result

pub record SourcedAdminMessageResponse : Type 0 where
  pub resp : AdminMessageResponse
  pub source : SentBy

abbrev pub SourcedMessageResult : Type 0
SourcedMessageResult = (ℕ × Text) ⊎ SourcedAdminMessageResponse

abbrev pub sourced : SentBy → Result → SourcedMessageResult
sourced source (inl e) = inl e
sourced source (inr resp) = inr (record { resp = resp; source = source })

-- What the gateway consists of, for messages. The logs are a function of the filter.
pub record Services {ℓ} (B : Type ℓ) : Type ℓ where
  pub command_router : CommandRouter Handler
  pub format_logs : Option Text → Text
  pub prometheus : Option Prometheus
  pub agent : Agent B
  pub try_parse_from : List Text → Text ⊎ GatewayCommand
  pub debug : Labels → Text
  pub format_duration : ℕ → Text

module _ {ℓ} {B : Type ℓ} (self : Services B) where
  open self.agent use {record_message, request}

  -- `if let Some(assistant)`: a message for its history.
  abbrev pub record_for : SentBy → Text → ℕ → Option B → Option B
  record_for source text timestamp none = none
  record_for source text timestamp (some b) = some (record_message source text timestamp b)

  -- A command that is not understood is answered with error 400, and not recorded.
  pub handle_command :
      DataMessage → Text ⊎ GatewayCommand → Option B → Option B × SourcedMessageResult
  handle_command dm (inl e) b = (b, inl (400, e))
  handle_command dm (inr cmd) b =
      let recorded = record_for user_to_system dm.message dm.timestamp b in
      let (b', result) =
        handle_gateway_command self.debug self.format_duration self.format_logs self.prometheus
          self.agent cmd recorded in
      (b', sourced system result)

  abbrev pub assistant_result : Text ⊎ AdminMessageResponse → SourcedMessageResult
  assistant_result (inl e) = inl (500, e)
  assistant_result (inr resp) = inr (record { resp = resp; source = assistant })

  pub handle_claude : DataMessage → Text → Option B → Option B × SourcedMessageResult
  handle_claude dm stripped none = (none, inl (501, codes "Assistant is not configured"))
  handle_claude dm stripped (some b) =
      let (b', result) = request stripped dm.timestamp b in (some b', assistant_result result)

  unfoldable pub dispatch :
      Envelope → DataMessage → Text → Handling Handler → Option B → Option B × SourcedMessageResult
  unfolding handle_command handle_claude
  dispatch msg dm stripped help b = (
    record_for user_to_system dm.message dm.timestamp b,
    inr (record { resp = new_response (help_text self.command_router); source = system }),
  )
  dispatch msg dm stripped gateway_command b =
      handle_command dm (parse_gateway_command self.try_parse_from stripped) b
  dispatch msg dm stripped claude b = handle_claude dm stripped b
  dispatch msg dm stripped (custom handler) b = (
    record_for user_to_system dm.message dm.timestamp b,
    sourced system (
        handler (record {
          message = stripped;
          timestamp = dm.timestamp;
          sender_uuid = msg.source_uuid;
          group_id = dm.group_info;
        })),
  )

  -- No result where no route matches.
  unfoldable pub handle_signal_admin_message :
      Envelope → DataMessage → Option B → Option B × Option SourcedMessageResult
  unfolding dispatch
  handle_signal_admin_message msg dm b = elim (route self.command_router dm.message) [
    | none ↦ (b, none)
    | some (stripped, handling) ↦
        (let (b', result) = dispatch msg dm stripped handling b in (b', some result))
  ]

-- `unwrap_or_else` on a handler's error.
unfoldable pub response_or_error : SourcedMessageResult → SourcedAdminMessageResponse
response_or_error (inr sourced_response) = sourced_response
response_or_error (inl (code, msg)) = record {
  resp = new_response (show code ++ codes ": " ++ msg);
  source = system;
}
