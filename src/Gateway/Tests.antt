-- ===== src/Gateway/Tests.antt =====
-- Events of the loop, an alert's summary, tools, and instances of the theorems.
use signal_gateway.Common.{
  ℕ, ◌≡◌, refl, ◌↔◌, false, Option, none, some, List, [], ◌∷◌, ◌++◌, ◌⊎◌, inl, inr, replicate, min,
  All,
}
use signal_gateway.Common.Decimal.{show}
use signal_gateway.Common.Text.{Text, codes, text_eq, utf8_len, strip_prefix}
use signal_gateway.LimiterSet.{group}
use signal_gateway.CommandRouter.{help, custom, route, help_text}
use signal_gateway.Assistant.{new_response}
use signal_gateway.SignalCli.{
  SendParams, ReceiptParams, send_params, message_len_utf16, send_message, send_read_receipt,
}
use signal_gateway.TrustSet.{is_trusted}
use signal_gateway.Gateway.{
  GatewayConfig, SignalAlertMessage, prefix, slice_to, get_summary, alert_target, alert_text,
  alert_message,
}
use signal_gateway.Gateway.Summaries.{IsCut, get_summary_iff}
use signal_gateway.Gateway.Commands.{claude_stop, Agent}
use signal_gateway.Gateway.Messages.{
  Services, Handler, response_or_error, handle_signal_admin_message, dispatch,
}
use signal_gateway.Gateway.Loop.{
  Event, stop_requested, alert_received, signal_received, received, event_loop, handle_event,
  handle_envelope, reply_message, reply_target, send_alert,
}
use signal_gateway.Gateway.Loop.Admins.{admitted, event_loop-admitted}
use signal_gateway.Gateway.Loop.Causes.{Call, sent, receipt, recorder, Any, IsCausedBy, state_of}
use signal_gateway.Gateway.Loop.Replies.{event_loop-caused}
use signal_gateway.Gateway.Tools.{Tool, new_result, ToolExecutor, Executors, lists_tool}

-- 511 letters, then one of two bytes: byte 512 is within it.
abbrev cut_letter : SignalAlertMessage
cut_letter = record {
  origin = none;
  text = replicate 511 b'a' ++ codes "é";
  attachment_paths = [];
  summary = prefix 600;
  destination_override = none;
}

cut_letter_panics : get_summary cut_letter ≡ none
unfolding get_summary slice_to utf8_len
cut_letter_panics = refl

abbrev short_alert : SignalAlertMessage
short_alert = record {
  origin = none;
  text = codes "hé!";
  attachment_paths = [];
  summary = prefix 3;
  destination_override = some (group (codes "g"));
}

get_summary_iff_example :
    (get_summary short_alert ≡ some (codes "hé"))
    ↔ IsCut short_alert.text (min (min (utf8_len short_alert.text) 3) 512) (codes "hé")
get_summary_iff_example = get_summary_iff short_alert 3 (codes "hé") refl

-- The assistant of the tests is the list of what it was told.
abbrev agent : Agent (List Text)
agent = record {
  request = λ text ts b. (b ++ text ∷ [], inr (new_response text));
  record_message = λ source text ts b. b ++ text ∷ [];
  request_stop = λ b. b;
  request_compaction = λ b. b;
  request_debug = λ b. b;
}

abbrev echo : Handler
echo msg = inr (new_response msg.message)

abbrev services : Services (List Text)
services = record {
  command_router = (codes "?", help) ∷ (codes "", custom echo) ∷ [];
  format_logs = λ filter. codes "no logs";
  prometheus = none;
  agent = agent;
  try_parse_from = λ args. inr claude_stop;
  debug = λ labels. codes "{}";
  format_duration = show;
}

abbrev config : GatewayConfig
config = record {
  signal_account = codes "+1";
  signal_admins = (codes "ada", []) ∷ [];
  alert_group_id = none;
}

abbrev from : Text → Option Text → Text → Event ℕ
from uuid group_info text =
    signal_received
      (received (record {
        source_uuid = uuid;
        timestamp = 7;
        data_message = some (record { timestamp = 7; message = text; group_info = group_info });
      }))
      8

abbrev events : List (Event ℕ)
events =
    from (codes "eve") none (codes "x")
    ∷ from (codes "ada") (some (codes "g")) (codes "hi")
    ∷ alert_received (some short_alert) 9
    ∷ stop_requested
    ∷ []

abbrev send_result : List Call → SendParams → ℕ ⊎ Unit {0}
send_result calls p = inr tt

abbrev receipt_result : List Call → ReceiptParams → ℕ ⊎ Unit {0}
receipt_result calls r = inl 5

abbrev hi_params : SendParams
hi_params = record {
  account = some (codes "+1");
  recipients = [];
  group_ids = codes "g" ∷ [];
  note_to_self = false;
  message = codes "hi";
  attachments = [];
  text_style = codes "0:2:MONOSPACE" ∷ [];
}

abbrev alert_params : SendParams
alert_params = record hi_params { message = codes "hé!"; text_style = codes "0:3:MONOSPACE" ∷ [] }

abbrev hi_receipt : ReceiptParams
hi_receipt = record {
  account = some (codes "+1");
  recipient = codes "ada";
  target_timestamp = 7 ∷ [];
  receipt_type = codes "read";
}

three_calls :
    (state_of
      (event_loop (recorder send_result receipt_result) config services events ([], some []))).0
    ≡ receipt hi_receipt ∷ sent hi_params ∷ sent alert_params ∷ []
unfolding event_loop handle_event handle_envelope send_alert get_summary slice_to utf8_len
    alert_target alert_text alert_message is_trusted text_eq handle_signal_admin_message dispatch
    route strip_prefix help_text response_or_error reply_message reply_target send_message
    send_params message_len_utf16 send_read_receipt show new_response
three_calls = refl

event_loop-admitted_example :
    event_loop (recorder send_result receipt_result) config services events ([], some [])
    ≡ event_loop
        (recorder send_result receipt_result)
        config
        services
        (admitted config.signal_admins events)
        ([], some [])
event_loop-admitted_example =
    event_loop-admitted (recorder send_result receipt_result) config services events ([], some [])

event_loop-caused_example :
    All
      (λ c. Any (λ event. IsCausedBy config event c) events)
      (state_of
        (event_loop (recorder send_result receipt_result) config services events ([], some []))).0
event_loop-caused_example =
    event_loop-caused ℕ send_result receipt_result config services events (some [])

abbrev tool : Text → Tool ℕ
tool name = record { name = name; description = []; input_schema = 0 }

abbrev lister : Text → ToolExecutor ℕ
lister name = record {
  tools = tool name ∷ [];
  has_tool = lists_tool (tool name ∷ []);
  execute = λ n input. inr (new_result name);
}

abbrev executors : Executors ℕ
executors = record {
  log_handler = lister (codes "logs");
  prometheus = none;
  extra_tool_executors = lister (codes "ls") ∷ lister (codes "logs") ∷ [];
}
