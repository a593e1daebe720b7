-- ===== src/Gateway/Posts.antt =====
-- signal-gateway/src/gateway/mod.rs: `handle_alertmanager_post` and the start of
-- `handle_log_message`. The plots (feature "plot") and the receiving half of the queue are parameters.
use signal_gateway.Common.{
  ℕ, Bool, Option, none, some, List, [], ◌∷◌, ◌++◌, if◌then◌else◌, ltb, ◌⊎◌, inl, inr,
}
use signal_gateway.Common.Text.{Text, codes, utf8_len}
use signal_gateway.AlertManager.{Alert, AlertPost, format_alert_text, summary_of}
use signal_gateway.LogMessage.{LogMessage}
use signal_gateway.Gateway.{SignalAlertMessage, owned}

-- The plots that could be made.
pub plot_paths : {T : Type 0} → (Alert T → Text ⊎ Text) → List (Alert T) → List Text
plot_paths create_alert_plot [] = []
plot_paths create_alert_plot (alert ∷ alerts) = elim (create_alert_plot alert) [
  | inl e ↦ plot_paths create_alert_plot alerts
  | inr path ↦ path ∷ plot_paths create_alert_plot alerts
]

abbrev pub attachments_of :
    {T : Type 0} → Option (Alert T → Text ⊎ Text) → List (Alert T) → List Text
attachments_of none alerts = []
attachments_of (some create_alert_plot) alerts = plot_paths create_alert_plot alerts

module _ {T : Type 0} (elapsed_secs : T → ℕ) (format_duration : ℕ → Text)
    (query_pairs : Text → Option (List (Text × Text)))
    (create_alert_plot : Option (Alert T → Text ⊎ Text)) where
  unfoldable pub post_message : AlertPost T → SignalAlertMessage
  unfolding plot_paths
  post_message alert_msg = record {
    origin = none;
    text = format_alert_text elapsed_secs format_duration query_pairs alert_msg;
    attachment_paths = attachments_of create_alert_plot alert_msg.alerts;
    summary = owned (summary_of alert_msg.alerts);
    destination_override = none;
  }

  -- The queue, and the error where its receiver is gone.
  unfoldable pub handle_alertmanager_post :
      Bool → AlertPost T → List SignalAlertMessage → List SignalAlertMessage × (Text ⊎ Unit {0})
  unfolding post_message
  handle_alertmanager_post is_closed alert_msg mq =
      if is_closed
      then (mq, inl (codes "Can't send signal msg right now, queue is closed"))
      else (mq ++ post_message alert_msg ∷ [], inr tt)

-- The source file as the normalization function has it, where that is shorter.
abbrev pub normalized_file : (Text → Text) → Option Text → Option Text
normalized_file n_fn none = none
normalized_file n_fn (some file) =
    if ltb (utf8_len (n_fn file)) (utf8_len file) then some (n_fn file) else some file

-- The message that goes to the log handler.
unfoldable pub normalize_log_msg : Option (Text → Text) → LogMessage → LogMessage
normalize_log_msg none log_msg = log_msg
normalize_log_msg (some n_fn) log_msg = record log_msg { file = normalized_file n_fn log_msg.file }
