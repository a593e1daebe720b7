-- ===== src/Gateway/Commands.antt =====
-- signal-gateway/src/gateway/mod.rs: the commands of an admin. The parser of the arguments (the
-- `conf` crate), Prometheus, and how Rust prints numbers and maps are parameters.
use signal_gateway.Common.{ℕ, Option, none, some, List, [], ◌∷◌, ◌++◌, if◌then◌else◌, ◌⊎◌, inl, inr}
use signal_gateway.Common.Text.{Text, codes, is_empty, text_eq, strip_prefix}
use signal_gateway.RateLimiter.Limiter.Parse.{is_whitespace, trim}
use signal_gateway.Assistant.{SentBy, AdminMessageResponse, new_response, with_attachment}
use signal_gateway.AlertManager.{Labels, get_label, or_text, reduce_precision}

-- `Duration` of the plot in seconds.
pub data GatewayCommand : Type 0 where
  log : Option Text → GatewayCommand
  query : Text → GatewayCommand
  plot : Text → ℕ → GatewayCommand
  series : List Text → GatewayCommand
  labels : List Text → GatewayCommand
  alerts claude_stop claude_compact claude_debug : GatewayCommand

-- `s.split_whitespace()`, with the characters of the word in progress.
abbrev pub word : Text → List Text → List Text
word [] ws = ws
word (c ∷ w) ws = (c ∷ w) ∷ ws

pub split_from : Text → Text → List Text
split_from w [] = word w []
split_from w (c ∷ s) =
    let ended = split_from [] s in
    let longer = split_from (w ++ c ∷ []) s in if is_whitespace c then word w ended else longer

unfoldable pub split_whitespace : Text → List Text
unfolding split_from
split_whitespace s = split_from [] s

abbrev pub without_slash : Text → Text
without_slash s = or_text (strip_prefix (codes "/") s) s

unfoldable pub parse_gateway_command :
    (List Text → Text ⊎ GatewayCommand) → Text → Text ⊎ GatewayCommand
unfolding split_whitespace
parse_gateway_command try_parse_from text =
    let s = trim (without_slash text) in
    if is_empty s
    then inl (codes "Empty command")
    else try_parse_from (codes "signal-gateway" ∷ split_whitespace s)

-- A handler's error: a code and a text.
abbrev pub Result : Type 0
Result = (ℕ × Text) ⊎ AdminMessageResponse

pub data AlertStatus : Type 0 where
  pending firing resolved : AlertStatus

pub record PrometheusAlert : Type 0 where
  pub state : AlertStatus
  pub age_secs : ℕ
  pub annotations : Labels
  pub labels : Labels

-- What a query returns: the name, the common labels, and for each series its own labels and its
-- value.
pub record Answer : Type 0 where
  pub name : Text
  pub common_labels : Labels
  pub series : List (Labels × Option Text)

-- The client of Prometheus, with errors as texts.
pub record Prometheus : Type 0 where
  pub oneoff_query : Text → Text ⊎ Answer
  pub create_oneoff_plot : Text → ℕ → Text ⊎ Text
  pub series : List Text → Text ⊎ List Labels
  pub labels : List Text → Text ⊎ List Text
  pub alerts : Text ⊎ List PrometheusAlert

-- The calls of the assistant's agent, on its state.
pub record Agent {ℓ} (B : Type ℓ) : Type ℓ where
  pub request : Text → ℕ → B → B × (Text ⊎ AdminMessageResponse)
  pub record_message : SentBy → Text → ℕ → B → B
  pub request_stop : B → B
  pub request_compaction : B → B
  pub request_debug : B → B

abbrev pub remove_label : Labels → Text → Labels
remove_label [] key = []
remove_label ((k, v) ∷ m) key = if text_eq k key then m else (k, v) ∷ remove_label m key

abbrev pub status_symbol : AlertStatus → Text
status_symbol pending = codes "🟡"
status_symbol firing = codes "🔴"
status_symbol resolved = codes "🟢"

abbrev pub or_else_text : Text → Text → Text
or_else_text text empty = if is_empty text then empty else text

-- `ok_or_else` for Prometheus, and a result that becomes a response or error 500.
abbrev pub with_prometheus : Option Prometheus → (Prometheus → Result) → Result
with_prometheus none f = inl (501, codes "prometheus was not configured")
with_prometheus (some prometheus) f = f prometheus

abbrev pub respond : {X : Type 0} → Text ⊎ X → (X → AdminMessageResponse) → Result
respond (inl e) f = inl (500, e)
respond (inr response) f = inr (f response)

module _ (debug : Labels → Text) (format_duration : ℕ → Text) where
  unfoldable pub series_line : Labels × Option Text → Text
  series_line (sl, maybe_val) =
      let name = or_text (get_label sl (codes "__name__")) [] in
      b'\t' ∷ name
      ++ b' ' ∷ debug (remove_label sl (codes "__name__"))
      ++ codes "\t\t"
      ++ or_text maybe_val (codes "-")
      ++ b'\n' ∷ []

  series_lines : List (Labels × Option Text) → Text
  series_lines [] = []
  series_lines (s ∷ ss) = series_line s ++ series_lines ss

  unfoldable pub query_text : Answer → Text
  unfolding series_lines
  query_text answer =
      answer.name ++ b' ' ∷ debug answer.common_labels ++ b'\n' ∷ series_lines answer.series

  unfoldable pub series_text : List Labels → Text
  series_text [] = []
  series_text (kv ∷ kvs) = debug kv ++ b'\n' ∷ series_text kvs

  unfoldable pub labels_text : List Text → Text
  labels_text [] = []
  labels_text (l ∷ ls) = l ++ b'\n' ∷ labels_text ls

  unfoldable pub alerts_text : List PrometheusAlert → Text
  alerts_text [] = []
  alerts_text (alert ∷ rest) =
      status_symbol alert.state
      ++ b' ' ∷ format_duration (reduce_precision alert.age_secs)
      ++ b' ' ∷ debug alert.annotations
      ++ b' ' ∷ debug alert.labels
      ++ b'\n' ∷ alerts_text rest

  -- A call on the assistant, or error 501.
  abbrev pub with_assistant {ℓ} : {B : Type ℓ} → Option B → (B → B) → Text → Option B × Result
  with_assistant none f text = (none, inl (501, codes "assistant was not configured"))
  with_assistant (some b) f text = (some (f b), inr (new_response text))

  -- The build has the feature "plot".
  unfoldable pub handle_gateway_command {ℓ} :
      {B : Type ℓ}
      → (Option Text → Text)
      → Option Prometheus
      → Agent B
      → GatewayCommand
      → Option B
      → Option B × Result
  unfolding query_text series_text labels_text alerts_text
  handle_gateway_command format_logs prometheus agent (log filter) b =
      (b, inr (new_response (format_logs filter)))
  handle_gateway_command format_logs prometheus agent (query q) b = (
    b,
    with_prometheus prometheus (λ p. respond (p.oneoff_query q) (λ a. new_response (query_text a))),
  )
  handle_gateway_command format_logs prometheus agent (plot q duration) b = (
    b,
    with_prometheus prometheus (λ p.
        respond (p.create_oneoff_plot q duration)
          (λ filename. with_attachment (new_response q) filename)),
  )
  handle_gateway_command format_logs prometheus agent (series matchers) b = (
    b,
    with_prometheus prometheus (λ p.
        respond (p.series matchers)
          (λ kvs. new_response (or_else_text (series_text kvs) (codes "no matches")))),
  )
  handle_gateway_command format_logs prometheus agent (labels matchers) b = (
    b,
    with_prometheus prometheus (λ p.
        respond (p.labels matchers)
          (λ ls. new_response (or_else_text (labels_text ls) (codes "no matches")))),
  )
  handle_gateway_command format_logs prometheus agent alerts b = (
    b,
    with_prometheus prometheus (λ p.
        respond p.alerts
          (λ listed. new_response (or_else_text (alerts_text listed) (codes "no alerts")))),
  )
  handle_gateway_command format_logs prometheus agent claude_stop b =
      with_assistant b agent.request_stop (codes "stop requested")
  handle_gateway_command format_logs prometheus agent claude_compact b =
      with_assistant b agent.request_compaction (codes "compaction requested")
  handle_gateway_command format_logs prometheus agent claude_debug b =
      with_assistant b agent.request_debug (codes "debug logged")
