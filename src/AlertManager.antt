-- ===== src/AlertManager.antt =====
-- signal-gateway/src/alertmanager.rs, and what signal-gateway/src/gateway/mod.rs makes of a post: the
-- text of the alert and its summary. The parser of URLs, `humantime` and the clock are parameters.
mod Tests
use signal_gateway.Common.{ℕ, ◌-◌, ◌%◌, Option, none, some, List, [], ◌∷◌, ◌++◌, if◌then◌else◌, ltb}
use signal_gateway.Common.Text.{Text, codes, text_eq}

pub data Status : Type 0 where
  resolved firing : Status

unfoldable pub symbol : Status → ℕ
symbol firing = 0x1f534
symbol resolved = 0x1f7e2

-- A `BTreeMap` as the list of its entries.
abbrev pub Labels : Type 0
Labels = List (Text × Text)

abbrev pub get_label : Labels → Text → Option Text
get_label [] key = none
get_label ((k, v) ∷ m) key = if text_eq k key then some v else get_label m key

-- The time at which it started is of any type.
pub record Alert (T : Type 0) : Type 0 where
  pub status : Status
  pub labels : Labels
  pub annotations : Labels
  pub starts_at : T
  pub generator_url : Text

pub record AlertPost (T : Type 0) : Type 0 where
  pub alerts : List (Alert T)

-- The loop over the pairs of the query.
pub find_expr : List (Text × Text) → Option Text
find_expr [] = none
find_expr ((k, v) ∷ pairs) = if text_eq k (codes "g0.expr") then some v else find_expr pairs

-- `query_pairs` of the URL, where it can be parsed; none stands for either error.
unfoldable pub parse_expr_from_generator_url :
    {T : Type 0} → (Text → Option (List (Text × Text))) → Alert T → Option Text
unfolding find_expr
parse_expr_from_generator_url query_pairs self = elim (query_pairs self.generator_url) [
  | none ↦ none
  | some pairs ↦ find_expr pairs
]

abbrev pub or_else {ℓ} : {A : Type ℓ} → Option A → Option A → Option A
or_else none b = b
or_else (some a) b = some a

abbrev pub or_text : Option Text → Text → Text
or_text none d = d
or_text (some s) d = s

-- At most seconds, and over an hour at most minutes.
unfoldable pub reduce_precision : ℕ → ℕ
reduce_precision secs = if ltb 3600 secs then secs - secs % 60 else secs

-- `as_secs` of the time since then, 0 where it is in the future.
module _ {T : Type 0} (elapsed_secs : T → ℕ) (format_duration : ℕ → Text)
    (query_pairs : Text → Option (List (Text × Text))) where
  unfoldable pub alert_line : Alert T → Text
  alert_line alert =
      let since = format_duration (reduce_precision (elapsed_secs alert.starts_at)) in
      let name =
        or_text
          (or_else (get_label alert.annotations (codes "summary"))
            (get_label alert.labels (codes "alertname")))
          (codes "?") in
      let expr = or_text (parse_expr_from_generator_url query_pairs alert) [] in
      symbol alert.status ∷ codes ": ("
      ++ since
      ++ codes ") '"
      ++ name
      ++ codes "' "
      ++ expr
      ++ b'\n' ∷ []

  alert_lines : List (Alert T) → Text
  alert_lines [] = []
  alert_lines (alert ∷ alerts) = alert_line alert ++ alert_lines alerts

  unfoldable pub format_alert_text : AlertPost T → Text
  unfolding alert_lines
  format_alert_text msg = codes "Alert:\n" ++ alert_lines msg.alerts

-- The status and the name of every alert.
unfoldable pub summary_of : {T : Type 0} → List (Alert T) → Text
summary_of [] = []
summary_of (alert ∷ alerts) =
    symbol alert.status ∷ or_text (get_label alert.labels (codes "alertname")) (codes "?")
    ++ b' ' ∷ summary_of alerts
