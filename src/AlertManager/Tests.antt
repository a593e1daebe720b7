-- ===== src/AlertManager/Tests.antt =====
-- A post with one alert.
use signal_gateway.Common.{ℕ, ◌≡◌, refl, some, [], ◌∷◌}
use signal_gateway.Common.Decimal.{show}
use signal_gateway.Common.Text.{codes, text_eq}
use signal_gateway.AlertManager.{
  Alert, firing, symbol, summary_of, format_alert_text, alert_line, parse_expr_from_generator_url,
  reduce_precision,
}

abbrev slow : Alert ℕ
slow = record {
  status = firing;
  labels = (codes "alertname", codes "Slow") ∷ [];
  annotations = [];
  starts_at = 3700;
  generator_url = codes "http://p/graph?g0.expr=x";
}

slow_text :
    format_alert_text
      (λ t. t)
      show
      (λ url. some ((codes "g0.expr", codes "x") ∷ []))
      (record { alerts = slow ∷ [] })
    ≡ codes "Alert:\n🔴: (3660) 'Slow' x\n"
unfolding format_alert_text alert_line parse_expr_from_generator_url symbol reduce_precision text_eq
    show
slow_text = refl

slow_summary : summary_of (slow ∷ []) ≡ codes "🔴Slow "
unfolding summary_of symbol text_eq
slow_summary = refl
