-- ===== src/CommandRouter.antt =====
-- signal-gateway/src/gateway/command_router.rs: which handler an admin message goes to. A custom
-- handler is a value of any type `H`.
pub mod Reach
mod Tests
use signal_gateway.Common.{
  ℕ, ◌-◌, Bool, true, false, ◌||◌, Option, none, some, List, [], ◌∷◌, ◌++◌, if◌then◌else◌, length,
  replicate,
}
use signal_gateway.Common.Text.{Text, codes, is_empty, strip_prefix, starts_with}

pub data Handling {ℓ} (H : Type ℓ) : Type ℓ where
  help gateway_command claude : Handling H
  custom : H → Handling H

abbrev pub CommandRouter {ℓ} : Type ℓ → Type ℓ
CommandRouter H = List (Text × Handling H)

abbrev pub CommandRouterBuilder {ℓ} : Type ℓ → Type ℓ
CommandRouterBuilder H = List (Text × Handling H)

-- A prefix, 12 characters wide.
prefix_display : Text → Text
prefix_display prefix =
    let shown = if is_empty prefix then codes "(default)" else prefix in
    shown ++ replicate (12 - length shown) b' '

module _ {ℓ} {H : Type ℓ} where
  -- The rest of the message behind the first prefix that fits, and its handling.
  unfoldable pub route : CommandRouter H → Text → Option (Text × Handling H)
  route [] message = none
  route ((prefix, handling) ∷ rs) message = elim (strip_prefix prefix message) [
    | some stripped ↦ some (stripped, handling)
    | none ↦ route rs message
  ]

  handling_display : Handling H → Text
  handling_display help = codes "Show this help"
  handling_display gateway_command = codes "Gateway commands (/log, /query, /alerts, etc.)"
  handling_display claude = codes "Claude AI"
  handling_display (custom h) = codes "Custom handler"

  help_lines : CommandRouter H → Text
  unfolding handling_display prefix_display
  help_lines [] = []
  help_lines ((prefix, handling) ∷ rs) =
      codes "  "
      ++ prefix_display prefix
      ++ codes " → "
      ++ handling_display handling
      ++ b'\n' ∷ help_lines rs

  unfoldable pub help_text : CommandRouter H → Text
  unfolding help_lines
  help_text self = codes "Command routing:" ++ b'\n' ∷ help_lines self

  -- `CommandRouterBuilder.route`.
  unfoldable pub add_route : CommandRouterBuilder H → Text → Handling H → CommandRouterBuilder H
  add_route self prefix handling = self ++ (prefix, handling) ∷ []

  -- Is one of the routes behind it inaccessible because of this prefix?
  pub hides : Text → CommandRouter H → Bool
  hides prefix_i [] = false
  hides prefix_i ((prefix_j, handling) ∷ rs) = starts_with prefix_i prefix_j || hides prefix_i rs

  pub has_inaccessible : CommandRouter H → Bool
  unfolding hides
  has_inaccessible [] = false
  has_inaccessible ((prefix, handling) ∷ rs) = hides prefix rs || has_inaccessible rs

  -- `none` is the panic on an inaccessible route.
  unfoldable pub build : CommandRouterBuilder H → Option (CommandRouter H)
  unfolding has_inaccessible
  build self = if has_inaccessible self then none else some self
