-- ===== src/CommandRouter/Tests.antt =====
-- A table of four routes, and instances of the theorems.
use signal_gateway.Common.{ℕ, ◌≡◌, ◌↔◌, refl, none, some, [], ◌∷◌}
use signal_gateway.Common.Text.{codes, strip_prefix, starts_with}
use signal_gateway.CommandRouter.{CommandRouter, help, gateway_command, claude, route, build}
use signal_gateway.CommandRouter.Reach.{Chosen, Hidden, route_iff, build_reachable, build_refuses}

abbrev table : CommandRouter ℕ
table =
    (codes "--help", help)
    ∷ (codes "-h", help)
    ∷ (codes "/", gateway_command)
    ∷ (codes "", claude)
    ∷ []

-- The second route gets nothing.
abbrev refused : CommandRouter ℕ
refused = (codes "/", gateway_command) ∷ (codes "/help", help) ∷ []

log_command : route table (codes "/log") ≡ some (codes "log", gateway_command)
unfolding route strip_prefix
log_command = refl

table_built : build table ≡ some table
unfolding build starts_with strip_prefix
table_built = refl

table_refused : build refused ≡ none
unfolding build starts_with strip_prefix
table_refused = refl

route_iff_example :
    (route table (codes "/log") ≡ some (codes "log", gateway_command))
    ↔ Chosen table (codes "/log") (codes "log") gateway_command
route_iff_example = route_iff table (codes "/log") (codes "log") gateway_command

build_reachable_example : route table (codes "/") ≡ some ([], gateway_command)
build_reachable_example =
    build_reachable table table ((codes "--help", help) ∷ (codes "-h", help) ∷ [])
      ((codes "", claude) ∷ []) (codes "/") gateway_command table_built refl

build_refuses_example : Hidden refused
build_refuses_example = build_refuses refused table_refused
