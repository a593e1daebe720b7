-- ===== src/Gateway/Tools.antt =====
-- signal-gateway-assistant/src/tools.rs, and the gateway as an executor of tools
-- (signal-gateway/src/gateway/mod.rs). The JSON values are of any type.
use mathlib.Core.List.{append_assoc}
use signal_gateway.Common.{
  ◌≡◌, refl, sym, ◌∙◌, inl, inr, Bool, false, ◌||◌, Option, none, some, List, [], ◌∷◌, ◌++◌,
  if◌then◌else◌, ◌⊎◌, ◌↔◌, Bool-cases, All, subst,
}
use signal_gateway.Common.Text.{Text, codes, text_eq}

pub record Tool (V : Type 0) : Type 0 where
  pub name : Text
  pub description : Text
  pub input_schema : V

pub record ToolResult : Type 0 where
  pub text : Text
  pub attachments : List Text

unfoldable pub new_result : Text → ToolResult
new_result text = record { text = text; attachments = [] }

unfoldable pub result_with_attachment : Text → Text → ToolResult
result_with_attachment text path = record { text = text; attachments = path ∷ [] }

pub record ToolExecutor (V : Type 0) : Type 0 where
  pub tools : List (Tool V)
  pub has_tool : Text → Bool
  pub execute : Text → V → Text ⊎ ToolResult

-- The trait's own `has_tool`.
unfoldable pub lists_tool : {V : Type 0} → List (Tool V) → Text → Bool
lists_tool [] name = false
lists_tool (t ∷ ts) name = text_eq t.name name || lists_tool ts name

-- The executors of a gateway.
pub record Executors (V : Type 0) : Type 0 where
  pub log_handler : ToolExecutor V
  pub prometheus : Option (ToolExecutor V)
  pub extra_tool_executors : List (ToolExecutor V)

abbrev pub to_list {ℓ} : {A : Type ℓ} → Option A → List A
to_list none = []
to_list (some a) = a ∷ []

abbrev pub or_unknown : Text → Option (Text ⊎ ToolResult) → Text ⊎ ToolResult
or_unknown name none = inl (codes "unknown tool: " ++ name)
or_unknown name (some result) = result

module _ {V : Type 0} where
  pub extra_tools : List (ToolExecutor V) → List (Tool V)
  extra_tools [] = []
  extra_tools (executor ∷ executors) = executor.tools ++ extra_tools executors

  abbrev pub tools_of : Option (ToolExecutor V) → List (Tool V)
  tools_of none = []
  tools_of (some executor) = executor.tools

  unfoldable pub gateway_tools : Executors V → List (Tool V)
  unfolding extra_tools
  gateway_tools self =
      (self.log_handler.tools ++ tools_of self.prometheus) ++ extra_tools self.extra_tool_executors

  pub execute_extra : List (ToolExecutor V) → Text → V → Text ⊎ ToolResult
  execute_extra [] name input = inl (codes "unknown tool: " ++ name)
  execute_extra (executor ∷ executors) name input =
      if executor.has_tool name
      then executor.execute name input
      else execute_extra executors name input

  abbrev pub has_tool_of : Option (ToolExecutor V) → Text → Bool
  has_tool_of none name = false
  has_tool_of (some executor) name = executor.has_tool name

  abbrev pub execute_of : Option (ToolExecutor V) → Text → V → Text ⊎ ToolResult → Text ⊎ ToolResult
  execute_of none name input otherwise = otherwise
  execute_of (some executor) name input otherwise =
      if executor.has_tool name then executor.execute name input else otherwise

  unfoldable pub gateway_execute : Executors V → Text → V → Text ⊎ ToolResult
  unfolding execute_extra
  gateway_execute self name input =
      if self.log_handler.has_tool name
      then self.log_handler.execute name input
      else execute_of self.prometheus name input
          (execute_extra self.extra_tool_executors name input)

  -- The executors, in the order in which they are asked.
  abbrev pub all_executors : Executors V → List (ToolExecutor V)
  all_executors self = self.log_handler ∷ (to_list self.prometheus ++ self.extra_tool_executors)

  -- The first executor of a list that lists the tool runs it.
  abbrev pub execute_first : List (ToolExecutor V) → Text → V → Option (Text ⊎ ToolResult)
  execute_first [] name input = none
  execute_first (executor ∷ executors) name input =
      if lists_tool executor.tools name
      then some (executor.execute name input)
      else execute_first executors name input

  -- An executor that keeps the trait's `has_tool`.
  abbrev pub IsListed : ToolExecutor V → Type 0
  IsListed executor = (name : Text) → executor.has_tool name ≡ lists_tool executor.tools name

  execute_extra_lem :
      (executors : List (ToolExecutor V)) (name : Text) (input : V)
      → All IsListed executors
      → execute_extra executors name input ≡ or_unknown name (execute_first executors name input)
  unfolding execute_extra
  execute_extra_lem [] name input h = refl
  execute_extra_lem (executor ∷ executors) name input h =
      elim (Bool-cases (lists_tool executor.tools name)) [
        | inl e ↦ rw (h.0 name, e) refl
        | inr e ↦ rw (h.0 name, e) (execute_extra_lem executors name input h.1)
      ]

  execute_all :
      (log_handler : ToolExecutor V) (p : Option (ToolExecutor V)) (extra : List (ToolExecutor V))
      (name : Text) (input : V)
      → (if log_handler.has_tool name
          then log_handler.execute name input
          else execute_of p name input (execute_extra extra name input))
        ≡ execute_extra (log_handler ∷ (to_list p ++ extra)) name input
  unfolding execute_extra
  execute_all log_handler none extra name input = refl
  execute_all log_handler (some executor) extra name input = refl

  all_tools :
      (log_handler : ToolExecutor V) (p : Option (ToolExecutor V)) (extra : List (ToolExecutor V))
      → (log_handler.tools ++ tools_of p) ++ extra_tools extra
        ≡ extra_tools (log_handler ∷ (to_list p ++ extra))
  unfolding extra_tools
  all_tools log_handler none extra = append_assoc log_handler.tools [] (extra_tools extra)
  all_tools log_handler (some executor) extra =
      append_assoc log_handler.tools executor.tools (extra_tools extra)

  lists_tool-append :
      (ts us : List (Tool V)) (name : Text)
      → lists_tool (ts ++ us) name ≡ (lists_tool ts name || lists_tool us name)
  unfolding lists_tool
  lists_tool-append [] us name = refl
  lists_tool-append (t ∷ ts) us name = elim (Bool-cases (text_eq t.name name)) [
    | inl e ↦ rw e refl
    | inr e ↦ rw e (lists_tool-append ts us name)
  ]

  execute_first-none :
      (executors : List (ToolExecutor V)) (name : Text) (input : V)
      → (execute_first executors name input ≡ none)
        ↔ (lists_tool (extra_tools executors) name ≡ false)
  unfolding extra_tools lists_tool
  execute_first-none [] name input = (λ e. refl, λ e. refl)
  execute_first-none (executor ∷ executors) name input =
      let rest = execute_first-none executors name input in
      rw (lists_tool-append executor.tools (extra_tools executors) name)
        (elim (Bool-cases (lists_tool executor.tools name)) [
          | inl e ↦ rw e (λ h. cc, λ h. cc)
          | inr e ↦ rw e rest
        ])

  -- A tool is run by the first executor that lists it: the log handler, Prometheus, then those that
  -- were added, in their order. It is unknown exactly where it is not among the gateway's tools.
  pub gateway_execute_lem :
      (self : Executors V) (name : Text) (input : V)
      → All IsListed (all_executors self)
      → (gateway_execute self name input
          ≡ or_unknown name (execute_first (all_executors self) name input))
        × ((execute_first (all_executors self) name input ≡ none)
            ↔ (lists_tool (gateway_tools self) name ≡ false))
  unfolding gateway_execute gateway_tools
  gateway_execute_lem self name input h =
      let all = all_executors self in
      (
        execute_all self.log_handler self.prometheus self.extra_tool_executors name input
            ∙ execute_extra_lem all name input h,
        subst (λ ts. (execute_first all name input ≡ none) ↔ (lists_tool ts name ≡ false))
            (sym (all_tools self.log_handler self.prometheus self.extra_tool_executors))
            (execute_first-none all name input),
      )
