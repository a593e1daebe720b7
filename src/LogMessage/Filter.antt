-- ===== src/LogMessage/Filter.antt =====
-- `LogFilter` of signal-gateway/src/log_message.rs: which messages a filter lets through.
use signal_gateway.Common.{
  ◌≡◌, refl, ◌≢◌, ◌↔◌, Bool, true, false, not, ◌&&◌, Option, none, some, [], ◌∷◌, arith,
  if◌then◌else◌,
}
use signal_gateway.Common.Text.{
  Text, text_eq, text_eq_iff, contains, contains_iff, IsSubstring, is_empty,
}
use signal_gateway.LogMessage.{LogMessage}

-- A compiled regular expression is whatever function on texts the regex engine made of it.
pub record CompiledRegex : Type 0 where
  pub is_match : Text → Bool

pub record LogFilter : Type 0 where
  pub msg_contains : Text
  pub msg_equals : Text
  pub msg_regex : Option CompiledRegex
  pub module_equals : Text
  pub file_equals : Text
  pub line_equals : Text

-- `match field { Some(t) if t == wanted => {} _ => return false }`.
pub equals_some : Option Text → Text → Bool
equals_some none wanted = false
equals_some (some t) wanted = text_eq t wanted

pub regex_passes : Option CompiledRegex → Text → Bool
regex_passes none msg = true
regex_passes (some regex) msg = regex.is_match msg

unfoldable pub matches : LogFilter → LogMessage → Bool
unfolding equals_some regex_passes
matches self log_msg =
    if not (is_empty self.msg_contains) && not (contains self.msg_contains log_msg.msg)
    then false
    else if not (is_empty self.msg_equals) && not (text_eq log_msg.msg self.msg_equals)
    then false
    else if not (regex_passes self.msg_regex log_msg.msg)
    then false
    else if not (is_empty self.module_equals)
        && not (equals_some log_msg.module_path self.module_equals)
    then false
    else if not (is_empty self.file_equals) && not (equals_some log_msg.file self.file_equals)
    then false
    else if not (is_empty self.line_equals) && not (equals_some log_msg.line self.line_equals)
    then false
    else true

unfoldable pub uses_module : LogFilter → Bool
uses_module self = not (is_empty self.module_equals)

unfoldable pub uses_file : LogFilter → Bool
uses_file self = not (is_empty self.file_equals)

unfoldable pub uses_line : LogFilter → Bool
uses_line self = not (is_empty self.line_equals)

-- Every criterion that is set holds of the message.
pub record Meets (f : LogFilter) (m : LogMessage) : Type 0 where
  pub contained : f.msg_contains ≢ [] → IsSubstring f.msg_contains m.msg
  pub equal : f.msg_equals ≢ [] → m.msg ≡ f.msg_equals
  pub matched : (r : CompiledRegex) → f.msg_regex ≡ some r → r.is_match m.msg ≡ true
  pub same_module : f.module_equals ≢ [] → m.module_path ≡ some f.module_equals
  pub same_file : f.file_equals ≢ [] → m.file ≡ some f.file_equals
  pub same_line : f.line_equals ≢ [] → m.line ≡ some f.line_equals

is_empty_iff : (s : Text) → (is_empty s ≡ true) ↔ (s ≡ [])
is_empty_iff [] = (λ _. refl, λ _. refl)
is_empty_iff (c ∷ s) = (λ h. cc, λ h. cc)

equals_some_iff : (o : Option Text) (t : Text) → (equals_some o t ≡ true) ↔ (o ≡ some t)
unfolding equals_some
equals_some_iff none t = (λ h. cc, λ h. cc)
equals_some_iff (some u) t =
    (λ h. ground (arith, (text_eq_iff u t).0), λ h. ground (arith, (text_eq_iff u t).1))

regex_passes_iff :
    (o : Option CompiledRegex) (t : Text)
    → (regex_passes o t ≡ true) ↔ ((r : CompiledRegex) → o ≡ some r → r.is_match t ≡ true)
unfolding regex_passes
regex_passes_iff none t = (λ h r e. cc, λ h. refl)
regex_passes_iff (some q) t = (λ h r e. ground arith, λ h. h q refl)

-- A criterion that is tested only where it is set.
if_set_iff {ℓ} :
    {P : Type ℓ} (s : Text) (b : Bool)
    → (b ≡ true) ↔ P
    → ((not (is_empty s) && not b) ≡ false) ↔ (s ≢ [] → P)
if_set_iff [] b i = (λ h n. absurd (n refl), λ h. refl)
if_set_iff (c ∷ s) b i = (λ h n. i.0 (ground arith), λ h. ground (arith, i.1 (h (λ e. cc))))

-- `matches` holds just if every criterion that is set holds; an unset one (empty, `None`) never counts.
pub matches_iff : (f : LogFilter) (m : LogMessage) → (matches f m ≡ true) ↔ Meets f m
unfolding matches
matches_iff f m = (to, from)
  where
    to : matches f m ≡ true → Meets f m
    to h = record {
      contained =
          (if_set_iff f.msg_contains _ (contains_iff f.msg_contains m.msg)).0 (ground arith);
      equal = (if_set_iff f.msg_equals _ (text_eq_iff m.msg f.msg_equals)).0 (ground arith);
      matched = (regex_passes_iff f.msg_regex m.msg).0 (ground arith);
      same_module =
          (if_set_iff f.module_equals _ (equals_some_iff m.module_path f.module_equals)).0
            (ground arith);
      same_file =
          (if_set_iff f.file_equals _ (equals_some_iff m.file f.file_equals)).0 (ground arith);
      same_line =
          (if_set_iff f.line_equals _ (equals_some_iff m.line f.line_equals)).0 (ground arith);
    }

    from : Meets f m → matches f m ≡ true
    from w = ground (
      arith,
      (if_set_iff f.msg_contains _ (contains_iff f.msg_contains m.msg)).1 w.contained,
      (if_set_iff f.msg_equals _ (text_eq_iff m.msg f.msg_equals)).1 w.equal,
      (regex_passes_iff f.msg_regex m.msg).1 w.matched,
      (if_set_iff f.module_equals _ (equals_some_iff m.module_path f.module_equals)).1
          w.same_module,
      (if_set_iff f.file_equals _ (equals_some_iff m.file f.file_equals)).1 w.same_file,
      (if_set_iff f.line_equals _ (equals_some_iff m.line f.line_equals)).1 w.same_line,
    )
