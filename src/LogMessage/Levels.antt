-- ===== src/LogMessage/Levels.antt =====
-- Severity levels: reading a level and writing it.
use signal_gateway.Common.{◌≡◌, refl, ap, ◌∙◌, some, map}
use signal_gateway.Common.Text.{Text, text_eq}
use signal_gateway.LogMessage.{Level, to_str, to_upper, of_upper, parse}

of_upper-to_str : (l : Level) → of_upper (to_str l) ≡ some l
unfolding of_upper to_str text_eq
of_upper-to_str Level.emergency = refl
of_upper-to_str Level.alert = refl
of_upper-to_str Level.critical = refl
of_upper-to_str Level.error = refl
of_upper-to_str Level.warning = refl
of_upper-to_str Level.notice = refl
of_upper-to_str Level.info = refl
of_upper-to_str Level.debug = refl
of_upper-to_str Level.trace = refl

-- A level's short name, in any mixture of capitals and small letters, is read as that level.
pub parse-to_str : (l : Level) (s : Text) → map to_upper s ≡ to_str l → parse s ≡ some l
unfolding parse
parse-to_str l s e = ap of_upper e ∙ of_upper-to_str l
