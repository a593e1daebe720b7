-- ===== src/LogHandler/Logs.antt =====
-- `LogHandler::format_logs`: the recent messages of every origin, or of those that a filter names.
use signal_gateway.Common.{
  ◌≡◌, ◌≢◌, refl, sym, ap, ◌∙◌, Bool-cases, inl, inr, Bool, false, not, Option, none, some, List,
  [], ◌∷◌, ◌++◌, if◌then◌else◌, length,
}
use signal_gateway.Common.Decimal.{show}
use signal_gateway.Common.Text.{Text, codes, is_empty}
use signal_gateway.ConcurrentMap.{with_read_lock, keep, retain}
use signal_gateway.LogFormat.{Chrono, LogFormatConfig, write_log_msg}
use signal_gateway.LogMessage.{LogMessage, Origin, matches_filter, display_origin}
use signal_gateway.LogHandler.{LogHandler}
use signal_gateway.LogHandler.Buffer.{LogBuffer, with_iter}

abbrev pub left_out : Option Text → Origin → Bool
left_out none origin = false
left_out (some f) origin = not (matches_filter origin f)

module _ (c : Chrono) where
  open c use {DateTime}

  pub write_all : LogFormatConfig → DateTime → List LogMessage → Text
  write_all log_format now [] = []
  write_all log_format now (m ∷ ms) =
      write_log_msg c log_format m now ++ write_all log_format now ms

  pub write_buffer : LogFormatConfig → DateTime → Origin → LogBuffer → Text
  unfolding write_all
  write_buffer log_format now origin buffer =
      codes "=== ["
      ++ display_origin origin
      ++ codes "] ==="
      ++ b'\n'
        ∷ (with_iter buffer (λ iter.
              show (length iter)
              ++ codes " log messages (newest first):"
              ++ b'\n' ∷ write_all log_format now iter)
            ++ b'\n' ∷ [])

  pub write_buffers : LogFormatConfig → DateTime → Option Text → List (Origin × LogBuffer) → Text
  unfolding write_buffer
  write_buffers log_format now filter [] = []
  write_buffers log_format now filter ((origin, buffer) ∷ buffers) =
      (if left_out filter origin then [] else write_buffer log_format now origin buffer)
      ++ write_buffers log_format now filter buffers

  pub logs_of : LogFormatConfig → DateTime → Option Text → List (Origin × LogBuffer) → Text
  unfolding write_buffers
  logs_of log_format now filter [] = codes "No log sources registered yet"
  logs_of log_format now filter (b ∷ bs) =
      let text = write_buffers log_format now filter (b ∷ bs) in
      if is_empty text then codes "No matching log sources" else text

  unfoldable pub format_logs : LogHandler → DateTime → Option Text → Text
  unfolding logs_of
  format_logs self now filter = with_read_lock (logs_of self.log_format now filter) self.log_buffers

module _ (c : Chrono) where
  open c use {DateTime}

  write_buffers-filter :
      (log_format : LogFormatConfig) (now : DateTime) (f : Text) (bs : List (Origin × LogBuffer))
      → write_buffers c log_format now (some f) bs
        ≡ write_buffers c log_format now none (keep (λ o b. matches_filter o f) bs)
  unfolding write_buffers keep
  write_buffers-filter log_format now f [] = refl
  write_buffers-filter log_format now f ((o, b) ∷ bs) = elim (Bool-cases (matches_filter o f)) [
    | inl e ↦ rw e (
        ap (λ t. write_buffer c log_format now o b ++ t) (write_buffers-filter log_format now f bs))
    | inr e ↦ rw e (write_buffers-filter log_format now f bs)
  ]

  logs_of_restricted :
      (log_format : LogFormatConfig) (now : DateTime) (f : Text)
      (bs bs' : List (Origin × LogBuffer))
      → keep (λ o b. matches_filter o f) bs ≡ bs'
      → bs' ≢ []
      → logs_of c log_format now (some f) bs ≡ logs_of c log_format now none bs'
  unfolding logs_of keep
  logs_of_restricted log_format now f [] bs' e n = absurd (n (sym e))
  logs_of_restricted log_format now f (b ∷ bs) [] e n = absurd (n refl)
  logs_of_restricted log_format now f (b ∷ bs) (b' ∷ bs') e n =
      ap (λ text. if is_empty text then codes "No matching log sources" else text)
        (write_buffers-filter log_format now f (b ∷ bs)
          ∙ ap (write_buffers c log_format now none) e)

  -- Where some origin matches the filter, the text is the unfiltered one of a handler that has no
  -- other origins.
  pub format_logs-filter :
      (h : LogHandler) (now : DateTime) (f : Text)
      → keep (λ o b. matches_filter o f) h.log_buffers.inner ≢ []
      → format_logs c h now (some f)
        ≡ format_logs c
            (record h { log_buffers = (retain (λ o b. matches_filter o f) h.log_buffers).0 })
            now
            none
  unfolding format_logs with_read_lock retain
  format_logs-filter h now f n = logs_of_restricted h.log_format now f h.log_buffers.inner _ refl n
