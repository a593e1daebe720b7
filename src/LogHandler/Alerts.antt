-- ===== src/LogHandler/Alerts.antt =====
-- `handle_log_message`: what becomes of the origin's buffer, and what the alert says.
use mathlib.Core.List.{append-nil, append_assoc}
use signal_gateway.Common.{
  ℕ, ◌≡◌, refl, sym, ap, ◌∙◌, Bool, true, false, Option, none, some, List, [], ◌∷◌, ◌++◌,
  if◌then◌else◌, arith, reverse,
}
use signal_gateway.Common.Text.{Text, utf8_len}
use signal_gateway.CircularBuffer
use signal_gateway.ConcurrentMap.{find, ConcurrentMap, LazyMapCleaner, len, is_due, get}
use signal_gateway.ConcurrentMap.Laws.{get_or_insert_with_lem}
use signal_gateway.ConcurrentMap.Clean.{maybe_clean_idle}
use signal_gateway.LimiterSet.{Locks, origin_key}
use signal_gateway.LogFormat.{Chrono, LogFormatConfig, write_log_msg}
use signal_gateway.LogMessage.{LogMessage, Origin, origin_of, origin_eq, unwrap_or}
use signal_gateway.LogHandler.{LogHandler, Verdict, alert_to, suppressed, check_rate_limiters}
use signal_gateway.LogHandler.Buffer.{
  LogBuffer, push_back, push_back_and_drain, fold, buffer_ts_secs,
}
use signal_gateway.LogHandler.Handle.{
  Alert, drain_step, access_buffer, alert_of, handle_log_message,
}

-- The buffer of an origin: the one in the map, or a new one.
abbrev pub buffer_at : LogHandler → Origin → LogBuffer
buffer_at h o = unwrap_or (find origin_key o h.log_buffers.inner) h.next_buffer

module _ (c : Chrono) where
  open c use {DateTime, timestamp_millis}

  -- The messages, one after the other.
  abbrev pub written : LogFormatConfig → DateTime → List LogMessage → Text
  written f now [] = []
  written f now (m ∷ ms) = write_log_msg c f m now ++ written f now ms

  -- The length of the first.
  abbrev pub first_len : LogFormatConfig → DateTime → List LogMessage → ℕ
  first_len f now [] = 0
  first_len f now (m ∷ ms) = utf8_len (write_log_msg c f m now)

  fold_more :
      (f : LogFormatConfig) (now : DateTime) (ms : List LogMessage) (text : Text) (n : ℕ)
      → fold (drain_step c f now) (text, n, false) ms ≡ (text ++ written f now ms, n, false)
  unfolding fold drain_step
  fold_more f now [] text n = ap (λ t. (t, n, false)) (sym (append-nil text))
  fold_more f now (m ∷ ms) text n =
      fold_more f now ms (text ++ write_log_msg c f m now) n
      ∙ ap (λ t. (t, n, false)) (append_assoc text (write_log_msg c f m now) (written f now ms))

  fold_all :
      (f : LogFormatConfig) (now : DateTime) (ms : List LogMessage)
      → ((fold (drain_step c f now) ([], 0, true) ms).0 ≡ written f now ms)
        × ((fold (drain_step c f now) ([], 0, true) ms).1 ≡ first_len f now ms)
  unfolding fold drain_step
  fold_all f now [] = (refl, refl)
  fold_all f now (m ∷ ms) =
      rw (fold_more f now ms (write_log_msg c f m now) (utf8_len (write_log_msg c f m now)))
        (refl, refl)

  -- The verdict on a message, and its origin's buffer once the message is in it.
  module _ (locks : ℕ → Locks) (overall_locked : ℕ → Bool) (locked : Bool) (now : DateTime)
      (h : LogHandler) (m : LogMessage) where
    abbrev pub verdict : Verdict
    verdict = (check_rate_limiters locks overall_locked h m (origin_of m)).1

    abbrev pub filled : LogBuffer
    filled = push_back (buffer_at h (origin_of m)) m

    abbrev pub alert_expected : Verdict → Option Alert
    alert_expected (suppressed reason) = none
    alert_expected (alert_to destination) =
        let messages = reverse (CircularBuffer.iter filled) in
        some (record {
          origin = some (origin_of m);
          text = written h.log_format now messages;
          attachment_paths = [];
          summary_prefix = first_len h.log_format now messages;
          destination_override = destination;
        })

    abbrev pub buffer_expected : Verdict → LogBuffer
    buffer_expected (suppressed reason) = filled
    buffer_expected (alert_to destination) = CircularBuffer.clear filled

    drained :
        (f : LogFormatConfig) (b : LogBuffer)
        → push_back_and_drain b m (drain_step c f now) ([], 0, true) ≡ (
          CircularBuffer.clear (push_back b m),
          fold (drain_step c f now) ([], 0, true) (reverse (CircularBuffer.iter (push_back b m))),
        )
    unfolding push_back_and_drain push_back
    drained f b = refl

    -- The value's new state and the formatted text, for each verdict.
    accessed :
        (v : Verdict)
        → let r = access_buffer c h.log_format now m v (buffer_at h (origin_of m)) in
          (r.0 ≡ buffer_expected v) × (alert_of c (origin_of m) v r.1 ≡ alert_expected v)
    unfolding access_buffer alert_of
    accessed (suppressed reason) = (refl, refl)
    accessed (alert_to destination) =
        let d = drained h.log_format (buffer_at h (origin_of m)) in
        let all = fold_all h.log_format now (reverse (CircularBuffer.iter filled)) in
        rw d (rw (all.0, all.1) (refl, refl))

    -- The buffers with the message in its place, before a cleanup.
    abbrev pub visited : ConcurrentMap Origin LogBuffer
    visited =
        (get origin_key (λ _. h.next_buffer) (origin_of m)
          (access_buffer c h.log_format now m verdict) h.log_buffers).0

    -- A message that is let through raises an alert to its route's destination, whose text is the
    -- origin's recent messages and this one, newest first, as they are written, with the length of
    -- the newest; a suppressed message raises none.
    pub handle_alert :
        (handle_log_message c locks overall_locked locked now h m).1 ≡ alert_expected verdict
    unfolding handle_log_message check_rate_limiters get
    handle_alert =
        let r =
          get_or_insert_with_lem origin_key (origin_of m) h.next_buffer
            (access_buffer c h.log_format now m verdict) h.log_buffers in
        ap (alert_of c (origin_of m) verdict) r.0 ∙ (accessed verdict).1

    -- Where no cleanup runs (another thread holds the cleaner, or it is not due), the origin's
    -- buffer has the message added, and is emptied where the message became an alert; the buffers of
    -- other origins stay as they are.
    pub handle_buffers :
        (locked ≡ true → is_due h.lazy_map_cleaner (timestamp_millis now) (len visited) ≡ false)
        → (o : Origin)
        → buffer_at (handle_log_message c locks overall_locked locked now h m).0 o
          ≡ (if origin_eq (origin_of m) o then buffer_expected verdict else buffer_at h o)
    unfolding handle_log_message check_rate_limiters get
    handle_buffers idle o =
        let r =
          get_or_insert_with_lem origin_key (origin_of m) h.next_buffer
            (access_buffer c h.log_format now m verdict) h.log_buffers in
        let still =
          maybe_clean_idle origin_key buffer_ts_secs locked (timestamp_millis now)
            h.lazy_map_cleaner visited idle in
        ap
          (λ (t : LazyMapCleaner × ConcurrentMap Origin LogBuffer).
            unwrap_or (find origin_key o t.1.inner) h.next_buffer)
          still
        ∙ ap (λ q. unwrap_or q h.next_buffer) (r.1 o)
        ∙ ground (arith, (accessed verdict).0)
