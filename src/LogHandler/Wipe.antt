-- ===== src/LogHandler/Wipe.antt =====
-- The cleanup at the end of `handle_log_message` compares seconds with milliseconds.
use signal_gateway.Common.{
  ℕ, ◌+◌, ◌*◌, ◌^◌, ◌<◌, ◌≡◌, refl, ap₂, ◌∙◌, Bool, true, false, Option, none, some, arith,
}
use signal_gateway.Common.Int.{ℤ, pos, ◌≤ℤ◌, ◌-ℤ◌, InI64, leb_ℤ, -ℤ_parts}
use signal_gateway.ConcurrentMap.{find, len, is_due, get}
use signal_gateway.ConcurrentMap.Laws.{IsValid, kept, get_or_insert_with-IsValid}
use signal_gateway.ConcurrentMap.Clean.{maybe_clean_due}
use signal_gateway.LimiterSet.{Locks, origin_key}
use signal_gateway.LogFormat.{Chrono}
use signal_gateway.LogMessage.{LogMessage, Origin, origin_of}
use signal_gateway.LogHandler.{LogHandler, check_rate_limiters}
use signal_gateway.LogHandler.Buffer.{LogBuffer, buffer_ts_secs}
use signal_gateway.LogHandler.Handle.{access_buffer, handle_log_message}
use signal_gateway.LogHandler.Alerts.{visited, verdict}

-- An entry whose timestamp is in seconds is never younger than a cutoff in milliseconds.
too_old :
    (secs millis age : ℕ) (ts : ℤ)
    → millis < 1000
    → age < 999 * secs
    → ts ≤ℤ pos secs
    → leb_ℤ (pos (1000 * secs + millis) -ℤ pos age) ts ≡ false
too_old secs millis age ts m a h = ground (arith, -ℤ_parts (pos (1000 * secs + millis)) (pos age))

sub_in_range : (a b : ℕ) → a < 2 ^ 63 → b < 2 ^ 63 → InI64 (pos a -ℤ pos b)
unfolding ◌-ℤ◌
sub_in_range a b h k = ground arith

kept_none :
    (f : Origin → LogBuffer → Bool) (o : Origin) (b : Option LogBuffer)
    → ((v : LogBuffer) → b ≡ some v → f o v ≡ false)
    → kept f o b ≡ none
kept_none f o none h = refl
kept_none f o (some v) h = rw (h v refl)

module _ (c : Chrono) where
  open c use {DateTime, timestamp_millis}

  -- A cleanup at the end of a call removes every buffer, this message's too, however recent: the
  -- clock is passed in milliseconds, the buffers' timestamps and the maximal age are in seconds.
  -- (The cleaner's lock is free and a cleanup is due; the map of buffers is valid; the clock is past
  -- 1970 and an `i64`; the maximal age is less than 999 times the clock's seconds; no buffer's
  -- timestamp is after the clock.)
  pub handle_wipes :
      (locks : ℕ → Locks) (overall_locked : ℕ → Bool) (now : DateTime) (h : LogHandler)
      (m : LogMessage) (secs millis age : ℕ)
      → timestamp_millis now ≡ pos (1000 * secs + millis)
      → millis < 1000
      → 1000 * secs + millis < 2 ^ 63
      → h.lazy_map_cleaner.max_age ≡ pos age
      → age < 999 * secs
      → IsValid h.log_buffers
      → ((o : Origin) (v : LogBuffer)
          → find origin_key o (visited c locks overall_locked true now h m).inner ≡ some v
          → buffer_ts_secs v ≤ℤ pos secs)
      → is_due h.lazy_map_cleaner
          (timestamp_millis now)
          (len (visited c locks overall_locked true now h m))
        ≡ true
      → (o : Origin)
      → find origin_key o
          (handle_log_message c locks overall_locked true now h m).0.log_buffers.inner
        ≡ none
  unfolding handle_log_message check_rate_limiters get
  handle_wipes locks overall_locked now h m secs millis age clock small range max_age old valid past
        due o =
      let visited_valid =
        get_or_insert_with-IsValid origin_key (origin_of m) h.next_buffer
          (access_buffer c h.log_format now m (verdict c locks overall_locked true now h m))
          h.log_buffers valid in
      let cut : timestamp_millis now -ℤ h.lazy_map_cleaner.max_age
          ≡ pos (1000 * secs + millis) -ℤ pos age =
        ap₂ ◌-ℤ◌ clock max_age in
      let cleaned =
        maybe_clean_due origin_key buffer_ts_secs (timestamp_millis now) h.lazy_map_cleaner
          (visited c locks overall_locked true now h m) visited_valid
          (rw cut (sub_in_range (1000 * secs + millis) age range (omega arith))) due in
      cleaned.0 o
      ∙ kept_none
          (λ k v. leb_ℤ (timestamp_millis now -ℤ h.lazy_map_cleaner.max_age) (buffer_ts_secs v)) o
          (find origin_key o (visited c locks overall_locked true now h m).inner)
          (λ v e. rw cut (too_old secs millis age (buffer_ts_secs v) small old (past o v e)))
