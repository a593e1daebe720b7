-- ===== src/RateLimiter/Limiter/Apart.antt =====
-- Source locations are limited independently of each other.
use signal_gateway.Common.{◌≡◌, ap, ◌∙◌, Bool, true, false, if◌then◌else◌, arith}
use signal_gateway.Common.Int.{ℤ}
use signal_gateway.Common.Text.{Text}
use signal_gateway.ConcurrentMap.{ConcurrentMap, LazyMapCleaner, find, get, len, is_due}
use signal_gateway.ConcurrentMap.Laws.{get_or_insert_with_lem}
use signal_gateway.ConcurrentMap.Clean.{maybe_clean_idle}
use signal_gateway.LogMessage.{unwrap_or}
use signal_gateway.RateLimiter.Multi
use signal_gateway.RateLimiter.Multi.{MultiRateLimiter, get_latest}
use signal_gateway.RateLimiter.Limiter.{SourceLocationRateLimiter, source_location_evaluate}
use signal_gateway.RateLimiter.Limiter.Location.{Place, place_key, place_eq}

-- The limiter of a location: the one in the map, or a fresh one.
abbrev pub limiter_at : SourceLocationRateLimiter → Place → MultiRateLimiter
limiter_at s p = unwrap_or (find place_key p s.limiters.inner) s.fresh

-- The limiters after the event, before a cleanup.
abbrev pub visited : SourceLocationRateLimiter → Place → ℤ → ConcurrentMap Place MultiRateLimiter
visited s p ts =
    (get place_key (λ _. s.fresh) p (λ limiter. Multi.evaluate limiter ts) s.limiters).0

-- Where no cleanup runs (another thread holds the cleaner, or it is not due), an event is answered by
-- its own location's limiter alone, which alone moves on: every other location's stays as it is.
pub source_location_apart :
    (locked : Bool) (s : SourceLocationRateLimiter) (file line : Text) (ts : ℤ)
    → (locked ≡ true → is_due s.lazy_map_cleaner ts (len (visited s (file, line) ts)) ≡ false)
    → let (s', result) = source_location_evaluate locked s file line ts in
      (result ≡ (Multi.evaluate (limiter_at s (file, line)) ts).1)
      × ((p : Place)
          → limiter_at s' p ≡ (
              if place_eq (file, line) p
              then (Multi.evaluate (limiter_at s (file, line)) ts).0
              else limiter_at s p))
unfolding source_location_evaluate get
source_location_apart locked s file line ts idle =
    let r =
      get_or_insert_with_lem place_key (file, line) s.fresh (λ limiter. Multi.evaluate limiter ts)
        s.limiters in
    let still =
      maybe_clean_idle place_key get_latest locked ts s.lazy_map_cleaner (visited s (file, line) ts)
        idle in
    (
      r.0,
      λ p.
          ap
            (λ (c : LazyMapCleaner × ConcurrentMap Place MultiRateLimiter).
              unwrap_or (find place_key p c.1.inner) s.fresh)
            still
          ∙ ap (λ o. unwrap_or o s.fresh) (r.1 p)
          ∙ ground arith,
    )
