-- ===== src/RateLimiter/Limiter/Tests.antt =====
-- Two source locations and a simple limiter, and instances of the theorems.
use signal_gateway.Common.{◌≡◌, true, false, if◌then◌else◌}
use signal_gateway.Common.Int.{pos}
use signal_gateway.Common.Text.{codes}
use signal_gateway.ConcurrentMap.{empty, new_cleaner}
use signal_gateway.RateLimiter.Multi
use signal_gateway.RateLimiter.Multi.Rate.{fresh}
use signal_gateway.RateLimiter.Limiter.{
  SourceLocationRateLimiter, source_location_evaluate, SimpleRateLimiter,
}
use signal_gateway.RateLimiter.Limiter.Location.{Place, place_eq}
use signal_gateway.RateLimiter.Limiter.Apart.{limiter_at, source_location_apart}

abbrev locations : SourceLocationRateLimiter
locations = record {
  fresh = fresh 1 10 true;
  limiters = empty;
  lazy_map_cleaner = new_cleaner (pos 10);
  latest_ts_sec = pos 0;
}

-- Another thread holds the cleaner.
source_location_apart_example :
    ((source_location_evaluate false locations (codes "a.rs") (codes "7") (pos 100)).1
      ≡ (Multi.evaluate (limiter_at locations (codes "a.rs", codes "7")) (pos 100)).1)
    × ((p : Place)
        → limiter_at
            (source_location_evaluate false locations (codes "a.rs") (codes "7") (pos 100)).0
            p
          ≡ (if place_eq (codes "a.rs", codes "7") p
              then (Multi.evaluate (limiter_at locations (codes "a.rs", codes "7")) (pos 100)).0
              else limiter_at locations p))
source_location_apart_example =
    source_location_apart false locations (codes "a.rs") (codes "7") (pos 100)
      (λ (e : false ≡ true). cc)

abbrev simple : SimpleRateLimiter
simple = record { last_timestamp = pos 100; window = pos 10 }
