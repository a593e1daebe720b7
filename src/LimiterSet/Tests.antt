-- ===== src/LimiterSet/Tests.antt =====
-- The limits of a route on one message, and an instance of the theorem.
use signal_gateway.Common.{true, []}
use signal_gateway.Common.Text.{codes}
use signal_gateway.LogMessage.{Origin}
use signal_gateway.LimiterSet.{LimiterSet, Locks, new}
use signal_gateway.LimiterSequence.Tests.{limits, all_locked}

abbrev locks : Locks
locks = record { of_origin = all_locked; own = true; of_global = all_locked }

abbrev set : LimiterSet
set = new [] limits (record { as_secs = 86400; subsec_nanos = 0 })

abbrev db_on_web : Origin
db_on_web = record { app = codes "db"; host = codes "web-1" }
