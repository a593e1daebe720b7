-- ===== src/Lib.antt =====
-- The core of signal-gateway, above all its log alert path: a message is measured against the rate
-- limits of the routes, kept with the recent messages of its origin, and becomes an alert or is
-- suppressed.
--
-- Files and the code that they model (paths from the repository's root):
-- - Common: the native natural numbers with Boolean tests, lists over them (length, get_elem?, take,
--   drop), integers with the `i64` wrap-around written out (Int), texts as lists of characters with
--   the operations of `str` (Text), numbers in decimal (Decimal).
-- - RateLimiter/Ring, RateLimiter/Multi, RateLimiter/Limiter: signal-gateway/src/rate_limiter.rs.
--   `MultiRateLimiterInner` is Ring, with `insert_helper` as its two loops (`shift`), the step at the
--   end of the array (`wraparound`) and the last step (`finish`); `MultiRateLimiter` is Multi; the
--   others are Limiter.
-- - CircularBuffer: signal-gateway/src/circular_buffer.rs.
-- - LogMessage: signal-gateway/src/log_message.rs, with `LogFilter` in LogMessage/Filter.
-- - ConcurrentMap: signal-gateway/src/concurrent_map.rs and signal-gateway/src/lazy_map_cleaner.rs.
-- - LimiterSequence: signal-gateway/src/limiter_sequence.rs.
-- - LimiterSet: signal-gateway/src/gateway/rate_limiter_set.rs and
--   signal-gateway/src/gateway/route.rs.
-- - LogFormat: signal-gateway/src/log_format.rs.
-- - LogHandler: signal-gateway/src/gateway/log_handler.rs (`check_rate_limiters` in the parent,
--   `handle_log_message` in Handle) and signal-gateway/src/gateway/log_buffer.rs (Buffer).
-- - RateLimiter/Limiter/Parse: `RateThreshold::from_str` of the same rate_limiter.rs.
-- - CommandRouter: signal-gateway/src/gateway/command_router.rs.
-- - JsonLines: signal-gateway-log-ingest/src/json/json_lines.rs; JsonLines/Frames is an independent
--   grammar of the values in a stream.
-- - TrustSet: signal-cli-jsonrpc-client/src/trust_set.rs, with the identities of rpc.rs beside it.
-- - MessageBuffer: signal-gateway-assistant/claude/src/message_buffer.rs, and
--   `drop_oldest_messages` of signal-gateway-assistant/claude/src/lib.rs.
--
-- - Syslog: signal-gateway-log-ingest/src/syslog.rs; Syslog/Framing has an independent printer of frames,
--   Syslog/Connection the whole connection.
-- - JsonIngest: signal-gateway-log-ingest/src/json/mod.rs.
-- - PathPrefix: signal-gateway-log-ingest/src/path_prefix.rs, with indices in characters; PathPrefix/Bytes
--   has `find_path_prefix` and `strip_path_prefix` with the code's indices in bytes and the panics of
--   its slices.
-- - Assistant: signal-gateway-assistant/src/chat_message.rs and response.rs, with
--   signal-gateway/src/message_handler.rs; Assistant/Worker is signal-gateway/src/assistant/mod.rs and
--   worker.rs, `run` with `handle_input` and `handle_stop` as a turn on one event.
-- - SignalCli: the messages of signal-cli-jsonrpc-client/src/rpc.rs.
-- - AlertManager: signal-gateway/src/alertmanager.rs, and the texts that
--   signal-gateway/src/gateway/mod.rs makes of a post.
-- - Gateway: the rest of signal-gateway/src/gateway/mod.rs: the alerts that are queued (the parent), the
--   commands (`handle_gateway_command`, Commands), the handling of a message
--   (`handle_signal_admin_message`, Messages), the loop of `do_run` (Loop), posts and path
--   normalization (Posts), and the executors of tools of signal-gateway-assistant/src/tools.rs (Tools).
-- - Claude: signal-gateway-assistant/claude/src/lib.rs and api.rs, `handle_request` in Requests.
-- - CodeTool: `CachedFile` of signal-gateway-code-tool/src/cached.rs; CodeTool/Split has the splitting
--   of a content at its newlines, Lines the range of lines, Search the line of a place.
--
-- How the parts interact: `handle_log_message` finds the message's origin, lets `check_rate_limiters`
-- give each route that applies its turn (`LimiterSet.evaluate`, over the origin's
-- `LimiterSequence` and the global one, over `Limiter.evaluate`, over the ring), puts the message
-- into the origin's buffer of the `LazyMap`, and lets the cleaner run. Such messages come from the
-- connections of Syslog and JsonIngest (over the reader of JsonLines), their file names stripped by
-- PathPrefix. The loop of Gateway sends the alerts through SignalCli, and gives the messages of the
-- accounts in TrustSet to what CommandRouter says: a command, a handler, or the agent of Assistant,
-- whose worker hands one request after another to Claude, which keeps its history in MessageBuffer.
--
-- State: a method that changes a shared object returns the object's new state beside its result.
-- Locks and atomics make the steps: `get_or_insert_with` has two (`read_path`, `write_path`), a
-- `try_lock` is an argument that says whether it succeeded. A hash map is an association list. A
-- panic is `none` of an Option, and an index out of range is excluded by `IsValid`. Times are
-- integers; `i64` additions and subtractions wrap as in a release build.
--
-- Fuel: `show` and `ilog10` of Common/Decimal take the number's successor, which is enough since each
-- step divides by ten (`value-show`, `length-show`); `drop_loop` of MessageBuffer takes the number of
-- messages, which is enough since each round takes one off. The loops of a connection in Syslog and
-- JsonIngest take one more than the number of bytes, `collect` of CodeTool the number of lines,
-- and `new_fuel` of PathPrefix one more than the pattern's length: each round is on a shorter list
-- (`handle_tcp_connection-ends`, `new-ends`). The iterations of a request in Claude are those of
-- the configuration.
--
-- Parameters: the clock times of chrono (`Chrono`, `Times`) and the compiled regular expressions
-- (`CompiledRegex`, a function on texts), `conf_extra::parse_duration`, custom message handlers,
-- JSON values with their serialized size, the calls of signal-cli (`RpcClient`, `Calls`, on a state of
-- any type), the check for UTF-8, the crates that read syslog messages, JSON, command lines, URLs
-- and globs, `humantime`, the client of Prometheus (`Prometheus`), and for Claude everything outside
-- its state (`World`). The worker's assistant and the branches that its selects take are events.
--
-- Not modelled: opening sockets and the datagrams, the transports of the RPC client, connecting
-- and reconnecting to signal-cli, HTTP, the client of Prometheus and its plots, the archives of
-- the code tool and reading configurations, which are input and output around this core, and
-- serialization.
pub mod Common
pub mod RateLimiter
pub mod CircularBuffer
pub mod LogMessage
pub mod ConcurrentMap
pub mod LimiterSequence
pub mod LimiterSet
pub mod LogFormat
pub mod LogHandler
pub mod CommandRouter
pub mod JsonLines
pub mod TrustSet
pub mod MessageBuffer
pub mod Syslog
pub mod JsonIngest
pub mod PathPrefix
pub mod Assistant
pub mod SignalCli
pub mod AlertManager
pub mod Gateway
pub mod Claude
pub mod CodeTool
