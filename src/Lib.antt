-- ===== src/Lib.antt =====
-- MAVRouter: a router for MAVLink messages between UDP, TCP and serial endpoints.
--
-- An endpoint feeds the bytes it reads to a stream parser (`src/framing.rs`). Each frame goes
-- through the ingress pipeline of the endpoint's core (`src/endpoint_core.rs`): the filters
-- (`src/filter.rs`), the deduplicator that all endpoints share (`src/dedup.rs`), the observation
-- of the sender's route, and the bus. Observations that are needed go through a queue to the
-- routing table (`src/routing/`). Each endpoint asks its filters and the table which messages of
-- the bus it sends out. The configuration (`src/config.rs`, `src/config/`) sets all of this up:
-- `spawn_all` (`src/orchestration.rs`) makes its tasks, each endpoint under a supervisor, and
-- `run_with_signals` (`src/run_loop.rs`) starts them again with a new configuration.
--
-- The files:
--   Prelude         lists, hash sets and hash maps as lists, tests on the native numbers.
--   Mavlink         `src/mavlink_utils.rs`: `extract_target`.
--   Routing         `src/routing/`: Time, Groups, Shard (`shard.rs`), Table (`table.rs`); Valid and
--                   Reach are the invariant, View the plain maps behind the shards, Decisions and
--                   Endpoints what `should_send` decides, Learning, Freshness, Cover and Timed
--                   how updates change it, Census the statistics.
--   Dedup           `src/dedup.rs`: the time wheel and the sixteen shards; Window is the promise,
--                   Wheel, Steps, Sharded and Replies connect them.
--   Filter          `src/filter.rs`.
--   Framing         `src/framing.rs`: Push and Parse.
--   Endpoint        `src/endpoint_core.rs`, `src/endpoint_core/stats.rs`: Bus is what is relied on
--                   of the bus, Outgoing, Ingress and Runs the two directions, Receiving the
--                   endpoint's end of the bus, Display the snapshot of its counters.
--   Relay           `src/router.rs`: any number of endpoints on one bus. Broadcast is what is
--                   relied on of its receivers, Accounts what becomes of the messages at one
--                   endpoint, Delivered both directions together.
--   StreamLoop      `src/endpoint_core/stream_loop.rs`: Reader, Writer, Published, from the bytes
--                   of a stream to the bus, and Select, Passes and Carried, both loops at once.
--   Udp, Tcp, Tlog  `src/endpoints/udp.rs` (Opening of the socket, Clients of a server, Peer of a
--                   broadcasting client), `src/endpoints/tcp.rs` (Clients of a server, Attempts
--                   of a client, Running of both) and `src/endpoints/tlog.rs` (Log, and Reading,
--                   a reader of the format).
--   Serial          `src/endpoints/serial.rs`: Opening.
--   Backoff         `src/endpoint_core/backoff.rs`: Doubling is its closed form.
--   Supervisor      `src/orchestration/supervisor.rs`: Restarts.
--   Updater         `src/orchestration/updater.rs`: Order and Progress.
--   Orchestration   `src/orchestration.rs`: Spawned, Grouping, Bauds.
--   RunLoop         `src/run_loop.rs`: Sessions and Reloads.
--   Main            `src/main.rs`: Failing.
--   HighLevel       `src/high_level.rs`, and in Shutdown `src/orchestration/shutdown.rs`: Starting.
--   StatsHistory    `src/orchestration/stats_history.rs`: Retention and Aggregation.
--   StatsReporter   `src/orchestration/stats_reporter.rs`: Reports.
--   StatsServer     `src/orchestration/stats_server.rs`: Json, a reader of its answers, Answers and
--                   Serving. The names of endpoints as text are in Orchestration/Names.
--   Config          `src/config.rs`, `src/config/`: Rates, Validation, Merging, Loading.
--   Examples        the theorems at concrete inputs.
--
-- Numbers are natural numbers; a 64-bit counter or a `usize` that wraps has its remainder written
-- out, and truncated subtraction stands for `saturating_sub`. An `Instant` or a `Duration` is a
-- number of nanoseconds. A call under a lock is one step, so interleavings are sequences of calls;
-- a prune, which locks one shard after the other, is one step with one reading of the clock.
-- A hash map is an association list in its order of iteration. Where a task waits in `select!`,
-- what it finds is a list of events, with the times and the results of the calls that it makes; a
-- theorem about all such lists is one about all schedules.
--
-- Parameters: the hash `ahash`, the readers of the `mavlink` crate and its message ids, `memchr2`
-- (it finds the first start byte), the broadcast channel (a send fails exactly
-- when there is no receiver; a receiver gets the messages sent since it subscribed in their order,
-- and is told how many of the oldest it has missed), the queue of route updates, the file system,
-- the TOML parser, the parser of socket addresses, the buffered writer over a file or a stream (a
-- write that fails may have taken a beginning of its bytes), whether a handler of a signal can be
-- installed, and the product of a delay with the backoff's multiplier.
--
-- Bounds and fuel: the parser's loop gets one round more than the buffer has bytes, and each round
-- drops a byte, so it ends. The loop that takes all frames after a read gets one round more than
-- the buffer has bytes as well: a reader that returns a message has consumed a byte. System
-- and component ids are below 256 where a table is said to be reached by the router's calls.
--
-- Not modelled: sockets, devices and files themselves, and the scheduling of tasks, which are the
-- operating system's and tokio's; the texts of errors and of log lines; the reading of the command
-- line, which a library does.
pub mod Prelude
pub mod Mavlink
pub mod Routing
pub mod Dedup
pub mod Filter
pub mod Framing
pub mod Config
pub mod Endpoint
pub mod Backoff
pub mod StatsHistory
pub mod StatsReporter
pub mod StatsServer
pub mod Updater
pub mod Supervisor
pub mod Tcp
pub mod Udp
pub mod Tlog
pub mod RunLoop
pub mod Serial
pub mod Shutdown
pub mod Orchestration
pub mod StreamLoop
pub mod Relay
pub mod HighLevel
pub mod Main
mod Examples
