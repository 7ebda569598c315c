-- ===== src/Routing.antt =====
-- src/routing: the routing table that learns which endpoints reach which MAVLink systems.
pub mod Time
pub mod Groups
pub mod Shard
pub mod Table
pub mod Valid
pub mod Reach
pub mod View
pub mod Decisions
pub mod Endpoints
pub mod Learning
pub mod Freshness
pub mod Cover
pub mod Timed
pub mod Census
