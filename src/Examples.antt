-- ===== src/Examples.antt =====
-- The theorems applied to concrete inputs.
mod Tables
mod Traffic
mod Streams
mod Settings
mod Delays
mod Tasks
mod Transports
mod Devices
mod Queries
mod Relays
