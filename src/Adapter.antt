-- ===== src/Adapter.antt =====
-- crates/tetris-adapter/src/adapter: the adapter between a game and its clients.
pub mod Protocol
pub mod Commands
pub mod Version
pub mod Broker
pub mod Schedule
pub mod Observation
pub mod Server
pub mod Lines
pub mod Loop
pub mod Driver
