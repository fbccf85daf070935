-- ===== src/Game.antt =====
-- crates/tetris-core/src/core/game_state.rs, by part: the state, spawning and moving, locking, and
-- the entry points; then what holds of them.
pub mod State
pub mod Moves
pub mod Snapshot
pub mod Locking
pub mod Actions
pub mod Invariant
pub mod Drop
pub mod Ghost
pub mod Untouched
pub mod Totals
pub mod BoardId
