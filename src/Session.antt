-- ===== src/Session.antt =====
-- crates/tetris-session/src/engine: placements (Place), the commands and the transition of a step
-- (Runtime), the clock of the steps (Clock); then what holds of them.
pub mod Place
pub mod Runtime
pub mod Cache
pub mod Coherent
pub mod Replay
pub mod Clock
pub mod Quiet
pub mod Placement
pub mod Landing
pub mod Steps
pub mod BoardId
pub mod Fresh
