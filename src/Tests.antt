-- ===== src/Tests.antt =====
-- Concrete games and boards.
pub mod Boards
pub mod Games
pub mod Tables
pub mod Sessions
pub mod Frames
pub mod Inputs
pub mod Replays
pub mod Formats
pub mod Brokers
