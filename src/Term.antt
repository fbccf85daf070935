-- ===== src/Term.antt =====
-- crates/tetris-terminal/src/term: the frame buffer (Frame) and the renderer that writes frames as
-- terminal commands (Renderer).
pub mod Frame
pub mod Renderer
pub mod View
