-- ===== src/Lib.antt =====
-- A model of the game core of tui-tetris, of the session that runs it and records it, and of the
-- frames, keys and observations around it.
--
-- The parts, each with its file here and its code:
--   Types     crates/tetris-core/src/types.rs: kinds, rotations, actions, their names, constants.
--   Pieces    crates/tetris-core/src/core/pieces.rs: shapes, kick tables, the search for a kick.
--   Board     crates/tetris-core/src/core/board.rs: the grid, the lock of a piece, the line clear.
--   Rng       crates/tetris-core/src/core/rng.rs: the generator, the shuffle, the 7-bag queue.
--   Scoring   crates/tetris-core/src/core/scoring.rs: points and speeds.
--   Game      crates/tetris-core/src/core/game_state.rs: `GameState`. Game.State has the record,
--             `new`, `start` and `spawn_piece`; Game.Moves the moves, the rotation and the loops of
--             the drop and of the ghost; Game.Locking the T-spin test, `apply_line_clear`,
--             `lock_piece` and `hard_drop`; Game.Actions `hold`, `tick` and `apply_action`.
--             Game.Invariant says what holds of a game between two calls. Game.Snapshot has the
--             snapshot writers, with core/snapshot.rs and core/state_hash.rs.
--   Session   crates/tetris-session/src/engine: Session.Place is place.rs, Session.Runtime the game
--             part of session.rs, Session.Cache its snapshot cache, Session.Clock fixed_step.rs and
--             Session.Replay replay.rs, whose text format is in Session.Replay.Format.
--   Throttle  crates/tetris-terminal/src/term/render_throttle.rs: which frames are drawn.
--   Term      crates/tetris-terminal/src/term: Term.Frame is fb.rs, Term.Renderer is renderer.rs, with
--             its commands as data; Term.Renderer.Screen says what a terminal does with them. Term.View
--             has the board cells of game_view.rs.
--   Input     crates/tetris-terminal/src/input: Input is map.rs, Input.Handler is handler.rs.
--   Adapter   crates/tetris-adapter/src/adapter. Adapter.Protocol has the messages of
--             crates/tetris-adapter-protocol/src/protocol.rs; Adapter.Broker, Adapter.Server,
--             Adapter.Commands, Adapter.Version and Adapter.Lines are parts of server.rs; Adapter.Loop
--             and Adapter.Driver are game_loop.rs; Adapter.Observation is observation.rs and
--             Adapter.Schedule observation_schedule.rs.
--   Prelude   the names, words and lemmas that the others share; Tests the runs at fixed inputs.
-- A session step applies commands and actions to the game, then ticks it; a placement is a list of
-- actions on a copy of the game; the game calls the board, the pieces, the queue and the scoring. The
-- clock says how many steps are due, the throttle whether to draw. The input handler makes actions of
-- keys; a replay runs the steps of a tape again and compares the hashes of the snapshots; the schedule
-- says after which ticks an observation is sent. The task of a client reads lines, parsed to messages;
-- it answers them, and sends commands of the controller to the queue of the game loop, which applies
-- them at the next step and answers them after it. The renderer sends the runs of cells that changed.
--
-- State is passed explicitly: a method with `&mut self` returns the new record, with its result. An
-- i8 or i32 is its two's complement pattern and additions wrap as in a release build; u32 sums
-- saturate or wrap as the source says. A `Duration` is its number of nanoseconds.
--
-- Code that can panic or loop returns a `Run`: `ret`, or `fault` for a push past the capacity of an
-- array or for fuel that has run out. The loops of the drop and the ghost have 21 rounds, one more
-- than the grid has rows. The gravity loop has one more round than its timer has milliseconds: each
-- round takes an interval off, and an interval is at least 12 ms. Arrays have their Rust lengths by
-- the invariant and indices lie below them, so the defaults of reads are never used.
--
-- The loops of the input handler take the repeat rate, at least 1, off an accumulator, whose value is
-- the fuel; the scan of a row has a round for each cell. A clock reading is an argument, and so is
-- whether the writer of the renderer accepts its bytes.
--
-- A message of a client is handled at once: the blocks of `handle_client` that take the lock of the
-- broker follow each other, while the source lets the tasks of other clients run between them; only
-- the order of whole messages is free, and a client connects under an id that is not in use.
-- Adapter.Server.Blocks has the accept loop with its counter, a usize of 64 bits, and the blocks of
-- all tasks by themselves, in any order. What the channels of tokio say, which clients are live and
-- whether a queue takes a message, is an argument of each message and block. A line comes in chunks,
-- as the buffered reader hands them out.
--
-- Not modelled: the `changed` flag of a step, which compares two snapshots; the game view but for the
-- board cells; the bytes and colours of the terminal; the parsing and printing of messages, which
-- serde does, their time stamps and the texts of errors; the sockets, the writer task, the wire log
-- and the start of the server; and the programs, which are input and output over other crates.
pub mod Prelude
pub mod Types
pub mod Pieces
pub mod Board
pub mod Rng
pub mod Scoring
pub mod Game
pub mod Session
pub mod Throttle
pub mod Term
pub mod Input
pub mod Adapter
pub mod Tests
