-- ===== src/Game/BoardId.antt =====
-- crates/tetris-core/src/core/game_state.rs: the board and its id over the calls that lock no piece.
pub mod Locks
pub mod Calls
use tui_tetris.Prelude.{ℕ, ◌+◌, ◌%◌, ◌≤◌, ◌≡◌, Bool}
use tui_tetris.Prelude.{u32_mod}
use tui_tetris.Game.Untouched.{
  try_move-untouched, try_rotate-untouched, spawn_piece-untouched, hold_piece-untouched,
}
use tui_tetris.Prelude.{ap}
use tui_tetris.Board.{Board}
use tui_tetris.Game.State
use tui_tetris.Game.State.{GameState}
use tui_tetris.Game.Moves
use tui_tetris.Game.Actions

abbrev pub marks : GameState → Board × ℕ
marks s = (s.board, s.board_id)

-- At most `n` changes of the id lead here from the board `b` and the id `id`, and the board is `b` if
-- there was none.
abbrev pub Follows : ℕ → Board → ℕ → Board × ℕ → Type 0
Follows n b id (board, board_id) =
    (k : ℕ) × (k ≤ n) × (board_id ≡ (id + k) % u32_mod) × (k ≡ 0 → board ≡ b)

pub try_move-marks : (s : GameState) (dx dy : ℕ) → marks (Moves.try_move s dx dy).0 ≡ marks s
try_move-marks s dx dy = ap (λ (u : (Board × ℕ) × (ℕ × ℕ)). u.0) (try_move-untouched s dx dy)

pub try_rotate-marks : (s : GameState) (c : Bool) → marks (Moves.try_rotate s c).0 ≡ marks s
try_rotate-marks s c = ap (λ (u : (Board × ℕ) × (ℕ × ℕ)). u.0) (try_rotate-untouched s c)

pub spawn_piece-marks : (s : GameState) → marks (State.spawn_piece s).0 ≡ marks s
spawn_piece-marks s = ap (λ (u : (Board × ℕ) × (ℕ × ℕ)). u.0) (spawn_piece-untouched s)

pub hold_piece-marks : (s : GameState) → marks (Actions.hold_piece s).0 ≡ marks s
hold_piece-marks s = ap (λ (u : (Board × ℕ) × (ℕ × ℕ)). u.0) (hold_piece-untouched s)
