-- ===== src/Game/Invariant.antt =====
-- What holds of a game between two calls.
pub mod Spawns
pub mod Moving
pub mod Locks
pub mod Ticks
pub mod Calls
pub mod Reachable
use tui_tetris.Prelude.{ℕ, ◌+◌, ◌/◌, ◌≤◌, ◌<◌, ◌≡◌, ◌≢◌, refl, ◌⊎◌, inl, inr, Bool, true, false}
use tui_tetris.Prelude.{Option, none, some, List, [], arith}
use tui_tetris.Board.{Board, IsBoard}
use tui_tetris.Board.Clear.{full_rows}
use tui_tetris.Rng
use tui_tetris.Rng.Bags.{IsQueue}
use tui_tetris.Game.State.{Tetromino, GameState, piece_is_valid, piece_is_grounded}
use tui_tetris.Rng.{PieceQueue}
use tui_tetris.Types.{PieceKind}

-- The active piece has i8 coordinates and lies on free cells of the grid.
abbrev pub ActiveFits : Option Tetromino → Board → Type 0
ActiveFits none b = Unit {0}
ActiveFits (some t) b = (t.x < 256) × (t.y < 256) × (piece_is_valid t b ≡ true)

-- While the piece can fall, the lock delay is off.
abbrev pub DelayOff : Option Tetromino → Board → ℕ → ℕ → Type 0
DelayOff none b timer resets = Unit {0}
DelayOff (some t) b timer resets = piece_is_grounded t b ≡ false → (timer ≡ 0) × (resets ≡ 0)

-- The board, the queue, the piece and the counters. The board has no full row: each lock clears
-- them.
pub record Sound (b : Board) (q : PieceQueue) (next : List PieceKind) (active : Option Tetromino)
    (level lines resets timer : ℕ) : Type 0 where
  pub board : IsBoard b
  pub no_full_row : full_rows b ≡ []
  pub queue : IsQueue q
  pub preview : next ≡ Rng.peek_5 q
  pub fits : ActiveFits active b
  pub by_lines : level ≡ lines / 10
  pub resets_capped : resets ≤ 15
  pub timer_capped : timer < 450
  pub delay_off : DelayOff active b timer resets

abbrev pub IsSound : GameState → Type 0
IsSound s =
    Sound s.board s.piece_queue s.next_queue s.active s.level s.lines s.lock_reset_count
      s.lock_timer_ms

-- A game that runs has an active piece.
abbrev pub IsPlaying : GameState → Type 0
IsPlaying s = s.started ≡ true → s.game_over ≡ false → s.active ≢ none

pub record IsWellFormed (s : GameState) : Type 0 where
  pub sound : IsSound s
  pub playing : IsPlaying s
