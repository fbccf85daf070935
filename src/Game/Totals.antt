-- ===== src/Game/Totals.antt =====
-- The score and the line count never fall, but by a restart.
pub mod Runs
use tui_tetris.Prelude.{ℕ, ◌≤◌, ◌≡◌, ap, Bool}
use tui_tetris.Prelude.{u32_max}
use tui_tetris.Game.Untouched.{
  try_move-untouched, try_rotate-untouched, spawn_piece-untouched, hold_piece-untouched,
}
use tui_tetris.Board.{Board}
use tui_tetris.Game.State
use tui_tetris.Game.State.{GameState}
use tui_tetris.Game.Moves
use tui_tetris.Game.Actions

abbrev pub totals : GameState → ℕ × ℕ
totals s = (s.score, s.lines)

-- The score is a u32 of at least `a`, and the lines are a u32 of at least `l`.
abbrev pub AtLeast : ℕ → ℕ → ℕ × ℕ → Type 0
AtLeast a l (score, lines) = (a ≤ score) × (score ≤ u32_max) × (l ≤ lines) × (lines ≤ u32_max)

abbrev pub Keeps : ℕ → ℕ → GameState → Type 0
Keeps a l s = AtLeast a l (s.score, s.lines)

pub try_move-totals : (s : GameState) (dx dy : ℕ) → totals (Moves.try_move s dx dy).0 ≡ totals s
try_move-totals s dx dy = ap (λ (u : (Board × ℕ) × (ℕ × ℕ)). u.1) (try_move-untouched s dx dy)

pub try_rotate-totals : (s : GameState) (c : Bool) → totals (Moves.try_rotate s c).0 ≡ totals s
try_rotate-totals s c = ap (λ (u : (Board × ℕ) × (ℕ × ℕ)). u.1) (try_rotate-untouched s c)

pub spawn_piece-totals : (s : GameState) → totals (State.spawn_piece s).0 ≡ totals s
spawn_piece-totals s = ap (λ (u : (Board × ℕ) × (ℕ × ℕ)). u.1) (spawn_piece-untouched s)

pub hold_piece-totals : (s : GameState) → totals (Actions.hold_piece s).0 ≡ totals s
hold_piece-totals s = ap (λ (u : (Board × ℕ) × (ℕ × ℕ)). u.1) (hold_piece-untouched s)
