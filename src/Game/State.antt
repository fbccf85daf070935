-- ===== src/Game/State.antt =====
-- crates/tetris-core/src/core/game_state.rs: `Tetromino`, `GameState`, `new` and `spawn_piece`.
use tui_tetris.Prelude.{ℕ, ◌/◌, Bool, true, false, not, Option, none, some, List, any}
use tui_tetris.Prelude.{add_i8, wrapping_add, minus_one_i32, if◌then◌else◌}
use tui_tetris.Types.{PieceKind, Rotation, north, CoreLastEvent, soft_drop_multiplier}
use tui_tetris.Pieces.{Offset, PieceShape, get_shape}
use tui_tetris.Board
use tui_tetris.Board.{Board}
use tui_tetris.Rng
use tui_tetris.Rng.{PieceQueue}
use tui_tetris.Scoring.{get_drop_interval_ms}

pub record Tetromino : Type 0 where
  pub kind : PieceKind
  pub rotation : Rotation
  pub x : ℕ
  pub y : ℕ

-- `Tetromino::new`.
abbrev pub new_piece : PieceKind → Tetromino
new_piece kind = record { kind = kind; rotation = north; x = 3; y = 0 }

abbrev pub shape : Tetromino → PieceShape
shape t = get_shape t.kind t.rotation

-- `Tetromino::is_valid`; the test is that of `Board::lock_piece`.
unfoldable pub piece_is_valid : Tetromino → Board → Bool
piece_is_valid t board = Board.all_valid board (shape t) t.x t.y

unfoldable pub piece_is_grounded : Tetromino → Board → Bool
piece_is_grounded t board =
    any (λ (m : Offset). not (Board.is_valid board (add_i8 t.x m.0) (add_i8 (add_i8 t.y m.1) 1)))
      (shape t)

pub record GameState : Type 0 where
  pub board : Board
  pub board_id : ℕ
  pub active : Option Tetromino
  pub hold : Option PieceKind
  pub next_queue : List PieceKind
  pub piece_queue : PieceQueue
  pub episode_id : ℕ
  pub piece_id : ℕ
  pub active_id : ℕ
  pub step_in_piece : ℕ
  pub last_event : Option CoreLastEvent
  pub score : ℕ
  pub level : ℕ
  pub lines : ℕ
  pub combo : ℕ
  pub back_to_back : Bool
  pub drop_timer_ms : ℕ
  pub lock_timer_ms : ℕ
  pub lock_reset_count : ℕ
  pub line_clear_timer_ms : ℕ
  pub landing_flash_ms : ℕ
  pub paused : Bool
  pub game_over : Bool
  pub started : Bool
  pub can_hold : Bool
  pub last_action_was_rotate : Bool
  pub soft_drop_timer_ms : ℕ
  pub is_soft_dropping : Bool

unfoldable pub new : ℕ → GameState
new seed =
    let piece_queue = Rng.new seed in
    record {
      board = Board.new;
      board_id = 0;
      active = none;
      hold = none;
      next_queue = Rng.peek_5 piece_queue;
      piece_queue = piece_queue;
      episode_id = 0;
      piece_id = 0;
      active_id = 0;
      step_in_piece = 0;
      last_event = none;
      score = 0;
      level = 0;
      lines = 0;
      combo = minus_one_i32;
      back_to_back = false;
      drop_timer_ms = 0;
      lock_timer_ms = 0;
      lock_reset_count = 0;
      line_clear_timer_ms = 0;
      landing_flash_ms = 0;
      paused = false;
      game_over = false;
      started = false;
      can_hold = true;
      last_action_was_rotate = false;
      soft_drop_timer_ms = 0;
      is_soft_dropping = false;
    }

-- The part of `spawn_piece` that consumes the validated piece.
unfoldable pub consume : Tetromino → GameState → GameState
consume piece s =
    let q = (Rng.draw s.piece_queue).1 in
    record s {
      piece_queue = q;
      active = some piece;
      piece_id = wrapping_add s.piece_id 1;
      active_id = wrapping_add s.active_id 1;
      step_in_piece = 0;
      can_hold = true;
      lock_timer_ms = 0;
      lock_reset_count = 0;
      last_action_was_rotate = false;
      next_queue = Rng.peek_5 q;
    }

unfoldable pub spawn_piece : GameState → GameState × Bool
spawn_piece s = elim (Rng.peek s.piece_queue) [
  | none ↦ (record s { game_over = true }, false)
  | some kind ↦
      if piece_is_valid (new_piece kind) s.board
      then (consume (new_piece kind) s, true)
      else (record s { game_over = true }, false)
]

unfoldable pub start : GameState → GameState
start s = if s.started then s else (spawn_piece (record s { started = true })).0

unfoldable pub drop_interval_ms : GameState → ℕ
drop_interval_ms s =
    let base = get_drop_interval_ms s.level in
    if s.is_soft_dropping then base / soft_drop_multiplier else base

unfoldable pub is_grounded : GameState → Bool
is_grounded s = elim s.active [ none ↦ false | some piece ↦ piece_is_grounded piece s.board ]
