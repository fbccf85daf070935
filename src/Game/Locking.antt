-- ===== src/Game/Locking.antt =====
-- crates/tetris-core/src/core/game_state.rs: `t_spin_kind`, `apply_line_clear`, `lock_piece` and
-- `hard_drop`.
use tui_tetris.Prelude.{ℕ, ◌+◌, ◌/◌, ◌%◌, Bool, true, false, not, ◌&&◌, ◌||◌, Option, none, some}
use tui_tetris.Prelude.{List, [], ◌∷◌, length, count_if, add_i8, ltb, leb, ◌==◌, if◌then◌else◌}
use tui_tetris.Prelude.{Run, ret, ◌>>=◌, wrapping_add, saturating_add, saturating_inc_i32}
use tui_tetris.Prelude.{minus_one_i32}
use tui_tetris.Types.{PieceKind, t_piece, Rotation, north, east, south, west}
use tui_tetris.Types.{TSpinKind, no_spin, mini, full, line_clear_pause_ms, landing_flash_ms}
use tui_tetris.Pieces.{Offset}
use tui_tetris.Board
use tui_tetris.Board.{Board}
use tui_tetris.Scoring
use tui_tetris.Game.State.{Tetromino, GameState, shape, spawn_piece}
use tui_tetris.Game.Moves.{drop_loop, drop_fuel}

-- The table has the same four corners for each rotation.
abbrev pub corners : Rotation → List Offset
corners _ = (0, 0) ∷ (2, 0) ∷ (0, 2) ∷ (2, 2) ∷ []

abbrev pub front_corners : Rotation → List Offset
front_corners north = (0, 0) ∷ (2, 0) ∷ []
front_corners east = (2, 0) ∷ (2, 2) ∷ []
front_corners south = (0, 2) ∷ (2, 2) ∷ []
front_corners west = (0, 0) ∷ (0, 2) ∷ []

-- The filter of both counts: a corner off the grid counts as filled.
abbrev pub corner_filled : Board → Tetromino → Offset → Bool
corner_filled board t c = not (Board.is_valid board (add_i8 t.x c.0) (add_i8 t.y c.1))

unfoldable pub t_spin_kind : GameState → Tetromino → TSpinKind
t_spin_kind s piece =
    if not s.last_action_was_rotate
    then no_spin
    else if leb 3 (count_if (corner_filled s.board piece) (corners piece.rotation))
    then if count_if (corner_filled s.board piece) (front_corners piece.rotation) == 2
      then full
      else mini
    else no_spin

abbrev is_t_piece : PieceKind → Bool
is_t_piece t_piece = true
is_t_piece _ = false

-- The score of a T-spin that clears nothing: the source's match on the kind of spin.
abbrev spin_points : TSpinKind → ℕ → ℕ
spin_points full level = Scoring.calculate_tspin_score full 0 level
spin_points mini level = Scoring.calculate_tspin_score mini 0 level
spin_points no_spin level = 0

-- `self.lines / 10` and the other updates of a clear.
unfoldable pub score_clear : GameState → ℕ → TSpinKind → GameState × ℕ
score_clear s lines_cleared tspin =
    let combo_after = saturating_inc_i32 s.combo in
    let result = Scoring.calculate_score lines_cleared s.level tspin combo_after s.back_to_back in
    let lines' = saturating_add s.lines lines_cleared in
    (
      record s {
        combo = combo_after;
        lines = lines';
        level = lines' / 10;
        back_to_back = result.qualifies_for_b2b;
        score = saturating_add s.score result.total;
        line_clear_timer_ms = line_clear_pause_ms;
        landing_flash_ms = landing_flash_ms;
      },
      result.line_clear_score,
    )

unfoldable pub apply_line_clear : GameState → ℕ → TSpinKind → GameState × ℕ
apply_line_clear s lines_cleared tspin =
    if lines_cleared == 0
    then (
      record s {
        combo = minus_one_i32;
        back_to_back = false;
        score = saturating_add s.score (spin_points tspin s.level);
      },
      0,
    )
    else score_clear s lines_cleared tspin

-- The spin that the event reports.
abbrev reported_spin : ℕ → TSpinKind → Option TSpinKind
reported_spin lines_cleared no_spin = none
reported_spin lines_cleared tspin = if ltb 0 lines_cleared then some tspin else none

-- The next piece, unless the game is over.
unfoldable pub spawn_next : GameState → GameState
spawn_next s = if s.game_over then s else (spawn_piece s).0

-- The cleared board and its new id.
abbrev pub cleared_board : GameState → Bool → Board → ℕ → GameState
cleared_board s lock_success board lines_cleared = record s {
  board = board;
  board_id = if lock_success || ltb 0 lines_cleared then wrapping_add s.board_id 1 else s.board_id;
}

-- The event of the lock.
abbrev pub with_event : GameState × ℕ → ℕ → TSpinKind → GameState
with_event (scored, line_clear_score) lines_cleared tspin = record scored {
  last_event = some (record {
    locked = true;
    lines_cleared = lines_cleared;
    line_clear_score = line_clear_score;
    tspin = reported_spin lines_cleared tspin;
    combo = scored.combo;
    back_to_back = scored.back_to_back;
  });
}

-- `lock_piece` from the cleared board on: ids, scores, the event and the next piece.
unfoldable pub finish_lock : GameState → Bool → TSpinKind → Board × List ℕ → GameState
finish_lock s lock_success tspin (board, cleared_rows) =
    let lines_cleared = length cleared_rows in
    let scored =
      apply_line_clear (cleared_board s lock_success board lines_cleared) lines_cleared tspin in
    spawn_next (with_event scored lines_cleared tspin)

-- The state after the piece was written to the board.
abbrev pub written : GameState → Tetromino → GameState
written s t = record s {
  landing_flash_ms = landing_flash_ms;
  board = (Board.lock_piece s.board (shape t) t.x t.y t.kind).0;
  active = none;
}

-- The spin is read off the written board, before its full rows go.
abbrev pub spin_of : GameState → Tetromino → TSpinKind
spin_of s t =
    if (Board.lock_piece s.board (shape t) t.x t.y t.kind).1 && is_t_piece t.kind
    then t_spin_kind (written s t) t
    else no_spin

unfoldable pub lock_piece : GameState → Run GameState
lock_piece s = elim s.active [
  | none ↦ ret s
  | some t ↦ Board.clear_full_rows (written s t).board >>= λ cleared. ret (
      finish_lock (written s t) (Board.lock_piece s.board (shape t) t.x t.y t.kind).1 (spin_of s t)
        cleared)
]

-- The piece at the end of the drop.
abbrev pub dropped : Tetromino → ℕ → Tetromino
dropped t d = if ltb 0 d then record t { y = (t.y + d % 256) % 256 } else t

unfoldable pub hard_drop : GameState → Run (GameState × ℕ)
hard_drop s = elim s.active [
  | none ↦ ret (s, 0)
  | some t ↦ drop_loop drop_fuel s.board t 0 >>= λ d.
      lock_piece (record s { active = some (dropped t d) }) >>= λ s'.
      ret (s', Scoring.calculate_drop_score d true)
]
