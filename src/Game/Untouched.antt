-- ===== src/Game/Untouched.antt =====
-- crates/tetris-core/src/core/game_state.rs: what the calls that lock no piece leave alone.
use tui_tetris.Prelude.{ℕ, ◌≡◌, refl, ◌∙◌, inl, inr, Bool, true, false, not}
use tui_tetris.Prelude.{Option, none, some, arith, if◌then◌else◌, ◌==◌, Bool-cases, Option-cases}
use tui_tetris.Types.{PieceKind}
use tui_tetris.Board.{Board}
use tui_tetris.Game.State
use tui_tetris.Game.State.{Tetromino, GameState}
use tui_tetris.Game.Moves
use tui_tetris.Game.Actions

-- The board and its id, the score and the lines.
abbrev pub untouched : GameState → (Board × ℕ) × (ℕ × ℕ)
untouched s = ((s.board, s.board_id), (s.score, s.lines))

handle_lock_reset-untouched : (s : GameState) → untouched (Moves.handle_lock_reset s) ≡ untouched s
unfolding Moves.handle_lock_reset
handle_lock_reset-untouched s = ground arith

flag-untouched :
    (b f : Bool) (s : GameState)
    → untouched (if b then s else record s { last_action_was_rotate = f }) ≡ untouched s
flag-untouched true f s = refl
flag-untouched false f s = refl

pub try_move-untouched :
    (s : GameState) (dx dy : ℕ) → untouched (Moves.try_move s dx dy).0 ≡ untouched s
unfolding Moves.try_move
try_move-untouched s dx dy = elim (Option-cases s.active) [
  | inl e ↦ rw (e, Moves.try_move) refl
  | inr (t, e) ↦ elim (Bool-cases (Moves.can_move s.board t dx dy)) [
    | inl free ↦
        rw (e, Moves.try_move, free)
          (flag-untouched (dx == 0) false (Moves.place_active s (Moves.moved_by t dx dy))
            ∙ handle_lock_reset-untouched (record s { active = some (Moves.moved_by t dx dy) }))
    | inr blocked ↦ rw (e, Moves.try_move, blocked) refl
  ]
]

pub try_rotate-untouched :
    (s : GameState) (c : Bool) → untouched (Moves.try_rotate s c).0 ≡ untouched s
unfolding Moves.try_rotate Moves.handle_lock_reset
try_rotate-untouched s c = ground arith

pub spawn_piece-untouched : (s : GameState) → untouched (State.spawn_piece s).0 ≡ untouched s
unfolding State.spawn_piece State.consume
spawn_piece-untouched s = ground arith

hold_with-untouched :
    (a : Option Tetromino) (h : Option PieceKind) (s : GameState)
    → untouched (Actions.hold_with a h s).0 ≡ untouched s
unfolding Actions.hold_with Actions.swap_hold
hold_with-untouched none h s = refl
hold_with-untouched (some t) (some k) s = ground arith
hold_with-untouched (some t) none s = spawn_piece-untouched (record s { hold = some t.kind })

pub hold_piece-untouched : (s : GameState) → untouched (Actions.hold_piece s).0 ≡ untouched s
unfolding Actions.hold_piece
hold_piece-untouched s = elim (Bool-cases (not s.can_hold)) [
  | inl used ↦ rw (used, Actions.hold_piece) refl
  | inr free ↦ rw (free, Actions.hold_piece) (hold_with-untouched s.active s.hold s)
]
