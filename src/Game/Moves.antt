-- ===== src/Game/Moves.antt =====
-- crates/tetris-core/src/core/game_state.rs: moving, rotating and dropping the active piece.
use tui_tetris.Prelude.{ℕ, zero, suc, ◌+◌, ◌%◌, Bool, true, false, not, Option, none, some, all}
use tui_tetris.Prelude.{add_i8, ltb, ◌==◌, if◌then◌else◌, Run, ret, fault}
use tui_tetris.Types.{PieceKind, o_piece, lock_reset_limit}
use tui_tetris.Pieces
use tui_tetris.Pieces.{Offset, PieceShape}
use tui_tetris.Board
use tui_tetris.Board.{Board}
use tui_tetris.Game.State.{Tetromino, GameState, shape, is_grounded}

unfoldable pub handle_lock_reset : GameState → GameState
handle_lock_reset s =
    if not (is_grounded s)
    then record s { lock_timer_ms = 0; lock_reset_count = 0 }
    else if ltb s.lock_reset_count lock_reset_limit
    then record s { lock_timer_ms = 0; lock_reset_count = s.lock_reset_count + 1 }
    else s

-- The test of `try_move` for the active piece.
unfoldable pub can_move : Board → Tetromino → ℕ → ℕ → Bool
can_move board t dx dy =
    all
      (λ (m : Offset).
        Board.is_valid board (add_i8 (add_i8 t.x m.0) dx) (add_i8 (add_i8 t.y m.1) dy))
      (shape t)

abbrev pub moved_by : Tetromino → ℕ → ℕ → Tetromino
moved_by t dx dy = record t { x = add_i8 t.x dx; y = add_i8 t.y dy }

-- The state after the active piece was put in place and the lock timers handled.
abbrev pub place_active : GameState → Tetromino → GameState
place_active s t = handle_lock_reset (record s { active = some t })

unfoldable pub try_move : GameState → ℕ → ℕ → GameState × Bool
try_move s dx dy = elim s.active [
  | none ↦ (s, false)
  | some t ↦
      if can_move s.board t dx dy
      then (
        let s' = place_active s (moved_by t dx dy) in
            if dx == 0 then s' else record s' { last_action_was_rotate = false },
        true,
      )
      else (s, false)
]

abbrev pub is_o_piece : PieceKind → Bool
is_o_piece o_piece = true
is_o_piece _ = false

unfoldable pub try_rotate : GameState → Bool → GameState × Bool
try_rotate s clockwise = elim s.active [
  | none ↦ (s, false)
  | some t ↦
      if is_o_piece t.kind
      then (s, false)
      else elim (Pieces.try_rotate t.kind t.rotation t.x t.y clockwise (Board.is_valid s.board)) [
        | none ↦ (s, false)
        | some (new_shape, new_rotation, d) ↦ (
          record (place_active s
              (record t { rotation = new_rotation; x = add_i8 t.x d.0; y = add_i8 t.y d.1 })) {
                last_action_was_rotate = true;
              },
          true,
        )
      ]
]

-- The test of the loops of `hard_drop` and `ghost_y`; `d` is the distance as an i8.
unfoldable pub can_drop : Board → Tetromino → ℕ → Bool
can_drop board t d =
    all
      (λ (m : Offset). Board.is_valid board (add_i8 t.x m.0) (add_i8 (add_i8 (add_i8 t.y m.1) d) 1))
      (shape t)

-- The loop of `hard_drop`, whose distance is a u32 (`as i8` keeps its low byte). A piece falls
-- at most 20 rows, so 21 rounds are enough (`Game.Drop.drop_distance-Lands`).
unfoldable pub drop_loop : ℕ → Board → Tetromino → ℕ → Run ℕ
drop_loop zero board t d = fault
drop_loop (suc fuel) board t d = elim (can_drop board t (d % 256)) [
  | true ↦ drop_loop fuel board t (d + 1)
  | false ↦ ret d
]

abbrev pub drop_fuel : ℕ
drop_fuel = 21

-- The loop of `ghost_y`, whose distance is an i8.
unfoldable pub ghost_loop : ℕ → Board → Tetromino → ℕ → Run ℕ
ghost_loop zero board t d = fault
ghost_loop (suc fuel) board t d = elim (can_drop board t d) [
  | true ↦ ghost_loop fuel board t (add_i8 d 1)
  | false ↦ ret d
]

unfoldable pub ghost_y : GameState → Run (Option ℕ)
ghost_y s = elim s.active [
  | none ↦ ret none
  | some t ↦ elim (ghost_loop drop_fuel s.board t 0) [
    | ret d ↦ ret (some (add_i8 t.y d))
    | fault ↦ fault
  ]
]
