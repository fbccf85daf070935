-- ===== src/Game/Invariant/Moving.antt =====
-- Moves and rotations keep the invariant.
use tui_tetris.Prelude.{ℕ, ◌<◌, ◌≡◌, refl, sym, ◌∙◌, inl, inr, Bool, true, false}
use tui_tetris.Prelude.{some, arith, if◌then◌else◌, Bool-cases, all_congr, add_i8, ltb}
use tui_tetris.Prelude.{Option-cases, ◌==◌}
use mathlib.Core.Path.{ap₂}
use tui_tetris.Types.{Rotation}
use tui_tetris.Pieces
use tui_tetris.Pieces.{Offset}
use tui_tetris.Pieces.Kicks.{try_rotate-some}
use tui_tetris.Board
use tui_tetris.Game.State.{
  Tetromino, GameState, piece_is_valid, piece_is_grounded, is_grounded, shape,
}
use tui_tetris.Game.Moves
use tui_tetris.Game.Invariant.{IsSound, IsWellFormed}

swap_last : (x m d : ℕ) → add_i8 (add_i8 x m) d ≡ add_i8 (add_i8 x d) m
swap_last x m d = omega arith

-- The test before a move is the test of the moved piece.
pub can_move-valid :
    (s : GameState) (t : Tetromino) (dx dy : ℕ)
    → Moves.can_move s.board t dx dy ≡ piece_is_valid (Moves.moved_by t dx dy) s.board
unfolding Moves.can_move piece_is_valid
can_move-valid s t dx dy =
    all_congr _ _ (shape t)
      (λ m. ap₂ (Board.is_valid s.board) (swap_last t.x m.0 dx) (swap_last t.y m.1 dy))

-- `handle_lock_reset` touches the lock timers only, and switches them off in the air.
pub place_active-IsSound :
    (s : GameState) (t : Tetromino)
    → IsSound s
    → t.x < 256
    → t.y < 256
    → piece_is_valid t s.board ≡ true
    → IsSound (Moves.place_active s t)
unfolding Moves.handle_lock_reset is_grounded
place_active-IsSound s t i hx hy h = elim (Bool-cases (piece_is_grounded t s.board)) [
  | inl ground_below ↦ rw ground_below (elim (Bool-cases (ltb s.lock_reset_count 15)) [
    | inl few ↦ rw few (record {
      board = i.board;
      no_full_row = i.no_full_row;
      queue = i.queue;
      preview = i.preview;
      fits = (hx, hy, h);
      by_lines = i.by_lines;
      resets_capped = ground arith;
      timer_capped = omega arith;
      delay_off = λ air. cc;
    })
    | inr many ↦ rw many (record {
      board = i.board;
      no_full_row = i.no_full_row;
      queue = i.queue;
      preview = i.preview;
      fits = (hx, hy, h);
      by_lines = i.by_lines;
      resets_capped = i.resets_capped;
      timer_capped = i.timer_capped;
      delay_off = λ air. cc;
    })
  ])
  | inr falls ↦ rw falls (record {
    board = i.board;
    no_full_row = i.no_full_row;
    queue = i.queue;
    preview = i.preview;
    fits = (hx, hy, h);
    by_lines = i.by_lines;
    resets_capped = omega arith;
    timer_capped = omega arith;
    delay_off = λ air. (refl, refl);
  })
]

place_active-active : (s : GameState) (t : Tetromino) → (Moves.place_active s t).active ≡ some t
unfolding Moves.handle_lock_reset
place_active-active s t = ground arith

-- The active piece put in place anew.
pub place_active-IsWellFormed :
    (s : GameState) (t : Tetromino)
    → IsSound s
    → t.x < 256
    → t.y < 256
    → piece_is_valid t s.board ≡ true
    → IsWellFormed (Moves.place_active s t)
place_active-IsWellFormed s t i hx hy h = record {
  sound = place_active-IsSound s t i hx hy h;
  playing = λ st over e. cc (place_active-active s t);
}

-- The rotate flag plays no part in the invariant.
with_flag :
    (b f : Bool) (s : GameState)
    → IsWellFormed s
    → IsWellFormed (if b then s else record s { last_action_was_rotate = f })
with_flag true f s w = w
with_flag false f s w = record { sound = w.sound; playing = w.playing }

pub try_move-IsWellFormed :
    (s : GameState) (dx dy : ℕ) → IsWellFormed s → IsWellFormed (Moves.try_move s dx dy).0
unfolding Moves.try_move
try_move-IsWellFormed s dx dy w = elim (Option-cases s.active) [
  | inl e ↦ rw (e, Moves.try_move) w
  | inr (t, e) ↦ elim (Bool-cases (Moves.can_move s.board t dx dy)) [
    | inl free ↦
        rw (e, Moves.try_move, free)
          (with_flag (dx == 0) false (Moves.place_active s (Moves.moved_by t dx dy)) (
            place_active-IsWellFormed s (Moves.moved_by t dx dy) w.sound (omega arith) (omega arith)
              (sym (can_move-valid s t dx dy) ∙ free)))
    | inr blocked ↦ rw (e, Moves.try_move, blocked) w
  ]
]

-- The piece that a rotation with kick `d` puts in place.
abbrev kicked : Tetromino → Pieces.PieceShape × Rotation × Offset → Tetromino
kicked t (new_shape, r, d) = record t { rotation = r; x = add_i8 t.x d.0; y = add_i8 t.y d.1 }

kicked-valid :
    (s : GameState) (t : Tetromino) (clockwise : Bool) (new_shape : Pieces.PieceShape)
    (r : Rotation) (d : Offset)
    → Pieces.try_rotate t.kind t.rotation t.x t.y clockwise (Board.is_valid s.board)
      ≡ some (new_shape, r, d)
    → piece_is_valid (kicked t (new_shape, r, d)) s.board ≡ true
unfolding piece_is_valid
kicked-valid s t clockwise new_shape r d e =
    let (same_shape, same_rotation, first) =
      try_rotate-some t.kind t.rotation t.x t.y clockwise (Board.is_valid s.board) new_shape r d
        e in
    rw same_rotation first.free

pub try_rotate-IsWellFormed :
    (s : GameState) (clockwise : Bool)
    → IsWellFormed s
    → IsWellFormed (Moves.try_rotate s clockwise).0
unfolding Moves.try_rotate
try_rotate-IsWellFormed s clockwise w = elim (Option-cases s.active) [
  | inl e ↦ rw (e, Moves.try_rotate) w
  | inr (t, e) ↦ elim (Bool-cases (Moves.is_o_piece t.kind)) [
    | inl o ↦ rw (e, Moves.try_rotate, o) w
    | inr turns ↦
        elim (Option-cases
          (Pieces.try_rotate t.kind t.rotation t.x t.y clockwise (Board.is_valid s.board))) [
            | inl fails ↦ rw (e, Moves.try_rotate, turns, fails) w
            | inr ((new_shape, r, d), fit) ↦
                let w' =
                  place_active-IsWellFormed s (kicked t (new_shape, r, d)) w.sound (omega arith)
                    (omega arith) (kicked-valid s t clockwise new_shape r d fit) in
                rw (e, Moves.try_rotate, turns, fit)
                  (record { sound = w'.sound; playing = w'.playing })
          ]
  ]
]
