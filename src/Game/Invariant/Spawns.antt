-- ===== src/Game/Invariant/Spawns.antt =====
-- Spawning keeps the invariant.
use tui_tetris.Prelude.{◌<◌, ◌≡◌, refl, inl, inr, true, false, Bool-cases}
use tui_tetris.Prelude.{arith, if◌then◌else◌}
use tui_tetris.Rng
use tui_tetris.Rng.Bags.{IsQueue, draw-IsQueue}
use tui_tetris.Rng.Preview.{peek-draw}
use tui_tetris.Game.State
use tui_tetris.Game.State.{Tetromino, GameState, piece_is_valid, is_grounded, new_piece}
use tui_tetris.Game.Invariant.{IsSound, IsWellFormed}

-- A spawn consumes the next piece of the queue if that fits at the top, and otherwise ends the game
-- and changes nothing else.
spawn_piece_lem :
    (s : GameState)
    → IsQueue s.piece_queue
    → let piece = new_piece (Rng.draw s.piece_queue).0 in
      State.spawn_piece s ≡ (
        if piece_is_valid piece s.board
        then (State.consume piece s, true)
        else (record s { game_over = true }, false))
unfolding State.spawn_piece
spawn_piece_lem s q = rw (peek-draw s.piece_queue q.1, State.spawn_piece)

consume-IsSound :
    (s : GameState) (t : Tetromino)
    → IsSound s
    → t.x < 256
    → t.y < 256
    → piece_is_valid t s.board ≡ true
    → IsSound (State.consume t s)
unfolding State.consume
consume-IsSound s t i hx hy h = record {
  board = i.board;
  no_full_row = i.no_full_row;
  queue = draw-IsQueue s.piece_queue i.queue;
  preview = refl;
  fits = (hx, hy, h);
  by_lines = i.by_lines;
  resets_capped = omega arith;
  timer_capped = omega arith;
  delay_off = λ g. (refl, refl);
}

-- After a spawn the game is well formed, also where no piece was active before.
pub spawn_piece-IsWellFormed : (s : GameState) → IsSound s → IsWellFormed (State.spawn_piece s).0
unfolding State.consume
spawn_piece-IsWellFormed s i =
    let piece = new_piece (Rng.draw s.piece_queue).0 in
    elim (Bool-cases (piece_is_valid piece s.board)) [
      | inl free ↦
          rw (spawn_piece_lem s i.queue, free)
            (record {
              sound = consume-IsSound s piece i (omega arith) (omega arith) free;
              playing = λ st over e. cc;
            })
      | inr blocked ↦
          rw (spawn_piece_lem s i.queue, blocked) (record { sound = i; playing = λ st over e. cc })
    ]
