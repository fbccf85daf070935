-- ===== src/Game/Ghost.antt =====
-- `ghost_y` shows where `hard_drop` locks the piece.
use tui_tetris.Prelude.{ℕ, zero, suc, ◌*◌, ◌≤◌, ◌<◌, ◌≡◌, refl, ap, ◌∙◌, true, some}
use tui_tetris.Prelude.{add_i8, ret, arith}
use tui_tetris.Board
use tui_tetris.Board.{Board, IsBoard}
use tui_tetris.Board.Lock.{lock_piece-LockSpec}
use tui_tetris.Scoring
use tui_tetris.Game.State.{Tetromino, GameState, shape, piece_is_valid}
use tui_tetris.Game.Moves
use tui_tetris.Game.Locking
use tui_tetris.Game.Locking.{dropped}
use tui_tetris.Game.Drop.{Lands, drop_distance-Lands, ghost_loop-drop_loop, landed-valid}
use tui_tetris.Game.Invariant.{IsWellFormed, ActiveFits}
use tui_tetris.Game.Invariant.Locks.{locked, lock_piece_lem}

-- A hard drop of the piece `t` by `d` rows: the ghost is there, the piece locks there on free cells,
-- and two points are counted for each row.
pub record HardDrops (s : GameState) (t : Tetromino) (d : ℕ) : Type 0 where
  pub lands : Lands s.board t d
  pub ghost : Moves.ghost_y s ≡ ret (some (add_i8 t.y d))
  pub row : (dropped t d).y ≡ add_i8 t.y d
  pub locks :
      (Board.lock_piece s.board
        (shape (dropped t d))
        (dropped t d).x
        (dropped t d).y
        (dropped t d).kind).1
      ≡ true
  pub result :
      Locking.hard_drop s
      ≡ ret (locked (record s { active = some (dropped t d) }) (dropped t d), d * 2)

row_lem : (t : Tetromino) (d : ℕ) → t.y < 256 → d ≤ 20 → (dropped t d).y ≡ add_i8 t.y d
row_lem t zero h k = omega arith
row_lem t (suc d) h k = ground arith

drop_points : (d : ℕ) → d ≤ 20 → Scoring.calculate_drop_score d true ≡ d * 2
unfolding Scoring.calculate_drop_score
drop_points d h = ground arith

fits_locks :
    (b : Board) (p : Tetromino)
    → IsBoard b
    → piece_is_valid p b ≡ true
    → (Board.lock_piece b (shape p) p.x p.y p.kind).1 ≡ true
unfolding piece_is_valid
fits_locks b p v h = (lock_piece-LockSpec b (shape p) p.x p.y p.kind v).reported ∙ h

-- In a well-formed game with an active piece, for some distance of at most 20 rows, `hard_drop`
-- drops the piece by that distance, to the row of the ghost, and locks it there.
pub ghost-hard_drop :
    (s : GameState) (t : Tetromino) → IsWellFormed s → s.active ≡ some t → (d : ℕ) × HardDrops s t d
unfolding Moves.ghost_y Locking.hard_drop
ghost-hard_drop s t w e =
    let (d, ends, lands) = drop_distance-Lands s.board t in
    let fits : ActiveFits (some t) s.board = rw e at w.sound.fits in
    let s' : GameState = record s { active = some (dropped t d) } in
    (
      d,
      record {
        lands = lands;
        ghost = rw (
          e,
          Moves.ghost_y,
          ghost_loop-drop_loop s.board t Moves.drop_fuel 0 (omega arith),
          ends,
        );
        row = row_lem t d fits.1 lands.short;
        locks =
            fits_locks s.board (dropped t d) w.sound.board (landed-valid s.board t d fits.2 lands);
        result =
            rw (e, Locking.hard_drop, ends)
              (rw (lock_piece_lem s' (dropped t d) w.sound.board w.sound.no_full_row refl)
                (ap (λ n. ret (locked s' (dropped t d), n)) (drop_points d lands.short)));
      },
    )
