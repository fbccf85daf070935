-- ===== src/Game/Invariant/Locks.antt =====
-- Locking never panics and keeps the invariant.
use tui_tetris.Prelude.{ℕ, ◌≡◌, refl, ap, ◌∙◌, inl, inr, Bool, true, false}
use tui_tetris.Prelude.{none, some, List, [], length, arith, if◌then◌else◌, Bool-cases, ◌==◌}
use tui_tetris.Prelude.{Option-cases, ret, Returns}
use tui_tetris.Types.{TSpinKind}
use tui_tetris.Board
use tui_tetris.Board.{Board, IsBoard}
use tui_tetris.Board.Lock.{lock_piece-LockSpec}
use tui_tetris.Board.Clear.{full_rows, collapse, clear_full_rows_lem}
use tui_tetris.Board.Collapse.{collapse-IsBoard, full_rows-collapse}
use tui_tetris.Scoring
use tui_tetris.Game.State
use tui_tetris.Game.State.{Tetromino, GameState, shape, piece_is_valid}
use tui_tetris.Game.Locking
use tui_tetris.Game.Drop.{length-get_shape, drop_distance-Lands}
use tui_tetris.Game.Invariant.{IsSound, IsWellFormed}
use tui_tetris.Game.Invariant.Spawns.{spawn_piece-IsWellFormed}

-- A lock on a board with no full row fills at most four, so the clear does not panic.
pub clear_written :
    (b : Board) (t : Tetromino)
    → IsBoard b
    → full_rows b ≡ []
    → let b' = (Board.lock_piece b (shape t) t.x t.y t.kind).0 in
      Board.clear_full_rows b' ≡ ret (collapse b', full_rows b')
clear_written b t v e =
    let spec = lock_piece-LockSpec b (shape t) t.x t.y t.kind v in
    let b' = (Board.lock_piece b (shape t) t.x t.y t.kind).0 in
    let none_before : length (full_rows b) ≡ 0 = ap length e in
    clear_full_rows_lem b' spec.board
    ∙ ground (arith, spec.few, none_before, length-get_shape t.kind t.rotation)

apply_line_clear-IsSound :
    (s : GameState) (n : ℕ) (spin : TSpinKind)
    → IsSound s
    → IsSound (Locking.apply_line_clear s n spin).0
unfolding Locking.apply_line_clear Locking.score_clear
apply_line_clear-IsSound s n spin i = elim (Bool-cases (n == 0)) [
  | inl e ↦ rw e i
  | inr e ↦ rw e (record {
    board = i.board;
    no_full_row = i.no_full_row;
    queue = i.queue;
    preview = i.preview;
    fits = i.fits;
    by_lines = refl;
    resets_capped = i.resets_capped;
    timer_capped = i.timer_capped;
    delay_off = i.delay_off;
  })
]

either_IsWellFormed :
    (b : Bool) (s s' : GameState)
    → (b ≡ true → IsWellFormed s)
    → IsWellFormed s'
    → IsWellFormed (if b then s else s')
either_IsWellFormed true s s' h k = h refl
either_IsWellFormed false s s' h k = k

spawn_next-IsWellFormed : (s : GameState) → IsSound s → IsWellFormed (Locking.spawn_next s)
unfolding Locking.spawn_next
spawn_next-IsWellFormed s i =
    either_IsWellFormed s.game_over s (State.spawn_piece s).0
      (λ over. record { sound = i; playing = λ st go e. cc }) (spawn_piece-IsWellFormed s i)

-- The end of a lock, over a cleared board.
pub finish_lock-IsWellFormed :
    (s : GameState) (ok : Bool) (spin : TSpinKind) (b : Board) (rows : List ℕ)
    → IsSound (record s { board = b })
    → IsWellFormed (Locking.finish_lock s ok spin (b, rows))
unfolding Locking.finish_lock
finish_lock-IsWellFormed s ok spin b rows i =
    spawn_next-IsWellFormed
      (Locking.with_event
        (Locking.apply_line_clear (Locking.cleared_board s ok b (length rows)) (length rows) spin)
        (length rows) spin)
      (apply_line_clear-IsSound (Locking.cleared_board s ok b (length rows)) (length rows) spin i)

-- What a lock needs of the state: all but the place of the active piece.
abbrev pub IsSoundBelow : GameState → Type 0
IsSoundBelow s = IsSound (record s { active = none })

pub IsSound-below : (s : GameState) → IsSound s → IsSoundBelow s
IsSound-below s i = record {
  board = i.board;
  no_full_row = i.no_full_row;
  queue = i.queue;
  preview = i.preview;
  fits = tt;
  by_lines = i.by_lines;
  resets_capped = i.resets_capped;
  timer_capped = i.timer_capped;
  delay_off = tt;
}

-- The written and cleared board, with no active piece.
written-IsSound :
    (s : GameState) (t : Tetromino)
    → IsSoundBelow s
    → IsSound (record (Locking.written s t) { board = collapse (Locking.written s t).board })
written-IsSound s t i =
    let spec = lock_piece-LockSpec s.board (shape t) t.x t.y t.kind i.board in
    let b' = (Locking.written s t).board in
    record {
      board = collapse-IsBoard b' spec.board;
      no_full_row = full_rows-collapse b' spec.board;
      queue = i.queue;
      preview = i.preview;
      fits = tt;
      by_lines = i.by_lines;
      resets_capped = i.resets_capped;
      timer_capped = i.timer_capped;
      delay_off = tt;
    }

-- The state that a lock of the piece `t` leaves.
pub locked : GameState → Tetromino → GameState
locked s t =
    let b' = (Locking.written s t).board in
    Locking.finish_lock (Locking.written s t) (Board.lock_piece s.board (shape t) t.x t.y t.kind).1
      (Locking.spin_of s t) (collapse b', full_rows b')

-- On a sound state with an active piece `lock_piece` does not panic.
pub lock_piece_lem :
    (s : GameState) (t : Tetromino)
    → IsBoard s.board
    → full_rows s.board ≡ []
    → s.active ≡ some t
    → Locking.lock_piece s ≡ ret (locked s t)
unfolding Locking.lock_piece locked
lock_piece_lem s t v n e = rw (e, Locking.lock_piece, clear_written s.board t v n)

pub locked-IsWellFormed :
    (s : GameState) (t : Tetromino) → IsSoundBelow s → IsWellFormed (locked s t)
unfolding locked
locked-IsWellFormed s t i =
    let b' = (Locking.written s t).board in
    finish_lock-IsWellFormed (Locking.written s t)
      (Board.lock_piece s.board (shape t) t.x t.y t.kind).1 (Locking.spin_of s t) (collapse b')
      (full_rows b') (written-IsSound s t i)

-- In a well-formed game `lock_piece` does not panic and leaves a well-formed game.
pub lock_piece-IsWellFormed :
    (s : GameState) → IsWellFormed s → Returns (Locking.lock_piece s) IsWellFormed
unfolding Locking.lock_piece
lock_piece-IsWellFormed s w = elim (Option-cases s.active) [
  | inl e ↦ rw (e, Locking.lock_piece) (s, refl, w)
  | inr (t, e) ↦ (
    locked s t,
    lock_piece_lem s t w.sound.board w.sound.no_full_row e,
    locked-IsWellFormed s t (IsSound-below s w.sound),
  )
]

-- In a well-formed game `hard_drop` neither panics nor runs for ever, and leaves a well-formed
-- game.
pub hard_drop-IsWellFormed :
    (s : GameState)
    → IsWellFormed s
    → Returns (Locking.hard_drop s) (λ (r : GameState × ℕ). IsWellFormed r.0)
unfolding Locking.hard_drop
hard_drop-IsWellFormed s w = elim (Option-cases s.active) [
  | inl e ↦ rw (e, Locking.hard_drop) ((s, 0), refl, w)
  | inr (t, e) ↦
      let (d, ends, lands) = drop_distance-Lands s.board t in
      let s' : GameState = record s { active = some (Locking.dropped t d) } in
      rw (e, Locking.hard_drop, ends)
        (rw (lock_piece_lem s' (Locking.dropped t d) w.sound.board w.sound.no_full_row refl) (
          (locked s' (Locking.dropped t d), Scoring.calculate_drop_score d true),
          refl,
          locked-IsWellFormed s' (Locking.dropped t d) (IsSound-below s w.sound),
        ))
]
