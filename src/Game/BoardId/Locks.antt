-- ===== src/Game/BoardId/Locks.antt =====
-- crates/tetris-core/src/core/game_state.rs: the board and its id over a lock.
use tui_tetris.Prelude.{ℕ, suc, ◌+◌, ◌≤◌, ◌≡◌, refl, sym, ◌∙◌, inl, inr, Bool, true, false, ◌||◌}
use tui_tetris.Prelude.{
  List, [], ◌∷◌, length, length-append, Run, ret, fault, Allows, Allows->>=, Allows-map,
}
use tui_tetris.Prelude.{Bool-cases, Option-cases, arith, if◌then◌else◌, ltb}
use mathlib.Core.Path.{subst}
use tui_tetris.Types.{PieceKind, TSpinKind, board_height}
use tui_tetris.Pieces.{PieceShape}
use tui_tetris.Board
use tui_tetris.Board.{Board}
use tui_tetris.Board.Lock.{lock_cells-true, all_valid-inside}
use tui_tetris.Game.State
use tui_tetris.Game.State.{Tetromino, GameState}
use tui_tetris.Game.Locking
use tui_tetris.Game.BoardId.{marks, Follows, spawn_piece-marks}

pub anything {ℓ} : {A : Type ℓ} (m : Run A) → Allows m (λ r. Unit {0})
anything (ret r) = tt
anything fault = tt

-- What the second pass over no row leaves.
Cleared : Board → Board × List ℕ → Type 0
Cleared b r = length r.1 ≡ 0 → r.0 ≡ b

push_4-length : (xs : List ℕ) (x : ℕ) → Allows (Board.push_4 xs x) (λ ys. length ys ≡ length xs + 1)
push_4-length xs x = elim (Bool-cases (ltb (length xs) 4)) [
  | inl room ↦ rw room (length-append xs (x ∷ []))
  | inr full ↦ rw full tt
]

clear_rows-length :
    (ys : List ℕ) (b : Board) (cleared : List ℕ)
    → Allows (Board.clear_rows ys b cleared) (λ (r : Board × List ℕ). length cleared ≤ length r.1)
unfolding Board.clear_rows
clear_rows-length [] b cleared = omega arith
clear_rows-length (y ∷ ys) b cleared =
    Allows->>= (Board.push_4 cleared y)
      (λ cleared'. Board.clear_rows ys (Board.clear_row b y).0 cleared')
      (λ zs. length zs ≡ length cleared + 1) (λ (r : Board × List ℕ). length cleared ≤ length r.1)
      (push_4-length cleared y)
      (λ zs e.
        Allows-map (Board.clear_rows ys (Board.clear_row b y).0 zs) _ _
          (λ r le. omega (arith, e, le)) (clear_rows-length ys (Board.clear_row b y).0 zs))

clear_rows-Cleared : (ys : List ℕ) (b : Board) → Allows (Board.clear_rows ys b []) (Cleared b)
unfolding Board.clear_rows Cleared
clear_rows-Cleared [] b = λ _. refl
clear_rows-Cleared (y ∷ ys) b =
    Allows->>= (Board.push_4 [] y)
      (λ cleared'. Board.clear_rows ys (Board.clear_row b y).0 cleared')
      (λ (zs : List ℕ). length zs ≡ 1) (Cleared b) (push_4-length [] y)
      (λ zs e.
        Allows-map (Board.clear_rows ys (Board.clear_row b y).0 zs) _ _
          (λ r le none_cleared. absurd (omega (arith, e, le, none_cleared)))
          (clear_rows-length ys (Board.clear_row b y).0 zs))

-- A clear that reports no row leaves the board as it was.
clear_full_rows-Cleared : (b : Board) → Allows (Board.clear_full_rows b) (Cleared b)
unfolding Board.clear_full_rows
clear_full_rows-Cleared b =
    Allows->>= (Board.find_full_rows b board_height 0 []) (λ ys. Board.clear_rows ys b [])
      (λ ys. Unit {0}) (Cleared b) (anything (Board.find_full_rows b board_height 0 []))
      (λ ys _. clear_rows-Cleared ys b)

-- A lock that fails leaves the board as it was.
lock_piece-failed :
    (b : Board) (shape : PieceShape) (x y : ℕ) (kind : PieceKind)
    → (Board.lock_piece b shape x y kind).1 ≡ false
    → (Board.lock_piece b shape x y kind).0 ≡ b
unfolding Board.lock_piece
lock_piece-failed b shape x y kind h = elim (Bool-cases (Board.all_valid b shape x y)) [
  | inl ok ↦
      let done = lock_cells-true x y kind b shape (all_valid-inside b shape x y ok) in
      absurd (ground (arith, rw ok at h, done))
  | inr bad ↦ rw bad refl
]

apply_line_clear-marks :
    (s : GameState) (n : ℕ) (spin : TSpinKind)
    → marks (Locking.apply_line_clear s n spin).0 ≡ marks s
unfolding Locking.apply_line_clear Locking.score_clear
apply_line_clear-marks s n spin = ground arith

either_marks :
    (m : Board × ℕ) (b : Bool) (s s' : GameState)
    → marks s ≡ m
    → marks s' ≡ m
    → marks (if b then s else s') ≡ m
either_marks m true s s' e e' = e
either_marks m false s s' e e' = e'

finish_lock-marks :
    (s : GameState) (ok : Bool) (spin : TSpinKind) (b : Board) (rows : List ℕ)
    → marks (Locking.finish_lock s ok spin (b, rows))
      ≡ marks (Locking.cleared_board s ok b (length rows))
unfolding Locking.finish_lock Locking.spawn_next
finish_lock-marks s ok spin b rows =
    let scored =
      Locking.apply_line_clear (Locking.cleared_board s ok b (length rows)) (length rows) spin in
    let told = Locking.with_event scored (length rows) spin in
    let same =
      apply_line_clear-marks (Locking.cleared_board s ok b (length rows)) (length rows) spin in
    either_marks (marks (Locking.cleared_board s ok b (length rows))) told.game_over told
      (State.spawn_piece told).0 same (spawn_piece-marks told ∙ same)

module _ (b0 : Board) (id0 : ℕ) where
  abbrev pub Keeps : ℕ → GameState → Type 0
  Keeps n s = Follows n b0 id0 (marks s)

  pub same-Keeps : (n : ℕ) (s s' : GameState) → marks s' ≡ marks s → Keeps n s → Keeps n s'
  same-Keeps n s s' e k = subst (Follows n b0 id0) (sym e) k

  pub more-Keeps : (n m : ℕ) (s : GameState) → n ≤ m → Keeps n s → Keeps m s
  more-Keeps n m s h (k, le, e, same) = (k, omega arith, e, same)

  -- The board after a lock has a new id, or is as it was.
  cleared_board-Keeps :
      (n : ℕ) (s s' : GameState) (ok : Bool) (b : Board) (lines : ℕ)
      → s'.board_id ≡ s.board_id
      → (ok ≡ false → lines ≡ 0 → b ≡ s.board)
      → Keeps n s
      → Keeps (suc n) (Locking.cleared_board s' ok b lines)
  cleared_board-Keeps n s s' ok b lines e unchanged (k, le, at, same) =
      elim (Bool-cases (ok || ltb 0 lines)) [
        | inl changed ↦
            (suc k, omega arith, rw changed (omega (arith, at, e)), λ z. absurd (omega arith))
        | inr quiet ↦ (
          k,
          omega arith,
          rw quiet (e ∙ at),
          λ z. unchanged (ground (arith, quiet)) (ground (arith, quiet)) ∙ same z,
        )
      ]

  finish_lock-Keeps :
      (n : ℕ) (s : GameState) (t : Tetromino) (r : Board × List ℕ)
      → Cleared (Locking.written s t).board r
      → Keeps n s
      → Keeps (suc n) (
          Locking.finish_lock
            (Locking.written s t)
            (Board.lock_piece s.board (State.shape t) t.x t.y t.kind).1
            (Locking.spin_of s t)
            r)
  unfolding Cleared
  finish_lock-Keeps n s t (b, rows) cleared k =
      let ok = (Board.lock_piece s.board (State.shape t) t.x t.y t.kind).1 in
      subst (Follows (suc n) b0 id0)
        (sym (finish_lock-marks (Locking.written s t) ok (Locking.spin_of s t) b rows))
        (cleared_board-Keeps n s (Locking.written s t) ok b (length rows) refl
          (λ failed none_cleared.
            cleared none_cleared ∙ lock_piece-failed s.board (State.shape t) t.x t.y t.kind failed)
          k)

  pub lock_piece-Keeps :
      (n : ℕ) (s : GameState) → Keeps n s → Allows (Locking.lock_piece s) (Keeps (suc n))
  unfolding Locking.lock_piece
  lock_piece-Keeps n s k = elim (Option-cases s.active) [
    | inl e ↦ rw (e, Locking.lock_piece) (more-Keeps n (suc n) s (omega arith) k)
    | inr (t, e) ↦
        rw (e, Locking.lock_piece)
          (Allows->>= (Board.clear_full_rows (Locking.written s t).board)
            (λ cleared. ret (
              Locking.finish_lock (Locking.written s t)
                (Board.lock_piece s.board (State.shape t) t.x t.y t.kind).1 (Locking.spin_of s t)
                cleared))
            (Cleared (Locking.written s t).board) (Keeps (suc n))
            (clear_full_rows-Cleared (Locking.written s t).board)
            (λ r cleared. finish_lock-Keeps n s t r cleared k))
  ]
