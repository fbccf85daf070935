-- ===== src/Board/Lock.antt =====
-- Writing a piece into the board: crates/tetris-core/src/core/board.rs, `lock_piece`.
use tui_tetris.Prelude.{ℕ, ◌+◌, ◌≤◌, ◌<◌, ◌≡◌, refl, ◌∙◌, Bool, true}
use tui_tetris.Prelude.{[], ◌∷◌, length, all, any, ◌==◌, ◌&&◌, some}
use tui_tetris.Prelude.{Bool-cases, inl, inr, arith, if◌then◌else◌, add_i8}
use tui_tetris.Prelude.{&&-left, &&-right}
use tui_tetris.Types.{PieceKind}
use tui_tetris.Pieces.{Offset, PieceShape}
use tui_tetris.Board
use tui_tetris.Board.{Board, IsBoard}
use tui_tetris.Board.Cells.{inside, set_cell_lem, set_cell-IsBoard, get-set_cell, get_lem}
use tui_tetris.Board.Clear.{full_rows}
use tui_tetris.Prelude.{◌%◌}
use tui_tetris.Board.Completed.{full_rows-set_cell}

-- The mino `m` of a shape at (x, y) lies on (u, v).
abbrev hits : ℕ → ℕ → ℕ → ℕ → Offset → Bool
hits x y u v m = add_i8 x m.0 == u && add_i8 y m.1 == v

-- Some mino of the shape at (x, y) lies on (u, v).
abbrev pub covers : PieceShape → ℕ → ℕ → ℕ → ℕ → Bool
covers shape x y u v = any (hits x y u v) shape

-- Every mino of the shape at (x, y) lies on the grid.
abbrev pub all_inside : PieceShape → ℕ → ℕ → Bool
all_inside shape x y = all (λ (m : Offset). inside (add_i8 x m.0) (add_i8 y m.1)) shape

pub is_valid-inside :
    (b : Board) (x y : ℕ) → x < 256 → y < 256 → Board.is_valid b x y ≡ true → inside x y ≡ true
unfolding Board.is_valid
is_valid-inside b x y hx hy h = ground (arith, get_lem b x y hx hy)

pub all_valid-inside :
    (b : Board) (shape : PieceShape) (x y : ℕ)
    → Board.all_valid b shape x y ≡ true
    → all_inside shape x y ≡ true
all_valid-inside b [] x y h = refl
all_valid-inside b (m ∷ shape) x y h = ground (
  arith,
  is_valid-inside b (add_i8 x m.0) (add_i8 y m.1) (omega arith) (omega arith),
  all_valid-inside b shape x y,
)

module _ (x y : ℕ) (kind : PieceKind) where
  -- What one write of the loop does to a mino on the grid.
  pub first_write :
      (b : Board) (m : Offset)
      → inside (add_i8 x m.0) (add_i8 y m.1) ≡ true
      → (Board.set_cell b (add_i8 x m.0) (add_i8 y m.1) (some kind)).1 ≡ true
  first_write b m i =
      rw (set_cell_lem b (add_i8 x m.0) (add_i8 y m.1) (some kind) (omega arith) (omega arith), i)

  lock_cells_lem :
      (b : Board) (m : Offset) (shape : PieceShape)
      → inside (add_i8 x m.0) (add_i8 y m.1) ≡ true
      → Board.lock_cells b (m ∷ shape) x y kind
        ≡ Board.lock_cells
            (Board.set_cell b (add_i8 x m.0) (add_i8 y m.1) (some kind)).0
            shape
            x
            y
            kind
  unfolding Board.lock_cells
  lock_cells_lem b m shape i = rw (first_write b m i)

  -- With every mino on the grid, the loop writes them all and reports so.
  pub lock_cells-true :
      (b : Board) (shape : PieceShape)
      → all_inside shape x y ≡ true
      → (Board.lock_cells b shape x y kind).1 ≡ true
  unfolding Board.lock_cells
  lock_cells-true b [] h = refl
  lock_cells-true b (m ∷ shape) h = rw (first_write b m (&&-left _ _ h)) (
      lock_cells-true (Board.set_cell b (add_i8 x m.0) (add_i8 y m.1) (some kind)).0 shape
        (&&-right _ _ h))

  lock_cells-IsBoard :
      (b : Board) (shape : PieceShape)
      → IsBoard b
      → all_inside shape x y ≡ true
      → IsBoard (Board.lock_cells b shape x y kind).0
  unfolding Board.lock_cells
  lock_cells-IsBoard b [] v h = v
  lock_cells-IsBoard b (m ∷ shape) v h = rw (first_write b m (&&-left _ _ h)) (
      lock_cells-IsBoard (Board.set_cell b (add_i8 x m.0) (add_i8 y m.1) (some kind)).0 shape
        (set_cell-IsBoard b (add_i8 x m.0) (add_i8 y m.1) (some kind) v) (&&-right _ _ h))

  get-lock_cells :
      (b : Board) (shape : PieceShape) (u v : ℕ)
      → IsBoard b
      → u < 256
      → v < 256
      → all_inside shape x y ≡ true
      → Board.get (Board.lock_cells b shape x y kind).0 u v
        ≡ (if covers shape x y u v then some (some kind) else Board.get b u v)
  unfolding Board.lock_cells
  get-lock_cells b [] u v s hu hv h = refl
  get-lock_cells b (m ∷ shape) u v s hu hv h = rw (first_write b m (&&-left _ _ h)) (
      get-lock_cells b' shape u v (set_cell-IsBoard b (add_i8 x m.0) (add_i8 y m.1) (some kind) s)
        hu hv (&&-right _ _ h)
      ∙ ground (
        arith,
        &&-left (inside (add_i8 x m.0) (add_i8 y m.1)) (all_inside shape x y) h,
        (get-set_cell b (add_i8 x m.0) (add_i8 y m.1) u v (some kind) s (omega arith) (omega arith)
            hu hv).1,
      ))
    where
      b' : Board
      b' = (Board.set_cell b (add_i8 x m.0) (add_i8 y m.1) (some kind)).0

  full_rows-lock_cells :
      (b : Board) (shape : PieceShape)
      → IsBoard b
      → all_inside shape x y ≡ true
      → length (full_rows (Board.lock_cells b shape x y kind).0)
        ≤ length (full_rows b) + length shape
  unfolding Board.lock_cells
  full_rows-lock_cells b [] v h = omega arith
  full_rows-lock_cells b (m ∷ shape) v h = rw (first_write b m (&&-left _ _ h)) (
      omega (
        arith,
        full_rows-lock_cells b' shape
            (set_cell-IsBoard b (add_i8 x m.0) (add_i8 y m.1) (some kind) v) (&&-right _ _ h),
        full_rows-set_cell b (add_i8 x m.0) (add_i8 y m.1) (some kind) v (omega arith)
            (omega arith),
      ))
    where
      b' : Board
      b' = (Board.set_cell b (add_i8 x m.0) (add_i8 y m.1) (some kind)).0

-- What a lock does: it succeeds exactly if every mino falls on a free cell of the grid; then it
-- writes the kind to the cells of the piece and to no other, and if it fails the board is as before.
-- Every i8 position is read.
pub record LockSpec (b : Board) (shape : PieceShape) (x y : ℕ) (kind : PieceKind) : Type 0 where
  pub board : IsBoard (Board.lock_piece b shape x y kind).0
  pub reported : (Board.lock_piece b shape x y kind).1 ≡ Board.all_valid b shape x y
  pub kept :
      (Board.lock_piece b shape x y kind).0
      ≡ (if Board.all_valid b shape x y then (Board.lock_cells b shape x y kind).0 else b)
  pub written :
      (u v : ℕ)
      → Board.get (Board.lock_piece b shape x y kind).0 (u % 256) (v % 256) ≡ (
          if Board.all_valid b shape x y && covers shape x y (u % 256) (v % 256)
          then some (some kind)
          else Board.get b (u % 256) (v % 256))
  pub few :
      length (full_rows (Board.lock_piece b shape x y kind).0) ≤ length (full_rows b) + length shape

-- On a board, `lock_piece` meets `LockSpec`; the written cells complete at most one row each.
pub lock_piece-LockSpec :
    (b : Board) (shape : PieceShape) (x y : ℕ) (kind : PieceKind)
    → IsBoard b
    → LockSpec b shape x y kind
unfolding Board.lock_piece
lock_piece-LockSpec b shape x y kind v = elim (Bool-cases (Board.all_valid b shape x y)) [
  | inl ok ↦
      let on_grid = all_valid-inside b shape x y ok in
      record {
        board = rw ok (lock_cells-IsBoard x y kind b shape v on_grid);
        reported = rw ok (lock_cells-true x y kind b shape on_grid);
        kept = rw ok refl;
        written = λ u w. rw ok (
            get-lock_cells x y kind b shape (u % 256) (w % 256) v (omega arith) (omega arith)
              on_grid);
        few = rw ok (full_rows-lock_cells x y kind b shape v on_grid);
      }
  | inr bad ↦ record {
    board = rw bad v;
    reported = rw bad refl;
    kept = rw bad refl;
    written = λ u w. rw bad refl;
    few = rw bad (omega arith);
  }
]
