-- ===== src/Board/Cells.antt =====
-- Reads and writes of single cells.
use tui_tetris.Prelude.{ℕ, ◌+◌, ◌*◌, ◌<◌, ◌≡◌, refl, sym, ◌∙◌, inl, inr, Bool, true, false, ◌&&◌}
use tui_tetris.Prelude.{
  Option-cases, none, some, ltb, ◌==◌, if◌then◌else◌, arith, set, get_or, length-set,
}
use tui_tetris.Prelude.{get_or-set, Bool-cases}
use tui_tetris.Types.{Cell}
use tui_tetris.Board
use tui_tetris.Board.{Board, IsBoard}

-- A position of the grid, as i8 patterns.
abbrev pub Inside : ℕ → ℕ → Type 0
Inside x y = (x < 10) × (y < 20)

abbrev pub inside : ℕ → ℕ → Bool
inside x y = ltb x 10 && ltb y 20

-- For i8 coordinates `index` has the row-major place of a position of the grid, and nothing
-- elsewhere.
pub index_lem :
    (x y : ℕ)
    → x < 256
    → y < 256
    → Board.index x y ≡ (if inside x y then some (y * 10 + x) else none)
unfolding Board.index
index_lem x y hx hy = ground arith

pub index-lt : (x y i : ℕ) → x < 256 → y < 256 → Board.index x y ≡ some i → i < 200
unfolding Board.index
index-lt x y i hx hy h = ground arith

place_inj : (x y u v : ℕ) → x < 10 → u < 10 → y * 10 + x ≡ v * 10 + u → (x ≡ u) × (y ≡ v)
place_inj x y u v hx hu e = omega arith

pub get_lem :
    (b : Board) (x y : ℕ)
    → x < 256
    → y < 256
    → Board.get b x y ≡ (if inside x y then some (get_or b.cells (y * 10 + x) none) else none)
unfolding Board.get
get_lem b x y hx hy = ground (arith, index_lem x y hx hy)

pub set_cell_lem :
    (b : Board) (x y : ℕ) (c : Cell)
    → x < 256
    → y < 256
    → Board.set_cell b x y c
      ≡ (if inside x y then (record { cells = set b.cells (y * 10 + x) c }, true) else (b, false))
unfolding Board.set_cell
set_cell_lem b x y c hx hy = ground (arith, index_lem x y hx hy)

pub set_cell-IsBoard :
    (b : Board) (x y : ℕ) (c : Cell) → IsBoard b → IsBoard (Board.set_cell b x y c).0
unfolding Board.set_cell
set_cell-IsBoard b x y c v = elim (Option-cases (Board.index x y)) [
  | inl e ↦ ground (arith, e)
  | inr (i, e) ↦ ground (arith, e, length-set b.cells i c)
]

-- On a board, for i8 coordinates, a write reports whether (x, y) lies on the grid; a read that
-- follows it gives the cell at (x, y), if that lies on the grid, and what it gave before elsewhere.
pub get-set_cell :
    (b : Board) (x y u v : ℕ) (c : Cell)
    → IsBoard b
    → x < 256
    → y < 256
    → u < 256
    → v < 256
    → ((Board.set_cell b x y c).1 ≡ inside x y)
      × (Board.get (Board.set_cell b x y c).0 u v
          ≡ (if inside x y && (x == u && y == v) then some c else Board.get b u v))
get-set_cell b x y u v c size hx hy hu hv = elim (Bool-cases (inside x y)) [
  | inl i ↦
      let at : Board.set_cell b x y c ≡ (record { cells = set b.cells (y * 10 + x) c }, true) =
        set_cell_lem b x y c hx hy ∙ rw i in
      rw at (
        sym i,
        ground (
          arith,
          get_lem (record { cells = set b.cells (y * 10 + x) c }) u v hu hv,
          get_lem b u v hu hv,
          get_or-set b.cells (y * 10 + x) (v * 10 + u) c none (ground arith),
        ),
      )
  | inr o ↦ rw (set_cell_lem b x y c hx hy, o) (refl, refl)
]
