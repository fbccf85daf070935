-- ===== src/Board/Completed.antt =====
-- How many rows one write can complete.
use tui_tetris.Prelude.{ℕ, zero, suc, ◌+◌, ◌-◌, ◌*◌, ◌≤◌, ◌<◌, ◌≡◌, ◌≢◌, refl, ap, ◌∙◌}
use tui_tetris.Prelude.{List, [], ◌∷◌, length, take, drop, set, ◌==◌}
use tui_tetris.Prelude.{Bool-cases, inl, inr, arith, if◌then◌else◌, ltb}
use tui_tetris.Prelude.{drop-set_lt, drop-set_ge, take-set_ge}
use tui_tetris.Types.{Cell}
use tui_tetris.Board
use tui_tetris.Board.{Board, IsBoard}
use tui_tetris.Board.Cells.{inside, set_cell_lem, set_cell-IsBoard}
use tui_tetris.Board.Rows.{Row, rows, length-rows}
use tui_tetris.Board.Removal.{full_at}
use tui_tetris.Board.Clear.{full_rows, SameFull, SameFull-board}

-- Rows `y` to `y + n - 1` of the board that are full.
abbrev count_full : Board → ℕ → ℕ → ℕ
count_full b y zero = 0
count_full b y (suc n) = (if Board.is_row_full b y then 1 else 0) + count_full b (suc y) n

length-full_at :
    (b : Board) (y : ℕ) (rs : List Row)
    → SameFull b y rs
    → length (full_at y rs) ≡ count_full b y (length rs)
length-full_at b y [] s = refl
length-full_at b y (r ∷ rs) s = ground (arith, s.0, length-full_at b (suc y) rs s.1)

length-full_rows : (b : Board) → IsBoard b → length (full_rows b) ≡ count_full b 0 20
length-full_rows b v =
    length-full_at b 0 (rows b) (SameFull-board b v) ∙ ap (count_full b 0) (length-rows b)

row_slice-set :
    (cells : List Cell) (x y v : ℕ) (c : Cell)
    → x < 10
    → v ≢ y
    → Board.row_slice (set cells (y * 10 + x) c) v ≡ Board.row_slice cells v
row_slice-set cells x y v c hx ne = elim (Bool-cases (ltb v y)) [
  | inl below ↦
      ap (λ z. take 10 z) (drop-set_ge (v * 10) (y * 10 + x) c cells (ground arith))
      ∙ take-set_ge 10 (y * 10 + x - v * 10) c (drop (v * 10) cells) (ground arith)
  | inr above ↦ ap (λ z. take 10 z) (drop-set_lt (v * 10) (y * 10 + x) c cells (ground arith))
]

is_row_full-set_cell :
    (b : Board) (x y v : ℕ) (c : Cell)
    → x < 256
    → y < 256
    → v ≢ y
    → Board.is_row_full (Board.set_cell b x y c).0 v ≡ Board.is_row_full b v
unfolding Board.is_row_full
is_row_full-set_cell b x y v c hx hy ne = elim (Bool-cases (inside x y)) [
  | inl i ↦ rw (set_cell_lem b x y c hx hy, i, row_slice-set b.cells x y v c (ground arith) ne)
  | inr o ↦ rw (set_cell_lem b x y c hx hy, o)
]

-- Two boards that agree on all rows but `y` have row counts at most one apart.
count_full-le :
    (b b' : Board) (y : ℕ)
    → ((v : ℕ) → v ≢ y → Board.is_row_full b' v ≡ Board.is_row_full b v)
    → (k n : ℕ) → count_full b' k n ≤ count_full b k n + (if ltb y k then 0 else 1)
count_full-le b b' y same k zero = ground arith
count_full-le b b' y same k (suc n) = elim (Bool-cases (k == y)) [
  | inl e ↦ ground (arith, count_full-le b b' y same (suc k) n)
  | inr e ↦ ground (arith, same k, count_full-le b b' y same (suc k) n)
]

-- One write makes at most one more row full.
pub full_rows-set_cell :
    (b : Board) (x y : ℕ) (c : Cell)
    → IsBoard b
    → x < 256
    → y < 256
    → length (full_rows (Board.set_cell b x y c).0) ≤ length (full_rows b) + 1
full_rows-set_cell b x y c v hx hy = ground (
  arith,
  length-full_rows b v,
  length-full_rows (Board.set_cell b x y c).0 (set_cell-IsBoard b x y c v),
  count_full-le b (Board.set_cell b x y c).0 y (λ w ne. is_row_full-set_cell b x y w c hx hy ne) 0
      20,
)
