-- ===== src/Board.antt =====
-- crates/tetris-core/src/core/board.rs: the grid of 10 x 20 cells in one flat array.
-- The array has 200 cells by its Rust type (`IsBoard`) and every index that the code computes is
-- below 200 (`Board.Cells.index-lt`), so the default of `get_or` is never read.
pub mod Cells
pub mod Rows
pub mod Removal
pub mod Clear
pub mod Collapse
pub mod Completed
pub mod Lock
pub mod Filled
use package.tui_tetris.Prelude.{
  ℕ, zero, suc, ◌+◌, ◌*◌, ◌≡◌, Bool, true, false, ◌||◌, Option, none, some,
}
use package.tui_tetris.Prelude.{
  List, [], ◌∷◌, ◌++◌, length, get_or, set, take, drop, replicate, all,
}
use package.tui_tetris.Prelude.{Run, ret, fault, ◌>>=◌, ltb, leb, ltb_i8, leb_i8, add_i8}
use package.tui_tetris.Prelude.{if◌then◌else◌}
use package.tui_tetris.Types.{
  PieceKind, i_piece, o_piece, t_piece, s_piece, z_piece, j_piece, l_piece,
}
use package.tui_tetris.Types.{Cell, board_width, board_height}
use package.tui_tetris.Pieces.{Offset, PieceShape}

abbrev pub board_size : ℕ
board_size = 200

pub record Board : Type 0 where
  pub cells : List Cell

abbrev pub IsBoard : Board → Type 0
IsBoard b = length b.cells ≡ board_size

abbrev pub new : Board
new = record { cells = replicate board_size none }

abbrev pub is_out_of_bounds : ℕ → ℕ → Bool
is_out_of_bounds x y = ltb_i8 x 0 || leb_i8 board_width x || ltb_i8 y 0 || leb_i8 board_height y

-- `Board::index`: its guard is the test of `is_out_of_bounds`.
unfoldable pub index : ℕ → ℕ → Option ℕ
index x y =
    if ltb_i8 x 0 || leb_i8 board_width x || ltb_i8 y 0 || leb_i8 board_height y
    then none
    else some (y * board_width + x)

unfoldable pub get : Board → ℕ → ℕ → Option Cell
get b x y = elim (index x y) [ none ↦ none | some idx ↦ some (get_or b.cells idx none) ]

unfoldable pub set_cell : Board → ℕ → ℕ → Cell → Board × Bool
set_cell b x y cell = elim (index x y) [
  | some idx ↦ (record { cells = set b.cells idx cell }, true)
  | none ↦ (b, false)
]

-- `matches!(self.get(x, y), Some(None))` and `Some(Some(_))`.
abbrev holds_none : Option Cell → Bool
holds_none (some none) = true
holds_none _ = false

abbrev holds_some : Option Cell → Bool
holds_some (some (some _)) = true
holds_some _ = false

unfoldable pub is_valid : Board → ℕ → ℕ → Bool
is_valid b x y = holds_none (get b x y)

unfoldable pub is_occupied : Board → ℕ → ℕ → Bool
is_occupied b x y = holds_some (get b x y)

abbrev pub is_some : Cell → Bool
is_some none = false
is_some (some _) = true

-- The slice `self.cells[start..end]` of row `y`.
abbrev pub row_slice : List Cell → ℕ → List Cell
row_slice cells y = take board_width (drop (y * board_width) cells)

unfoldable pub is_row_full : Board → ℕ → Bool
is_row_full b y = if leb board_height y then false else all is_some (row_slice b.cells y)

-- `copy_within(0..start, dest)`; in `clear_row` both ranges lie within the array.
abbrev pub copy_within : ℕ → ℕ → List Cell → List Cell
copy_within start dest cells = take dest cells ++ take start cells ++ drop (dest + start) cells

-- The loop that writes `None` to the first cells.
abbrev pub clear_first : ℕ → List Cell → List Cell
clear_first zero cells = cells
clear_first (suc n) [] = []
clear_first (suc n) (c ∷ cells) = none ∷ clear_first n cells

unfoldable pub clear_row : Board → ℕ → Board × ℕ
clear_row b y = if leb board_height y then (b, 0) else (
  record { cells = clear_first board_width (copy_within (y * board_width) board_width b.cells) },
  1,
)

-- `ArrayVec<usize, 4>::push`, which panics when the vector is full.
abbrev pub push_4 : List ℕ → ℕ → Run (List ℕ)
push_4 xs x = if ltb (length xs) 4 then ret (xs ++ x ∷ []) else fault

-- The first pass, from row `y` with `left` rows to go.
unfoldable pub find_full_rows : Board → ℕ → ℕ → List ℕ → Run (List ℕ)
find_full_rows b zero y full_rows = ret full_rows
find_full_rows b (suc left) y full_rows =
    (if is_row_full b y then push_4 full_rows y else ret full_rows)
    >>= find_full_rows b left (suc y)

-- The second pass.
unfoldable pub clear_rows : List ℕ → Board → List ℕ → Run (Board × List ℕ)
clear_rows [] b cleared = ret (b, cleared)
clear_rows (y ∷ ys) b cleared =
    push_4 cleared y >>= λ cleared'. clear_rows ys (clear_row b y).0 cleared'

unfoldable pub clear_full_rows : Board → Run (Board × List ℕ)
clear_full_rows b = find_full_rows b board_height 0 [] >>= λ full_rows. clear_rows full_rows b []

-- The test of the first loop of `lock_piece`.
abbrev pub all_valid : Board → PieceShape → ℕ → ℕ → Bool
all_valid b shape x y = all (λ (m : Offset). is_valid b (add_i8 x m.0) (add_i8 y m.1)) shape

-- Its second loop.
unfoldable pub lock_cells : Board → PieceShape → ℕ → ℕ → PieceKind → Board × Bool
lock_cells b [] x y kind = (b, true)
lock_cells b (m ∷ shape) x y kind =
    let (b', success) = set_cell b (add_i8 x m.0) (add_i8 y m.1) (some kind) in
    let rest = lock_cells b' shape x y kind in if success then rest else (b', false)

unfoldable pub lock_piece : Board → PieceShape → ℕ → ℕ → PieceKind → Board × Bool
lock_piece b shape x y kind =
    if all_valid b shape x y then lock_cells b shape x y kind else (b, false)

abbrev pub cell_code : Cell → ℕ
cell_code none = 0
cell_code (some i_piece) = 1
cell_code (some o_piece) = 2
cell_code (some t_piece) = 3
cell_code (some s_piece) = 4
cell_code (some z_piece) = 5
cell_code (some j_piece) = 6
cell_code (some l_piece) = 7

abbrev codes_of : List Cell → List ℕ
codes_of [] = []
codes_of (c ∷ cs) = cell_code c ∷ codes_of cs

-- The rows of the grid from row `y`, `left` of them.
abbrev grid_rows : List Cell → ℕ → ℕ → List (List ℕ)
grid_rows cells zero y = []
grid_rows cells (suc left) y = codes_of (row_slice cells y) ∷ grid_rows cells left (suc y)

unfoldable pub write_u8_grid : Board → List (List ℕ)
write_u8_grid b = grid_rows b.cells board_height 0

-- The loop of `Board::clear` writes `None` to every cell.
unfoldable pub clear : Board → Board
clear b = record { cells = clear_first (length b.cells) b.cells }
