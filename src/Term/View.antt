-- ===== src/Term/View.antt =====
-- crates/tetris-terminal/src/term/game_view.rs: the board cells of a snapshot on a frame. The border,
-- the pieces, the side panel and the overlays are not modelled.
-- The u16 sums of a position wrap, as in a release build.
pub mod Cells
pub mod Grid
use tui_tetris.Prelude.{
  ℕ, zero, suc, ◌+◌, ◌*◌, ◌%◌, true, false, Option, none, some, List, [], ◌∷◌, ◌==◌, if◌then◌else◌,
}
use tui_tetris.Types.{PieceKind, i_piece, o_piece, t_piece, s_piece, z_piece, j_piece, l_piece}
use tui_tetris.Term.Frame.{Rgb, rgb, CellStyle, Cell, FrameBuffer, fill_rect, styled}

-- A `GameView`, less its anchor.
pub record GameView : Type 0 where
  pub cell_w : ℕ
  pub cell_h : ℕ

abbrev pub piece_from_cell : ℕ → Option PieceKind
piece_from_cell cell =
    if cell == 1
    then some i_piece
    else if cell == 2
    then some o_piece
    else if cell == 3
    then some t_piece
    else if cell == 4
    then some s_piece
    else if cell == 5
    then some z_piece
    else if cell == 6
    then some j_piece
    else if cell == 7
    then some l_piece
    else none

abbrev pub piece_color : PieceKind → Rgb
piece_color i_piece = rgb 80 220 220
piece_color o_piece = rgb 240 220 80
piece_color t_piece = rgb 200 120 220
piece_color s_piece = rgb 100 220 120
piece_color z_piece = rgb 220 80 80
piece_color j_piece = rgb 80 120 220
piece_color l_piece = rgb 255 165 0

abbrev pub board_style : PieceKind → CellStyle
board_style kind = record { fg = piece_color kind; bg = rgb 30 30 40; bold = true; dim = false }

abbrev pub empty_style : CellStyle
empty_style = record { fg = rgb 90 90 100; bg = rgb 30 30 40; bold = false; dim = true }

-- The block and the dot.
abbrev pub full_block : ℕ
full_block = 9608

abbrev pub middle_dot : ℕ
middle_dot = 183

unfoldable pub fill_cell_rect : GameView → FrameBuffer → ℕ → ℕ → ℕ → ℕ → ℕ → CellStyle → FrameBuffer
fill_cell_rect view fb start_x start_y cell_x cell_y ch style =
    fill_rect fb ((start_x + 1 + cell_x * view.cell_w) % 65536)
      ((start_y + 1 + cell_y * view.cell_h) % 65536) view.cell_w view.cell_h ch style

abbrev pub cell_look : Option PieceKind → Cell
cell_look none = styled middle_dot empty_style
cell_look (some kind) = styled full_block (board_style kind)

-- `draw_board_cell` or `draw_empty_cell`.
abbrev pub draw_cell : GameView → FrameBuffer → ℕ → ℕ → ℕ → ℕ → ℕ → FrameBuffer
draw_cell view fb start_x start_y x y cell =
    let look = cell_look (piece_from_cell cell) in
    fill_cell_rect view fb start_x start_y x y look.ch look.style

-- The loop over the cells of a row, from column `x` on.
unfoldable pub draw_row : GameView → FrameBuffer → ℕ → ℕ → ℕ → ℕ → List ℕ → FrameBuffer
draw_row view fb start_x start_y y x [] = fb
draw_row view fb start_x start_y y x (cell ∷ cells) =
    draw_row view (draw_cell view fb start_x start_y x y cell) start_x start_y y (suc x) cells

-- The loop over the rows, from row `y` on.
unfoldable pub draw_rows : GameView → FrameBuffer → ℕ → ℕ → ℕ → List (List ℕ) → FrameBuffer
draw_rows view fb start_x start_y y [] = fb
draw_rows view fb start_x start_y y (row ∷ rows) =
    draw_rows view (draw_row view fb start_x start_y y 0 row) start_x start_y (suc y) rows
