-- ===== src/Term/Frame.antt =====
-- crates/tetris-terminal/src/term/fb.rs: a grid of styled characters in one flat vector.
-- A `char` is its code point, a `u8` or `u16` a number below 256 or 65536. The vector has a cell for
-- each position (`Frame.Cells.IsFrame`), so the default of `get_or` is never read.
pub mod Cells
pub mod Text
pub mod Rect
pub mod Digits
use tui_tetris.Prelude.{ℕ, zero, suc, ◌+◌, ◌-◌, ◌*◌, ◌/◌, ◌%◌, min, Bool, true, false, ◌&&◌, ◌||◌}
use tui_tetris.Prelude.{
  Option, none, some, List, [], ◌∷◌, ◌++◌, map, length, get_or, set, take, replicate,
}
use tui_tetris.Prelude.{leb, ◌==◌, if◌then◌else◌}

pub record Rgb : Type 0 where
  pub r : ℕ
  pub g : ℕ
  pub b : ℕ

abbrev pub rgb : ℕ → ℕ → ℕ → Rgb
rgb r g b = record { r = r; g = g; b = b }

pub record CellStyle : Type 0 where
  pub fg : Rgb
  pub bg : Rgb
  pub bold : Bool
  pub dim : Bool

abbrev pub default_style : CellStyle
default_style = record { fg = rgb 220 220 220; bg = rgb 0 0 0; bold = false; dim = false }

pub record Cell : Type 0 where
  pub ch : ℕ
  pub style : CellStyle

abbrev pub default_cell : Cell
default_cell = record { ch = 32; style = default_style }

pub record FrameBuffer : Type 0 where
  pub width : ℕ
  pub height : ℕ
  pub cells : List Cell

unfoldable pub new_frame : ℕ → ℕ → FrameBuffer
new_frame width height = record {
  width = width;
  height = height;
  cells = replicate (width * height) default_cell;
}

-- `Vec::resize`: cut, or filled up with the default cell.
unfoldable pub resize : FrameBuffer → ℕ → ℕ → FrameBuffer
resize fb width height = if fb.width == width && fb.height == height then fb else record {
  width = width;
  height = height;
  cells =
      take (width * height) fb.cells ++ replicate (width * height - length fb.cells) default_cell;
}

unfoldable pub idx : FrameBuffer → ℕ → ℕ → Option ℕ
idx fb x y = if leb fb.width x || leb fb.height y then none else some (y * fb.width + x)

unfoldable pub get_cell : FrameBuffer → ℕ → ℕ → Option Cell
get_cell fb x y = elim (idx fb x y) [ none ↦ none | some i ↦ some (get_or fb.cells i default_cell) ]

unfoldable pub set_cell : FrameBuffer → ℕ → ℕ → Cell → FrameBuffer
set_cell fb x y cell = elim (idx fb x y) [
  | none ↦ fb
  | some i ↦ record fb { cells = set fb.cells i cell }
]

unfoldable pub clear_frame : FrameBuffer → Cell → FrameBuffer
clear_frame fb cell = record fb { cells = map (λ old. cell) fb.cells }

abbrev pub styled : ℕ → CellStyle → Cell
styled ch style = record { ch = ch; style = style }

unfoldable pub put_char : FrameBuffer → ℕ → ℕ → ℕ → CellStyle → FrameBuffer
put_char fb x y ch style = set_cell fb x y (styled ch style)

-- The loop of `put_str` over the cells from `i` on, of which `left` remain, and the characters.
unfoldable pub put_chars : List Cell → ℕ → ℕ → List ℕ → CellStyle → List Cell
put_chars cells i zero s style = cells
put_chars cells i (suc left) [] style = cells
put_chars cells i (suc left) (c ∷ s) style =
    put_chars (set cells i (styled c style)) (suc i) left s style

unfoldable pub put_str : FrameBuffer → ℕ → ℕ → List ℕ → CellStyle → FrameBuffer
put_str fb x y s style = elim (idx fb x y) [
  | none ↦ fb
  | some start ↦ record fb { cells = put_chars fb.cells start (fb.width - x) s style }
]

-- The loop of `put_u32` with `i` free places in the buffer; `acc` is what was written behind them.
-- Ten places are enough for a u32 (`Frame.Digits.digits-Decimal`).
unfoldable pub put_digits : ℕ → ℕ → List ℕ → List ℕ
put_digits zero v acc = acc
put_digits (suc i) v acc =
    let rest = put_digits i (v / 10) ((48 + v % 10) ∷ acc) in if v == 0 then acc else rest

unfoldable pub digits : ℕ → List ℕ
digits v = if v == 0 then 48 ∷ [] else put_digits 10 v []

unfoldable pub put_u32 : FrameBuffer → ℕ → ℕ → ℕ → CellStyle → FrameBuffer
put_u32 fb x y v style = put_str fb x y (digits v) style

abbrev pub saturating_add_u16 : ℕ → ℕ → ℕ
saturating_add_u16 a b = min (a + b) 65535

-- `slice.fill` over `n` cells.
unfoldable pub fill_run : List Cell → ℕ → ℕ → Cell → List Cell
fill_run cells i zero fill = cells
fill_run cells i (suc n) fill = fill_run (set cells i fill) (suc i) n fill

-- The loop over `n` rows from `row` on.
unfoldable pub fill_rows : List Cell → ℕ → ℕ → ℕ → ℕ → ℕ → Cell → List Cell
fill_rows cells width x end_x row zero fill = cells
fill_rows cells width x end_x row (suc n) fill =
    fill_rows (fill_run cells (row * width + x) (end_x - x) fill) width x end_x (suc row) n fill

unfoldable pub fill_rect : FrameBuffer → ℕ → ℕ → ℕ → ℕ → ℕ → CellStyle → FrameBuffer
fill_rect fb x y w h ch style =
    let end_x = min (saturating_add_u16 x w) fb.width in
    let end_y = min (saturating_add_u16 y h) fb.height in
    if leb end_x x || leb end_y y
    then fb
    else record fb { cells = fill_rows fb.cells fb.width x end_x y (end_y - y) (styled ch style) }
