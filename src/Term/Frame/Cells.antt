-- ===== src/Term/Frame/Cells.antt =====
-- Positions, reads and single writes.
use tui_tetris.Prelude.{ℕ, ◌+◌, ◌*◌, ◌≤◌, ◌<◌, ◌≡◌, refl, ap, ◌∙◌, inl, inr, Bool}
use tui_tetris.Prelude.{
  ◌&&◌, ◌||◌, none, some, List, length, get_or, set, get_or-set, length-set, length-replicate,
}
use tui_tetris.Prelude.{ltb, leb, ◌==◌, if◌then◌else◌, arith, Bool-cases}
use tui_tetris.Term.Frame.{FrameBuffer, Cell, default_cell, idx, get_cell, set_cell, new_frame}

abbrev pub IsFrame : FrameBuffer → Type 0
IsFrame fb = length fb.cells ≡ fb.width * fb.height

abbrev pub in_frame : FrameBuffer → ℕ → ℕ → Bool
in_frame fb x y = ltb x fb.width && ltb y fb.height

row_step : (w y v : ℕ) → y < v → y * w + w ≤ v * w
row_step w y v h = grind arith

pub index-lt : (w h x y : ℕ) → x < w → y < h → y * w + x < w * h
index-lt w h x y hx hy = grind arith

-- The `n` places from (x, y) on, which stay in the row, are those of that row's columns.
pub window :
    (w x y n u v : ℕ)
    → x + n ≤ w
    → u < w
    → (leb (y * w + x) (v * w + u) && ltb (v * w + u) (y * w + x + n))
      ≡ (v == y && (leb x u && ltb u (x + n)))
window w x y n u v hn hu = ground (arith, row_step w y v, row_step w v y)

pub place : (w x y u v : ℕ) → x < w → u < w → (y * w + x == v * w + u) ≡ (x == u && y == v)
place w x y u v hx hu = ground (arith, row_step w y v, row_step w v y)

pub get_cell_lem :
    (fb : FrameBuffer) (x y : ℕ)
    → get_cell fb x y
      ≡ (if in_frame fb x y then some (get_or fb.cells (y * fb.width + x) default_cell) else none)
unfolding get_cell idx
get_cell_lem fb x y = ground arith

pub new_frame-IsFrame : (w h : ℕ) → IsFrame (new_frame w h)
unfolding new_frame
new_frame-IsFrame w h = length-replicate (w * h) default_cell

-- `fb'` is `fb` with the cells of `area` replaced by `cell`: the sizes are those of `fb`, and every
-- read, on the frame or off it, is the new cell in the area and what it was elsewhere.
pub record Writes (fb fb' : FrameBuffer) (area : ℕ → ℕ → Bool) (cell : ℕ → ℕ → Cell) : Type 0 where
  pub frame : IsFrame fb'
  pub width : fb'.width ≡ fb.width
  pub height : fb'.height ≡ fb.height
  pub reads :
      (u v : ℕ)
      → get_cell fb' u v
        ≡ (if in_frame fb u v && area u v then some (cell u v) else get_cell fb u v)

-- A change of the cells alone, place by place, is such a change of the frame.
pub Writes-places :
    (fb : FrameBuffer) (cells : List Cell) (area : ℕ → ℕ → Bool) (cell : ℕ → ℕ → Cell)
    → IsFrame fb
    → length cells ≡ length fb.cells
    → ((u v : ℕ)
        → u < fb.width
        → v < fb.height
        → get_or cells (v * fb.width + u) default_cell
          ≡ (if area u v then cell u v else get_or fb.cells (v * fb.width + u) default_cell))
    → Writes fb (record fb { cells = cells }) area cell
Writes-places fb cells area cell valid size at = record {
  frame = size ∙ valid;
  width = refl;
  height = refl;
  reads = λ u v. elim (Bool-cases (in_frame fb u v)) [
    | inl i ↦ ground (
      arith,
      i,
      get_cell_lem fb u v,
      get_cell_lem (record fb { cells = cells }) u v,
      at u v (ground (arith, i)) (ground (arith, i)),
    )
    | inr o ↦ ground (arith, o, get_cell_lem fb u v, get_cell_lem (record fb { cells = cells }) u v)
  ];
}

-- `set_cell` changes the cell at (x, y), if that lies on the frame, and no other.
pub set_cell-Writes :
    (fb : FrameBuffer) (x y : ℕ) (c : Cell)
    → IsFrame fb
    → Writes fb (set_cell fb x y c) (λ u v. x == u && y == v) (λ u v. c)
unfolding set_cell idx
set_cell-Writes fb x y c valid = elim (Bool-cases (leb fb.width x || leb fb.height y)) [
  | inl off ↦
      rw (off, set_cell, idx)
        (record { frame = valid; width = refl; height = refl; reads = λ u v. ground (arith, off) })
  | inr on ↦
      rw (on, set_cell, idx)
        (Writes-places fb (set fb.cells (y * fb.width + x) c) (λ u v. x == u && y == v) (λ u v. c)
          valid (length-set fb.cells (y * fb.width + x) c)
          (λ u v hu hv.
            get_or-set fb.cells (y * fb.width + x) (v * fb.width + u) c default_cell
              (rw valid (index-lt fb.width fb.height x y (ground (arith, on)) (ground (arith, on))))
            ∙ ap (λ b. if b then c else get_or fb.cells (v * fb.width + u) default_cell)
                (place fb.width x y u v (ground (arith, on)) hu)))
]
