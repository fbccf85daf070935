-- ===== src/Term/Frame/Rect.antt =====
-- `fill_rect` fills the part of a rectangle that lies on the frame.
use tui_tetris.Prelude.{ℕ, zero, suc, ◌+◌, ◌-◌, ◌*◌, ◌≤◌, ◌<◌, min, ◌≡◌, refl, ap, ◌∙◌, inl, inr}
use tui_tetris.Prelude.{◌&&◌, ◌||◌, List, length, get_or, set, get_or-set, length-set}
use tui_tetris.Prelude.{ltb, leb, ◌==◌, if◌then◌else◌, arith, Bool-cases}
use tui_tetris.Term.Frame.{
  FrameBuffer, Cell, CellStyle, styled, default_cell, fill_run, fill_rows, fill_rect,
}
use tui_tetris.Term.Frame.Cells.{IsFrame, Writes, Writes-places, window}

length-fill_run :
    (cells : List Cell) (i n : ℕ) (c : Cell) → length (fill_run cells i n c) ≡ length cells
unfolding fill_run
length-fill_run cells i zero c = refl
length-fill_run cells i (suc n) c =
    length-fill_run (set cells i c) (suc i) n c ∙ length-set cells i c

get_or-fill_run :
    (cells : List Cell) (i n : ℕ) (c : Cell) (j : ℕ)
    → i + n ≤ length cells
    → get_or (fill_run cells i n c) j default_cell
      ≡ (if leb i j && ltb j (i + n) then c else get_or cells j default_cell)
unfolding fill_run
get_or-fill_run cells i zero c j h = ground arith
get_or-fill_run cells i (suc n) c j h = ground (
  arith,
  length-set cells i c,
  get_or-set cells i j c default_cell,
  get_or-fill_run (set cells i c) (suc i) n c j,
)

-- A run of a row lies within the cells.
run_fits : (w h x n row : ℕ) → x + n ≤ w → row < h → row * w + x + n ≤ w * h
run_fits w h x n row hx hr = grind arith

module _ (w h x n : ℕ) (c : Cell) (fits : x + n ≤ w) where
  length-fill_rows :
      (cells : List Cell) (row k : ℕ) → length (fill_rows cells w x (x + n) row k c) ≡ length cells
  unfolding fill_rows
  length-fill_rows cells row zero = refl
  length-fill_rows cells row (suc k) =
      length-fill_rows (fill_run cells (row * w + x) (x + n - x) c) (suc row) k
      ∙ length-fill_run cells (row * w + x) (x + n - x) c

  get_or-fill_rows :
      (cells : List Cell) (row k u v : ℕ)
      → length cells ≡ w * h
      → row + k ≤ h
      → u < w
      → get_or (fill_rows cells w x (x + n) row k c) (v * w + u) default_cell ≡ (
          if (leb row v && ltb v (row + k)) && (leb x u && ltb u (x + n))
          then c
          else get_or cells (v * w + u) default_cell)
  unfolding fill_rows
  get_or-fill_rows cells row zero u v size hr hu = ground arith
  get_or-fill_rows cells row (suc k) u v size hr hu =
      let m = x + n - x in
      let filled = fill_run cells (row * w + x) m c in
      let same : length filled ≡ w * h = length-fill_run cells (row * w + x) m c ∙ size in
      let first : get_or filled (v * w + u) default_cell ≡ (
          if v == row && (leb x u && ltb u (x + m))
          then c
          else get_or cells (v * w + u) default_cell) =
        get_or-fill_run cells (row * w + x) m c (v * w + u)
          (rw size (run_fits w h x m row (omega arith) (omega arith)))
        ∙ ap (λ b. if b then c else get_or cells (v * w + u) default_cell)
            (window w x row m u v (omega arith) hu) in
      get_or-fill_rows filled (suc row) k u v same (omega arith) hu ∙ ground (arith, first)

-- On a frame of u16 sizes, for any rectangle, `fill_rect` fills the cells of the frame that lie in
-- it with the character in the style given; all other cells stay.
pub fill_rect-Writes :
    (fb : FrameBuffer) (x y w h ch : ℕ) (style : CellStyle)
    → IsFrame fb
    → fb.width ≤ 65535
    → fb.height ≤ 65535
    → Writes fb
        (fill_rect fb x y w h ch style)
        (λ u v. (leb y v && ltb v (y + h)) && (leb x u && ltb u (x + w)))
        (λ u v. styled ch style)
unfolding fill_rect
fill_rect-Writes fb x y w h ch style valid small_w small_h =
    let end_x = min (min (x + w) 65535) fb.width in
    let end_y = min (min (y + h) 65535) fb.height in
    elim (Bool-cases (leb end_x x || leb end_y y)) [
      | inl off ↦
          rw (off, fill_rect)
            (record {
              frame = valid;
              width = refl;
              height = refl;
              reads = λ u v. ground (arith, off);
            })
      | inr on ↦
          let hx : x < end_x = ground (arith, on) in
          let hy : y < end_y = ground (arith, on) in
          let n = end_x - x in
          let k = end_y - y in
          let width : x + n ≡ end_x = omega arith in
          let filled = fill_rows fb.cells fb.width x (x + n) y k (styled ch style) in
          let fits : x + n ≤ fb.width = omega arith in
          rw (on, fill_rect)
            (rw (← width) (
              Writes-places fb filled
                (λ u v. (leb y v && ltb v (y + h)) && (leb x u && ltb u (x + w)))
                (λ u v. styled ch style) valid
                (length-fill_rows fb.width fb.height x n (styled ch style) fits fb.cells y k)
                (λ u v hu hv.
                  get_or-fill_rows fb.width fb.height x n (styled ch style) fits fb.cells y k u v
                    valid (omega arith) hu
                  ∙ ground arith)))
    ]
