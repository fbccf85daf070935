-- ===== src/Term/View/Cells.antt =====
-- crates/tetris-terminal/src/term/game_view.rs: what the loops over the board draw.
use tui_tetris.Prelude.{
  ℕ, zero, suc, ◌+◌, ◌*◌, ◌%◌, ◌≤◌, ◌<◌, ◌≡◌, refl, ap, ◌∙◌, Bool, true, false, ◌&&◌,
}
use tui_tetris.Prelude.{some, List, [], ◌∷◌, length, get_or, ltb, leb, arith}
use tui_tetris.Term.Frame.{FrameBuffer, get_cell}
use tui_tetris.Term.Frame.Cells.{IsFrame, in_frame, Writes}
use tui_tetris.Term.Frame.Rect.{fill_rect-Writes}
use tui_tetris.Term.View.{GameView, piece_from_cell, cell_look, fill_cell_rect, draw_cell, draw_row}

-- A frame of u16 sizes.
pub record Fits (fb : FrameBuffer) : Type 0 where
  pub frame : IsFrame fb
  pub width : fb.width ≤ 65535
  pub height : fb.height ≤ 65535

-- The two frames have the same sizes.
pub record Kept (fb fb' : FrameBuffer) : Type 0 where
  pub fits : Fits fb'
  pub width : fb'.width ≡ fb.width
  pub height : fb'.height ≡ fb.height

module _ (view : GameView) (sx sy : ℕ) where
  -- The left edge of a column and the top edge of a row.
  abbrev pub left : ℕ → ℕ
  left x = sx + 1 + x * view.cell_w

  abbrev pub top : ℕ → ℕ
  top y = sy + 1 + y * view.cell_h

  next-fits : (x n : ℕ) → left (x + suc n) ≤ 65535 → left (suc x + n) ≤ 65535
  next-fits x n h = grind (arith, h)

  pub here-fits : (x n : ℕ) → left (x + n) ≤ 65535 → left x ≤ 65535
  here-fits x n h = grind (arith, h)

  left-step : (x : ℕ) → left x ≤ left (suc x)
  left-step x = grind arith

  draw_cell-Writes :
      (fb : FrameBuffer) (x y cell : ℕ)
      → left x ≤ 65535
      → top y ≤ 65535
      → Fits fb
      → Writes fb
          (draw_cell view fb sx sy x y cell)
          (λ u v.
            (leb (top y) v && ltb v (top y + view.cell_h))
            && (leb (left x) u && ltb u (left x + view.cell_w)))
          (λ u v. cell_look (piece_from_cell cell))
  unfolding fill_cell_rect
  draw_cell-Writes fb x y cell hx hy fits =
      let px : left x % 65536 ≡ left x = omega (arith, hx) in
      let py : top y % 65536 ≡ top y = omega (arith, hy) in
      let look = cell_look (piece_from_cell cell) in
      rw (px, py)
        (fill_rect-Writes fb (left x) (top y) view.cell_w view.cell_h look.ch look.style fits.frame
          fits.width fits.height)

  step_Kept :
      (fb : FrameBuffer) (x y cell : ℕ)
      → left x ≤ 65535
      → top y ≤ 65535
      → Fits fb
      → Kept fb (draw_cell view fb sx sy x y cell)
  step_Kept fb x y cell hx hy fits =
      let w = draw_cell-Writes fb x y cell hx hy fits in
      record {
        fits = record {
          frame = w.frame;
          width = omega (arith, w.width, fits.width);
          height = omega (arith, w.height, fits.height);
        };
        width = w.width;
        height = w.height;
      }

  pub draw_row-Kept :
      (cells : List ℕ) (fb : FrameBuffer) (y x : ℕ)
      → left (x + length cells) ≤ 65535
      → top y ≤ 65535
      → Fits fb
      → Kept fb (draw_row view fb sx sy y x cells)
  unfolding draw_row
  draw_row-Kept [] fb y x hx hy fits = record { fits = fits; width = refl; height = refl }
  draw_row-Kept (cell ∷ cells) fb y x hx hy fits =
      let next : left (suc x + length cells) ≤ 65535 = next-fits x (length cells) hx in
      let here : left x ≤ 65535 = here-fits x (suc (length cells)) hx in
      let k = step_Kept fb x y cell here hy fits in
      let r = draw_row-Kept cells (draw_cell view fb sx sy x y cell) y (suc x) next hy k.fits in
      record { fits = r.fits; width = r.width ∙ k.width; height = r.height ∙ k.height }

  -- A row leaves what is left of it, above it and below it.
  pub draw_row-elsewhere :
      (cells : List ℕ) (fb : FrameBuffer) (y x u v : ℕ)
      → left (x + length cells) ≤ 65535
      → top y ≤ 65535
      → Fits fb
      → (leb (top y) v && (ltb v (top y + view.cell_h) && leb (left x) u)) ≡ false
      → get_cell (draw_row view fb sx sy y x cells) u v ≡ get_cell fb u v
  unfolding draw_row
  draw_row-elsewhere [] fb y x u v hx hy fits out = refl
  draw_row-elsewhere (cell ∷ cells) fb y x u v hx hy fits out =
      let next : left (suc x + length cells) ≤ 65535 = next-fits x (length cells) hx in
      let here : left x ≤ 65535 = here-fits x (suc (length cells)) hx in
      let w = draw_cell-Writes fb x y cell here hy fits in
      let k = step_Kept fb x y cell here hy fits in
      let right : left x ≤ left (suc x) = left-step x in
      draw_row-elsewhere cells (draw_cell view fb sx sy x y cell) y (suc x) u v next hy k.fits
        (ground (arith, out, right))
      ∙ w.reads u v
      ∙ ground (arith, out)

  -- The position lies in the cell of column `x` and row `y`.
  abbrev pub in_cell : ℕ → ℕ → ℕ → ℕ → Bool
  in_cell x y u v =
      (leb (top y) v && ltb v (top y + view.cell_h))
      && (leb (left x) u && ltb u (left x + view.cell_w))

  left-suc : (x : ℕ) → left (suc x) ≡ left x + view.cell_w
  left-suc x = grind arith

  pub top-suc : (y : ℕ) → top (suc y) ≡ top y + view.cell_h
  top-suc y = grind arith

  pub draw_row-in_cell :
      (cells : List ℕ) (fb : FrameBuffer) (y x k u v : ℕ)
      → left (x + length cells) ≤ 65535
      → top y ≤ 65535
      → Fits fb
      → k < length cells
      → in_cell (x + k) y u v ≡ true
      → in_frame fb u v ≡ true
      → get_cell (draw_row view fb sx sy y x cells) u v
        ≡ some (cell_look (piece_from_cell (get_or cells k 0)))
  unfolding draw_row
  draw_row-in_cell [] fb y x k u v hx hy fits lt on inside = absurd (omega arith)
  draw_row-in_cell (cell ∷ cells) fb y x zero u v hx hy fits lt on inside =
      let here = here-fits x (suc (length cells)) hx in
      let w = draw_cell-Writes fb x y cell here hy fits in
      let k = step_Kept fb x y cell here hy fits in
      let same : in_cell x y u v ≡ true = ap (λ z. in_cell z y u v) (omega arith) ∙ on in
      draw_row-elsewhere cells (draw_cell view fb sx sy x y cell) y (suc x) u v
        (next-fits x (length cells) hx) hy k.fits (ground (arith, same, left-suc x))
      ∙ w.reads u v
      ∙ rw (inside, same) refl
  draw_row-in_cell (cell ∷ cells) fb y x (suc k) u v hx hy fits lt on inside =
      let here = here-fits x (suc (length cells)) hx in
      let kept = step_Kept fb x y cell here hy fits in
      draw_row-in_cell cells (draw_cell view fb sx sy x y cell) y (suc x) k u v
        (next-fits x (length cells) hx) hy kept.fits (omega arith)
        (ap (λ z. in_cell z y u v) (omega arith) ∙ on)
        (ground (arith, inside, kept.width, kept.height))
