-- ===== src/Term/View/Grid.antt =====
-- crates/tetris-terminal/src/term/game_view.rs: the whole grid on the frame.
use tui_tetris.Prelude.{
  ℕ, zero, suc, ◌+◌, ◌≤◌, ◌<◌, ◌≡◌, refl, ap, ◌∙◌, true, some, List, [], ◌∷◌, length, get_or, all,
  ◌==◌, arith,
}
use tui_tetris.Term.Frame.{FrameBuffer, get_cell}
use tui_tetris.Term.Frame.Cells.{in_frame}
use tui_tetris.Term.View.{GameView, piece_from_cell, cell_look, draw_row, draw_rows}
use tui_tetris.Term.View.Cells.{
  Fits, left, top, in_cell, top-suc, draw_row-Kept, draw_row-elsewhere, draw_row-in_cell,
}

module _ (view : GameView) (sx sy : ℕ) where
  row-top : (y n : ℕ) → top view sx sy (y + suc n) ≤ 65535 → top view sx sy y ≤ 65535
  row-top y n h = grind (arith, h)

  rows-top : (y n : ℕ) → top view sx sy (y + suc n) ≤ 65535 → top view sx sy (suc y + n) ≤ 65535
  rows-top y n h = grind (arith, h)

  row-left :
      (row : List ℕ)
      → length row ≡ 10
      → left view sx sy 10 ≤ 65535
      → left view sx sy (0 + length row) ≤ 65535
  row-left row e h = grind (arith, e, h)

  -- The rows leave what is above them.
  draw_rows-above :
      (rows : List (List ℕ)) (fb : FrameBuffer) (y u v : ℕ)
      → all (λ (row : List ℕ). length row == 10) rows ≡ true
      → left view sx sy 10 ≤ 65535
      → top view sx sy (y + length rows) ≤ 65535
      → Fits fb
      → v < top view sx sy y
      → get_cell (draw_rows view fb sx sy y rows) u v ≡ get_cell fb u v
  unfolding draw_rows
  draw_rows-above [] fb y u v ten hx hy fits above = refl
  draw_rows-above (row ∷ rows) fb y u v ten hx hy fits above =
      let wide = row-left row (ground (arith, ten)) hx in
      let here = row-top y (length rows) hy in
      let k = draw_row-Kept view sx sy row fb y 0 wide here fits in
      draw_rows-above rows (draw_row view fb sx sy y 0 row) (suc y) u v (ground (arith, ten)) hx
        (rows-top y (length rows) hy) k.fits (omega (arith, above, top-suc view sx sy y))
      ∙ draw_row-elsewhere view sx sy row fb y 0 u v wide here fits (ground (arith, above))

  -- On a frame of u16 sizes, for a grid of rows of ten cells whose end fits in u16 coordinates, every
  -- position of the frame that lies in the cell of a column and a row shows, after the loops over the
  -- grid, the block in the colour of the kind of that cell, or the dot if the cell is empty.
  pub draw_rows-in_cell :
      (rows : List (List ℕ)) (fb : FrameBuffer) (y k x u v : ℕ)
      → all (λ (row : List ℕ). length row == 10) rows ≡ true
      → left view sx sy 10 ≤ 65535
      → top view sx sy (y + length rows) ≤ 65535
      → Fits fb
      → k < length rows
      → x < 10
      → in_cell view sx sy x (y + k) u v ≡ true
      → in_frame fb u v ≡ true
      → get_cell (draw_rows view fb sx sy y rows) u v
        ≡ some (cell_look (piece_from_cell (get_or (get_or rows k []) x 0)))
  unfolding draw_rows
  draw_rows-in_cell [] fb y k x u v ten hx hy fits lt lx on inside = absurd (omega arith)
  draw_rows-in_cell (row ∷ rows) fb y zero x u v ten hx hy fits lt lx on inside =
      let size : length row ≡ 10 = ground (arith, ten) in
      let wide = row-left row size hx in
      let here = row-top y (length rows) hy in
      let k = draw_row-Kept view sx sy row fb y 0 wide here fits in
      let same : in_cell view sx sy x y u v ≡ true =
        ap (λ z. in_cell view sx sy x z u v) (omega arith) ∙ on in
      let same' : in_cell view sx sy (0 + x) y u v ≡ true =
        ap (λ z. in_cell view sx sy z y u v) (omega arith) ∙ same in
      draw_rows-above rows (draw_row view fb sx sy y 0 row) (suc y) u v (ground (arith, ten)) hx
        (rows-top y (length rows) hy) k.fits (ground (arith, same, top-suc view sx sy y))
      ∙ draw_row-in_cell view sx sy row fb y 0 x u v wide here fits (omega (arith, size, lx)) same'
          inside
  draw_rows-in_cell (row ∷ rows) fb y (suc k) x u v ten hx hy fits lt lx on inside =
      let wide = row-left row (ground (arith, ten)) hx in
      let here = row-top y (length rows) hy in
      let kept = draw_row-Kept view sx sy row fb y 0 wide here fits in
      draw_rows-in_cell rows (draw_row view fb sx sy y 0 row) (suc y) k x u v (ground (arith, ten))
        hx (rows-top y (length rows) hy) kept.fits (omega arith) lx
        (ap (λ z. in_cell view sx sy x z u v) (omega arith) ∙ on)
        (ground (arith, inside, kept.width, kept.height))
