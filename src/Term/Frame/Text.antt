-- ===== src/Term/Frame/Text.antt =====
-- `put_str` writes the part of a text that fits the row.
use tui_tetris.Prelude.{ℕ, zero, suc, ◌+◌, ◌-◌, ◌*◌, ◌≤◌, ◌<◌, min, ◌≡◌, refl, ◌∙◌, inl, inr}
use tui_tetris.Prelude.{◌&&◌, ◌||◌, List, [], ◌∷◌, length, get_or, set, get_or-set, length-set}
use tui_tetris.Prelude.{ltb, leb, ◌==◌, if◌then◌else◌, arith, Bool-cases}
use tui_tetris.Term.Frame.{
  FrameBuffer, Cell, CellStyle, styled, default_cell, idx, put_chars, put_str,
}
use tui_tetris.Term.Frame.Cells.{IsFrame, Writes, Writes-places, window}

get_or-cons :
    (c : ℕ) (s : List ℕ) (n : ℕ) → get_or (c ∷ s) n 0 ≡ (if n == 0 then c else get_or s (n - 1) 0)
get_or-cons c s zero = refl
get_or-cons c s (suc n) = ground arith

module _ (style : CellStyle) where
  length-put_chars :
      (cells : List Cell) (i left : ℕ) (s : List ℕ)
      → length (put_chars cells i left s style) ≡ length cells
  unfolding put_chars
  length-put_chars cells i zero s = refl
  length-put_chars cells i (suc left) [] = refl
  length-put_chars cells i (suc left) (c ∷ s) =
      length-put_chars (set cells i (styled c style)) (suc i) left s
      ∙ length-set cells i (styled c style)

  get_or-put_chars :
      (cells : List Cell) (i left : ℕ) (s : List ℕ) (j : ℕ)
      → i + left ≤ length cells
      → get_or (put_chars cells i left s style) j default_cell ≡ (
          if leb i j && ltb j (i + min left (length s))
          then styled (get_or s (j - i) 0) style
          else get_or cells j default_cell)
  unfolding put_chars
  get_or-put_chars cells i zero s j h = ground arith
  get_or-put_chars cells i (suc left) [] j h = ground arith
  get_or-put_chars cells i (suc left) (c ∷ s) j h = ground (
    arith,
    get_or-cons c s (j - i),
    length-set cells i (styled c style),
    get_or-set cells i j (styled c style) default_cell,
    get_or-put_chars (set cells i (styled c style)) (suc i) left s j,
  )

-- The rest of the row lies within the cells.
fits : (w h x y : ℕ) → x < w → y < h → y * w + x + (w - x) ≤ w * h
fits w h x y hx hy = grind arith

-- On a frame, `put_str` writes, from (x, y) on in that row, one character to a cell until the text
-- or the row ends, each in the style given; all other cells stay, and off the frame it writes nothing.
pub put_str-Writes :
    (fb : FrameBuffer) (x y : ℕ) (s : List ℕ) (style : CellStyle)
    → IsFrame fb
    → Writes fb
        (put_str fb x y s style)
        (λ u v. v == y && (leb x u && ltb u (x + length s)))
        (λ u v. styled (get_or s (u - x) 0) style)
unfolding put_str idx
put_str-Writes fb x y s style valid = elim (Bool-cases (leb fb.width x || leb fb.height y)) [
  | inl off ↦
      rw (off, put_str, idx)
        (record { frame = valid; width = refl; height = refl; reads = λ u v. ground (arith, off) })
  | inr on ↦
      let hx : x < fb.width = ground (arith, on) in
      let hy : y < fb.height = ground (arith, on) in
      let start = y * fb.width + x in
      let left = fb.width - x in
      rw (on, put_str, idx)
        (Writes-places fb (put_chars fb.cells start left s style)
          (λ u v. v == y && (leb x u && ltb u (x + length s)))
          (λ u v. styled (get_or s (u - x) 0) style) valid
          (length-put_chars style fb.cells start left s)
          (λ u v hu hv. ground (
            arith,
            valid,
            get_or-put_chars style fb.cells start left s (v * fb.width + u),
            fits fb.width fb.height x y hx hy,
            window fb.width x y (min left (length s)) u v (omega arith) hu,
          )))
]
