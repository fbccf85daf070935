-- ===== src/Tests/Frames.antt =====
-- Frames and draws at concrete inputs.
use tui_tetris.Prelude.{
  ℕ, ◌+◌, ◌≡◌, refl, Bool, true, false, ◌&&◌, none, some, List, [], ◌∷◌, ltb, leb, arith,
}
use tui_tetris.Types.{t_piece}
use tui_tetris.Term.Frame.{
  FrameBuffer, new_frame, put_char, fill_rect, styled, default_style, get_cell,
}
use tui_tetris.Term.View.{GameView, cell_look, draw_rows}
use tui_tetris.Term.View.Grid.{draw_rows-in_cell}
use tui_tetris.Term.Frame.Cells.{Writes, new_frame-IsFrame}
use tui_tetris.Term.Frame.Rect.{fill_rect-Writes}
use tui_tetris.Term.Renderer.{Command, TerminalRenderer, draw_swap}
use tui_tetris.Term.Renderer.Screen.{Screen, exec}
use tui_tetris.Term.Renderer.Draws.{Shows, Agrees, draw_swap-Shown}

-- A rectangle that leaves the frame at the bottom.
fill_rect-Writes_example :
    Writes
      (new_frame 4 3)
      (fill_rect (new_frame 4 3) 1 2 2 5 35 default_style)
      (λ u v. (leb 2 v && ltb v (2 + 5)) && (leb 1 u && ltb u (1 + 2)))
      (λ u v. styled 35 default_style)
unfolding new_frame
fill_rect-Writes_example =
    fill_rect-Writes (new_frame 4 3) 1 2 2 5 35 default_style (new_frame-IsFrame 4 3) (omega arith)
      (omega arith)

abbrev blank : Screen
blank = record { cx = 0; cy = 0; chars = λ u v. 32 }

abbrev fresh : TerminalRenderer
fresh = record { last = none }

abbrev accepts : List Command → Bool
accepts commands = true

-- The first draw, of an empty frame.
abbrev renderer : TerminalRenderer
renderer = (draw_swap fresh (new_frame 3 2) accepts).renderer

abbrev screen : Screen
screen = exec (draw_swap fresh (new_frame 3 2) accepts).output blank

knows : Agrees fresh blank
knows last e = absurd (cc e)

-- The second draw, of a frame with one character.
abbrev frame : FrameBuffer
frame = put_char (new_frame 3 2) 1 1 64 default_style

draw_swap-Shown_example :
    Agrees
      (draw_swap renderer frame accepts).renderer
      (exec (draw_swap renderer frame accepts).output screen)
    × (((draw_swap renderer frame accepts).ok ≡ true
          → Shows frame (exec (draw_swap renderer frame accepts).output screen))
        × ((draw_swap renderer frame accepts).ok ≡ false
            → (draw_swap renderer frame accepts).renderer.last ≡ none))
draw_swap-Shown_example =
    draw_swap-Shown renderer frame accepts screen
      (draw_swap-Shown fresh (new_frame 3 2) accepts blank knows).0

-- A T in the third column of the first row, at twice the width.
abbrev t_board : List (List ℕ)
t_board = (0 ∷ 0 ∷ 3 ∷ 0 ∷ 0 ∷ 0 ∷ 0 ∷ 0 ∷ 0 ∷ 0 ∷ []) ∷ []

abbrev view : GameView
view = record { cell_w = 2; cell_h = 1 }

draw_rows-in_cell_example :
    get_cell (draw_rows view (new_frame 24 4) 1 0 0 t_board) 7 1 ≡ some (cell_look (some t_piece))
unfolding new_frame
draw_rows-in_cell_example =
    draw_rows-in_cell view 1 0 t_board (new_frame 24 4) 0 0 2 7 1 refl (omega arith) (omega arith)
      (record { frame = new_frame-IsFrame 24 4; width = omega arith; height = omega arith })
      (omega arith) (omega arith) refl refl
