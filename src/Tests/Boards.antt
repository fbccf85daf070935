-- ===== src/Tests/Boards.antt =====
-- Boards and pieces at concrete inputs.
use tui_tetris.Prelude.{ℕ, ◌≡◌, refl, Bool, true, false, some, none, [], ◌∷◌, ◌++◌}
use tui_tetris.Prelude.{replicate, length, ret, if◌then◌else◌, ◌↔◌, all, leb, fault, Returns, arith}
use tui_tetris.Types.{i_piece, t_piece, north, east}
use tui_tetris.Pieces
use tui_tetris.Pieces.{get_shape}
use tui_tetris.Pieces.Kicks.{IsFirstFit, try_rotate-some, try_rotate-none, blocked_at}
use tui_tetris.Board
use tui_tetris.Board.{Board, IsBoard}
use tui_tetris.Board.Clear.{full_rows, collapse, clear_full_rows_lem}
use tui_tetris.Board.Collapse.{IsCleared, clear_full_rows-IsCleared}
use tui_tetris.Board.Lock.{LockSpec, lock_piece-LockSpec}

-- A full bottom row under a row with one cell.
abbrev one_full : Board
one_full = record {
  cells = replicate 180 none ++ some t_piece ∷ replicate 9 none ++ replicate 10 (some i_piece);
}

-- The row above moved down.
abbrev fallen : Board
fallen = record { cells = replicate 190 none ++ some t_piece ∷ replicate 9 none }

clears_bottom : Board.clear_full_rows one_full ≡ ret (fallen, 19 ∷ [])
unfolding Board.clear_full_rows Board.find_full_rows Board.is_row_full Board.clear_rows
    Board.clear_row
clears_bottom = refl

clear_full_rows_lem_example : Board.clear_full_rows one_full ≡ (
    if leb (length (full_rows one_full)) 4
    then ret (collapse one_full, full_rows one_full)
    else fault)
clear_full_rows_lem_example = clear_full_rows_lem one_full refl

clear_full_rows-IsCleared_example : Returns (Board.clear_full_rows one_full) (IsCleared one_full)
unfolding tui_tetris.Board.Rows.rows
clear_full_rows-IsCleared_example = clear_full_rows-IsCleared one_full refl (omega arith)

lock_piece-LockSpec_example : LockSpec one_full (get_shape t_piece north) 3 16 t_piece
lock_piece-LockSpec_example =
    lock_piece-LockSpec one_full (get_shape t_piece north) 3 16 t_piece refl

-- Everything is free.
abbrev open_field : ℕ → ℕ → Bool
open_field x y = true

abbrev no_room : ℕ → ℕ → Bool
no_room x y = false

turns_in_place :
    Pieces.try_rotate t_piece north 3 5 true open_field
    ≡ some (get_shape t_piece east, east, (0, 0))
unfolding Pieces.try_rotate Pieces.get_kicks Pieces.first_kick Pieces.get_shape
turns_in_place = refl

try_rotate-some_example :
    (get_shape t_piece east ≡ get_shape t_piece (Pieces.turned north true))
    × (east ≡ Pieces.turned north true)
    × IsFirstFit open_field
        (get_shape t_piece (Pieces.turned north true))
        3
        5
        (Pieces.get_kicks t_piece north true)
        (0, 0)
try_rotate-some_example =
    try_rotate-some t_piece north 3 5 true open_field (get_shape t_piece east) east (0, 0)
      turns_in_place

try_rotate-none_example : (Pieces.try_rotate t_piece north 3 5 true no_room ≡ none) ↔ (
    all
      (blocked_at no_room (get_shape t_piece (Pieces.turned north true)) 3 5)
      (Pieces.get_kicks t_piece north true)
    ≡ true)
try_rotate-none_example = try_rotate-none t_piece north 3 5 true no_room
