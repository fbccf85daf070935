-- ===== src/Pieces.antt =====
-- crates/tetris-core/src/core/pieces.rs: shapes, kick tables and rotation with wall kicks.
-- Offsets and coordinates are i8 bit patterns, so `neg 1` is -1.
pub mod Kicks
use package.tui_tetris.Prelude.{ℕ, Bool, true, false, Option, none, some, List, [], ◌∷◌}
use package.tui_tetris.Prelude.{all, get_or, neg, add_i8, if◌then◌else◌}
use package.tui_tetris.Types.{
  PieceKind, i_piece, o_piece, t_piece, s_piece, z_piece, j_piece, l_piece,
}
use package.tui_tetris.Types.{Rotation, north, east, south, west, turn_cw, turn_ccw}

abbrev pub Offset : Type 0
Offset = ℕ × ℕ

-- `[MinoOffset; 4]`.
abbrev pub PieceShape : Type 0
PieceShape = List Offset

abbrev shape_of : Offset → Offset → Offset → Offset → PieceShape
shape_of a b c d = a ∷ b ∷ c ∷ d ∷ []

abbrev pub get_i_shape : Rotation → PieceShape
get_i_shape north = shape_of (0, 1) (1, 1) (2, 1) (3, 1)
get_i_shape east = shape_of (2, 0) (2, 1) (2, 2) (2, 3)
get_i_shape south = shape_of (0, 2) (1, 2) (2, 2) (3, 2)
get_i_shape west = shape_of (1, 0) (1, 1) (1, 2) (1, 3)

abbrev pub get_o_shape : Rotation → PieceShape
get_o_shape _ = shape_of (1, 0) (2, 0) (1, 1) (2, 1)

abbrev pub get_t_shape : Rotation → PieceShape
get_t_shape north = shape_of (1, 0) (0, 1) (1, 1) (2, 1)
get_t_shape east = shape_of (1, 0) (1, 1) (2, 1) (1, 2)
get_t_shape south = shape_of (0, 1) (1, 1) (2, 1) (1, 2)
get_t_shape west = shape_of (1, 0) (0, 1) (1, 1) (1, 2)

abbrev pub get_s_shape : Rotation → PieceShape
get_s_shape north = shape_of (1, 0) (2, 0) (0, 1) (1, 1)
get_s_shape east = shape_of (1, 0) (1, 1) (2, 1) (2, 2)
get_s_shape south = shape_of (1, 1) (2, 1) (0, 2) (1, 2)
get_s_shape west = shape_of (0, 0) (0, 1) (1, 1) (1, 2)

abbrev pub get_z_shape : Rotation → PieceShape
get_z_shape north = shape_of (0, 0) (1, 0) (1, 1) (2, 1)
get_z_shape east = shape_of (2, 0) (1, 1) (2, 1) (1, 2)
get_z_shape south = shape_of (0, 1) (1, 1) (1, 2) (2, 2)
get_z_shape west = shape_of (1, 0) (0, 1) (1, 1) (0, 2)

abbrev pub get_j_shape : Rotation → PieceShape
get_j_shape north = shape_of (0, 0) (0, 1) (1, 1) (2, 1)
get_j_shape east = shape_of (1, 0) (2, 0) (1, 1) (1, 2)
get_j_shape south = shape_of (0, 1) (1, 1) (2, 1) (2, 2)
get_j_shape west = shape_of (1, 0) (1, 1) (0, 2) (1, 2)

abbrev pub get_l_shape : Rotation → PieceShape
get_l_shape north = shape_of (2, 0) (0, 1) (1, 1) (2, 1)
get_l_shape east = shape_of (1, 0) (1, 1) (1, 2) (2, 2)
get_l_shape south = shape_of (0, 1) (1, 1) (2, 1) (0, 2)
get_l_shape west = shape_of (0, 0) (1, 0) (1, 1) (1, 2)

unfoldable pub get_shape : PieceKind → Rotation → PieceShape
get_shape i_piece r = get_i_shape r
get_shape o_piece r = get_o_shape r
get_shape t_piece r = get_t_shape r
get_shape s_piece r = get_s_shape r
get_shape z_piece r = get_z_shape r
get_shape j_piece r = get_j_shape r
get_shape l_piece r = get_l_shape r

abbrev kicks_of : Offset → Offset → Offset → Offset → Offset → List Offset
kicks_of a b c d e = a ∷ b ∷ c ∷ d ∷ e ∷ []

abbrev no_kick : List Offset
no_kick = kicks_of (0, 0) (0, 0) (0, 0) (0, 0) (0, 0)

abbrev pub o_kicks : List (List Offset)
o_kicks = no_kick ∷ no_kick ∷ no_kick ∷ no_kick ∷ no_kick ∷ no_kick ∷ no_kick ∷ no_kick ∷ []

abbrev pub jlstz_kicks : List (List Offset)
jlstz_kicks =
    kicks_of (0, 0) (neg 1, 0) (neg 1, 1) (0, neg 2) (neg 1, neg 2)
    ∷ kicks_of (0, 0) (1, 0) (1, 1) (0, neg 2) (1, neg 2)
    ∷ kicks_of (0, 0) (1, 0) (1, neg 1) (0, 2) (1, 2)
    ∷ kicks_of (0, 0) (1, 0) (1, neg 1) (0, 2) (1, 2)
    ∷ kicks_of (0, 0) (neg 1, 0) (neg 1, 1) (0, neg 2) (neg 1, neg 2)
    ∷ kicks_of (0, 0) (1, 0) (1, 1) (0, neg 2) (1, neg 2)
    ∷ kicks_of (0, 0) (neg 1, 0) (neg 1, neg 1) (0, 2) (neg 1, 2)
    ∷ kicks_of (0, 0) (neg 1, 0) (neg 1, neg 1) (0, 2) (neg 1, 2)
    ∷ []

abbrev pub i_kicks : List (List Offset)
i_kicks =
    kicks_of (0, 0) (neg 2, 0) (1, 0) (neg 2, neg 1) (1, 2)
    ∷ kicks_of (0, 0) (neg 1, 0) (2, 0) (neg 1, 2) (2, neg 1)
    ∷ kicks_of (0, 0) (2, 0) (neg 1, 0) (2, 1) (neg 1, neg 2)
    ∷ kicks_of (0, 0) (neg 1, 0) (2, 0) (neg 1, 2) (2, neg 1)
    ∷ kicks_of (0, 0) (1, 0) (neg 2, 0) (1, neg 2) (neg 2, 1)
    ∷ kicks_of (0, 0) (2, 0) (neg 1, 0) (2, 1) (neg 1, neg 2)
    ∷ kicks_of (0, 0) (neg 2, 0) (1, 0) (neg 2, neg 1) (1, 2)
    ∷ kicks_of (0, 0) (1, 0) (neg 2, 0) (1, neg 2) (neg 2, 1)
    ∷ []

abbrev pub get_kick_table : PieceKind → List (List Offset)
get_kick_table o_piece = o_kicks
get_kick_table i_piece = i_kicks
get_kick_table _ = jlstz_kicks

abbrev pub get_kick_index : Rotation → Bool → ℕ
get_kick_index north true = 0
get_kick_index north false = 1
get_kick_index east false = 2
get_kick_index east true = 3
get_kick_index south false = 4
get_kick_index south true = 5
get_kick_index west false = 6
get_kick_index west true = 7

-- The row of kicks of a turn. The index is at most 7 and a table has 8 rows.
unfoldable pub get_kicks : PieceKind → Rotation → Bool → List Offset
get_kicks kind from clockwise = get_or (get_kick_table kind) (get_kick_index from clockwise) []

abbrev pub turned : Rotation → Bool → Rotation
turned r clockwise = if clockwise then turn_cw r else turn_ccw r

-- Every mino of the shape at (x, y) passes the test.
abbrev pub fits : (ℕ → ℕ → Bool) → PieceShape → ℕ → ℕ → Bool
fits is_valid shape x y = all (λ (m : Offset). is_valid (add_i8 x m.0) (add_i8 y m.1)) shape

-- The loop over the kicks.
unfoldable pub first_kick : (ℕ → ℕ → Bool) → PieceShape → ℕ → ℕ → List Offset → Option Offset
first_kick is_valid shape x y [] = none
first_kick is_valid shape x y (d ∷ kicks) =
    if fits is_valid shape (add_i8 x d.0) (add_i8 y d.1)
    then some d
    else first_kick is_valid shape x y kicks

-- The new shape, the new rotation and the kick that was used.
unfoldable pub try_rotate :
    PieceKind → Rotation → ℕ → ℕ → Bool → (ℕ → ℕ → Bool) → Option (PieceShape × Rotation × Offset)
unfolding first_kick
try_rotate kind rotation x y clockwise is_valid =
    let new_rotation = turned rotation clockwise in
    let new_shape = get_shape kind new_rotation in
    elim (first_kick is_valid new_shape x y (get_kicks kind rotation clockwise)) [
      | none ↦ none
      | some d ↦ some (new_shape, new_rotation, d)
    ]
