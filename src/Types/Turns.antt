-- ===== src/Types/Turns.antt =====
-- The turns of a piece.
use tui_tetris.Prelude.{◌≡◌, refl}
use tui_tetris.Types.{Rotation, north, east, south, west, turn_cw, turn_ccw}

-- The two turns undo one another, and four turns clockwise are none.
pub turns_inverse :
    (r : Rotation)
    → (turn_ccw (turn_cw r) ≡ r)
      × (turn_cw (turn_ccw r) ≡ r)
      × (turn_cw (turn_cw (turn_cw (turn_cw r))) ≡ r)
turns_inverse north = (refl, refl, refl)
turns_inverse east = (refl, refl, refl)
turns_inverse south = (refl, refl, refl)
turns_inverse west = (refl, refl, refl)
