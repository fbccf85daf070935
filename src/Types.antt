-- ===== src/Types.antt =====
-- crates/tetris-core/src/types.rs: the shared data types, the constants, and the text forms of
-- kinds, rotations and actions. A text is the list of its bytes.
pub mod Turns
pub mod Parse
use package.tui_tetris.Prelude.{ℕ, ◌+◌, ◌≤◌, Bool, true, false, ◌&&◌, Option, none, some}
use package.tui_tetris.Prelude.{List, [], ◌∷◌, map, leb, ltb, ◌==◌, if◌then◌else◌, ◌||◌}
use Prim.Native.String.{String}
use Prim.Native.Char.{code}

pub data PieceKind : Type 0 where
  i_piece o_piece t_piece s_piece z_piece j_piece l_piece : PieceKind

pub data Rotation : Type 0 where
  north east south west : Rotation

pub data GameAction : Type 0 where
  move_left move_right soft_drop hard_drop rotate_cw rotate_ccw hold pause restart : GameAction

-- `Rotation::rotate_cw` and `Rotation::rotate_ccw`.
abbrev pub turn_cw : Rotation → Rotation
turn_cw north = east
turn_cw east = south
turn_cw south = west
turn_cw west = north

abbrev pub turn_ccw : Rotation → Rotation
turn_ccw north = west
turn_ccw west = south
turn_ccw south = east
turn_ccw east = north

pub data TSpinKind : Type 0 where
  no_spin mini full : TSpinKind

-- u32 and i32 fields as bit patterns.
pub record CoreLastEvent : Type 0 where
  pub locked : Bool
  pub lines_cleared : ℕ
  pub line_clear_score : ℕ
  pub tspin : Option TSpinKind
  pub combo : ℕ
  pub back_to_back : Bool

abbrev pub Cell : Type 0
Cell = Option PieceKind

abbrev pub board_width : ℕ
board_width = 10

abbrev pub board_height : ℕ
board_height = 20

abbrev pub tick_ms : ℕ
tick_ms = 16

abbrev pub soft_drop_multiplier : ℕ
soft_drop_multiplier = 10

abbrev pub soft_drop_grace_ms : ℕ
soft_drop_grace_ms = 150

abbrev pub default_das_ms : ℕ
default_das_ms = 150

abbrev pub default_arr_ms : ℕ
default_arr_ms = 50

abbrev pub soft_drop_arr_ms : ℕ
soft_drop_arr_ms = 50

abbrev pub lock_delay_ms : ℕ
lock_delay_ms = 450

abbrev pub lock_reset_limit : ℕ
lock_reset_limit = 15

abbrev pub line_clear_pause_ms : ℕ
line_clear_pause_ms = 180

abbrev pub landing_flash_ms : ℕ
landing_flash_ms = 120

abbrev pub line_scores : List ℕ
line_scores = 0 ∷ 40 ∷ 100 ∷ 300 ∷ 1200 ∷ []

abbrev pub combo_base : ℕ
combo_base = 50

abbrev pub b2b_numerator : ℕ
b2b_numerator = 3

abbrev pub b2b_denominator : ℕ
b2b_denominator = 2

-- The bytes of an ASCII text.
abbrev pub codes : String → List ℕ
codes String.[] = []
codes (String.◌∷◌ c s) = code c ∷ codes s

unfoldable pub kind_as_str : PieceKind → List ℕ
kind_as_str i_piece = codes "i"
kind_as_str o_piece = codes "o"
kind_as_str t_piece = codes "t"
kind_as_str s_piece = codes "s"
kind_as_str z_piece = codes "z"
kind_as_str j_piece = codes "j"
kind_as_str l_piece = codes "l"

unfoldable pub rotation_as_str : Rotation → List ℕ
rotation_as_str north = codes "north"
rotation_as_str east = codes "east"
rotation_as_str south = codes "south"
rotation_as_str west = codes "west"

unfoldable pub action_as_str : GameAction → List ℕ
action_as_str move_left = codes "moveLeft"
action_as_str move_right = codes "moveRight"
action_as_str soft_drop = codes "softDrop"
action_as_str hard_drop = codes "hardDrop"
action_as_str rotate_cw = codes "rotateCw"
action_as_str rotate_ccw = codes "rotateCcw"
action_as_str hold = codes "hold"
action_as_str pause = codes "pause"
action_as_str restart = codes "restart"

unfoldable pub tspin_as_str : TSpinKind → Option (List ℕ)
tspin_as_str no_spin = none
tspin_as_str mini = some (codes "mini")
tspin_as_str full = some (codes "full")

-- `str::eq_ignore_ascii_case`: the bytes agree after `to_ascii_lowercase`.
abbrev pub to_ascii_lowercase : ℕ → ℕ
to_ascii_lowercase c = if leb b'A' c && leb c b'Z' then c + 32 else c

abbrev pub bytes_eq : List ℕ → List ℕ → Bool
bytes_eq [] [] = true
bytes_eq (x ∷ xs) (y ∷ ys) = x == y && bytes_eq xs ys
bytes_eq _ _ = false

abbrev pub eq_ignore_ascii_case : List ℕ → List ℕ → Bool
eq_ignore_ascii_case s t = bytes_eq (map to_ascii_lowercase s) (map to_ascii_lowercase t)

-- `Iterator::find`.
abbrev pub find {ℓ} : {A : Type ℓ} → (A → Bool) → List A → Option A
find p [] = none
find p (x ∷ xs) = if p x then some x else find p xs

-- The seven kinds in the order of their declaration.
abbrev pub kinds : List PieceKind
kinds = i_piece ∷ o_piece ∷ t_piece ∷ s_piece ∷ z_piece ∷ j_piece ∷ l_piece ∷ []

abbrev pub actions : List GameAction
actions =
    move_left ∷ move_right ∷ soft_drop ∷ hard_drop ∷ rotate_cw ∷ rotate_ccw ∷ hold ∷ pause ∷ restart
    ∷ []

unfoldable pub kind_from_str : List ℕ → Option PieceKind
kind_from_str s = find (λ kind. eq_ignore_ascii_case s (kind_as_str kind)) kinds

unfoldable pub action_from_str : List ℕ → Option GameAction
action_from_str s = find (λ action. eq_ignore_ascii_case s (action_as_str action)) actions

unfoldable pub rotation_from_str : List ℕ → Option Rotation
rotation_from_str s =
    if eq_ignore_ascii_case s (codes "north") || eq_ignore_ascii_case s (codes "n")
    then some north
    else if eq_ignore_ascii_case s (codes "east") || eq_ignore_ascii_case s (codes "e")
    then some east
    else if eq_ignore_ascii_case s (codes "south") || eq_ignore_ascii_case s (codes "s")
    then some south
    else if eq_ignore_ascii_case s (codes "west") || eq_ignore_ascii_case s (codes "w")
    then some west
    else none
