-- ===== src/Input.antt =====
-- crates/tetris-terminal/src/input: keys to actions. `map.rs` is modelled here, the repeat handler
-- of `handler.rs` in Input/Handler.
-- A `KeyCode` is one of crossterm's that the program tests; `other` stands for the others.
pub mod Handler
pub mod Keys
use tui_tetris.Prelude.{
  ℕ, ◌-◌, Bool, true, false, ◌&&◌, ◌||◌, Option, none, some, List, [], ◌∷◌, any, ◌==◌,
  if◌then◌else◌,
}
use tui_tetris.Types.{
  GameAction, move_left, move_right, soft_drop, hard_drop, rotate_cw, rotate_ccw, hold, pause,
  restart,
}

pub data KeyCode : Type 0 where
  left right up down other : KeyCode
  char : ℕ → KeyCode

pub record KeyEvent : Type 0 where
  pub code : KeyCode
  pub control : Bool

pub data InputCommand : Type 0 where
  action : GameAction → InputCommand
  quit : InputCommand

-- The letters of an arm, lower and upper case.
abbrev pub one_of : List ℕ → ℕ → Bool
one_of letters c = any (λ (l : ℕ). l == c || (l - 32) == c) letters

-- The arms of `handle_key_event` for a character.
unfoldable pub char_action : ℕ → Option GameAction
char_action c =
    if one_of (104 ∷ 97 ∷ []) c
    then some move_left
    else if one_of (108 ∷ 100 ∷ []) c
    then some move_right
    else if one_of (106 ∷ 115 ∷ []) c
    then some soft_drop
    else if one_of (107 ∷ 119 ∷ []) c
    then some rotate_cw
    else if one_of (122 ∷ 121 ∷ []) c
    then some rotate_ccw
    else if c == 32
    then some hard_drop
    else if one_of (99 ∷ []) c
    then some hold
    else if one_of (112 ∷ []) c
    then some pause
    else if one_of (114 ∷ []) c
    then some restart
    else none

unfoldable pub handle_key_event : KeyEvent → Option GameAction
handle_key_event key = elim key.code [
  | left ↦ some move_left
  | right ↦ some move_right
  | down ↦ some soft_drop
  | up ↦ some rotate_cw
  | other ↦ none
  | char c ↦ char_action c
]

unfoldable pub should_quit : KeyEvent → Bool
should_quit key = elim key.code [
  | left ↦ false
  | right ↦ false
  | up ↦ false
  | down ↦ false
  | other ↦ false
  | char c ↦ c == 113 || c == 81 || (c == 99 && key.control)
]

-- `Option::map`.
abbrev pub map_action : Option GameAction → Option InputCommand
map_action none = none
map_action (some a) = some (action a)

unfoldable pub map_input_command : KeyEvent → Option InputCommand
map_input_command key = if should_quit key then some quit else map_action (handle_key_event key)
