-- ===== src/Adapter/Commands.antt =====
-- crates/tetris-adapter/src/adapter/server.rs: `map_command`, from a message to a game command.
-- The array of actions holds at most 32 of them.
pub mod Maps
use tui_tetris.Prelude.{
  ℕ, ◌+◌, Bool, true, false, ◌||◌, Option, none, some, List, [], ◌∷◌, ◌++◌, length, any,
}
use tui_tetris.Prelude.{ltb, leb, if◌then◌else◌, u32_max}
use tui_tetris.Types.{Rotation, north, east, south, west, GameAction, codes, eq_ignore_ascii_case}
use tui_tetris.Game.Actions.{is_restart}
use tui_tetris.Session.Runtime.{GameCommand, batch, place}
use tui_tetris.Adapter.Protocol.{
  CommandMessage, CommandMode, action_mode, place_mode, PlaceCommand, ErrorCode, invalid_command,
  invalid_place,
}

-- `Result<T, ErrorCode>`; the texts of the errors are left out.
pub data Mapped {ℓ} (A : Type ℓ) : Type ℓ where
  ok : A → Mapped A
  err : ErrorCode → Mapped A

-- The loop over the names, with the actions pushed so far.
unfoldable pub push_actions : List GameAction → List GameAction → Mapped (List GameAction)
push_actions acc [] = ok acc
push_actions acc (a ∷ rest) =
    let pushed = push_actions (acc ++ a ∷ []) rest in
    if leb 32 (length acc) then err invalid_command else pushed

unfoldable pub map_seed : Bool → Option ℕ → Mapped (Option ℕ)
map_seed saw_restart none = ok none
map_seed saw_restart (some seed) =
    if saw_restart
    then (if ltb u32_max seed then err invalid_command else ok (some seed))
    else err invalid_command

unfoldable pub map_rotation : List ℕ → Option Rotation
map_rotation s =
    if eq_ignore_ascii_case s (codes "north")
    then some north
    else if eq_ignore_ascii_case s (codes "east")
    then some east
    else if eq_ignore_ascii_case s (codes "south")
    then some south
    else if eq_ignore_ascii_case s (codes "west")
    then some west
    else none

-- The two modes.
unfoldable pub map_actions : Option (List GameAction) → Option ℕ → Mapped GameCommand
map_actions none restart = err invalid_command
map_actions (some names) restart = elim (push_actions [] names) [
  | err e ↦ err e
  | ok actions ↦ elim (map_seed (any is_restart names) restart) [
    | err e ↦ err e
    | ok seed ↦ ok (batch actions seed)
  ]
]

unfoldable pub map_place : Option PlaceCommand → Option ℕ → Mapped GameCommand
map_place target (some seed) = err invalid_command
map_place none none = err invalid_place
map_place (some p) none = elim (map_rotation p.rotation) [
  | none ↦ err invalid_place
  | some rotation ↦ ok (place p.x rotation p.use_hold)
]

unfoldable pub map_command : CommandMessage → Mapped GameCommand
map_command cmd = elim cmd.mode [
  | action_mode ↦ map_actions cmd.actions cmd.restart
  | place_mode ↦ map_place cmd.place cmd.restart
]
