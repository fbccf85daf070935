-- ===== src/Session/Replay/Format/Steps.antt =====
-- crates/tetris-session/src/engine/replay.rs: the lines of a step are read as they are written.
use tui_tetris.Prelude.{
  ℕ, ◌+◌, ◌≤◌, ◌<◌, ◌≡◌, refl, ap, sym, ◌∙◌, Bool, true, false, Option, none, some, List, [], ◌∷◌,
  ◌++◌, map, length, arith, append_assoc, append-nil, u32_max, length-append,
}
use tui_tetris.Prelude.{leb}
use tui_tetris.Prelude.{split, join, to_decimal, i8_to_decimal}
use tui_tetris.Types
use tui_tetris.Types.{
  Rotation, north, east, south, west, GameAction, codes, bytes_eq, action_as_str, action_from_str,
  rotation_as_str, rotation_from_str,
}
use tui_tetris.Session.Runtime.{GameCommand, batch, place, StepInput}
use tui_tetris.Session.Replay.{StepRecord}
use tui_tetris.Session.Replay.Format.{
  bool_text, seed_text, command_fields, try_push, parse_actions, actions_in, parse_u32, parse_seed,
  parse_bool, parse_fields, max_commands, max_actions,
}
use tui_tetris.Session.Replay.Format.Parts.{
  AtLeast, AtLeast-mono, AllAtLeast, split-join, AtLeast-join,
}
use tui_tetris.Session.Replay.Format.Numbers.{
  AtLeast-to_decimal, to_decimal-Opens, parse_unsigned-to_decimal, parse_i8-to_decimal,
  AtLeast-i8_to_decimal,
}

-- What the types of the source bound: a seed by 32 bits, a column by 8, the arrays by their
-- capacities.
abbrev pub IsSeed : Option ℕ → Type 0
IsSeed none = Unit
IsSeed (some seed) = seed ≤ u32_max

abbrev pub IsBounded : GameCommand → Type 0
IsBounded (batch actions seed) = (length actions ≤ 32) × IsSeed seed
IsBounded (place x rotation use_hold) = x < 256

abbrev pub AreBounded : List GameCommand → Type 0
AreBounded [] = Unit
AreBounded (c ∷ commands) = IsBounded c × AreBounded commands

pub record IsInput (input : StepInput) : Type 0 where
  pub commands : AreBounded input.remote
  pub few_commands : length input.remote ≤ 32
  pub few_actions : length input.local ≤ 64

pub action_self : (a : GameAction) → action_from_str (action_as_str a) ≡ some a
unfolding action_from_str action_as_str
action_self Types.move_left = refl
action_self Types.move_right = refl
action_self Types.soft_drop = refl
action_self Types.hard_drop = refl
action_self Types.rotate_cw = refl
action_self Types.rotate_ccw = refl
action_self Types.hold = refl
action_self Types.pause = refl
action_self Types.restart = refl

pub AtLeast-action : (a : GameAction) → AtLeast 45 (action_as_str a)
unfolding action_as_str
AtLeast-action Types.move_left = refl
AtLeast-action Types.move_right = refl
AtLeast-action Types.soft_drop = refl
AtLeast-action Types.hard_drop = refl
AtLeast-action Types.rotate_cw = refl
AtLeast-action Types.rotate_ccw = refl
AtLeast-action Types.hold = refl
AtLeast-action Types.pause = refl
AtLeast-action Types.restart = refl

rotation_self :
    (r : Rotation)
    → (rotation_from_str (rotation_as_str r) ≡ some r) × AtLeast 44 (rotation_as_str r)
unfolding rotation_from_str rotation_as_str
rotation_self north = (refl, refl)
rotation_self east = (refl, refl)
rotation_self south = (refl, refl)
rotation_self west = (refl, refl)

bool_self : (b : Bool) → (parse_bool (bool_text b) ≡ some b) × AtLeast 44 (bool_text b)
bool_self true = (refl, refl)
bool_self false = (refl, refl)

seed_self : (seed : Option ℕ) → IsSeed seed → parse_seed (seed_text seed) ≡ some seed
seed_self none ok = refl
seed_self (some seed) ok =
    let (c, (s, (e, high))) = to_decimal-Opens seed in
    let no_dash : bytes_eq (to_decimal seed) (codes "-") ≡ false =
      ap (λ (t : List ℕ). bytes_eq t (codes "-")) e ∙ ground (arith, high) in
    let read : parse_u32 (to_decimal seed) ≡ some seed =
      parse_unsigned-to_decimal u32_max seed (omega arith) ok in
    rw no_dash (rw read refl)

AtLeast-seed : (seed : Option ℕ) → AtLeast 44 (seed_text seed)
AtLeast-seed none = refl
AtLeast-seed (some seed) =
    AtLeast-mono 44 48 (to_decimal seed) (omega arith) (AtLeast-to_decimal seed)

AllAtLeast-actions : (actions : List GameAction) → AllAtLeast 45 (map action_as_str actions)
AllAtLeast-actions [] = tt
AllAtLeast-actions (a ∷ actions) = (AtLeast-action a, AllAtLeast-actions actions)

AllAtLeast-mono :
    (k j : ℕ) (parts : List (List ℕ)) → k ≤ j → AllAtLeast j parts → AllAtLeast k parts
AllAtLeast-mono k j [] le h = tt
AllAtLeast-mono k j (s ∷ parts) le (h, hs) =
    (AtLeast-mono k j s le h, AllAtLeast-mono k j parts le hs)

parse_actions-names :
    (acc actions : List GameAction)
    → length acc + length actions ≤ 32
    → parse_actions acc (map action_as_str actions) ≡ some (acc ++ actions)
unfolding parse_actions
parse_actions-names acc [] le = ap some (sym (append-nil acc))
parse_actions-names acc (a ∷ actions) le =
    let room : leb max_actions (length acc) ≡ false = ground (arith, le) in
    let pushed : try_push max_actions acc (action_from_str (action_as_str a))
        ≡ some (acc ++ a ∷ []) =
      ap (try_push max_actions acc) (action_self a) ∙ rw room refl in
    rw (pushed, parse_actions)
      (parse_actions-names (acc ++ a ∷ []) actions (omega (arith, length-append acc (a ∷ [])))
        ∙ ap some (append_assoc acc (a ∷ []) actions))

length-action : (a : GameAction) → 1 ≤ length (action_as_str a)
unfolding action_as_str
length-action Types.move_left = omega arith
length-action Types.move_right = omega arith
length-action Types.soft_drop = omega arith
length-action Types.hard_drop = omega arith
length-action Types.rotate_cw = omega arith
length-action Types.rotate_ccw = omega arith
length-action Types.hold = omega arith
length-action Types.pause = omega arith
length-action Types.restart = omega arith

length-join :
    (sep : ℕ) (s : List ℕ) (parts : List (List ℕ)) → length s ≤ length (join sep (s ∷ parts))
unfolding join
length-join sep s [] = omega arith
length-join sep s (next ∷ parts) = omega (arith, length-append s (sep ∷ join sep (next ∷ parts)))

-- A text that is not empty is split.
actions_in-split : (t : List ℕ) → 1 ≤ length t → actions_in t ≡ parse_actions [] (split 44 t)
actions_in-split [] le = absurd (omega arith)
actions_in-split (c ∷ s) le = refl

actions_self :
    (actions : List GameAction)
    → length actions ≤ 32
    → actions_in (join 44 (map action_as_str actions)) ≡ some actions
unfolding join
actions_self [] le = refl
actions_self (a ∷ actions) le =
    let names : List (List ℕ) = map action_as_str (a ∷ actions) in
    actions_in-split (join 44 names)
      (omega (arith, length-action a, length-join 44 (action_as_str a) (map action_as_str actions)))
    ∙ (ap (parse_actions []) (
          split-join 44 45 (action_as_str a) (map action_as_str actions) (omega arith)
            (AllAtLeast-actions (a ∷ actions)))
        ∙ parse_actions-names [] (a ∷ actions) (omega arith))

-- A record with one more command.
abbrev pub add_command : StepRecord → GameCommand → StepRecord
add_command rec c = record rec {
  input = record { remote = rec.input.remote ++ c ∷ []; local = rec.input.local };
}

abbrev pub add_local : StepRecord → GameAction → StepRecord
add_local rec a = record rec {
  input = record { remote = rec.input.remote; local = rec.input.local ++ a ∷ [] };
}

pub AllAtLeast-command : (c : GameCommand) → AllAtLeast 44 (command_fields c)
unfolding command_fields
AllAtLeast-command (batch actions seed) = (
  refl,
  (
    refl,
    (
      AtLeast-seed seed,
      (
        AtLeast-join 44 44 (map action_as_str actions) (omega arith) (
            AllAtLeast-mono 44 45 (map action_as_str actions) (omega arith)
              (AllAtLeast-actions actions)),
        tt,
      ),
    ),
  ),
)
AllAtLeast-command (place x rotation use_hold) = (
  refl,
  (
    refl,
    (
      AtLeast-mono 44 45 (i8_to_decimal x) (omega arith) (AtLeast-i8_to_decimal x),
      ((rotation_self rotation).1, ((bool_self use_hold).1, tt)),
    ),
  ),
)

pub parse-command :
    (rec : StepRecord) (c : GameCommand)
    → IsBounded c
    → length rec.input.remote < 32
    → parse_fields rec (command_fields c) ≡ some (add_command rec c)
unfolding parse_fields command_fields
parse-command rec (batch actions seed) (few, ok) room =
    let free : leb max_commands (length rec.input.remote) ≡ false = ground (arith, room) in
    rw (seed_self seed ok) (rw (actions_self actions few) (rw free refl))
parse-command rec (place x rotation use_hold) ok room =
    let free : leb max_commands (length rec.input.remote) ≡ false = ground (arith, room) in
    rw (parse_i8-to_decimal x ok)
      (rw (rotation_self rotation).0 (rw (bool_self use_hold).0 (rw free refl)))
