-- ===== src/Adapter/Commands/Maps.antt =====
-- crates/tetris-adapter/src/adapter/server.rs: the messages that `map_command` takes, and what it
-- makes of them.
use tui_tetris.Prelude.{
  ℕ, ◌+◌, ◌≤◌, ◌≡◌, refl, sym, ap, ◌∙◌, ◌↔◌, ◌⊎◌, Bool, true, false, Option, none, some, List, [],
  ◌∷◌, ◌++◌, inl, inr, Bool-cases, Option-cases, arith, length, any, map, append_assoc, append-nil,
  ◌<◌,
}
use tui_tetris.Prelude.{ltb, leb, if◌then◌else◌, u32_max, length-append}
use mathlib.Core.Path.{subst}
use tui_tetris.Types.{
  Rotation, north, east, south, west, GameAction, codes, eq_ignore_ascii_case, rotation_as_str,
  to_ascii_lowercase, bytes_eq,
}
use tui_tetris.Types.Parse.{bytes_eq→≡}
use tui_tetris.Game.Actions.{is_restart}
use tui_tetris.Session.Runtime.{GameCommand, batch, place}
use tui_tetris.Adapter.Protocol.{
  CommandMessage, CommandMode, action_mode, place_mode, PlaceCommand, invalid_command,
}
use tui_tetris.Adapter.Commands.{
  Mapped, ok, err, push_actions, map_seed, map_rotation, map_actions, map_place, map_command,
}

-- The messages that are commands of the game: at most 32 actions, with a seed only if there is a
-- restart among them and only of 32 bits, or a placement with the name of a rotation, in any case.
pub data Maps : CommandMessage → GameCommand → Type 0 where
  actions :
      {msg : CommandMessage} {names : List GameAction}
      → msg.mode ≡ action_mode
      → msg.actions ≡ some names
      → length names ≤ 32
      → msg.restart ≡ none
      → Maps msg (batch names none)
  restarts :
      {msg : CommandMessage} {names : List GameAction} {seed : ℕ}
      → msg.mode ≡ action_mode
      → msg.actions ≡ some names
      → length names ≤ 32
      → msg.restart ≡ some seed
      → any is_restart names ≡ true
      → seed ≤ u32_max
      → Maps msg (batch names (some seed))
  places :
      {msg : CommandMessage} {p : PlaceCommand} {r : Rotation}
      → msg.mode ≡ place_mode
      → msg.place ≡ some p
      → msg.restart ≡ none
      → eq_ignore_ascii_case p.rotation (rotation_as_str r) ≡ true
      → Maps msg (place p.x r p.use_hold)

push_actions-fits :
    (acc names : List GameAction)
    → length acc + length names ≤ 32
    → push_actions acc names ≡ ok (acc ++ names)
unfolding push_actions
push_actions-fits acc [] h = ap (λ xs. ok xs) (sym (append-nil acc))
push_actions-fits acc (a ∷ names) h = elim (Bool-cases (leb 32 (length acc))) [
  | inl full ↦ absurd (ground (arith, full, h))
  | inr room ↦ rw room (
      push_actions-fits (acc ++ a ∷ []) names (omega (arith, length-append acc (a ∷ [])))
      ∙ ap (λ xs. ok xs) (append_assoc acc (a ∷ []) names))
]

push_all : (names : List GameAction) → length names ≤ 32 → push_actions [] names ≡ ok names
push_all names le = push_actions-fits [] names (omega arith)

push_actions-full :
    (acc names : List GameAction)
    → 32 < length acc + length names
    → length acc ≤ 32
    → push_actions acc names ≡ err invalid_command
unfolding push_actions
push_actions-full acc [] h le = absurd (omega arith)
push_actions-full acc (a ∷ names) h le = elim (Bool-cases (leb 32 (length acc))) [
  | inl full ↦ rw full refl
  | inr room ↦ rw room (
      push_actions-full (acc ++ a ∷ []) names (omega (arith, length-append acc (a ∷ [])))
        (ground (arith, length-append acc (a ∷ []), room)))
]

lower_rotation : List ℕ → Option Rotation
lower_rotation t =
    if bytes_eq t (map to_ascii_lowercase (codes "north"))
    then some north
    else if bytes_eq t (map to_ascii_lowercase (codes "east"))
    then some east
    else if bytes_eq t (map to_ascii_lowercase (codes "south"))
    then some south
    else if bytes_eq t (map to_ascii_lowercase (codes "west"))
    then some west
    else none

lower_rotation_self :
    (r : Rotation) → lower_rotation (map to_ascii_lowercase (rotation_as_str r)) ≡ some r
unfolding rotation_as_str lower_rotation
lower_rotation_self north = refl
lower_rotation_self east = refl
lower_rotation_self south = refl
lower_rotation_self west = refl

rotation_or : Rotation → Option Rotation → Rotation
rotation_or d none = d
rotation_or d (some r) = r

-- A choice that is made holds what each of its cases holds.
pick :
    (P : Rotation → Type 0) (r : Rotation) (t : Bool) (r' : Rotation) (rest : Option Rotation)
    → (t ≡ true → P r')
    → (rest ≡ some r → P r)
    → (if t then some r' else rest) ≡ some r
    → P r
unfolding rotation_or
pick P r true r' rest on off h = subst P (ap (rotation_or r') h) (on refl)
pick P r false r' rest on off h = off h

map_rotation_iff :
    (s : List ℕ) (r : Rotation)
    → (map_rotation s ≡ some r) ↔ (eq_ignore_ascii_case s (rotation_as_str r) ≡ true)
unfolding map_rotation lower_rotation rotation_as_str
map_rotation_iff s r =
    let P : Rotation → Type 0 = λ q. eq_ignore_ascii_case s (rotation_as_str q) ≡ true in
    (
      pick P r (eq_ignore_ascii_case s (codes "north")) north _ (λ t. t)
          (pick P r (eq_ignore_ascii_case s (codes "east")) east _ (λ t. t)
            (pick P r (eq_ignore_ascii_case s (codes "south")) south _ (λ t. t)
              (pick P r (eq_ignore_ascii_case s (codes "west")) west none (λ t. t)
                (λ e. absurd (ground (arith, e)))))),
      λ h.
          subst (λ (t : List ℕ). lower_rotation t ≡ some r)
            (sym (
              bytes_eq→≡ (map to_ascii_lowercase s) (map to_ascii_lowercase (rotation_as_str r)) h))
            (lower_rotation_self r),
    )

ok_or : GameCommand → Mapped GameCommand → GameCommand
ok_or d (err code) = d
ok_or d (ok c) = c

mode-cases : (mode : CommandMode) → (mode ≡ action_mode) ⊎ (mode ≡ place_mode)
mode-cases action_mode = inl refl
mode-cases place_mode = inr refl

module _ (msg : CommandMessage) (c : GameCommand) where
  -- What a result says of the command in it.
  from_ok : (c' : GameCommand) → Maps msg c' → ok c' ≡ ok c → Maps msg c
  unfolding ok_or
  from_ok c' m h = subst (Maps msg) (ap (ok_or c') h) m

  batch-Maps :
      (names : List GameAction) (restart : Option ℕ)
      → msg.mode ≡ action_mode
      → msg.actions ≡ some names
      → msg.restart ≡ restart
      → length names ≤ 32
      → map_actions (some names) restart ≡ ok c
      → Maps msg c
  unfolding map_actions map_seed
  batch-Maps names none mode acts no_seed le h =
      from_ok (batch names none) (actions mode acts le no_seed)
        (rw (push_all names le, map_actions) at h)
  batch-Maps names (some seed) mode acts is_seed le h = elim (Bool-cases (any is_restart names)) [
    | inr none_there ↦
        absurd (ground (arith, rw none_there at (rw (push_all names le, map_actions) at h)))
    | inl there ↦ elim (Bool-cases (ltb u32_max seed)) [
      | inl big ↦
          absurd
            (ground (arith, rw big at (rw there at (rw (push_all names le, map_actions) at h))))
      | inr small ↦
          from_ok (batch names (some seed))
            (restarts mode acts le is_seed there (ground (arith, small)))
            (rw small at (rw there at (rw (push_all names le, map_actions) at h)))
    ]
  ]

  actions-Maps :
      (o : Option (List GameAction))
      → msg.mode ≡ action_mode
      → msg.actions ≡ o
      → map_actions o msg.restart ≡ ok c
      → Maps msg c
  unfolding map_actions
  actions-Maps none mode acts h = absurd (ground (arith, h))
  actions-Maps (some names) mode acts h = elim (Bool-cases (leb (length names) 32)) [
    | inl le ↦ batch-Maps names msg.restart mode acts refl (ground (arith, le)) h
    | inr long ↦
        let full : push_actions [] names ≡ err invalid_command =
          push_actions-full [] names (ground (arith, long)) (omega arith) in
        absurd (ground (arith, rw (full, map_actions) at h))
  ]

  place-Maps :
      (target : Option PlaceCommand) (restart : Option ℕ)
      → msg.mode ≡ place_mode
      → msg.place ≡ target
      → msg.restart ≡ restart
      → map_place target restart ≡ ok c
      → Maps msg c
  unfolding map_place
  place-Maps target (some seed) mode at no_seed h = absurd (ground (arith, h))
  place-Maps none none mode at no_seed h = absurd (ground (arith, h))
  place-Maps (some p) none mode at no_seed h = elim (Option-cases (map_rotation p.rotation)) [
    | inl e ↦ absurd (ground (arith, rw (e, map_place) at h))
    | inr (r, e) ↦
        from_ok (place p.x r p.use_hold)
          (places mode at no_seed ((map_rotation_iff p.rotation r).0 e)) (rw (e, map_place) at h)
  ]

  command-Maps : map_command msg ≡ ok c → Maps msg c
  unfolding map_command
  command-Maps h = elim (mode-cases msg.mode) [
    | inl mode ↦ actions-Maps msg.actions mode refl (rw mode at h)
    | inr mode ↦ place-Maps msg.place msg.restart mode refl refl (rw mode at h)
  ]

Maps-command : (msg : CommandMessage) (c : GameCommand) → Maps msg c → map_command msg ≡ ok c
unfolding map_command map_actions map_seed map_place
Maps-command msg _ (actions {names = names} mode acts le no_seed) =
    rw mode (rw acts (rw no_seed (rw (push_all names le, map_actions) refl)))
Maps-command msg _ (restarts {names = names} {seed} mode acts le is_seed there small) =
    let off : ltb u32_max seed ≡ false = ground (arith, small) in
    rw mode (rw acts (rw is_seed (rw (push_all names le, map_actions) (rw there (rw off refl)))))
Maps-command msg _ (places {p = p} {r} mode at no_seed named) =
    rw mode (rw at (rw no_seed (rw ((map_rotation_iff p.rotation r).1 named, map_place) refl)))

-- `map_command` makes a game command of a message exactly if the message is one of the commands of
-- the game, and it is that command.
pub map_command_iff :
    (msg : CommandMessage) (c : GameCommand) → (map_command msg ≡ ok c) ↔ Maps msg c
map_command_iff msg c = (command-Maps msg c, Maps-command msg c)
