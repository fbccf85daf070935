-- ===== src/Session/Place.antt =====
-- crates/tetris-session/src/engine/place.rs: a whole placement as a list of actions.
-- The functions return the state that they leave and how they ended.
use tui_tetris.Prelude.{
  ℕ, zero, suc, ◌+◌, ◌-◌, ◌%◌, Bool, true, false, not, ◌||◌, Option, none, some,
}
use tui_tetris.Prelude.{[], ◌∷◌, Run, ret, ◌>>=◌, if◌then◌else◌, ltb, ◌==◌}
use tui_tetris.Prelude.{neg, add_i8, sub_i8, ltb_i8, leb_i8}
use tui_tetris.Types.{
  Rotation, north, east, south, west, GameAction, rotate_cw, rotate_ccw, hold, hard_drop,
}
use tui_tetris.Types.{move_left, move_right, board_width}
use tui_tetris.Pieces.{PieceShape}
use tui_tetris.Game.State.{Tetromino, GameState, shape}
use tui_tetris.Game.Actions.{apply_action}

pub data PlaceError : Type 0 where
  hold_unavailable rotation_blocked x_out_of_bounds x_blocked not_playable no_active : PlaceError

-- `Result<(), PlaceError>`.
pub data Outcome : Type 0 where
  placed : Outcome
  refused : PlaceError → Outcome

abbrev pub rot_to_i : Rotation → ℕ
rot_to_i north = 0
rot_to_i east = 1
rot_to_i south = 2
rot_to_i west = 3

-- `(a - b).rem_euclid(4)` for numbers below 4.
abbrev pub quarter_turns : ℕ → ℕ → ℕ
quarter_turns a b = (a + 4 - b) % 4

-- The loops that repeat one action and stop at its first failure.
unfoldable pub repeat_action : ℕ → GameAction → GameState → Run (GameState × Bool)
repeat_action zero action s = ret (s, true)
repeat_action (suc n) action s = apply_action s action >>= λ (r : GameState × Bool). elim r.1 [
  | true ↦ repeat_action n action r.0
  | false ↦ ret (r.0, false)
]

-- The two plans, the shorter first: the action and its number.
abbrev pub plans : ℕ → ℕ → (GameAction × ℕ) × (GameAction × ℕ)
plans cw ccw =
    if ltb ccw cw
    then ((rotate_ccw, ccw), (rotate_cw, cw))
    else ((rotate_cw, cw), (rotate_ccw, ccw))

-- The loop over the plans: the second starts from the snapshot again.
unfoldable pub try_plans : (GameAction × ℕ) × (GameAction × ℕ) → GameState → Run (GameState × Bool)
try_plans (first, second) snapshot =
    repeat_action first.1 first.0 snapshot >>= λ (r : GameState × Bool). elim r.1 [
      | true ↦ ret (r.0, true)
      | false ↦ repeat_action second.1 second.0 snapshot
    ]

-- The least and the greatest column of the shape, from i8::MAX and i8::MIN.
abbrev pub min_dx : PieceShape → ℕ → ℕ
min_dx [] low = low
min_dx (m ∷ ms) low = min_dx ms (if ltb_i8 m.0 low then m.0 else low)

abbrev pub max_dx : PieceShape → ℕ → ℕ
max_dx [] high = high
max_dx (m ∷ ms) high = max_dx ms (if ltb_i8 high m.0 then m.0 else high)

unfoldable pub x_in_bounds : PieceShape → ℕ → Bool
x_in_bounds ms target_x = not (
    ltb_i8 (add_i8 target_x (min_dx ms 127)) 0
    || leb_i8 board_width (add_i8 target_x (max_dx ms 128)))

-- The number of steps of `0..n` for an i8.
abbrev pub i8_range : ℕ → ℕ
i8_range n = if ltb_i8 0 n then n else 0

-- The moves along the row by `dx`.
unfoldable pub shift : ℕ → GameState → Run (GameState × Bool)
shift dx s =
    if ltb_i8 0 dx
    then repeat_action (i8_range dx) move_right s
    else if ltb_i8 dx 0
    then repeat_action (i8_range (neg dx)) move_left s
    else ret (s, true)

-- The hard drop at the end.
unfoldable pub drop_placed : GameState → Run (GameState × Outcome)
drop_placed s = apply_action s hard_drop >>= λ (r : GameState × Bool). elim r.1 [
  | true ↦ ret (r.0, placed)
  | false ↦ elim r.0.active [
    | none ↦ ret (r.0, refused no_active)
    | some t ↦ ret (r.0, refused not_playable)
  ]
]

-- From the check of the rotation on; `active` is the piece after the turns.
unfoldable pub place_turned :
    Option Tetromino → GameState → ℕ → Rotation → Run (GameState × Outcome)
place_turned none s target_x target_rot = ret (s, refused no_active)
place_turned (some t) s target_x target_rot =
    if not (rot_to_i t.rotation == rot_to_i target_rot)
    then ret (s, refused rotation_blocked)
    else if not (x_in_bounds (shape t) target_x)
    then ret (s, refused x_out_of_bounds)
    else (shift (sub_i8 target_x t.x) s >>= λ (r : GameState × Bool). elim r.1 [
      | true ↦ drop_placed r.0
      | false ↦ ret (r.0, refused x_blocked)
    ])

-- From the choice of the plans on; `active0` is the piece before the turns.
unfoldable pub place_active0 :
    Option Tetromino → GameState → ℕ → Rotation → Run (GameState × Outcome)
place_active0 none s target_x target_rot = ret (s, refused no_active)
place_active0 (some t) s target_x target_rot =
    let cur = rot_to_i t.rotation in
    let tgt = rot_to_i target_rot in
    try_plans (plans (quarter_turns tgt cur) (quarter_turns cur tgt)) s
    >>= λ (r : GameState × Bool). elim r.1 [
      | true ↦ place_turned r.0.active r.0 target_x target_rot
      | false ↦ ret (r.0, refused rotation_blocked)
    ]

unfoldable pub apply_place_in_place : GameState → ℕ → Rotation → Bool → Run (GameState × Outcome)
apply_place_in_place s target_x target_rot use_hold =
    if s.paused || s.game_over
    then ret (s, refused not_playable)
    else if use_hold
    then (apply_action s hold >>= λ (r : GameState × Bool). elim r.1 [
      | true ↦ place_active0 r.0.active r.0 target_x target_rot
      | false ↦ ret (r.0, refused hold_unavailable)
    ])
    else place_active0 s.active s target_x target_rot

-- The candidate replaces the state only if it was placed.
abbrev pub commit : GameState → GameState × Outcome → GameState × Outcome
commit s (candidate, placed) = (candidate, placed)
commit s (candidate, refused e) = (s, refused e)

unfoldable pub apply_place : GameState → ℕ → Rotation → Bool → Run (GameState × Outcome)
apply_place s target_x target_rot use_hold =
    apply_place_in_place s target_x target_rot use_hold >>= λ (r : GameState × Outcome).
    ret (commit s r)
