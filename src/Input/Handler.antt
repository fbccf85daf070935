-- ===== src/Input/Handler.antt =====
-- crates/tetris-terminal/src/input/handler.rs: delayed repeats of held keys.
-- A clock reading (`Instant::now()`) is an argument, in nanoseconds. The u32 additions of `update`
-- wrap, as in a release build.
pub mod Bounds
pub mod Repeats
pub mod Ticks
pub mod Moved
pub mod Hold
pub mod Reached
pub mod Release
use tui_tetris.Prelude.{
  ℕ, zero, suc, ◌+◌, ◌-◌, ◌/◌, ◌%◌, min, max, Bool, true, false, not, ◌&&◌, ◌||◌, Option, none,
  some,
}
use tui_tetris.Prelude.{
  List, [], ◌∷◌, ◌++◌, length, ltb, leb, if◌then◌else◌, u32_mod, saturating_mul,
}
use tui_tetris.Types.{
  GameAction, move_left, move_right, soft_drop, default_das_ms, default_arr_ms, soft_drop_arr_ms,
}
use tui_tetris.Input.{KeyCode, left, right, up, down, other, char, one_of}

pub data HorizontalDirection : Type 0 where
  to_left to_right no_direction : HorizontalDirection

pub record InputHandler : Type 0 where
  pub horizontal : HorizontalDirection
  pub down_held : Bool
  pub last_key_time : ℕ
  pub horizontal_das_timer : ℕ
  pub down_das_timer : ℕ
  pub horizontal_arr_accumulator : ℕ
  pub down_arr_accumulator : ℕ
  pub das_delay : ℕ
  pub arr_rate : ℕ
  pub key_release_timeout_ms : ℕ
  pub saw_repeat_event : Bool
  pub last_repeat_time : Option ℕ
  pub repeat_release_timeout_ms : ℕ
  pub repeat_release_timeout_min_ms : ℕ
  pub repeat_release_timeout_max_ms : ℕ

abbrev pub with_config : ℕ → ℕ → ℕ → InputHandler
with_config now das_delay arr_rate = record {
  horizontal = no_direction;
  down_held = false;
  last_key_time = now;
  horizontal_das_timer = 0;
  down_das_timer = 0;
  horizontal_arr_accumulator = 0;
  down_arr_accumulator = 0;
  das_delay = das_delay;
  arr_rate = max arr_rate 1;
  key_release_timeout_ms = 150;
  saw_repeat_event = false;
  last_repeat_time = none;
  repeat_release_timeout_ms = 80;
  repeat_release_timeout_min_ms = 80;
  repeat_release_timeout_max_ms = 300;
}

abbrev pub new_handler : ℕ → InputHandler
new_handler now = with_config now default_das_ms default_arr_ms

abbrev pub with_key_release_timeout_ms : InputHandler → ℕ → InputHandler
with_key_release_timeout_ms h timeout_ms = record h { key_release_timeout_ms = timeout_ms }

-- `clamp`, whose bounds are in order.
abbrev pub clamp : ℕ → ℕ → ℕ → ℕ
clamp n low high = if ltb n low then low else if ltb high n then high else n

-- The bounds in order.
abbrev pub bound_release : InputHandler → ℕ → ℕ → InputHandler
bound_release h min_ms max_ms = record h {
  repeat_release_timeout_min_ms = min_ms;
  repeat_release_timeout_max_ms = max_ms;
  repeat_release_timeout_ms = clamp h.repeat_release_timeout_ms min_ms max_ms;
}

unfoldable pub with_repeat_release_timeout_bounds_ms : InputHandler → ℕ → ℕ → InputHandler
with_repeat_release_timeout_bounds_ms h min_ms max_ms =
    if leb (max min_ms 1) (max max_ms 1)
    then bound_release h (max min_ms 1) (max max_ms 1)
    else bound_release h (max max_ms 1) (max min_ms 1)

-- The keys that are held: the arms of the handlers.
pub data Held : Type 0 where
  left_key right_key down_key : Held

unfoldable pub held_key : KeyCode → Option Held
held_key code = elim code [
  | left ↦ some left_key
  | right ↦ some right_key
  | down ↦ some down_key
  | up ↦ none
  | other ↦ none
  | char c ↦
      if one_of (97 ∷ 104 ∷ []) c
      then some left_key
      else if one_of (100 ∷ 108 ∷ []) c
      then some right_key
      else if one_of (115 ∷ 106 ∷ []) c
      then some down_key
      else none
]

-- `Duration::as_millis` as a u32; the duration from a later time is 0.
abbrev pub millis_since : ℕ → ℕ → ℕ
millis_since earlier now = ((now - earlier) / 1000000) % u32_mod

abbrev pub learn_interval : InputHandler → ℕ → Option ℕ → InputHandler
learn_interval h now none = h
learn_interval h now (some prev) = record h {
  repeat_release_timeout_ms =
      clamp (saturating_mul (millis_since prev now) 2) h.repeat_release_timeout_min_ms
        h.repeat_release_timeout_max_ms;
}

abbrev pub note_repeat : InputHandler → ℕ → InputHandler
note_repeat h now =
    if h.saw_repeat_event
    then record (learn_interval h now h.last_repeat_time) { last_repeat_time = some now }
    else h

abbrev pub mark_repeat : InputHandler → ℕ → Option Held → InputHandler
mark_repeat h now none = h
mark_repeat h now (some key) = record h { last_key_time = now; saw_repeat_event = true }

unfoldable pub handle_key_repeat : InputHandler → ℕ → KeyCode → InputHandler
handle_key_repeat h now code = note_repeat (mark_repeat h now (held_key code)) now

abbrev pub same_direction : HorizontalDirection → HorizontalDirection → Bool
same_direction to_left to_left = true
same_direction to_right to_right = true
same_direction no_direction no_direction = true
same_direction to_left to_right = false
same_direction to_left no_direction = false
same_direction to_right to_left = false
same_direction to_right no_direction = false
same_direction no_direction to_left = false
same_direction no_direction to_right = false

abbrev pub set_horizontal : InputHandler → HorizontalDirection → InputHandler
set_horizontal h d = record h {
  horizontal = d;
  horizontal_das_timer = 0;
  horizontal_arr_accumulator = 0;
}

abbrev pub set_down : InputHandler → Bool → InputHandler
set_down h held = record h { down_held = held; down_das_timer = 0; down_arr_accumulator = 0 }

-- A press of a key of the direction `d`, whose action is `a`; `later` is the clock of the repeat.
abbrev pub press_horizontal :
    InputHandler → HorizontalDirection → GameAction → ℕ → KeyCode → InputHandler × Option GameAction
press_horizontal h d a later code =
    if same_direction h.horizontal d
    then (handle_key_repeat h later code, none)
    else (set_horizontal h d, some a)

abbrev pub press_down : InputHandler → ℕ → KeyCode → InputHandler × Option GameAction
press_down h later code =
    if h.down_held
    then (handle_key_repeat h later code, none)
    else (set_down h true, some soft_drop)

unfoldable pub handle_key_press : InputHandler → ℕ → ℕ → KeyCode → InputHandler × Option GameAction
handle_key_press h now later code =
    let seen = record h { last_key_time = now } in
    elim (held_key code) [
      | none ↦ (h, none)
      | some key ↦ elim key [
        | left_key ↦ press_horizontal seen to_left move_left later code
        | right_key ↦ press_horizontal seen to_right move_right later code
        | down_key ↦ press_down seen later code
      ]
    ]

abbrev pub release_direction : InputHandler → HorizontalDirection → InputHandler
release_direction h d = if same_direction h.horizontal d then set_horizontal h no_direction else h

unfoldable pub handle_key_release : InputHandler → KeyCode → InputHandler
handle_key_release h code = elim (held_key code) [
  | none ↦ h
  | some key ↦ elim key [
    | left_key ↦ release_direction h to_left
    | right_key ↦ release_direction h to_right
    | down_key ↦ set_down h false
  ]
]

abbrev pub timeout_ms : InputHandler → ℕ
timeout_ms h =
    if h.saw_repeat_event
    then min h.key_release_timeout_ms h.repeat_release_timeout_ms
    else h.key_release_timeout_ms

abbrev pub free_horizontal : InputHandler → InputHandler
free_horizontal h =
    if same_direction h.horizontal no_direction then h else set_horizontal h no_direction

abbrev pub free_down : InputHandler → InputHandler
free_down h = if h.down_held then set_down h false else h

unfoldable pub auto_release : InputHandler → ℕ → InputHandler
auto_release h now =
    if ltb (timeout_ms h) (millis_since h.last_key_time now)
    then free_down (free_horizontal h)
    else h

-- `try_push` on an `ArrayVec` of 32.
abbrev pub try_push : List GameAction → GameAction → List GameAction
try_push actions a = if ltb (length actions) 32 then actions ++ a ∷ [] else actions

-- The loops of `update`: while the accumulator is at least the rate, an action is emitted.
unfoldable pub drain : ℕ → ℕ → GameAction → ℕ → List GameAction → ℕ × List GameAction
drain zero rate a acc actions = (acc, actions)
drain (suc fuel) rate a acc actions =
    let rest = drain fuel rate a (acc - rate) (try_push actions a) in
    if leb rate acc then rest else (acc, actions)

abbrev pub move_of : HorizontalDirection → GameAction
move_of to_left = move_left
move_of to_right = move_right
move_of no_direction = move_left

abbrev pub held_timer : InputHandler → ℕ → ℕ
held_timer h elapsed_ms = (h.horizontal_das_timer + elapsed_ms) % u32_mod

-- The accumulator with the excess.
abbrev pub held_sum : InputHandler → ℕ → ℕ
held_sum h elapsed_ms =
    let excess =
      if ltb h.horizontal_das_timer h.das_delay
      then held_timer h elapsed_ms - h.das_delay
      else elapsed_ms in
    (h.horizontal_arr_accumulator + excess) % u32_mod

-- The arm of `update` for a held direction. An accumulator of `n` needs at most `n` rounds, as the
-- rate is positive.
unfoldable pub repeat_horizontal :
    InputHandler → HorizontalDirection → ℕ → InputHandler × List GameAction
repeat_horizontal h d elapsed_ms =
    let timer = held_timer h elapsed_ms in
    let out = drain (held_sum h elapsed_ms) h.arr_rate (move_of d) (held_sum h elapsed_ms) [] in
    if leb h.das_delay timer
    then (record h { horizontal_das_timer = timer; horizontal_arr_accumulator = out.0 }, out.1)
    else (record h { horizontal_das_timer = timer }, [])

abbrev pub update_toward : InputHandler → HorizontalDirection → ℕ → InputHandler × List GameAction
update_toward h to_left elapsed_ms = repeat_horizontal h to_left elapsed_ms
update_toward h to_right elapsed_ms = repeat_horizontal h to_right elapsed_ms
update_toward h no_direction elapsed_ms =
    (record h { horizontal_das_timer = 0; horizontal_arr_accumulator = 0 }, [])

abbrev pub update_horizontal : InputHandler → ℕ → InputHandler × List GameAction
update_horizontal h elapsed_ms = update_toward h h.horizontal elapsed_ms

unfoldable pub update_down : InputHandler → ℕ → List GameAction → InputHandler × List GameAction
update_down h elapsed_ms actions =
    let timer = (h.down_das_timer + elapsed_ms) % u32_mod in
    let acc = (h.down_arr_accumulator + elapsed_ms) % u32_mod in
    let out = drain acc soft_drop_arr_ms soft_drop acc actions in
    if h.down_held
    then (record h { down_das_timer = timer; down_arr_accumulator = out.0 }, out.1)
    else (record h { down_das_timer = 0; down_arr_accumulator = 0 }, actions)

-- `now` is the clock that `elapsed()` reads.
unfoldable pub update : InputHandler → ℕ → ℕ → InputHandler × List GameAction
update h now elapsed_ms =
    let moved = update_horizontal (auto_release h now) elapsed_ms in
    update_down moved.0 elapsed_ms moved.1

abbrev pub reset : InputHandler → ℕ → InputHandler
reset h now = record h {
  horizontal = no_direction;
  down_held = false;
  last_key_time = now;
  horizontal_das_timer = 0;
  down_das_timer = 0;
  horizontal_arr_accumulator = 0;
  down_arr_accumulator = 0;
  saw_repeat_event = false;
  last_repeat_time = none;
  repeat_release_timeout_ms = h.repeat_release_timeout_min_ms;
}
