-- ===== src/Input/Handler/Hold.antt =====
-- crates/tetris-terminal/src/input/handler.rs: a press of a direction key and the updates after it.
use tui_tetris.Prelude.{ℕ, suc, ◌+◌, ◌-◌, ◌*◌, ◌≤◌, ◌<◌, ◌≡◌, refl, ap, ◌∙◌, true, false}
use tui_tetris.Prelude.{Option, some, List, arith, u32_mod}
use mathlib.Core.Path.{sym}
use tui_tetris.Types.{GameAction}
use tui_tetris.Input.{KeyCode}
use tui_tetris.Input.Handler.{
  InputHandler, HorizontalDirection, to_left, to_right, no_direction, Held, left_key, right_key,
  down_key,
}
use tui_tetris.Input.Handler.{held_key, same_direction, handle_key_press, move_of}
use tui_tetris.Input.Handler.Repeats.{Repeating}
use tui_tetris.Input.Handler.Ticks.{moves, updates, total_ms, steady}
use tui_tetris.Input.Handler.Moved.{updates-moves}

-- The direction of a key.
abbrev pub direction_of : Held → HorizontalDirection
direction_of left_key = to_left
direction_of right_key = to_right
direction_of down_key = no_direction

-- What a first press leaves.
record Pressed (h h' : InputHandler) (d : HorizontalDirection) (a : Option GameAction)
    : Type 0 where
  direction : h'.horizontal ≡ d
  repeating : Repeating h' 0 0
  rate : h'.arr_rate ≡ h.arr_rate
  delay : h'.das_delay ≡ h.das_delay
  moved : a ≡ some (move_of d)

press-Pressed :
    (h : InputHandler) (now later : ℕ) (code : KeyCode) (key : Held)
    → held_key code ≡ some key
    → same_direction (direction_of key) no_direction ≡ false
    → same_direction h.horizontal (direction_of key) ≡ false
    → 0 < h.arr_rate
    → (let out = handle_key_press h now later code in Pressed h out.0 (direction_of key) out.1)
unfolding handle_key_press
press-Pressed h now later code left_key k real new pos =
    rw (k, handle_key_press, new)
      (record {
        direction = refl;
        repeating = record { timer = refl; balance = omega arith; below = pos };
        rate = refl;
        delay = refl;
        moved = refl;
      })
press-Pressed h now later code right_key k real new pos =
    rw (k, handle_key_press, new)
      (record {
        direction = refl;
        repeating = record { timer = refl; balance = omega arith; below = pos };
        rate = refl;
        delay = refl;
        moved = refl;
      })
press-Pressed h now later code down_key k real new pos = absurd (ground (arith, real))

-- A direction key pressed anew moves the piece once. If it is then held, with every tick before
-- the release timeout and at most 32 rates long, the repeats of any sequence of updates are the
-- time past the delay divided by the repeat rate, rounded down.
pub press-then-updates :
    (h : InputHandler) (now later : ℕ) (code : KeyCode) (key : Held) (ticks : List (ℕ × ℕ))
    → held_key code ≡ some key
    → same_direction (direction_of key) no_direction ≡ false
    → same_direction h.horizontal (direction_of key) ≡ false
    → 0 < h.arr_rate
    → steady (handle_key_press h now later code).0 ticks ≡ true
    → total_ms ticks < u32_mod
    → ((handle_key_press h now later code).1 ≡ some (move_of (direction_of key)))
      × ((moves (direction_of key) (updates (handle_key_press h now later code).0 ticks).1
              * h.arr_rate
            ≤ total_ms ticks - h.das_delay)
          × (total_ms ticks - h.das_delay
              < suc
                  (moves (direction_of key) (updates (handle_key_press h now later code).0 ticks).1)
                * h.arr_rate))
press-then-updates h now later code key ticks k real new pos ok small =
    let h' = (handle_key_press h now later code).0 in
    let d = direction_of key in
    let p = press-Pressed h now later code key k real new pos in
    let all = updates-moves ticks h' d 0 0 p.direction real ok p.repeating (omega (arith, small)) in
    let m = moves d (updates h' ticks).1 in
    let end = (updates h' ticks).0 in
    let rate : end.arr_rate ≡ h.arr_rate = all.1.0 ∙ p.rate in
    let balance : m * h.arr_rate + end.horizontal_arr_accumulator ≡ total_ms ticks - h.das_delay =
      ap (λ z. m * z + end.horizontal_arr_accumulator) (sym rate)
      ∙ ap (λ z. z * end.arr_rate + end.horizontal_arr_accumulator) (omega arith)
      ∙ all.0.balance
      ∙ omega (arith, all.1.1, p.delay) in
    let below : end.horizontal_arr_accumulator < h.arr_rate = omega (arith, all.0.below, rate) in
    (p.moved, (omega (arith, balance), grind (arith, balance, below)))
