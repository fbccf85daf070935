-- ===== src/Input/Handler/Reached.antt =====
-- crates/tetris-terminal/src/input/handler.rs: the handlers that its operations reach.
use tui_tetris.Prelude.{ℕ, ◌+◌, ◌%◌, ◌≤◌, ◌<◌, ◌≡◌, refl, ap, false, max}
use tui_tetris.Prelude.{List, [], length, length-take, replicate, leb, arith, if_both, u32_mod}
use tui_tetris.Types.{GameAction, soft_drop, soft_drop_arr_ms}
use tui_tetris.Input.{KeyCode}
use tui_tetris.Input.Handler.{
  InputHandler, HorizontalDirection, to_left, to_right, no_direction, same_direction, drain,
  move_of,
}
use tui_tetris.Input.Handler.{with_config, bound_release, with_repeat_release_timeout_bounds_ms}
use tui_tetris.Input.Handler.{
  handle_key_repeat, handle_key_press, handle_key_release, auto_release, repeat_horizontal,
  held_sum, held_timer, update_toward, update_down, update, reset,
}
use tui_tetris.Input.Handler.{with_key_release_timeout_ms}
use tui_tetris.Input.Handler.Repeats.{drain-Drained}
use tui_tetris.Input.Handler.Bounds.{
  IsHandler, clamp-low, clamp-high, set_horizontal-IsHandler, set_down-IsHandler,
  with_clock-IsHandler, repeat-IsHandler,
}
use tui_tetris.Input.Handler.Bounds.{press-IsHandler, release-IsHandler, auto_release-IsHandler}

with_horizontal-IsHandler :
    (h : InputHandler) (timer acc : ℕ)
    → same_direction h.horizontal no_direction ≡ false
    → acc < h.arr_rate
    → IsHandler h
    → IsHandler (record h { horizontal_das_timer = timer; horizontal_arr_accumulator = acc })
with_horizontal-IsHandler h timer acc real below v = record {
  rate = v.rate;
  low = v.low;
  timeout_low = v.timeout_low;
  timeout_high = v.timeout_high;
  drained = below;
  down_drained = v.down_drained;
  idle = λ e. absurd (ground (arith, e, real));
  down_idle = v.down_idle;
}

repeat_horizontal-IsHandler :
    (h : InputHandler) (d : HorizontalDirection) (elapsed : ℕ)
    → same_direction h.horizontal no_direction ≡ false
    → IsHandler h
    → IsHandler (repeat_horizontal h d elapsed).0
unfolding repeat_horizontal
repeat_horizontal-IsHandler h d elapsed real v =
    let timer = held_timer h elapsed in
    let sum = held_sum h elapsed in
    let out = drain sum h.arr_rate (move_of d) sum [] in
    if_both (λ (z : InputHandler × List GameAction). IsHandler z.0) (leb h.das_delay timer)
      (record h { horizontal_das_timer = timer; horizontal_arr_accumulator = out.0 }, out.1)
      (record h { horizontal_das_timer = timer }, [])
      (λ on.
        with_horizontal-IsHandler h timer out.0 real
          (drain-Drained sum h.arr_rate (move_of d) sum [] v.rate (omega arith) (omega arith)).below
          v)
      (λ off. with_horizontal-IsHandler h timer h.horizontal_arr_accumulator real v.drained v)

update_toward-IsHandler :
    (h : InputHandler) (d : HorizontalDirection) (elapsed : ℕ)
    → h.horizontal ≡ d
    → IsHandler h
    → IsHandler (update_toward h d elapsed).0
update_toward-IsHandler h to_left elapsed e v =
    repeat_horizontal-IsHandler h to_left elapsed (ground (arith, e)) v
update_toward-IsHandler h to_right elapsed e v =
    repeat_horizontal-IsHandler h to_right elapsed (ground (arith, e)) v
update_toward-IsHandler h no_direction elapsed e v = set_horizontal-IsHandler h v h.horizontal

update_down-IsHandler :
    (h : InputHandler) (elapsed : ℕ) (actions : List GameAction)
    → length actions ≤ 32
    → IsHandler h
    → IsHandler (update_down h elapsed actions).0
unfolding update_down
update_down-IsHandler h elapsed actions fits v =
    if_both (λ (z : InputHandler × List GameAction). IsHandler z.0) h.down_held _ _
      (λ on. record {
        rate = v.rate;
        low = v.low;
        timeout_low = v.timeout_low;
        timeout_high = v.timeout_high;
        drained = v.drained;
        down_drained =
            (drain-Drained ((h.down_arr_accumulator + elapsed) % u32_mod) soft_drop_arr_ms soft_drop
              ((h.down_arr_accumulator + elapsed) % u32_mod) actions (omega arith) (omega arith)
              fits).below;
        idle = v.idle;
        down_idle = λ e. absurd (ground (arith, e, on));
      })
      (λ off. set_down-IsHandler h v h.down_held)

length-repeat :
    (h : InputHandler) (d : HorizontalDirection) (elapsed : ℕ)
    → 0 < h.arr_rate
    → length (repeat_horizontal h d elapsed).1 ≤ 32
unfolding repeat_horizontal
length-repeat h d elapsed pos =
    let sum = held_sum h elapsed in
    let out = drain-Drained sum h.arr_rate (move_of d) sum [] pos (omega arith) (omega arith) in
    if_both (λ (z : InputHandler × List GameAction). length z.1 ≤ 32)
      (leb h.das_delay (held_timer h elapsed)) _ _
      (λ on.
        omega
          (arith, ap (λ z. length z) out.emitted, length-take 32 (replicate out.count (move_of d))))
      (λ off. omega arith)

length-update_toward :
    (h : InputHandler) (d : HorizontalDirection) (elapsed : ℕ)
    → 0 < h.arr_rate
    → length (update_toward h d elapsed).1 ≤ 32
unfolding repeat_horizontal
length-update_toward h no_direction elapsed pos = omega arith
length-update_toward h to_left elapsed pos = length-repeat h to_left elapsed pos
length-update_toward h to_right elapsed pos = length-repeat h to_right elapsed pos

update-IsHandler :
    (h : InputHandler) (now elapsed : ℕ) → IsHandler h → IsHandler (update h now elapsed).0
unfolding update
update-IsHandler h now elapsed v =
    let k = auto_release h now in
    let w = auto_release-IsHandler h now v in
    update_down-IsHandler (update_toward k k.horizontal elapsed).0 elapsed
      (update_toward k k.horizontal elapsed).1 (length-update_toward k k.horizontal elapsed w.rate)
      (update_toward-IsHandler k k.horizontal elapsed refl w)

bound_release-IsHandler :
    (h : InputHandler) (low high : ℕ)
    → 0 < low
    → low ≤ high
    → IsHandler h
    → IsHandler (bound_release h low high)
bound_release-IsHandler h low high pos ordered v = record {
  rate = v.rate;
  low = pos;
  timeout_low = clamp-low h.repeat_release_timeout_ms low high ordered;
  timeout_high = clamp-high h.repeat_release_timeout_ms low high ordered;
  drained = v.drained;
  down_drained = v.down_drained;
  idle = v.idle;
  down_idle = v.down_idle;
}

with_bounds-IsHandler :
    (h : InputHandler) (low high : ℕ)
    → IsHandler h
    → IsHandler (with_repeat_release_timeout_bounds_ms h low high)
unfolding with_repeat_release_timeout_bounds_ms
with_bounds-IsHandler h low high v =
    if_both IsHandler (leb (max low 1) (max high 1)) _ _
      (λ e. bound_release-IsHandler h (max low 1) (max high 1) (omega arith) (ground (arith, e)) v)
      (λ e. bound_release-IsHandler h (max high 1) (max low 1) (omega arith) (ground (arith, e)) v)

-- The handlers that the operations reach.
pub data Reached : InputHandler → Type 0 where
  configured : (now das_delay arr_rate : ℕ) → Reached (with_config now das_delay arr_rate)
  key_timeout :
      (h : InputHandler) (timeout : ℕ) → Reached h → Reached (with_key_release_timeout_ms h timeout)
  bounds :
      (h : InputHandler) (low high : ℕ)
      → Reached h
      → Reached (with_repeat_release_timeout_bounds_ms h low high)
  pressed :
      (h : InputHandler) (now later : ℕ) (code : KeyCode)
      → Reached h
      → Reached (handle_key_press h now later code).0
  repeated :
      (h : InputHandler) (now : ℕ) (code : KeyCode)
      → Reached h
      → Reached (handle_key_repeat h now code)
  released : (h : InputHandler) (code : KeyCode) → Reached h → Reached (handle_key_release h code)
  updated : (h : InputHandler) (now elapsed : ℕ) → Reached h → Reached (update h now elapsed).0
  was_reset : (h : InputHandler) (now : ℕ) → Reached h → Reached (reset h now)

-- Every handler that the operations reach keeps the invariants, whatever the keys and times.
pub Reached-IsHandler : (h : InputHandler) → Reached h → IsHandler h
Reached-IsHandler h (configured now das_delay arr_rate) = record {
  rate = omega arith;
  low = omega arith;
  timeout_low = omega arith;
  timeout_high = omega arith;
  drained = omega arith;
  down_drained = omega arith;
  idle = λ e. (refl, refl);
  down_idle = λ e. (refl, refl);
}
Reached-IsHandler h' (key_timeout h timeout r) =
    with_clock-IsHandler h (Reached-IsHandler h r) h.last_key_time timeout h.saw_repeat_event
      h.last_repeat_time
Reached-IsHandler h' (bounds h low high r) =
    with_bounds-IsHandler h low high (Reached-IsHandler h r)
Reached-IsHandler h' (pressed h now later code r) =
    press-IsHandler h now later code (Reached-IsHandler h r)
Reached-IsHandler h' (repeated h now code r) = repeat-IsHandler h now code (Reached-IsHandler h r)
Reached-IsHandler h' (released h code r) = release-IsHandler h code (Reached-IsHandler h r)
Reached-IsHandler h' (updated h now elapsed r) =
    update-IsHandler h now elapsed (Reached-IsHandler h r)
Reached-IsHandler h' (was_reset h now r) =
    let v = Reached-IsHandler h r in
    record {
      rate = v.rate;
      low = v.low;
      timeout_low = omega arith;
      timeout_high = omega (arith, v.timeout_low, v.timeout_high);
      drained = v.rate;
      down_drained = omega arith;
      idle = λ e. (refl, refl);
      down_idle = λ e. (refl, refl);
    }
