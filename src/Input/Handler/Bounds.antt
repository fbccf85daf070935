-- ===== src/Input/Handler/Bounds.antt =====
-- crates/tetris-terminal/src/input/handler.rs: the invariants of the handler's state.
use tui_tetris.Prelude.{ℕ, ◌≤◌, ◌<◌, ◌≡◌, refl, inl, inr, Bool, true, false}
use tui_tetris.Prelude.{Option, none, some, arith, if_both, Option-cases}
use tui_tetris.Types.{GameAction, move_left, move_right, soft_drop_arr_ms}
use tui_tetris.Input.{KeyCode}
use tui_tetris.Input.Handler.{
  InputHandler, HorizontalDirection, to_left, to_right, no_direction, same_direction, clamp,
}
use tui_tetris.Input.Handler.{note_repeat, mark_repeat, learn_interval, held_key}
use tui_tetris.Input.Handler.{handle_key_repeat, handle_key_press, handle_key_release, auto_release}
use tui_tetris.Input.Handler.{
  Held, left_key, right_key, down_key, set_horizontal, set_down, press_horizontal, press_down,
  release_direction, free_horizontal, free_down,
}

-- The rate is positive and its accumulator below it, the release timeout is within its bounds,
-- and a direction that is not held has no time.
pub record IsHandler (h : InputHandler) : Type 0 where
  pub rate : 0 < h.arr_rate
  pub low : 0 < h.repeat_release_timeout_min_ms
  pub timeout_low : h.repeat_release_timeout_min_ms ≤ h.repeat_release_timeout_ms
  pub timeout_high : h.repeat_release_timeout_ms ≤ h.repeat_release_timeout_max_ms
  pub drained : h.horizontal_arr_accumulator < h.arr_rate
  pub down_drained : h.down_arr_accumulator < soft_drop_arr_ms
  pub idle :
      same_direction h.horizontal no_direction ≡ true
      → (h.horizontal_das_timer ≡ 0) × (h.horizontal_arr_accumulator ≡ 0)
  pub down_idle : h.down_held ≡ false → (h.down_das_timer ≡ 0) × (h.down_arr_accumulator ≡ 0)

pub clamp-low : (n low high : ℕ) → low ≤ high → low ≤ clamp n low high
clamp-low n low high h = ground (arith, h)

pub clamp-high : (n low high : ℕ) → low ≤ high → clamp n low high ≤ high
clamp-high n low high h = ground (arith, h)

module _ (h : InputHandler) (v : IsHandler h) where
  pub set_horizontal-IsHandler : (d : HorizontalDirection) → IsHandler (set_horizontal h d)
  set_horizontal-IsHandler d = record {
    rate = v.rate;
    low = v.low;
    timeout_low = v.timeout_low;
    timeout_high = v.timeout_high;
    drained = v.rate;
    down_drained = v.down_drained;
    idle = λ e. (refl, refl);
    down_idle = v.down_idle;
  }

  pub set_down-IsHandler : (held : Bool) → IsHandler (set_down h held)
  set_down-IsHandler held = record {
    rate = v.rate;
    low = v.low;
    timeout_low = v.timeout_low;
    timeout_high = v.timeout_high;
    drained = v.drained;
    down_drained = omega arith;
    idle = v.idle;
    down_idle = λ e. (refl, refl);
  }

  pub with_timeout-IsHandler :
      (timeout : ℕ)
      → h.repeat_release_timeout_min_ms ≤ timeout
      → timeout ≤ h.repeat_release_timeout_max_ms
      → IsHandler (record h { repeat_release_timeout_ms = timeout })
  with_timeout-IsHandler timeout lo hi = record {
    rate = v.rate;
    low = v.low;
    timeout_low = lo;
    timeout_high = hi;
    drained = v.drained;
    down_drained = v.down_drained;
    idle = v.idle;
    down_idle = v.down_idle;
  }

  pub with_clock-IsHandler :
      (key_time timeout : ℕ) (saw : Bool) (last : Option ℕ)
      → IsHandler (record h {
        last_key_time = key_time;
        saw_repeat_event = saw;
        last_repeat_time = last;
        key_release_timeout_ms = timeout;
      })
  with_clock-IsHandler key_time timeout saw last = record {
    rate = v.rate;
    low = v.low;
    timeout_low = v.timeout_low;
    timeout_high = v.timeout_high;
    drained = v.drained;
    down_drained = v.down_drained;
    idle = v.idle;
    down_idle = v.down_idle;
  }

  learn_interval-IsHandler : (now : ℕ) (last : Option ℕ) → IsHandler (learn_interval h now last)
  learn_interval-IsHandler now none = v
  learn_interval-IsHandler now (some prev) =
      let ordered : h.repeat_release_timeout_min_ms ≤ h.repeat_release_timeout_max_ms =
        omega (arith, v.timeout_low, v.timeout_high) in
      with_timeout-IsHandler _ (clamp-low _ _ _ ordered) (clamp-high _ _ _ ordered)

  mark_repeat-IsHandler : (now : ℕ) (key : Option Held) → IsHandler (mark_repeat h now key)
  mark_repeat-IsHandler now none = v
  mark_repeat-IsHandler now (some key) =
      with_clock-IsHandler now h.key_release_timeout_ms true h.last_repeat_time

note_repeat-IsHandler : (h : InputHandler) → IsHandler h → (now : ℕ) → IsHandler (note_repeat h now)
note_repeat-IsHandler h v now =
    let k = learn_interval h now h.last_repeat_time in
    if_both IsHandler h.saw_repeat_event _ h
      (λ saw.
        with_clock-IsHandler k (learn_interval-IsHandler h v now h.last_repeat_time) k.last_key_time
          k.key_release_timeout_ms k.saw_repeat_event (some now))
      (λ not_yet. v)

pub repeat-IsHandler :
    (h : InputHandler) (now : ℕ) (code : KeyCode)
    → IsHandler h
    → IsHandler (handle_key_repeat h now code)
unfolding handle_key_repeat
repeat-IsHandler h now code v =
    note_repeat-IsHandler (mark_repeat h now (held_key code))
      (mark_repeat-IsHandler h v now (held_key code)) now

press_horizontal-IsHandler :
    (h : InputHandler) (d : HorizontalDirection) (a : GameAction) (later : ℕ) (code : KeyCode)
    → IsHandler h
    → IsHandler (press_horizontal h d a later code).0
press_horizontal-IsHandler h d a later code v =
    if_both (λ (z : InputHandler × Option GameAction). IsHandler z.0)
      (same_direction h.horizontal d) _ _ (λ e. repeat-IsHandler h later code v)
      (λ e. set_horizontal-IsHandler h v d)

press_down-IsHandler :
    (h : InputHandler) (later : ℕ) (code : KeyCode)
    → IsHandler h
    → IsHandler (press_down h later code).0
press_down-IsHandler h later code v =
    if_both (λ (z : InputHandler × Option GameAction). IsHandler z.0) h.down_held _ _
      (λ e. repeat-IsHandler h later code v) (λ e. set_down-IsHandler h v true)

pub press-IsHandler :
    (h : InputHandler) (now later : ℕ) (code : KeyCode)
    → IsHandler h
    → IsHandler (handle_key_press h now later code).0
unfolding handle_key_press
press-IsHandler h now later code v =
    let seen : InputHandler = record h { last_key_time = now } in
    let w : IsHandler seen =
      with_clock-IsHandler h v now h.key_release_timeout_ms h.saw_repeat_event h.last_repeat_time in
    elim (Option-cases (held_key code)) [
      | inl e ↦ rw (e, handle_key_press) v
      | inr (left_key, e) ↦
          rw (e, handle_key_press) (press_horizontal-IsHandler seen to_left move_left later code w)
      | inr (right_key, e) ↦
          rw (e, handle_key_press)
            (press_horizontal-IsHandler seen to_right move_right later code w)
      | inr (down_key, e) ↦ rw (e, handle_key_press) (press_down-IsHandler seen later code w)
    ]

release_direction-IsHandler :
    (h : InputHandler) (d : HorizontalDirection) → IsHandler h → IsHandler (release_direction h d)
release_direction-IsHandler h d v =
    if_both IsHandler (same_direction h.horizontal d) _ h
      (λ e. set_horizontal-IsHandler h v no_direction) (λ e. v)

pub release-IsHandler :
    (h : InputHandler) (code : KeyCode) → IsHandler h → IsHandler (handle_key_release h code)
unfolding handle_key_release
release-IsHandler h code v = elim (Option-cases (held_key code)) [
  | inl e ↦ rw (e, handle_key_release) v
  | inr (left_key, e) ↦ rw (e, handle_key_release) (release_direction-IsHandler h to_left v)
  | inr (right_key, e) ↦ rw (e, handle_key_release) (release_direction-IsHandler h to_right v)
  | inr (down_key, e) ↦ rw (e, handle_key_release) (set_down-IsHandler h v false)
]

free_down-IsHandler : (h : InputHandler) → IsHandler h → IsHandler (free_down h)
free_down-IsHandler h v =
    if_both IsHandler h.down_held _ h (λ e. set_down-IsHandler h v false) (λ e. v)

pub auto_release-IsHandler :
    (h : InputHandler) (now : ℕ) → IsHandler h → IsHandler (auto_release h now)
unfolding auto_release
auto_release-IsHandler h now v =
    if_both IsHandler _ (free_down (free_horizontal h)) h
      (λ stale. free_down-IsHandler (free_horizontal h) (
        if_both IsHandler (same_direction h.horizontal no_direction) h _ (λ e. v)
          (λ e. set_horizontal-IsHandler h v no_direction)))
      (λ fresh. v)
