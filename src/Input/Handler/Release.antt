-- ===== src/Input/Handler/Release.antt =====
-- crates/tetris-terminal/src/input/handler.rs: release without a release event.
use tui_tetris.Prelude.{ℕ, ◌≡◌, refl, true, false, List, [], ltb, arith, if_both}
use tui_tetris.Types.{GameAction}
use tui_tetris.Input.Handler.{
  InputHandler, no_direction, millis_since, timeout_ms, auto_release, update, update_down,
  update_toward, free_down, free_horizontal, set_down,
}
use tui_tetris.Input.Handler.{
  HorizontalDirection, to_left, to_right, same_direction, set_horizontal,
}
use mathlib.Core.Path.{sym, subst}

abbrev Freed : InputHandler → Type 0
Freed h = (h.horizontal ≡ no_direction) × (h.down_held ≡ false)

direction_eq : (d : HorizontalDirection) → same_direction d no_direction ≡ true → d ≡ no_direction
direction_eq no_direction e = refl
direction_eq to_left e = absurd (ground (arith, e))
direction_eq to_right e = absurd (ground (arith, e))

free_down-Freed : (h : InputHandler) → h.horizontal ≡ no_direction → Freed (free_down h)
free_down-Freed h e =
    if_both Freed h.down_held (set_down h false) h (λ on. (e, refl)) (λ off. (e, off))

auto_release-Freed :
    (h : InputHandler) (now : ℕ)
    → ltb (timeout_ms h) (millis_since h.last_key_time now) ≡ true
    → Freed (auto_release h now)
unfolding auto_release
auto_release-Freed h now stale =
    if_both Freed (ltb (timeout_ms h) (millis_since h.last_key_time now))
      (free_down (free_horizontal h)) h
      (λ on. free_down-Freed (free_horizontal h) (
        if_both (λ (k : InputHandler). k.horizontal ≡ no_direction)
          (same_direction h.horizontal no_direction) h (set_horizontal h no_direction)
          (direction_eq h.horizontal) (λ e. refl)))
      (λ off. absurd (ground (arith, stale, off)))

abbrev Quiet : InputHandler × List GameAction → Type 0
Quiet out = (out.1 ≡ []) × Freed out.0

update_down-Quiet : (h : InputHandler) (elapsed : ℕ) → Freed h → Quiet (update_down h elapsed [])
unfolding update_down
update_down-Quiet h elapsed (e, up) = rw up (refl, (e, refl))

-- After the timeout since the last key, an update emits nothing and nothing is held, whatever the
-- elapsed time.
update-released :
    (h : InputHandler) (now elapsed : ℕ)
    → ltb (timeout_ms h) (millis_since h.last_key_time now) ≡ true
    → ((update h now elapsed).1 ≡ [])
      × (((update h now elapsed).0.horizontal ≡ no_direction)
          × ((update h now elapsed).0.down_held ≡ false))
unfolding update
update-released h now elapsed stale =
    let k = auto_release h now in
    let freed = auto_release-Freed h now stale in
    subst (λ d. let out = update_toward k d elapsed in Quiet (update_down out.0 elapsed out.1))
      (sym freed.0) (update_down-Quiet (update_toward k no_direction elapsed).0 elapsed freed)
