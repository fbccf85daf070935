-- ===== src/Input/Handler/Ticks.antt =====
-- crates/tetris-terminal/src/input/handler.rs, `update`: sequences of ticks, and what a tick does to
-- the moves of a held direction.
use tui_tetris.Prelude.{
  ℕ, zero, suc, ◌+◌, ◌-◌, ◌*◌, ◌%◌, ◌≤◌, ◌<◌, ◌≡◌, refl, ap, ◌∙◌, inl, inr, Bool, true, false, ◌&&◌,
}
use tui_tetris.Prelude.{
  List, [], ◌∷◌, ◌++◌, length, take, replicate, leb, u32_mod, arith, Bool-cases,
}
use tui_tetris.Prelude.{count_if, count_if-append, take-append}
use tui_tetris.Types.{
  GameAction, move_left, move_right, soft_drop, hard_drop, rotate_cw, rotate_ccw, hold, pause,
  restart, soft_drop_arr_ms,
}
use tui_tetris.Input.Handler.{
  InputHandler, HorizontalDirection, to_left, to_right, no_direction, move_of, same_direction,
}
use tui_tetris.Input.Handler.{millis_since, timeout_ms, update_down, auto_release, update}
use tui_tetris.Input.Handler.Repeats.{Repeating, drain-Drained}

abbrev pub is_move : HorizontalDirection → GameAction → Bool
is_move d a = elim a [
  | move_left ↦ same_direction d to_left
  | move_right ↦ same_direction d to_right
  | soft_drop ↦ false
  | hard_drop ↦ false
  | rotate_cw ↦ false
  | rotate_ccw ↦ false
  | hold ↦ false
  | pause ↦ false
  | restart ↦ false
]

-- The moves in the direction.
abbrev pub moves : HorizontalDirection → List GameAction → ℕ
moves d actions = count_if (is_move d) actions

-- The updates of a list of clock readings and elapsed times, with all their actions.
unfoldable pub updates : InputHandler → List (ℕ × ℕ) → InputHandler × List GameAction
updates h [] = (h, [])
updates h (tick ∷ ticks) =
    let first = update h tick.0 tick.1 in
    let rest = updates first.0 ticks in (rest.0, first.1 ++ rest.1)

abbrev pub total_ms : List (ℕ × ℕ) → ℕ
total_ms [] = 0
total_ms (tick ∷ ticks) = tick.1 + total_ms ticks

-- No tick is after the release timeout, nor so long that its moves do not fit the 32 actions.
unfoldable pub steady : InputHandler → List (ℕ × ℕ) → Bool
steady h [] = true
steady h (tick ∷ ticks) =
    let rest = steady (update h tick.0 tick.1).0 ticks in
    leb (millis_since h.last_key_time tick.0) (timeout_ms h)
    && (leb tick.1 (32 * h.arr_rate) && rest)

pub auto_release-fresh :
    (h : InputHandler) (now : ℕ)
    → leb (millis_since h.last_key_time now) (timeout_ms h) ≡ true
    → auto_release h now ≡ h
unfolding auto_release
auto_release-fresh h now fresh = ground (arith, fresh)

moves-take-soft : (d : HorizontalDirection) (m k : ℕ) → moves d (take m (replicate k soft_drop)) ≡ 0
moves-take-soft d zero k = refl
moves-take-soft d (suc m) zero = refl
moves-take-soft d (suc m) (suc k) = ground (arith, moves-take-soft d m k)

pub moves-replicate :
    (d : HorizontalDirection) (k : ℕ)
    → same_direction d no_direction ≡ false
    → moves d (replicate k (move_of d)) ≡ k
moves-replicate d zero e = refl
moves-replicate to_left (suc k) e = ground (arith, moves-replicate to_left k e)
moves-replicate to_right (suc k) e = ground (arith, moves-replicate to_right k e)
moves-replicate no_direction (suc k) e = absurd (ground (arith, e))

pub moves-update_down :
    (h : InputHandler) (d : HorizontalDirection) (elapsed : ℕ) (actions : List GameAction)
    → length actions ≤ 32
    → moves d (update_down h elapsed actions).1 ≡ moves d actions
unfolding update_down
moves-update_down h d elapsed actions fits = elim (Bool-cases h.down_held) [
  | inr up ↦ rw up refl
  | inl down ↦
      let acc = (h.down_arr_accumulator + elapsed) % u32_mod in
      let out =
        drain-Drained acc soft_drop_arr_ms soft_drop acc actions (omega arith) (omega arith) fits in
      rw down (
        ap (λ z. moves d z) (out.emitted ∙ take-append 32 actions _ fits)
        ∙ count_if-append (is_move d) actions _
        ∙ ap (λ k. moves d actions + k) (moves-take-soft d _ out.count)
        ∙ omega arith)
]

pub Repeating-update_down :
    (h : InputHandler) (held n elapsed : ℕ) (actions : List GameAction)
    → Repeating h held n
    → Repeating (update_down h elapsed actions).0 held n
unfolding update_down
Repeating-update_down h held n elapsed actions r = elim (Bool-cases h.down_held) [
  | inl down ↦ rw down (record { timer = r.timer; balance = r.balance; below = r.below })
  | inr up ↦ rw up (record { timer = r.timer; balance = r.balance; below = r.below })
]

pub mul_cancel : (k rate : ℕ) → k * rate < 33 * rate → k ≤ 32
mul_cancel k rate h = elim (Bool-cases (leb k 32)) [
  | inl le ↦ ground (arith, le)
  | inr gt ↦
      let big : k ≡ 33 + (k - 33) = ground (arith, gt) in
      absurd (grind (arith, h, big, ap (λ z. z * rate) big))
]

pub few_moves :
    (n c rate acc acc' held elapsed das : ℕ)
    → n * rate + acc ≡ held - das
    → acc < rate
    → (n + c) * rate + acc' ≡ held + elapsed - das
    → elapsed ≤ 32 * rate
    → c * rate < 33 * rate
few_moves n c rate acc acc' held elapsed das b below b' short =
    let le : held + elapsed - das ≤ held - das + elapsed = omega arith in grind (arith, le)
