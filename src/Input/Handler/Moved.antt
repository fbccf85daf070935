-- ===== src/Input/Handler/Moved.antt =====
-- crates/tetris-terminal/src/input/handler.rs, `update`: the ticks of a held direction, one by one and
-- in a row.
use tui_tetris.Prelude.{ℕ, ◌+◌, ◌-◌, ◌*◌, ◌%◌, ◌≤◌, ◌<◌, ◌≡◌, refl, ap, ◌∙◌, inl, inr, true, false}
use tui_tetris.Prelude.{
  List, [], ◌∷◌, ◌++◌, length, take, replicate, leb, u32_mod, arith, Bool-cases,
}
use tui_tetris.Prelude.{count_if-append, length-replicate, take-append_nil, append-nil}
use mathlib.Core.Path.{sym, subst}
use tui_tetris.Types.{GameAction}
use tui_tetris.Input.Handler.{
  InputHandler, HorizontalDirection, to_left, to_right, no_direction, move_of, same_direction,
}
use tui_tetris.Input.Handler.{
  millis_since, timeout_ms, repeat_horizontal, update_horizontal, update_down, update,
}
use tui_tetris.Input.Handler.Repeats.{Repeating, repeat_horizontal-Ticked}
use tui_tetris.Input.Handler.Ticks.{
  is_move, moves, updates, total_ms, steady, auto_release-fresh, moves-replicate, moves-update_down,
  Repeating-update_down, mul_cancel, few_moves,
}

-- One tick of a held direction.
record Moved (h h' : InputHandler) (d : HorizontalDirection) (held n elapsed : ℕ)
    (actions : List GameAction) : Type 0 where
  count : ℕ
  repeating : Repeating h' (held + elapsed) (n + count)
  moved : moves d actions ≡ count
  direction : h'.horizontal ≡ d
  rate : h'.arr_rate ≡ h.arr_rate
  delay : h'.das_delay ≡ h.das_delay

repeat_horizontal-kept :
    (h : InputHandler) (d : HorizontalDirection) (elapsed : ℕ)
    → ((repeat_horizontal h d elapsed).0.arr_rate ≡ h.arr_rate)
      × (((repeat_horizontal h d elapsed).0.das_delay ≡ h.das_delay)
          × ((repeat_horizontal h d elapsed).0.horizontal ≡ h.horizontal))
unfolding repeat_horizontal
repeat_horizontal-kept h d elapsed =
    elim (Bool-cases (leb h.das_delay ((h.horizontal_das_timer + elapsed) % u32_mod))) [
      | inl on ↦ rw on (refl, (refl, refl))
      | inr off ↦ rw off (refl, (refl, refl))
    ]

update_down-kept :
    (h : InputHandler) (elapsed : ℕ) (actions : List GameAction)
    → ((update_down h elapsed actions).0.arr_rate ≡ h.arr_rate)
      × (((update_down h elapsed actions).0.das_delay ≡ h.das_delay)
          × ((update_down h elapsed actions).0.horizontal ≡ h.horizontal))
unfolding update_down
update_down-kept h elapsed actions = elim (Bool-cases h.down_held) [
  | inl down ↦ rw down (refl, (refl, refl))
  | inr up ↦ rw up (refl, (refl, refl))
]

held-Moved :
    (h : InputHandler) (d : HorizontalDirection) (held n elapsed : ℕ)
    → h.horizontal ≡ d
    → same_direction d no_direction ≡ false
    → Repeating h held n
    → held + elapsed < u32_mod
    → elapsed ≤ 32 * h.arr_rate
    → (let out = repeat_horizontal h d elapsed in
        let all = update_down out.0 elapsed out.1 in Moved h all.0 d held n elapsed all.1)
held-Moved h d held n elapsed here real r small short =
    let out = repeat_horizontal h d elapsed in
    let all = update_down out.0 elapsed out.1 in
    let ticked = repeat_horizontal-Ticked h d held n elapsed r small in
    let kept = repeat_horizontal-kept h d elapsed in
    let kept' = update_down-kept out.0 elapsed out.1 in
    let balance : (n + ticked.count) * h.arr_rate + out.0.horizontal_arr_accumulator
        ≡ held + elapsed - h.das_delay =
      ap (λ z. (n + ticked.count) * z + out.0.horizontal_arr_accumulator) (sym kept.0)
      ∙ ticked.repeating.balance
      ∙ ap (λ z. held + elapsed - z) kept.1.0 in
    let few = mul_cancel ticked.count h.arr_rate (
      few_moves n ticked.count h.arr_rate h.horizontal_arr_accumulator
        out.0.horizontal_arr_accumulator held elapsed h.das_delay r.balance r.below balance
        short) in
    let size = length-replicate ticked.count (move_of d) in
    let emitted : out.1 ≡ replicate ticked.count (move_of d) =
      ticked.emitted
      ∙ ap (λ z. take 32 z) (sym (append-nil (replicate ticked.count (move_of d))))
      ∙ take-append_nil 32 (replicate ticked.count (move_of d)) (omega (arith, size, few)) in
    let sizes : length out.1 ≡ ticked.count = ap (λ z. length z) emitted ∙ size in
    record {
      count = ticked.count;
      repeating =
          Repeating-update_down out.0 (held + elapsed) (n + ticked.count) elapsed out.1
            ticked.repeating;
      moved =
          moves-update_down out.0 d elapsed out.1 (omega (arith, sizes, few))
          ∙ ap (λ z. moves d z) emitted
          ∙ moves-replicate d ticked.count real;
      direction = kept'.1.1 ∙ kept.1.1 ∙ here;
      rate = kept'.0 ∙ kept.0;
      delay = kept'.1.0 ∙ kept.1.0;
    }

update_horizontal-held :
    (h : InputHandler) (d : HorizontalDirection) (elapsed : ℕ)
    → h.horizontal ≡ d
    → same_direction d no_direction ≡ false
    → update_horizontal h elapsed ≡ repeat_horizontal h d elapsed
update_horizontal-held h to_left elapsed here real = ground (arith, here)
update_horizontal-held h to_right elapsed here real = ground (arith, here)
update_horizontal-held h no_direction elapsed here real = absurd (ground (arith, real))

update-held :
    (h : InputHandler) (d : HorizontalDirection) (now elapsed : ℕ)
    → h.horizontal ≡ d
    → same_direction d no_direction ≡ false
    → leb (millis_since h.last_key_time now) (timeout_ms h) ≡ true
    → (let out = repeat_horizontal h d elapsed in update_down out.0 elapsed out.1)
      ≡ update h now elapsed
unfolding update
update-held h d now elapsed here real fresh = sym (
    ap (λ k. let out = update_horizontal k elapsed in update_down out.0 elapsed out.1)
      (auto_release-fresh h now fresh)
    ∙ ap (λ z. update_down z.0 elapsed z.1) (update_horizontal-held h d elapsed here real))

update-Moved :
    (h : InputHandler) (d : HorizontalDirection) (held n now elapsed : ℕ)
    → h.horizontal ≡ d
    → same_direction d no_direction ≡ false
    → leb (millis_since h.last_key_time now) (timeout_ms h) ≡ true
    → Repeating h held n
    → held + elapsed < u32_mod
    → elapsed ≤ 32 * h.arr_rate
    → Moved h (update h now elapsed).0 d held n elapsed (update h now elapsed).1
update-Moved h d held n now elapsed here real fresh r small short =
    subst (λ z. Moved h z.0 d held n elapsed z.1) (update-held h d now elapsed here real fresh)
      (held-Moved h d held n elapsed here real r small short)

-- While a direction is held, with every tick before the release timeout and at most 32 rates long,
-- the moves of any sequence of updates take up the time past the delay: their number times the
-- repeat rate, and a remainder below the rate, are the time held less the delay.
pub updates-moves :
    (ticks : List (ℕ × ℕ)) (h : InputHandler) (d : HorizontalDirection) (held n : ℕ)
    → h.horizontal ≡ d
    → same_direction d no_direction ≡ false
    → steady h ticks ≡ true
    → Repeating h held n
    → held + total_ms ticks < u32_mod
    → Repeating (updates h ticks).0 (held + total_ms ticks) (n + moves d (updates h ticks).1)
      × (((updates h ticks).0.arr_rate ≡ h.arr_rate)
          × ((updates h ticks).0.das_delay ≡ h.das_delay))
unfolding updates steady
updates-moves [] h d held n here real ok r small =
    let t : held + 0 ≡ held = omega arith in
    let c : n + 0 ≡ n = omega arith in (rw (t, c) r, (refl, refl))
updates-moves (tick ∷ ticks) h d held n here real ok r small =
    let h' = (update h tick.0 tick.1).0 in
    let rest = (updates h' ticks).1 in
    let fresh : leb (millis_since h.last_key_time tick.0) (timeout_ms h) ≡ true =
      ground (arith, ok) in
    let short : tick.1 ≤ 32 * h.arr_rate = ground (arith, ok) in
    let later : steady h' ticks ≡ true = ground (arith, ok) in
    let m = update-Moved h d held n tick.0 tick.1 here real fresh r (omega (arith, small)) short in
    let ih =
      updates-moves ticks h' d (held + tick.1) (n + m.count) m.direction real later m.repeating
        (omega (arith, small)) in
    let time : held + tick.1 + total_ms ticks ≡ held + (tick.1 + total_ms ticks) = omega arith in
    let count : n + m.count + moves d rest ≡ n + moves d ((update h tick.0 tick.1).1 ++ rest) =
      omega (arith, count_if-append (is_move d) (update h tick.0 tick.1).1 rest, m.moved) in
    (
      subst (λ k. Repeating (updates h' ticks).0 (held + (tick.1 + total_ms ticks)) k) count
          (subst (λ t. Repeating (updates h' ticks).0 t (n + m.count + moves d rest)) time ih.0),
      (ih.1.0 ∙ m.rate, ih.1.1 ∙ m.delay),
    )
