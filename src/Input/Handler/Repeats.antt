-- ===== src/Input/Handler/Repeats.antt =====
-- crates/tetris-terminal/src/input/handler.rs: how often a held key repeats.
use tui_tetris.Prelude.{ℕ, zero, suc, ◌+◌, ◌-◌, ◌*◌, ◌%◌, ◌≤◌, ◌<◌, ◌≡◌, refl, ap, ◌∙◌, inl, inr}
use tui_tetris.Prelude.{
  List, [], ◌∷◌, ◌++◌, length, take, replicate, ltb, leb, if◌then◌else◌, u32_mod, arith, Bool-cases,
}
use tui_tetris.Prelude.{
  leb→le, leb→lt, length-append, take-append_le, take-append_nil, append_assoc,
}
use mathlib.Core.Path.{sym}
use tui_tetris.Types.{GameAction}
use tui_tetris.Input.Handler.{InputHandler, HorizontalDirection, try_push, drain, move_of}
use tui_tetris.Input.Handler.{repeat_horizontal}

-- What the loop leaves: `count` actions were emitted, of which the list keeps 32 in all.
pub record Drained (rate : ℕ) (a : GameAction) (acc : ℕ) (actions : List GameAction)
    (out : ℕ × List GameAction) : Type 0 where
  pub count : ℕ
  pub balance : acc ≡ count * rate + out.0
  pub below : out.0 < rate
  pub emitted : out.1 ≡ take 32 (actions ++ replicate count a)

length-try_push :
    (actions : List GameAction) (a : GameAction)
    → length actions ≤ 32
    → length (try_push actions a) ≤ 32
length-try_push actions a hl = ground (arith, hl, length-append actions (a ∷ []))

take-try_push :
    (actions rest : List GameAction) (a : GameAction)
    → take 32 (try_push actions a ++ rest) ≡ take 32 (actions ++ a ∷ rest)
take-try_push actions rest a = elim (Bool-cases (ltb (length actions) 32)) [
  | inl room ↦ rw room (ap (λ xs. take 32 xs) (append_assoc actions (a ∷ []) rest))
  | inr full ↦ rw full (
      take-append_le 32 actions rest (ground (arith, full))
      ∙ sym (take-append_le 32 actions (a ∷ rest) (ground (arith, full))))
]

pub drain-Drained :
    (fuel rate : ℕ) (a : GameAction) (acc : ℕ) (actions : List GameAction)
    → 0 < rate
    → acc ≤ fuel
    → length actions ≤ 32
    → Drained rate a acc actions (drain fuel rate a acc actions)
unfolding drain
drain-Drained zero rate a acc actions hr hf hl = record {
  count = 0;
  balance = omega arith;
  below = omega arith;
  emitted = sym (take-append_nil 32 actions hl);
}
drain-Drained (suc fuel) rate a acc actions hr hf hl = elim (Bool-cases (leb rate acc)) [
  | inl on ↦
      let le = leb→le rate acc on in
      let rest =
        drain-Drained fuel rate a (acc - rate) (try_push actions a) hr (omega arith)
          (length-try_push actions a hl) in
      rw on (record {
        count = suc rest.count;
        balance = grind (arith, rest.balance);
        below = rest.below;
        emitted = rest.emitted ∙ take-try_push actions (replicate rest.count a) a;
      })
  | inr off ↦ rw off (record {
    count = 0;
    balance = omega arith;
    below = leb→lt rate acc off;
    emitted = sym (take-append_nil 32 actions hl);
  })
]

-- After `n` repeats, the key has been held for `n` rates and the accumulator past the delay.
pub record Repeating (h : InputHandler) (held n : ℕ) : Type 0 where
  pub timer : h.horizontal_das_timer ≡ held
  pub balance : n * h.arr_rate + h.horizontal_arr_accumulator ≡ held - h.das_delay
  pub below : h.horizontal_arr_accumulator < h.arr_rate

-- A tick of a held direction: `count` moves.
pub record Ticked (h h' : InputHandler) (d : HorizontalDirection) (held n elapsed : ℕ)
    (actions : List GameAction) : Type 0 where
  pub count : ℕ
  pub repeating : Repeating h' (held + elapsed) (n + count)
  pub emitted : actions ≡ take 32 (replicate count (move_of d))

pub repeat_horizontal-Ticked :
    (h : InputHandler) (d : HorizontalDirection) (held n elapsed : ℕ)
    → Repeating h held n
    → held + elapsed < u32_mod
    → Ticked h (repeat_horizontal h d elapsed).0 d held n elapsed (repeat_horizontal h d elapsed).1
unfolding repeat_horizontal
repeat_horizontal-Ticked h d held n elapsed r small =
    let fits : (h.horizontal_das_timer + elapsed) % u32_mod ≡ held + elapsed =
      omega (arith, r.timer) in
    let excess =
      if ltb h.horizontal_das_timer h.das_delay then held + elapsed - h.das_delay else elapsed in
    let sum = h.horizontal_arr_accumulator + excess in
    elim (Bool-cases (leb h.das_delay (held + elapsed))) [
      | inl on ↦
          let balance : n * h.arr_rate + sum ≡ held + elapsed - h.das_delay =
            ground (arith, r.timer, r.balance, on) in
          let fits_sum : sum % u32_mod ≡ sum = omega (arith, balance, small) in
          let out =
            drain-Drained sum h.arr_rate (move_of d) sum [] (omega (arith, r.below)) (omega arith)
              (omega arith) in
          rw (fits, on, fits_sum)
            (record {
              count = out.count;
              repeating = record {
                timer = refl;
                balance = grind (arith, out.balance, balance);
                below = out.below;
              };
              emitted = out.emitted;
            })
      | inr off ↦
          let gap : held + elapsed - h.das_delay ≡ held - h.das_delay = ground (arith, off) in
          rw (fits, off)
            (record {
              count = 0;
              repeating = record {
                timer = refl;
                balance = grind (arith, r.balance, gap);
                below = r.below;
              };
              emitted = refl;
            })
    ]
