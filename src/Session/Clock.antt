-- ===== src/Session/Clock.antt =====
-- crates/tetris-session/src/engine/fixed_step.rs: the backlog of elapsed time.
-- A `Duration` is its number of nanoseconds, at most `Duration::MAX`.
use tui_tetris.Prelude.{ℕ, ◌+◌, ◌-◌, ◌*◌, ◌/◌, ◌%◌, ◌≤◌, ◌<◌, ◌≡◌, refl, arith, ◌⊎◌, inl, inr, ◌==◌}
use native.Mathlib.Nat.{div-add-mod, mod-lt}
use tui_tetris.Prelude.{Run, ret, fault, if◌then◌else◌, leb, Bool-cases, true, ◌||◌}

pub record FixedStepClock : Type 0 where
  pub tick : ℕ
  pub max_steps_per_advance : ℕ
  pub backlog : ℕ

-- 2 ^ 64 - 1 seconds and 999999999 nanoseconds.
abbrev pub duration_max : ℕ
duration_max = 18446744073709551615999999999

unfoldable pub new_clock : ℕ → ℕ → Run FixedStepClock
new_clock tick max_steps =
    if tick == 0 || max_steps == 0
    then fault
    else ret (record { tick = tick; max_steps_per_advance = max_steps; backlog = 0 })

abbrev pub saturating_add_duration : ℕ → ℕ → ℕ
saturating_add_duration a b = if leb (a + b) duration_max then a + b else duration_max

-- The whole steps in the backlog, at most the limit of a burst; a division by zero yields 0 here,
-- which `new_clock` rules out.
abbrev pub due_steps : FixedStepClock → ℕ → ℕ
due_steps c backlog =
    if leb (backlog / c.tick) c.max_steps_per_advance
    then backlog / c.tick
    else c.max_steps_per_advance

unfoldable pub advance : FixedStepClock → ℕ → FixedStepClock × ℕ
advance c elapsed =
    let backlog' = saturating_add_duration c.backlog elapsed in
    let due = due_steps c backlog' in (record c { backlog = backlog' - c.tick * due }, due)

unfoldable pub until_next_step : FixedStepClock → ℕ
until_next_step c = c.tick - c.backlog

product_mono : (t a b : ℕ) → a ≤ b → t * a ≤ t * b
product_mono t a b h = grind arith

-- What one `advance` does with the time `total` that is due: no time is lost, the burst is within
-- its limit, and either the burst is the limit or less than one step is left.
pub record Accounts (c : FixedStepClock) (total : ℕ) (r : FixedStepClock × ℕ) : Type 0 where
  pub kept : c.tick * r.1 + r.0.backlog ≡ total
  pub limited : r.1 ≤ c.max_steps_per_advance
  pub exhausted : (r.1 ≡ c.max_steps_per_advance) ⊎ (r.0.backlog < c.tick)
  pub same_tick : r.0.tick ≡ c.tick

-- For a tick that is not zero, and while the sum of the times is a `Duration`, `advance` keeps the
-- account of the backlog and the elapsed time.
pub advance-Accounts :
    (c : FixedStepClock) (elapsed : ℕ)
    → 0 < c.tick
    → c.backlog + elapsed ≤ duration_max
    → Accounts c (c.backlog + elapsed) (advance c elapsed)
unfolding advance
advance-Accounts c elapsed positive small =
    let total = c.backlog + elapsed in
    let fits : leb total duration_max ≡ true = ground (arith, small) in
    let q : ℕ = total / c.tick in
    let whole : c.tick * q + total % c.tick ≡ total = div-add-mod total c.tick in
    let rest : total % c.tick < c.tick = mod-lt total positive in
    rw (fits, advance)
      (elim (Bool-cases (leb q c.max_steps_per_advance)) [
        | inl few ↦ rw few (record {
          kept = omega (arith, whole);
          limited = ground (arith, few);
          exhausted = inr (omega (arith, whole, rest));
          same_tick = refl;
        })
        | inr many ↦
            let below : c.tick * c.max_steps_per_advance ≤ c.tick * q =
              product_mono c.tick c.max_steps_per_advance q (ground (arith, many)) in
            rw many (record {
              kept = omega (arith, whole, below);
              limited = omega arith;
              exhausted = inl refl;
              same_tick = refl;
            })
      ])
