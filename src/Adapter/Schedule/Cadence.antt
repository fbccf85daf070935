-- ===== src/Adapter/Schedule/Cadence.antt =====
-- crates/tetris-adapter/src/adapter/observation_schedule.rs: the cadence of quiet ticks.
use tui_tetris.Prelude.{
  ℕ, ◌+◌, ◌*◌, ◌%◌, ◌≤◌, ◌<◌, ◌≡◌, refl, ap, Bool, true, false, not, ◌&&◌, Option, none, some,
}
use tui_tetris.Prelude.{
  List, [], ◌∷◌, ◌++◌, length, length-append, Bool-cases, arith, ltb, u64_mod, inl, inr,
}
use tui_tetris.Game.State.{GameState}
use tui_tetris.Adapter.Schedule.{
  ObservationSchedule, TransitionEvent, is_critical, after_tick, immediate, track,
}

-- The observations of the ticks whose games are listed.
abbrev pub emitted : Option (ℕ × List TransitionEvent) → List (ℕ × List TransitionEvent)
emitted none = []
emitted (some out) = out ∷ []

unfoldable pub ticks :
    ObservationSchedule → List GameState → ObservationSchedule × List (ℕ × List TransitionEvent)
ticks o [] = (o, [])
ticks o (game ∷ games) =
    let first = after_tick o game in
    let rest = ticks first.0 games in (rest.0, emitted first.1 ++ rest.1)

-- No tracked value of the games changes and no event is pending.
unfoldable pub quiet : ObservationSchedule → List GameState → Bool
quiet o [] = true
quiet o (game ∷ games) =
    let rest = quiet (after_tick o game).0 games in not (is_critical o game) && rest

-- One quiet tick: at most one observation, and the units of the tick.
record Quiet (o o' : ObservationSchedule) (out : Option (ℕ × List TransitionEvent)) : Type 0 where
  units :
      length (emitted out) * 1000 + o'.accumulated_frequency_units
      ≡ o.accumulated_frequency_units + 16 * o.frequency_hz
  below : o'.accumulated_frequency_units < 1000
  frequency : o'.frequency_hz ≡ o.frequency_hz
  seq : o'.seq ≡ (o.seq + length (emitted out)) % u64_mod

after_tick-Quiet :
    (o : ObservationSchedule) (game : GameState)
    → is_critical o game ≡ false
    → o.accumulated_frequency_units < 1000
    → o.frequency_hz ≤ 60
    → o.seq < u64_mod
    → Quiet o (after_tick o game).0 (after_tick o game).1
unfolding after_tick immediate
after_tick-Quiet o game calm below hz small =
    let sum : (track o game).accumulated_frequency_units
        ≡ o.accumulated_frequency_units + 16 * o.frequency_hz =
      ground arith in
    elim (Bool-cases (ltb (track o game).accumulated_frequency_units 1000)) [
      | inl low ↦
          let lt : (track o game).accumulated_frequency_units < 1000 = ground (arith, low) in
          rw (calm, low)
            (record {
              units = omega (arith, sum);
              below = lt;
              frequency = refl;
              seq = omega (arith, small);
            })
      | inr high ↦
          let ge : 1000 ≤ (track o game).accumulated_frequency_units = ground (arith, high) in
          rw (calm, high)
            (record {
              units = omega (arith, sum, ge);
              below = omega (arith, sum, hz, below);
              frequency = refl;
              seq = refl;
            })
    ]

-- From fewer than 1000 units, at a frequency of at most 60 Hz, any number of quiet ticks emits one
-- observation for each 1000 units, of which a tick has 16 times the frequency, and keeps the rest:
-- no unit is lost. The sequence number goes up by one for each, modulo 2 ^ 64.
pub ticks-cadence :
    (games : List GameState) (o : ObservationSchedule)
    → quiet o games ≡ true
    → o.accumulated_frequency_units < 1000
    → o.frequency_hz ≤ 60
    → o.seq < u64_mod
    → (length (ticks o games).1 * 1000 + (ticks o games).0.accumulated_frequency_units
        ≡ o.accumulated_frequency_units + length games * (16 * o.frequency_hz))
      × ((ticks o games).0.accumulated_frequency_units < 1000)
      × ((ticks o games).0.seq ≡ (o.seq + length (ticks o games).1) % u64_mod)
unfolding ticks quiet
ticks-cadence [] o calm below hz small = (omega arith, below, omega arith)
ticks-cadence (game ∷ games) o calm below hz small =
    let first = after_tick o game in
    let now : is_critical o game ≡ false = ground (arith, calm) in
    let q = after_tick-Quiet o game now below hz small in
    let later : quiet first.0 games ≡ true = ground (arith, calm) in
    let ih =
      ticks-cadence games first.0 later q.below (omega (arith, q.frequency))
        (omega (arith, q.seq)) in
    let size = length-append (emitted first.1) (ticks first.0 games).1 in
    let tail : length games * (16 * first.0.frequency_hz) ≡ length games * (16 * o.frequency_hz) =
      ap (λ z. length games * (16 * z)) q.frequency in
    (grind (arith, ih.0, tail, q.units, size), ih.1, omega (arith, ih.2, q.seq, size))
