-- ===== src/Tests/Inputs.antt =====
-- Keys and observations at concrete inputs.
use tui_tetris.Prelude.{
  ℕ, suc, ◌+◌, ◌*◌, ◌%◌, ◌≤◌, ◌<◌, ◌≡◌, refl, true, false, none, some, List, [], ◌∷◌, length,
  u64_mod, arith,
}
use tui_tetris.Types.{move_left, CoreLastEvent}
use tui_tetris.Game.State
use tui_tetris.Game.State.{GameState}
use tui_tetris.Input.{left}
use tui_tetris.Input.Handler
use tui_tetris.Input.Handler.{
  InputHandler, no_direction, to_left, left_key, with_config, held_key, handle_key_press, update,
  move_of,
}
use tui_tetris.Input.Handler.Ticks.{moves, updates, steady}
use tui_tetris.Input.Handler.Hold.{press-then-updates}
use tui_tetris.Input.Handler.Bounds.{IsHandler}
use tui_tetris.Input.Handler.Reached.{configured, pressed, updated, Reached-IsHandler}
use tui_tetris.Adapter.Schedule.{ObservationSchedule, new, after_tick, immediate}
use tui_tetris.Adapter.Schedule.Cadence.{ticks, quiet, ticks-cadence}

-- A delay of 20 ms and a rate of 10 ms.
abbrev handler : InputHandler
handler = with_config 0 20 10

abbrev after_press : InputHandler
after_press = (handle_key_press handler 0 0 left).0

abbrev three_ticks : List (ℕ × ℕ)
three_ticks = (16000000, 16) ∷ (32000000, 16) ∷ (48000000, 16) ∷ []

held_left : held_key left ≡ some left_key
unfolding held_key
held_left = refl

three_steady : steady after_press three_ticks ≡ true
unfolding steady Handler.update Handler.auto_release Handler.repeat_horizontal Handler.update_down
    Handler.drain Handler.handle_key_press Handler.held_key
three_steady = refl

press-then-updates_example :
    ((handle_key_press handler 0 0 left).1 ≡ some move_left)
    × ((moves to_left (updates after_press three_ticks).1 * 10 ≤ 28)
        × (28 < suc (moves to_left (updates after_press three_ticks).1) * 10))
press-then-updates_example =
    press-then-updates handler 0 0 left left_key three_ticks held_left refl refl (omega arith)
      three_steady (omega arith)

Reached-IsHandler_example : IsHandler (update after_press 16000000 16).0
Reached-IsHandler_example =
    Reached-IsHandler (update after_press 16000000 16).0
      (updated after_press 16000000 16 (pressed handler 0 0 left (configured 0 20 10)))

abbrev idle_game : GameState
idle_game = State.new 1

abbrev schedule : ObservationSchedule
schedule = new idle_game 20

abbrev four_games : List GameState
four_games = idle_game ∷ idle_game ∷ idle_game ∷ idle_game ∷ []

four_quiet : quiet schedule four_games ≡ true
unfolding quiet after_tick immediate State.new
four_quiet = refl

ticks-cadence_example :
    (length (ticks schedule four_games).1 * 1000
        + (ticks schedule four_games).0.accumulated_frequency_units
      ≡ 0 + 4 * (16 * 20))
    × ((ticks schedule four_games).0.accumulated_frequency_units < 1000)
    × ((ticks schedule four_games).0.seq ≡ (0 + length (ticks schedule four_games).1) % u64_mod)
ticks-cadence_example =
    ticks-cadence four_games schedule four_quiet (omega arith) (omega arith) (omega arith)

abbrev cleared : ℕ → CoreLastEvent
cleared n = record {
  locked = true;
  lines_cleared = n;
  line_clear_score = 0;
  tspin = none;
  combo = 0;
  back_to_back = false;
}

abbrev five_events : List CoreLastEvent
five_events = cleared 0 ∷ cleared 1 ∷ cleared 2 ∷ cleared 3 ∷ cleared 4 ∷ []
