-- ===== src/Tests/Sessions.antt =====
-- Sessions, clocks and frames at concrete inputs.
use tui_tetris.Prelude.{◌≡◌, refl, true, false, some, [], ◌∷◌, Returns, arith}
use tui_tetris.Types.{east, move_left, hard_drop, restart}
use tui_tetris.Game.State
use tui_tetris.Game.State.{GameState}
use tui_tetris.Game.Invariant.{IsWellFormed}
use tui_tetris.Game.Invariant.Reachable.{created, stepped, starts, Reachable-IsWellFormed}
use tui_tetris.Session.Place
use tui_tetris.Session.Landing.{Places, apply_place-Places}
use tui_tetris.Session.Runtime
use tui_tetris.Session.Runtime.{StepInput, batch, place}
use tui_tetris.Session.Steps.{Stepped, opened, Runs-Stepped}
use tui_tetris.Session.Clock.{FixedStepClock, Accounts, advance, advance-Accounts}

abbrev started_game : GameState
started_game = State.start (State.new 3)

started_game-IsWellFormed : IsWellFormed started_game
started_game-IsWellFormed = Reachable-IsWellFormed (stepped (created 3) starts)

apply_place-Places_example :
    Returns (Place.apply_place started_game 2 east true) (Places started_game east 2)
apply_place-Places_example =
    apply_place-Places started_game 2 east true (omega arith) started_game-IsWellFormed

-- A placement, a restart with a seed and a drop, and a local move.
abbrev busy : StepInput
busy = record {
  remote = place 4 east false ∷ batch (restart ∷ hard_drop ∷ []) (some 9) ∷ [];
  local = move_left ∷ [];
}

Runs-Stepped_example :
    Returns (Runtime.transition (Runtime.new_session 8) busy) (Stepped (Runtime.new_session 8) busy)
Runs-Stepped_example = Runs-Stepped (Runtime.new_session 8) busy (omega arith, (tt, tt)) (opened 8)

-- Five steps of backlog and a limit of three.
abbrev late : FixedStepClock
late = record { tick = 16; max_steps_per_advance = 3; backlog = 70 }

late_burst : advance late 10 ≡ (record late { backlog = 32 }, 3)
unfolding advance
late_burst = refl

advance-Accounts_example : Accounts late 80 (advance late 10)
advance-Accounts_example = advance-Accounts late 10 (omega arith) (omega arith)
