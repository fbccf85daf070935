-- ===== src/Session/Runtime.antt =====
-- crates/tetris-session/src/engine/session.rs: the commands and the transition of one step.
-- The snapshot cache of a session is in Session.Cache.
use tui_tetris.Prelude.{
  ℕ, ◌+◌, ◌%◌, Bool, true, false, Option, none, some, List, [], ◌∷◌, Run, ret, ◌>>=◌,
}
use tui_tetris.Prelude.{u64_mod}
use tui_tetris.Types.{Rotation, GameAction, CoreLastEvent, tick_ms}
use tui_tetris.Game.State
use tui_tetris.Game.State.{GameState}
use tui_tetris.Game.Actions.{apply_action, restart_with_seed, is_restart, tick, take_last_event}
use tui_tetris.Session.Place.{Outcome, placed, apply_place}

pub data GameCommand : Type 0 where
  batch : (actions : List GameAction) → (restart_seed : Option ℕ) → GameCommand
  place : (x : ℕ) → (rotation : Rotation) → (use_hold : Bool) → GameCommand

-- The array of an input has at most 32 commands and that of a command at most 32 actions, by their
-- types; nothing of the code depends on it.
pub record StepInput : Type 0 where
  pub remote : List GameCommand
  pub local : List GameAction

-- `let _ = self.game.apply_action(action)`.
unfoldable pub apply_ignored : GameState → GameAction → Run GameState
apply_ignored s action = apply_action s action >>= λ (r : GameState × Bool). ret r.0

unfoldable pub apply_all : List GameAction → GameState → Run GameState
apply_all [] s = ret s
apply_all (a ∷ actions) s = apply_ignored s a >>= λ (s' : GameState). apply_all actions s'

-- The loop of the `Actions` command; the first restart takes the seed.
unfoldable pub apply_batch : List GameAction → Option ℕ → GameState → Run GameState
apply_batch [] seed s = ret s
apply_batch (a ∷ actions) none s =
    apply_ignored s a >>= λ (s' : GameState). apply_batch actions none s'
apply_batch (a ∷ actions) (some seed) s = elim (is_restart a) [
  | true ↦ apply_batch actions none (restart_with_seed s seed).0
  | false ↦ apply_ignored s a >>= λ (s' : GameState). apply_batch actions (some seed) s'
]

unfoldable pub apply_game_command : GameState → GameCommand → Run (GameState × Outcome)
apply_game_command s (batch actions seed) =
    apply_batch actions seed s >>= λ (s' : GameState). ret (s', placed)
apply_game_command s (place x rotation use_hold) = apply_place s x rotation use_hold

-- The loop over the remote commands.
unfoldable pub apply_commands : List GameCommand → GameState → Run (GameState × List Outcome)
apply_commands [] s = ret (s, [])
apply_commands (c ∷ commands) s = apply_game_command s c >>= λ (r : GameState × Outcome).
    apply_commands commands r.0 >>= λ (rest : GameState × List Outcome). ret (rest.0, r.1 ∷ rest.1)

pub record SessionRuntime : Type 0 where
  pub game : GameState
  pub logical_step : ℕ

abbrev pub new_session : ℕ → SessionRuntime
new_session seed = record { game = State.start (State.new seed); logical_step = 0 }

pub record Transition : Type 0 where
  pub command_outcomes : List Outcome
  pub events : List CoreLastEvent

-- The event of the game, as the array of at most one event.
abbrev pub event_list : Option CoreLastEvent → List CoreLastEvent
event_list none = []
event_list (some e) = e ∷ []

-- The end of a step: the tick, the event and the step count.
unfoldable pub finish_step : GameState → List Outcome → ℕ → Run (SessionRuntime × Transition)
finish_step s outcomes logical_step = tick s tick_ms false >>= λ (r : GameState × Bool).
    let taken = take_last_event r.0 in
    ret (
      record { game = taken.0; logical_step = (logical_step + 1) % u64_mod },
      record { command_outcomes = outcomes; events = event_list taken.1 },
    )

unfoldable pub transition : SessionRuntime → StepInput → Run (SessionRuntime × Transition)
transition runtime input =
    apply_commands input.remote runtime.game >>= λ (r : GameState × List Outcome).
    apply_all input.local r.0 >>= λ (s : GameState). finish_step s r.1 runtime.logical_step
