-- ===== src/Session/Steps.antt =====
-- Every step of a session returns.
use tui_tetris.Prelude.{
  ℕ, ◌+◌, ◌%◌, ◌<◌, ◌≡◌, refl, inl, inr, Bool, false, suc, Option, none, some, List, [], ◌∷◌,
  length,
}
use tui_tetris.Prelude.{ret, Returns, ◌>>=◌, Returns->>=, Returns-result, Bool-cases, u64_mod, ap}
use mathlib.Core.Path.{subst, sym}
use tui_tetris.Types
use tui_tetris.Types.{GameAction, tick_ms}
use tui_tetris.Game.State
use tui_tetris.Game.State.{GameState}
use tui_tetris.Game.Actions
use tui_tetris.Game.Invariant.{IsWellFormed}
use tui_tetris.Game.Invariant.Ticks.{WellFormedResult, tick-Returns}
use tui_tetris.Game.Invariant.Calls.{
  new-IsWellFormed, start-IsWellFormed, apply_action-Returns, restart_with_seed-IsWellFormed,
}
use tui_tetris.Session.Place.{Outcome, placed, refused}
use tui_tetris.Session.Landing.{Places, apply_place-Places}
use tui_tetris.Session.Runtime
use tui_tetris.Session.Runtime.{GameCommand, batch, place, StepInput, SessionRuntime, Transition}

-- The column of a placement is an i8.
abbrev pub IsCommand : GameCommand → Type 0
IsCommand (batch actions seed) = Unit {0}
IsCommand (place x r h) = x < 256

abbrev pub AreCommands : List GameCommand → Type 0
AreCommands [] = Unit {0}
AreCommands (c ∷ cs) = IsCommand c × AreCommands cs

apply_ignored-Returns :
    (s : GameState) (a : GameAction)
    → IsWellFormed s
    → Returns (Runtime.apply_ignored s a) IsWellFormed
unfolding Runtime.apply_ignored
apply_ignored-Returns s a w =
    Returns->>= (Actions.apply_action s a) (λ (r : GameState × Bool). ret r.0) WellFormedResult
      IsWellFormed (apply_action-Returns s a w) (λ r w'. (r.0, refl, w'))

apply_all-Returns :
    (actions : List GameAction) (s : GameState)
    → IsWellFormed s
    → Returns (Runtime.apply_all actions s) IsWellFormed
unfolding Runtime.apply_all
apply_all-Returns [] s w = (s, refl, w)
apply_all-Returns (a ∷ actions) s w =
    Returns->>= (Runtime.apply_ignored s a) (Runtime.apply_all actions) IsWellFormed IsWellFormed
      (apply_ignored-Returns s a w) (apply_all-Returns actions)

apply_batch-Returns :
    (actions : List GameAction) (seed : Option ℕ) (s : GameState)
    → IsWellFormed s
    → Returns (Runtime.apply_batch actions seed s) IsWellFormed
unfolding Runtime.apply_batch
apply_batch-Returns [] seed s w = (s, refl, w)
apply_batch-Returns (a ∷ actions) none s w =
    Returns->>= (Runtime.apply_ignored s a) (Runtime.apply_batch actions none) IsWellFormed
      IsWellFormed (apply_ignored-Returns s a w) (apply_batch-Returns actions none)
apply_batch-Returns (a ∷ actions) (some seed) s w = elim (Bool-cases (Actions.is_restart a)) [
  | inl again ↦
      rw (again, Runtime.apply_batch)
        (apply_batch-Returns actions none (Actions.restart_with_seed s seed).0
          (restart_with_seed-IsWellFormed s seed))
  | inr other ↦
      rw (other, Runtime.apply_batch)
        (Returns->>= (Runtime.apply_ignored s a) (Runtime.apply_batch actions (some seed))
          IsWellFormed IsWellFormed (apply_ignored-Returns s a w)
          (apply_batch-Returns actions (some seed)))
]

Places-IsWellFormed :
    (s : GameState) (r : Types.Rotation) (x : ℕ) (q : GameState × Outcome)
    → IsWellFormed s
    → Places s r x q
    → IsWellFormed q.0
Places-IsWellFormed s r x (s', placed) w p = p.0
Places-IsWellFormed s r x (s', refused e) w same = subst IsWellFormed (sym same) w

-- A command answers in a well-formed game.
abbrev Answers : GameState × Outcome → Type 0
Answers r = IsWellFormed r.0

apply_game_command-Returns :
    (s : GameState) (c : GameCommand)
    → IsCommand c
    → IsWellFormed s
    → Returns (Runtime.apply_game_command s c) Answers
unfolding Runtime.apply_game_command
apply_game_command-Returns s (batch actions seed) ok w =
    Returns->>= (Runtime.apply_batch actions seed s) (λ s'. ret (s', placed)) IsWellFormed Answers
      (apply_batch-Returns actions seed s w) (λ s' w'. ((s', placed), refl, w'))
apply_game_command-Returns s (place x r h) ok w =
    let (q, ends, p) = apply_place-Places s x r h ok w in (q, ends, Places-IsWellFormed s r x q w p)

-- Each command has its outcome.
abbrev Served : List GameCommand → GameState × List Outcome → Type 0
Served cs r = IsWellFormed r.0 × (length r.1 ≡ length cs)

apply_commands-Returns :
    (cs : List GameCommand) (s : GameState)
    → AreCommands cs
    → IsWellFormed s
    → Returns (Runtime.apply_commands cs s) (Served cs)
unfolding Runtime.apply_commands
apply_commands-Returns [] s ok w = ((s, []), refl, (w, refl))
apply_commands-Returns (c ∷ cs) s (ok, oks) w =
    Returns->>= (Runtime.apply_game_command s c)
      (λ (r : GameState × Outcome).
        Runtime.apply_commands cs r.0 >>= λ (rest : GameState × List Outcome).
        ret (rest.0, r.1 ∷ rest.1))
      Answers (Served (c ∷ cs)) (apply_game_command-Returns s c ok w)
      (λ r w'.
        Returns->>= (Runtime.apply_commands cs r.0)
          (λ (rest : GameState × List Outcome). ret (rest.0, r.1 ∷ rest.1)) (Served cs)
          (Served (c ∷ cs)) (apply_commands-Returns cs r.0 oks w')
          (λ rest p. ((rest.0, r.1 ∷ rest.1), refl, (p.0, ap suc p.1))))

-- The step ends in a well-formed game, one step later, with an outcome for each command.
abbrev pub Stepped : SessionRuntime → StepInput → SessionRuntime × Transition → Type 0
Stepped runtime input r =
    IsWellFormed r.0.game
    × (r.0.logical_step ≡ (runtime.logical_step + 1) % u64_mod)
    × (length r.1.command_outcomes ≡ length input.remote)

finish_step-Returns :
    (runtime : SessionRuntime) (input : StepInput) (s : GameState) (outcomes : List Outcome)
    → length outcomes ≡ length input.remote
    → IsWellFormed s
    → Returns (Runtime.finish_step s outcomes runtime.logical_step) (Stepped runtime input)
unfolding Runtime.finish_step Actions.take_last_event
finish_step-Returns runtime input s outcomes e w =
    let (r, ends, w') = tick-Returns s tick_ms false w in
    rw ends ((_, refl, (record { sound = w'.sound; playing = w'.playing }, refl, e)))

-- In a session whose game is well formed every step returns, whatever commands and actions it has:
-- the game stays well formed, the step count goes up by one (modulo 2 ^ 64), and there is one outcome
-- for each command.
pub transition-Stepped :
    (runtime : SessionRuntime) (input : StepInput)
    → AreCommands input.remote
    → IsWellFormed runtime.game
    → Returns (Runtime.transition runtime input) (Stepped runtime input)
unfolding Runtime.transition
transition-Stepped runtime input ok w =
    Returns->>= (Runtime.apply_commands input.remote runtime.game)
      (λ (r : GameState × List Outcome). Runtime.apply_all input.local r.0 >>= λ (s : GameState).
        Runtime.finish_step s r.1 runtime.logical_step)
      (Served input.remote) (Stepped runtime input)
      (apply_commands-Returns input.remote runtime.game ok w)
      (λ r p.
        Returns->>= (Runtime.apply_all input.local r.0)
          (λ (s : GameState). Runtime.finish_step s r.1 runtime.logical_step) IsWellFormed
          (Stepped runtime input) (apply_all-Returns input.local r.0 p.0)
          (λ s w'. finish_step-Returns runtime input s r.1 p.1 w'))

-- The sessions that begin with a new game and go on by steps.
pub data Runs : SessionRuntime → Type 0 where
  opened : (seed : ℕ) → Runs (Runtime.new_session seed)
  stepped :
      (runtime : SessionRuntime) (input : StepInput) (r : SessionRuntime × Transition)
      → AreCommands input.remote
      → Runs runtime
      → Runtime.transition runtime input ≡ ret r
      → Runs r.0

Runs-IsWellFormed : (runtime : SessionRuntime) → Runs runtime → IsWellFormed runtime.game
Runs-IsWellFormed runtime (opened seed) =
    start-IsWellFormed (State.new seed) (new-IsWellFormed seed)
Runs-IsWellFormed runtime (stepped before input r ok runs e) =
    (Returns-result (Runtime.transition before input) (Stepped before input) r
      (transition-Stepped before input ok (Runs-IsWellFormed before runs)) e).0

-- In a session that begins with a new game and goes on by steps, whatever their inputs, the next
-- step returns too: the game is well formed after it, the step count goes up by one (modulo 2 ^ 64)
-- and there is one outcome for each command.
pub Runs-Stepped :
    (runtime : SessionRuntime) (input : StepInput)
    → AreCommands input.remote
    → Runs runtime
    → Returns (Runtime.transition runtime input) (Stepped runtime input)
Runs-Stepped runtime input ok runs =
    transition-Stepped runtime input ok (Runs-IsWellFormed runtime runs)
