-- ===== src/Game/Invariant/Reachable.antt =====
-- The games that a program can reach through the public functions of `GameState`.
use tui_tetris.Prelude.{ℕ, ◌≡◌, Bool, ret, Returns, Returns-result}
use tui_tetris.Types.{GameAction}
use tui_tetris.Game.State
use tui_tetris.Game.State.{GameState}
use tui_tetris.Game.Actions
use tui_tetris.Game.Invariant.{IsWellFormed}
use tui_tetris.Game.Invariant.Ticks.{WellFormedResult, tick-Returns}
use tui_tetris.Game.Invariant.Calls.{new-IsWellFormed, start-IsWellFormed, apply_action-Returns}
use tui_tetris.Game.Invariant.Calls.{restart_with_seed-IsWellFormed}

-- One call of a public function that changes the game.
pub data Step (s : GameState) : GameState → Type 0 where
  starts : Step s (State.start s)
  acts : (a : GameAction) (r : GameState × Bool) → Actions.apply_action s a ≡ ret r → Step s r.0
  ticks :
      (elapsed : ℕ) (soft : Bool) (r : GameState × Bool)
      → Actions.tick s elapsed soft ≡ ret r
      → Step s r.0
  restarts : (seed : ℕ) → Step s (Actions.restart_with_seed s seed).0
  takes_event : Step s (Actions.take_last_event s).0

pub data Reachable : GameState → Type 0 where
  created : (seed : ℕ) → Reachable (State.new seed)
  stepped : {s s' : GameState} → Reachable s → Step s s' → Reachable s'

Step-IsWellFormed : {s s' : GameState} → Step s s' → IsWellFormed s → IsWellFormed s'
unfolding Actions.take_last_event
Step-IsWellFormed {s} starts w = start-IsWellFormed s w
Step-IsWellFormed {s} (acts a r e) w =
    Returns-result (Actions.apply_action s a) WellFormedResult r (apply_action-Returns s a w) e
Step-IsWellFormed {s} (ticks elapsed soft r e) w =
    Returns-result (Actions.tick s elapsed soft) WellFormedResult r (tick-Returns s elapsed soft w)
      e
Step-IsWellFormed {s} (restarts seed) w = restart_with_seed-IsWellFormed s seed
Step-IsWellFormed {s} takes_event w = record { sound = w.sound; playing = w.playing }

-- Every game that is made by `new` and changed by public calls only is well formed.
pub Reachable-IsWellFormed : {s : GameState} → Reachable s → IsWellFormed s
Reachable-IsWellFormed (created seed) = new-IsWellFormed seed
Reachable-IsWellFormed (stepped r st) = Step-IsWellFormed st (Reachable-IsWellFormed r)

-- No call panics or runs for ever on a game that can be reached: every action and every tick
-- returns, for every elapsed time.
pub Reachable-returns :
    {s : GameState}
    → Reachable s
    → ((a : GameAction) → Returns (Actions.apply_action s a) WellFormedResult)
      × ((elapsed : ℕ) (soft : Bool) → Returns (Actions.tick s elapsed soft) WellFormedResult)
Reachable-returns {s} r =
    let w = Reachable-IsWellFormed r in
    (λ a. apply_action-Returns s a w, λ elapsed soft. tick-Returns s elapsed soft w)
