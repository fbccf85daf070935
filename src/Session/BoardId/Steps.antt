-- ===== src/Session/BoardId/Steps.antt =====
-- crates/tetris-session/src/engine/session.rs: the board and its id over a step without a restart.
use tui_tetris.Prelude.{ℕ, suc, ◌+◌, ◌≤◌, ◌≡◌, Bool, false}
use tui_tetris.Prelude.{
  Option, none, some, List, [], ◌∷◌, length, ret, ◌>>=◌, Allows, Allows->>=, arith,
}
use tui_tetris.Types.{GameAction, tick_ms}
use tui_tetris.Board.{Board}
use tui_tetris.Game.State.{GameState}
use tui_tetris.Game.Actions
use tui_tetris.Game.BoardId.Locks.{Keeps}
use tui_tetris.Game.BoardId.Calls.{KeepsResult, action-Keeps, tick-Keeps}
use tui_tetris.Session.Place.{Outcome, placed}
use tui_tetris.Session.Runtime
use tui_tetris.Session.Runtime.{GameCommand, batch, place, StepInput, SessionRuntime, Transition}
use tui_tetris.Session.BoardId.{KeepsOutcome, more, apply_place-Keeps}

-- No action starts a new game.
abbrev pub NoRestart : List GameAction → Type 0
NoRestart [] = Unit {0}
NoRestart (a ∷ actions) = (Actions.is_restart a ≡ false) × NoRestart actions

abbrev pub NoRestartIn : List GameCommand → Type 0
NoRestartIn [] = Unit {0}
NoRestartIn (batch actions seed ∷ cs) = NoRestart actions × NoRestartIn cs
NoRestartIn (place x r h ∷ cs) = NoRestartIn cs

-- How many actions and placements the commands have.
abbrev pub action_count : List GameCommand → ℕ
action_count [] = 0
action_count (batch actions seed ∷ cs) = length actions + action_count cs
action_count (place x r h ∷ cs) = 1 + action_count cs

module _ (b0 : Board) (id0 : ℕ) where
  apply_ignored-Keeps :
      (n : ℕ) (s : GameState) (a : GameAction)
      → Actions.is_restart a ≡ false
      → Keeps b0 id0 n s
      → Allows (Runtime.apply_ignored s a) (Keeps b0 id0 (suc n))
  unfolding Runtime.apply_ignored
  apply_ignored-Keeps n s a h k =
      Allows->>= (Actions.apply_action s a) (λ (r : GameState × Bool). ret r.0)
        (KeepsResult b0 id0 (suc n)) (Keeps b0 id0 (suc n)) (action-Keeps b0 id0 n s a h k)
        (λ r k'. k')

  apply_all-Keeps :
      (n m : ℕ) (actions : List GameAction) (s : GameState)
      → n + length actions ≤ m
      → NoRestart actions
      → Keeps b0 id0 n s
      → Allows (Runtime.apply_all actions s) (Keeps b0 id0 m)
  unfolding Runtime.apply_all
  apply_all-Keeps n m [] s le h k = more b0 id0 n m s (omega arith) k
  apply_all-Keeps n m (a ∷ actions) s le (h, hs) k =
      Allows->>= (Runtime.apply_ignored s a) (Runtime.apply_all actions) (Keeps b0 id0 (suc n))
        (Keeps b0 id0 m) (apply_ignored-Keeps n s a h k)
        (λ s' k'. apply_all-Keeps (suc n) m actions s' (omega arith) hs k')

  apply_batch-Keeps :
      (n m : ℕ) (actions : List GameAction) (seed : Option ℕ) (s : GameState)
      → n + length actions ≤ m
      → NoRestart actions
      → Keeps b0 id0 n s
      → Allows (Runtime.apply_batch actions seed s) (Keeps b0 id0 m)
  unfolding Runtime.apply_batch
  apply_batch-Keeps n m [] seed s le h k = more b0 id0 n m s (omega arith) k
  apply_batch-Keeps n m (a ∷ actions) none s le (h, hs) k =
      Allows->>= (Runtime.apply_ignored s a) (Runtime.apply_batch actions none)
        (Keeps b0 id0 (suc n)) (Keeps b0 id0 m) (apply_ignored-Keeps n s a h k)
        (λ s' k'. apply_batch-Keeps (suc n) m actions none s' (omega arith) hs k')
  apply_batch-Keeps n m (a ∷ actions) (some seed) s le (h, hs) k =
      rw (h, Runtime.apply_batch)
        (Allows->>= (Runtime.apply_ignored s a) (Runtime.apply_batch actions (some seed))
          (Keeps b0 id0 (suc n)) (Keeps b0 id0 m) (apply_ignored-Keeps n s a h k)
          (λ s' k'. apply_batch-Keeps (suc n) m actions (some seed) s' (omega arith) hs k'))

  abbrev KeepsOutcomes : ℕ → GameState × List Outcome → Type 0
  KeepsOutcomes m r = Keeps b0 id0 m r.0

  -- One command, and then the others.
  then-Keeps :
      (n m : ℕ) (c : GameCommand) (cs : List GameCommand) (s : GameState)
      → Allows (Runtime.apply_game_command s c) (KeepsOutcome b0 id0 n)
      → ((s' : GameState)
          → Keeps b0 id0 n s'
          → Allows (Runtime.apply_commands cs s') (KeepsOutcomes m))
      → Allows (Runtime.apply_commands (c ∷ cs) s) (KeepsOutcomes m)
  unfolding Runtime.apply_commands
  then-Keeps n m c cs s first rest =
      Allows->>= (Runtime.apply_game_command s c)
        (λ (r : GameState × Outcome).
          Runtime.apply_commands cs r.0 >>= λ (rest : GameState × List Outcome).
          ret (rest.0, r.1 ∷ rest.1))
        (KeepsOutcome b0 id0 n) (KeepsOutcomes m) first
        (λ r k'.
          Allows->>= (Runtime.apply_commands cs r.0)
            (λ (rest : GameState × List Outcome). ret (rest.0, r.1 ∷ rest.1)) (KeepsOutcomes m)
            (KeepsOutcomes m) (rest r.0 k') (λ q k''. k''))

  apply_commands-Keeps :
      (n m : ℕ) (cs : List GameCommand) (s : GameState)
      → n + action_count cs ≤ m
      → NoRestartIn cs
      → Keeps b0 id0 n s
      → Allows (Runtime.apply_commands cs s) (KeepsOutcomes m)
  unfolding Runtime.apply_commands Runtime.apply_game_command
  apply_commands-Keeps n m [] s le h k = more b0 id0 n m s (omega arith) k
  apply_commands-Keeps n m (batch actions seed ∷ cs) s le (h, hs) k =
      let n' = n + length actions in
      then-Keeps n' m (batch actions seed) cs s
        (Allows->>= (Runtime.apply_batch actions seed s) (λ s'. ret (s', placed)) (Keeps b0 id0 n')
          (KeepsOutcome b0 id0 n') (apply_batch-Keeps n n' actions seed s (omega arith) h k)
          (λ s' k'. k'))
        (λ s' k'. apply_commands-Keeps n' m cs s' (omega arith) hs k')
  apply_commands-Keeps n m (place x r h ∷ cs) s le hs k =
      then-Keeps (suc n) m (place x r h) cs s (apply_place-Keeps b0 id0 n s x r h k)
        (λ s' k'. apply_commands-Keeps (suc n) m cs s' (omega arith) hs k')

  finish_step-Keeps :
      (n : ℕ) (s : GameState) (outcomes : List Outcome) (step : ℕ)
      → Keeps b0 id0 n s
      → Allows
          (Runtime.finish_step s outcomes step)
          (λ (r : SessionRuntime × Transition). Keeps b0 id0 (suc n) r.0.game)
  unfolding Runtime.finish_step Actions.take_last_event
  finish_step-Keeps n s outcomes step k =
      Allows->>= (Actions.tick s tick_ms false) _ (KeepsResult b0 id0 (suc n)) _
        (tick-Keeps b0 id0 n s tick_ms false k) (λ r k'. k')

  -- A step without a restart changes the id of the board at most once for each action and placement,
  -- and once for the tick, and the board not without its id.
  pub transition-Keeps :
      (n : ℕ) (runtime : SessionRuntime) (input : StepInput)
      → action_count input.remote + length input.local ≤ n
      → NoRestartIn input.remote
      → NoRestart input.local
      → Keeps b0 id0 0 runtime.game
      → Allows
          (Runtime.transition runtime input)
          (λ (r : SessionRuntime × Transition). Keeps b0 id0 (suc n) r.0.game)
  unfolding Runtime.transition
  transition-Keeps n runtime input le hr hl k =
      Allows->>= (Runtime.apply_commands input.remote runtime.game) _
        (KeepsOutcomes (action_count input.remote)) _
        (apply_commands-Keeps 0 (action_count input.remote) input.remote runtime.game (omega arith)
          hr k)
        (λ r k'.
          Allows->>= (Runtime.apply_all input.local r.0) _ (Keeps b0 id0 n) _
            (apply_all-Keeps (action_count input.remote) n input.local r.0 le hl k')
            (λ s k''. finish_step-Keeps n s r.1 runtime.logical_step k''))
