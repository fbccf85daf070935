-- ===== src/Game/Actions.antt =====
-- crates/tetris-core/src/core/game_state.rs: `hold`, `tick`, `apply_action`, restart, and
-- `take_last_event`.
use tui_tetris.Prelude.{ℕ, zero, suc, ◌-◌, Bool, true, false, not, ◌&&◌, ◌||◌, Option, none, some}
use tui_tetris.Prelude.{ltb, leb, ◌==◌, if◌then◌else◌, Run, ret, fault, ◌>>=◌, neg}
use tui_tetris.Prelude.{wrapping_add, saturating_add}
use tui_tetris.Types.{PieceKind, CoreLastEvent, soft_drop_grace_ms, lock_delay_ms}
use tui_tetris.Types.{
  GameAction, move_left, move_right, soft_drop, hard_drop, rotate_cw, rotate_ccw,
}
use tui_tetris.Types.{hold, pause, restart}
use tui_tetris.Scoring
use tui_tetris.Game.State
use tui_tetris.Game.State.{
  Tetromino, GameState, new_piece, piece_is_valid, spawn_piece, is_grounded,
}
use tui_tetris.Game.State.{drop_interval_ms}
use tui_tetris.Game.Moves.{try_move, try_rotate}
use tui_tetris.Game.Locking

-- The end of `hold`, common to both branches.
abbrev pub held : GameState → GameState
held s = record s {
  can_hold = false;
  lock_timer_ms = 0;
  lock_reset_count = 0;
  last_action_was_rotate = false;
}

-- The branch that swaps with the hold piece.
unfoldable pub swap_hold : GameState → PieceKind → PieceKind → GameState × Bool
swap_hold s current_kind hold_kind =
    let s' = record s {
      active = some (new_piece hold_kind);
      hold = some current_kind;
      active_id = wrapping_add s.active_id 1;
      step_in_piece = 0;
    } in
    if not (piece_is_valid (new_piece hold_kind) s.board)
    then (record s' { game_over = true; active = none }, false)
    else (held s', true)

-- The active piece and the hold piece of `hold`.
unfoldable pub hold_with : Option Tetromino → Option PieceKind → GameState → GameState × Bool
hold_with none hold_slot s = (s, false)
hold_with (some t) (some hold_kind) s = swap_hold s t.kind hold_kind
hold_with (some t) none s = (held (spawn_piece (record s { hold = some t.kind })).0, true)

unfoldable pub hold_piece : GameState → GameState × Bool
hold_piece s = if not s.can_hold then (s, false) else hold_with s.active s.hold s

-- The gravity loop. The interval is at least 12 ms, so as many rounds as the timer has
-- milliseconds, and one more, are enough (`Game.Invariant.Ticks.gravity-Returns`).
unfoldable pub gravity : ℕ → ℕ → GameState → Bool → Run (GameState × Bool)
gravity zero interval s changed = fault
gravity (suc fuel) interval s changed = elim (leb interval s.drop_timer_ms) [
  | true ↦
      let (s', moved) = try_move (record s { drop_timer_ms = s.drop_timer_ms - interval }) 0 1 in
      gravity fuel interval s' (if moved then true else changed)
  | false ↦ ret (s, changed)
]

-- Activation and timeout of the soft drop.
unfoldable pub tick_soft_drop : GameState → ℕ → Bool → GameState
tick_soft_drop s elapsed soft =
    let on = if soft then true else s.is_soft_dropping in
    let timer = if soft then soft_drop_grace_ms else s.soft_drop_timer_ms in
    let runs = on && ltb 0 timer in
    record s {
      soft_drop_timer_ms = if runs then timer - elapsed else timer;
      is_soft_dropping = if runs && timer - elapsed == 0 then false else on;
    }

-- The end of `tick`: the lock delay.
unfoldable pub tick_lock : GameState → ℕ → Bool → Run (GameState × Bool)
tick_lock s elapsed changed =
    let timer = saturating_add s.lock_timer_ms elapsed in
    let locked = Locking.lock_piece (record s { lock_timer_ms = 0; drop_timer_ms = 0 }) >>= λ s'.
    ret (s', true) in
    if is_grounded s
    then if leb lock_delay_ms timer
      then locked
      else ret (record s { lock_timer_ms = timer }, changed)
    else ret (record s { lock_timer_ms = 0; lock_reset_count = 0 }, changed)

-- From the soft drop on, with an active piece and no pause.
unfoldable pub tick_piece : GameState → ℕ → Bool → Run (GameState × Bool)
tick_piece s elapsed soft =
    let s1 = tick_soft_drop s elapsed soft in
    let s2 = record s1 { drop_timer_ms = saturating_add s1.drop_timer_ms elapsed } in
    gravity (suc s2.drop_timer_ms) (drop_interval_ms s1) s2 false >>= λ (r : GameState × Bool).
    tick_lock r.0 elapsed r.1

-- The flash, step and line clear counters at the start of `tick`. The source tests each timer for
-- `> 0` first; `saturating_sub` leaves 0 as it is.
unfoldable pub tick_counters : GameState → ℕ → GameState
tick_counters s elapsed = record s {
  landing_flash_ms = s.landing_flash_ms - elapsed;
  step_in_piece = elim s.active [
    | none ↦ s.step_in_piece
    | some _ ↦ wrapping_add s.step_in_piece 1
  ];
  line_clear_timer_ms = s.line_clear_timer_ms - elapsed;
}

-- `let Some(_) = self.active else { return false }`, and the rest of `tick`.
unfoldable pub tick_active : Option Tetromino → GameState → ℕ → Bool → Run (GameState × Bool)
tick_active none s elapsed soft = ret (s, false)
tick_active (some _) s elapsed soft = tick_piece s elapsed soft

unfoldable pub tick : GameState → ℕ → Bool → Run (GameState × Bool)
tick s elapsed soft =
    let s1 = tick_counters s elapsed in
    if s.paused || s.game_over || not s.started
    then ret (s, false)
    else if ltb 0 s1.line_clear_timer_ms
    then ret (s1, false)
    else tick_active s1.active s1 elapsed soft

unfoldable pub restart_with_seed : GameState → ℕ → GameState × Bool
restart_with_seed s seed =
    (State.start (record (State.new seed) { episode_id = wrapping_add s.episode_id 1 }), true)

unfoldable pub soft_drop_step : GameState → GameState × Bool
soft_drop_step s =
    let (s', moved) = try_move s 0 1 in
    (
      record s' {
        score =
            if moved
            then saturating_add s'.score (Scoring.calculate_drop_score 1 false)
            else s'.score;
        is_soft_dropping = true;
        soft_drop_timer_ms = soft_drop_grace_ms;
        last_action_was_rotate = false;
      },
      moved,
    )

unfoldable pub hard_drop_step : GameState → Run (GameState × Bool)
hard_drop_step s =
    Locking.hard_drop (record s { last_action_was_rotate = false }) >>= λ (r : GameState × ℕ).
    ret (record r.0 { score = saturating_add r.0.score r.1 }, true)

unfoldable pub toggle_pause : GameState → GameState
toggle_pause s = record s {
  paused = not s.paused;
  is_soft_dropping = if s.paused then s.is_soft_dropping else false;
  soft_drop_timer_ms = if s.paused then s.soft_drop_timer_ms else 0;
}

-- The `match` of `apply_action`.
unfoldable pub dispatch : GameState → GameAction → Run (GameState × Bool)
dispatch s move_left = ret (try_move s (neg 1) 0)
dispatch s move_right = ret (try_move s 1 0)
dispatch s soft_drop = ret (soft_drop_step s)
dispatch s hard_drop = hard_drop_step s
dispatch s rotate_cw = ret (try_rotate s true)
dispatch s rotate_ccw = ret (try_rotate s false)
dispatch s hold = ret (hold_piece s)
dispatch s pause = ret (toggle_pause s, true)
dispatch s restart = ret (restart_with_seed s s.piece_queue.rng)

abbrev pub is_restart : GameAction → Bool
is_restart restart = true
is_restart _ = false

abbrev pub is_pause : GameAction → Bool
is_pause pause = true
is_pause _ = false

unfoldable pub apply_action : GameState → GameAction → Run (GameState × Bool)
apply_action s action =
    if s.game_over && not (is_restart action)
    then ret (s, false)
    else if s.paused && not (is_pause action) && not (is_restart action)
    then ret (s, false)
    else dispatch s action

unfoldable pub take_last_event : GameState → GameState × Option CoreLastEvent
take_last_event s = (record s { last_event = none }, s.last_event)
