-- ===== src/Game/BoardId/Calls.antt =====
-- crates/tetris-core/src/core/game_state.rs: the board and its id over the actions, but a restart, and
-- the ticks.
use tui_tetris.Prelude.{ℕ, zero, suc, ◌-◌, ◌≡◌, sym, inl, inr, Bool, true, false, not, ◌&&◌, ◌||◌}
use tui_tetris.Prelude.{
  Option, none, some, ret, ◌>>=◌, Allows, Allows->>=, Bool-cases, Option-cases, arith,
  if◌then◌else◌, leb, ltb, neg, saturating_add,
}
use mathlib.Core.Path.{subst}
use tui_tetris.Types
use tui_tetris.Types.{GameAction}
use tui_tetris.Board.{Board}
use tui_tetris.Scoring
use tui_tetris.Game.State
use tui_tetris.Game.State.{Tetromino, GameState}
use tui_tetris.Game.Moves
use tui_tetris.Game.Locking
use tui_tetris.Game.Actions
use tui_tetris.Game.BoardId.{marks, try_move-marks, try_rotate-marks, hold_piece-marks}
use tui_tetris.Game.BoardId.Locks.{Keeps, same-Keeps, more-Keeps, lock_piece-Keeps, anything}

-- The action locks no piece and starts no new game.
abbrev pub is_quiet : GameAction → Bool
is_quiet Types.hard_drop = false
is_quiet Types.restart = false
is_quiet _ = true

loud_action :
    (a : GameAction) → is_quiet a ≡ false → Actions.is_restart a ≡ false → a ≡ Types.hard_drop
loud_action a h h' = ground arith

module _ (b0 : Board) (id0 : ℕ) where
  abbrev pub KeepsResult : ℕ → GameState × Bool → Type 0
  KeepsResult n r = Keeps b0 id0 n r.0

  same : (n : ℕ) (s s' : GameState) → marks s' ≡ marks s → Keeps b0 id0 n s → Keeps b0 id0 n s'
  same = same-Keeps b0 id0

  hard_drop-Keeps :
      (n : ℕ) (s : GameState)
      → Keeps b0 id0 n s
      → Allows (Locking.hard_drop s) (λ (r : GameState × ℕ). Keeps b0 id0 (suc n) r.0)
  unfolding Locking.hard_drop
  hard_drop-Keeps n s k = elim (Option-cases s.active) [
    | inl e ↦ rw (e, Locking.hard_drop) (more-Keeps b0 id0 n (suc n) s (omega arith) k)
    | inr (t, e) ↦
        rw (e, Locking.hard_drop)
          (Allows->>= (Moves.drop_loop Moves.drop_fuel s.board t 0)
            (λ d. Locking.lock_piece (record s { active = some (Locking.dropped t d) }) >>= λ s'.
              ret (s', Scoring.calculate_drop_score d true))
            (λ d. Unit {0}) (λ (r : GameState × ℕ). Keeps b0 id0 (suc n) r.0)
            (anything (Moves.drop_loop Moves.drop_fuel s.board t 0))
            (λ d u.
              Allows->>= (Locking.lock_piece (record s { active = some (Locking.dropped t d) }))
                (λ s'. ret (s', Scoring.calculate_drop_score d true)) (Keeps b0 id0 (suc n))
                (λ (r : GameState × ℕ). Keeps b0 id0 (suc n) r.0)
                (lock_piece-Keeps b0 id0 n (record s { active = some (Locking.dropped t d) }) k)
                (λ s' k'. k')))
  ]

  soft_drop_step-Keeps :
      (n : ℕ) (s : GameState) → Keeps b0 id0 n s → KeepsResult n (Actions.soft_drop_step s)
  unfolding Actions.soft_drop_step
  soft_drop_step-Keeps n s k = same n s (Moves.try_move s 0 1).0 (try_move-marks s 0 1) k

  dispatch_quiet-Keeps :
      (n : ℕ) (s : GameState) (a : GameAction)
      → is_quiet a ≡ true
      → Keeps b0 id0 n s
      → Allows (Actions.dispatch s a) (KeepsResult n)
  unfolding Actions.dispatch Actions.toggle_pause
  dispatch_quiet-Keeps n s Types.move_left h k =
      same n s (Moves.try_move s (neg 1) 0).0 (try_move-marks s (neg 1) 0) k
  dispatch_quiet-Keeps n s Types.move_right h k =
      same n s (Moves.try_move s 1 0).0 (try_move-marks s 1 0) k
  dispatch_quiet-Keeps n s Types.soft_drop h k = soft_drop_step-Keeps n s k
  dispatch_quiet-Keeps n s Types.hard_drop h k = cc
  dispatch_quiet-Keeps n s Types.rotate_cw h k =
      same n s (Moves.try_rotate s true).0 (try_rotate-marks s true) k
  dispatch_quiet-Keeps n s Types.rotate_ccw h k =
      same n s (Moves.try_rotate s false).0 (try_rotate-marks s false) k
  dispatch_quiet-Keeps n s Types.hold h k = same n s (Actions.hold_piece s).0 (hold_piece-marks s) k
  dispatch_quiet-Keeps n s Types.pause h k = k
  dispatch_quiet-Keeps n s Types.restart h k = cc

  dispatch_drop-Keeps :
      (n : ℕ) (s : GameState)
      → Keeps b0 id0 n s
      → Allows (Actions.dispatch s Types.hard_drop) (KeepsResult (suc n))
  unfolding Actions.dispatch Actions.hard_drop_step
  dispatch_drop-Keeps n s k =
      Allows->>= (Locking.hard_drop (record s { last_action_was_rotate = false }))
        (λ (r : GameState × ℕ). ret (record r.0 { score = saturating_add r.0.score r.1 }, true))
        (λ (r : GameState × ℕ). Keeps b0 id0 (suc n) r.0) (KeepsResult (suc n))
        (hard_drop-Keeps n (record s { last_action_was_rotate = false }) k) (λ r k'. k')

  guarded-Keeps :
      (n : ℕ) (s : GameState) (a : GameAction)
      → Keeps b0 id0 n s
      → Allows (Actions.dispatch s a) (KeepsResult n)
      → Allows (Actions.apply_action s a) (KeepsResult n)
  unfolding Actions.apply_action
  guarded-Keeps n s a k d = elim (Bool-cases (s.game_over && not (Actions.is_restart a))) [
    | inl over ↦ rw (over, Actions.apply_action) k
    | inr on ↦
        elim (Bool-cases (s.paused && not (Actions.is_pause a) && not (Actions.is_restart a))) [
          | inl waits ↦ rw (on, Actions.apply_action, waits) k
          | inr goes ↦ rw (on, Actions.apply_action, goes) d
        ]
  ]

  pub quiet-Keeps :
      (n : ℕ) (s : GameState) (a : GameAction)
      → is_quiet a ≡ true
      → Keeps b0 id0 n s
      → Allows (Actions.apply_action s a) (KeepsResult n)
  quiet-Keeps n s a h k = guarded-Keeps n s a k (dispatch_quiet-Keeps n s a h k)

  pub drop-Keeps :
      (n : ℕ) (s : GameState)
      → Keeps b0 id0 n s
      → Allows (Actions.apply_action s Types.hard_drop) (KeepsResult (suc n))
  drop-Keeps n s k =
      guarded-Keeps (suc n) s Types.hard_drop (more-Keeps b0 id0 n (suc n) s (omega arith) k)
        (dispatch_drop-Keeps n s k)

  pub action-Keeps :
      (n : ℕ) (s : GameState) (a : GameAction)
      → Actions.is_restart a ≡ false
      → Keeps b0 id0 n s
      → Allows (Actions.apply_action s a) (KeepsResult (suc n))
  action-Keeps n s a h k = elim (Bool-cases (is_quiet a)) [
    | inl quiet ↦ quiet-Keeps (suc n) s a quiet (more-Keeps b0 id0 n (suc n) s (omega arith) k)
    | inr loud ↦
        subst (λ (d : GameAction). Allows (Actions.apply_action s d) (KeepsResult (suc n)))
          (sym (loud_action a loud h)) (drop-Keeps n s k)
  ]

  gravity-Keeps :
      (n fuel interval : ℕ) (s : GameState) (changed : Bool)
      → Keeps b0 id0 n s
      → Allows (Actions.gravity fuel interval s changed) (KeepsResult n)
  unfolding Actions.gravity
  gravity-Keeps n zero interval s changed k = tt
  gravity-Keeps n (suc fuel) interval s changed k =
      elim (Bool-cases (leb interval s.drop_timer_ms)) [
        | inl due ↦
            let s1 : GameState = record s { drop_timer_ms = s.drop_timer_ms - interval } in
            let r = Moves.try_move s1 0 1 in
            rw (due, Actions.gravity)
              (gravity-Keeps n fuel interval r.0 (if r.1 then true else changed)
                (same n s1 r.0 (try_move-marks s1 0 1) k))
        | inr early ↦ rw (early, Actions.gravity) k
      ]

  tick_lock-Keeps :
      (n : ℕ) (s : GameState) (elapsed : ℕ) (changed : Bool)
      → Keeps b0 id0 n s
      → Allows (Actions.tick_lock s elapsed changed) (KeepsResult (suc n))
  unfolding Actions.tick_lock
  tick_lock-Keeps n s elapsed changed k =
      let k' = more-Keeps b0 id0 n (suc n) s (omega arith) k in
      elim (Bool-cases (State.is_grounded s)) [
        | inl stands ↦ elim (Bool-cases (leb 450 (saturating_add s.lock_timer_ms elapsed))) [
          | inl due ↦
              let s1 : GameState = record s { lock_timer_ms = 0; drop_timer_ms = 0 } in
              rw (stands, Actions.tick_lock, due)
                (Allows->>= (Locking.lock_piece s1) (λ (s' : GameState). ret (s', true))
                  (Keeps b0 id0 (suc n)) (KeepsResult (suc n)) (lock_piece-Keeps b0 id0 n s1 k)
                  (λ s' on. on))
          | inr early ↦ rw (stands, Actions.tick_lock, early) k'
        ]
        | inr falls ↦ rw (falls, Actions.tick_lock) k'
      ]

  tick_active-Keeps :
      (n : ℕ) (active : Option Tetromino) (s : GameState) (elapsed : ℕ) (soft : Bool)
      → Keeps b0 id0 n s
      → Allows (Actions.tick_active active s elapsed soft) (KeepsResult (suc n))
  unfolding Actions.tick_active Actions.tick_piece Actions.tick_soft_drop
  tick_active-Keeps n none s elapsed soft k = more-Keeps b0 id0 n (suc n) s (omega arith) k
  tick_active-Keeps n (some t) s elapsed soft k =
      let s1 = Actions.tick_soft_drop s elapsed soft in
      let s2 : GameState = record s1 { drop_timer_ms = saturating_add s1.drop_timer_ms elapsed } in
      Allows->>= (Actions.gravity (suc s2.drop_timer_ms) (State.drop_interval_ms s1) s2 false)
        (λ (r : GameState × Bool). Actions.tick_lock r.0 elapsed r.1) (KeepsResult n)
        (KeepsResult (suc n))
        (gravity-Keeps n (suc s2.drop_timer_ms) (State.drop_interval_ms s1) s2 false k)
        (λ r k'. tick_lock-Keeps n r.0 elapsed r.1 k')

  pub tick-Keeps :
      (n : ℕ) (s : GameState) (elapsed : ℕ) (soft : Bool)
      → Keeps b0 id0 n s
      → Allows (Actions.tick s elapsed soft) (KeepsResult (suc n))
  unfolding Actions.tick Actions.tick_counters
  tick-Keeps n s elapsed soft k =
      let s1 = Actions.tick_counters s elapsed in
      let k' = more-Keeps b0 id0 n (suc n) s (omega arith) k in
      elim (Bool-cases (s.paused || s.game_over || not s.started)) [
        | inl idle ↦ rw (idle, Actions.tick) k'
        | inr runs ↦ elim (Bool-cases (ltb 0 s1.line_clear_timer_ms)) [
          | inl waits ↦ rw (runs, Actions.tick, waits) k'
          | inr goes ↦
              rw (runs, Actions.tick, goes) (tick_active-Keeps n s1.active s1 elapsed soft k)
        ]
      ]
