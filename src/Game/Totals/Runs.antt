-- ===== src/Game/Totals/Runs.antt =====
-- The runs of locks, drops, actions and ticks keep the score and the lines.
use tui_tetris.Prelude.{
  ℕ, zero, suc, ◌-◌, ◌≤◌, ◌≡◌, sym, inl, inr, Bool, true, false, not, ◌&&◌, ◌||◌,
}
use tui_tetris.Prelude.{
  Option, none, some, List, length, Run, ret, fault, ◌>>=◌, Returns, Allows, Allows->>=,
  Returns-Allows,
}
use tui_tetris.Prelude.{
  Bool-cases, Option-cases, arith, if◌then◌else◌, leb, ltb, neg, u32_max, saturating_add,
}
use mathlib.Core.Path.{subst}
use tui_tetris.Types
use tui_tetris.Types.{GameAction, PieceKind, TSpinKind}
use tui_tetris.Board
use tui_tetris.Board.{Board}
use tui_tetris.Scoring
use tui_tetris.Game.State
use tui_tetris.Game.State.{Tetromino, GameState}
use tui_tetris.Game.Moves
use tui_tetris.Game.Locking
use tui_tetris.Game.Actions
use tui_tetris.Game.Invariant.{IsWellFormed}
use tui_tetris.Game.Invariant.Ticks.{WellFormedResult, tick-Returns}
use tui_tetris.Game.Invariant.Calls.{apply_action-Returns}
use tui_tetris.Game.Totals.{
  totals, AtLeast, Keeps, try_move-totals, try_rotate-totals, spawn_piece-totals, hold_piece-totals,
}

anything {ℓ} : {A : Type ℓ} (m : Run A) → Allows m (λ r. Unit {0})
anything (ret r) = tt
anything fault = tt

module _ (a l : ℕ) where
  same-Keeps : (s s' : GameState) → totals s' ≡ totals s → Keeps a l s → Keeps a l s'
  same-Keeps s s' e k = subst (AtLeast a l) (sym e) k

  either_Keeps :
      (b : Bool) (s s' : GameState) → Keeps a l s → Keeps a l s' → Keeps a l (if b then s else s')
  either_Keeps true s s' k k' = k
  either_Keeps false s s' k k' = k'

  saturating_add-Keeps :
      (s : GameState) (n : ℕ) → Keeps a l s → AtLeast a l (saturating_add s.score n, s.lines)
  saturating_add-Keeps s n k = ground (arith, k.0, k.1, k.2, k.3)

  apply_line_clear-Keeps :
      (s : GameState) (n : ℕ) (spin : TSpinKind)
      → Keeps a l s
      → Keeps a l (Locking.apply_line_clear s n spin).0
  unfolding Locking.apply_line_clear Locking.score_clear
  apply_line_clear-Keeps s n spin k = ground (arith, k.0, k.1, k.2, k.3)

  finish_lock-Keeps :
      (s : GameState) (ok : Bool) (spin : TSpinKind) (b : Board) (rows : List ℕ)
      → Keeps a l s
      → Keeps a l (Locking.finish_lock s ok spin (b, rows))
  unfolding Locking.finish_lock Locking.spawn_next
  finish_lock-Keeps s ok spin b rows k =
      let scored =
        Locking.apply_line_clear (Locking.cleared_board s ok b (length rows)) (length rows) spin in
      let told = Locking.with_event scored (length rows) spin in
      let k' : Keeps a l scored.0 =
        apply_line_clear-Keeps (Locking.cleared_board s ok b (length rows)) (length rows) spin k in
      either_Keeps told.game_over told (State.spawn_piece told).0 k'
        (same-Keeps told (State.spawn_piece told).0 (spawn_piece-totals told) k')

  lock_piece-Keeps : (s : GameState) → Keeps a l s → Allows (Locking.lock_piece s) (Keeps a l)
  unfolding Locking.lock_piece
  lock_piece-Keeps s k = elim (Option-cases s.active) [
    | inl e ↦ rw (e, Locking.lock_piece) k
    | inr (t, e) ↦
        rw (e, Locking.lock_piece)
          (Allows->>= (Board.clear_full_rows (Locking.written s t).board)
            (λ cleared. ret (
              Locking.finish_lock (Locking.written s t)
                (Board.lock_piece s.board (State.shape t) t.x t.y t.kind).1 (Locking.spin_of s t)
                cleared))
            (λ r. Unit {0}) (Keeps a l)
            (anything (Board.clear_full_rows (Locking.written s t).board))
            (λ r u.
              finish_lock-Keeps (Locking.written s t)
                (Board.lock_piece s.board (State.shape t) t.x t.y t.kind).1 (Locking.spin_of s t)
                r.0 r.1 k))
  ]

  hard_drop-Keeps :
      (s : GameState)
      → Keeps a l s
      → Allows (Locking.hard_drop s) (λ (r : GameState × ℕ). Keeps a l r.0)
  unfolding Locking.hard_drop
  hard_drop-Keeps s k = elim (Option-cases s.active) [
    | inl e ↦ rw (e, Locking.hard_drop) k
    | inr (t, e) ↦
        rw (e, Locking.hard_drop)
          (Allows->>= (Moves.drop_loop Moves.drop_fuel s.board t 0)
            (λ d. Locking.lock_piece (record s { active = some (Locking.dropped t d) }) >>= λ s'.
              ret (s', Scoring.calculate_drop_score d true))
            (λ d. Unit {0}) (λ (r : GameState × ℕ). Keeps a l r.0)
            (anything (Moves.drop_loop Moves.drop_fuel s.board t 0))
            (λ d u.
              Allows->>= (Locking.lock_piece (record s { active = some (Locking.dropped t d) }))
                (λ s'. ret (s', Scoring.calculate_drop_score d true)) (Keeps a l)
                (λ (r : GameState × ℕ). Keeps a l r.0)
                (lock_piece-Keeps (record s { active = some (Locking.dropped t d) }) k)
                (λ s' k'. k')))
  ]

  abbrev KeepsResult : GameState × Bool → Type 0
  KeepsResult r = Keeps a l r.0

  soft_drop_step-Keeps : (s : GameState) → Keeps a l s → KeepsResult (Actions.soft_drop_step s)
  unfolding Actions.soft_drop_step
  soft_drop_step-Keeps s k =
      let moved = Moves.try_move s 0 1 in
      let k' : Keeps a l moved.0 = same-Keeps s moved.0 (try_move-totals s 0 1) k in
      let gained = saturating_add-Keeps moved.0 (Scoring.calculate_drop_score 1 false) k' in
      elim (Bool-cases moved.1) [ inl yes_m ↦ rw yes_m gained | inr no_m ↦ rw no_m k' ]

  dispatch-Keeps :
      (s : GameState) (action : GameAction)
      → Actions.is_restart action ≡ false
      → Keeps a l s
      → Allows (Actions.dispatch s action) KeepsResult
  unfolding Actions.dispatch Actions.toggle_pause Actions.hard_drop_step
  dispatch-Keeps s Types.move_left h k =
      same-Keeps s (Moves.try_move s (neg 1) 0).0 (try_move-totals s (neg 1) 0) k
  dispatch-Keeps s Types.move_right h k =
      same-Keeps s (Moves.try_move s 1 0).0 (try_move-totals s 1 0) k
  dispatch-Keeps s Types.soft_drop h k = soft_drop_step-Keeps s k
  dispatch-Keeps s Types.hard_drop h k =
      Allows->>= (Locking.hard_drop (record s { last_action_was_rotate = false }))
        (λ (r : GameState × ℕ). ret (record r.0 { score = saturating_add r.0.score r.1 }, true))
        (λ (r : GameState × ℕ). Keeps a l r.0) KeepsResult
        (hard_drop-Keeps (record s { last_action_was_rotate = false }) k)
        (λ r k'. saturating_add-Keeps r.0 r.1 k')
  dispatch-Keeps s Types.rotate_cw h k =
      same-Keeps s (Moves.try_rotate s true).0 (try_rotate-totals s true) k
  dispatch-Keeps s Types.rotate_ccw h k =
      same-Keeps s (Moves.try_rotate s false).0 (try_rotate-totals s false) k
  dispatch-Keeps s Types.hold h k = same-Keeps s (Actions.hold_piece s).0 (hold_piece-totals s) k
  dispatch-Keeps s Types.pause h k = k
  dispatch-Keeps s Types.restart h k = cc

  apply_action-Keeps :
      (s : GameState) (action : GameAction)
      → Actions.is_restart action ≡ false
      → Keeps a l s
      → Allows (Actions.apply_action s action) KeepsResult
  unfolding Actions.apply_action
  apply_action-Keeps s action h k =
      elim (Bool-cases (s.game_over && not (Actions.is_restart action))) [
        | inl over ↦ rw (over, Actions.apply_action) k
        | inr on ↦
            elim (Bool-cases
              (s.paused && not (Actions.is_pause action) && not (Actions.is_restart action))) [
                | inl waits ↦ rw (on, Actions.apply_action, waits) k
                | inr goes ↦ rw (on, Actions.apply_action, goes) (dispatch-Keeps s action h k)
              ]
      ]

  gravity-Keeps :
      (fuel interval : ℕ) (s : GameState) (changed : Bool)
      → Keeps a l s
      → Allows (Actions.gravity fuel interval s changed) KeepsResult
  unfolding Actions.gravity
  gravity-Keeps zero interval s changed k = tt
  gravity-Keeps (suc fuel) interval s changed k = elim (Bool-cases (leb interval s.drop_timer_ms)) [
    | inl due ↦
        let s1 : GameState = record s { drop_timer_ms = s.drop_timer_ms - interval } in
        let r = Moves.try_move s1 0 1 in
        rw (due, Actions.gravity)
          (gravity-Keeps fuel interval r.0 (if r.1 then true else changed)
            (same-Keeps s1 r.0 (try_move-totals s1 0 1) k))
    | inr early ↦ rw (early, Actions.gravity) k
  ]

  tick_lock-Keeps :
      (s : GameState) (elapsed : ℕ) (changed : Bool)
      → Keeps a l s
      → Allows (Actions.tick_lock s elapsed changed) KeepsResult
  unfolding Actions.tick_lock
  tick_lock-Keeps s elapsed changed k = elim (Bool-cases (State.is_grounded s)) [
    | inl stands ↦ elim (Bool-cases (leb 450 (saturating_add s.lock_timer_ms elapsed))) [
      | inl due ↦
          let s1 : GameState = record s { lock_timer_ms = 0; drop_timer_ms = 0 } in
          rw (stands, Actions.tick_lock, due)
            (Allows->>= (Locking.lock_piece s1) (λ (s' : GameState). ret (s', true)) (Keeps a l)
              KeepsResult (lock_piece-Keeps s1 k) (λ s' k'. k'))
      | inr early ↦ rw (stands, Actions.tick_lock, early) k
    ]
    | inr falls ↦ rw (falls, Actions.tick_lock) k
  ]

  tick_active-Keeps :
      (active : Option Tetromino) (s : GameState) (elapsed : ℕ) (soft : Bool)
      → Keeps a l s
      → Allows (Actions.tick_active active s elapsed soft) KeepsResult
  unfolding Actions.tick_active Actions.tick_piece Actions.tick_soft_drop
  tick_active-Keeps none s elapsed soft k = k
  tick_active-Keeps (some t) s elapsed soft k =
      let s1 = Actions.tick_soft_drop s elapsed soft in
      let s2 : GameState = record s1 { drop_timer_ms = saturating_add s1.drop_timer_ms elapsed } in
      Allows->>= (Actions.gravity (suc s2.drop_timer_ms) (State.drop_interval_ms s1) s2 false)
        (λ (r : GameState × Bool). Actions.tick_lock r.0 elapsed r.1) KeepsResult KeepsResult
        (gravity-Keeps (suc s2.drop_timer_ms) (State.drop_interval_ms s1) s2 false k)
        (λ r k'. tick_lock-Keeps r.0 elapsed r.1 k')

  tick-Keeps :
      (s : GameState) (elapsed : ℕ) (soft : Bool)
      → Keeps a l s
      → Allows (Actions.tick s elapsed soft) KeepsResult
  unfolding Actions.tick Actions.tick_counters
  tick-Keeps s elapsed soft k =
      let s1 = Actions.tick_counters s elapsed in
      elim (Bool-cases (s.paused || s.game_over || not s.started)) [
        | inl idle ↦ rw (idle, Actions.tick) k
        | inr runs ↦ elim (Bool-cases (ltb 0 s1.line_clear_timer_ms)) [
          | inl waits ↦ rw (runs, Actions.tick, waits) k
          | inr goes ↦ rw (runs, Actions.tick, goes) (tick_active-Keeps s1.active s1 elapsed soft k)
        ]
      ]

-- The score and the line count of the result are u32 values of at least those of `s`.
abbrev pub NeverLoses : GameState → GameState × Bool → Type 0
NeverLoses s r = Keeps s.score s.lines r.0

-- In a well-formed game whose score and line count are u32 values, every action but a restart returns
-- a game whose score and line count are u32 values of at least those.
pub apply_action-NeverLoses :
    (s : GameState) (action : GameAction)
    → IsWellFormed s
    → s.score ≤ u32_max
    → s.lines ≤ u32_max
    → Actions.is_restart action ≡ false
    → Returns (Actions.apply_action s action) (NeverLoses s)
apply_action-NeverLoses s action w hs hl h =
    Returns-Allows (Actions.apply_action s action) WellFormedResult (NeverLoses s)
      (apply_action-Returns s action w)
      (apply_action-Keeps s.score s.lines s action h (omega arith, hs, omega arith, hl))

-- In a well-formed game whose score and line count are u32 values, every tick returns a game whose
-- score and line count are u32 values of at least those.
pub tick-NeverLoses :
    (s : GameState) (elapsed : ℕ) (soft : Bool)
    → IsWellFormed s
    → s.score ≤ u32_max
    → s.lines ≤ u32_max
    → Returns (Actions.tick s elapsed soft) (NeverLoses s)
tick-NeverLoses s elapsed soft w hs hl =
    Returns-Allows (Actions.tick s elapsed soft) WellFormedResult (NeverLoses s)
      (tick-Returns s elapsed soft w)
      (tick-Keeps s.score s.lines s elapsed soft (omega arith, hs, omega arith, hl))
