-- ===== src/Game/Invariant/Ticks.antt =====
-- A tick ends, never panics, and keeps the invariant.
use tui_tetris.Prelude.{ℕ, zero, suc, ◌-◌, ◌≤◌, ◌<◌, ◌≡◌, refl, inl, inr}
use tui_tetris.Prelude.{Bool, true, false, not, ◌||◌, Option, none, some, arith, if◌then◌else◌}
use tui_tetris.Prelude.{Bool-cases, leb, ltb, leb→le, leb→lt, Option-cases, Returns}
use tui_tetris.Prelude.{saturating_add}
use tui_tetris.Scoring.Tables.{interval_floor}
use tui_tetris.Game.State.{Tetromino, GameState, is_grounded, piece_is_grounded, drop_interval_ms}
use tui_tetris.Game.Moves
use tui_tetris.Game.Actions
use tui_tetris.Board.{Board}
use tui_tetris.Game.Invariant.{DelayOff, IsWellFormed}
use tui_tetris.Game.Invariant.Moving.{try_move-IsWellFormed}
use tui_tetris.Game.Invariant.Locks.{lock_piece-IsWellFormed}

-- A game that a call returns is well formed.
abbrev pub WellFormedResult : GameState × Bool → Type 0
WellFormedResult r = IsWellFormed r.0

reset-drop_timer : (s : GameState) → (Moves.handle_lock_reset s).drop_timer_ms ≡ s.drop_timer_ms
unfolding Moves.handle_lock_reset
reset-drop_timer s = ground arith

try_move-drop_timer :
    (s : GameState) (dx dy : ℕ) → (Moves.try_move s dx dy).0.drop_timer_ms ≡ s.drop_timer_ms
unfolding Moves.try_move
try_move-drop_timer s dx dy = elim (Option-cases s.active) [
  | inl e ↦ rw (e, Moves.try_move)
  | inr (t, e) ↦
      ground (arith, e, reset-drop_timer (record s { active = some (Moves.moved_by t dx dy) }))
]

-- Gravity ends with the timer below the interval.
pub gravity-Returns :
    (fuel interval : ℕ) (s : GameState) (changed : Bool)
    → 0 < interval
    → s.drop_timer_ms < fuel
    → IsWellFormed s
    → Returns
        (Actions.gravity fuel interval s changed)
        (λ (r : GameState × Bool). IsWellFormed r.0 × (r.0.drop_timer_ms < interval))
unfolding Actions.gravity
gravity-Returns zero interval s changed p f w = absurd (omega arith)
gravity-Returns (suc fuel) interval s changed p f w =
    let s' : GameState = record s { drop_timer_ms = s.drop_timer_ms - interval } in
    let w' : IsWellFormed s' = record { sound = w.sound; playing = w.playing } in
    let (next, moved) = Moves.try_move s' 0 1 in
    let timer = try_move-drop_timer s' 0 1 in
    elim (Bool-cases (leb interval s.drop_timer_ms)) [
      | inl due ↦
          rw (due, Actions.gravity)
            (gravity-Returns fuel interval next (if moved then true else changed) p
              (omega (arith, timer, leb→le interval s.drop_timer_ms due))
              (try_move-IsWellFormed s' 0 1 w'))
      | inr rest ↦
          rw (rest, Actions.gravity) ((s, changed), refl, (w, leb→lt interval s.drop_timer_ms rest))
    ]

interval_positive : (s : GameState) → 12 ≤ drop_interval_ms s
unfolding drop_interval_ms
interval_positive s = ground (arith, interval_floor s.level)

-- On the ground nothing is asked of the delay; in the air it is off.
ground_DelayOff :
    (active : Option Tetromino) (b : Board) (timer resets : ℕ)
    → elim active [ none ↦ false | some t ↦ piece_is_grounded t b ] ≡ true
    → DelayOff active b timer resets
ground_DelayOff none b timer resets h = tt
ground_DelayOff (some t) b timer resets h = λ air. cc

pub off_DelayOff : (active : Option Tetromino) (b : Board) → DelayOff active b 0 0
off_DelayOff none b = tt
off_DelayOff (some t) b = λ air. (refl, refl)

-- The timer runs on while the piece stands.
standing-IsWellFormed :
    (s : GameState) (timer : ℕ)
    → IsWellFormed s
    → is_grounded s ≡ true
    → timer < 450
    → IsWellFormed (record s { lock_timer_ms = timer })
unfolding is_grounded
standing-IsWellFormed s timer w g h =
    let i = w.sound in
    record {
      sound = record {
        board = i.board;
        no_full_row = i.no_full_row;
        queue = i.queue;
        preview = i.preview;
        fits = i.fits;
        by_lines = i.by_lines;
        resets_capped = i.resets_capped;
        timer_capped = h;
        delay_off = ground_DelayOff s.active s.board timer s.lock_reset_count g;
      };
      playing = w.playing;
    }

pub falling-IsWellFormed :
    (s : GameState)
    → IsWellFormed s
    → IsWellFormed (record s { lock_timer_ms = 0; lock_reset_count = 0 })
falling-IsWellFormed s w =
    let i = w.sound in
    record {
      sound = record {
        board = i.board;
        no_full_row = i.no_full_row;
        queue = i.queue;
        preview = i.preview;
        fits = i.fits;
        by_lines = i.by_lines;
        resets_capped = omega arith;
        timer_capped = omega arith;
        delay_off = off_DelayOff s.active s.board;
      };
      playing = w.playing;
    }

tick_lock-Returns :
    (s : GameState) (elapsed : ℕ) (changed : Bool)
    → IsWellFormed s
    → Returns (Actions.tick_lock s elapsed changed) WellFormedResult
unfolding Actions.tick_lock
tick_lock-Returns s elapsed changed w = elim (Bool-cases (is_grounded s)) [
  | inl stands ↦
      let timer = saturating_add s.lock_timer_ms elapsed in
      elim (Bool-cases (leb 450 timer)) [
        | inl due ↦
            let stopped = standing-IsWellFormed s 0 w stands (omega arith) in
            let (s', ends, w') =
              lock_piece-IsWellFormed (record s { lock_timer_ms = 0; drop_timer_ms = 0 })
                (record { sound = stopped.sound; playing = stopped.playing }) in
            rw (stands, Actions.tick_lock, due, ends) ((s', true), refl, w')
        | inr early ↦
            rw (stands, Actions.tick_lock, early)
              (
                (record s { lock_timer_ms = timer }, changed),
                refl,
                standing-IsWellFormed s timer w stands (leb→lt 450 timer early),
              )
      ]
  | inr falls ↦
      rw (falls, Actions.tick_lock)
        (
          (record s { lock_timer_ms = 0; lock_reset_count = 0 }, changed),
          refl,
          falling-IsWellFormed s w,
        )
]

tick_piece-Returns :
    (s : GameState) (elapsed : ℕ) (soft : Bool)
    → IsWellFormed s
    → Returns (Actions.tick_piece s elapsed soft) WellFormedResult
unfolding Actions.tick_piece Actions.tick_soft_drop
tick_piece-Returns s elapsed soft w =
    let s1 = Actions.tick_soft_drop s elapsed soft in
    let s2 : GameState = record s1 { drop_timer_ms = saturating_add s1.drop_timer_ms elapsed } in
    let (r, falls, (w', below)) =
      gravity-Returns (suc s2.drop_timer_ms) (drop_interval_ms s1) s2 false
        (omega (arith, interval_positive s1)) (omega arith)
        (record { sound = w.sound; playing = w.playing }) in
    let (r', ends, w'') = tick_lock-Returns r.0 elapsed r.1 w' in
    (r', rw (falls, Actions.tick_piece) ends, w'')

tick_active-Returns :
    (active : Option Tetromino) (s : GameState) (elapsed : ℕ) (soft : Bool)
    → IsWellFormed s
    → Returns (Actions.tick_active active s elapsed soft) WellFormedResult
unfolding Actions.tick_active
tick_active-Returns none s elapsed soft w = ((s, false), refl, w)
tick_active-Returns (some t) s elapsed soft w = tick_piece-Returns s elapsed soft w

-- In a well-formed game `tick` returns, for every elapsed time and soft-drop flag: its gravity loop
-- ends within its fuel and no lock panics; the game stays well formed.
pub tick-Returns :
    (s : GameState) (elapsed : ℕ) (soft : Bool)
    → IsWellFormed s
    → Returns (Actions.tick s elapsed soft) WellFormedResult
unfolding Actions.tick Actions.tick_counters
tick-Returns s elapsed soft w =
    let s1 = Actions.tick_counters s elapsed in
    let w1 : IsWellFormed s1 = record { sound = w.sound; playing = w.playing } in
    let (r, ends, w') = tick_active-Returns s1.active s1 elapsed soft w1 in
    elim (Bool-cases (s.paused || s.game_over || not s.started)) [
      | inl idle ↦ ((s, false), rw (idle, Actions.tick), w)
      | inr runs ↦ elim (Bool-cases (ltb 0 s1.line_clear_timer_ms)) [
        | inl waits ↦ ((s1, false), rw (runs, Actions.tick, waits), w1)
        | inr goes ↦ (r, rw (runs, Actions.tick, goes) ends, w')
      ]
    ]
