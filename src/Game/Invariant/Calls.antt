-- ===== src/Game/Invariant/Calls.antt =====
-- Every entry point of the game keeps the invariant and returns.
use tui_tetris.Prelude.{ℕ, ◌≡◌, refl, inl, inr, Bool, true, false, not}
use tui_tetris.Prelude.{◌&&◌, Option, none, some, arith, if◌then◌else◌, Bool-cases}
use tui_tetris.Prelude.{Returns, neg, wrapping_add, saturating_add, []}
use tui_tetris.Types.{PieceKind, GameAction, move_left, move_right, soft_drop, hard_drop, rotate_cw}
use tui_tetris.Types.{rotate_ccw, hold, pause, restart}
use tui_tetris.Board
use tui_tetris.Board.Rows.{rows}
use tui_tetris.Board.Clear.{full_rows}
use tui_tetris.Rng.Bags.{new-IsQueue}
use tui_tetris.Game.State
use tui_tetris.Game.State.{Tetromino, GameState, new_piece, piece_is_valid}
use tui_tetris.Game.Moves
use tui_tetris.Game.Actions
use tui_tetris.Game.Invariant.{IsWellFormed}
use tui_tetris.Game.Invariant.Spawns.{spawn_piece-IsWellFormed}
use tui_tetris.Game.Invariant.Moving.{try_move-IsWellFormed, try_rotate-IsWellFormed}
use tui_tetris.Game.Invariant.Locks.{hard_drop-IsWellFormed}
use tui_tetris.Game.Invariant.Ticks.{WellFormedResult, falling-IsWellFormed}

empty_board : full_rows Board.new ≡ []
unfolding rows
empty_board = refl

-- A new game is well formed, for every seed.
pub new-IsWellFormed : (seed : ℕ) → IsWellFormed (State.new seed)
unfolding State.new
new-IsWellFormed seed = record {
  sound = record {
    board = refl;
    no_full_row = empty_board;
    queue = new-IsQueue seed;
    preview = refl;
    fits = tt;
    by_lines = refl;
    resets_capped = omega arith;
    timer_capped = omega arith;
    delay_off = tt;
  };
  playing = λ st over e. cc;
}

pub start-IsWellFormed : (s : GameState) → IsWellFormed s → IsWellFormed (State.start s)
unfolding State.start
start-IsWellFormed s w = elim (Bool-cases s.started) [
  | inl already ↦ simp (already, State.start) w
  | inr fresh ↦
      simp (fresh, State.start) (spawn_piece-IsWellFormed (record s { started = true }) w.sound)
]

pub restart_with_seed-IsWellFormed :
    (s : GameState) (seed : ℕ) → IsWellFormed (Actions.restart_with_seed s seed).0
unfolding Actions.restart_with_seed
restart_with_seed-IsWellFormed s seed =
    let w = new-IsWellFormed seed in
    start-IsWellFormed (record (State.new seed) { episode_id = wrapping_add s.episode_id 1 })
      (record { sound = w.sound; playing = w.playing })

held-IsWellFormed : (s : GameState) → IsWellFormed s → IsWellFormed (Actions.held s)
held-IsWellFormed s w =
    let w' = falling-IsWellFormed s w in record { sound = w'.sound; playing = w'.playing }

swap_hold-IsWellFormed :
    (s : GameState) (current hold_kind : PieceKind)
    → IsWellFormed s
    → IsWellFormed (Actions.swap_hold s current hold_kind).0
unfolding Actions.swap_hold
swap_hold-IsWellFormed s current hold_kind w =
    let i = w.sound in
    elim (Bool-cases (piece_is_valid (new_piece hold_kind) s.board)) [
      | inl free ↦
          rw (free, Actions.swap_hold)
            (record {
              sound = record {
                board = i.board;
                no_full_row = i.no_full_row;
                queue = i.queue;
                preview = i.preview;
                fits = (omega arith, omega arith, free);
                by_lines = i.by_lines;
                resets_capped = omega arith;
                timer_capped = omega arith;
                delay_off = λ air. (refl, refl);
              };
              playing = λ st go e. cc;
            })
      | inr blocked ↦
          rw (blocked, Actions.swap_hold)
            (record {
              sound = record {
                board = i.board;
                no_full_row = i.no_full_row;
                queue = i.queue;
                preview = i.preview;
                fits = tt;
                by_lines = i.by_lines;
                resets_capped = i.resets_capped;
                timer_capped = i.timer_capped;
                delay_off = tt;
              };
              playing = λ st go e. cc;
            })
    ]

hold_with-IsWellFormed :
    (active : Option Tetromino) (slot : Option PieceKind) (s : GameState)
    → IsWellFormed s
    → IsWellFormed (Actions.hold_with active slot s).0
unfolding Actions.hold_with
hold_with-IsWellFormed none slot s w = w
hold_with-IsWellFormed (some t) (some kind) s w = swap_hold-IsWellFormed s t.kind kind w
hold_with-IsWellFormed (some t) none s w =
    held-IsWellFormed (State.spawn_piece (record s { hold = some t.kind })).0
      (spawn_piece-IsWellFormed (record s { hold = some t.kind }) w.sound)

-- The choice between a refusal and a call.
choose-IsWellFormed :
    (b : Bool) (r r' : GameState × Bool)
    → IsWellFormed r.0
    → IsWellFormed r'.0
    → IsWellFormed (if b then r else r').0
choose-IsWellFormed true r r' w w' = w
choose-IsWellFormed false r r' w w' = w'

hold_piece-IsWellFormed : (s : GameState) → IsWellFormed s → IsWellFormed (Actions.hold_piece s).0
unfolding Actions.hold_piece
hold_piece-IsWellFormed s w =
    choose-IsWellFormed (not s.can_hold) (s, false) (Actions.hold_with s.active s.hold s) w
      (hold_with-IsWellFormed s.active s.hold s w)

soft_drop_step-IsWellFormed :
    (s : GameState) → IsWellFormed s → IsWellFormed (Actions.soft_drop_step s).0
unfolding Actions.soft_drop_step
soft_drop_step-IsWellFormed s w =
    let w' = try_move-IsWellFormed s 0 1 w in record { sound = w'.sound; playing = w'.playing }

hard_drop_step-Returns :
    (s : GameState) → IsWellFormed s → Returns (Actions.hard_drop_step s) WellFormedResult
unfolding Actions.hard_drop_step
hard_drop_step-Returns s w =
    let (r, ends, w') =
      hard_drop-IsWellFormed (record s { last_action_was_rotate = false })
        (record { sound = w.sound; playing = w.playing }) in
    (
      (record r.0 { score = saturating_add r.0.score r.1 }, true),
      rw (ends, Actions.hard_drop_step),
      record { sound = w'.sound; playing = w'.playing },
    )

dispatch-Returns :
    (s : GameState) (a : GameAction)
    → IsWellFormed s
    → Returns (Actions.dispatch s a) WellFormedResult
unfolding Actions.dispatch Actions.toggle_pause
dispatch-Returns s move_left w =
    (Moves.try_move s (neg 1) 0, refl, try_move-IsWellFormed s (neg 1) 0 w)
dispatch-Returns s move_right w = (Moves.try_move s 1 0, refl, try_move-IsWellFormed s 1 0 w)
dispatch-Returns s soft_drop w = (Actions.soft_drop_step s, refl, soft_drop_step-IsWellFormed s w)
dispatch-Returns s hard_drop w = hard_drop_step-Returns s w
dispatch-Returns s rotate_cw w = (Moves.try_rotate s true, refl, try_rotate-IsWellFormed s true w)
dispatch-Returns s rotate_ccw w =
    (Moves.try_rotate s false, refl, try_rotate-IsWellFormed s false w)
dispatch-Returns s hold w = (Actions.hold_piece s, refl, hold_piece-IsWellFormed s w)
dispatch-Returns s pause w =
    ((Actions.toggle_pause s, true), refl, record { sound = w.sound; playing = w.playing })
dispatch-Returns s restart w = (
  Actions.restart_with_seed s s.piece_queue.rng,
  refl,
  restart_with_seed-IsWellFormed s s.piece_queue.rng,
)

-- In a well-formed game every action returns, a hard drop too, whose loop ends within its fuel and
-- whose lock does not panic; the game stays well formed.
pub apply_action-Returns :
    (s : GameState) (a : GameAction)
    → IsWellFormed s
    → Returns (Actions.apply_action s a) WellFormedResult
unfolding Actions.apply_action
apply_action-Returns s a w = elim (Bool-cases (s.game_over && not (Actions.is_restart a))) [
  | inl over ↦ ((s, false), rw (over, Actions.apply_action), w)
  | inr on ↦
      elim (Bool-cases (s.paused && not (Actions.is_pause a) && not (Actions.is_restart a))) [
        | inl waits ↦ ((s, false), rw (on, Actions.apply_action, waits), w)
        | inr goes ↦
            let (r, ends, w') = dispatch-Returns s a w in
            (r, rw (on, Actions.apply_action, goes) ends, w')
      ]
]
