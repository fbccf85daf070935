-- ===== src/Session/Quiet.antt =====
-- The actions of a placement before its drop leave the board alone.
use tui_tetris.Prelude.{ℕ, ◌≡◌, refl, ◌∙◌, inl, inr, Bool, true, false, not, ◌&&◌}
use tui_tetris.Prelude.{ret, Returns, Returns-result, Bool-cases}
use tui_tetris.Board.{Board}
use tui_tetris.Game.Untouched.{try_move-untouched, try_rotate-untouched, hold_piece-untouched}
use tui_tetris.Prelude.{ap}
use tui_tetris.Types.{GameAction, rotate_cw, rotate_ccw, hold}
use tui_tetris.Game.State.{GameState}
use tui_tetris.Game.Moves
use tui_tetris.Game.Actions
use tui_tetris.Game.Invariant.{IsWellFormed}
use tui_tetris.Game.Invariant.Ticks.{WellFormedResult}
use tui_tetris.Game.Invariant.Calls.{apply_action-Returns}

pub try_move-board : (s : GameState) (dx dy : ℕ) → (Moves.try_move s dx dy).0.board ≡ s.board
try_move-board s dx dy = ap (λ (u : (Board × ℕ) × (ℕ × ℕ)). u.0.0) (try_move-untouched s dx dy)

pub try_rotate-board : (s : GameState) (c : Bool) → (Moves.try_rotate s c).0.board ≡ s.board
try_rotate-board s c = ap (λ (u : (Board × ℕ) × (ℕ × ℕ)). u.0.0) (try_rotate-untouched s c)

pub hold_piece-board : (s : GameState) → (Actions.hold_piece s).0.board ≡ s.board
hold_piece-board s = ap (λ (u : (Board × ℕ) × (ℕ × ℕ)). u.0.0) (hold_piece-untouched s)

-- The game is well formed and has the board `b`.
abbrev pub Keeps : Board → GameState → Type 0
Keeps b s = IsWellFormed s × (s.board ≡ b)

-- The action leaves the board alone.
abbrev pub Quiet : GameAction → Type 0
Quiet a =
    (s : GameState)
    → (r : GameState × Bool) × (Actions.dispatch s a ≡ ret r) × (r.0.board ≡ s.board)

pub rotate_cw-Quiet : Quiet rotate_cw
unfolding Actions.dispatch
rotate_cw-Quiet s = (Moves.try_rotate s true, refl, try_rotate-board s true)

pub rotate_ccw-Quiet : Quiet rotate_ccw
unfolding Actions.dispatch
rotate_ccw-Quiet s = (Moves.try_rotate s false, refl, try_rotate-board s false)

pub hold-Quiet : Quiet hold
unfolding Actions.dispatch
hold-Quiet s = (Actions.hold_piece s, refl, hold_piece-board s)

-- A quiet action returns, well formed and with the board of before.
pub apply_action-Keeps :
    (b : Board) (a : GameAction) (s : GameState)
    → Quiet a
    → Keeps b s
    → Returns (Actions.apply_action s a) (λ (r : GameState × Bool). Keeps b r.0)
unfolding Actions.apply_action
apply_action-Keeps b a s quiet (w, same) =
    let (r, ends, w') = apply_action-Returns s a w in
    let (r', goes', still) = quiet s in
    elim (Bool-cases (s.game_over && not (Actions.is_restart a))) [
      | inl over ↦ ((s, false), rw (over, Actions.apply_action), (w, same))
      | inr on ↦
          elim (Bool-cases (s.paused && not (Actions.is_pause a) && not (Actions.is_restart a))) [
            | inl waits ↦ ((s, false), rw (on, Actions.apply_action, waits), (w, same))
            | inr goes ↦
                let ends' : Actions.apply_action s a ≡ ret r' =
                  rw (on, Actions.apply_action, goes) goes' in
                (
                  r',
                  ends',
                  (
                    Returns-result (Actions.apply_action s a) WellFormedResult r' (r, ends, w')
                        ends',
                    still ∙ same,
                  ),
                )
          ]
    ]
