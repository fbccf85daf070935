-- ===== src/Session/Placement.antt =====
-- What a placement does.
use tui_tetris.Prelude.{ℕ, zero, suc, ◌+◌, ◌*◌, ◌%◌, ◌<◌, ◌≡◌, ◌≢◌, refl, ◌∙◌, inl, inr}
use tui_tetris.Prelude.{Bool, true, false, not, ◌&&◌, some, ret, Returns}
use tui_tetris.Prelude.{Returns-branch, Bool-cases, arith, ◌==◌, neg, add_i8, sub_i8}
use tui_tetris.Prelude.{ltb_i8}
use mathlib.Core.Path.{subst}
use tui_tetris.Types
use tui_tetris.Types.{PieceKind, Rotation, GameAction, move_left, move_right, hard_drop}
use tui_tetris.Pieces.{get_shape}
use tui_tetris.Board.Lock.{all_inside}
use tui_tetris.Game.State.{Tetromino, GameState}
use tui_tetris.Game.Moves
use tui_tetris.Game.Actions
use tui_tetris.Game.Invariant.Moving.{try_move-IsWellFormed}
use tui_tetris.Board.{Board}
use tui_tetris.Session.Quiet.{Keeps, try_move-board}
use tui_tetris.Session.Place
use tui_tetris.Session.Place.{Outcome, placed, refused}

-- For a piece on the grid, the distance to a target that passes the test of the bounds is not -128,
-- the one i8 that has no negative.
pub distance_lem :
    (k : PieceKind) (r : Rotation) (x y target : ℕ)
    → x < 256
    → target < 256
    → all_inside (get_shape k r) x y ≡ true
    → Place.x_in_bounds (get_shape k r) target ≡ true
    → sub_i8 target x ≢ 128
unfolding get_shape Place.x_in_bounds
distance_lem Types.i_piece r x y target hx ht i b = ground arith
distance_lem Types.o_piece r x y target hx ht i b = ground arith
distance_lem Types.t_piece r x y target hx ht i b = ground arith
distance_lem Types.s_piece r x y target hx ht i b = ground arith
distance_lem Types.z_piece r x y target hx ht i b = ground arith
distance_lem Types.j_piece r x y target hx ht i b = ground arith
distance_lem Types.l_piece r x y target hx ht i b = ground arith

-- The active piece has the rotation `r` and the column `x`.
abbrev pub ActiveAt : GameState → Rotation → ℕ → Type 0
ActiveAt s r x = (t : Tetromino) × (s.active ≡ some t) × (t.rotation ≡ r) × (t.x ≡ x)

-- After moves that were all made the piece is at the column; the game is well formed in any case.
abbrev pub Moved : Board → Rotation → ℕ → GameState × Bool → Type 0
Moved b r x (s, true) = Keeps b s × ActiveAt s r x
Moved b r x (s, false) = Keeps b s

handle_lock_reset-active : (s : GameState) → (Moves.handle_lock_reset s).active ≡ s.active
unfolding Moves.handle_lock_reset
handle_lock_reset-active s = ground arith

-- A step along the row by `d`, which is 1 or -1.
try_move-Moved :
    (b : Board) (s : GameState) (t : Tetromino) (d : ℕ)
    → Keeps b s
    → s.active ≡ some t
    → (d == 0) ≡ false
    → Moved b t.rotation (add_i8 t.x d) (Moves.try_move s d 0)
unfolding Moves.try_move
try_move-Moved b s t d w e h =
    let w' = try_move-IsWellFormed s d 0 w.0 in
    let same = try_move-board s d 0 ∙ w.1 in
    elim (Bool-cases (Moves.can_move s.board t d 0)) [
      | inl free ↦
          rw (e, Moves.try_move, free, h)
            (
              (rw (e, Moves.try_move, free, h) at w', rw (e, Moves.try_move, free, h) at same),
              (
                Moves.moved_by t d 0,
                handle_lock_reset-active (record s { active = some (Moves.moved_by t d 0) }),
                refl,
                refl,
              ),
            )
      | inr blocked ↦ rw (e, Moves.try_move, blocked) w
    ]

-- The action is the step along the row by `d`.
abbrev Steps : GameAction → ℕ → Type 0
Steps a d = (s : GameState) → Actions.dispatch s a ≡ ret (Moves.try_move s d 0)

apply_move-Moved :
    (b : Board) (a : GameAction) (d : ℕ) (s : GameState) (r : Rotation) (x : ℕ)
    → Steps a d
    → (d == 0) ≡ false
    → Keeps b s
    → ActiveAt s r x
    → Returns (Actions.apply_action s a) (Moved b r (add_i8 x d))
unfolding Actions.apply_action
apply_move-Moved b a d s r x step nonzero w (t, e, er, ex) =
    elim (Bool-cases (s.game_over && not (Actions.is_restart a))) [
      | inl over ↦ ((s, false), rw (over, Actions.apply_action), w)
      | inr on ↦
          elim (Bool-cases (s.paused && not (Actions.is_pause a) && not (Actions.is_restart a))) [
            | inl waits ↦ ((s, false), rw (on, Actions.apply_action, waits), w)
            | inr goes ↦ (
              Moves.try_move s d 0,
              rw (on, Actions.apply_action, goes) (step s),
              subst (λ z. Moved b z (add_i8 x d) (Moves.try_move s d 0)) er
                  (subst (λ (z : ℕ). Moved b t.rotation (add_i8 z d) (Moves.try_move s d 0)) ex
                    (try_move-Moved b s t d w e nonzero)),
            )
          ]
    ]

-- The column after `n` steps by `d`.
far : ℕ → ℕ → ℕ → ℕ
far zero d x = x
far (suc n) d x = far n d (add_i8 x d)

repeat_move-Moved :
    (b : Board) (n : ℕ) (a : GameAction) (d : ℕ) (s : GameState) (r : Rotation) (x : ℕ)
    → Steps a d
    → (d == 0) ≡ false
    → Keeps b s
    → ActiveAt s r x
    → Returns (Place.repeat_action n a s) (Moved b r (far n d x))
unfolding Place.repeat_action far
repeat_move-Moved b zero a d s r x step nonzero w at = ((s, true), refl, (w, at))
repeat_move-Moved b (suc n) a d s r x step nonzero w at =
    Returns-branch (Actions.apply_action s a) (Place.repeat_action n a) (λ s'. ret (s', false))
      (Moved b r (add_i8 x d)) (Moved b r (far n d (add_i8 x d)))
      (apply_move-Moved b a d s r x step nonzero w at)
      (λ s' p. repeat_move-Moved b n a d s' r (add_i8 x d) step nonzero p.0 p.1)
      (λ s' w'. ((s', false), refl, w'))

far_right : (n x : ℕ) → x < 256 → far n 1 x ≡ (x + n) % 256
unfolding far
far_right zero x h = omega arith
far_right (suc n) x h = omega (arith, far_right n (add_i8 x 1) (omega arith))

far_left : (n x : ℕ) → x < 256 → far n 255 x ≡ (x + n * 255) % 256
unfolding far
far_left zero x h = omega arith
far_left (suc n) x h = omega (arith, far_left n (add_i8 x 255) (omega arith))

move_right_lem : Steps move_right 1
unfolding Actions.dispatch
move_right_lem s = refl

move_left_lem : Steps move_left 255
unfolding Actions.dispatch
move_left_lem s = refl

pub shift-Moved :
    (b : Board) (dx : ℕ) (s : GameState) (r : Rotation) (x target : ℕ)
    → x < 256
    → target < 256
    → dx ≡ sub_i8 target x
    → dx ≢ 128
    → Keeps b s
    → ActiveAt s r x
    → Returns (Place.shift dx s) (Moved b r target)
unfolding Place.shift
shift-Moved b dx s r x target hx ht e far_off w at = elim (Bool-cases (ltb_i8 0 dx)) [
  | inl right ↦
      let there : far dx 1 x ≡ target = far_right dx x hx ∙ omega (arith, e) in
      rw (right, Place.shift)
        (subst (λ (z : ℕ). Returns (Place.repeat_action dx move_right s) (Moved b r z)) there
          (repeat_move-Moved b dx move_right 1 s r x move_right_lem refl w at))
  | inr rest ↦ elim (Bool-cases (ltb_i8 dx 0)) [
    | inl left ↦
        let n = neg dx in
        let some_steps : ltb_i8 0 n ≡ true = ground (arith, far_off) in
        let there : far n 255 x ≡ target = far_left n x hx ∙ ground (arith, e) in
        rw (rest, Place.shift, left, some_steps)
          (subst (λ (z : ℕ). Returns (Place.repeat_action n move_left s) (Moved b r z)) there
            (repeat_move-Moved b n move_left 255 s r x move_left_lem refl w at))
    | inr stay ↦
        let same : x ≡ target = ground (arith, e) in
        rw (rest, Place.shift, stay)
          ((s, true), refl, (w, subst (λ (z : ℕ). ActiveAt s r z) same at))
  ]
]
