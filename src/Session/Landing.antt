-- ===== src/Session/Landing.antt =====
-- A placement lands where it was asked to, or changes nothing.
use tui_tetris.Prelude.{ℕ, zero, suc, ◌<◌, ◌≡◌, refl, inl, inr, Bool, true, false, ◌||◌}
use tui_tetris.Prelude.{
  Option, none, some, ret, Returns, Returns->>=, Returns-branch, Bool-cases, Option-cases,
}
use tui_tetris.Prelude.{arith, ltb, ◌==◌, sub_i8}
use tui_tetris.Types.{Rotation, GameAction, hard_drop, hold, rotate_cw, rotate_ccw}
use tui_tetris.Board.{Board}
use tui_tetris.Board.Lock.{all_valid-inside}
use tui_tetris.Game.State.{Tetromino, GameState, shape, piece_is_valid}
use tui_tetris.Game.Actions
use tui_tetris.Game.Invariant.{IsWellFormed, ActiveFits}
use tui_tetris.Game.Invariant.Ticks.{WellFormedResult}
use tui_tetris.Game.Invariant.Calls.{apply_action-Returns}
use tui_tetris.Session.Place
use tui_tetris.Session.Place.{Outcome, placed, refused, no_active, not_playable}
use tui_tetris.Session.Quiet.{
  Keeps, Quiet, apply_action-Keeps, rotate_cw-Quiet, rotate_ccw-Quiet, hold-Quiet,
}
use tui_tetris.Session.Placement.{Moved, ActiveAt, shift-Moved, distance_lem}

-- The game `s'` comes by a hard drop from a game on the board `b` whose piece has the rotation `r`
-- and the column `x`.
abbrev pub DroppedAt : Board → Rotation → ℕ → GameState → Type 0
DroppedAt b r x s' =
    IsWellFormed s'
    × ((p : GameState) × Keeps b p
        × ActiveAt p r x
        × (Actions.apply_action p hard_drop ≡ ret (s', true)))

abbrev Ends : Board → Rotation → ℕ → GameState × Outcome → Type 0
Ends b r x (s', placed) = DroppedAt b r x s'
Ends b r x (s', refused e) = Unit {0}

-- A refused placement leaves the game as it was; one that was made is a drop at its target.
abbrev pub Places : GameState → Rotation → ℕ → GameState × Outcome → Type 0
Places s r x (s', placed) = DroppedAt s.board r x s'
Places s r x (s', refused e) = s' ≡ s

KeepsResult : Board → GameState × Bool → Type 0
KeepsResult b r = Keeps b r.0

drop_placed-Ends :
    (b : Board) (s : GameState) (r : Rotation) (x : ℕ)
    → Keeps b s
    → ActiveAt s r x
    → Returns (Place.drop_placed s) (Ends b r x)
unfolding Place.drop_placed
drop_placed-Ends b s r x w at =
    let (res, ends, w') = apply_action-Returns s hard_drop w.0 in
    Returns-branch (Actions.apply_action s hard_drop) (λ s'. ret (s', placed))
      (λ s'. elim s'.active [
        | none ↦ ret (s', refused no_active)
        | some t ↦ ret (s', refused not_playable)
      ])
      (λ (q : GameState × Bool). WellFormedResult q × (Actions.apply_action s hard_drop ≡ ret q))
      (Ends b r x) (res, ends, (w', ends)) (λ s' p. ((s', placed), refl, (p.0, (s, w, at, p.1))))
      (λ s' p. elim (Option-cases s'.active) [
        | inl e ↦ ((s', refused no_active), simp e, tt)
        | inr (t, e) ↦ ((s', refused not_playable), simp e, tt)
      ])

rot_to_i_inj : (r q : Rotation) → (Place.rot_to_i r == Place.rot_to_i q) ≡ true → r ≡ q
rot_to_i_inj r q h = ground arith

place_turned-Ends :
    (b : Board) (o : Option Tetromino) (s : GameState) (x : ℕ) (r : Rotation)
    → x < 256
    → Keeps b s
    → s.active ≡ o
    → ActiveFits o s.board
    → Returns (Place.place_turned o s x r) (Ends b r x)
unfolding Place.place_turned piece_is_valid
place_turned-Ends b none s x r hx w e fits = ((s, refused no_active), refl, tt)
place_turned-Ends b (some t) s x r hx w e (ht, hy, valid) =
    elim (Bool-cases (Place.rot_to_i t.rotation == Place.rot_to_i r)) [
      | inr other ↦ ((s, refused Place.rotation_blocked), rw (other, Place.place_turned) refl, tt)
      | inl same ↦ elim (Bool-cases (Place.x_in_bounds (shape t) x)) [
        | inr out ↦
            ((s, refused Place.x_out_of_bounds), rw (same, Place.place_turned, out) refl, tt)
        | inl bounds ↦
            rw (same, Place.place_turned, bounds)
              (Returns-branch (Place.shift (sub_i8 x t.x) s) Place.drop_placed
                (λ s'. ret (s', refused Place.x_blocked)) (Moved b r x) (Ends b r x)
                (shift-Moved b (sub_i8 x t.x) s r t.x x ht hx refl
                  (distance_lem t.kind t.rotation t.x t.y x ht hx
                    (all_valid-inside s.board (shape t) t.x t.y valid) bounds)
                  w (t, e, rot_to_i_inj t.rotation r same, refl))
                (λ s' p. drop_placed-Ends b s' r x p.0 p.1)
                (λ s' p. ((s', refused Place.x_blocked), refl, tt)))
      ]
    ]

repeat_action-Keeps :
    (b : Board) (n : ℕ) (a : GameAction) (s : GameState)
    → Quiet a
    → Keeps b s
    → Returns (Place.repeat_action n a s) (KeepsResult b)
unfolding Place.repeat_action KeepsResult
repeat_action-Keeps b zero a s quiet w = ((s, true), refl, w)
repeat_action-Keeps b (suc n) a s quiet w =
    Returns-branch (Actions.apply_action s a) (Place.repeat_action n a) (λ s'. ret (s', false))
      (KeepsResult b) (KeepsResult b) (apply_action-Keeps b a s quiet w)
      (λ s' w'. repeat_action-Keeps b n a s' quiet w') (λ s' w'. ((s', false), refl, w'))

try_plans-Keeps :
    (b : Board) (a₁ a₂ : GameAction) (n₁ n₂ : ℕ) (s : GameState)
    → Quiet a₁
    → Quiet a₂
    → Keeps b s
    → Returns (Place.try_plans ((a₁, n₁), (a₂, n₂)) s) (KeepsResult b)
unfolding Place.try_plans KeepsResult
try_plans-Keeps b a₁ a₂ n₁ n₂ s q₁ q₂ w =
    Returns-branch (Place.repeat_action n₁ a₁ s) (λ s'. ret (s', true))
      (λ s'. Place.repeat_action n₂ a₂ s) (KeepsResult b) (KeepsResult b)
      (repeat_action-Keeps b n₁ a₁ s q₁ w) (λ s' w'. ((s', true), refl, w'))
      (λ s' w'. repeat_action-Keeps b n₂ a₂ s q₂ w)

plans-Keeps :
    (b : Board) (cw ccw : ℕ) (s : GameState)
    → Keeps b s
    → Returns (Place.try_plans (Place.plans cw ccw) s) (KeepsResult b)
plans-Keeps b cw ccw s w = elim (Bool-cases (ltb ccw cw)) [
  | inl back ↦
      rw back (try_plans-Keeps b rotate_ccw rotate_cw ccw cw s rotate_ccw-Quiet rotate_cw-Quiet w)
  | inr on ↦
      rw on (try_plans-Keeps b rotate_cw rotate_ccw cw ccw s rotate_cw-Quiet rotate_ccw-Quiet w)
]

place_active0-Ends :
    (b : Board) (o : Option Tetromino) (s : GameState) (x : ℕ) (r : Rotation)
    → x < 256
    → Keeps b s
    → Returns (Place.place_active0 o s x r) (Ends b r x)
unfolding Place.place_active0 KeepsResult
place_active0-Ends b none s x r hx w = ((s, refused no_active), refl, tt)
place_active0-Ends b (some t) s x r hx w =
    let cur = Place.rot_to_i t.rotation in
    let tgt = Place.rot_to_i r in
    Returns-branch
      (Place.try_plans (Place.plans (Place.quarter_turns tgt cur) (Place.quarter_turns cur tgt)) s)
      (λ s'. Place.place_turned s'.active s' x r) (λ s'. ret (s', refused Place.rotation_blocked))
      (KeepsResult b) (Ends b r x)
      (plans-Keeps b (Place.quarter_turns tgt cur) (Place.quarter_turns cur tgt) s w)
      (λ s' w'. place_turned-Ends b s'.active s' x r hx w' refl w'.0.sound.fits)
      (λ s' w'. ((s', refused Place.rotation_blocked), refl, tt))

in_place-Ends :
    (s : GameState) (x : ℕ) (r : Rotation) (use_hold : Bool)
    → x < 256
    → IsWellFormed s
    → Returns (Place.apply_place_in_place s x r use_hold) (Ends s.board r x)
unfolding Place.apply_place_in_place KeepsResult
in_place-Ends s x r use_hold hx w = elim (Bool-cases (s.paused || s.game_over)) [
  | inl idle ↦ ((s, refused not_playable), rw (idle, Place.apply_place_in_place) refl, tt)
  | inr runs ↦ elim (Bool-cases use_hold) [
    | inl holds ↦
        rw (runs, Place.apply_place_in_place, holds)
          (Returns-branch (Actions.apply_action s hold) (λ s'. Place.place_active0 s'.active s' x r)
            (λ s'. ret (s', refused Place.hold_unavailable)) (KeepsResult s.board)
            (Ends s.board r x) (apply_action-Keeps s.board hold s hold-Quiet (w, refl))
            (λ s' w'. place_active0-Ends s.board s'.active s' x r hx w')
            (λ s' w'. ((s', refused Place.hold_unavailable), refl, tt)))
    | inr keeps ↦
        rw (runs, Place.apply_place_in_place, keeps)
          (place_active0-Ends s.board s.active s x r hx (w, refl))
  ]
]

commit-Places :
    (s : GameState) (r : Rotation) (x : ℕ) (q : GameState × Outcome)
    → Ends s.board r x q
    → Places s r x (Place.commit s q)
commit-Places s r x (s', placed) p = p
commit-Places s r x (s', refused e) p = refl

-- In a well-formed game, for every i8 column, rotation and hold flag, `apply_place` returns. If it
-- refuses, the game is as before. If it succeeds, the game comes by a hard drop from a well-formed
-- game on the same board whose piece has the rotation and the column asked for.
pub apply_place-Places :
    (s : GameState) (x : ℕ) (r : Rotation) (use_hold : Bool)
    → x < 256
    → IsWellFormed s
    → Returns (Place.apply_place s x r use_hold) (Places s r x)
unfolding Place.apply_place
apply_place-Places s x r use_hold hx w =
    Returns->>= (Place.apply_place_in_place s x r use_hold) (λ q. ret (Place.commit s q))
      (Ends s.board r x) (Places s r x) (in_place-Ends s x r use_hold hx w)
      (λ q p. (Place.commit s q, refl, commit-Places s r x q p))
