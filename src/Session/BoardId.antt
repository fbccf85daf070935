-- ===== src/Session/BoardId.antt =====
-- crates/tetris-session/src/engine/place.rs: the board and its id over a placement.
pub mod Steps
use tui_tetris.Prelude.{ℕ, zero, suc, ◌≤◌, ◌≡◌, refl, inl, inr, Bool, true, false, ◌||◌}
use tui_tetris.Prelude.{
  Option, none, some, ret, Allows, Allows->>=, Allows-branch, Bool-cases, Option-cases, arith, ◌==◌,
  ltb_i8, sub_i8,
}
use tui_tetris.Types
use tui_tetris.Types.{Rotation, GameAction}
use tui_tetris.Board.{Board}
use tui_tetris.Game.State.{Tetromino, GameState, shape}
use tui_tetris.Game.Actions
use tui_tetris.Game.BoardId.Locks.{Keeps, more-Keeps}
use tui_tetris.Game.BoardId.Calls.{is_quiet, KeepsResult, quiet-Keeps, drop-Keeps}
use tui_tetris.Session.Place
use tui_tetris.Session.Place.{Outcome, placed, refused}
use tui_tetris.Session.Runtime

plans_quiet :
    (cw ccw : ℕ)
    → (is_quiet (Place.plans cw ccw).0.0 ≡ true) × (is_quiet (Place.plans cw ccw).1.0 ≡ true)
plans_quiet cw ccw = ground arith

module _ (b0 : Board) (id0 : ℕ) where
  abbrev pub KeepsOutcome : ℕ → GameState × Outcome → Type 0
  KeepsOutcome n r = Keeps b0 id0 n r.0

  pub more : (n m : ℕ) (s : GameState) → n ≤ m → Keeps b0 id0 n s → Keeps b0 id0 m s
  more = more-Keeps b0 id0

  repeat_action-Keeps :
      (n left : ℕ) (a : GameAction) (s : GameState)
      → is_quiet a ≡ true
      → Keeps b0 id0 n s
      → Allows (Place.repeat_action left a s) (KeepsResult b0 id0 n)
  unfolding Place.repeat_action
  repeat_action-Keeps n zero a s h k = k
  repeat_action-Keeps n (suc left) a s h k =
      Allows-branch (Actions.apply_action s a) (Place.repeat_action left a) (λ s'. ret (s', false))
        (Keeps b0 id0 n) (KeepsResult b0 id0 n) (quiet-Keeps b0 id0 n s a h k)
        (λ s' k'. repeat_action-Keeps n left a s' h k') (λ s' k'. k')

  try_plans-Keeps :
      (n : ℕ) (p : (GameAction × ℕ) × (GameAction × ℕ)) (s : GameState)
      → (is_quiet p.0.0 ≡ true) × (is_quiet p.1.0 ≡ true)
      → Keeps b0 id0 n s
      → Allows (Place.try_plans p s) (KeepsResult b0 id0 n)
  unfolding Place.try_plans
  try_plans-Keeps n (first, second) s h k =
      Allows-branch (Place.repeat_action first.1 first.0 s) (λ s'. ret (s', true))
        (λ s'. Place.repeat_action second.1 second.0 s) (Keeps b0 id0 n) (KeepsResult b0 id0 n)
        (repeat_action-Keeps n first.1 first.0 s h.0 k) (λ s' k'. k')
        (λ s' k'. repeat_action-Keeps n second.1 second.0 s h.1 k)

  shift-Keeps :
      (n dx : ℕ) (s : GameState)
      → Keeps b0 id0 n s
      → Allows (Place.shift dx s) (KeepsResult b0 id0 n)
  unfolding Place.shift
  shift-Keeps n dx s k = elim (Bool-cases (ltb_i8 0 dx)) [
    | inl right ↦ rw (right, Place.shift) (repeat_action-Keeps n _ Types.move_right s refl k)
    | inr not_right ↦ elim (Bool-cases (ltb_i8 dx 0)) [
      | inl left ↦
          rw (not_right, Place.shift, left) (repeat_action-Keeps n _ Types.move_left s refl k)
      | inr stays ↦ rw (not_right, Place.shift, stays) k
    ]
  ]

  drop_placed-Keeps :
      (n : ℕ) (s : GameState)
      → Keeps b0 id0 n s
      → Allows (Place.drop_placed s) (KeepsOutcome (suc n))
  unfolding Place.drop_placed
  drop_placed-Keeps n s k =
      Allows-branch (Actions.apply_action s Types.hard_drop) (λ s'. ret (s', placed))
        (λ s'. elim s'.active [
          | none ↦ ret (s', refused Place.no_active)
          | some t ↦ ret (s', refused Place.not_playable)
        ])
        (Keeps b0 id0 (suc n)) (KeepsOutcome (suc n)) (drop-Keeps b0 id0 n s k) (λ s' k'. k')
        (λ s' k'. elim (Option-cases s'.active) [ inl e ↦ simp e k' | inr (t, e) ↦ simp e k' ])

  place_turned-Keeps :
      (n : ℕ) (o : Option Tetromino) (s : GameState) (x : ℕ) (r : Rotation)
      → Keeps b0 id0 n s
      → Allows (Place.place_turned o s x r) (KeepsOutcome (suc n))
  unfolding Place.place_turned
  place_turned-Keeps n none s x r k = more n (suc n) s (omega arith) k
  place_turned-Keeps n (some t) s x r k =
      let k' = more n (suc n) s (omega arith) k in
      elim (Bool-cases (Place.rot_to_i t.rotation == Place.rot_to_i r)) [
        | inr other ↦ rw (other, Place.place_turned) k'
        | inl same ↦ elim (Bool-cases (Place.x_in_bounds (shape t) x)) [
          | inr out ↦ rw (same, Place.place_turned, out) k'
          | inl bounds ↦
              rw (same, Place.place_turned, bounds)
                (Allows-branch (Place.shift (sub_i8 x t.x) s) Place.drop_placed
                  (λ s'. ret (s', refused Place.x_blocked)) (Keeps b0 id0 n) (KeepsOutcome (suc n))
                  (shift-Keeps n (sub_i8 x t.x) s k) (drop_placed-Keeps n)
                  (λ s' on. more n (suc n) s' (omega arith) on))
        ]
      ]

  place_active0-Keeps :
      (n : ℕ) (o : Option Tetromino) (s : GameState) (x : ℕ) (r : Rotation)
      → Keeps b0 id0 n s
      → Allows (Place.place_active0 o s x r) (KeepsOutcome (suc n))
  unfolding Place.place_active0
  place_active0-Keeps n none s x r k = more n (suc n) s (omega arith) k
  place_active0-Keeps n (some t) s x r k =
      let cw = Place.quarter_turns (Place.rot_to_i r) (Place.rot_to_i t.rotation) in
      let ccw = Place.quarter_turns (Place.rot_to_i t.rotation) (Place.rot_to_i r) in
      Allows-branch (Place.try_plans (Place.plans cw ccw) s)
        (λ s'. Place.place_turned s'.active s' x r) (λ s'. ret (s', refused Place.rotation_blocked))
        (Keeps b0 id0 n) (KeepsOutcome (suc n))
        (try_plans-Keeps n (Place.plans cw ccw) s (plans_quiet cw ccw) k)
        (λ s' k'. place_turned-Keeps n s'.active s' x r k')
        (λ s' k'. more n (suc n) s' (omega arith) k')

  in_place-Keeps :
      (n : ℕ) (s : GameState) (x : ℕ) (r : Rotation) (use_hold : Bool)
      → Keeps b0 id0 n s
      → Allows (Place.apply_place_in_place s x r use_hold) (KeepsOutcome (suc n))
  unfolding Place.apply_place_in_place
  in_place-Keeps n s x r use_hold k = elim (Bool-cases (s.paused || s.game_over)) [
    | inl stopped ↦ rw (stopped, Place.apply_place_in_place) (more n (suc n) s (omega arith) k)
    | inr playing ↦ elim (Bool-cases use_hold) [
      | inr keeps ↦
          rw (playing, Place.apply_place_in_place, keeps) (place_active0-Keeps n s.active s x r k)
      | inl holds ↦
          rw (playing, Place.apply_place_in_place, holds)
            (Allows-branch (Actions.apply_action s Types.hold)
              (λ s'. Place.place_active0 s'.active s' x r)
              (λ s'. ret (s', refused Place.hold_unavailable)) (Keeps b0 id0 n)
              (KeepsOutcome (suc n)) (quiet-Keeps b0 id0 n s Types.hold refl k)
              (λ s' k'. place_active0-Keeps n s'.active s' x r k')
              (λ s' k'. more n (suc n) s' (omega arith) k'))
    ]
  ]

  commit-Keeps :
      (n : ℕ) (s : GameState) (r : GameState × Outcome)
      → Keeps b0 id0 n s
      → KeepsOutcome n r
      → KeepsOutcome n (Place.commit s r)
  commit-Keeps n s (c, placed) k k' = k'
  commit-Keeps n s (c, refused e) k k' = k

  pub apply_place-Keeps :
      (n : ℕ) (s : GameState) (x : ℕ) (r : Rotation) (use_hold : Bool)
      → Keeps b0 id0 n s
      → Allows (Place.apply_place s x r use_hold) (KeepsOutcome (suc n))
  unfolding Place.apply_place
  apply_place-Keeps n s x r use_hold k =
      Allows->>= (Place.apply_place_in_place s x r use_hold)
        (λ (q : GameState × Outcome). ret (Place.commit s q)) (KeepsOutcome (suc n))
        (KeepsOutcome (suc n)) (in_place-Keeps n s x r use_hold k)
        (λ q k'. commit-Keeps (suc n) s q (more n (suc n) s (omega arith) k) k')
