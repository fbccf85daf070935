-- ===== src/Game/Drop.antt =====
-- The drop loops end, and at the right place.
use tui_tetris.Prelude.{ℕ, zero, suc, ◌+◌, ◌%◌, ◌≤◌, ◌<◌, ◌≡◌, refl, sym, ap, ◌∙◌, inl, inr}
use tui_tetris.Prelude.{
  true, false, [], ◌∷◌, length, ltb→lt, arith, Bool-cases, add_i8, &&-left, ltb,
}
use tui_tetris.Prelude.{ret, Returns, all_congr}
use tui_tetris.Types.{PieceKind, Rotation}
use tui_tetris.Pieces.{Offset, PieceShape, get_shape}
use tui_tetris.Board
use tui_tetris.Board.{Board}
use tui_tetris.Board.Lock.{is_valid-inside}
use tui_tetris.Game.State.{Tetromino, shape, piece_is_valid}
use tui_tetris.Game.Moves
use tui_tetris.Game.Locking.{dropped}

-- The distance `d` ends the fall: each row before it is free and the next is not.
pub record Lands (b : Board) (t : Tetromino) (d : ℕ) : Type 0 where
  pub short : d ≤ 20
  pub free : (j : ℕ) → j < d → Moves.can_drop b t j ≡ true
  pub stop : Moves.can_drop b t d ≡ false

pub length-get_shape : (k : PieceKind) (r : Rotation) → length (get_shape k r) ≡ 4
unfolding get_shape
length-get_shape k r = ground arith

uncons : (xs : PieceShape) → length xs ≡ 4 → (m : Offset) × (ms : PieceShape) × (xs ≡ m ∷ ms)
uncons [] h = absurd (omega arith)
uncons (m ∷ ms) h = (m, ms, refl)

-- The first mino of a piece.
abbrev first_mino : (t : Tetromino) → (m : Offset) × (ms : PieceShape) × (shape t ≡ m ∷ ms)
first_mino t = uncons (shape t) (length-get_shape t.kind t.rotation)

-- A step down puts the first mino on the grid.
can_drop-row :
    (b : Board) (t : Tetromino) (d : ℕ)
    → Moves.can_drop b t d ≡ true
    → (t.y + (first_mino t).0.1 + d + 1) % 256 < 20
unfolding Moves.can_drop
can_drop-row b t d h =
    let (m, ms, e) = first_mino t in
    let row = add_i8 (add_i8 (add_i8 t.y m.1) d) 1 in
    let ok =
      is_valid-inside b (add_i8 t.x m.0) row (omega arith) (omega arith)
        (&&-left _ _ (rw e at h)) in
    ground (arith, ok)

-- 21 rows in a row cannot all be free.
too_deep : (b : Board) (t : Tetromino) → ((j : ℕ) → j < 21 → Moves.can_drop b t j ≡ true) → ⊥
too_deep b t free =
    let y = t.y + (first_mino t).0.1 in
    omega (
      arith,
      can_drop-row b t 0 (free 0 (omega arith)),
      can_drop-row b t 20 (free 20 (omega arith)),
    )

longer :
    (b : Board) (t : Tetromino) (d : ℕ)
    → d < 21
    → ((j : ℕ) → j < d → Moves.can_drop b t j ≡ true)
    → Moves.can_drop b t (d % 256) ≡ true
    → (j : ℕ) → j < d + 1
    → Moves.can_drop b t j ≡ true
longer b t d small free down j h = elim (Bool-cases (ltb j d)) [
  | inl before ↦ free j (ltb→lt j d before)
  | inr last ↦ ap (Moves.can_drop b t) (ground arith) ∙ down
]

mod_small : (d : ℕ) → d < 21 → d % 256 ≡ d
mod_small d h = omega arith

-- The loop from distance `d`, with the rows before it free.
drop_loop-Lands :
    (b : Board) (t : Tetromino) (fuel d : ℕ)
    → fuel + d ≡ 21
    → ((j : ℕ) → j < d → Moves.can_drop b t j ≡ true)
    → Returns (Moves.drop_loop fuel b t d) (Lands b t)
unfolding Moves.drop_loop
drop_loop-Lands b t zero d f free = absurd (too_deep b t (λ j h. free j (omega arith)))
drop_loop-Lands b t (suc fuel) d f free = elim (Bool-cases (Moves.can_drop b t (d % 256))) [
  | inl down ↦
      rw (down, Moves.drop_loop)
        (drop_loop-Lands b t fuel (d + 1) (omega arith) (longer b t d (omega arith) free down))
  | inr stop ↦
      rw (stop, Moves.drop_loop)
        (
          d,
          refl,
          record { short = omega arith; free = free; stop = rw (← mod_small d (omega arith)) stop },
        )
]

-- From every piece on every board the drop loop ends within its fuel, at the first distance whose
-- next row is blocked.
pub drop_distance-Lands :
    (b : Board) (t : Tetromino) → Returns (Moves.drop_loop Moves.drop_fuel b t 0) (Lands b t)
drop_distance-Lands b t = drop_loop-Lands b t 21 0 refl (λ j h. absurd (omega arith))

mod_byte : (d : ℕ) → d < 256 → d % 256 ≡ d
mod_byte d h = omega arith

regroup_row : (y m d : ℕ) → add_i8 (add_i8 (add_i8 y m) d) 1 ≡ add_i8 (add_i8 y (d + 1)) m
regroup_row y m d = omega arith

-- The loop of the ghost counts as the loop of the drop does.
pub ghost_loop-drop_loop :
    (b : Board) (t : Tetromino) (fuel d : ℕ)
    → fuel + d < 256
    → Moves.ghost_loop fuel b t d ≡ Moves.drop_loop fuel b t d
unfolding Moves.drop_loop Moves.ghost_loop
ghost_loop-drop_loop b t zero d h = refl
ghost_loop-drop_loop b t (suc fuel) d h =
    let small = ap (Moves.can_drop b t) (mod_byte d (omega arith)) in
    elim (Bool-cases (Moves.can_drop b t d)) [
      | inl down ↦
          let low = small ∙ down in
          let ghost : Moves.ghost_loop (suc fuel) b t d ≡ Moves.ghost_loop fuel b t (add_i8 d 1) =
            rw (down, Moves.ghost_loop) in
          let falls : Moves.drop_loop (suc fuel) b t d ≡ Moves.drop_loop fuel b t (d + 1) =
            rw (low, Moves.drop_loop) in
          ghost
          ∙ ap (Moves.ghost_loop fuel b t) (mod_byte (d + 1) (omega arith))
          ∙ ghost_loop-drop_loop b t fuel (d + 1) (omega arith)
          ∙ sym falls
      | inr stop ↦
          let low = small ∙ stop in
          let ghost : Moves.ghost_loop (suc fuel) b t d ≡ ret d = rw (stop, Moves.ghost_loop) in
          let falls : Moves.drop_loop (suc fuel) b t d ≡ ret d = rw (low, Moves.drop_loop) in
          ghost ∙ sym falls
    ]

-- A piece that lies free and falls by `d` lies free there.
can_drop-valid :
    (b : Board) (t : Tetromino) (d : ℕ)
    → Moves.can_drop b t d ≡ piece_is_valid (record t { y = add_i8 t.y (d + 1) }) b
unfolding Moves.can_drop piece_is_valid
can_drop-valid b t d =
    all_congr _ _ (shape t)
      (λ (m : Offset). ap (Board.is_valid b (add_i8 t.x m.0)) (regroup_row t.y m.1 d))

dropped_lem :
    (t : Tetromino) (d : ℕ) → suc d ≤ 20 → dropped t (suc d) ≡ record t { y = add_i8 t.y (d + 1) }
dropped_lem t d h = ground arith

-- Where the drop ends the piece still lies on free cells.
pub landed-valid :
    (b : Board) (t : Tetromino) (d : ℕ)
    → piece_is_valid t b ≡ true
    → Lands b t d
    → piece_is_valid (dropped t d) b ≡ true
landed-valid b t zero v l = v
landed-valid b t (suc d) v l =
    ap (λ p. piece_is_valid p b) (dropped_lem t d l.short)
    ∙ sym (can_drop-valid b t d)
    ∙ l.free d (omega arith)
