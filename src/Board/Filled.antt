-- ===== src/Board/Filled.antt =====
-- Filled cells are neither lost nor made: a lock adds one for each mino, a clear takes away ten for
-- each row.
use tui_tetris.Prelude.{
  ℕ, zero, suc, ◌+◌, ◌*◌, ◌<◌, ◌≡◌, refl, ap, ◌∙◌, inl, inr, Bool, true, false, not,
}
use tui_tetris.Prelude.{
  ◌&&◌, ◌==◌, List, [], ◌∷◌, length, all, get_or, count_if, count_if-append, count_if-set,
  replicate,
}
use tui_tetris.Prelude.{
  Bool-cases, arith, if◌then◌else◌, add_i8, &&-left, &&-right, some, none, ret, Returns, leb,
}
use tui_tetris.Types.{
  Cell, PieceKind, Rotation, i_piece, o_piece, t_piece, s_piece, z_piece, j_piece, l_piece,
}
use tui_tetris.Pieces.{Offset, PieceShape, get_shape}
use tui_tetris.Board
use tui_tetris.Board.{Board, IsBoard}
use tui_tetris.Board.Cells.{inside, get_lem, set_cell_lem, set_cell-IsBoard, get-set_cell}
use tui_tetris.Board.Rows.{
  Row, AllWide, flat, rows, row_full, empty_row, flat-rows, flat-append, rows-AllWide,
}
use tui_tetris.Board.Lock.{lock_piece-LockSpec, is_valid-inside, first_write}
use tui_tetris.Board.Removal.{full_at, keep}
use tui_tetris.Board.Clear.{full_rows, collapse, clear_full_rows_lem}

abbrev pub filled_count : Board → ℕ
filled_count b = count_if Board.is_some b.cells

count_full_row : (n : ℕ) (r : Row) → length r ≡ n → row_full r ≡ true → count_if Board.is_some r ≡ n
count_full_row zero [] h f = refl
count_full_row (suc n) (c ∷ r) h f = ground (arith, count_full_row n r)
count_full_row zero (c ∷ r) h f = absurd (omega arith)
count_full_row (suc n) [] h f = absurd (omega arith)

count-keep :
    (k : ℕ) (rs : List Row)
    → AllWide rs
    → count_if Board.is_some (flat (keep rs)) + 10 * length (full_at k rs)
      ≡ count_if Board.is_some (flat rs)
count-keep k [] w = refl
count-keep k (r ∷ rs) w = elim (Bool-cases (row_full r)) [
  | inl e ↦ rw e (
      omega (
        arith,
        count-keep (suc k) rs w.1,
        count_full_row 10 r w.0 e,
        count_if-append Board.is_some r (flat rs),
      ))
  | inr e ↦ rw e (
      omega (
        arith,
        count-keep (suc k) rs w.1,
        count_if-append Board.is_some r (flat rs),
        count_if-append Board.is_some r (flat (keep rs)),
      ))
]

count_empty : (n : ℕ) → count_if Board.is_some (flat (replicate n empty_row)) ≡ 0
count_empty zero = refl
count_empty (suc n) = omega (arith, count_empty n)

pub filled_count-collapse :
    (b : Board) → IsBoard b → filled_count (collapse b) + 10 * length (full_rows b) ≡ filled_count b
filled_count-collapse b v = omega (
  arith,
  count-keep 0 (rows b) (rows-AllWide b v),
  count_empty (length (full_rows b)),
  count_if-append Board.is_some (flat (replicate (length (full_rows b)) empty_row))
      (flat (keep (rows b))),
  ap (count_if Board.is_some)
      (flat-append (replicate (length (full_rows b)) empty_row) (keep (rows b))),
  ap (count_if Board.is_some) (flat-rows b v),
)

tally : Bool → ℕ
tally z = if z then 1 else 0

-- A write to a free cell fills one more.
filled_count-set_cell :
    (b : Board) (x y : ℕ) (k : PieceKind)
    → IsBoard b
    → x < 256
    → y < 256
    → Board.is_valid b x y ≡ true
    → filled_count (Board.set_cell b x y (some k)).0 ≡ filled_count b + 1
unfolding Board.is_valid tally
filled_count-set_cell b x y k v hx hy free =
    let on_grid : inside x y ≡ true = is_valid-inside b x y hx hy free in
    let empty : Board.is_some (get_or b.cells (y * 10 + x) none) ≡ false =
      ground (arith, get_lem b x y hx hy, on_grid) in
    rw (set_cell_lem b x y (some k) hx hy, on_grid)
      (omega (
        arith,
        count_if-set Board.is_some b.cells (y * 10 + x) (some k) none (ground (arith, on_grid)),
        ap tally empty,
      ))

module _ (x y : ℕ) where
  -- The mino `m'` lies on another cell than `m`.
  abbrev pub apart : Offset → Offset → Bool
  apart m m' = not (add_i8 x m.0 == add_i8 x m'.0 && add_i8 y m.1 == add_i8 y m'.1)

  -- No two minos of the shape lie on one cell.
  abbrev pub distinct : PieceShape → Bool
  distinct [] = true
  distinct (m ∷ ms) = all (apart m) ms && distinct ms

  -- A write to one mino leaves the others free.
  all_valid-set_cell :
      (b : Board) (m : Offset) (ms : PieceShape) (c : Cell)
      → IsBoard b
      → all (apart m) ms ≡ true
      → Board.all_valid b ms x y ≡ true
      → Board.all_valid (Board.set_cell b (add_i8 x m.0) (add_i8 y m.1) c).0 ms x y ≡ true
  unfolding Board.is_valid
  all_valid-set_cell b m [] c v h free = refl
  all_valid-set_cell b m (m' ∷ ms) c v h free = ground (
    arith,
    (get-set_cell b (add_i8 x m.0) (add_i8 y m.1) (add_i8 x m'.0) (add_i8 y m'.1) c v (omega arith)
        (omega arith) (omega arith) (omega arith)).1,
    all_valid-set_cell b m ms c v (&&-right (apart m m') (all (apart m) ms) h),
  )

  filled_count-lock_cells :
      (b : Board) (shape : PieceShape) (k : PieceKind)
      → IsBoard b
      → distinct shape ≡ true
      → Board.all_valid b shape x y ≡ true
      → filled_count (Board.lock_cells b shape x y k).0 ≡ filled_count b + length shape
  unfolding Board.lock_cells
  filled_count-lock_cells b [] k v d free = omega arith
  filled_count-lock_cells b (m ∷ ms) k v d free =
      let b' = (Board.set_cell b (add_i8 x m.0) (add_i8 y m.1) (some k)).0 in
      let free_m =
        &&-left (Board.is_valid b (add_i8 x m.0) (add_i8 y m.1)) (Board.all_valid b ms x y) free in
      let on_grid =
        is_valid-inside b (add_i8 x m.0) (add_i8 y m.1) (omega arith) (omega arith) free_m in
      rw (first_write x y k b m on_grid) (
        omega (
          arith,
          filled_count-lock_cells b' ms k
              (set_cell-IsBoard b (add_i8 x m.0) (add_i8 y m.1) (some k) v)
              (&&-right (all (apart m) ms) (distinct ms) d)
              (all_valid-set_cell b m ms (some k) v (&&-left (all (apart m) ms) (distinct ms) d)
                (&&-right _ _ free)),
          filled_count-set_cell b (add_i8 x m.0) (add_i8 y m.1) k v (omega arith) (omega arith)
              free_m,
        ))

distinct-get_shape : (k : PieceKind) (r : Rotation) (x y : ℕ) → distinct x y (get_shape k r) ≡ true
unfolding get_shape
distinct-get_shape i_piece r x y = ground arith
distinct-get_shape o_piece r x y = ground arith
distinct-get_shape t_piece r x y = ground arith
distinct-get_shape s_piece r x y = ground arith
distinct-get_shape z_piece r x y = ground arith
distinct-get_shape j_piece r x y = ground arith
distinct-get_shape l_piece r x y = ground arith

length-get_shape : (k : PieceKind) (r : Rotation) → length (get_shape k r) ≡ 4
unfolding get_shape
length-get_shape k r = ground arith

locked_count :
    (b : Board) (k : PieceKind) (r : Rotation) (x y : ℕ)
    → IsBoard b
    → Board.all_valid b (get_shape k r) x y ≡ true
    → filled_count (Board.lock_piece b (get_shape k r) x y k).0 ≡ filled_count b + 4
unfolding Board.lock_piece
locked_count b k r x y v free = rw free (
    filled_count-lock_cells x y b (get_shape k r) k v (distinct-get_shape k r x y) free
    ∙ ap (λ (n : ℕ). filled_count b + n) (length-get_shape k r))

-- A result of a clear accounts for `n` cells: those left and ten for each row reported.
abbrev pub AccountsFor : ℕ → Board × List ℕ → Type 0
AccountsFor n r = filled_count r.0 + 10 * length r.1 ≡ n

-- On a board without a full row, when a piece is locked on free cells, the clear that follows does
-- not panic, and the cells it leaves and ten for each row it reports are those of before and four.
pub lock_clear-AccountsFor :
    (b : Board) (k : PieceKind) (r : Rotation) (x y : ℕ)
    → IsBoard b
    → full_rows b ≡ []
    → Board.all_valid b (get_shape k r) x y ≡ true
    → Returns
        (Board.clear_full_rows (Board.lock_piece b (get_shape k r) x y k).0)
        (AccountsFor (filled_count b + 4))
lock_clear-AccountsFor b k r x y v none_full free =
    let spec = lock_piece-LockSpec b (get_shape k r) x y k v in
    let b' = (Board.lock_piece b (get_shape k r) x y k).0 in
    let few : leb (length (full_rows b')) 4 ≡ true =
      ground (arith, spec.few, ap length none_full, length-get_shape k r) in
    let ends : Board.clear_full_rows b' ≡ ret (collapse b', full_rows b') =
      clear_full_rows_lem b' spec.board ∙ rw few refl in
    (
      (collapse b', full_rows b'),
      ends,
      filled_count-collapse b' spec.board ∙ locked_count b k r x y v free,
    )
