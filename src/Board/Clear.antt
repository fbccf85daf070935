-- ===== src/Board/Clear.antt =====
-- Clearing rows in place against its specification on the list of rows: the full rows go, the
-- others keep their order, and as many empty rows come in at the top.
use tui_tetris.Prelude.{ℕ, suc, ◌+◌, ◌≤◌, ◌<◌, ◌≡◌, sym, ap, ◌∙◌}
use tui_tetris.Prelude.{List, [], ◌∷◌, ◌++◌, length, take, drop, get_or, replicate}
use tui_tetris.Prelude.{length-append, append_assoc, append-nil, arith, if◌then◌else◌, leb}
use tui_tetris.Prelude.{ret, fault, inl, inr, Bool-cases, lt→ltb, leb→le, length-take, length-drop}
use Prim.Native.Nat.add
use tui_tetris.Types.{Cell}
use tui_tetris.Board
use tui_tetris.Board.{Board, IsBoard}
use tui_tetris.Board.Rows.{Row, AllWide, flat, rows, row_full, empty_row, flat-rows, length-rows}
use tui_tetris.Board.Rows.{rows-AllWide}
use tui_tetris.Board.Rows.{row_slice-flat}
use tui_tetris.Board.Removal.{
  full_at, keep, AllBelow, remove, removes, clear_row_lem, remove-AllWide, removes-full_at,
}

is_row_full_lem :
    (rs : List Row) (y : ℕ)
    → AllWide rs
    → length rs ≡ 20
    → y < 20
    → Board.is_row_full (record { cells = flat rs }) y ≡ row_full (get_or rs y [])
unfolding Board.is_row_full
is_row_full_lem rs y w l h = ground (arith, row_slice-flat rs y w)

-- The rows of `b` from row `y` on are full as those of the list are.
abbrev pub SameFull : Board → ℕ → List Row → Type 0
SameFull b y [] = Unit {0}
SameFull b y (r ∷ rs) = (Board.is_row_full b y ≡ row_full r) × SameFull b (suc y) rs

SameFull-of_rows :
    (b : Board) (y : ℕ) (ss : List Row)
    → ((i : ℕ) → i < length ss → Board.is_row_full b (y + i) ≡ row_full (get_or ss i []))
    → SameFull b y ss
SameFull-of_rows b y [] h = tt
SameFull-of_rows b y (r ∷ ss) h = (
  ap (Board.is_row_full b) (omega arith) ∙ h 0 (omega arith),
  SameFull-of_rows b (suc y) ss
      (λ i hi. ap (Board.is_row_full b) (omega arith) ∙ h (suc i) (omega arith)),
)

-- The first pass finds the places of the full rows, or panics at the fifth.
find_full_rows_lem :
    (b : Board) (y : ℕ) (ss : List Row) (acc : List ℕ)
    → SameFull b y ss
    → length acc ≤ 4
    → Board.find_full_rows b (length ss) y acc
      ≡ (if leb (length acc + length (full_at y ss)) 4 then ret (acc ++ full_at y ss) else fault)
unfolding Board.find_full_rows
find_full_rows_lem b y [] acc e h = ground (arith, append-nil acc)
find_full_rows_lem b y (r ∷ ss) acc e h = elim (Bool-cases (row_full r)) [
  | inl f ↦
      rw (e.0, f)
        (ground (
          arith,
          find_full_rows_lem b (suc y) ss (acc ++ y ∷ []) e.1,
          length-append acc (y ∷ []),
          append_assoc acc (y ∷ []) (full_at (suc y) ss),
        ))
  | inr f ↦ rw (e.0, f) (find_full_rows_lem b (suc y) ss acc e.1 h)
]

length-remove : (y : ℕ) (rs : List Row) → y < length rs → length (remove y rs) ≡ length rs
length-remove y rs h = omega (
  arith,
  length-append {0} (take y rs) (drop (suc y) rs),
  length-take {0} y rs,
  length-drop {0} (suc y) rs,
)

clear_rows_lem :
    (ys : List ℕ) (rs : List Row) (acc : List ℕ)
    → AllBelow 20 ys
    → AllWide rs
    → length rs ≡ 20
    → length acc + length ys ≤ 4
    → Board.clear_rows ys (record { cells = flat rs }) acc
      ≡ ret (record { cells = flat (removes ys rs) }, acc ++ ys)
unfolding Board.clear_rows
clear_rows_lem [] rs acc h w l c = rw (append-nil acc)
clear_rows_lem (y ∷ ys) rs acc h w l c =
    rw (lt→ltb (length acc) 4 (omega arith), clear_row_lem y rs w (omega arith) l)
      (clear_rows_lem ys (remove y rs) (acc ++ y ∷ []) h.1 (remove-AllWide y rs w)
          (omega (arith, length-remove y rs)) (omega (arith, length-append acc (y ∷ [])))
        ∙ ap (λ z. ret (record { cells = flat (removes (y ∷ ys) rs) }, z))
            (append_assoc acc (y ∷ []) ys))

full_at-AllBelow : (n k : ℕ) (ss : List Row) → k + length ss ≤ n → AllBelow n (full_at k ss)
full_at-AllBelow n k [] h = tt
full_at-AllBelow n k (r ∷ ss) h = elim (Bool-cases (row_full r)) [
  | inl f ↦ rw f (omega arith, full_at-AllBelow n (suc k) ss (omega arith))
  | inr f ↦ rw f (full_at-AllBelow n (suc k) ss (omega arith))
]

-- The places of the full rows of a board, from the top down.
abbrev pub full_rows : Board → List ℕ
full_rows b = full_at 0 (rows b)

-- The board with its full rows taken out and as many empty rows put in at the top.
abbrev pub collapse : Board → Board
collapse b = record { cells = flat (replicate (length (full_rows b)) empty_row ++ keep (rows b)) }

-- A board is the flat array of its rows.
pub grid_of_rows : (b : Board) → IsBoard b → record { cells = flat (rows b) } ≡ b
grid_of_rows b v = ap of_cells (flat-rows b v)
  where
    of_cells : List Cell → Board
    of_cells cells = record { cells = cells }

pub is_row_full-rows :
    (b : Board) (y : ℕ)
    → IsBoard b
    → y < 20
    → Board.is_row_full b y ≡ row_full (get_or (rows b) y [])
is_row_full-rows b y v h =
    ap (λ z. Board.is_row_full z y) (sym (grid_of_rows b v))
    ∙ is_row_full_lem (rows b) y (rows-AllWide b v) (length-rows b) h

pub SameFull-board : (b : Board) → IsBoard b → SameFull b 0 (rows b)
SameFull-board b v = SameFull-of_rows b 0 (rows b) (λ i hi.
    is_row_full-rows b (0 + i) v (omega (arith, length-rows b))
    ∙ ap (λ (k : ℕ). row_full (get_or (rows b) k [])) (add.zero i))

find_full_rows_board :
    (b : Board)
    → IsBoard b
    → Board.find_full_rows b 20 0 []
      ≡ (if leb (length (full_rows b)) 4 then ret (full_rows b) else fault)
find_full_rows_board b v =
    ap (λ (n : ℕ). Board.find_full_rows b n 0 []) (sym (length-rows b))
    ∙ find_full_rows_lem b 0 (rows b) [] (SameFull-board b v) (omega arith)
    ∙ ap (λ (n : ℕ). if leb n 4 then ret (full_rows b) else fault) (add.zero (length (full_rows b)))

clear_rows_board :
    (b : Board)
    → IsBoard b
    → length (full_rows b) ≤ 4
    → Board.clear_rows (full_rows b) b [] ≡ ret (collapse b, full_rows b)
clear_rows_board b v h =
    ap (λ z. Board.clear_rows (full_rows b) z []) (sym (grid_of_rows b v))
    ∙ clear_rows_lem (full_rows b) (rows b) []
        (full_at-AllBelow 20 0 (rows b) (omega (arith, length-rows b))) (rows-AllWide b v)
        (length-rows b) (omega arith)
    ∙ ap (λ z. ret (record { cells = flat z }, full_rows b)) all_removed
  where
    all_removed :
        removes (full_rows b) (rows b) ≡ replicate (length (full_rows b)) empty_row ++ keep (rows b)
    all_removed =
        removes-full_at [] (rows b)
        ∙ ap (λ z. z ++ keep (rows b)) (append-nil (replicate (length (full_rows b)) empty_row))

-- On a board, `clear_full_rows` reports the full rows from the top down and leaves the collapsed
-- board if at most four rows are full; it panics on more.
pub clear_full_rows_lem :
    (b : Board)
    → IsBoard b
    → Board.clear_full_rows b
      ≡ (if leb (length (full_rows b)) 4 then ret (collapse b, full_rows b) else fault)
unfolding Board.clear_full_rows
clear_full_rows_lem b v = elim (Bool-cases (leb (length (full_rows b)) 4)) [
  | inl few ↦
      rw (find_full_rows_board b v, few)
        (clear_rows_board b v (leb→le (length (full_rows b)) 4 few))
  | inr many ↦ rw (find_full_rows_board b v, many)
]
