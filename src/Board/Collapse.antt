-- ===== src/Board/Collapse.antt =====
-- The board after a clear: still a board, with no full row.
use tui_tetris.Prelude.{ℕ, zero, suc, ◌+◌, ◌≡◌, refl, sym, ap, ◌∙◌}
use tui_tetris.Prelude.{
  List, [], ◌∷◌, ◌++◌, length, take, drop, replicate, length-append, length-replicate,
}
use tui_tetris.Prelude.{◌≤◌, ◌<◌, Bool, true, false, any, get_or, ◌==◌, leb, Returns}
use tui_tetris.Prelude.{take-append_self, drop-append_self, Bool-cases, inl, inr, arith}
use mathlib.Core.Path.{subst, ap₂}
use tui_tetris.Board
use tui_tetris.Board.{Board, IsBoard}
use tui_tetris.Board.Rows.{Row, AllWide, flat, rows, rows_of, row_full, empty_row, length-flat}
use tui_tetris.Board.Rows.{rows-AllWide, AllWide-append, length-rows}
use tui_tetris.Board.Removal.{full_at, keep}
use tui_tetris.Board.Clear.{full_rows, collapse, clear_full_rows_lem, is_row_full-rows}

keep-AllWide : (rs : List Row) → AllWide rs → AllWide (keep rs)
keep-AllWide [] w = tt
keep-AllWide (r ∷ rs) w = elim (Bool-cases (row_full r)) [
  | inl e ↦ rw e (keep-AllWide rs w.1)
  | inr e ↦ rw e (w.0, keep-AllWide rs w.1)
]

replicate-AllWide : (n : ℕ) → AllWide (replicate n empty_row)
replicate-AllWide zero = tt
replicate-AllWide (suc n) = (refl, replicate-AllWide n)

length-keep : (k : ℕ) (rs : List Row) → length (full_at k rs) + length (keep rs) ≡ length rs
length-keep k [] = refl
length-keep k (r ∷ rs) = elim (Bool-cases (row_full r)) [
  | inl e ↦ rw e (omega (arith, length-keep (suc k) rs))
  | inr e ↦ rw e (omega (arith, length-keep (suc k) rs))
]

rows_of-flat : (rs : List Row) → AllWide rs → rows_of (length rs) (flat rs) ≡ rs
rows_of-flat [] w = refl
rows_of-flat (r ∷ rs) w =
    subst
      (λ (k : ℕ). take k (flat (r ∷ rs)) ∷ rows_of (length rs) (drop k (flat (r ∷ rs))) ≡ r ∷ rs)
      w.0
      (ap₂ (λ z u. z ∷ rows_of (length rs) u) (take-append_self r (flat rs))
          (drop-append_self r (flat rs))
        ∙ ap (λ z. r ∷ z) (rows_of-flat rs w.1))

-- The rows of the collapsed board.
pub collapsed : Board → List Row
collapsed b = replicate (length (full_rows b)) empty_row ++ keep (rows b)

module _ (b : Board) (v : IsBoard b) where
  collapsed-AllWide : AllWide (collapsed b)
  unfolding collapsed
  collapsed-AllWide =
      AllWide-append (replicate (length (full_rows b)) empty_row) (keep (rows b))
        (replicate-AllWide (length (full_rows b))) (keep-AllWide (rows b) (rows-AllWide b v))

  length-collapsed : length (collapsed b) ≡ 20
  unfolding collapsed
  length-collapsed = omega (
    arith,
    length-append {0} (replicate (length (full_rows b)) empty_row) (keep (rows b)),
    length-replicate {0} (length (full_rows b)) empty_row,
    length-keep 0 (rows b),
    length-rows b,
  )

  pub collapse-IsBoard : IsBoard (collapse b)
  unfolding collapsed
  collapse-IsBoard = omega (arith, length-flat (collapsed b) collapsed-AllWide, length-collapsed)

  pub rows-collapse : rows (collapse b) ≡ collapsed b
  unfolding collapsed rows
  rows-collapse =
      ap (λ (n : ℕ). rows_of n (flat (collapsed b))) (sym length-collapsed)
      ∙ rows_of-flat (collapsed b) collapsed-AllWide

full_at-keep : (k : ℕ) (rs : List Row) → full_at k (keep rs) ≡ []
full_at-keep k [] = refl
full_at-keep k (r ∷ rs) = elim (Bool-cases (row_full r)) [
  | inl e ↦ rw e (full_at-keep k rs)
  | inr e ↦ rw e (rw e (full_at-keep (suc k) rs))
]

full_at-empty :
    (n k : ℕ) (rs : List Row) → full_at k (replicate n empty_row ++ rs) ≡ full_at (k + n) rs
full_at-empty zero k rs = ap (λ (j : ℕ). full_at j rs) (omega arith)
full_at-empty (suc n) k rs = full_at-empty n (suc k) rs ∙ ap (λ (j : ℕ). full_at j rs) (omega arith)

-- A clear leaves no full row.
pub full_rows-collapse : (b : Board) → IsBoard b → full_rows (collapse b) ≡ []
unfolding collapsed
full_rows-collapse b v =
    ap (full_at 0) (rows-collapse b v)
    ∙ full_at-empty (length (full_rows b)) 0 (keep (rows b))
    ∙ full_at-keep (0 + length (full_rows b)) (rows b)

abbrev pub has_row : ℕ → List ℕ → Bool
has_row y ys = any (λ (z : ℕ). z == y) ys

full_at-above : (k j : ℕ) (rs : List Row) → j < k → has_row j (full_at k rs) ≡ false
full_at-above k j [] h = refl
full_at-above k j (r ∷ rs) h =
    let rest = full_at-above (suc k) j rs (omega arith) in
    let off : (k == j) ≡ false = ground arith in
    elim (Bool-cases (row_full r)) [ inl e ↦ rw e (rw off rest) | inr e ↦ rw e rest ]

-- The places of the full rows are those of rows that are full.
full_at-has_row :
    (k i : ℕ) (rs : List Row)
    → i < length rs
    → has_row (k + i) (full_at k rs) ≡ row_full (get_or rs i [])
full_at-has_row k i [] h = absurd (omega arith)
full_at-has_row k zero (r ∷ rs) h =
    let on : (k == k + 0) ≡ true = ground arith in
    elim (Bool-cases (row_full r)) [
      | inl e ↦ rw e (rw on refl)
      | inr e ↦ rw e (full_at-above (suc k) (k + 0) rs (omega arith))
    ]
full_at-has_row k (suc i) (r ∷ rs) h =
    let off : (k == k + suc i) ≡ false = ground arith in
    let there : has_row (k + suc i) (full_at (suc k) rs) ≡ row_full (get_or rs i []) =
      ap (λ (j : ℕ). has_row j (full_at (suc k) rs)) (omega arith)
      ∙ full_at-has_row (suc k) i rs (omega arith) in
    elim (Bool-cases (row_full r)) [ inl e ↦ rw e (rw off there) | inr e ↦ rw e there ]

pub is_row_full-has_row :
    (b : Board) (y : ℕ) → IsBoard b → y < 20 → Board.is_row_full b y ≡ has_row y (full_rows b)
is_row_full-has_row b y v h =
    is_row_full-rows b y v h
    ∙ sym (full_at-has_row 0 y (rows b) (omega (arith, length-rows b)))
    ∙ ap (λ (j : ℕ). has_row j (full_rows b)) (omega arith)

-- A board without full rows, and the places of the rows that were full before.
pub record IsCleared (b : Board) (r : Board × List ℕ) : Type 0 where
  pub board : IsBoard r.0
  pub no_full_row : (y : ℕ) → y < 20 → Board.is_row_full r.0 y ≡ false
  pub reported : (y : ℕ) → y < 20 → has_row y r.1 ≡ Board.is_row_full b y

-- On a board with at most four full rows, `clear_full_rows` returns a board none of whose 20 rows
-- `is_row_full` calls full, and reports exactly the rows that it called full before.
pub clear_full_rows-IsCleared :
    (b : Board)
    → IsBoard b
    → length (full_rows b) ≤ 4
    → Returns (Board.clear_full_rows b) (IsCleared b)
clear_full_rows-IsCleared b v few =
    let enough : leb (length (full_rows b)) 4 ≡ true = ground arith in
    (
      (collapse b, full_rows b),
      rw (clear_full_rows_lem b v, enough) refl,
      record {
        board = collapse-IsBoard b v;
        no_full_row = λ y h.
            is_row_full-has_row (collapse b) y (collapse-IsBoard b v) h
            ∙ ap (has_row y) (full_rows-collapse b v);
        reported = λ y h. sym (is_row_full-has_row b y v h);
      },
    )
