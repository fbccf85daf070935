-- ===== src/Board/Rows.antt =====
-- The flat array as a list of rows.
use tui_tetris.Prelude.{ℕ, zero, suc, ◌*◌, ◌≡◌, refl, sym, ap, ◌∙◌, Bool}
use tui_tetris.Prelude.{List, [], ◌∷◌, ◌++◌, length, take, drop, get_or, replicate, all, none}
use tui_tetris.Prelude.{length-append, length-take, length-drop, take-append, drop-append}
use tui_tetris.Prelude.{take-append_self, take-append-drop, append_assoc, arith}
use tui_tetris.Types.{Cell}
use tui_tetris.Board
use tui_tetris.Board.{Board, IsBoard}

abbrev pub Row : Type 0
Row = List Cell

-- Every row is ten cells wide.
abbrev pub AllWide : List Row → Type 0
AllWide [] = Unit {0}
AllWide (r ∷ rs) = (length r ≡ 10) × AllWide rs

abbrev pub flat : List Row → List Cell
flat [] = []
flat (r ∷ rs) = r ++ flat rs

-- `n` rows of ten cells.
abbrev pub rows_of : ℕ → List Cell → List Row
rows_of zero cells = []
rows_of (suc n) cells = take 10 cells ∷ rows_of n (drop 10 cells)

-- The rows of a board, from top to bottom.
unfoldable pub rows : Board → List Row
rows b = rows_of 20 b.cells

abbrev pub row_full : Row → Bool
row_full r = all Board.is_some r

abbrev pub empty_row : Row
empty_row = replicate 10 none

flat-rows_of : (n : ℕ) (cells : List Cell) → length cells ≡ n * 10 → flat (rows_of n cells) ≡ cells
flat-rows_of zero [] h = refl
flat-rows_of zero (c ∷ cs) h = absurd (omega arith)
flat-rows_of (suc n) cells h =
    ap (λ r. take 10 cells ++ r)
      (flat-rows_of n (drop 10 cells) (omega (arith, length-drop 10 cells)))
    ∙ take-append-drop 10 cells

length-rows_of : (n : ℕ) (cells : List Cell) → length (rows_of n cells) ≡ n
length-rows_of zero cells = refl
length-rows_of (suc n) cells = ap suc (length-rows_of n (drop 10 cells))

AllWide-rows_of : (n : ℕ) (cells : List Cell) → length cells ≡ n * 10 → AllWide (rows_of n cells)
AllWide-rows_of zero cells h = tt
AllWide-rows_of (suc n) cells h = (
  omega (arith, length-take 10 cells),
  AllWide-rows_of n (drop 10 cells) (omega (arith, length-drop 10 cells)),
)

pub flat-rows : (b : Board) → IsBoard b → flat (rows b) ≡ b.cells
unfolding rows
flat-rows b v = flat-rows_of 20 b.cells v

pub length-rows : (b : Board) → length (rows b) ≡ 20
unfolding rows
length-rows b = length-rows_of 20 b.cells

pub rows-AllWide : (b : Board) → IsBoard b → AllWide (rows b)
unfolding rows
rows-AllWide b v = AllWide-rows_of 20 b.cells v

pub length-flat : (rs : List Row) → AllWide rs → length (flat rs) ≡ length rs * 10
length-flat [] w = refl
length-flat (r ∷ rs) w = omega (arith, length-append r (flat rs), length-flat rs w.1, w.0)

pub take-flat : (n : ℕ) (rs : List Row) → AllWide rs → take (n * 10) (flat rs) ≡ flat (take n rs)
take-flat zero rs w = refl
take-flat (suc n) [] w = take_nil (suc n * 10)
  where
    take_nil : (k : ℕ) → ◌≡◌ {A = List Cell} (take k []) []
    take_nil zero = refl
    take_nil (suc k) = refl
take-flat (suc n) (r ∷ rs) w =
    take-append (suc n * 10) r (flat rs) (omega (arith, w.0))
    ∙ ap (λ z. r ++ z) (ap (λ (k : ℕ). take k (flat rs)) (omega (arith, w.0)) ∙ take-flat n rs w.1)

pub drop-flat : (n : ℕ) (rs : List Row) → AllWide rs → drop (n * 10) (flat rs) ≡ flat (drop n rs)
drop-flat zero rs w = refl
drop-flat (suc n) [] w = drop_nil (suc n * 10)
  where
    drop_nil : (k : ℕ) → ◌≡◌ {A = List Cell} (drop k []) []
    drop_nil zero = refl
    drop_nil (suc k) = refl
drop-flat (suc n) (r ∷ rs) w =
    drop-append (suc n * 10) r (flat rs) (omega (arith, w.0))
    ∙ ap (λ (k : ℕ). drop k (flat rs)) (omega (arith, w.0))
    ∙ drop-flat n rs w.1

pub AllWide-drop : (n : ℕ) (rs : List Row) → AllWide rs → AllWide (drop n rs)
AllWide-drop zero rs w = w
AllWide-drop (suc n) [] w = w
AllWide-drop (suc n) (r ∷ rs) w = AllWide-drop n rs w.1

pub AllWide-take : (n : ℕ) (rs : List Row) → AllWide rs → AllWide (take n rs)
AllWide-take zero rs w = tt
AllWide-take (suc n) [] w = tt
AllWide-take (suc n) (r ∷ rs) w = (w.0, AllWide-take n rs w.1)

pub AllWide-append : (rs ss : List Row) → AllWide rs → AllWide ss → AllWide (rs ++ ss)
AllWide-append [] ss w v = v
AllWide-append (r ∷ rs) ss w v = (w.0, AllWide-append rs ss w.1 v)

pub flat-append : (rs ss : List Row) → flat (rs ++ ss) ≡ flat rs ++ flat ss
flat-append [] ss = refl
flat-append (r ∷ rs) ss =
    ap (λ z. r ++ z) (flat-append rs ss) ∙ sym (append_assoc r (flat rs) (flat ss))

take-10-flat : (r : Row) (rs : List Row) → length r ≡ 10 → take 10 (flat (r ∷ rs)) ≡ r
take-10-flat r rs h = rw (← h) (take-append_self r (flat rs))

get_or-drop : (y : ℕ) (rs : List Row) → get_or (drop y rs) 0 [] ≡ get_or rs y []
get_or-drop zero rs = refl
get_or-drop (suc y) [] = refl
get_or-drop (suc y) (r ∷ rs) = get_or-drop y rs

first_row : (ss : List Row) → AllWide ss → take 10 (flat ss) ≡ get_or ss 0 []
first_row [] w = refl
first_row (r ∷ rs) w = take-10-flat r rs w.0

-- The slice of row `y` is the row.
pub row_slice-flat :
    (rs : List Row) (y : ℕ) → AllWide rs → Board.row_slice (flat rs) y ≡ get_or rs y []
row_slice-flat rs y w =
    ap (λ z. take 10 z) (drop-flat y rs w)
    ∙ first_row (drop y rs) (AllWide-drop y rs w)
    ∙ get_or-drop y rs
