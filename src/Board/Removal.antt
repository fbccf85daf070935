-- ===== src/Board/Removal.antt =====
-- Taking rows out of the list of rows, and `clear_row` as one such step.
use tui_tetris.Prelude.{ℕ, zero, suc, ◌+◌, ◌*◌, ◌<◌, ◌≡◌, refl, sym, ap, ◌∙◌}
use tui_tetris.Prelude.{List, [], ◌∷◌, ◌++◌, length, take, drop, replicate, none}
use tui_tetris.Prelude.{length-append, take-append_self, append_assoc, arith, if◌then◌else◌}
use tui_tetris.Prelude.{inl, inr, Bool-cases}
use mathlib.Core.Path.{subst, ap₂}
use tui_tetris.Types.{Cell}
use tui_tetris.Board
use tui_tetris.Board.{Board, IsBoard}
use tui_tetris.Board.Rows.{Row, AllWide, flat, row_full, empty_row}
use tui_tetris.Board.Rows.{take-flat, drop-flat, AllWide-take, AllWide-drop}
use tui_tetris.Board.Rows.{AllWide-append, flat-append}

-- The places of the full rows, counted from `k`.
abbrev pub full_at : ℕ → List Row → List ℕ
full_at k [] = []
full_at k (r ∷ rs) = let rest = full_at (suc k) rs in if row_full r then k ∷ rest else rest

-- The rows that are not full, in their order.
abbrev pub keep : List Row → List Row
keep [] = []
keep (r ∷ rs) = let rest = keep rs in if row_full r then rest else r ∷ rest

abbrev pub AllBelow : ℕ → List ℕ → Type 0
AllBelow n [] = Unit {0}
AllBelow n (x ∷ xs) = (x < n) × AllBelow n xs

-- One row goes, and an empty row comes in at the top.
abbrev pub remove : ℕ → List Row → List Row
remove y rs = empty_row ∷ take y rs ++ drop (suc y) rs

abbrev pub removes : List ℕ → List Row → List Row
removes [] rs = rs
removes (y ∷ ys) rs = removes ys (remove y rs)

pub clear_first-append :
    (xs ys : List Cell)
    → Board.clear_first (length xs) (xs ++ ys) ≡ replicate (length xs) none ++ ys
clear_first-append [] ys = refl
clear_first-append (x ∷ xs) ys = ap (λ z. none ∷ z) (clear_first-append xs ys)

pub clear_copied :
    (y : ℕ) (rs : List Row)
    → AllWide rs
    → y < length rs
    → Board.clear_first 10 (Board.copy_within (y * 10) 10 (flat rs)) ≡ flat (remove y rs)
clear_copied y [] w h = absurd (omega arith)
clear_copied y (r ∷ rs) w h =
    ap (λ z. Board.clear_first 10 (z ++ take (y * 10) cells ++ drop (10 + y * 10) cells)) top
    ∙ ap (λ z. Board.clear_first 10 z) (append_assoc r _ _)
    ∙ wipe
    ∙ ap (λ z. replicate 10 none ++ z) rest
  where
    cells : List Cell
    cells = flat (r ∷ rs)

    top : take 10 cells ≡ r
    top = rw (← w.0) (take-append_self r (flat rs))

    below : List Cell
    below = take (y * 10) cells ++ drop (10 + y * 10) cells

    wipe : Board.clear_first 10 (r ++ below) ≡ replicate 10 none ++ below
    wipe =
        subst (λ (k : ℕ). Board.clear_first k (r ++ below) ≡ replicate k none ++ below) w.0
          (clear_first-append r below)

    rest : below ≡ flat (take y (r ∷ rs) ++ drop (suc y) (r ∷ rs))
    rest =
        ap₂ (λ z u. z ++ u) (take-flat y (r ∷ rs) w)
          (ap (λ (k : ℕ). drop k cells) (omega arith) ∙ drop-flat (suc y) (r ∷ rs) w)
        ∙ sym (flat-append (take y (r ∷ rs)) (drop (suc y) (r ∷ rs)))

pub clear_row_lem :
    (y : ℕ) (rs : List Row)
    → AllWide rs
    → y < length rs
    → length rs ≡ 20
    → (Board.clear_row (record { cells = flat rs }) y).0 ≡ record { cells = flat (remove y rs) }
unfolding Board.clear_row
clear_row_lem y rs w h l = ground (arith, clear_copied y rs w h)

pub remove-AllWide : (y : ℕ) (rs : List Row) → AllWide rs → AllWide (remove y rs)
remove-AllWide y rs w = (
  refl,
  AllWide-append (take y rs) (drop (suc y) rs) (AllWide-take y rs w) (AllWide-drop (suc y) rs w),
)

module _ (ps : List Row) (r : Row) where
  append_one : (ss : List Row) → (ps ++ r ∷ []) ++ ss ≡ ps ++ r ∷ ss
  append_one ss = append_assoc ps (r ∷ []) ss

  length-append_one : length (ps ++ r ∷ []) ≡ suc (length ps)
  length-append_one = omega (arith, length-append ps (r ∷ []))

pub drop_one :
    (ps : List Row) (r : Row) (ss : List Row) → drop (suc (length ps)) (ps ++ r ∷ ss) ≡ ss
drop_one [] r ss = refl
drop_one (p ∷ ps) r ss = drop_one ps r ss

pub replicate-shift :
    (n : ℕ) (ps : List Row)
    → replicate n empty_row ++ empty_row ∷ ps ≡ empty_row ∷ (replicate n empty_row ++ ps)
replicate-shift zero ps = refl
replicate-shift (suc n) ps = ap (λ z. empty_row ∷ z) (replicate-shift n ps)

pub regroup :
    (n : ℕ) (ps : List Row) (r : Row) (ks : List Row)
    → (replicate n empty_row ++ (ps ++ r ∷ [])) ++ ks ≡ (replicate n empty_row ++ ps) ++ r ∷ ks
regroup n ps r ks = simp append_assoc

-- Above `ps`, which holds no row that is still to go, the loop brings in one empty row for each
-- full row of `ss`.
pub removes-full_at :
    (ps ss : List Row)
    → removes (full_at (length ps) ss) (ps ++ ss)
      ≡ replicate (length (full_at (length ps) ss)) empty_row ++ ps ++ keep ss
removes-full_at ps [] = refl
removes-full_at ps (r ∷ ss) = elim (Bool-cases (row_full r)) [
  | inl e ↦ rw e (
      ap (λ z. removes (full_at (suc (length ps)) ss) (empty_row ∷ z))
        (ap₂ (λ z u. z ++ u) (take-append_self ps (r ∷ ss)) (drop_one ps r ss))
      ∙ removes-full_at (empty_row ∷ ps) ss
      ∙ ap (λ z. z ++ keep ss) (replicate-shift (length (full_at (suc (length ps)) ss)) ps))
  | inr e ↦ rw e (
      subst
        (λ (k : ℕ).
          removes (full_at k ss) (ps ++ r ∷ ss)
          ≡ replicate (length (full_at k ss)) empty_row ++ ps ++ r ∷ keep ss)
        (length-append_one ps r)
        (ap (removes (full_at (length (ps ++ r ∷ [])) ss)) (sym (append_one ps r ss))
          ∙ removes-full_at (ps ++ r ∷ []) ss
          ∙ regroup (length (full_at (length (ps ++ r ∷ [])) ss)) ps r (keep ss)))
]
