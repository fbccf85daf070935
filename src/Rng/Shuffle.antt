-- ===== src/Rng/Shuffle.antt =====
-- The shuffle permutes, whatever the generator yields.
use tui_tetris.Prelude.{ℕ, zero, suc, ◌-◌, ◌<◌, ◌≡◌, refl, ap, ◌∙◌, Bool}
use tui_tetris.Prelude.{
  List, length, get_or, set, length-set, count_if, count_if-set, if◌then◌else◌,
}
use tui_tetris.Prelude.{arith, get_or-set}
use tui_tetris.Types.{PieceKind, i_piece}
use tui_tetris.Rng

abbrev tally : Bool → ℕ
tally b = if b then 1 else 0

count_if-swap :
    (p : PieceKind → Bool) (xs : List PieceKind) (i j : ℕ)
    → i < length xs
    → j < length xs
    → count_if p (Rng.swap xs i j) ≡ count_if p xs
count_if-swap p xs i j hi hj = omega (
  arith,
  count_if-set p (set xs i b) j a i_piece (omega (arith, length-set xs i b)),
  count_if-set p xs i b i_piece hi,
  ap (λ z. tally (p z)) moved,
)
  where
    a : PieceKind
    a = get_or xs i i_piece

    b : PieceKind
    b = get_or xs j i_piece

    moved : get_or (set xs i b) j i_piece ≡ b
    moved = ground (arith, get_or-set xs i j b i_piece hi)

length-swap : (xs : List PieceKind) (i j : ℕ) → length (Rng.swap xs i j) ≡ length xs
length-swap xs i j =
    length-set (set xs i (get_or xs j i_piece)) j (get_or xs i i_piece)
    ∙ length-set xs i (get_or xs j i_piece)

-- The number that `next_range` draws lies below its bound.
pub next_range-lt : (rng n : ℕ) → 0 < n → (Rng.next_range rng n).1 < n
unfolding Rng.next_range
next_range-lt rng n h = omega arith

-- A shuffle keeps the length and the number of elements that pass any test.
shuffle_from-counts :
    (p : PieceKind → Bool) (i : ℕ) (rng : ℕ) (xs : List PieceKind)
    → i < length xs
    → (count_if p (Rng.shuffle_from i rng xs).1 ≡ count_if p xs)
      × (length (Rng.shuffle_from i rng xs).1 ≡ length xs)
unfolding Rng.shuffle_from
shuffle_from-counts p zero rng xs h = (refl, refl)
shuffle_from-counts p (suc i) rng xs h =
    let j : ℕ = (Rng.next_range rng (suc (suc i))).1 in
    let rest =
      shuffle_from-counts p i (Rng.next_range rng (suc (suc i))).0 (Rng.swap xs (suc i) j)
        (omega (arith, length-swap xs (suc i) j)) in
    (
      rest.0
          ∙ count_if-swap p xs (suc i) j h
              (omega (arith, next_range-lt rng (suc (suc i)) (omega arith))),
      rest.1 ∙ length-swap xs (suc i) j,
    )

-- For every seed and every list that is not empty, a shuffle keeps the length and, for every test,
-- the number of elements that pass it.
pub shuffle-counts :
    (p : PieceKind → Bool) (rng : ℕ) (xs : List PieceKind)
    → 0 < length xs
    → (count_if p (Rng.shuffle rng xs).1 ≡ count_if p xs)
      × (length (Rng.shuffle rng xs).1 ≡ length xs)
unfolding Rng.shuffle
shuffle-counts p rng xs h = shuffle_from-counts p (length xs - 1) rng xs (omega arith)
