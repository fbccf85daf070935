-- ===== src/Rng/Bags.antt =====
-- The 7-bag rule.
use tui_tetris.Prelude.{ℕ, zero, suc, ◌≤◌, ◌≡◌, refl, sym, ap, ◌∙◌, ◌⊎◌, inl, inr, Bool}
use tui_tetris.Prelude.{List, [], ◌∷◌, length, get_or, count_if, ◌==◌, arith, leb, Bool-cases}
use mathlib.Core.Path.{subst}
use tui_tetris.Types.{
  PieceKind, i_piece, o_piece, t_piece, s_piece, z_piece, j_piece, l_piece, kinds,
}
use tui_tetris.Rng
use tui_tetris.Rng.{PieceQueue}
use tui_tetris.Rng.Shuffle.{shuffle-counts}

abbrev kind_number : PieceKind → ℕ
kind_number i_piece = 1
kind_number o_piece = 2
kind_number t_piece = 3
kind_number s_piece = 4
kind_number z_piece = 5
kind_number j_piece = 6
kind_number l_piece = 7

abbrev pub same_kind : PieceKind → PieceKind → Bool
same_kind a b = kind_number a == kind_number b

-- Seven pieces, every kind exactly once.
abbrev pub IsBag : List PieceKind → Type 0
IsBag xs = (length xs ≡ 7) × ((k : PieceKind) → count_if (same_kind k) xs ≡ 1)

pub shuffle-IsBag : (rng : ℕ) → IsBag (Rng.shuffle rng kinds).1
shuffle-IsBag rng = (
  (shuffle-counts (same_kind i_piece) rng kinds (omega arith)).1,
  λ k. (shuffle-counts (same_kind k) rng kinds (omega arith)).0 ∙ once k,
)
  where
    once : (k : PieceKind) → count_if (same_kind k) kinds ≡ 1
    once i_piece = refl
    once k = refl

-- Between two calls the queue holds a bag and an index into it.
abbrev pub IsQueue : PieceQueue → Type 0
IsQueue q = IsBag q.bag × (q.bag_index ≤ 7)

pub new-IsQueue : (seed : ℕ) → IsQueue (Rng.new seed)
unfolding Rng.new Rng.refill_bag
new-IsQueue seed = (shuffle-IsBag seed, omega arith)

new-AtBag :
    (seed : ℕ)
    → IsBag (Rng.new seed).bag × (((Rng.new seed).bag_index ≡ 0) ⊎ ((Rng.new seed).bag_index ≡ 7))
unfolding Rng.new Rng.refill_bag
new-AtBag seed = (shuffle-IsBag seed, inl refl)

pub draw-IsQueue : (q : PieceQueue) → IsQueue q → IsQueue (Rng.draw q).1
unfolding Rng.draw Rng.refill_bag
draw-IsQueue q (bag, idx) = elim (Bool-cases (leb 7 q.bag_index)) [
  | inl full ↦ rw full (shuffle-IsBag q.rng, omega arith)
  | inr more ↦ rw more (bag, ground arith)
]

-- The next `n` draws, and the queue after them.
unfoldable pub draws : ℕ → PieceQueue → List PieceKind × PieceQueue
draws zero q = ([], q)
draws (suc n) q = let (kind, q') = Rng.draw q in let (rest, q'') = draws n q' in (kind ∷ rest, q'')

all_seven :
    (xs : List PieceKind)
    → length xs ≡ 7
    → get_or xs 0 i_piece
        ∷ get_or xs 1 i_piece
        ∷ get_or xs 2 i_piece
        ∷ get_or xs 3 i_piece
        ∷ get_or xs 4 i_piece
        ∷ get_or xs 5 i_piece
        ∷ get_or xs 6 i_piece
        ∷ []
      ≡ xs
all_seven (a ∷ b ∷ c ∷ d ∷ e ∷ f ∷ g ∷ []) h = refl
all_seven xs h = absurd (omega arith)

-- The queue stands between two bags: at the start of one, or past the end of one.
abbrev pub AtBag : PieceQueue → Type 0
AtBag q = IsBag q.bag × ((q.bag_index ≡ 0) ⊎ (q.bag_index ≡ 7))

draws_first :
    (seed rng : ℕ) (bag : List PieceKind)
    → length bag ≡ 7
    → draws 7 (record { episode_seed = seed; bag = bag; bag_index = 0; rng = rng })
      ≡ (bag, record { episode_seed = seed; bag = bag; bag_index = 7; rng = rng })
unfolding draws Rng.draw
draws_first seed rng bag h =
    ap
      (λ (z : List PieceKind).
        (z, record { episode_seed = seed; bag = bag; bag_index = 7; rng = rng }))
      (all_seven bag h)

draws_next :
    (seed rng : ℕ) (bag : List PieceKind)
    → draws 7 (record { episode_seed = seed; bag = bag; bag_index = 7; rng = rng })
      ≡ draws 7
          (Rng.refill_bag (record { episode_seed = seed; bag = bag; bag_index = 7; rng = rng }))
unfolding draws Rng.draw Rng.refill_bag
draws_next seed rng bag = refl

-- The next seven draws are a bag, and the queue is between two bags again.
abbrev pub DrawsBag : PieceQueue → Type 0
DrawsBag q = IsBag (draws 7 q).0 × AtBag (draws 7 q).1

abbrev queue_at : ℕ → ℕ → List PieceKind → ℕ → PieceQueue
queue_at seed rng bag idx = record { episode_seed = seed; bag = bag; bag_index = idx; rng = rng }

DrawsBag-first :
    (seed rng : ℕ) (bag : List PieceKind) → IsBag bag → DrawsBag (queue_at seed rng bag 0)
DrawsBag-first seed rng bag h = rw (draws_first seed rng bag h.0) (h, (h, inr refl))

DrawsBag-next : (seed rng : ℕ) (bag : List PieceKind) → DrawsBag (queue_at seed rng bag 7)
unfolding Rng.refill_bag
DrawsBag-next seed rng bag =
    rw (draws_next seed rng bag)
      (DrawsBag-first seed (Rng.shuffle rng kinds).0 (Rng.shuffle rng kinds).1 (shuffle-IsBag rng))

pub draws_bag : (q : PieceQueue) → AtBag q → DrawsBag q
draws_bag q (bag, inl start) =
    subst (λ (n : ℕ). DrawsBag (queue_at q.episode_seed q.rng q.bag n)) (sym start)
      (DrawsBag-first q.episode_seed q.rng q.bag bag)
draws_bag q (bag, inr end) =
    subst (λ (n : ℕ). DrawsBag (queue_at q.episode_seed q.rng q.bag n)) (sym end)
      (DrawsBag-next q.episode_seed q.rng q.bag)

-- The queue after `n` times seven draws.
abbrev pub after_bags : ℕ → PieceQueue → PieceQueue
after_bags zero q = q
after_bags (suc n) q = after_bags n (draws 7 q).1

after_bags-AtBag : (n : ℕ) (q : PieceQueue) → AtBag q → AtBag (after_bags n q)
after_bags-AtBag zero q h = h
after_bags-AtBag (suc n) q h = after_bags-AtBag n (draws 7 q).1 (draws_bag q h).1

-- For every seed, each block of seven draws, counted from the start, has every kind exactly once.
pub seven-IsBag : (seed n : ℕ) → IsBag (draws 7 (after_bags n (Rng.new seed))).0
seven-IsBag seed n =
    (draws_bag (after_bags n (Rng.new seed)) (after_bags-AtBag n (Rng.new seed) (new-AtBag seed))).0
