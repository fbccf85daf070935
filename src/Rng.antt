-- ===== src/Rng.antt =====
-- crates/tetris-core/src/core/rng.rs: the generator, the shuffle and the 7-bag queue.
-- Arrays have their Rust lengths (`Rng.Bags`), and the indices used lie below them, so the default
-- of `get_or` is never read.
pub mod Shuffle
pub mod Bags
pub mod Preview
use package.tui_tetris.Prelude.{ℕ, zero, suc, ◌+◌, ◌-◌, ◌*◌, ◌%◌, Bool, Option, some}
use package.tui_tetris.Prelude.{
  List, [], ◌∷◌, ◌++◌, length, get_or, set, ltb, leb, u32_mod, if◌then◌else◌,
}
use package.tui_tetris.Types.{PieceKind, i_piece, kinds}

-- `SimpleRng` is its state, a u32.
abbrev pub SimpleRng : Type 0
SimpleRng = ℕ

-- The new state is also the number that is returned.
unfoldable pub next_u32 : SimpleRng → ℕ
next_u32 state = (state * 1664525 % u32_mod + 1013904223) % u32_mod

unfoldable pub next_range : SimpleRng → ℕ → SimpleRng × ℕ
next_range state max = let n = next_u32 state in (n, n % max)

abbrev pub swap : List PieceKind → ℕ → ℕ → List PieceKind
swap xs i j = set (set xs i (get_or xs j i_piece)) j (get_or xs i i_piece)

-- The loop of `shuffle` at its counter, down to 1.
unfoldable pub shuffle_from : ℕ → SimpleRng → List PieceKind → SimpleRng × List PieceKind
shuffle_from zero rng xs = (rng, xs)
shuffle_from (suc i) rng xs =
    let (rng', j) = next_range rng (suc (suc i)) in shuffle_from i rng' (swap xs (suc i) j)

unfoldable pub shuffle : SimpleRng → List PieceKind → SimpleRng × List PieceKind
shuffle rng xs = shuffle_from (length xs - 1) rng xs

pub record PieceQueue : Type 0 where
  pub episode_seed : ℕ
  pub bag : List PieceKind
  pub bag_index : ℕ
  pub rng : SimpleRng

unfoldable pub refill_bag : PieceQueue → PieceQueue
refill_bag q =
    let (rng', bag') = shuffle q.rng kinds in record q { bag = bag'; rng = rng'; bag_index = 0 }

unfoldable pub new : ℕ → PieceQueue
new seed = refill_bag (record { episode_seed = seed; bag = kinds; bag_index = 0; rng = seed })

-- The bag that a refill would make, with a copy of the generator.
abbrev pub preview_bag : PieceQueue → List PieceKind
preview_bag q = (shuffle q.rng kinds).1

-- `self.bag.get(self.bag_index).copied()` below 7, else the head of the previewed bag.
unfoldable pub peek : PieceQueue → Option PieceKind
peek q =
    if ltb q.bag_index 7
    then some (get_or q.bag q.bag_index i_piece)
    else some (get_or (preview_bag q) 0 i_piece)

-- The first loop of `peek_5`, with `left` places to fill.
unfoldable pub copy_bag : List PieceKind → ℕ → ℕ → List PieceKind
copy_bag bag zero idx = []
copy_bag bag (suc left) idx =
    let rest = copy_bag bag left (suc idx) in
    if ltb idx 7 then get_or bag idx i_piece ∷ rest else []

-- The second loop.
unfoldable pub copy_next : List PieceKind → ℕ → ℕ → List PieceKind
copy_next bag zero nb = []
copy_next bag (suc left) nb = get_or bag nb i_piece ∷ copy_next bag left (suc nb)

unfoldable pub peek_5 : PieceQueue → List PieceKind
peek_5 q =
    let out = copy_bag q.bag 5 q.bag_index in out ++ copy_next (preview_bag q) (5 - length out) 0

unfoldable pub draw : PieceQueue → PieceKind × PieceQueue
draw q =
    let r = if leb 7 q.bag_index then refill_bag q else q in
    (get_or r.bag r.bag_index i_piece, record r { bag_index = r.bag_index + 1 })
