-- ===== src/Rng/Preview.antt =====
-- The previews tell the truth: what `peek` and `peek_5` show is what `draw` gives.
use tui_tetris.Prelude.{ℕ, zero, suc, ◌≤◌, ◌≡◌, refl, some, List, arith}
use tui_tetris.Types.{PieceKind}
use tui_tetris.Rng
use tui_tetris.Rng.{PieceQueue}
use tui_tetris.Rng.Bags.{draws}

queue_at : ℕ → ℕ → List PieceKind → ℕ → PieceQueue
queue_at seed rng bag idx = record { episode_seed = seed; bag = bag; bag_index = idx; rng = rng }

peek_at :
    (seed rng : ℕ) (bag : List PieceKind) (idx : ℕ)
    → idx ≤ 7
    → Rng.peek (queue_at seed rng bag idx) ≡ some (Rng.draw (queue_at seed rng bag idx)).0
unfolding queue_at Rng.peek Rng.draw Rng.refill_bag
peek_at seed rng bag zero h = refl
peek_at seed rng bag (suc zero) h = refl
peek_at seed rng bag (suc (suc zero)) h = refl
peek_at seed rng bag (suc (suc (suc zero))) h = refl
peek_at seed rng bag (suc (suc (suc (suc zero)))) h = refl
peek_at seed rng bag (suc (suc (suc (suc (suc zero))))) h = refl
peek_at seed rng bag (suc (suc (suc (suc (suc (suc zero)))))) h = refl
peek_at seed rng bag (suc (suc (suc (suc (suc (suc (suc zero))))))) h = refl
peek_at seed rng bag (suc (suc (suc (suc (suc (suc (suc (suc n)))))))) h = absurd (omega arith)

peek_5_at :
    (seed rng : ℕ) (bag : List PieceKind) (idx : ℕ)
    → idx ≤ 7
    → Rng.peek_5 (queue_at seed rng bag idx) ≡ (draws 5 (queue_at seed rng bag idx)).0
unfolding queue_at Rng.peek_5 Rng.copy_bag Rng.copy_next draws Rng.draw Rng.refill_bag
peek_5_at seed rng bag zero h = refl
peek_5_at seed rng bag (suc zero) h = refl
peek_5_at seed rng bag (suc (suc zero)) h = refl
peek_5_at seed rng bag (suc (suc (suc zero))) h = refl
peek_5_at seed rng bag (suc (suc (suc (suc zero)))) h = refl
peek_5_at seed rng bag (suc (suc (suc (suc (suc zero))))) h = refl
peek_5_at seed rng bag (suc (suc (suc (suc (suc (suc zero)))))) h = refl
peek_5_at seed rng bag (suc (suc (suc (suc (suc (suc (suc zero))))))) h = refl
peek_5_at seed rng bag (suc (suc (suc (suc (suc (suc (suc (suc n)))))))) h = absurd (omega arith)

-- While the index is at most 7, `peek` shows the piece of the next draw.
pub peek-draw : (q : PieceQueue) → q.bag_index ≤ 7 → Rng.peek q ≡ some (Rng.draw q).0
unfolding queue_at
peek-draw q h = peek_at q.episode_seed q.rng q.bag q.bag_index h

-- While the index is at most 7, `peek_5` shows the pieces of the next five draws in their order,
-- across the border of two bags too, although it never changes the queue.
pub peek_5-draws : (q : PieceQueue) → q.bag_index ≤ 7 → Rng.peek_5 q ≡ (draws 5 q).0
unfolding queue_at
peek_5-draws q h = peek_5_at q.episode_seed q.rng q.bag q.bag_index h
