-- ===== src/Tests/Games.antt =====
-- Games and queues at concrete inputs.
use tui_tetris.Prelude.{◌+◌, ◌≤◌}
use tui_tetris.Prelude.{ℕ, ◌≡◌, refl, Bool, true, some}
use tui_tetris.Prelude.{arith, Returns}
use tui_tetris.Types.{GameAction, hard_drop, kinds}
use tui_tetris.Rng
use tui_tetris.Rng.Bags.{IsBag, draws, after_bags, seven-IsBag}
use tui_tetris.Rng.Preview.{peek_5-draws}
use tui_tetris.Pieces
use tui_tetris.Board
use tui_tetris.Types.{north, t_piece}
use tui_tetris.Board.Rows.{rows}
use tui_tetris.Board.Filled.{AccountsFor, filled_count, lock_clear-AccountsFor}
use tui_tetris.Game.Totals.Runs.{NeverLoses, apply_action-NeverLoses, tick-NeverLoses}
use tui_tetris.Game.State
use tui_tetris.Game.State.{Tetromino, GameState, new_piece, piece_is_valid}
use tui_tetris.Game.Actions
use tui_tetris.Game.Ghost.{HardDrops, ghost-hard_drop}
use tui_tetris.Game.Invariant.{IsWellFormed}
use tui_tetris.Game.Invariant.Ticks.{WellFormedResult}
use tui_tetris.Game.Invariant.Reachable.{
  Reachable, created, stepped, starts, Reachable-IsWellFormed, Reachable-returns,
}

-- A game of the seed 1 that was started.
abbrev game : GameState
game = State.start (State.new 1)

game-Reachable : Reachable game
game-Reachable = stepped (created 1) starts

Reachable-IsWellFormed_example : IsWellFormed game
Reachable-IsWellFormed_example = Reachable-IsWellFormed game-Reachable

game-IsWellFormed : IsWellFormed game
game-IsWellFormed = Reachable-IsWellFormed game-Reachable

Reachable-returns_example :
    ((a : GameAction) → Returns (Actions.apply_action game a) WellFormedResult)
    × ((elapsed : ℕ) (soft : Bool) → Returns (Actions.tick game elapsed soft) WellFormedResult)
Reachable-returns_example = Reachable-returns game-Reachable

-- Its first piece.
abbrev first_piece : Tetromino
first_piece = new_piece (Rng.draw (Rng.new 1)).0

game-active : game.active ≡ some first_piece
unfolding State.start State.new State.spawn_piece State.consume piece_is_valid Rng.peek Rng.new
    Rng.refill_bag Pieces.get_shape Rng.shuffle Rng.shuffle_from Rng.next_range Rng.next_u32
    Board.is_valid Board.get Board.index Rng.draw
game-active = refl

ghost-hard_drop_example : (d : ℕ) × HardDrops game first_piece d
ghost-hard_drop_example = ghost-hard_drop game first_piece game-IsWellFormed game-active

seven-IsBag_example : IsBag (draws 7 (after_bags 3 (Rng.new 42))).0
seven-IsBag_example = seven-IsBag 42 3

-- A queue with two pieces left in its bag.
abbrev near_end : Rng.PieceQueue
near_end = record { episode_seed = 42; bag = kinds; bag_index = 5; rng = 42 }

peek_5-draws_example : Rng.peek_5 near_end ≡ (draws 5 near_end).0
peek_5-draws_example = peek_5-draws near_end (omega arith)

lock_clear-AccountsFor_example :
    Returns
      (Board.clear_full_rows
        (Board.lock_piece Board.new (Pieces.get_shape t_piece north) 3 16 t_piece).0)
      (AccountsFor (filled_count Board.new + 4))
unfolding Board.is_valid Board.get Board.index Pieces.get_shape rows
lock_clear-AccountsFor_example = lock_clear-AccountsFor Board.new t_piece north 3 16 refl refl refl

game-in_range : (game.score ≤ 4294967295) × (game.lines ≤ 4294967295)
unfolding State.start State.new State.spawn_piece State.consume piece_is_valid Rng.peek Rng.new
    Rng.refill_bag Pieces.get_shape Rng.shuffle Rng.shuffle_from Rng.next_range Rng.next_u32
    Board.is_valid Board.get Board.index Rng.draw
game-in_range = (omega arith, omega arith)

apply_action-NeverLoses_example : Returns (Actions.apply_action game hard_drop) (NeverLoses game)
apply_action-NeverLoses_example =
    apply_action-NeverLoses game hard_drop game-IsWellFormed game-in_range.0 game-in_range.1 refl

tick-NeverLoses_example : Returns (Actions.tick game 5000 true) (NeverLoses game)
tick-NeverLoses_example =
    tick-NeverLoses game 5000 true game-IsWellFormed game-in_range.0 game-in_range.1
