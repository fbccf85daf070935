-- ===== src/Tests/Replays.antt =====
-- Replays and the snapshot cache at concrete inputs.
use tui_tetris.Prelude.{
  ℕ, arith, none, false, ◌≡◌, refl, some, length, Returns, get_or, List, [], ◌∷◌, Run, ret, ◌>>=◌,
}
use tui_tetris.Types.{hard_drop, restart, move_left, north}
use tui_tetris.Board.{write_u8_grid}
use tui_tetris.Session.Runtime.{StepInput, batch, place, Transition}
use tui_tetris.Rng
use tui_tetris.Board
use tui_tetris.Game.State
use tui_tetris.Game.State.{GameState}
use tui_tetris.Game.Moves
use tui_tetris.Game.Locking
use tui_tetris.Game.Actions
use tui_tetris.Scoring
use tui_tetris.Session.Runtime
use tui_tetris.Pieces
use tui_tetris.Game.Snapshot
use tui_tetris.Session.Cache
use tui_tetris.Session.Replay
use tui_tetris.Session.Fresh.{IsFresh, after_inputs, session-IsFresh}
use tui_tetris.Session.Replay.Verify.{record_tape-verifies}
use tui_tetris.Session.Replay.Mismatch.{
  FirstMismatch, replay-FirstMismatch, minimal_failure_prefix-mismatched,
}
use tui_tetris.Session.Replay.{
  record_tape, inputs_of, minimal_failure_prefix, verified, ReplayTape, ReplayMismatch, mismatched,
  Verdict, replay_and_verify,
}
use tui_tetris.Game.Snapshot.{default_snapshot, snapshot, snapshot_board_into, GameSnapshot}
use tui_tetris.Session.Cache.{CachedSession, SnapshotStore}

abbrev one_drop : StepInput
one_drop = record { remote = []; local = hard_drop ∷ [] }

-- A restart with another seed and a drop, in one step.
abbrev again : StepInput
again = record { remote = batch (restart ∷ hard_drop ∷ []) (some 9) ∷ []; local = [] }

-- The bottom row of the game's board and that of the snapshot's.
abbrev bottoms : CachedSession × Transition → List (List ℕ)
bottoms r =
    get_or (write_u8_grid r.0.runtime.game.board) 19 []
    ∷ get_or r.0.snapshots.snapshot.board 19 []
    ∷ []

abbrev shown : Run (List (List ℕ))
shown = Cache.new 3 >>= λ (c : CachedSession).
    Cache.transition c one_drop >>= λ (r : CachedSession × Transition).
    Cache.transition r.0 again >>= λ (q : CachedSession × Transition). ret (bottoms q)

-- The game locked its second piece on a new board, but the snapshot still shows the first board:
-- both boards have the id 1.
stale_snapshot :
    shown
    ≡ ret (
        (0 ∷ 0 ∷ 0 ∷ 7 ∷ 7 ∷ 7 ∷ 0 ∷ 0 ∷ 0 ∷ 0 ∷ [])
        ∷ (0 ∷ 0 ∷ 0 ∷ 1 ∷ 1 ∷ 1 ∷ 1 ∷ 0 ∷ 0 ∷ 0 ∷ [])
        ∷ [])
unfolding Rng.next_u32 Rng.next_range Rng.shuffle_from Rng.shuffle Rng.refill_bag Rng.new Rng.peek
    Rng.copy_bag Rng.copy_next Rng.peek_5 Rng.draw Board.index Board.get Board.set_cell
    Board.is_valid Board.is_occupied Board.is_row_full Board.clear_row Board.find_full_rows
    Board.clear_rows Board.clear_full_rows Board.lock_cells Board.lock_piece Board.write_u8_grid
    State.piece_is_valid State.piece_is_grounded State.new State.consume State.spawn_piece
    State.start State.drop_interval_ms State.is_grounded Moves.handle_lock_reset Moves.can_move
    Moves.try_move Moves.can_drop Moves.drop_loop Moves.ghost_loop Moves.ghost_y Locking.t_spin_kind
    Locking.score_clear Locking.apply_line_clear Locking.spawn_next Locking.finish_lock
    Locking.lock_piece Locking.hard_drop Actions.swap_hold Actions.hold_with Actions.hold_piece
    Actions.gravity Actions.tick_soft_drop Actions.tick_lock Actions.tick_piece
    Actions.tick_counters Actions.tick_active Actions.tick Actions.restart_with_seed
    Actions.soft_drop_step Actions.hard_drop_step Actions.toggle_pause Actions.dispatch
    Actions.apply_action Actions.take_last_event Scoring.calculate_line_score
    Scoring.calculate_tspin_score Scoring.calculate_combo_bonus Scoring.qualifies_for_b2b
    Scoring.apply_b2b_multiplier Scoring.base_points Scoring.calculate_score
    Scoring.calculate_drop_score Scoring.calculate_level Scoring.get_drop_interval_ms
    Runtime.apply_ignored Runtime.apply_all Runtime.apply_batch Runtime.apply_game_command
    Runtime.apply_commands Runtime.finish_step Runtime.transition Pieces.get_shape Cache.refresh
    Cache.from_runtime Cache.new Cache.transition Snapshot.write Snapshot.write_all
    Snapshot.snapshot_board_into Snapshot.snapshot_meta_into
stale_snapshot = refl

-- A tape whose only hash is wrong.
abbrev bad_tape : ReplayTape
bad_tape = record {
  seed = 3;
  records = record { step = 0; input = one_drop; state_hash = 0 } ∷ [];
  final_snapshot = default_snapshot;
}

abbrev mismatch : ReplayMismatch
mismatch = record { step = 0; expected = 0; actual = 6785479493403088640 }

bad_tape-mismatch : replay_and_verify bad_tape ≡ ret (mismatched mismatch)
unfolding Rng.next_u32 Rng.next_range Rng.shuffle_from Rng.shuffle Rng.refill_bag Rng.new Rng.peek
    Rng.copy_bag Rng.copy_next Rng.peek_5 Rng.draw Board.index Board.get Board.set_cell
    Board.is_valid Board.is_occupied Board.is_row_full Board.clear_row Board.find_full_rows
    Board.clear_rows Board.clear_full_rows Board.lock_cells Board.lock_piece Board.write_u8_grid
    State.piece_is_valid State.piece_is_grounded State.new State.consume State.spawn_piece
    State.start State.drop_interval_ms State.is_grounded Moves.handle_lock_reset Moves.can_move
    Moves.try_move Moves.can_drop Moves.drop_loop Moves.ghost_loop Moves.ghost_y Locking.t_spin_kind
    Locking.score_clear Locking.apply_line_clear Locking.spawn_next Locking.finish_lock
    Locking.lock_piece Locking.hard_drop Actions.swap_hold Actions.hold_with Actions.hold_piece
    Actions.gravity Actions.tick_soft_drop Actions.tick_lock Actions.tick_piece
    Actions.tick_counters Actions.tick_active Actions.tick Actions.restart_with_seed
    Actions.soft_drop_step Actions.hard_drop_step Actions.toggle_pause Actions.dispatch
    Actions.apply_action Actions.take_last_event Scoring.calculate_line_score
    Scoring.calculate_tspin_score Scoring.calculate_combo_bonus Scoring.qualifies_for_b2b
    Scoring.apply_b2b_multiplier Scoring.base_points Scoring.calculate_score
    Scoring.calculate_drop_score Scoring.calculate_level Scoring.get_drop_interval_ms
    Runtime.apply_ignored Runtime.apply_all Runtime.apply_batch Runtime.apply_game_command
    Runtime.apply_commands Runtime.finish_step Runtime.transition Pieces.get_shape Cache.refresh
    Cache.from_runtime Cache.new Cache.transition Snapshot.write Snapshot.write_all
    Snapshot.snapshot_board_into Snapshot.snapshot_meta_into Snapshot.stable_state_hash
    Replay.transition_hash Replay.verify_steps Replay.replay_and_verify
bad_tape-mismatch = refl

replay-FirstMismatch_example :
    (c : CachedSession) × ((Cache.new 3 ≡ ret c) × FirstMismatch 0 c bad_tape.records mismatch)
replay-FirstMismatch_example = replay-FirstMismatch bad_tape mismatch (tt, tt) bad_tape-mismatch

minimal_failure_prefix-mismatched_example :
    Returns (minimal_failure_prefix bad_tape mismatch) (λ prefix.
      (replay_and_verify prefix ≡ ret (mismatched mismatch)) × (length prefix.records ≡ 1))
minimal_failure_prefix-mismatched_example =
    minimal_failure_prefix-mismatched bad_tape mismatch (tt, tt) bad_tape-mismatch

-- A drop, and then a restart and a drop in one step.
record_tape-verifies_example : Returns (record_tape 3 (one_drop ∷ again ∷ [])) (λ tape.
    (tape.seed ≡ 3)
    × (inputs_of tape.records ≡ one_drop ∷ again ∷ [])
    × (c : CachedSession) × ((replay_and_verify tape ≡ ret (verified c))
        × (c.snapshots.snapshot ≡ tape.final_snapshot)))
record_tape-verifies_example = record_tape-verifies 3 (one_drop ∷ again ∷ []) (tt, ((tt, tt), tt))

-- A placement and a batch of the clients, and two actions of the player.
abbrev mixed : StepInput
mixed = record {
  remote = place 3 north false ∷ batch (move_left ∷ hard_drop ∷ []) none ∷ [];
  local = move_left ∷ hard_drop ∷ [];
}

session-IsFresh_example :
    Returns (Cache.new 3 >>= λ (c : CachedSession). after_inputs c (one_drop ∷ mixed ∷ [])) IsFresh
session-IsFresh_example = session-IsFresh 3 (one_drop ∷ mixed ∷ []) (
  record { commands = tt; remote = tt; local = (refl, tt); few = omega arith },
  (
    record {
      commands = (omega arith, (tt, tt));
      remote = ((refl, (refl, tt)), tt);
      local = (refl, (refl, tt));
      few = omega arith;
    },
    tt,
  ),
)
