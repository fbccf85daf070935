-- ===== src/Session/Cache.antt =====
-- crates/tetris-session/src/engine/session.rs: the snapshot cache of a session.
-- The `changed` flag of a transition, which compares two snapshots, is left out.
use tui_tetris.Prelude.{ℕ, Bool, false, Option, none, some, Run, ret, ◌>>=◌, ◌==◌, if◌then◌else◌}
use tui_tetris.Game.State.{GameState}
use tui_tetris.Game.Snapshot.{
  GameSnapshot, default_snapshot, snapshot_board_into, snapshot_meta_into,
}
use tui_tetris.Session.Runtime
use tui_tetris.Session.Runtime.{SessionRuntime, StepInput, Transition}

pub record SnapshotStore : Type 0 where
  pub snapshot : GameSnapshot
  pub board_id : Option ℕ

-- `self.board_id != Some(id)`, negated.
abbrev pub is_cached : Option ℕ → ℕ → Bool
is_cached none id = false
is_cached (some cached) id = cached == id

abbrev pub store_of : GameState → GameSnapshot → SnapshotStore
store_of s out = record { snapshot = out; board_id = some s.board_id }

-- The part of `refresh` after the board.
abbrev pub refresh_meta : GameState → GameSnapshot → Run SnapshotStore
refresh_meta s board = snapshot_meta_into s board >>= λ (out : GameSnapshot). ret (store_of s out)

unfoldable pub refresh : SnapshotStore → GameState → Run SnapshotStore
refresh store s = refresh_meta s (
    if is_cached store.board_id s.board_id
    then store.snapshot
    else snapshot_board_into s store.snapshot)

abbrev pub empty_store : SnapshotStore
empty_store = record { snapshot = default_snapshot; board_id = none }

-- `SnapshotStore::new`.
abbrev pub new_store : GameState → Run SnapshotStore
new_store s = refresh empty_store s

-- A `SessionRuntime` of the source: the game and the step count, and the snapshot cache.
pub record CachedSession : Type 0 where
  pub runtime : SessionRuntime
  pub snapshots : SnapshotStore

unfoldable pub from_runtime : SessionRuntime → Run CachedSession
from_runtime runtime = new_store runtime.game >>= λ (store : SnapshotStore).
    ret (record { runtime = runtime; snapshots = store })

-- `SessionRuntime::new` and `SessionRuntime::from_game`.
unfoldable pub new : ℕ → Run CachedSession
new seed = from_runtime (Runtime.new_session seed)

unfoldable pub from_game : GameState → Run CachedSession
from_game s = from_runtime (record { game = s; logical_step = 0 })

-- `SessionRuntime::transition`, less its `changed` flag.
unfoldable pub transition : CachedSession → StepInput → Run (CachedSession × Transition)
transition c input = Runtime.transition c.runtime input >>= λ (r : SessionRuntime × Transition).
    refresh c.snapshots r.0.game >>= λ (store : SnapshotStore).
    ret (record { runtime = r.0; snapshots = store }, r.1)
