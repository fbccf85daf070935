-- ===== src/Adapter/Server/Blocks.antt =====
-- crates/tetris-adapter/src/adapter/server.rs: the accept loop and the tasks of the clients, by the
-- blocks that take the lock of the broker. Each block runs at once; between two blocks of a message
-- those of other tasks may run.
pub mod Kept
pub mod Unique
use tui_tetris.Prelude.{ℕ, ◌+◌, ◌%◌, ◌≤◌, Bool, List, [], ◌∷◌, count_if}
use tui_tetris.Prelude.{◌==◌, if◌then◌else◌, u64_mod}
use tui_tetris.Adapter.Protocol.{RequestedCapabilities, RequestedRole}
use tui_tetris.Adapter.Broker.{
  BrokerState, empty_broker, add_client, check_and_update_seq, mark_handshaken, assign_role,
  remove_and_promote,
}
use tui_tetris.Adapter.Server.{Channels, accept_claim, accept_release}

-- The counter of the accept loop, the ids of the tasks that have not put their client into the broker
-- yet and of those that have and have not taken it out, and the broker.
pub record ServerTasks : Type 0 where
  pub client_id_counter : ℕ
  pub starting : List ℕ
  pub running : List ℕ
  pub broker : BrokerState

abbrev pub no_tasks : ServerTasks
no_tasks = record { client_id_counter = 0; starting = []; running = []; broker = empty_broker }

-- A connection is accepted: the counter, a usize, goes up and gives the id of the new task.
unfoldable pub accept : ServerTasks → ServerTasks
accept t =
    let client_id = (t.client_id_counter + 1) % u64_mod in
    record t { client_id_counter = client_id; starting = client_id ∷ t.starting }

abbrev pub without : ℕ → List ℕ → List ℕ
without id [] = []
without id (k ∷ ids) = if k == id then without id ids else k ∷ without id ids

-- The first block of a task, the push of its client.
unfoldable pub push_client : ℕ → ServerTasks → ServerTasks
push_client id t = record t {
  starting = without id t.starting;
  running = id ∷ t.running;
  broker = add_client t.broker id;
}

-- Its last block.
unfoldable pub end_task : (ℕ → Bool) → ℕ → ServerTasks → ServerTasks
end_task live id t = record t {
  running = without id t.running;
  broker = remove_and_promote live t.broker id;
}

-- The blocks between them that write to the broker.
pub data LockBlock : Type 0 where
  check_seq : (seq : ℕ) → LockBlock
  mark : (seq : ℕ) (requested : RequestedCapabilities) → LockBlock
  assign : (role : RequestedRole) → LockBlock
  take_control : (seq : ℕ) → LockBlock
  give_control : (seq : ℕ) → LockBlock

unfoldable pub run_block : Channels → ℕ → LockBlock → BrokerState → BrokerState
run_block env id (check_seq seq) b = (check_and_update_seq b id seq).0
run_block env id (mark seq requested) b = mark_handshaken b id seq requested
run_block env id (assign role) b = (assign_role env.live b id role).0
run_block env id (take_control seq) b = (accept_claim env id seq b).broker
run_block env id (give_control seq) b = (accept_release env id seq b).broker

-- How many tasks of a list have an id.
abbrev pub tasks_of : ℕ → List ℕ → ℕ
tasks_of id ids = count_if (λ k. k == id) ids

-- What the server reaches with `n` connections accepted. Any task may run its next block at any time.
pub data Blocks : ℕ → ServerTasks → Type 0 where
  begins : Blocks 0 no_tasks
  accepts : (n : ℕ) (t : ServerTasks) → Blocks n t → Blocks (n + 1) (accept t)
  pushes :
      (n : ℕ) (t : ServerTasks) (id : ℕ)
      → Blocks n t
      → 1 ≤ tasks_of id t.starting
      → Blocks n (push_client id t)
  runs :
      (n : ℕ) (t : ServerTasks) (env : Channels) (id : ℕ) (block : LockBlock)
      → Blocks n t
      → 1 ≤ tasks_of id t.running
      → Blocks n (record t { broker = run_block env id block t.broker })
  ends :
      (n : ℕ) (t : ServerTasks) (live : ℕ → Bool) (id : ℕ)
      → Blocks n t
      → 1 ≤ tasks_of id t.running
      → Blocks n (end_task live id t)
