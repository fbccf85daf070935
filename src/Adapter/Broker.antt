-- ===== src/Adapter/Broker.antt =====
-- crates/tetris-adapter/src/adapter/server.rs: the state that the tasks of all clients share, and
-- the operations that a task does on it under the lock. The address and the channels of a client are
-- left out; `live` says of which clients the outbound channel is live at the time.
pub mod Clients
pub mod Promotion
use tui_tetris.Prelude.{
  ℕ, Bool, true, false, not, ◌&&◌, Option, none, some, List, [], ◌∷◌, ◌++◌, map, any,
}
use tui_tetris.Prelude.{leb, min, count_if, ◌==◌, if◌then◌else◌}
use tui_tetris.Types.{find}
use tui_tetris.Adapter.Protocol.{
  RequestedRole, auto, controller, observer, AssignedRole, as_controller, as_observer, CommandMode,
  action_mode, RequestedCapabilities,
}

pub record ClientHandle : Type 0 where
  pub id : ℕ
  pub requested_role : RequestedRole
  pub command_mode : CommandMode
  pub stream_observations : Bool
  pub handshaken : Bool
  pub last_seq : Option ℕ

pub record BrokerState : Type 0 where
  pub clients : List ClientHandle
  pub controller_id : Option ℕ

abbrev pub empty_broker : BrokerState
empty_broker = record { clients = []; controller_id = none }

-- `o == Some(id)`.
abbrev pub is_id : Option ℕ → ℕ → Bool
is_id none id = false
is_id (some c) id = c == id

abbrev pub is_controller : BrokerState → ℕ → Bool
is_controller b id = is_id b.controller_id id

abbrev pub find_client : List ClientHandle → ℕ → Option ClientHandle
find_client clients id = find (λ c. c.id == id) clients

-- A change of the client that `find` finds.
unfoldable pub update_client :
    (ClientHandle → ClientHandle) → ℕ → List ClientHandle → List ClientHandle
update_client f id [] = []
update_client f id (c ∷ clients) =
    let rest = update_client f id clients in if c.id == id then f c ∷ clients else c ∷ rest

-- The push of a client whose task starts.
abbrev pub new_client : ℕ → ClientHandle
new_client id = record {
  id = id;
  requested_role = auto;
  command_mode = action_mode;
  stream_observations = false;
  handshaken = false;
  last_seq = none;
}

unfoldable pub add_client : BrokerState → ℕ → BrokerState
add_client b id = record b { clients = b.clients ++ new_client id ∷ [] }

abbrev pub handshaken_of : Option ClientHandle → Bool
handshaken_of none = false
handshaken_of (some c) = c.handshaken

abbrev pub is_handshaken : BrokerState → ℕ → Bool
is_handshaken b id = handshaken_of (find_client b.clients id)

abbrev pub set_last_seq : ℕ → ClientHandle → ClientHandle
set_last_seq seq c = record c { last_seq = some seq }

abbrev pub with_clients : BrokerState → List ClientHandle → BrokerState
with_clients b clients = record b { clients = clients }

-- Whether a sequence number may follow the last one.
abbrev pub seq_follows : Option ℕ → ℕ → Bool
seq_follows none seq = true
seq_follows (some prev) seq = not (leb seq prev)

abbrev pub check_found : BrokerState → ℕ → ℕ → Option ClientHandle → BrokerState × Bool
check_found b id seq none = (b, true)
check_found b id seq (some c) =
    if seq_follows c.last_seq seq
    then (with_clients b (update_client (set_last_seq seq) id b.clients), true)
    else (b, false)

abbrev pub check_and_update_seq : BrokerState → ℕ → ℕ → BrokerState × Bool
check_and_update_seq b id seq = check_found b id seq (find_client b.clients id)

-- `hello.requested.role.unwrap_or(RequestedRole::Auto)`.
abbrev pub role_or_auto : Option RequestedRole → RequestedRole
role_or_auto none = auto
role_or_auto (some r) = r

abbrev pub greeted : ℕ → RequestedCapabilities → ClientHandle → ClientHandle
greeted seq requested c = record c {
  handshaken = true;
  last_seq = some seq;
  requested_role = role_or_auto requested.role;
  command_mode = requested.command_mode;
  stream_observations = requested.stream_observations;
}

-- The block of a hello that marks the client.
abbrev pub mark_handshaken : BrokerState → ℕ → ℕ → RequestedCapabilities → BrokerState
mark_handshaken b id seq requested =
    with_clients b (update_client (greeted seq requested) id b.clients)

abbrev pub is_observer : RequestedRole → Bool
is_observer observer = true
is_observer _ = false

abbrev pub clear_stale_controller_id : Option ℕ → (ℕ → Bool) → Option ℕ
clear_stale_controller_id none is_live = none
clear_stale_controller_id (some id) is_live = if is_live id then some id else none

-- The block of a hello that assigns a role, for a controller; it goes into the welcome.
abbrev pub assign_as : Option ℕ → BrokerState → ℕ → RequestedRole → BrokerState × AssignedRole
assign_as (some c) b id role = if c == id then (b, as_controller) else (b, as_observer)
assign_as none b id role =
    if is_observer role
    then (b, as_observer)
    else (record b { controller_id = some id }, as_controller)

abbrev pub assign_cleared : BrokerState → ℕ → RequestedRole → BrokerState × AssignedRole
assign_cleared b id role = assign_as b.controller_id b id role

-- `retain` of the clients with another id.
unfoldable pub remove_client : ℕ → List ClientHandle → List ClientHandle
remove_client id [] = []
remove_client id (c ∷ clients) =
    let rest = remove_client id clients in if c.id == id then rest else c ∷ rest

pub record AdapterStatus : Type 0 where
  pub client_count : ℕ
  pub controller_id : Option ℕ
  pub streaming_count : ℕ

module _ (live : ℕ → Bool) where
  -- A client is connected and its channel live.
  abbrev pub is_live_client : BrokerState → ℕ → Bool
  is_live_client b id = any (λ c. c.id == id && live c.id) b.clients

  abbrev pub clear_stale_controller : BrokerState → BrokerState
  clear_stale_controller b = record b {
    controller_id = clear_stale_controller_id b.controller_id (is_live_client b);
  }

  abbrev pub assign_role : BrokerState → ℕ → RequestedRole → BrokerState × AssignedRole
  assign_role b id role = assign_cleared (clear_stale_controller b) id role

  abbrev pub is_eligible : ClientHandle → Bool
  is_eligible c = live c.id && not (is_observer c.requested_role)

  -- `filter`, `map` and `min`.
  unfoldable pub least_eligible : List ClientHandle → Option ℕ
  least_eligible [] = none
  least_eligible (c ∷ clients) =
      let rest = least_eligible clients in
      if is_eligible c
      then elim rest [ none ↦ some c.id | some m ↦ some (if leb c.id m then c.id else m) ]
      else rest

  unfoldable pub remove_and_promote : BrokerState → ℕ → BrokerState
  remove_and_promote b id =
      let clients = remove_client id b.clients in
      record {
        clients = clients;
        controller_id = if is_controller b id then least_eligible clients else b.controller_id;
      }

  -- `AdapterStatus`, as `emit_status` computes it; the counts are u16.
  unfoldable pub status_of : BrokerState → AdapterStatus
  status_of b = record {
    client_count = min (count_if (λ c. live c.id) b.clients) 65535;
    controller_id = clear_stale_controller_id b.controller_id (is_live_client b);
    streaming_count = min (count_if (λ c. c.stream_observations && live c.id) b.clients) 65535;
  }
