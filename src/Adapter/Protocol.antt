-- ===== src/Adapter/Protocol.antt =====
-- crates/tetris-adapter-protocol/src/protocol.rs: the messages of the protocol, after parsing and
-- before printing, which serde does. The type tags, the time stamps, the texts of errors, the name
-- and version of a client and the constant capabilities of a welcome are left out.
use tui_tetris.Prelude.{ℕ, Bool, Option, none, some, List, max}
use tui_tetris.Types.{GameAction}

pub data RequestedRole : Type 0 where
  auto controller observer : RequestedRole

pub data AssignedRole : Type 0 where
  as_controller as_observer : AssignedRole

pub data CommandMode : Type 0 where
  action_mode place_mode : CommandMode

pub data ControlAction : Type 0 where
  claim release : ControlAction

pub data ErrorCode : Type 0 where
  handshake_required protocol_mismatch not_controller controller_active invalid_command
        invalid_place hold_unavailable snapshot_required backpressure :
      ErrorCode

pub record RequestedCapabilities : Type 0 where
  pub stream_observations : Bool
  pub command_mode : CommandMode
  pub role : Option RequestedRole

-- `json` is the only field of `formats`.
pub record HelloMessage : Type 0 where
  pub seq : ℕ
  pub protocol_version : List ℕ
  pub json : Bool
  pub requested : RequestedCapabilities

-- The column is an i8, the rotation a text.
pub record PlaceCommand : Type 0 where
  pub x : ℕ
  pub rotation : List ℕ
  pub use_hold : Bool

-- An `ActionName` is an action of the game of the same name. `restart` is the seed, a u64.
pub record CommandMessage : Type 0 where
  pub seq : ℕ
  pub mode : CommandMode
  pub actions : Option (List GameAction)
  pub place : Option PlaceCommand
  pub restart : Option ℕ

pub record ControlMessage : Type 0 where
  pub seq : ℕ
  pub action : ControlAction

pub data ParsedMessage : Type 0 where
  hello : HelloMessage → ParsedMessage
  command : CommandMessage → ParsedMessage
  control : ControlMessage → ParsedMessage
  unknown : (seq : ℕ) → ParsedMessage

pub record WelcomeMessage : Type 0 where
  pub seq : ℕ
  pub client_id : ℕ
  pub role : AssignedRole
  pub controller_id : Option ℕ

pub record AckMessage : Type 0 where
  pub seq : ℕ
  pub correlation_seq : ℕ
  pub applied_step : Option ℕ
  pub state_hash : Option ℕ

pub record ErrorMessage : Type 0 where
  pub seq : ℕ
  pub code : ErrorCode
  pub retry_after_ms : Option ℕ

abbrev pub create_welcome : ℕ → ℕ → AssignedRole → Option ℕ → WelcomeMessage
create_welcome seq client_id role controller_id = record {
  seq = seq;
  client_id = client_id;
  role = role;
  controller_id = controller_id;
}

abbrev pub create_ack : ℕ → ℕ → AckMessage
create_ack seq correlation_seq = record {
  seq = seq;
  correlation_seq = correlation_seq;
  applied_step = none;
  state_hash = none;
}

abbrev pub create_applied_ack : ℕ → ℕ → ℕ → ℕ → AckMessage
create_applied_ack seq correlation_seq applied_step state_hash = record {
  seq = seq;
  correlation_seq = correlation_seq;
  applied_step = some applied_step;
  state_hash = some state_hash;
}

abbrev pub create_error : ℕ → ErrorCode → ErrorMessage
create_error seq code = record { seq = seq; code = code; retry_after_ms = none }

abbrev pub create_backpressure_error : ℕ → ℕ → ErrorMessage
create_backpressure_error seq retry_after_ms = record {
  seq = seq;
  code = backpressure;
  retry_after_ms = some (max retry_after_ms 1);
}
