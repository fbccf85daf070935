-- ===== src/Adapter/Server.antt =====
-- crates/tetris-adapter/src/adapter/server.rs: what the task of a client does with a message. The
-- blocks that take the lock follow each other at once here; the texts of the errors are left out.
pub mod Preserves
pub mod Steps
pub mod Blocks
pub mod Control
pub mod Order
pub mod Answers
pub mod Once
pub mod Welcome
use tui_tetris.Prelude.{ℕ, ◌+◌, Bool, true, false, not, ◌&&◌, Option, none, some, List, [], ◌∷◌}
use tui_tetris.Prelude.{◌==◌, if◌then◌else◌}
use tui_tetris.Session.Runtime.{GameCommand}
use tui_tetris.Adapter.Protocol.{
  HelloMessage, CommandMessage, ControlMessage, ControlAction, claim, release, ParsedMessage, hello,
  command, control, unknown, AssignedRole, ErrorCode, handshake_required, protocol_mismatch,
  not_controller, controller_active, invalid_command, create_welcome, create_ack, create_error,
  create_backpressure_error,
}
use tui_tetris.Adapter.Observation.{ClientOutbound, ack, error, welcome}
use tui_tetris.Adapter.Commands.{Mapped, ok, err, map_command}
use tui_tetris.Adapter.Version.{is_compatible_protocol_version}
use tui_tetris.Adapter.Broker.{
  BrokerState, add_client, is_controller, is_handshaken, check_and_update_seq, mark_handshaken,
  clear_stale_controller, assign_role, role_or_auto, remove_and_promote, find_client,
}

pub data InboundPayload : Type 0 where
  game_command : GameCommand → InboundPayload
  snapshot_request : InboundPayload

-- The responder is that of the client `client_id`.
pub record InboundCommand : Type 0 where
  pub client_id : ℕ
  pub seq : ℕ
  pub payload : InboundPayload

-- What the channels of tokio say while a message is handled: which clients are live, whether the
-- queue of the game loop takes a command, and whether it still has a receiver.
pub record Channels : Type 0 where
  pub live : ℕ → Bool
  pub has_room : Bool
  pub is_open : Bool

-- The broker after a message, the replies offered to the client, what went into the queue of the
-- game loop, and whether the loop of the task goes on.
pub record Handled : Type 0 where
  pub broker : BrokerState
  pub replies : List ClientOutbound
  pub forwarded : List InboundCommand
  pub goes_on : Bool

abbrev pub backpressure_retry_after_ms : ℕ
backpressure_retry_after_ms = 50

abbrev pub replied : BrokerState → ClientOutbound → Handled
replied b reply = record { broker = b; replies = reply ∷ []; forwarded = []; goes_on = true }

abbrev pub refused : BrokerState → ℕ → ErrorCode → Handled
refused b seq code = replied b (error (create_error seq code))

-- `enforce_strict_seq` before the rest of a handler.
abbrev pub enforce_strict_seq : BrokerState → ℕ → ℕ → (BrokerState → Handled) → Handled
enforce_strict_seq b id seq rest =
    let checked = check_and_update_seq b id seq in
    if checked.1 then rest checked.0 else refused checked.0 seq invalid_command

abbrev pub enforce_handshake_and_seq : BrokerState → ℕ → ℕ → (BrokerState → Handled) → Handled
enforce_handshake_and_seq b id seq rest =
    if is_handshaken b id
    then enforce_strict_seq b id seq rest
    else refused b seq handshake_required

-- A handler that has a strict sequence number once the client has said hello.
abbrev pub enforce_seq_if_handshaken : BrokerState → ℕ → ℕ → (BrokerState → Handled) → Handled
enforce_seq_if_handshaken b id seq rest =
    if is_handshaken b id then enforce_strict_seq b id seq rest else rest b

module _ (env : Channels) (id : ℕ) where
  -- The welcome, and the request of a snapshot for a client that streams.
  unfoldable pub send_welcome : HelloMessage → BrokerState × AssignedRole → Handled
  send_welcome msg assigned = record {
    broker = assigned.0;
    replies = welcome (create_welcome msg.seq id assigned.1 assigned.0.controller_id) ∷ [];
    forwarded =
        if msg.requested.stream_observations && env.is_open
        then record { client_id = id; seq = msg.seq; payload = snapshot_request } ∷ []
        else [];
    goes_on = if msg.requested.stream_observations then env.is_open else true;
  }

  unfoldable pub accept_hello : HelloMessage → BrokerState → Handled
  accept_hello msg b =
      if not (is_compatible_protocol_version msg.protocol_version)
      then record (refused b msg.seq protocol_mismatch) { goes_on = false }
      else if not msg.json
      then refused b msg.seq invalid_command
      else send_welcome msg (
          assign_role env.live (mark_handshaken b id msg.seq msg.requested) id
            (role_or_auto msg.requested.role))

  unfoldable pub handle_hello : HelloMessage → BrokerState → Handled
  handle_hello msg b =
      if msg.seq == 1
      then enforce_seq_if_handshaken b id msg.seq (accept_hello msg)
      else refused b msg.seq invalid_command

  -- `try_send` to the queue of the game loop.
  unfoldable pub forward_command : ℕ → GameCommand → BrokerState → Handled
  forward_command seq c b =
      if env.has_room && env.is_open
      then record {
        broker = b;
        replies = [];
        forwarded = record { client_id = id; seq = seq; payload = game_command c } ∷ [];
        goes_on = true;
      }
      else replied b (error (create_backpressure_error seq backpressure_retry_after_ms))

  abbrev pub forward_mapped : ℕ → BrokerState → Mapped GameCommand → Handled
  forward_mapped seq b (err code) = refused b seq code
  forward_mapped seq b (ok c) = forward_command seq c b

  unfoldable pub accept_command : CommandMessage → BrokerState → Handled
  accept_command msg b =
      if is_controller b id
      then forward_mapped msg.seq b (map_command msg)
      else refused b msg.seq not_controller

  unfoldable pub handle_command : CommandMessage → BrokerState → Handled
  handle_command msg b = enforce_handshake_and_seq b id msg.seq (accept_command msg)

  -- The claim, for a controller, after stale ones are cleared.
  abbrev pub claim_as : Option ℕ → ℕ → BrokerState → Handled
  claim_as none seq b = replied (record b { controller_id = some id }) (ack (create_ack seq seq))
  claim_as (some c) seq b =
      if c == id then replied b (ack (create_ack seq seq)) else refused b seq controller_active

  abbrev pub claim_cleared : ℕ → BrokerState → Handled
  claim_cleared seq b = claim_as b.controller_id seq b

  abbrev pub accept_claim : ℕ → BrokerState → Handled
  accept_claim seq b = claim_cleared seq (clear_stale_controller env.live b)

  unfoldable pub accept_release : ℕ → BrokerState → Handled
  accept_release seq b =
      if is_controller b id
      then replied (record b { controller_id = none }) (ack (create_ack seq seq))
      else refused b seq not_controller

  abbrev pub control_as : ControlAction → ℕ → BrokerState → Handled
  control_as claim seq b = enforce_handshake_and_seq b id seq (accept_claim seq)
  control_as release seq b = enforce_handshake_and_seq b id seq (accept_release seq)

  unfoldable pub handle_control : ControlMessage → BrokerState → Handled
  handle_control msg b = control_as msg.action msg.seq b

  unfoldable pub handle_unknown : ℕ → BrokerState → Handled
  handle_unknown seq b = enforce_seq_if_handshaken b id seq (λ b'. refused b' seq invalid_command)

  -- A line that is no message is answered with the number found in it, if any.
  unfoldable pub handle_malformed : Option ℕ → BrokerState → Handled
  handle_malformed none b = refused b 0 invalid_command
  handle_malformed (some seq) b = refused b seq invalid_command

  unfoldable pub handle_message : ParsedMessage → BrokerState → Handled
  handle_message (hello msg) b = handle_hello msg b
  handle_message (command msg) b = handle_command msg b
  handle_message (control msg) b = handle_control msg b
  handle_message (unknown seq) b = handle_unknown seq b
