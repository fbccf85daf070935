-- ===== src/Tests/Brokers.antt =====
-- The server, its commands and the game loop at concrete inputs.
use tui_tetris.Prelude.{
  ℕ, ◌≡◌, refl, ◌<◌, ◌↔◌, true, false, Option, none, some, [], ◌∷◌, arith, Returns, split,
  split_once, parse_unsigned, parse_number, parse_digits,
}
use tui_tetris.Types.{codes, move_left, hard_drop}
use tui_tetris.Session.Runtime.{batch}
use tui_tetris.Session.Cache.{CachedSession}
use tui_tetris.Session.Replay.Verify.{new-Returns}
use tui_tetris.Adapter.Protocol.{
  RequestedRole, auto, observer, AssignedRole, as_controller, action_mode, claim, HelloMessage,
  CommandMessage, ParsedMessage, command, control, create_welcome,
}
use tui_tetris.Adapter.Commands.{ok, map_command}
use tui_tetris.Adapter.Commands
use tui_tetris.Adapter.Commands.Maps.{Maps, map_command_iff}
use tui_tetris.Adapter.Observation.{welcome}
use tui_tetris.Adapter.Broker.{
  ClientHandle, BrokerState, empty_broker, new_client, add_client, remove_client,
  remove_and_promote, is_controller,
}
use tui_tetris.Adapter.Broker
use tui_tetris.Adapter.Server.{
  Channels, InboundCommand, game_command, snapshot_request, handle_message, handle_hello,
  handle_command,
}
use tui_tetris.Adapter.Server
use tui_tetris.Adapter.Version
use tui_tetris.Adapter.Server.Steps.{connects, receives, on_connect, on_receive, done, next}
use tui_tetris.Adapter.Server.Blocks.{
  ServerTasks, no_tasks, accept, push_client, end_task, run_block, take_control, begins, accepts,
  pushes, runs, ends,
}
use tui_tetris.Adapter.Server.Blocks.Unique.{IsServer, Blocks-IsServer}
use tui_tetris.Adapter.Server.Control.{Controls, Steps-Controls}
use tui_tetris.Adapter.Server.Order.{forwarded-increases}
use tui_tetris.Adapter.Server.Answers.{MayPass, handle_command-forwarded_iff}
use tui_tetris.Adapter.Server.Once.{IsAnswered, handle_message-IsAnswered}
use tui_tetris.Adapter.Server.Welcome.{is_role, handle_hello-welcomes, handle_hello-controller}
use tui_tetris.Adapter.Schedule
use tui_tetris.Adapter.Loop.{LoopState, step_session}
use tui_tetris.Adapter.Loop.Replies.{Served, step_session-Served}
use tui_tetris.Adapter.Lines.{read_bounded_line, line}
use tui_tetris.Adapter.Lines
use tui_tetris.Adapter.Lines.Chunks.{as_line, first_line, flat, read_bounded_line-first_line}

abbrev open_channels : Channels
open_channels = record { live = λ id. true; has_room = true; is_open = true }

abbrev hello_message : RequestedRole → HelloMessage
hello_message role = record {
  seq = 1;
  protocol_version = codes "3.0.0";
  json = true;
  requested = record { stream_observations = true; command_mode = action_mode; role = some role };
}

abbrev client : ℕ → Option ℕ → ClientHandle
client id last_seq = record {
  id = id;
  requested_role = auto;
  command_mode = action_mode;
  stream_observations = false;
  handshaken = true;
  last_seq = last_seq;
}

-- Client 1 controls the game; client 2 has connected.
abbrev two_clients : BrokerState
two_clients = record { clients = client 1 (some 1) ∷ new_client 2 ∷ []; controller_id = some 1 }

abbrev move_message : ℕ → CommandMessage
move_message seq = record {
  seq = seq;
  mode = action_mode;
  actions = some (move_left ∷ []);
  place = none;
  restart = none;
}

abbrev moved : ℕ → InboundCommand
moved seq = record {
  client_id = 1;
  seq = seq;
  payload = game_command (batch (move_left ∷ []) none);
}

-- The version is compared as a text.
versions :
    (Version.is_compatible_protocol_version (codes "3.1.0-rc.1+build.7") ≡ true)
    × (Version.is_compatible_protocol_version (codes "3.01.0") ≡ false)
    × (Version.is_compatible_protocol_version (codes "2.1.0") ≡ false)
unfolding Version.is_compatible_protocol_version Version.valid_parts Version.valid_base
    Version.valid_core Version.valid_identifiers Version.parse_numeric split split_once
    parse_unsigned parse_number parse_digits
versions = (refl, refl, refl)

supported : Version.is_compatible_protocol_version (codes "3.0.0") ≡ true
unfolding Version.is_compatible_protocol_version Version.valid_parts Version.valid_base
    Version.valid_core Version.valid_identifiers Version.parse_numeric split split_once
    parse_unsigned parse_number parse_digits
supported = refl

map_command_iff_example :
    (map_command (move_message 2) ≡ ok (batch (move_left ∷ []) none))
    ↔ Maps (move_message 2) (batch (move_left ∷ []) none)
map_command_iff_example = map_command_iff (move_message 2) (batch (move_left ∷ []) none)

handle_command-forwarded_iff_example :
    ((handle_command open_channels 1 (move_message 2) two_clients).forwarded ≡ moved 2 ∷ [])
    ↔ MayPass open_channels 1 (move_message 2) two_clients (moved 2)
handle_command-forwarded_iff_example =
    handle_command-forwarded_iff open_channels 1 (move_message 2) (moved 2) two_clients

handle_message-IsAnswered_example :
    IsAnswered 2 (handle_message open_channels 1 (command (move_message 2)) two_clients)
handle_message-IsAnswered_example =
    handle_message-IsAnswered open_channels 1 (command (move_message 2)) two_clients

-- The second client to be accepted is the first to be pushed.
abbrev two_tasks : ServerTasks
two_tasks = push_client 1 (push_client 2 (accept (accept no_tasks)))

abbrev one_claims : ServerTasks
one_claims = record two_tasks {
  broker = run_block open_channels 1 (take_control 2) two_tasks.broker;
}

abbrev both_claim : ServerTasks
both_claim = record one_claims {
  broker = run_block open_channels 2 (take_control 2) one_claims.broker;
}

-- Two clients connect and claim at once, and the first leaves.
Blocks-IsServer_example :
    ((end_task (λ id. true) 1 both_claim).client_id_counter ≡ 2)
    × IsServer (end_task (λ id. true) 1 both_claim)
unfolding accept push_client
Blocks-IsServer_example =
    Blocks-IsServer 2 (end_task (λ id. true) 1 both_claim)
      (ends 2 both_claim (λ id. true) 1
        (runs 2 one_claims open_channels 2 (take_control 2)
          (runs 2 two_tasks open_channels 1 (take_control 2)
            (pushes 2 (push_client 2 (accept (accept no_tasks))) 1
              (pushes 2 (accept (accept no_tasks)) 2
                (accepts 1 (accept no_tasks) (accepts 0 no_tasks begins)) (omega arith))
              (omega arith))
            (omega arith))
          (omega arith))
        (omega arith))
      (omega arith)

-- Client 2 claims the control.
abbrev claim_message : ParsedMessage
claim_message = control (record { seq = 2; action = claim })

Steps-Controls_example :
    Controls 1 (handle_message open_channels 2 claim_message two_clients).broker
Steps-Controls_example =
    Steps-Controls 1 (receives open_channels 2 claim_message ∷ []) two_clients
      (handle_message open_channels 2 claim_message two_clients).broker
      (next (on_receive two_clients open_channels 2 claim_message (new_client 2) refl)
        (done (handle_message open_channels 2 claim_message two_clients).broker))
      ((ground arith, refl), tt) (refl, (client 1 (some 1), refl))

-- The broker after a first command.
abbrev after_move : BrokerState
after_move = (handle_message open_channels 1 (command (move_message 2)) two_clients).broker

forwarded-increases_example : 2 < 7
unfolding Server.handle_message Server.handle_command Server.accept_command Server.forward_command
    Commands.map_command Commands.map_actions Commands.push_actions Commands.map_seed
    Broker.update_client add_client
forwarded-increases_example =
    forwarded-increases open_channels open_channels 1 (move_message 2) (move_message 7)
      (connects 3 ∷ []) two_clients (add_client after_move 3) (moved 2) (moved 7) refl
      (next (on_connect after_move 3 refl) (done (add_client after_move 3))) tt refl

handle_hello-welcomes_example :
    (role : AssignedRole) × ((handle_hello open_channels 2 (hello_message auto) two_clients).replies
      ≡ welcome (
          create_welcome 1 2 role
            (handle_hello open_channels 2 (hello_message auto) two_clients).broker.controller_id)
        ∷ [])
    × (is_role role
        ≡ is_controller (handle_hello open_channels 2 (hello_message auto) two_clients).broker 2)
handle_hello-welcomes_example =
    handle_hello-welcomes open_channels 2 (hello_message auto) two_clients refl refl supported refl

-- Client 2 has been promoted before its hello.
abbrev promoted : BrokerState
promoted = record { clients = new_client 2 ∷ []; controller_id = some 2 }

promotion : remove_and_promote (λ id. true) two_clients 1 ≡ promoted
unfolding Broker.remove_and_promote Broker.remove_client Broker.least_eligible
promotion = refl

handle_hello-controller_example :
    (handle_hello open_channels 2 (hello_message observer) promoted).replies
    ≡ welcome (create_welcome 1 2 as_controller (some 2)) ∷ []
handle_hello-controller_example =
    handle_hello-controller open_channels 2 (hello_message observer) promoted
      (refl, (new_client 2, refl)) refl refl refl supported refl

abbrev new_loop : CachedSession → LoopState
new_loop session = record {
  adapter = some (moved 2 ∷ record { client_id = 2; seq = 1; payload = snapshot_request } ∷ []);
  session = session;
  observations = Schedule.new session.runtime.game 20;
}

-- The session of a new game, made fresh.
abbrev fresh_session : CachedSession
fresh_session = (new-Returns 8).0

step_session-Served_example :
    Returns
      (step_session (new_loop fresh_session) (hard_drop ∷ []) true)
      (Served (moved 2 ∷ record { client_id = 2; seq = 1; payload = snapshot_request } ∷ []))
step_session-Served_example =
    step_session-Served (new_loop fresh_session)
      (moved 2 ∷ record { client_id = 2; seq = 1; payload = snapshot_request } ∷ [])
      (hard_drop ∷ []) true refl (tt, (tt, tt)) (new-Returns 8).2 (omega arith)

-- A line in two chunks, with the beginning of the next.
read_bounded_line-first_line_example :
    as_line (read_bounded_line ((7 ∷ []) ∷ (8 ∷ 10 ∷ 9 ∷ []) ∷ []))
    ≡ first_line (flat ((7 ∷ []) ∷ (8 ∷ 10 ∷ 9 ∷ []) ∷ []))
read_bounded_line-first_line_example =
    read_bounded_line-first_line ((7 ∷ []) ∷ (8 ∷ 10 ∷ 9 ∷ []) ∷ [])

two_chunks :
    read_bounded_line ((7 ∷ []) ∷ (8 ∷ 10 ∷ 9 ∷ []) ∷ []) ≡ line (7 ∷ 8 ∷ 10 ∷ []) ((9 ∷ []) ∷ [])
unfolding Lines.read_from Lines.position
two_chunks = refl
