-- ===== src/Adapter/Server/Once.antt =====
-- crates/tetris-adapter/src/adapter/server.rs: every message has one answer.
use tui_tetris.Prelude.{
  ℕ, ◌≡◌, refl, true, false, not, ◌&&◌, Option, none, some, List, [], ◌∷◌, inl, inr, ◌⊎◌,
}
use tui_tetris.Prelude.{◌==◌, if◌then◌else◌, if_both}
use tui_tetris.Session.Runtime.{GameCommand}
use tui_tetris.Adapter.Protocol.{
  HelloMessage, CommandMessage, ControlAction, claim, release, ParsedMessage, hello, command,
  control, unknown, AssignedRole, ErrorCode, protocol_mismatch, not_controller, controller_active,
  invalid_command, handshake_required, create_ack, create_error, create_welcome,
  create_backpressure_error,
}
use tui_tetris.Adapter.Commands.{Mapped, ok, err, map_command}
use tui_tetris.Adapter.Version.{is_compatible_protocol_version}
use tui_tetris.Adapter.Observation.{ClientOutbound, ack, error, welcome, observation}
use tui_tetris.Adapter.Broker.{
  BrokerState, is_controller, is_handshaken, check_and_update_seq, clear_stale_controller,
  mark_handshaken, assign_role, role_or_auto,
}
use tui_tetris.Adapter.Server.{
  Channels, Handled, InboundCommand, game_command, snapshot_request, refused, replied,
  backpressure_retry_after_ms, enforce_strict_seq, enforce_handshake_and_seq,
  enforce_seq_if_handshaken, accept_hello, send_welcome, accept_command, forward_mapped,
  forward_command, accept_claim, accept_release, claim_as, control_as, handle_hello, handle_command,
  handle_control, handle_unknown, handle_message,
}

abbrev pub seq_of : ParsedMessage → ℕ
seq_of (hello msg) = msg.seq
seq_of (command msg) = msg.seq
seq_of (control msg) = msg.seq
seq_of (unknown seq) = seq

-- A reply to the message of a number.
abbrev pub IsReplyTo : ℕ → ClientOutbound → Type 0
IsReplyTo seq (ack a) = a.correlation_seq ≡ seq
IsReplyTo seq (error e) = e.seq ≡ seq
IsReplyTo seq (welcome w) = w.seq ≡ seq
IsReplyTo seq (observation o) = ⊥

-- Nothing for the game loop but requests of a snapshot.
abbrev pub HasNoCommand : List InboundCommand → Type 0
HasNoCommand [] = Unit
HasNoCommand (x ∷ xs) = (x.payload ≡ snapshot_request) × HasNoCommand xs

-- One reply from the server with the number of the message, or else one command for the game loop
-- with that number, which the game loop answers.
abbrev pub IsAnswered : ℕ → Handled → Type 0
IsAnswered seq h =
    ((r : ClientOutbound) × (h.replies ≡ r ∷ []) × IsReplyTo seq r × HasNoCommand h.forwarded)
    ⊎ ((x : InboundCommand) × (h.replies ≡ [])
        × (h.forwarded ≡ x ∷ [])
        × (x.seq ≡ seq)
        × ((c : GameCommand) × (x.payload ≡ game_command c)))

module _ (env : Channels) (id seq : ℕ) where
  refused-IsAnswered : (b : BrokerState) (code : ErrorCode) → IsAnswered seq (refused b seq code)
  refused-IsAnswered b code = inl (error (create_error seq code), refl, refl, tt)

  ack-IsAnswered : (b : BrokerState) → IsAnswered seq (replied b (ack (create_ack seq seq)))
  ack-IsAnswered b = inl (ack (create_ack seq seq), refl, refl, tt)

  strict-IsAnswered :
      (b : BrokerState) (rest : BrokerState → Handled)
      → ((b' : BrokerState) → IsAnswered seq (rest b'))
      → IsAnswered seq (enforce_strict_seq b id seq rest)
  strict-IsAnswered b rest next =
      if_both (IsAnswered seq) (check_and_update_seq b id seq).1
        (rest (check_and_update_seq b id seq).0)
        (refused (check_and_update_seq b id seq).0 seq invalid_command)
        (λ _. next (check_and_update_seq b id seq).0)
        (λ _. refused-IsAnswered (check_and_update_seq b id seq).0 invalid_command)

  handshake-IsAnswered :
      (b : BrokerState) (rest : BrokerState → Handled)
      → ((b' : BrokerState) → IsAnswered seq (rest b'))
      → IsAnswered seq (enforce_handshake_and_seq b id seq rest)
  handshake-IsAnswered b rest next =
      if_both (IsAnswered seq) (is_handshaken b id) (enforce_strict_seq b id seq rest)
        (refused b seq handshake_required) (λ _. strict-IsAnswered b rest next)
        (λ _. refused-IsAnswered b handshake_required)

  seq-IsAnswered :
      (b : BrokerState) (rest : BrokerState → Handled)
      → ((b' : BrokerState) → IsAnswered seq (rest b'))
      → IsAnswered seq (enforce_seq_if_handshaken b id seq rest)
  seq-IsAnswered b rest next =
      if_both (IsAnswered seq) (is_handshaken b id) (enforce_strict_seq b id seq rest) (rest b)
        (λ _. strict-IsAnswered b rest next) (λ _. next b)

  mapped-IsAnswered :
      (b : BrokerState) (m : Mapped GameCommand) → IsAnswered seq (forward_mapped env id seq b m)
  unfolding forward_command
  mapped-IsAnswered b (err code) = refused-IsAnswered b code
  mapped-IsAnswered b (ok c) =
      let entry : InboundCommand = record { client_id = id; seq = seq; payload = game_command c } in
      if_both (IsAnswered seq) (env.has_room && env.is_open)
        (record { broker = b; replies = []; forwarded = entry ∷ []; goes_on = true })
        (replied b (error (create_backpressure_error seq backpressure_retry_after_ms)))
        (λ _. inr (entry, refl, refl, refl, (c, refl)))
        (λ _.
          inl (error (create_backpressure_error seq backpressure_retry_after_ms), refl, refl, tt))

  claim-IsAnswered : (o : Option ℕ) (b : BrokerState) → IsAnswered seq (claim_as env id o seq b)
  claim-IsAnswered none b = ack-IsAnswered (record b { controller_id = some id })
  claim-IsAnswered (some c) b =
      if_both (IsAnswered seq) (c == id) (replied b (ack (create_ack seq seq)))
        (refused b seq controller_active) (λ _. ack-IsAnswered b)
        (λ _. refused-IsAnswered b controller_active)

  release-IsAnswered : (b : BrokerState) → IsAnswered seq (accept_release env id seq b)
  unfolding accept_release
  release-IsAnswered b =
      if_both (IsAnswered seq) (is_controller b id)
        (replied (record b { controller_id = none }) (ack (create_ack seq seq)))
        (refused b seq not_controller) (λ _. ack-IsAnswered (record b { controller_id = none }))
        (λ _. refused-IsAnswered b not_controller)

  control-IsAnswered :
      (action : ControlAction) (b : BrokerState) → IsAnswered seq (control_as env id action seq b)
  control-IsAnswered claim b = handshake-IsAnswered b (accept_claim env id seq) (λ b'.
      let cleared : BrokerState = clear_stale_controller env.live b' in
      claim-IsAnswered cleared.controller_id cleared)
  control-IsAnswered release b =
      handshake-IsAnswered b (accept_release env id seq) release-IsAnswered

module _ (env : Channels) (id : ℕ) where
  welcome-IsAnswered :
      (msg : HelloMessage) (assigned : BrokerState × AssignedRole)
      → IsAnswered msg.seq (send_welcome env id msg assigned)
  unfolding send_welcome
  welcome-IsAnswered msg assigned = inl (
    welcome (create_welcome msg.seq id assigned.1 assigned.0.controller_id),
    refl,
    refl,
    if_both HasNoCommand (msg.requested.stream_observations && env.is_open)
        (record { client_id = id; seq = msg.seq; payload = snapshot_request } ∷ []) []
        (λ _. (refl, tt)) (λ _. tt),
  )

  hello-IsAnswered :
      (msg : HelloMessage) (b : BrokerState) → IsAnswered msg.seq (accept_hello env id msg b)
  unfolding accept_hello
  hello-IsAnswered msg b =
      let assigned : BrokerState × AssignedRole =
        assign_role env.live (mark_handshaken b id msg.seq msg.requested) id
          (role_or_auto msg.requested.role) in
      if_both (IsAnswered msg.seq) (not (is_compatible_protocol_version msg.protocol_version))
        (record (refused b msg.seq protocol_mismatch) { goes_on = false })
        (if not msg.json
          then refused b msg.seq invalid_command
          else send_welcome env id msg assigned)
        (λ _. inl (error (create_error msg.seq protocol_mismatch), refl, refl, tt))
        (λ _.
          if_both (IsAnswered msg.seq) (not msg.json) (refused b msg.seq invalid_command)
            (send_welcome env id msg assigned)
            (λ _. refused-IsAnswered env id msg.seq b invalid_command)
            (λ _. welcome-IsAnswered msg assigned))

  command-IsAnswered :
      (msg : CommandMessage) (b : BrokerState) → IsAnswered msg.seq (accept_command env id msg b)
  unfolding accept_command
  command-IsAnswered msg b =
      if_both (IsAnswered msg.seq) (is_controller b id)
        (forward_mapped env id msg.seq b (map_command msg)) (refused b msg.seq not_controller)
        (λ _. mapped-IsAnswered env id msg.seq b (map_command msg))
        (λ _. refused-IsAnswered env id msg.seq b not_controller)

  -- Every message of a client, whatever the state of the broker and of the channels, has one answer
  -- with its number: one reply of the server and no command for the game loop, or no reply and one
  -- command for the game loop.
  pub handle_message-IsAnswered :
      (msg : ParsedMessage) (b : BrokerState)
      → IsAnswered (seq_of msg) (handle_message env id msg b)
  unfolding handle_message handle_hello handle_command handle_control handle_unknown
  handle_message-IsAnswered (hello msg) b =
      if_both (IsAnswered msg.seq) (msg.seq == 1)
        (enforce_seq_if_handshaken b id msg.seq (accept_hello env id msg))
        (refused b msg.seq invalid_command)
        (λ _. seq-IsAnswered env id msg.seq b (accept_hello env id msg) (hello-IsAnswered msg))
        (λ _. refused-IsAnswered env id msg.seq b invalid_command)
  handle_message-IsAnswered (command msg) b =
      handshake-IsAnswered env id msg.seq b (accept_command env id msg) (command-IsAnswered msg)
  handle_message-IsAnswered (control msg) b = control-IsAnswered env id msg.seq msg.action b
  handle_message-IsAnswered (unknown seq) b =
      seq-IsAnswered env id seq b (λ b'. refused b' seq invalid_command)
        (λ b'. refused-IsAnswered env id seq b' invalid_command)
