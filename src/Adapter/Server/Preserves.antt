-- ===== src/Adapter/Server/Preserves.antt =====
-- crates/tetris-adapter/src/adapter/server.rs: the changes of the broker that a message can make.
use tui_tetris.Prelude.{
  ℕ, ◌≡◌, refl, Bool, true, false, not, ◌&&◌, Option, none, some, inl, inr, ◌⊎◌, Bool-cases,
}
use tui_tetris.Prelude.{◌==◌, if◌then◌else◌, if_both, ==_iff, ap, arith}
use tui_tetris.Adapter.Protocol.{
  RequestedRole, RequestedCapabilities, HelloMessage, CommandMessage, ControlAction, claim, release,
  ParsedMessage, hello, command, control, unknown, invalid_command, as_controller, as_observer,
  AssignedRole, handshake_required, protocol_mismatch, not_controller, controller_active,
  create_ack,
}
use tui_tetris.Adapter.Broker.{
  ClientHandle, BrokerState, find_client, is_handshaken, is_controller, check_and_update_seq,
  mark_handshaken, clear_stale_controller, set_last_seq, seq_follows, is_observer, assign_as,
  handshaken_of, check_found, assign_role, role_or_auto,
}
use tui_tetris.Session.Runtime.{GameCommand}
use tui_tetris.Adapter.Version.{is_compatible_protocol_version}
use tui_tetris.Adapter.Commands.{Mapped, ok, err, map_command}
use tui_tetris.Adapter.Observation.{ack}
use tui_tetris.Adapter.Broker.Clients.{find-update_self}
use tui_tetris.Adapter.Server.{
  Channels, Handled, refused, replied, enforce_strict_seq, enforce_handshake_and_seq,
  enforce_seq_if_handshaken, accept_hello, accept_command, accept_claim, accept_release, claim_as,
  control_as, forward_mapped, forward_command, send_welcome, handle_hello, handle_command,
  handle_control, handle_unknown, handle_message,
}

-- The number has been checked, if the client has said hello.
abbrev pub IsChecked : BrokerState → ℕ → ℕ → Type 0
IsChecked b id seq =
    (is_handshaken b id ≡ false)
    ⊎ ((c : ClientHandle) × (find_client b.clients id ≡ some c) × (c.last_seq ≡ some seq))

check-IsChecked_found :
    (b : BrokerState) (id seq : ℕ) (o : Option ClientHandle)
    → find_client b.clients id ≡ o
    → (check_found b id seq o).1 ≡ true
    → IsChecked (check_found b id seq o).0 id seq
check-IsChecked_found b id seq none e h = inl (ap handshaken_of e)
check-IsChecked_found b id seq (some c) e h = elim (Bool-cases (seq_follows c.last_seq seq)) [
  | inl on ↦ rw on (
      inr (
        set_last_seq seq c,
        find-update_self (set_last_seq seq) (λ d. refl) id b.clients c e,
        refl,
      ))
  | inr off ↦ absurd (ground (arith, off, h))
]

pub check-IsChecked :
    (b : BrokerState) (id seq : ℕ)
    → (check_and_update_seq b id seq).1 ≡ true
    → IsChecked (check_and_update_seq b id seq).0 id seq
check-IsChecked b id seq h = check-IsChecked_found b id seq (find_client b.clients id) refl h

module _ {ℓ} (P : BrokerState → Type ℓ) (env : Channels) (id : ℕ)
    (on_seq : (b : BrokerState) (seq : ℕ) → P b → P (check_and_update_seq b id seq).0)
    (on_hello : (b : BrokerState) (seq : ℕ) (requested : RequestedCapabilities)
      → seq ≡ 1
      → IsChecked b id seq
      → P b
      → P (mark_handshaken b id seq requested))
    (on_clear : (b : BrokerState) → P b → P (clear_stale_controller env.live b))
    (on_take : (b : BrokerState)
      → b.controller_id ≡ none
      → P b
      → P (record b { controller_id = some id }))
    (on_give : (b : BrokerState)
      → is_controller b id ≡ true
      → P b
      → P (record b { controller_id = none })) where
  branch-keeps :
      (t : Bool) (x y : Handled) → P x.broker → P y.broker → P (if t then x else y).broker
  branch-keeps true x y px py = px
  branch-keeps false x y px py = py

  strict-keeps :
      (b : BrokerState) (seq : ℕ) (rest : BrokerState → Handled)
      → ((b' : BrokerState) → IsChecked b' id seq → P b' → P (rest b').broker)
      → P b
      → P (enforce_strict_seq b id seq rest).broker
  strict-keeps b seq rest next p =
      if_both (λ (h : Handled). P h.broker) (check_and_update_seq b id seq).1
        (rest (check_and_update_seq b id seq).0)
        (refused (check_and_update_seq b id seq).0 seq invalid_command)
        (λ on.
          next (check_and_update_seq b id seq).0 (check-IsChecked b id seq on) (on_seq b seq p))
        (λ off. on_seq b seq p)

  seq-keeps :
      (b : BrokerState) (seq : ℕ) (rest : BrokerState → Handled)
      → ((b' : BrokerState) → IsChecked b' id seq → P b' → P (rest b').broker)
      → P b
      → P (enforce_seq_if_handshaken b id seq rest).broker
  seq-keeps b seq rest next p =
      if_both (λ (h : Handled). P h.broker) (is_handshaken b id) (enforce_strict_seq b id seq rest)
        (rest b) (λ on. strict-keeps b seq rest next p) (λ off. next b (inl off) p)

  handshake-keeps :
      (b : BrokerState) (seq : ℕ) (rest : BrokerState → Handled)
      → ((b' : BrokerState) → P b' → P (rest b').broker)
      → P b
      → P (enforce_handshake_and_seq b id seq rest).broker
  handshake-keeps b seq rest next p =
      branch-keeps (is_handshaken b id) (enforce_strict_seq b id seq rest)
        (refused b seq handshake_required) (strict-keeps b seq rest (λ b' _ p'. next b' p') p) p

  pub assign-keeps :
      (o : Option ℕ) (b : BrokerState) (role : RequestedRole)
      → b.controller_id ≡ o
      → P b
      → P (assign_as o b id role).0
  assign-keeps none b role e p =
      if_both (λ (r : BrokerState × AssignedRole). P r.0) (is_observer role) (b, as_observer)
        (record b { controller_id = some id }, as_controller) (λ _. p) (λ _. on_take b e p)
  assign-keeps (some c) b role e p =
      if_both (λ (r : BrokerState × AssignedRole). P r.0) (c == id) (b, as_controller)
        (b, as_observer) (λ _. p) (λ _. p)

  hello-keeps :
      (msg : HelloMessage) (b : BrokerState)
      → msg.seq ≡ 1
      → IsChecked b id msg.seq
      → P b
      → P (accept_hello env id msg b).broker
  unfolding accept_hello send_welcome
  hello-keeps msg b first checked p =
      let marked : BrokerState = mark_handshaken b id msg.seq msg.requested in
      let role : RequestedRole = role_or_auto msg.requested.role in
      branch-keeps (not (is_compatible_protocol_version msg.protocol_version))
        (record (refused b msg.seq protocol_mismatch) { goes_on = false })
        (if not msg.json
          then refused b msg.seq invalid_command
          else send_welcome env id msg (assign_role env.live marked id role))
        p
        (branch-keeps (not msg.json) (refused b msg.seq invalid_command)
          (send_welcome env id msg (assign_role env.live marked id role)) p
          (assign-keeps (clear_stale_controller env.live marked).controller_id
            (clear_stale_controller env.live marked) role refl
            (on_clear marked (on_hello b msg.seq msg.requested first checked p))))

  forward-keeps :
      (seq : ℕ) (c : GameCommand) (b : BrokerState)
      → P b
      → P (forward_command env id seq c b).broker
  unfolding forward_command
  forward-keeps seq c b p =
      if_both (λ (h : Handled). P h.broker) (env.has_room && env.is_open) _ _ (λ _. p) (λ _. p)

  mapped-keeps :
      (m : Mapped GameCommand) (seq : ℕ) (b : BrokerState)
      → P b
      → P (forward_mapped env id seq b m).broker
  mapped-keeps (err code) seq b p = p
  mapped-keeps (ok c) seq b p = forward-keeps seq c b p

  command-keeps :
      (msg : CommandMessage) (b : BrokerState) → P b → P (accept_command env id msg b).broker
  unfolding accept_command
  command-keeps msg b p =
      branch-keeps (is_controller b id) (forward_mapped env id msg.seq b (map_command msg))
        (refused b msg.seq not_controller) (mapped-keeps (map_command msg) msg.seq b p) p

  pub claim-keeps :
      (o : Option ℕ) (seq : ℕ) (b : BrokerState)
      → b.controller_id ≡ o
      → P b
      → P (claim_as env id o seq b).broker
  claim-keeps none seq b e p = on_take b e p
  claim-keeps (some c) seq b e p =
      branch-keeps (c == id) (replied b (ack (create_ack seq seq)))
        (refused b seq controller_active) p p

  pub release-keeps : (seq : ℕ) (b : BrokerState) → P b → P (accept_release env id seq b).broker
  unfolding accept_release
  release-keeps seq b p =
      if_both (λ (h : Handled). P h.broker) (is_controller b id)
        (replied (record b { controller_id = none }) (ack (create_ack seq seq)))
        (refused b seq not_controller) (λ on. on_give b on p) (λ _. p)

  control-keeps :
      (action : ControlAction) (seq : ℕ) (b : BrokerState)
      → P b
      → P (control_as env id action seq b).broker
  control-keeps claim seq b p =
      handshake-keeps b seq (accept_claim env id seq)
        (λ b' p'.
          claim-keeps (clear_stale_controller env.live b').controller_id seq
            (clear_stale_controller env.live b') refl (on_clear b' p'))
        p
  control-keeps release seq b p =
      handshake-keeps b seq (accept_release env id seq) (release-keeps seq) p

  -- A property of the broker that each change of a message keeps is kept by the message.
  pub handle_message-keeps :
      (msg : ParsedMessage) (b : BrokerState) → P b → P (handle_message env id msg b).broker
  unfolding handle_message handle_hello handle_command handle_control handle_unknown
  handle_message-keeps (hello msg) b p =
      if_both (λ (h : Handled). P h.broker) (msg.seq == 1)
        (enforce_seq_if_handshaken b id msg.seq (accept_hello env id msg))
        (refused b msg.seq invalid_command)
        (λ on.
          seq-keeps b msg.seq (accept_hello env id msg)
            (λ b' checked p'. hello-keeps msg b' ((==_iff msg.seq 1).0 on) checked p') p)
        (λ _. p)
  handle_message-keeps (command msg) b p =
      handshake-keeps b msg.seq (accept_command env id msg) (command-keeps msg) p
  handle_message-keeps (control msg) b p = control-keeps msg.action msg.seq b p
  handle_message-keeps (unknown seq) b p =
      seq-keeps b seq (λ b'. refused b' seq invalid_command) (λ b' _ p'. p') p
