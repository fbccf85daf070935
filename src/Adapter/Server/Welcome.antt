-- ===== src/Adapter/Server/Welcome.antt =====
-- crates/tetris-adapter/src/adapter/server.rs: what a hello is welcomed with.
use tui_tetris.Prelude.{
  ℕ, ◌≡◌, refl, sym, Bool, true, false, Option, none, some, [], ◌∷◌, Bool-cases, inl, inr,
}
use tui_tetris.Prelude.{◌==◌, ==_iff}
use tui_tetris.Adapter.Protocol.{
  RequestedRole, AssignedRole, as_controller, as_observer, HelloMessage, create_welcome,
}
use tui_tetris.Adapter.Observation.{welcome}
use tui_tetris.Adapter.Version.{is_compatible_protocol_version}
use tui_tetris.Adapter.Broker.{
  BrokerState, mark_handshaken, is_handshaken, assign_as, role_or_auto, is_observer,
  clear_stale_controller, is_controller, is_live_client, greeted,
}
use tui_tetris.Adapter.Broker.Clients.{find-update_some}
use tui_tetris.Adapter.Server.Control.{Controls, any-live, clear-live}
use tui_tetris.Adapter.Server.{Channels, accept_hello, send_welcome, handle_hello}

-- A role goes with whether the client controls the game.
abbrev pub is_role : AssignedRole → Bool
is_role as_controller = true
is_role as_observer = false

assign-is_role :
    (o : Option ℕ) (b : BrokerState) (id : ℕ) (role : RequestedRole)
    → b.controller_id ≡ o
    → is_role (assign_as o b id role).1 ≡ is_controller (assign_as o b id role).0 id
assign-is_role none b id role e = elim (Bool-cases (is_observer role)) [
  | inl on ↦ rw on (rw e refl)
  | inr off ↦ rw off (sym ((==_iff id id).1 refl))
]
assign-is_role (some c) b id role e = elim (Bool-cases (c == id)) [
  | inl on ↦ rw on (rw e (sym on))
  | inr off ↦ rw off (rw e (sym off))
]

-- The hello of a client that has not said hello yet, with the number 1, a version and a format that
-- the server takes, is answered with a welcome of its number and id; the role in the welcome is the
-- controller's exactly if the client is the controller after it, and the controller named is the
-- controller after it.
pub handle_hello-welcomes :
    (env : Channels) (id : ℕ) (msg : HelloMessage) (b : BrokerState)
    → is_handshaken b id ≡ false
    → msg.seq ≡ 1
    → is_compatible_protocol_version msg.protocol_version ≡ true
    → msg.json ≡ true
    → (role : AssignedRole) × ((handle_hello env id msg b).replies
        ≡ welcome (create_welcome msg.seq id role (handle_hello env id msg b).broker.controller_id)
          ∷ [])
      × (is_role role ≡ is_controller (handle_hello env id msg b).broker id)
unfolding handle_hello accept_hello send_welcome
handle_hello-welcomes env id msg b new first version json =
    let cleared : BrokerState =
      clear_stale_controller env.live (mark_handshaken b id msg.seq msg.requested) in
    let is_first : (msg.seq == 1) ≡ true = (==_iff msg.seq 1).1 first in
    rw is_first (
      rw new (
        rw version (
          rw json (
            (assign_as cleared.controller_id cleared id (role_or_auto msg.requested.role)).1,
            refl,
            assign-is_role cleared.controller_id cleared id (role_or_auto msg.requested.role) refl,
          ))))

-- A client that controls the game before its hello, which a promotion can bring about, and is live
-- is welcomed as the controller, whatever role it asks for: also as an observer.
pub handle_hello-controller :
    (env : Channels) (id : ℕ) (msg : HelloMessage) (b : BrokerState)
    → Controls id b
    → env.live id ≡ true
    → is_handshaken b id ≡ false
    → msg.seq ≡ 1
    → is_compatible_protocol_version msg.protocol_version ≡ true
    → msg.json ≡ true
    → (handle_hello env id msg b).replies
      ≡ welcome (create_welcome msg.seq id as_controller (some id)) ∷ []
unfolding handle_hello accept_hello send_welcome
handle_hello-controller env id msg b (controls, (c, found)) on new first version json =
    let marked : BrokerState = mark_handshaken b id msg.seq msg.requested in
    let (d, found') =
      find-update_some (greeted msg.seq msg.requested) (λ x. refl) id id b.clients c found in
    let kept : (clear_stale_controller env.live marked).controller_id ≡ some id =
      clear-live id b.controller_id (is_live_client env.live marked) controls
        (any-live env.live id marked.clients d on found') in
    let is_first : (msg.seq == 1) ≡ true = (==_iff msg.seq 1).1 first in
    let itself : (id == id) ≡ true = (==_iff id id).1 refl in
    rw is_first (rw new (rw version (rw json (rw kept (rw itself refl)))))
