-- ===== src/Adapter/Server/Answers.antt =====
-- crates/tetris-adapter/src/adapter/server.rs: what a message is answered with, and when it goes on to
-- the game loop.
use tui_tetris.Prelude.{
  ℕ, ◌≡◌, refl, ap, ◌↔◌, ◌⊎◌, true, ◌&&◌, some, List, [], ◌∷◌, inl, inr, Bool-cases, Option-cases,
  arith,
}
use tui_tetris.Session.Runtime.{GameCommand}
use tui_tetris.Adapter.Protocol.{CommandMessage, ErrorCode}
use tui_tetris.Adapter.Commands.{Mapped, ok, err, map_command}
use tui_tetris.Adapter.Broker.{
  ClientHandle, BrokerState, find_client, is_controller, seq_follows, set_last_seq, update_client,
  with_clients,
}
use tui_tetris.Adapter.Server.{
  Channels, Handled, InboundCommand, game_command, accept_command, forward_command, handle_command,
}

-- The broker after the number of a message of client `id` has been accepted.
abbrev pub checked : BrokerState → ℕ → CommandMessage → BrokerState
checked b id msg = with_clients b (update_client (set_last_seq msg.seq) id b.clients)

-- All that has to hold for a command of client `id` to go on to the game loop as `entry`.
pub record MayPass (env : Channels) (id : ℕ) (msg : CommandMessage) (b : BrokerState)
    (entry : InboundCommand) : Type 0 where
  pub sender : ClientHandle
  pub found : find_client b.clients id ≡ some sender
  pub greeted : sender.handshaken ≡ true
  pub follows : seq_follows sender.last_seq msg.seq ≡ true
  pub controls : is_controller b id ≡ true
  pub room : (env.has_room && env.is_open) ≡ true
  pub game : GameCommand
  pub maps : map_command msg ≡ ok game
  pub is_entry : record { client_id = id; seq = msg.seq; payload = game_command game } ≡ entry

Mapped-cases :
    (m : Mapped GameCommand)
    → ((code : ErrorCode) × (m ≡ err code)) ⊎ ((c : GameCommand) × (m ≡ ok c))
Mapped-cases (err code) = inl (code, refl)
Mapped-cases (ok c) = inr (c, refl)

first_or : InboundCommand → List InboundCommand → InboundCommand
first_or d [] = d
first_or d (x ∷ xs) = x

module _ (env : Channels) (id : ℕ) (msg : CommandMessage) (entry : InboundCommand) where
  -- The forwarded part of an accepted command.
  accept-inv :
      (b : BrokerState)
      → (accept_command env id msg b).forwarded ≡ entry ∷ []
      → (is_controller b id ≡ true)
        × ((env.has_room && env.is_open) ≡ true)
        × ((c : GameCommand) × (map_command msg ≡ ok c)
            × (record { client_id = id; seq = msg.seq; payload = game_command c } ≡ entry))
  unfolding accept_command forward_command first_or
  accept-inv b h = elim (Bool-cases (is_controller b id)) [
    | inr off ↦ absurd (ground (arith, rw off at h))
    | inl on ↦ elim (Mapped-cases (map_command msg)) [
      | inl (code, e) ↦ absurd (ground (arith, rw e at (rw on at h)))
      | inr (c, e) ↦ elim (Bool-cases (env.has_room && env.is_open)) [
        | inr full ↦ absurd (ground (arith, rw full at (rw e at (rw on at h))))
        | inl room ↦ (on, room, (c, e, ap (first_or entry) (rw room at (rw e at (rw on at h)))))
      ]
    ]
  ]

  pub command-MayPass :
      (b : BrokerState)
      → (handle_command env id msg b).forwarded ≡ entry ∷ []
      → MayPass env id msg b entry
  unfolding handle_command
  command-MayPass b h = elim (Option-cases (find_client b.clients id)) [
    | inl e ↦ absurd (ground (arith, rw e at h))
    | inr (c, e) ↦ elim (Bool-cases c.handshaken) [
      | inr off ↦ absurd (ground (arith, rw off at (rw e at h)))
      | inl on ↦ elim (Bool-cases (seq_follows c.last_seq msg.seq)) [
        | inr late ↦ absurd (ground (arith, rw late at (rw on at (rw e at h))))
        | inl follows ↦
            let b' : BrokerState = checked b id msg in
            let (controls, room, (game, maps, is_entry)) =
              accept-inv b' (rw follows at (rw on at (rw e at h))) in
            record {
              sender = c;
              found = e;
              greeted = on;
              follows = follows;
              controls = controls;
              room = room;
              game = game;
              maps = maps;
              is_entry = is_entry;
            }
      ]
    ]
  ]

  pub MayPass-passes :
      (b : BrokerState)
      → MayPass env id msg b entry
      → handle_command env id msg b
        ≡ record { broker = checked b id msg; replies = []; forwarded = entry ∷ []; goes_on = true }
  unfolding handle_command accept_command forward_command
  MayPass-passes b p = rw p.found (
      rw p.greeted (
        rw p.follows (
          rw p.controls (
            rw p.maps (
              rw p.room (
                ap
                  (λ (x : InboundCommand). record {
                    broker = checked b id msg;
                    replies = [];
                    forwarded = x ∷ [];
                    goes_on = true;
                  })
                  p.is_entry))))))

  -- A command goes on to the game loop exactly if its sender is found, has said hello, numbered the
  -- command above its last message and controls the game, the command maps to a game command, and
  -- the queue takes it; what goes on is that game command, with the id and the number.
  pub handle_command-forwarded_iff :
      (b : BrokerState)
      → ((handle_command env id msg b).forwarded ≡ entry ∷ []) ↔ MayPass env id msg b entry
  handle_command-forwarded_iff b =
      (command-MayPass b, λ p. ap (λ (h : Handled). h.forwarded) (MayPass-passes b p))
