-- ===== src/Adapter/Driver.antt =====
-- crates/tetris-adapter/src/adapter/game_loop.rs: `SessionProtocolDriver`, which handles one message
-- at a time without a queue.
use tui_tetris.Prelude.{
  ℕ, zero, suc, ◌≡◌, refl, sym, List, [], ◌∷◌, ◌++◌, length, Run, ret, fault, ◌>>=◌, Returns, arith,
}
use mathlib.Core.Path.{subst}
use tui_tetris.Session.Place.{Outcome}
use tui_tetris.Session.Runtime.{GameCommand, StepInput, Transition}
use tui_tetris.Session.Cache
use tui_tetris.Session.Cache.{CachedSession}
use tui_tetris.Session.Replay.Verify.{Sound}
use tui_tetris.Adapter.Schedule.{ObservationSchedule, immediate}
use tui_tetris.Adapter.Schedule
use tui_tetris.Adapter.Observation.{ObservationMessage, observation}
use tui_tetris.Adapter.Server.{InboundCommand, InboundPayload, game_command, snapshot_request}
use tui_tetris.Adapter.Loop.{PendingCommand, Reply, respond, observe, capture_all}
use tui_tetris.Adapter.Loop.Replies.{
  Answers, by_observation, IsPayload, transition-Answered, respond-Answers,
}

pub record Driver : Type 0 where
  pub session : CachedSession
  pub observations : ObservationSchedule
  pub post_command_steps : ℕ

abbrev pub from_session : CachedSession → ℕ → Driver
from_session session observation_hz = record {
  session = session;
  observations = Schedule.new session.runtime.game observation_hz;
  post_command_steps = 0;
}

abbrev pub with_post_command_steps : Driver → ℕ → Driver
with_post_command_steps d steps = record d { post_command_steps = steps }

abbrev pub idle_input : StepInput
idle_input = record { remote = []; local = [] }

-- The loop over the steps after a command.
unfoldable pub idle_steps :
    ℕ → CachedSession → ObservationSchedule → Run (CachedSession × ObservationSchedule)
idle_steps zero c o = ret (c, o)
idle_steps (suc n) c o = Cache.transition c idle_input >>= λ (r : CachedSession × Transition).
    idle_steps n r.0 (capture_all r.1.events o)

-- The immediate observation, sent to a client.
abbrev pub send_observation : Driver → ℕ → List Reply → Driver × List Reply
send_observation d id sent =
    let out = immediate d.observations in
    (record d { observations = out.0 }, sent ++ (id, observation (observe d.session out.1)) ∷ [])

-- The response to the first outcome; there is one for the one command.
abbrev pub respond_first :
    CachedSession × Transition → PendingCommand → List Outcome → Run (List Reply)
respond_first r p [] = fault
respond_first r p (o ∷ outcomes) = ret ((p.client_id, respond r.0 r.1 p o) ∷ [])

unfoldable pub handle_command : Driver → PendingCommand → Run (Driver × List Reply)
handle_command d p =
    Cache.transition d.session (record { remote = p.command ∷ []; local = [] })
    >>= λ (r : CachedSession × Transition).
        respond_first r p r.1.command_outcomes >>= λ (sent : List Reply).
        idle_steps d.post_command_steps r.0 (capture_all r.1.events d.observations)
        >>= λ (q : CachedSession × ObservationSchedule).
            ret (send_observation (record d { session = q.0; observations = q.1 }) p.client_id sent)

abbrev pub handle_payload : Driver → InboundCommand → InboundPayload → Run (Driver × List Reply)
handle_payload d inbound snapshot_request = ret (send_observation d inbound.client_id [])
handle_payload d inbound (game_command c) =
    handle_command d (record { client_id = inbound.client_id; seq = inbound.seq; command = c })

abbrev pub handle : Driver → InboundCommand → Run (Driver × List Reply)
handle d inbound = handle_payload d inbound inbound.payload

idle_steps-Returns :
    (n : ℕ) (c : CachedSession) (o : ObservationSchedule)
    → Sound c
    → Returns (idle_steps n c o) (λ q. Sound q.0)
unfolding idle_steps
idle_steps-Returns zero c o w = ((c, o), refl, w)
idle_steps-Returns (suc n) c o w =
    let (r, e, (w', _)) = transition-Answered c idle_input tt w in
    rw e (idle_steps-Returns n r.0 (capture_all r.1.events o) w')

-- What is sent for a message: the reply to a command, if it is one, and then an observation.
pub data IsSent : InboundCommand → List Reply → Type 0 where
  request : {x : InboundCommand} {r : Reply} → Answers x r → IsSent x (r ∷ [])
  command_then :
      {x : InboundCommand} {c : GameCommand} {r : Reply} {o : ObservationMessage}
      → x.payload ≡ game_command c
      → Answers x r
      → IsSent x (r ∷ (x.client_id, observation o) ∷ [])

respond_first-Returns :
    (r : CachedSession × Transition) (x : InboundCommand) (p : PendingCommand)
    (outcomes : List Outcome)
    → x.payload ≡ game_command p.command
    → x.client_id ≡ p.client_id
    → x.seq ≡ p.seq
    → length outcomes ≡ 1
    → Returns (respond_first r p outcomes) (λ sent. (q : Reply) × (sent ≡ q ∷ []) × Answers x q)
respond_first-Returns r x p [] is_command who same e = absurd (ground (arith, e))
respond_first-Returns r x p (o ∷ outcomes) is_command who same e = (
  _,
  refl,
  (
    _,
    refl,
    subst (λ (i : ℕ). Answers x (i, respond r.0 r.1 p o)) who
        (respond-Answers r.0 r.1 x p o is_command same),
  ),
)

handle_payload-IsSent :
    (d : Driver) (x : InboundCommand) (payload : InboundPayload)
    → x.payload ≡ payload
    → IsPayload payload
    → Sound d.session
    → Returns (handle_payload d x payload) (λ q. IsSent x q.1 × Sound q.0.session)
unfolding handle_command
handle_payload-IsSent d x snapshot_request e ok w = (_, refl, (request (by_observation e), w))
handle_payload-IsSent d x (game_command c) e ok w =
    let p : PendingCommand = record { client_id = x.client_id; seq = x.seq; command = c } in
    let (r, e1, (w1, count)) =
      transition-Answered d.session (record { remote = c ∷ []; local = [] }) (ok, tt) w in
    let (sent, e2, (reply, e3, a)) =
      respond_first-Returns r x p r.1.command_outcomes e refl refl (ground (arith, count)) in
    let (q, e4, w4) =
      idle_steps-Returns d.post_command_steps r.0 (capture_all r.1.events d.observations) w1 in
    let last : Driver × List Reply =
      send_observation (record d { session = q.0; observations = q.1 }) x.client_id sent in
    rw e1 (
      rw e2 (
        rw e4 (
          last,
          refl,
          (
            subst
                (λ (first : List Reply).
                  IsSent x
                    (send_observation (record d { session = q.0; observations = q.1 }) x.client_id
                      first).1)
                (sym e3) (command_then e a),
            w4,
          ),
        )))

-- In a well-formed game the driver handles every message without a panic, and sends its client an
-- observation for a request of a snapshot, and for a command first an acknowledgment or an error with
-- its number and then an observation. The game is well formed after it.
pub handle-IsSent :
    (d : Driver) (x : InboundCommand)
    → IsPayload x.payload
    → Sound d.session
    → Returns (handle d x) (λ q. IsSent x q.1 × Sound q.0.session)
handle-IsSent d x ok w = handle_payload-IsSent d x x.payload refl ok w
