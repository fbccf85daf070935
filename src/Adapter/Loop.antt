-- ===== src/Adapter/Loop.antt =====
-- crates/tetris-adapter/src/adapter/game_loop.rs and command_apply.rs: what the adapter does at each
-- step of the game. The queue of the game loop is a list, and a reply stands beside the id of the
-- client whose channel it is offered to; the texts of the errors are left out.
pub mod Replies
use tui_tetris.Prelude.{
  ℕ, zero, suc, Bool, true, false, Option, none, some, List, [], ◌∷◌, ◌++◌, length, Run, ret, fault,
  ◌>>=◌,
}
use tui_tetris.Prelude.{leb, if◌then◌else◌}
use tui_tetris.Types.{GameAction, CoreLastEvent}
use tui_tetris.Session.Place.{
  Outcome, placed, refused, PlaceError, hold_unavailable, rotation_blocked, x_out_of_bounds,
  x_blocked, not_playable, no_active,
}
use tui_tetris.Session.Runtime.{GameCommand, StepInput, Transition}
use tui_tetris.Session.Cache
use tui_tetris.Session.Cache.{CachedSession}
use tui_tetris.Session.Replay.{transition_hash}
use tui_tetris.Adapter.Protocol
use tui_tetris.Adapter.Protocol.{ErrorCode, create_applied_ack, create_error}
use tui_tetris.Adapter.Schedule.{
  ObservationSchedule, TransitionEvent, immediate, capture_event, after_tick,
}
use tui_tetris.Adapter.Observation.{
  ObservationMessage, build_observation, ClientOutbound, ack, error, observation,
}
use tui_tetris.Adapter.Server.{InboundCommand, InboundPayload, game_command, snapshot_request}

abbrev pub map_place_error_code : PlaceError → ErrorCode
map_place_error_code hold_unavailable = Protocol.hold_unavailable
map_place_error_code rotation_blocked = Protocol.invalid_place
map_place_error_code x_out_of_bounds = Protocol.invalid_place
map_place_error_code x_blocked = Protocol.invalid_place
map_place_error_code not_playable = Protocol.invalid_place
map_place_error_code no_active = Protocol.invalid_place

abbrev pub max_commands_per_step : ℕ
max_commands_per_step = 32

abbrev pub max_local_actions_per_step : ℕ
max_local_actions_per_step = 64

-- `client_id` is the client of the responder.
pub record PendingCommand : Type 0 where
  pub client_id : ℕ
  pub seq : ℕ
  pub command : GameCommand

-- A message offered to a client.
abbrev pub Reply : Type 0
Reply = ℕ × ClientOutbound

-- What the loop over the queue leaves: the rest of the queue, the schedule, the observations sent
-- and the pending commands, in the order of the queue.
pub record Drained : Type 0 where
  pub queue : List InboundCommand
  pub observations : ObservationSchedule
  pub snapshots : List Reply
  pub pending : List PendingCommand

-- The observation of the latest step, for the events of the schedule.
abbrev pub observe : CachedSession → ℕ × List TransitionEvent → ObservationMessage
observe c out = build_observation out.0 c.runtime.logical_step c.snapshots.snapshot out.1

abbrev pub add_snapshot : Reply → Drained → Drained
add_snapshot reply d = record d { snapshots = reply ∷ d.snapshots }

abbrev pub add_pending : PendingCommand → Drained → Drained
add_pending p d = record d { pending = p ∷ d.pending }

-- The loop over at most `fuel` messages of the queue.
unfoldable pub drain : ℕ → CachedSession → List InboundCommand → ObservationSchedule → Drained
drain zero c queue o = record { queue = queue; observations = o; snapshots = []; pending = [] }
drain (suc fuel) c [] o = record { queue = []; observations = o; snapshots = []; pending = [] }
drain (suc fuel) c (inbound ∷ queue) o = elim inbound.payload [
  | snapshot_request ↦
      let out = immediate o in
      add_snapshot (inbound.client_id, observation (observe c out.1)) (drain fuel c queue out.0)
  | game_command command ↦
      add_pending (record { client_id = inbound.client_id; seq = inbound.seq; command = command })
        (drain fuel c queue o)
]

abbrev pub commands_of : List PendingCommand → List GameCommand
commands_of [] = []
commands_of (p ∷ pending) = p.command ∷ commands_of pending

-- The response to a command, after the step that it was part of.
abbrev pub respond : CachedSession → Transition → PendingCommand → Outcome → ClientOutbound
respond c t p placed = ack (
    create_applied_ack p.seq p.seq c.runtime.logical_step
      (transition_hash c.snapshots.snapshot 0 t.events []))
respond c t p (refused e) = error (create_error p.seq (map_place_error_code e))

-- The loop over the commands and their outcomes, side by side.
unfoldable pub responses :
    CachedSession → Transition → List PendingCommand → List Outcome → List Reply
responses c t [] outcomes = []
responses c t (p ∷ pending) [] = []
responses c t (p ∷ pending) (o ∷ outcomes) =
    (p.client_id, respond c t p o) ∷ responses c t pending outcomes

abbrev pub capture_all : List CoreLastEvent → ObservationSchedule → ObservationSchedule
capture_all [] o = o
capture_all (e ∷ events) o = capture_all events (capture_event o e)

-- What a step has: the adapter, if there is one, by its queue.
pub record LoopState : Type 0 where
  pub adapter : Option (List InboundCommand)
  pub session : CachedSession
  pub observations : ObservationSchedule

pub record StepResult : Type 0 where
  pub state : LoopState
  pub replies : List Reply
  pub broadcast : Option ObservationMessage
  pub transition : Transition

abbrev pub drain_adapter :
    Option (List InboundCommand) → CachedSession → ObservationSchedule → Drained
drain_adapter none c o = record { queue = []; observations = o; snapshots = []; pending = [] }
drain_adapter (some queue) c o = drain max_commands_per_step c queue o

abbrev pub queue_after : Option (List InboundCommand) → Drained → Option (List InboundCommand)
queue_after none d = none
queue_after (some queue) d = some d.queue

-- The broadcast of a scheduled observation.
abbrev pub broadcast_of :
    Option (List InboundCommand)
    → Bool
    → CachedSession
    → Option (ℕ × List TransitionEvent)
    → Option ObservationMessage
broadcast_of adapter streams c none = none
broadcast_of none streams c (some out) = none
broadcast_of (some queue) streams c (some out) = if streams then some (observe c out) else none

-- The end of a step, after the transition of the session.
abbrev pub finish : LoopState → Drained → Bool → CachedSession × Transition → StepResult
finish s d streams r =
    let scheduled = after_tick (capture_all r.1.events d.observations) r.0.runtime.game in
    record {
      state = record {
        adapter = queue_after s.adapter d;
        session = r.0;
        observations = scheduled.0;
      };
      replies = d.snapshots ++ responses r.0 r.1 d.pending r.1.command_outcomes;
      broadcast = broadcast_of s.adapter streams r.0 scheduled.1;
      transition = r.1;
    }

-- Local actions past the capacity of the input are a panic.
unfoldable pub step_session : LoopState → List GameAction → Bool → Run StepResult
step_session s local streams =
    let d = drain_adapter s.adapter s.session s.observations in
    if leb (length local) max_local_actions_per_step
    then (Cache.transition s.session (record { remote = commands_of d.pending; local = local })
        >>= λ (r : CachedSession × Transition). ret (finish s d streams r))
    else fault
