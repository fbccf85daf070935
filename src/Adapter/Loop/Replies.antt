-- ===== src/Adapter/Loop/Replies.antt =====
-- crates/tetris-adapter/src/adapter/game_loop.rs: the replies of a step.
use tui_tetris.Prelude.{
  ℕ, zero, suc, ◌≡◌, ◌≤◌, refl, ap, sym, Bool, true, false, some, List, [], ◌∷◌, ◌++◌, length, take,
  drop, Returns, ◌⊎◌, inl, inr, arith,
}
use tui_tetris.Prelude.{leb, if◌then◌else◌}
use mathlib.Core.Path.{subst}
use tui_tetris.Types.{GameAction}
use tui_tetris.Session.Place.{Outcome, placed, refused}
use tui_tetris.Session.Runtime.{GameCommand, StepInput, Transition}
use tui_tetris.Session.Steps.{AreCommands, IsCommand, transition-Stepped}
use tui_tetris.Session.Cache
use tui_tetris.Session.Cache.{CachedSession}
use tui_tetris.Session.Coherent.{refresh-Returns}
use tui_tetris.Session.Replay.Verify.{Sound}
use tui_tetris.Adapter.Protocol.{AckMessage, ErrorMessage}
use tui_tetris.Adapter.Schedule.{ObservationSchedule, immediate}
use tui_tetris.Adapter.Observation.{ObservationMessage, ack, error, observation}
use tui_tetris.Adapter.Server.{InboundCommand, InboundPayload, game_command, snapshot_request}
use tui_tetris.Adapter.Loop.{
  Drained, PendingCommand, Reply, drain, commands_of, respond, responses, LoopState, StepResult,
  step_session,
}

-- A reply belongs to a message: its client's, and an observation for a request, or an
-- acknowledgment or an error of its number for a command.
pub data Answers : InboundCommand → Reply → Type 0 where
  by_observation :
      {x : InboundCommand} {o : ObservationMessage}
      → x.payload ≡ snapshot_request
      → Answers x (x.client_id, observation o)
  by_ack :
      {x : InboundCommand} {c : GameCommand} {a : AckMessage}
      → x.payload ≡ game_command c
      → a.correlation_seq ≡ x.seq
      → Answers x (x.client_id, ack a)
  by_error :
      {x : InboundCommand} {c : GameCommand} {e : ErrorMessage}
      → x.payload ≡ game_command c
      → e.seq ≡ x.seq
      → Answers x (x.client_id, error e)

abbrev pub is_command : InboundPayload → Bool
is_command (game_command c) = true
is_command snapshot_request = false

-- The messages of the queue of either kind, in order.
unfoldable pub commands : List InboundCommand → List InboundCommand
commands [] = []
commands (x ∷ xs) = if is_command x.payload then x ∷ commands xs else commands xs

unfoldable pub requests : List InboundCommand → List InboundCommand
requests [] = []
requests (x ∷ xs) = if is_command x.payload then requests xs else x ∷ requests xs

-- Each message has its reply, in order.
pub data AnswersAll : List InboundCommand → List Reply → Type 0 where
  nothing : AnswersAll [] []
  next :
      {x : InboundCommand} {r : Reply} {xs : List InboundCommand} {rs : List Reply}
      → Answers x r
      → AnswersAll xs rs
      → AnswersAll (x ∷ xs) (r ∷ rs)

-- The pending commands are the messages.
pub data ArePending : List InboundCommand → List PendingCommand → Type 0 where
  nothing : ArePending [] []
  next :
      {x : InboundCommand} {p : PendingCommand} {xs : List InboundCommand}
      {ps : List PendingCommand}
      → x.payload ≡ game_command p.command
      → x.client_id ≡ p.client_id
      → x.seq ≡ p.seq
      → ArePending xs ps
      → ArePending (x ∷ xs) (p ∷ ps)

pub payload-cases :
    (p : InboundPayload) → (p ≡ snapshot_request) ⊎ ((c : GameCommand) × (p ≡ game_command c))
payload-cases snapshot_request = inl refl
payload-cases (game_command c) = inr (c, refl)

drain-AnswersAll :
    (fuel : ℕ) (c : CachedSession) (queue : List InboundCommand) (o : ObservationSchedule)
    → AnswersAll (requests (take fuel queue)) (drain fuel c queue o).snapshots
unfolding drain requests
drain-AnswersAll zero c queue o = nothing
drain-AnswersAll (suc fuel) c [] o = nothing
drain-AnswersAll (suc fuel) c (x ∷ queue) o = elim (payload-cases x.payload) [
  | inl e ↦ simp e (next (by_observation e) (drain-AnswersAll fuel c queue (immediate o).0))
  | inr (g, e) ↦ simp e (drain-AnswersAll fuel c queue o)
]

drain-ArePending :
    (fuel : ℕ) (c : CachedSession) (queue : List InboundCommand) (o : ObservationSchedule)
    → ArePending (commands (take fuel queue)) (drain fuel c queue o).pending
unfolding drain commands
drain-ArePending zero c queue o = nothing
drain-ArePending (suc fuel) c [] o = nothing
drain-ArePending (suc fuel) c (x ∷ queue) o = elim (payload-cases x.payload) [
  | inl e ↦ simp e (drain-ArePending fuel c queue (immediate o).0)
  | inr (g, e) ↦ simp e (next e refl refl (drain-ArePending fuel c queue o))
]

drain-queue :
    (fuel : ℕ) (c : CachedSession) (queue : List InboundCommand) (o : ObservationSchedule)
    → (drain fuel c queue o).queue ≡ drop fuel queue
unfolding drain
drain-queue zero c queue o = refl
drain-queue (suc fuel) c [] o = refl
drain-queue (suc fuel) c (x ∷ queue) o = elim (payload-cases x.payload) [
  | inl e ↦ simp e (drain-queue fuel c queue (immediate o).0)
  | inr (g, e) ↦ simp e (drain-queue fuel c queue o)
]

-- The placements of the queue have i8 columns.
abbrev pub IsPayload : InboundPayload → Type 0
IsPayload (game_command c) = IsCommand c
IsPayload snapshot_request = Unit

abbrev pub ArePayloads : List InboundCommand → Type 0
ArePayloads [] = Unit
ArePayloads (x ∷ xs) = IsPayload x.payload × ArePayloads xs

drain-AreCommands :
    (fuel : ℕ) (c : CachedSession) (queue : List InboundCommand) (o : ObservationSchedule)
    → ArePayloads queue
    → AreCommands (commands_of (drain fuel c queue o).pending)
unfolding drain
drain-AreCommands zero c queue o p = tt
drain-AreCommands (suc fuel) c [] o p = tt
drain-AreCommands (suc fuel) c (x ∷ queue) o (p, ps) = elim (payload-cases x.payload) [
  | inl e ↦ simp e (drain-AreCommands fuel c queue (immediate o).0 ps)
  | inr (g, e) ↦ simp e (subst IsPayload e p, drain-AreCommands fuel c queue o ps)
]

pub respond-Answers :
    (c : CachedSession) (t : Transition) (x : InboundCommand) (p : PendingCommand) (o : Outcome)
    → x.payload ≡ game_command p.command
    → x.seq ≡ p.seq
    → Answers x (x.client_id, respond c t p o)
respond-Answers c t x p placed is_command same = by_ack is_command (sym same)
respond-Answers c t x p (refused e) is_command same = by_error is_command (sym same)

responses-AnswersAll :
    (c : CachedSession) (t : Transition) (xs : List InboundCommand) (ps : List PendingCommand)
    (outcomes : List Outcome)
    → ArePending xs ps
    → length outcomes ≡ length (commands_of ps)
    → AnswersAll xs (responses c t ps outcomes)
unfolding responses
responses-AnswersAll c t _ _ outcomes nothing e = nothing
responses-AnswersAll c t _ _ [] (next is_command same_client same_seq rest) e =
    absurd (ground (arith, e))
responses-AnswersAll c t _ _ (o ∷ outcomes)
      (next {x} {p} {xs} {ps} is_command same_client same_seq rest) e =
    next
      (subst (λ (i : ℕ). Answers x (i, respond c t p o)) same_client
        (respond-Answers c t x p o is_command same_seq))
      (responses-AnswersAll c t xs ps outcomes rest (omega (arith, e)))

-- What a step does with the queue: at most 32 messages are taken, in order, and each has one reply;
-- the observations for the requests come first, then the replies to the commands.
pub record Served (queue : List InboundCommand) (r : StepResult) : Type 0 where
  pub left : r.state.adapter ≡ some (drop 32 queue)
  pub snapshots : List Reply
  pub answers : List Reply
  pub sent : r.replies ≡ snapshots ++ answers
  pub requested : AnswersAll (requests (take 32 queue)) snapshots
  pub commanded : AnswersAll (commands (take 32 queue)) answers
  pub sound : Sound r.state.session

pub transition-Answered :
    (c : CachedSession) (input : StepInput)
    → AreCommands input.remote
    → Sound c
    → Returns
        (Cache.transition c input)
        (λ r. Sound r.0 × (length r.1.command_outcomes ≡ length input.remote))
unfolding Cache.transition
transition-Answered c input ok w =
    let (r, e, p) = transition-Stepped c.runtime input ok w in
    let (store, e', u) = refresh-Returns c.snapshots r.0.game p.0 in
    rw e (rw e' (_, refl, (p.0, p.2)))

-- With an adapter, a well-formed game and at most 64 local actions, a step returns. It takes the
-- first 32 messages of the queue, or all if there are fewer, and each has one reply, which goes to its
-- client: an observation for a request of a snapshot, and an acknowledgment or an error with the
-- number of the message for a command. The game is well formed after it.
pub step_session-Served :
    (s : LoopState) (queue : List InboundCommand) (local : List GameAction) (streams : Bool)
    → s.adapter ≡ some queue
    → ArePayloads queue
    → Sound s.session
    → length local ≤ 64
    → Returns (step_session s local streams) (Served queue)
unfolding step_session
step_session-Served s queue local streams on payloads w short =
    let d : Drained = drain 32 s.session queue s.observations in
    let fits : leb (length local) 64 ≡ true = ground (arith, short) in
    let (r, e, (w', outcomes)) =
      transition-Answered s.session (record { remote = commands_of d.pending; local = local })
        (drain-AreCommands 32 s.session queue s.observations payloads) w in
    rw on (
      rw fits (
        rw e (
          _,
          refl,
          record {
            left = ap some (drain-queue 32 s.session queue s.observations);
            snapshots = d.snapshots;
            answers = responses r.0 r.1 d.pending r.1.command_outcomes;
            sent = refl;
            requested = drain-AnswersAll 32 s.session queue s.observations;
            commanded =
                responses-AnswersAll r.0 r.1 (commands (take 32 queue)) d.pending
                  r.1.command_outcomes (drain-ArePending 32 s.session queue s.observations)
                  outcomes;
            sound = w';
          },
        )))
