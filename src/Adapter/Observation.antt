-- ===== src/Adapter/Observation.antt =====
-- crates/tetris-adapter/src/adapter/observation.rs: the observation of a snapshot, and
-- crates/tetris-adapter/src/adapter/client_mailbox.rs: what is sent to a client.
use tui_tetris.Prelude.{ℕ, Option, none, some, List, [], map}
use tui_tetris.Types.{CoreLastEvent, TSpinKind, mini, full}
use tui_tetris.Game.Snapshot.{GameSnapshot}
use tui_tetris.Session.Replay.{transition_hash}
use tui_tetris.Adapter.Protocol.{WelcomeMessage, AckMessage, ErrorMessage}
use tui_tetris.Adapter.Schedule.{TransitionEvent, TSpinLower, mini_lower, full_lower}

-- `snapshot` stands for the fields that are copies of those of the snapshot: the board, the pieces,
-- the flags, the ids, the score and the timers. The time stamp is left out.
pub record ObservationMessage : Type 0 where
  pub seq : ℕ
  pub logical_step : ℕ
  pub snapshot : GameSnapshot
  pub events : List TransitionEvent
  pub state_hash : ℕ

pub data ClientOutbound : Type 0 where
  ack : AckMessage → ClientOutbound
  error : ErrorMessage → ClientOutbound
  welcome : WelcomeMessage → ClientOutbound
  observation : ObservationMessage → ClientOutbound

abbrev pub core_spin : Option TSpinLower → Option TSpinKind
core_spin none = none
core_spin (some t) = elim t [ mini_lower ↦ some mini | full_lower ↦ some full ]

abbrev pub core_event : TransitionEvent → CoreLastEvent
core_event e = record {
  locked = e.locked;
  lines_cleared = e.lines_cleared;
  line_clear_score = e.line_clear_score;
  tspin = core_spin e.tspin;
  combo = e.combo;
  back_to_back = e.back_to_back;
}

-- The array of events holds four, as many as an observation carries.
unfoldable pub build_observation : ℕ → ℕ → GameSnapshot → List TransitionEvent → ObservationMessage
build_observation seq logical_step snap events = record {
  seq = seq;
  logical_step = logical_step;
  snapshot = snap;
  events = events;
  state_hash = transition_hash snap 0 (map core_event events) [];
}
