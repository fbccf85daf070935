-- ===== src/Adapter/Schedule.antt =====
-- crates/tetris-adapter/src/adapter/observation_schedule.rs: when an observation is sent, and the
-- events that it carries. The frequency from the environment (`from_env`) is a number here.
pub mod Cadence
pub mod Pending
use tui_tetris.Prelude.{
  ℕ, zero, suc, ◌+◌, ◌-◌, Bool, true, false, not, ◌&&◌, ◌||◌, Option, none, some, List, [], ◌∷◌,
  ◌++◌, length, drop,
}
use tui_tetris.Prelude.{ltb, ◌==◌, if◌then◌else◌, saturating_add, saturating_mul, u64_mod, ◌%◌}
use tui_tetris.Types.{CoreLastEvent, TSpinKind, no_spin, mini, full, tick_ms}
use tui_tetris.Game.State.{GameState}

pub data TSpinLower : Type 0 where
  mini_lower full_lower : TSpinLower

pub record TransitionEvent : Type 0 where
  pub locked : Bool
  pub lines_cleared : ℕ
  pub line_clear_score : ℕ
  pub tspin : Option TSpinLower
  pub combo : ℕ
  pub back_to_back : Bool

abbrev pub lower_spin : Option TSpinKind → Option TSpinLower
lower_spin none = none
lower_spin (some t) = elim t [ mini ↦ some mini_lower | full ↦ some full_lower | no_spin ↦ none ]

-- `TransitionEvent::from`.
abbrev pub from_event : CoreLastEvent → TransitionEvent
from_event e = record {
  locked = e.locked;
  lines_cleared = e.lines_cleared;
  line_clear_score = e.line_clear_score;
  tspin = lower_spin e.tspin;
  combo = e.combo;
  back_to_back = e.back_to_back;
}

pub record ObservationSchedule : Type 0 where
  pub frequency_hz : ℕ
  pub accumulated_frequency_units : ℕ
  pub seq : ℕ
  pub last_episode_id : ℕ
  pub last_piece_id : ℕ
  pub last_active_id : ℕ
  pub last_paused : Bool
  pub last_game_over : Bool
  pub pending_events : List TransitionEvent

abbrev pub new : GameState → ℕ → ObservationSchedule
new game frequency_hz = record {
  frequency_hz = if ltb frequency_hz 1 then 1 else if ltb 60 frequency_hz then 60 else frequency_hz;
  accumulated_frequency_units = 0;
  seq = 0;
  last_episode_id = game.episode_id;
  last_piece_id = game.piece_id;
  last_active_id = game.active_id;
  last_paused = game.paused;
  last_game_over = game.game_over;
  pending_events = [];
}

-- A push on the array of 4, whose oldest event goes if it is full.
unfoldable pub capture_event : ObservationSchedule → CoreLastEvent → ObservationSchedule
capture_event o event = record o {
  pending_events =
      (if length o.pending_events == 4 then drop 1 o.pending_events else o.pending_events)
      ++ from_event event ∷ [];
}

unfoldable pub immediate : ObservationSchedule → ObservationSchedule × (ℕ × List TransitionEvent)
immediate o =
    let seq = (o.seq + 1) % u64_mod in
    (record o { seq = seq; pending_events = [] }, (seq, o.pending_events))

abbrev pub same_flag : Bool → Bool → Bool
same_flag true b = b
same_flag false b = not b

-- Whether one of the tracked values of the game changed, or an event is pending.
abbrev pub is_critical : ObservationSchedule → GameState → Bool
is_critical o game =
    not (o.last_piece_id == game.piece_id)
    || not (o.last_active_id == game.active_id)
    || not (o.last_episode_id == game.episode_id)
    || not (same_flag o.last_paused game.paused)
    || not (same_flag o.last_game_over game.game_over)
    || not (length o.pending_events == 0)

-- The calls of `update_changed` and the accumulation.
abbrev pub track : ObservationSchedule → GameState → ObservationSchedule
track o game = record o {
  last_piece_id = game.piece_id;
  last_active_id = game.active_id;
  last_episode_id = game.episode_id;
  last_paused = game.paused;
  last_game_over = game.game_over;
  accumulated_frequency_units =
      saturating_add o.accumulated_frequency_units (saturating_mul tick_ms o.frequency_hz);
}

abbrev pub emit : ObservationSchedule → ObservationSchedule × Option (ℕ × List TransitionEvent)
emit o = let out = immediate o in (out.0, some out.1)

unfoldable pub after_tick :
    ObservationSchedule → GameState → ObservationSchedule × Option (ℕ × List TransitionEvent)
after_tick o game =
    let o' = track o game in
    if not (is_critical o game) && ltb o'.accumulated_frequency_units 1000
    then (o', none)
    else if is_critical o game
    then emit (record o' { accumulated_frequency_units = 0 })
    else emit (record o' { accumulated_frequency_units = o'.accumulated_frequency_units - 1000 })
