-- ===== src/Session/Replay.antt =====
-- crates/tetris-session/src/engine/replay.rs: tapes, and their replay.
-- The text format of a tape is in Replay.Format.
pub mod Verify
pub mod Mismatch
pub mod Format
use tui_tetris.Prelude.{
  ℕ, suc, Bool, true, false, not, Option, none, some, List, [], ◌∷◌, ◌++◌, length, Run, ret, fault,
  ◌>>=◌, ◌==◌, take, ltb,
}
use tui_tetris.Prelude.{if◌then◌else◌}
use tui_tetris.Types.{CoreLastEvent}
use tui_tetris.Game.Snapshot.{GameSnapshot, stable_state_hash, write_all, u64_bytes}
use tui_tetris.Session.Place.{
  Outcome, placed, refused, PlaceError, hold_unavailable, rotation_blocked, x_out_of_bounds,
  x_blocked, not_playable, no_active,
}
use tui_tetris.Session.Runtime.{StepInput, Transition, SessionRuntime}
use tui_tetris.Session.Cache
use tui_tetris.Session.Cache.{CachedSession}

abbrev pub outcome_code : Outcome → ℕ
outcome_code placed = 0
outcome_code (refused e) = elim e [
  | hold_unavailable ↦ 1
  | rotation_blocked ↦ 2
  | x_out_of_bounds ↦ 3
  | x_blocked ↦ 4
  | not_playable ↦ 5
  | no_active ↦ 6
]

abbrev pub outcome_writes : List Outcome → List (List ℕ)
outcome_writes [] = []
outcome_writes (o ∷ outcomes) = (outcome_code o ∷ []) ∷ outcome_writes outcomes

abbrev pub event_hashes : GameSnapshot → List CoreLastEvent → List (List ℕ)
event_hashes snap [] = []
event_hashes snap (e ∷ events) =
    u64_bytes (stable_state_hash snap (some e)) ∷ event_hashes snap events

unfoldable pub transition_hash : GameSnapshot → ℕ → List CoreLastEvent → List Outcome → ℕ
transition_hash snap logical_step events outcomes = write_all (stable_state_hash snap none) (
    u64_bytes logical_step
    ∷ u64_bytes (length events)
    ∷ (event_hashes snap events ++ u64_bytes (length outcomes) ∷ outcome_writes outcomes))

pub record StepRecord : Type 0 where
  pub step : ℕ
  pub input : StepInput
  pub state_hash : ℕ

pub record ReplayTape : Type 0 where
  pub seed : ℕ
  pub records : List StepRecord
  pub final_snapshot : GameSnapshot

pub record ReplayMismatch : Type 0 where
  pub step : ℕ
  pub expected : ℕ
  pub actual : ℕ

-- The hash of a transition that left the session `r.0`.
abbrev pub hash_of : CachedSession × Transition → ℕ
hash_of r =
    transition_hash r.0.snapshots.snapshot r.0.runtime.logical_step r.1.events r.1.command_outcomes

-- The loop of `ReplayTape::record`, from step `step` on.
unfoldable pub record_steps :
    ℕ → CachedSession → List StepInput → Run (CachedSession × List StepRecord)
record_steps step c [] = ret (c, [])
record_steps step c (input ∷ inputs) =
    Cache.transition c input >>= λ (r : CachedSession × Transition).
    record_steps (suc step) r.0 inputs >>= λ (rest : CachedSession × List StepRecord).
    ret (rest.0, record { step = step; input = input; state_hash = hash_of r } ∷ rest.1)

-- `ReplayTape::record`.
unfoldable pub record_tape : ℕ → List StepInput → Run ReplayTape
record_tape seed inputs = Cache.new seed >>= λ (c : CachedSession).
    record_steps 0 c inputs >>= λ (r : CachedSession × List StepRecord).
    ret (record { seed = seed; records = r.1; final_snapshot = r.0.snapshots.snapshot })

-- `Result<SessionRuntime, ReplayMismatch>`.
pub data Verdict : Type 0 where
  verified : CachedSession → Verdict
  mismatched : ReplayMismatch → Verdict

-- The loop of `replay_and_verify`, from index `index` on.
unfoldable pub verify_steps : ℕ → CachedSession → List StepRecord → Run Verdict
verify_steps index c [] = ret (verified c)
verify_steps index c (rec ∷ records) =
    Cache.transition c rec.input >>= λ (r : CachedSession × Transition).
    elim (hash_of r == rec.state_hash) [
      | true ↦ verify_steps (suc index) r.0 records
      | false ↦
          ret (mismatched (record { step = index; expected = rec.state_hash; actual = hash_of r }))
    ]

unfoldable pub replay_and_verify : ReplayTape → Run Verdict
replay_and_verify tape =
    Cache.new tape.seed >>= λ (c : CachedSession). verify_steps 0 c tape.records

abbrev pub inputs_of : List StepRecord → List StepInput
inputs_of [] = []
inputs_of (rec ∷ records) = rec.input ∷ inputs_of records

-- The records up to the mismatch; the slice panics if there are not so many.
unfoldable pub minimal_failure_prefix : ReplayTape → ReplayMismatch → Run ReplayTape
minimal_failure_prefix tape mismatch =
    let records = take (suc mismatch.step) tape.records in
    if ltb mismatch.step (length tape.records)
    then (record_tape tape.seed (inputs_of records) >>= λ (prefix : ReplayTape).
        ret (record {
          seed = prefix.seed;
          records = records;
          final_snapshot = prefix.final_snapshot;
        }))
    else fault
