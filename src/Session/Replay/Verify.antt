-- ===== src/Session/Replay/Verify.antt =====
-- crates/tetris-session/src/engine/replay.rs: recording and replay agree.
use tui_tetris.Prelude.{ℕ, suc, ◌≡◌, refl, ap, ◌∙◌, Bool, true, false, List, [], ◌∷◌}
use tui_tetris.Prelude.{Run, ret, ◌>>=◌, Returns, ◌==◌, ==_iff}
use tui_tetris.Game.State.{GameState}
use tui_tetris.Game.Invariant.{IsWellFormed}
use tui_tetris.Game.Invariant.Calls.{new-IsWellFormed, start-IsWellFormed}
use tui_tetris.Game.State
use tui_tetris.Session.Runtime.{StepInput, Transition}
use tui_tetris.Session.Steps.{AreCommands, transition-Stepped}
use tui_tetris.Session.Cache
use tui_tetris.Session.Cache.{CachedSession, SnapshotStore, refresh, empty_store}
use tui_tetris.Session.Coherent.{refresh-Returns}
use tui_tetris.Session.Replay.{
  StepRecord, Verdict, verified, mismatched, hash_of, inputs_of, record_steps, record_tape,
  verify_steps, replay_and_verify,
}

abbrev pub Sound : CachedSession → Type 0
Sound c = IsWellFormed c.runtime.game

pub transition-Returns :
    (c : CachedSession) (input : StepInput)
    → AreCommands input.remote
    → Sound c
    → Returns (Cache.transition c input) (λ r. Sound r.0)
unfolding Cache.transition
transition-Returns c input ok w =
    let (r, e, p) = transition-Stepped c.runtime input ok w in
    let (store, e', u) = refresh-Returns c.snapshots r.0.game p.0 in rw e (rw e' (_, refl, p.0))

pub new-Returns : (seed : ℕ) → Returns (Cache.new seed) Sound
unfolding Cache.new Cache.from_runtime
new-Returns seed =
    let w = start-IsWellFormed (State.new seed) (new-IsWellFormed seed) in
    let (store, e, u) = refresh-Returns empty_store (State.start (State.new seed)) w in
    rw e (_, refl, w)

-- The commands of each input are those of the protocol.
abbrev pub AreInputs : List StepInput → Type 0
AreInputs [] = Unit {0}
AreInputs (input ∷ inputs) = AreCommands input.remote × AreInputs inputs

-- The step of the replay whose transition is `r`.
abbrev pub judge :
    ℕ → StepRecord → List StepRecord → CachedSession × Transition → Bool → Run Verdict
judge index rec records r same = elim same [
  | true ↦ verify_steps (suc index) r.0 records
  | false ↦
      ret (mismatched (record { step = index; expected = rec.state_hash; actual = hash_of r }))
]

pub verify_steps-cons :
    (index : ℕ) (c : CachedSession) (rec : StepRecord) (records : List StepRecord)
    (r : CachedSession × Transition) (same : Bool)
    → Cache.transition c rec.input ≡ ret r
    → (hash_of r == rec.state_hash) ≡ same
    → verify_steps index c (rec ∷ records) ≡ judge index rec records r same
unfolding verify_steps
verify_steps-cons index c rec records r same e h =
    ap
      (λ z. z >>= λ (q : CachedSession × Transition).
        judge index rec records q (hash_of q == rec.state_hash))
      e
    ∙ ap (λ b. judge index rec records r b) h

-- Replaying what was recorded from a session ends in the same session.
record_steps-verifies :
    (step : ℕ) (c : CachedSession) (inputs : List StepInput)
    → AreInputs inputs
    → Sound c
    → Returns
        (record_steps step c inputs)
        (λ r. (verify_steps step c r.1 ≡ ret (verified r.0)) × (inputs_of r.1 ≡ inputs))
unfolding record_steps verify_steps
record_steps-verifies step c [] ok w = ((c, []), refl, (refl, refl))
record_steps-verifies step c (input ∷ inputs) (ok, oks) w =
    let (r, e, w') = transition-Returns c input ok w in
    let (rest, e', (v, same)) = record_steps-verifies (suc step) r.0 inputs oks w' in
    (
      (rest.0, record { step = step; input = input; state_hash = hash_of r } ∷ rest.1),
      rw e (rw e' refl),
      (
        verify_steps-cons step c (record { step = step; input = input; state_hash = hash_of r })
              rest.1 r true e ((==_iff (hash_of r) (hash_of r)).1 refl)
            ∙ v,
        ap (λ z. input ∷ z) same,
      ),
    )

-- Recording any inputs from any seed returns a tape with that seed and those inputs, which replays
-- without a mismatch, to a session whose snapshot is the tape's final one.
pub record_tape-verifies :
    (seed : ℕ) (inputs : List StepInput)
    → AreInputs inputs
    → Returns (record_tape seed inputs) (λ tape.
      (tape.seed ≡ seed)
      × (inputs_of tape.records ≡ inputs)
      × (c : CachedSession) × ((replay_and_verify tape ≡ ret (verified c))
          × (c.snapshots.snapshot ≡ tape.final_snapshot)))
unfolding record_tape replay_and_verify
record_tape-verifies seed inputs ok =
    let (c, e, w) = new-Returns seed in
    let (r, e', (v, same)) = record_steps-verifies 0 c inputs ok w in
    (
      record { seed = seed; records = r.1; final_snapshot = r.0.snapshots.snapshot },
      rw e (rw e' refl),
      (refl, same, r.0, (rw e v, refl)),
    )
