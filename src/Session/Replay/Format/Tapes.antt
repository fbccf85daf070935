-- ===== src/Session/Replay/Format/Tapes.antt =====
-- crates/tetris-session/src/engine/replay.rs: a recorded tape is decoded from its text.
use tui_tetris.Prelude.{
  ℕ, suc, ◌+◌, ◌*◌, ◌%◌, ◌≤◌, ◌<◌, ◌≡◌, refl, ap, ◌∙◌, none, some, List, [], ◌∷◌, ◌++◌, length,
  arith, u32_max, u64_mod, Run, ret, fault, ◌>>=◌, Allows, Allows->>=,
}
use tui_tetris.Prelude.{to_decimal, split}
use Prim.Native.Nat.{bit_xor}
use mathlib.Core.Path.{subst}
use tui_tetris.Types.{GameAction, CoreLastEvent, codes, action_as_str}
use tui_tetris.Game.Snapshot.{
  GameSnapshot, stable_state_hash, write, write_all, offset_basis, prime, state_writes,
}
use tui_tetris.Session.Place.{Outcome}
use tui_tetris.Session.Runtime.{GameCommand, StepInput, Transition}
use tui_tetris.Session.Cache
use tui_tetris.Session.Cache.{CachedSession}
use tui_tetris.Session.Replay.{
  ReplayTape, StepRecord, record_tape, record_steps, inputs_of, transition_hash, hash_of,
}
use tui_tetris.Session.Replay.Format.{
  tabbed, command_fields, command_lines, local_lines, record_lines, header_line, encode,
  decode_lines, parse_header, decode_all, decode, format_name, ruleset_version,
}
use tui_tetris.Session.Replay.Format.Parts.{
  AtLeast-mono, AllAtLeast, split-join, Without-join, IsLine, AreLines, lines-terminated,
}
use tui_tetris.Session.Replay.Format.Numbers.{AtLeast-to_decimal, parse_unsigned-to_decimal}
use tui_tetris.Session.Replay.Format.Steps.{IsInput, AtLeast-action, AllAtLeast-command}
use tui_tetris.Session.Replay.Format.RoundTrip.{AreRecords, AllAtLeast-step, decode-record_lines}

write-bound : (hash : ℕ) (bytes : List ℕ) → hash < u64_mod → write hash bytes < u64_mod
unfolding write
write-bound hash [] lt = lt
write-bound hash (byte ∷ bytes) lt =
    write-bound ((bit_xor hash byte * prime) % u64_mod) bytes (omega arith)

write_all-bound : (hash : ℕ) (ws : List (List ℕ)) → hash < u64_mod → write_all hash ws < u64_mod
unfolding write_all
write_all-bound hash [] lt = lt
write_all-bound hash (bytes ∷ rest) lt =
    write_all-bound (write hash bytes) rest (write-bound hash bytes lt)

transition_hash-bound :
    (snap : GameSnapshot) (step : ℕ) (events : List CoreLastEvent) (outcomes : List Outcome)
    → transition_hash snap step events outcomes < u64_mod
unfolding transition_hash stable_state_hash
transition_hash-bound snap step events outcomes =
    write_all-bound _ _ (write_all-bound offset_basis (state_writes snap none) (omega arith))

tabbed-IsLine : (fields : List (List ℕ)) → AllAtLeast 44 fields → IsLine (tabbed fields)
tabbed-IsLine fields h = (
  Without-join 10 9 44 fields (omega arith) refl h,
  Without-join 13 9 44 fields (omega arith) refl h,
)

commands-AreLines :
    (commands : List GameCommand) (rest : List (List ℕ))
    → AreLines rest
    → AreLines (command_lines commands ++ rest)
commands-AreLines [] rest h = h
commands-AreLines (c ∷ commands) rest h =
    (tabbed-IsLine (command_fields c) (AllAtLeast-command c), commands-AreLines commands rest h)

actions-AreLines :
    (actions : List GameAction) (rest : List (List ℕ))
    → AreLines rest
    → AreLines (local_lines actions ++ rest)
actions-AreLines [] rest h = h
actions-AreLines (a ∷ actions) rest h = (
  tabbed-IsLine (codes "L" ∷ action_as_str a ∷ [])
      (refl, (AtLeast-mono 44 45 (action_as_str a) (omega arith) (AtLeast-action a), tt)),
  actions-AreLines actions rest h,
)

records-AreLines : (records : List StepRecord) → AreLines (record_lines records)
unfolding record_lines
records-AreLines [] = tt
records-AreLines (rec ∷ records) = (
  tabbed-IsLine (codes "S" ∷ to_decimal rec.step ∷ to_decimal rec.state_hash ∷ [])
      (AllAtLeast-step rec),
  commands-AreLines rec.input.remote
      (local_lines rec.input.local ++ codes "E" ∷ record_lines records)
      (actions-AreLines rec.input.local (codes "E" ∷ record_lines records)
        ((refl, refl), records-AreLines records)),
)

AllAtLeast-header :
    (seed : ℕ) → AllAtLeast 44 (format_name ∷ ruleset_version ∷ to_decimal seed ∷ [])
AllAtLeast-header seed = (
  refl,
  (refl, (AtLeast-mono 44 48 (to_decimal seed) (omega arith) (AtLeast-to_decimal seed), tt)),
)

header_self : (seed : ℕ) → seed ≤ u32_max → parse_header (split 9 (header_line seed)) ≡ some seed
unfolding parse_header
header_self seed le =
    ap parse_header (
      split-join 9 44 format_name (ruleset_version ∷ to_decimal seed ∷ []) (omega arith)
        (AllAtLeast-header seed))
    ∙ parse_unsigned-to_decimal u32_max seed (omega arith) le

-- The inputs of a recording within the bounds of their types.
abbrev pub AreTextInputs : List StepInput → Type 0
AreTextInputs [] = Unit
AreTextInputs (input ∷ inputs) = IsInput input × AreTextInputs inputs

Allows-any {ℓ} : {A : Type ℓ} (m : Run A) → Allows m (λ a. Unit {0})
Allows-any (ret a) = tt
Allows-any fault = tt

abbrev IsRecorded : List StepInput → List StepRecord → Type 0
IsRecorded inputs records = AreRecords records × (inputs_of records ≡ inputs)

record_steps-IsRecorded :
    (step : ℕ) (c : CachedSession) (inputs : List StepInput)
    → step + length inputs < u64_mod
    → AreTextInputs inputs
    → Allows (record_steps step c inputs) (λ r. IsRecorded inputs r.1)
unfolding record_steps
record_steps-IsRecorded step c [] lt ok = (tt, refl)
record_steps-IsRecorded step c (input ∷ inputs) lt (ok, oks) =
    Allows->>= (Cache.transition c input)
      (λ (r : CachedSession × Transition).
        record_steps (suc step) r.0 inputs >>= λ (rest : CachedSession × List StepRecord).
        ret (rest.0, record { step = step; input = input; state_hash = hash_of r } ∷ rest.1))
      (λ r. Unit {0}) (λ q. IsRecorded (input ∷ inputs) q.1) (Allows-any (Cache.transition c input))
      (λ r _.
        Allows->>= (record_steps (suc step) r.0 inputs)
          (λ (rest : CachedSession × List StepRecord).
            ret (rest.0, record { step = step; input = input; state_hash = hash_of r } ∷ rest.1))
          (λ q. IsRecorded inputs q.1) (λ q. IsRecorded (input ∷ inputs) q.1)
          (record_steps-IsRecorded (suc step) r.0 inputs (omega (arith, lt)) oks)
          (λ rest p. (
            (
              record {
                step = omega (arith, lt);
                state_hash =
                    transition_hash-bound r.0.snapshots.snapshot r.0.runtime.logical_step r.1.events
                      r.1.command_outcomes;
                input = ok;
              },
              p.0,
            ),
            ap (λ (is : List StepInput). input ∷ is) p.1,
          )))

-- The tape of a recording.
abbrev IsTape : ℕ → List StepInput → ReplayTape → Type 0
IsTape seed inputs tape = (tape.seed ≡ seed) × IsRecorded inputs tape.records

record_tape-IsTape :
    (seed : ℕ) (inputs : List StepInput)
    → length inputs < u64_mod
    → AreTextInputs inputs
    → Allows (record_tape seed inputs) (IsTape seed inputs)
unfolding record_tape
record_tape-IsTape seed inputs lt ok =
    Allows->>= (Cache.new seed)
      (λ (c : CachedSession). record_steps 0 c inputs >>= λ (r : CachedSession × List StepRecord).
        ret (record { seed = seed; records = r.1; final_snapshot = r.0.snapshots.snapshot }))
      (λ c. Unit {0}) (IsTape seed inputs) (Allows-any (Cache.new seed))
      (λ c _.
        Allows->>= (record_steps 0 c inputs)
          (λ (r : CachedSession × List StepRecord).
            ret (record { seed = seed; records = r.1; final_snapshot = r.0.snapshots.snapshot }))
          (λ r. IsRecorded inputs r.1) (IsTape seed inputs)
          (record_steps-IsRecorded 0 c inputs (omega (arith, lt)) ok) (λ r p. (refl, p)))

-- A tape that was recorded, from any seed and inputs within the bounds of their types, fewer than
-- 2 ^ 64, is decoded from its text: seed, records and final snapshot.
pub decode-encode :
    (seed : ℕ) (inputs : List StepInput) (tape : ReplayTape)
    → seed ≤ u32_max
    → length inputs < u64_mod
    → AreTextInputs inputs
    → record_tape seed inputs ≡ ret tape
    → decode (encode tape) ≡ ret (some tape)
unfolding decode encode
decode-encode seed inputs tape le lt ok e =
    let (same, (bounds, recorded)) =
      subst (λ (m : Run ReplayTape). Allows m (IsTape seed inputs)) e
        (record_tape-IsTape seed inputs lt ok) in
    let header : parse_header (split 9 (header_line tape.seed)) ≡ some seed =
      ap (λ (n : ℕ). parse_header (split 9 (header_line n))) same ∙ header_self seed le in
    let body : decode_lines none (record_lines tape.records) ≡ some tape.records =
      decode-record_lines tape.records bounds in
    let again : record_tape seed (inputs_of tape.records) ≡ ret tape =
      ap (record_tape seed) recorded ∙ e in
    ap decode_all (
      lines-terminated (header_line tape.seed ∷ record_lines tape.records) (
        tabbed-IsLine (format_name ∷ ruleset_version ∷ to_decimal tape.seed ∷ [])
            (AllAtLeast-header tape.seed),
        records-AreLines tape.records,
      ))
    ∙ rw header (rw body (rw again refl))
