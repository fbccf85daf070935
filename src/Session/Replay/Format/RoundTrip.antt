-- ===== src/Session/Replay/Format/RoundTrip.antt =====
-- crates/tetris-session/src/engine/replay.rs: a tape is read as it is written.
use tui_tetris.Prelude.{
  ℕ, ◌+◌, ◌-◌, ◌≤◌, ◌<◌, ◌≡◌, refl, ap, sym, ◌∙◌, false, none, some, List, [], ◌∷◌, ◌++◌, length,
  arith, append_assoc, append-nil, u64_mod, length-append,
}
use tui_tetris.Prelude.{leb, split, join, to_decimal}
use tui_tetris.Types.{GameAction, codes, bytes_eq, action_as_str}
use tui_tetris.Session.Runtime.{GameCommand, batch, place}
use tui_tetris.Session.Replay.{StepRecord}
use tui_tetris.Session.Replay.Format.{
  tabbed, command_fields, command_lines, local_lines, step_line, record_lines, parse_fields,
  parse_step, add_record, decode_lines, max_local_actions,
}
use tui_tetris.Session.Replay.Format.Parts.{AtLeast-mono, AllAtLeast, split-join}
use tui_tetris.Session.Replay.Format.Numbers.{AtLeast-to_decimal, parse_unsigned-to_decimal}
use tui_tetris.Session.Replay.Format.Steps.{
  AreBounded, IsInput, action_self, AtLeast-action, AllAtLeast-command, parse-command, add_command,
  add_local,
}

-- A record within the bounds of its types.
pub record IsRecord (rec : StepRecord) : Type 0 where
  pub step : rec.step < u64_mod
  pub state_hash : rec.state_hash < u64_mod
  pub input : IsInput rec.input

abbrev pub AreRecords : List StepRecord → Type 0
AreRecords [] = Unit
AreRecords (rec ∷ records) = IsRecord rec × AreRecords records

fields-command : (c : GameCommand) → split 9 (tabbed (command_fields c)) ≡ command_fields c
unfolding command_fields
fields-command (batch actions seed) =
    split-join 9 44 _ _ (omega arith) (AllAtLeast-command (batch actions seed))
fields-command (place x rotation use_hold) =
    split-join 9 44 _ _ (omega arith) (AllAtLeast-command (place x rotation use_hold))

command-goes_on : (c : GameCommand) → bytes_eq (tabbed (command_fields c)) (codes "E") ≡ false
unfolding command_fields join
command-goes_on (batch actions seed) = refl
command-goes_on (place x rotation use_hold) = refl

local-goes_on :
    (a : GameAction) → bytes_eq (tabbed (codes "L" ∷ action_as_str a ∷ [])) (codes "E") ≡ false
unfolding join
local-goes_on a = refl

abbrev with_commands : StepRecord → List GameCommand → StepRecord
with_commands rec commands = record rec {
  input = record { remote = rec.input.remote ++ commands; local = rec.input.local };
}

abbrev with_actions : StepRecord → List GameAction → StepRecord
with_actions rec actions = record rec {
  input = record { remote = rec.input.remote; local = rec.input.local ++ actions };
}

-- One line of a step.
decode-line :
    (rec rec' : StepRecord) (line : List ℕ) (rest : List (List ℕ))
    → bytes_eq line (codes "E") ≡ false
    → parse_fields rec (split 9 line) ≡ some rec'
    → decode_lines (some rec) (line ∷ rest) ≡ decode_lines (some rec') rest
unfolding decode_lines
decode-line rec rec' line rest on e = rw (on, decode_lines) (rw (e, decode_lines) refl)

decode-commands :
    (rec : StepRecord) (commands : List GameCommand) (rest : List (List ℕ))
    → AreBounded commands
    → length rec.input.remote + length commands ≤ 32
    → decode_lines (some rec) (command_lines commands ++ rest)
      ≡ decode_lines (some (with_commands rec commands)) rest
decode-commands rec [] rest ok le =
    ap
      (λ (cs : List GameCommand).
        decode_lines (some (record rec { input = record { remote = cs; local = rec.input.local } }))
          rest)
      (sym (append-nil rec.input.remote))
decode-commands rec (c ∷ commands) rest (ok, oks) le =
    decode-line rec (add_command rec c) (tabbed (command_fields c)) (command_lines commands ++ rest)
      (command-goes_on c)
      (ap (parse_fields rec) (fields-command c) ∙ parse-command rec c ok (omega (arith, le)))
    ∙ (decode-commands (add_command rec c) commands rest oks
          (omega (arith, length-append rec.input.remote (c ∷ [])))
        ∙ ap
            (λ (cs : List GameCommand).
              decode_lines
                (some (record rec { input = record { remote = cs; local = rec.input.local } }))
                rest)
            (append_assoc rec.input.remote (c ∷ []) commands))

parse-local :
    (rec : StepRecord) (a : GameAction)
    → length rec.input.local < 64
    → parse_fields rec (codes "L" ∷ action_as_str a ∷ []) ≡ some (add_local rec a)
unfolding parse_fields
parse-local rec a room =
    let free : leb max_local_actions (length rec.input.local) ≡ false = ground (arith, room) in
    rw (action_self a) (rw free refl)

decode-actions :
    (rec : StepRecord) (actions : List GameAction) (rest : List (List ℕ))
    → length rec.input.local + length actions ≤ 64
    → decode_lines (some rec) (local_lines actions ++ rest)
      ≡ decode_lines (some (with_actions rec actions)) rest
decode-actions rec [] rest le =
    ap
      (λ (ls : List GameAction).
        decode_lines
          (some (record rec { input = record { remote = rec.input.remote; local = ls } })) rest)
      (sym (append-nil rec.input.local))
decode-actions rec (a ∷ actions) rest le =
    decode-line rec (add_local rec a) (tabbed (codes "L" ∷ action_as_str a ∷ []))
      (local_lines actions ++ rest) (local-goes_on a)
      (ap (parse_fields rec) (
          split-join 9 44 (codes "L") (action_as_str a ∷ []) (omega arith)
            (refl, (AtLeast-mono 44 45 (action_as_str a) (omega arith) (AtLeast-action a), tt)))
        ∙ parse-local rec a (omega (arith, le)))
    ∙ (decode-actions (add_local rec a) actions rest
          (omega (arith, length-append rec.input.local (a ∷ [])))
        ∙ ap
            (λ (ls : List GameAction).
              decode_lines
                (some (record rec { input = record { remote = rec.input.remote; local = ls } }))
                rest)
            (append_assoc rec.input.local (a ∷ []) actions))

abbrev with_no_input : StepRecord → StepRecord
with_no_input rec = record rec { input = record { remote = []; local = [] } }

pub AllAtLeast-step :
    (rec : StepRecord)
    → AllAtLeast 44 (codes "S" ∷ to_decimal rec.step ∷ to_decimal rec.state_hash ∷ [])
AllAtLeast-step rec = (
  refl,
  (
    AtLeast-mono 44 48 (to_decimal rec.step) (omega arith) (AtLeast-to_decimal rec.step),
    (
      AtLeast-mono 44 48 (to_decimal rec.state_hash) (omega arith)
          (AtLeast-to_decimal rec.state_hash),
      tt,
    ),
  ),
)

step_self :
    (rec : StepRecord)
    → IsRecord rec
    → parse_step (split 9 (step_line rec)) ≡ some (with_no_input rec)
unfolding parse_step
step_self rec ok =
    ap parse_step (
      split-join 9 44 (codes "S") (to_decimal rec.step ∷ to_decimal rec.state_hash ∷ [])
        (omega arith) (AllAtLeast-step rec))
    ∙ rw (parse_unsigned-to_decimal (u64_mod - 1) rec.step ok.step (omega (arith, ok.step))) (
        rw
          (parse_unsigned-to_decimal (u64_mod - 1) rec.state_hash ok.state_hash
            (omega (arith, ok.state_hash)))
          refl)

pub decode-record_lines :
    (records : List StepRecord)
    → AreRecords records
    → decode_lines none (record_lines records) ≡ some records
unfolding record_lines decode_lines
decode-record_lines [] ok = refl
decode-record_lines (rec ∷ records) (ok, oks) =
    let after : List (List ℕ) = codes "E" ∷ record_lines records in
    rw (step_self rec ok, decode_lines)
      (decode-commands (with_no_input rec) rec.input.remote (local_lines rec.input.local ++ after)
          ok.input.commands (omega (arith, ok.input.few_commands))
        ∙ (decode-actions (with_commands (with_no_input rec) rec.input.remote) rec.input.local after
              (omega (arith, ok.input.few_actions))
            ∙ ap (add_record rec) (decode-record_lines records oks)))
