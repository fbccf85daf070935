-- ===== src/Session/Replay/Format.antt =====
-- crates/tetris-session/src/engine/replay.rs: the text format of tapes, `encode` and `decode`. The
-- text is the bytes once they have passed as UTF-8; the texts of errors are left out.
pub mod Parts
pub mod Numbers
pub mod Steps
pub mod RoundTrip
pub mod Tapes
use tui_tetris.Prelude.{
  ℕ, suc, ◌-◌, Bool, true, false, ◌&&◌, Option, none, some, List, [], ◌∷◌, ◌++◌, map, length, Run,
  ret, ◌>>=◌, u32_max, u64_mod,
}
use tui_tetris.Prelude.{leb, ◌==◌, if◌then◌else◌}
use tui_tetris.Prelude.{split, join, to_decimal, i8_to_decimal, parse_unsigned, parse_i8}
use tui_tetris.Types.{
  Rotation, GameAction, codes, bytes_eq, action_as_str, action_from_str, rotation_as_str,
  rotation_from_str,
}
use tui_tetris.Session.Runtime.{GameCommand, batch, place, StepInput}
use tui_tetris.Session.Replay.{ReplayTape, StepRecord, record_tape, inputs_of}

abbrev pub format_name : List ℕ
format_name = codes "TTR2"

abbrev pub ruleset_version : List ℕ
ruleset_version = codes "tui-guideline-2026.1"

abbrev pub bool_text : Bool → List ℕ
bool_text true = codes "true"
bool_text false = codes "false"

abbrev pub seed_text : Option ℕ → List ℕ
seed_text none = codes "-"
seed_text (some seed) = to_decimal seed

-- The fields of a line, with tabs between them.
abbrev pub tabbed : List (List ℕ) → List ℕ
tabbed fields = join 9 fields

unfoldable pub command_fields : GameCommand → List (List ℕ)
command_fields (batch actions seed) =
    codes "R" ∷ codes "A" ∷ seed_text seed ∷ join 44 (map action_as_str actions) ∷ []
command_fields (place x rotation use_hold) =
    codes "R" ∷ codes "P" ∷ i8_to_decimal x ∷ rotation_as_str rotation ∷ bool_text use_hold ∷ []

abbrev pub command_lines : List GameCommand → List (List ℕ)
command_lines [] = []
command_lines (c ∷ commands) = tabbed (command_fields c) ∷ command_lines commands

abbrev pub local_lines : List GameAction → List (List ℕ)
local_lines [] = []
local_lines (a ∷ actions) = tabbed (codes "L" ∷ action_as_str a ∷ []) ∷ local_lines actions

abbrev pub step_line : StepRecord → List ℕ
step_line rec = tabbed (codes "S" ∷ to_decimal rec.step ∷ to_decimal rec.state_hash ∷ [])

unfoldable pub record_lines : List StepRecord → List (List ℕ)
record_lines [] = []
record_lines (rec ∷ records) =
    step_line rec
    ∷ (command_lines rec.input.remote
        ++ (local_lines rec.input.local ++ codes "E" ∷ record_lines records))

abbrev pub header_line : ℕ → List ℕ
header_line seed = tabbed (format_name ∷ ruleset_version ∷ to_decimal seed ∷ [])

-- Each line ends in a newline.
unfoldable pub terminated : List (List ℕ) → List ℕ
terminated [] = []
terminated (line ∷ lines) = line ++ 10 ∷ terminated lines

unfoldable pub encode : ReplayTape → List ℕ
encode tape = terminated (header_line tape.seed ∷ record_lines tape.records)

-- A line without its carriage return.
unfoldable pub strip_cr : List ℕ → List ℕ
strip_cr [] = []
strip_cr (c ∷ []) = if c == 13 then [] else c ∷ []
strip_cr (c ∷ d ∷ s) = c ∷ strip_cr (d ∷ s)

-- What follows the last newline is a line if it is not empty.
abbrev pub last_lines : List ℕ → List (List ℕ)
last_lines [] = []
last_lines (c ∷ s) = (c ∷ s) ∷ []

-- `str::lines`, from the parts between the newlines.
unfoldable pub lines_of : List (List ℕ) → List (List ℕ)
lines_of [] = []
lines_of (part ∷ []) = last_lines part
lines_of (part ∷ next ∷ parts) = strip_cr part ∷ lines_of (next ∷ parts)

abbrev pub lines : List ℕ → List (List ℕ)
lines text = lines_of (split 10 text)

abbrev pub max_commands : ℕ
max_commands = 32

abbrev pub max_actions : ℕ
max_actions = 32

abbrev pub max_local_actions : ℕ
max_local_actions = 64

-- `try_push` on an array of a capacity.
abbrev pub try_push {ℓ} : {A : Type ℓ} → ℕ → List A → Option A → Option (List A)
try_push capacity xs none = none
try_push capacity xs (some a) = if leb capacity (length xs) then none else some (xs ++ a ∷ [])

-- The loop over the names of actions.
unfoldable pub parse_actions : List GameAction → List (List ℕ) → Option (List GameAction)
parse_actions acc [] = some acc
parse_actions acc (name ∷ names) = elim (try_push max_actions acc (action_from_str name)) [
  | none ↦ none
  | some acc' ↦ parse_actions acc' names
]

abbrev pub actions_in : List ℕ → Option (List GameAction)
actions_in [] = some []
actions_in (c ∷ s) = parse_actions [] (split 44 (c ∷ s))

abbrev pub parse_u32 : List ℕ → Option ℕ
parse_u32 s = parse_unsigned u32_max s

abbrev pub parse_u64 : List ℕ → Option ℕ
parse_u64 s = parse_unsigned (u64_mod - 1) s

abbrev pub parse_seed : List ℕ → Option (Option ℕ)
parse_seed s =
    if bytes_eq s (codes "-")
    then some none
    else elim (parse_u32 s) [ none ↦ none | some seed ↦ some (some seed) ]

abbrev pub parse_bool : List ℕ → Option Bool
parse_bool s =
    if bytes_eq s (codes "true")
    then some true
    else if bytes_eq s (codes "false")
    then some false
    else none

abbrev pub batch_of : Option (Option ℕ) → Option (List GameAction) → Option GameCommand
batch_of none actions = none
batch_of (some seed) none = none
batch_of (some seed) (some actions) = some (batch actions seed)

abbrev pub place_of : Option ℕ → Option Rotation → Option Bool → Option GameCommand
place_of none rotation use_hold = none
place_of (some x) none use_hold = none
place_of (some x) (some rotation) none = none
place_of (some x) (some rotation) (some use_hold) = some (place x rotation use_hold)

abbrev pub with_local : StepRecord → Option (List GameAction) → Option StepRecord
with_local rec none = none
with_local rec (some actions) =
    some (record rec { input = record { remote = rec.input.remote; local = actions } })

abbrev pub with_remote : StepRecord → Option (List GameCommand) → Option StepRecord
with_remote rec none = none
with_remote rec (some commands) =
    some (record rec { input = record { remote = commands; local = rec.input.local } })

-- A line of a step, by its fields, put into the record of the step.
unfoldable pub parse_fields : StepRecord → List (List ℕ) → Option StepRecord
parse_fields rec (tag ∷ action ∷ []) =
    if bytes_eq tag (codes "L")
    then with_local rec (try_push max_local_actions rec.input.local (action_from_str action))
    else none
parse_fields rec (tag ∷ kind ∷ seed ∷ actions ∷ []) =
    if bytes_eq tag (codes "R") && bytes_eq kind (codes "A")
    then with_remote rec
        (try_push max_commands rec.input.remote (batch_of (parse_seed seed) (actions_in actions)))
    else none
parse_fields rec (tag ∷ kind ∷ x ∷ rotation ∷ use_hold ∷ []) =
    if bytes_eq tag (codes "R") && bytes_eq kind (codes "P")
    then with_remote rec (
        try_push max_commands rec.input.remote
          (place_of (parse_i8 x) (rotation_from_str rotation) (parse_bool use_hold)))
    else none
parse_fields rec _ = none

abbrev pub empty_record : Option ℕ → Option ℕ → Option StepRecord
empty_record none hash = none
empty_record (some step) none = none
empty_record (some step) (some hash) =
    some (record { step = step; input = record { remote = []; local = [] }; state_hash = hash })

-- The line that opens a step.
unfoldable pub parse_step : List (List ℕ) → Option StepRecord
parse_step (tag ∷ step ∷ hash ∷ []) =
    if bytes_eq tag (codes "S") then empty_record (parse_u64 step) (parse_u64 hash) else none
parse_step _ = none

abbrev pub add_record : StepRecord → Option (List StepRecord) → Option (List StepRecord)
add_record rec none = none
add_record rec (some records) = some (rec ∷ records)

-- The two loops over the lines: outside of a step, and in the step of a record.
unfoldable pub decode_lines : Option StepRecord → List (List ℕ) → Option (List StepRecord)
decode_lines none [] = some []
decode_lines (some rec) [] = none
decode_lines none (line ∷ rest) = elim (parse_step (split 9 line)) [
  | none ↦ none
  | some rec ↦ decode_lines (some rec) rest
]
decode_lines (some rec) (line ∷ rest) = elim (bytes_eq line (codes "E")) [
  | true ↦ add_record rec (decode_lines none rest)
  | false ↦ elim (parse_fields rec (split 9 line)) [
    | none ↦ none
    | some rec' ↦ decode_lines (some rec') rest
  ]
]

unfoldable pub parse_header : List (List ℕ) → Option ℕ
parse_header (format ∷ version ∷ seed ∷ []) =
    if bytes_eq format format_name && bytes_eq version ruleset_version then parse_u32 seed else none
parse_header _ = none

-- The tape of a seed and records: it is recorded anew, and takes the records.
abbrev pub rebuild : Option ℕ → Option (List StepRecord) → Run (Option ReplayTape)
rebuild none records = ret none
rebuild (some seed) none = ret none
rebuild (some seed) (some records) = record_tape seed (inputs_of records) >>= λ (tape : ReplayTape).
    ret (some (record tape { records = records }))

abbrev pub decode_all : List (List ℕ) → Run (Option ReplayTape)
decode_all [] = ret none
decode_all (header ∷ rest) = rebuild (parse_header (split 9 header)) (decode_lines none rest)

unfoldable pub decode : List ℕ → Run (Option ReplayTape)
decode text = decode_all (lines text)
