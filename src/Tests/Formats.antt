-- ===== src/Tests/Formats.antt =====
-- The text of a tape at concrete inputs.
use tui_tetris.Prelude.{◌≡◌, true, none, some, List, [], ◌∷◌, ret, arith}
use tui_tetris.Types.{east, move_left, restart, hard_drop}
use tui_tetris.Session.Runtime.{StepInput, batch, place}
use tui_tetris.Session.Replay.{ReplayTape}
use tui_tetris.Session.Replay.Verify.{record_tape-verifies}
use tui_tetris.Session.Replay.Format.{encode, decode}
use tui_tetris.Session.Replay.Format.Tapes.{decode-encode}

abbrev inputs : List StepInput
inputs =
    record {
      remote = place 253 east true ∷ batch (restart ∷ hard_drop ∷ []) (some 9) ∷ [];
      local = move_left ∷ [];
    }
    ∷ record { remote = batch [] none ∷ []; local = [] }
    ∷ []

abbrev tape : ReplayTape
tape = (record_tape-verifies 8 inputs ((omega arith, (tt, tt)), ((tt, tt), tt))).0

decode-encode_example : decode (encode tape) ≡ ret (some tape)
decode-encode_example =
    decode-encode 8 inputs tape (omega arith) (omega arith)
      (
        record {
          commands = (omega arith, ((omega arith, omega arith), tt));
          few_commands = omega arith;
          few_actions = omega arith;
        },
        (
          record {
            commands = ((omega arith, tt), tt);
            few_commands = omega arith;
            few_actions = omega arith;
          },
          tt,
        ),
      )
      (record_tape-verifies 8 inputs ((omega arith, (tt, tt)), ((tt, tt), tt))).1
