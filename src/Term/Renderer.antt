-- ===== src/Term/Renderer.antt =====
-- crates/tetris-terminal/src/term/renderer.rs: frames as terminal commands.
-- A `Command` is one of the crossterm commands that the renderer queues; the bytes that crossterm
-- makes of it, raw mode and the alternate screen are not modelled.
pub mod Runs
pub mod Screen
pub mod Draws
use tui_tetris.Prelude.{
  ℕ, zero, suc, ◌+◌, ◌-◌, Bool, true, false, not, ◌&&◌, ◌||◌, Option, none, some,
}
use tui_tetris.Prelude.{List, [], ◌∷◌, ◌++◌, ltb, ◌==◌, if◌then◌else◌}
use tui_tetris.Term.Frame.{
  Rgb, CellStyle, Cell, default_cell, FrameBuffer, new_frame, resize, get_cell,
}

pub data Command : Type 0 where
  clear_all : Command
  move_to : (x y : ℕ) → Command
  print : (ch : ℕ) → Command
  print_crlf : Command
  foreground : Rgb → Command
  background : Rgb → Command
  attribute_reset attribute_bold attribute_dim reset_color : Command

-- The derived equalities.
abbrev pub bool_eq : Bool → Bool → Bool
bool_eq true b = b
bool_eq false b = not b

abbrev pub rgb_eq : Rgb → Rgb → Bool
rgb_eq c d = c.r == d.r && c.g == d.g && c.b == d.b

unfoldable pub style_eq : CellStyle → CellStyle → Bool
style_eq s t = rgb_eq s.fg t.fg && rgb_eq s.bg t.bg && bool_eq s.bold t.bold && bool_eq s.dim t.dim

unfoldable pub cell_eq : Cell → Cell → Bool
cell_eq c d = c.ch == d.ch && style_eq c.style d.style

-- `get(x, y).unwrap_or_default()`.
abbrev pub or_default : Option Cell → Cell
or_default none = default_cell
or_default (some c) = c

abbrev pub cell_at : FrameBuffer → ℕ → ℕ → Cell
cell_at fb x y = or_default (get_cell fb x y)

unfoldable pub apply_style : CellStyle → List Command
apply_style style =
    foreground style.fg
    ∷ background style.bg
    ∷ attribute_reset
    ∷ ((if style.bold then attribute_bold ∷ [] else [])
        ++ (if style.dim then attribute_dim ∷ [] else []))

-- `current_style == Some(style)`.
abbrev pub style_is : Option CellStyle → CellStyle → Bool
style_is none style = false
style_is (some current) style = style_eq current style

-- The loop over `n` cells of the row `y` from `x` on, with the current style.
unfoldable pub emit_run :
    FrameBuffer → ℕ → ℕ → ℕ → Option CellStyle → List Command × Option CellStyle
emit_run fb y x zero current = ([], current)
emit_run fb y x (suc n) current =
    let cell = cell_at fb x y in
    let rest = emit_run fb y (suc x) n (some cell.style) in
    (
      (if style_is current cell.style then [] else apply_style cell.style)
          ++ print cell.ch ∷ rest.0,
      rest.1,
    )

-- The loop over `n` rows from `y` on.
unfoldable pub emit_rows : FrameBuffer → ℕ → ℕ → Option CellStyle → List Command
emit_rows fb y zero current = []
emit_rows fb y (suc n) current =
    let row = emit_run fb y 0 fb.width current in
    row.0 ++ (if ltb (y + 1) fb.height then print_crlf ∷ [] else []) ++ emit_rows fb (suc y) n row.1

abbrev pub epilogue : List Command
epilogue = reset_color ∷ attribute_reset ∷ []

unfoldable pub encode_full : FrameBuffer → List Command
encode_full fb = clear_all ∷ move_to 0 0 ∷ (emit_rows fb 0 fb.height none ++ epilogue)

-- A changed run: its column, row and length.
pub record Run : Type 0 where
  pub x : ℕ
  pub y : ℕ
  pub len : ℕ

abbrev pub same_at : FrameBuffer → FrameBuffer → ℕ → ℕ → Bool
same_at prev next x y = cell_eq (cell_at prev x y) (cell_at next x y)

-- The inner loop: how many of the `n` cells from `x` on differ before the first that does not.
unfoldable pub run_len : FrameBuffer → FrameBuffer → ℕ → ℕ → ℕ → ℕ
run_len prev next y x zero = 0
run_len prev next y x (suc n) =
    let rest = run_len prev next y (suc x) n in if same_at prev next x y then 0 else suc rest

-- The outer loop over a row. As many rounds as the row has cells are enough, since each takes at
-- least one cell.
unfoldable pub scan_row : ℕ → FrameBuffer → FrameBuffer → ℕ → ℕ → List Run
scan_row zero prev next y x = []
scan_row (suc fuel) prev next y x = elim (ltb x next.width) [
  | false ↦ []
  | true ↦ elim (same_at prev next x y) [
    | true ↦ scan_row fuel prev next y (suc x)
    | false ↦
        let len = suc (run_len prev next y (suc x) (next.width - suc x)) in
        record { x = x; y = y; len = len } ∷ scan_row fuel prev next y (x + len)
  ]
]

unfoldable pub scan_rows : FrameBuffer → FrameBuffer → ℕ → ℕ → List Run
scan_rows prev next y zero = []
scan_rows prev next y (suc n) = scan_row next.width prev next y 0 ++ scan_rows prev next (suc y) n

unfoldable pub whole_rows : FrameBuffer → ℕ → ℕ → List Run
whole_rows next y zero = []
whole_rows next y (suc n) = record { x = 0; y = y; len = next.width } ∷ whole_rows next (suc y) n

abbrev pub same_size : FrameBuffer → FrameBuffer → Bool
same_size prev next = prev.width == next.width && prev.height == next.height

-- The runs that `for_each_changed_run` visits, in order.
unfoldable pub changed_runs : FrameBuffer → FrameBuffer → List Run
changed_runs prev next =
    if not (same_size prev next)
    then whole_rows next 0 next.height
    else scan_rows prev next 0 next.height

unfoldable pub emit_runs :
    FrameBuffer → List Run → Option CellStyle → List Command × Option CellStyle
emit_runs next [] current = ([], current)
emit_runs next (run ∷ runs) current =
    let first = emit_run next run.y run.x run.len current in
    let rest = emit_runs next runs first.1 in (move_to run.x run.y ∷ (first.0 ++ rest.0), rest.1)

abbrev pub close_style : Option CellStyle → List Command
close_style none = []
close_style (some style) = epilogue

unfoldable pub encode_diff : FrameBuffer → FrameBuffer → List Command
encode_diff prev next =
    let out = emit_runs next (changed_runs prev next) none in out.0 ++ close_style out.1

-- The renderer, less its writer and its byte buffer.
pub record TerminalRenderer : Type 0 where
  pub last : Option FrameBuffer

abbrev pub invalidate : TerminalRenderer → TerminalRenderer
invalidate r = record { last = none }

-- What a draw leaves: the renderer, the caller's frame, the commands that reached the writer, and
-- whether it succeeded.
pub record Drawing : Type 0 where
  pub renderer : TerminalRenderer
  pub frame : FrameBuffer
  pub output : List Command
  pub ok : Bool

-- `flush_buf` and the swap of the frames; a writer that fails ends the draw after `last` was taken.
abbrev pub flush_and_swap : Bool → FrameBuffer → FrameBuffer → List Command → Drawing
flush_and_swap true prev fb commands = record {
  renderer = record { last = some fb };
  frame = prev;
  output = commands;
  ok = true;
}
flush_and_swap false prev fb commands = record {
  renderer = record { last = none };
  frame = fb;
  output = [];
  ok = false;
}

abbrev pub is_empty : List Command → Bool
is_empty [] = true
is_empty (c ∷ commands) = false

-- `accepts` says whether the writer takes the commands.
unfoldable pub draw_over : FrameBuffer → FrameBuffer → Bool → (List Command → Bool) → Drawing
draw_over prev fb needs_full accepts =
    if needs_full
    then flush_and_swap (accepts (encode_full fb)) (resize prev fb.width fb.height) fb
        (encode_full fb)
    else flush_and_swap (is_empty (encode_diff prev fb) || accepts (encode_diff prev fb)) prev fb
        (encode_diff prev fb)

unfoldable pub draw_swap : TerminalRenderer → FrameBuffer → (List Command → Bool) → Drawing
draw_swap r fb accepts = elim r.last [
  | none ↦ draw_over (new_frame fb.width fb.height) fb true accepts
  | some prev ↦ draw_over prev fb (not (same_size prev fb)) accepts
]
