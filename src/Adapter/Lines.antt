-- ===== src/Adapter/Lines.antt =====
-- crates/tetris-adapter/src/adapter/server.rs: `read_bounded_line`, over the chunks that the buffered
-- reader of tokio hands out. An empty chunk, or none, is the end of the input, as `fill_buf` has it.
pub mod Chunks
use tui_tetris.Prelude.{
  ℕ, suc, ◌+◌, Bool, true, false, Option, none, some, List, [], ◌∷◌, ◌++◌, length, take, drop,
}
use tui_tetris.Prelude.{ltb, ◌==◌, if◌then◌else◌}

abbrev pub max_inbound_line_bytes : ℕ
max_inbound_line_bytes = 65536

-- The result with the line, its newline included, and the chunks that are not consumed.
pub data BoundedLineRead : Type 0 where
  eof : BoundedLineRead
  line : (bytes : List ℕ) (left : List (List ℕ)) → BoundedLineRead
  too_long : BoundedLineRead

-- `position` of the newline.
unfoldable pub position : List ℕ → Option ℕ
position [] = none
position (c ∷ s) =
    let rest = position s in
    if c == 10 then some 0 else elim rest [ none ↦ none | some i ↦ some (suc i) ]

abbrev pub at_end : List ℕ → BoundedLineRead
at_end [] = eof
at_end (c ∷ s) = line (c ∷ s) []

-- What is left of a chunk, in front of the next ones; a used up chunk is not handed out again.
abbrev pub put_back : List ℕ → List (List ℕ) → List (List ℕ)
put_back [] chunks = chunks
put_back (c ∷ s) chunks = (c ∷ s) ∷ chunks

-- One chunk, by the position of its newline; `rest` is how the loop goes on.
abbrev pub read_chunk :
    List ℕ → List ℕ → List (List ℕ) → BoundedLineRead → Option ℕ → BoundedLineRead
read_chunk so_far available chunks rest none =
    if ltb max_inbound_line_bytes (length so_far + length available) then too_long else rest
read_chunk so_far available chunks rest (some i) =
    if ltb max_inbound_line_bytes (length so_far + i)
    then too_long
    else line (so_far ++ take (suc i) available) (put_back (drop (suc i) available) chunks)

-- The loop, with the line so far.
unfoldable pub read_from : List ℕ → List (List ℕ) → BoundedLineRead
read_from so_far [] = at_end so_far
read_from so_far ([] ∷ chunks) = at_end so_far
read_from so_far ((c ∷ s) ∷ chunks) =
    let rest = read_from (so_far ++ c ∷ s) chunks in
    read_chunk so_far (c ∷ s) chunks rest (position (c ∷ s))

abbrev pub read_bounded_line : List (List ℕ) → BoundedLineRead
read_bounded_line chunks = read_from [] chunks
