-- ===== src/Term/Renderer/Draws.antt =====
-- crates/tetris-terminal/src/term/renderer.rs, `draw_swap`: what the screen shows after a draw.
use mathlib.Core.Path.{subst}
use tui_tetris.Prelude.{
  ℕ, ◌≡◌, refl, ap, ◌∙◌, inl, inr, Bool, true, false, ◌||◌, List, Option, none, some,
}
use tui_tetris.Prelude.{arith, Bool-cases, Option-cases}
use tui_tetris.Term.Frame.{Cell, FrameBuffer}
use tui_tetris.Term.Frame.Cells.{in_frame}
use tui_tetris.Term.Renderer.{
  Command, cell_at, cell_eq, same_size, same_at, changed_runs, encode_diff, encode_full,
}
use tui_tetris.Term.Renderer.{
  TerminalRenderer, Drawing, is_empty, flush_and_swap, draw_over, draw_swap,
}
use tui_tetris.Term.Renderer.Runs.{covered, changed_runs-covered}
use tui_tetris.Term.Renderer.Screen.{Screen, exec, exec-encode_full, exec-encode_diff}

-- The screen shows the frame's characters.
abbrev pub Shows : FrameBuffer → Screen → Type 0
Shows fb s = (u v : ℕ) → in_frame fb u v ≡ true → s.chars u v ≡ (cell_at fb u v).ch

-- The renderer knows what the screen shows, or draws everything next.
abbrev pub Agrees : TerminalRenderer → Screen → Type 0
Agrees r s = (last : FrameBuffer) → r.last ≡ some last → Shows last s

full-Shows : (fb : FrameBuffer) (s : Screen) → Shows fb (exec (encode_full fb) s)
full-Shows fb s u v inside = exec-encode_full fb s u v ∙ rw inside refl

cell_eq-ch : (c d : Cell) → cell_eq c d ≡ true → c.ch ≡ d.ch
unfolding cell_eq
cell_eq-ch c d e = ground (arith, e)

diff-Shows :
    (prev fb : FrameBuffer) (s : Screen)
    → same_size prev fb ≡ true
    → Shows prev s
    → Shows fb (exec (encode_diff prev fb) s)
diff-Shows prev fb s same shown u v inside = elim (Bool-cases (same_at prev fb u v)) [
  | inl equal ↦
      let out : covered (changed_runs prev fb) u v ≡ false =
        ground (arith, changed_runs-covered prev fb u v, inside, same, equal) in
      exec-encode_diff fb prev s u v
      ∙ rw out (
          shown u v (ground (arith, same, inside))
          ∙ cell_eq-ch (cell_at prev u v) (cell_at fb u v) equal)
  | inr differs ↦
      let on : covered (changed_runs prev fb) u v ≡ true =
        ground (arith, changed_runs-covered prev fb u v, inside, same, differs) in
      exec-encode_diff fb prev s u v ∙ rw on refl
]

abbrev Shown : FrameBuffer → Screen → Drawing → Type 0
Shown fb s d =
    Agrees d.renderer (exec d.output s)
    × ((d.ok ≡ true → Shows fb (exec d.output s)) × (d.ok ≡ false → d.renderer.last ≡ none))

flush_and_swap-Shown :
    (ok : Bool) (prev fb : FrameBuffer) (commands : List Command) (s : Screen)
    → Shows fb (exec commands s)
    → Shown fb s (flush_and_swap ok prev fb commands)
flush_and_swap-Shown true prev fb commands s shows = (
  λ last e.
      subst (λ k. Shows k (exec commands s))
        (ap (λ (o : Option FrameBuffer). elim o [ none ↦ fb | some k ↦ k ]) e) shows,
  (λ e. shows, λ e. absurd (ground (arith, e))),
)
flush_and_swap-Shown false prev fb commands s shows =
    (λ last e. absurd (ground (arith, e)), (λ e. absurd (ground (arith, e)), λ e. refl))

-- What a draw promises, if the renderer knows what the screen shows: it still does after the draw,
-- a draw that succeeds shows the frame, and after one that fails the next draws everything.
pub draw_swap-Shown :
    (r : TerminalRenderer) (fb : FrameBuffer) (accepts : List Command → Bool) (s : Screen)
    → Agrees r s
    → Agrees (draw_swap r fb accepts).renderer (exec (draw_swap r fb accepts).output s)
      × (((draw_swap r fb accepts).ok ≡ true → Shows fb (exec (draw_swap r fb accepts).output s))
          × ((draw_swap r fb accepts).ok ≡ false → (draw_swap r fb accepts).renderer.last ≡ none))
unfolding draw_swap draw_over
draw_swap-Shown r fb accepts s agrees = elim (Option-cases r.last) [
  | inl e ↦
      rw (e, draw_swap)
        (flush_and_swap-Shown (accepts (encode_full fb)) _ fb (encode_full fb) s (full-Shows fb s))
  | inr (prev, e) ↦ elim (Bool-cases (same_size prev fb)) [
    | inl same ↦
        rw (e, draw_swap, same)
          (flush_and_swap-Shown (is_empty (encode_diff prev fb) || accepts (encode_diff prev fb))
            prev fb (encode_diff prev fb) s (diff-Shows prev fb s same (agrees prev e)))
    | inr other ↦
        rw (e, draw_swap, other)
          (flush_and_swap-Shown (accepts (encode_full fb)) _ fb (encode_full fb) s
            (full-Shows fb s))
  ]
]
