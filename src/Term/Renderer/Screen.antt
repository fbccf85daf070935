-- ===== src/Term/Renderer/Screen.antt =====
-- A terminal's screen and what the commands of crates/tetris-terminal/src/term/renderer.rs do to
-- it: the cursor, and the character of each position. The screen is as large as needed, so that
-- no line wraps; colours and attributes are not on it.
use tui_tetris.Prelude.{
  ℕ, zero, suc, ◌+◌, ◌≤◌, ◌<◌, ◌≡◌, refl, ap, ◌∙◌, inl, inr, Bool, true, false,
}
use tui_tetris.Prelude.{
  ◌&&◌, List, [], ◌∷◌, ◌++◌, Option, none, some, ltb, leb, ◌==◌, if◌then◌else◌, arith, Bool-cases,
}
use tui_tetris.Prelude.{==_iff, lt→ltb}
use tui_tetris.Term.Frame.{CellStyle, FrameBuffer}
use tui_tetris.Term.Renderer.{
  Command, clear_all, move_to, print, print_crlf, apply_style, style_is, cell_at,
}
use tui_tetris.Term.Renderer.{
  emit_run, emit_rows, emit_runs, Run, close_style, foreground, background, attribute_reset,
  attribute_bold, attribute_dim, reset_color,
}
use tui_tetris.Term.Renderer.{epilogue, encode_full, encode_diff, changed_runs}
use tui_tetris.Term.Renderer.Runs.{covered}
use tui_tetris.Term.Frame.Cells.{in_frame}

pub record Screen : Type 0 where
  pub cx : ℕ
  pub cy : ℕ
  pub chars : ℕ → ℕ → ℕ

abbrev pub exec_one : Command → Screen → Screen
exec_one clear_all s = record { cx = s.cx; cy = s.cy; chars = λ u v. 32 }
exec_one (move_to x y) s = record { cx = x; cy = y; chars = s.chars }
exec_one (print ch) s = record {
  cx = s.cx + 1;
  cy = s.cy;
  chars = λ u v. if v == s.cy && u == s.cx then ch else s.chars u v;
}
exec_one print_crlf s = record { cx = 0; cy = s.cy + 1; chars = s.chars }
exec_one (foreground c) s = s
exec_one (background c) s = s
exec_one attribute_reset s = s
exec_one attribute_bold s = s
exec_one attribute_dim s = s
exec_one reset_color s = s

abbrev pub exec : List Command → Screen → Screen
exec [] s = s
exec (c ∷ cs) s = exec cs (exec_one c s)

pub exec-append : (cs ds : List Command) (s : Screen) → exec (cs ++ ds) s ≡ exec ds (exec cs s)
exec-append [] ds s = refl
exec-append (c ∷ cs) ds s = exec-append cs ds (exec_one c s)

exec-apply_style : (style : CellStyle) (s : Screen) → exec (apply_style style) s ≡ s
unfolding apply_style
exec-apply_style style s = elim (Bool-cases style.bold) [
  | inl b ↦ elim (Bool-cases style.dim) [ inl d ↦ rw (b, d) refl | inr d ↦ rw (b, d) refl ]
  | inr b ↦ elim (Bool-cases style.dim) [ inl d ↦ rw (b, d) refl | inr d ↦ rw (b, d) refl ]
]

exec-style :
    (b : Bool) (style : CellStyle) (s : Screen) → exec (if b then [] else apply_style style) s ≡ s
exec-style true style s = refl
exec-style false style s = exec-apply_style style s

exec-close_style : (style : Option CellStyle) (s : Screen) → exec (close_style style) s ≡ s
exec-close_style none s = refl
exec-close_style (some style) s = refl

abbrev new_line : Bool → List Command
new_line more = if more then print_crlf ∷ [] else []

exec-new_line :
    (more : Bool) (s : Screen) (u v : ℕ) → (exec (new_line more) s).chars u v ≡ s.chars u v
exec-new_line true s u v = refl
exec-new_line false s u v = refl

module _ (fb : FrameBuffer) where
  -- The second screen has the frame's characters where `p` holds, and else those of the first.
  abbrev pub Draws : (ℕ → ℕ → Bool) → Screen → Screen → Type 0
  Draws p s s' = (u v : ℕ) → s'.chars u v ≡ (if p u v then (cell_at fb u v).ch else s.chars u v)

  -- What a run of `n` cells leaves.
  record Printed (y x n : ℕ) (s s' : Screen) : Type 0 where
    column : s'.cx ≡ x + n
    row : s'.cy ≡ y
    drawn : Draws (λ u v. v == y && (leb x u && ltb u (x + n))) s s'

  -- The first cell of a run, and the others.
  first_cell :
      (y x n u v old : ℕ)
      → (if v == y && (leb (suc x) u && ltb u (suc x + n))
          then (cell_at fb u v).ch
          else if v == y && u == x
          then (cell_at fb x y).ch
          else old)
        ≡ (if v == y && (leb x u && ltb u (x + suc n)) then (cell_at fb u v).ch else old)
  first_cell y x n u v old = elim (Bool-cases (v == y && u == x)) [
    | inl here ↦
        let hv : v ≡ y = ground (arith, here) in
        let hu : u ≡ x = ground (arith, here) in rw (hv, hu) (ground arith)
    | inr off ↦ rw off (ground (arith, off))
  ]

  exec-emit_run :
      (y x n : ℕ) (current : Option CellStyle) (s : Screen)
      → s.cx ≡ x
      → s.cy ≡ y
      → Printed y x n s (exec (emit_run fb y x n current).0 s)
  unfolding emit_run
  exec-emit_run y x zero current s hx hy = record {
    column = hx ∙ omega arith;
    row = hy;
    drawn = λ u v. ground arith;
  }
  exec-emit_run y x (suc n) current s hx hy =
      let cell = cell_at fb x y in
      let s1 = exec_one (print cell.ch) s in
      let rest = exec-emit_run y (suc x) n (some cell.style) s1 (omega arith) hy in
      rw
        (
          exec-append (if style_is current cell.style then [] else apply_style cell.style)
              (print cell.ch ∷ (emit_run fb y (suc x) n (some cell.style)).0) s,
          exec-style (style_is current cell.style) cell.style s,
        )
        (record {
          column = rest.column ∙ omega arith;
          row = rest.row;
          drawn = λ u v. rest.drawn u v ∙ rw (hx, hy) (first_cell y x n u v (s.chars u v));
        })

  exec-emit_rows :
      (y n : ℕ) (current : Option CellStyle) (s : Screen)
      → (0 < n → s.cx ≡ 0)
      → (0 < n → s.cy ≡ y)
      → y + n ≤ fb.height
      → Draws
          (λ u v. leb y v && (ltb v (y + n) && ltb u fb.width))
          s
          (exec (emit_rows fb y n current) s)
  unfolding emit_rows
  exec-emit_rows y zero current s hx hy fits u v = ground arith
  exec-emit_rows y (suc n) current s hx hy fits u v =
      let row = emit_run fb y 0 fb.width current in
      let more = ltb (y + 1) fb.height in
      let s1 = exec row.0 s in
      let s2 = exec (new_line more) s1 in
      let printed = exec-emit_run y 0 fb.width current s (hx (omega arith)) (hy (omega arith)) in
      let is_more = λ (h : 0 < n). lt→ltb (y + 1) fb.height (omega arith) in
      let rest =
        exec-emit_rows (suc y) n row.1 s2 (λ h. rw (is_more h) refl)
          (λ h. rw (is_more h) (ap (λ k. k + 1) printed.row ∙ omega arith)) (omega arith) u v in
      ap (λ z. z.chars u v)
        (exec-append (row.0 ++ new_line more) (emit_rows fb (suc y) n row.1) s
          ∙ ap (λ z. exec (emit_rows fb (suc y) n row.1) z) (exec-append row.0 (new_line more) s))
      ∙ rest
      ∙ ap
          (λ k.
            if leb (suc y) v && (ltb v (suc y + n) && ltb u fb.width)
            then (cell_at fb u v).ch
            else k)
          (exec-new_line more s1 u v ∙ printed.drawn u v)
      ∙ elim (Bool-cases (v == y)) [
        | inl here ↦ rw ((==_iff v y).0 here) (ground arith)
        | inr off ↦ ground (arith, off)
      ]

  exec-emit_runs :
      (runs : List Run) (current : Option CellStyle) (s : Screen)
      → Draws (covered runs) s (exec (emit_runs fb runs current).0 s)
  unfolding emit_runs
  exec-emit_runs [] current s u v = refl
  exec-emit_runs (run ∷ runs) current s u v =
      let first = emit_run fb run.y run.x run.len current in
      let s1 = exec_one (move_to run.x run.y) s in
      let printed = exec-emit_run run.y run.x run.len current s1 refl refl in
      ap (λ z. z.chars u v) (exec-append first.0 (emit_runs fb runs first.1).0 s1)
      ∙ exec-emit_runs runs first.1 (exec first.0 s1) u v
      ∙ ap (λ k. if covered runs u v then (cell_at fb u v).ch else k) (printed.drawn u v)
      ∙ ground arith

  -- A full encoding draws the whole frame, whatever the screen showed.
  pub exec-encode_full :
      (s : Screen) (u v : ℕ)
      → (exec (encode_full fb) s).chars u v ≡ (if in_frame fb u v then (cell_at fb u v).ch else 32)
  unfolding encode_full
  exec-encode_full s u v =
      let cleared : Screen = record { cx = 0; cy = 0; chars = λ u v. 32 } in
      ap (λ z. z.chars u v) (exec-append (emit_rows fb 0 fb.height none) epilogue cleared)
      ∙ exec-emit_rows 0 fb.height none cleared (λ h. refl) (λ h. refl) (omega arith) u v
      ∙ ground arith

  -- A diff draws the changed cells.
  pub exec-encode_diff :
      (prev : FrameBuffer) (s : Screen)
      → Draws (covered (changed_runs prev fb)) s (exec (encode_diff prev fb) s)
  unfolding encode_diff
  exec-encode_diff prev s u v =
      let out = emit_runs fb (changed_runs prev fb) none in
      ap (λ z. z.chars u v)
        (exec-append out.0 (close_style out.1) s ∙ exec-close_style out.1 (exec out.0 s))
      ∙ exec-emit_runs (changed_runs prev fb) none s u v
