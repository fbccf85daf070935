-- ===== src/Term/Renderer/Runs.antt =====
-- The runs of a diff are the cells that changed.
use tui_tetris.Prelude.{
  ℕ, zero, suc, ◌+◌, ◌-◌, ◌≤◌, ◌<◌, ◌≡◌, refl, ap, ◌∙◌, inl, inr, Bool, true, false, not,
}
use tui_tetris.Prelude.{
  ◌&&◌, ◌||◌, List, [], ◌∷◌, ◌++◌, any, ltb, leb, ◌==◌, arith, Bool-cases, ==_iff, ltb→lt,
}
use tui_tetris.Term.Frame.{FrameBuffer}
use tui_tetris.Term.Frame.Cells.{in_frame}
use tui_tetris.Term.Renderer.{
  Run, same_at, run_len, scan_row, scan_rows, whole_rows, same_size, changed_runs,
}

abbrev pub in_run : ℕ → ℕ → Run → Bool
in_run u v run = v == run.y && (leb run.x u && ltb u (run.x + run.len))

-- Some run holds the position.
abbrev pub covered : List Run → ℕ → ℕ → Bool
covered runs u v = any (in_run u v) runs

covered-append :
    (rs ss : List Run) (u v : ℕ) → covered (rs ++ ss) u v ≡ (covered rs u v || covered ss u v)
covered-append [] ss u v = refl
covered-append (r ∷ rs) ss u v = ground (arith, covered-append rs ss u v)

module _ (prev next : FrameBuffer) where
  run_len-le : (y x n : ℕ) → run_len prev next y x n ≤ n
  unfolding run_len
  run_len-le y x zero = omega arith
  run_len-le y x (suc n) = ground (arith, run_len-le y (suc x) n)

  -- The cells of a run differ.
  run_len-differs :
      (y x n u : ℕ) → x ≤ u → u < x + run_len prev next y x n → same_at prev next u y ≡ false
  unfolding run_len
  run_len-differs y x zero u lo hi = absurd (omega arith)
  run_len-differs y x (suc n) u lo hi = elim (Bool-cases (same_at prev next x y)) [
    | inl e ↦ absurd (ground (arith, e))
    | inr e ↦ elim (Bool-cases (u == x)) [
      | inl here ↦ rw ((==_iff u x).0 here) e
      | inr on ↦ run_len-differs y (suc x) n u (ground (arith, on)) (ground (arith, e))
    ]
  ]

  -- A run from `x` on, whose cells all differ, and the cells after it.
  in_run-differs :
      (y x len u v : ℕ)
      → x + len ≤ next.width
      → ((w : ℕ) → x ≤ w → w < x + len → same_at prev next w y ≡ false)
      → (in_run u v (record { x = x; y = y; len = len })
          || (v == y && (leb (x + len) u && ltb u next.width && not (same_at prev next u y))))
        ≡ (v == y && (leb x u && ltb u next.width && not (same_at prev next u y)))
  in_run-differs y x len u v fits all-differ = elim (Bool-cases (leb x u && ltb u (x + len))) [
    | inl inside ↦
        ground (arith, inside, all-differ u (ground (arith, inside)) (ground (arith, inside)))
    | inr outside ↦ ground (arith, outside)
  ]

  covered-scan_row :
      (fuel y x u v : ℕ)
      → next.width ≤ x + fuel
      → covered (scan_row fuel prev next y x) u v
        ≡ (v == y && (leb x u && ltb u next.width && not (same_at prev next u y)))
  unfolding scan_row
  covered-scan_row zero y x u v h = ground arith
  covered-scan_row (suc fuel) y x u v h = elim (Bool-cases (ltb x next.width)) [
    | inr off ↦ rw (off, scan_row) (ground (arith, off))
    | inl on ↦ elim (Bool-cases (same_at prev next x y)) [
      | inl same ↦
          rw (on, scan_row, same) (covered-scan_row fuel y (suc x) u v (omega arith) ∙ skip same)
      | inr differs ↦
          let len = suc (run_len prev next y (suc x) (next.width - suc x)) in
          rw (on, scan_row, differs)
            (ap (λ b. in_run u v (record { x = x; y = y; len = len }) || b)
                (covered-scan_row fuel y (x + len) u v (omega arith))
              ∙ in_run-differs y x len u v (fits on) (all-differ differs))
    ]
  ]
    where
      skip :
          same_at prev next x y ≡ true
          → (v == y && (leb (suc x) u && ltb u next.width && not (same_at prev next u y)))
            ≡ (v == y && (leb x u && ltb u next.width && not (same_at prev next u y)))
      skip same = elim (Bool-cases (u == x)) [
        | inl here ↦ rw ((==_iff u x).0 here) (ground (arith, same))
        | inr off ↦ ground (arith, off)
      ]

      fits :
          ltb x next.width ≡ true
          → x + suc (run_len prev next y (suc x) (next.width - suc x)) ≤ next.width
      fits on =
          let inside = ltb→lt x next.width on in
          let le = run_len-le y (suc x) (next.width - suc x) in omega arith

      all-differ :
          same_at prev next x y ≡ false
          → (w : ℕ) → x ≤ w
          → w < x + suc (run_len prev next y (suc x) (next.width - suc x))
          → same_at prev next w y ≡ false
      all-differ differs w lo hi = elim (Bool-cases (w == x)) [
        | inl here ↦ rw ((==_iff w x).0 here) differs
        | inr off ↦
            run_len-differs y (suc x) (next.width - suc x) w (ground (arith, off)) (omega arith)
      ]

  covered-scan_rows :
      (y n u v : ℕ)
      → covered (scan_rows prev next y n) u v
        ≡ (leb y v && (ltb v (y + n) && (ltb u next.width && not (same_at prev next u v))))
  unfolding scan_rows
  covered-scan_rows y zero u v = ground arith
  covered-scan_rows y (suc n) u v =
      covered-append (scan_row next.width prev next y 0) (scan_rows prev next (suc y) n) u v
      ∙ ap (λ b. b || covered (scan_rows prev next (suc y) n) u v)
          (covered-scan_row next.width y 0 u v (omega arith))
      ∙ ap (λ b. (v == y && (leb 0 u && ltb u next.width && not (same_at prev next u y))) || b)
          (covered-scan_rows (suc y) n u v)
      ∙ elim (Bool-cases (v == y)) [
        | inl here ↦ rw ((==_iff v y).0 here) (ground arith)
        | inr off ↦ ground (arith, off)
      ]

covered-whole_rows :
    (next : FrameBuffer) (y n u v : ℕ)
    → covered (whole_rows next y n) u v ≡ (leb y v && (ltb v (y + n) && ltb u next.width))
unfolding whole_rows
covered-whole_rows next y zero u v = ground arith
covered-whole_rows next y (suc n) u v = ground (arith, covered-whole_rows next (suc y) n u v)

-- The runs of a diff hold a position exactly if it is in the frame and its cell changed, or the
-- previous frame has another size.
pub changed_runs-covered :
    (prev next : FrameBuffer) (u v : ℕ)
    → covered (changed_runs prev next) u v
      ≡ (in_frame next u v && (not (same_size prev next) || not (same_at prev next u v)))
unfolding changed_runs
changed_runs-covered prev next u v = elim (Bool-cases (same_size prev next)) [
  | inl same ↦ rw same (ground (arith, covered-scan_rows prev next 0 next.height u v))
  | inr other ↦ rw other (ground (arith, covered-whole_rows next 0 next.height u v))
]
