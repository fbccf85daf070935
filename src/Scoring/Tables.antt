-- ===== src/Scoring/Tables.antt =====
-- What the scoring functions compute, against the tables of docs/rules-spec.md.
use tui_tetris.Prelude.{ℕ, zero, suc, ◌+◌, ◌*◌, ◌/◌, ◌≤◌, ◌<◌, ◌-◌, ap, ◌≡◌, Bool, ◌&&◌}
use tui_tetris.Prelude.{arith, u32_max, if◌then◌else◌}
use Prim.Native.Nat.add
use tui_tetris.Types.{TSpinKind, no_spin, mini, full}
use tui_tetris.Scoring

-- The points of a clear at level 0, as docs/rules-spec.md lists them.
abbrev pub table_points : TSpinKind → ℕ → ℕ
table_points no_spin (suc zero) = 40
table_points no_spin (suc (suc zero)) = 100
table_points no_spin (suc (suc (suc zero))) = 300
table_points no_spin (suc (suc (suc (suc zero)))) = 1200
table_points full zero = 400
table_points full (suc zero) = 800
table_points full (suc (suc zero)) = 1200
table_points full (suc (suc (suc zero))) = 1600
table_points mini zero = 100
table_points mini (suc zero) = 200
table_points mini (suc (suc zero)) = 400
table_points _ _ = 0

pub table_points-le : (spin : TSpinKind) (lines : ℕ) → table_points spin lines ≤ 1600
table_points-le no_spin (suc zero) = omega arith
table_points-le no_spin (suc (suc zero)) = omega arith
table_points-le no_spin (suc (suc (suc zero))) = omega arith
table_points-le no_spin (suc (suc (suc (suc zero)))) = omega arith
table_points-le full zero = omega arith
table_points-le full (suc zero) = omega arith
table_points-le full (suc (suc zero)) = omega arith
table_points-le full (suc (suc (suc zero))) = omega arith
table_points-le mini zero = omega arith
table_points-le mini (suc zero) = omega arith
table_points-le mini (suc (suc zero)) = omega arith
table_points-le _ lines = omega arith

-- At levels below a million no product saturates: the base points are the table's times the level
-- plus one, for every kind of spin and number of lines.
pub base_points_lem :
    (spin : TSpinKind) (lines level : ℕ)
    → level < 1000000
    → Scoring.base_points spin lines level ≡ table_points spin lines * (level + 1)
unfolding Scoring.base_points Scoring.calculate_line_score Scoring.calculate_tspin_score
base_points_lem no_spin zero level h = ground arith
base_points_lem no_spin (suc zero) level h = ground arith
base_points_lem no_spin (suc (suc zero)) level h = ground arith
base_points_lem no_spin (suc (suc (suc zero))) level h = ground arith
base_points_lem no_spin (suc (suc (suc (suc zero)))) level h = ground arith
base_points_lem full zero level h = ground arith
base_points_lem full (suc zero) level h = ground arith
base_points_lem full (suc (suc zero)) level h = ground arith
base_points_lem full (suc (suc (suc zero))) level h = ground arith
base_points_lem mini zero level h = ground arith
base_points_lem mini (suc zero) level h = ground arith
base_points_lem mini (suc (suc zero)) level h = ground arith
base_points_lem _ lines level h = ground arith

interval_step : (n : ℕ) → Scoring.get_drop_interval_ms (suc n) ≤ Scoring.get_drop_interval_ms n
unfolding Scoring.get_drop_interval_ms
interval_step zero = ground arith
interval_step (suc zero) = ground arith
interval_step (suc (suc zero)) = ground arith
interval_step (suc (suc (suc zero))) = ground arith
interval_step (suc (suc (suc (suc zero)))) = ground arith
interval_step (suc (suc (suc (suc (suc zero))))) = ground arith
interval_step (suc (suc (suc (suc (suc (suc zero)))))) = ground arith
interval_step (suc (suc (suc (suc (suc (suc (suc zero))))))) = ground arith
interval_step n = ground arith

interval_steps : (a k : ℕ) → Scoring.get_drop_interval_ms (k + a) ≤ Scoring.get_drop_interval_ms a
interval_steps a zero = omega (arith, ap Scoring.get_drop_interval_ms (add.zero a))
interval_steps a (suc k) = omega (
  arith,
  interval_steps a k,
  interval_step (k + a),
  ap Scoring.get_drop_interval_ms (add.suc k a),
)

pub interval_floor : (level : ℕ) → 120 ≤ Scoring.get_drop_interval_ms level
unfolding Scoring.get_drop_interval_ms
interval_floor zero = ground arith
interval_floor (suc zero) = ground arith
interval_floor (suc (suc zero)) = ground arith
interval_floor (suc (suc (suc zero))) = ground arith
interval_floor (suc (suc (suc (suc zero)))) = ground arith
interval_floor (suc (suc (suc (suc (suc zero))))) = ground arith
interval_floor (suc (suc (suc (suc (suc (suc zero)))))) = ground arith
interval_floor (suc (suc (suc (suc (suc (suc (suc zero))))))) = ground arith
interval_floor (suc (suc (suc (suc (suc (suc (suc (suc zero)))))))) = ground arith
interval_floor level = ground arith

-- A higher level never falls slower, and no interval is shorter than 120 ms.
pub drop_interval_antitone :
    (a b : ℕ)
    → a ≤ b
    → (Scoring.get_drop_interval_ms b ≤ Scoring.get_drop_interval_ms a)
      × (120 ≤ Scoring.get_drop_interval_ms b)
drop_interval_antitone a b h =
    let whole : b - a + a ≡ b = omega arith in
    (
      omega (arith, interval_steps a (b - a), ap Scoring.get_drop_interval_ms whole),
      interval_floor b,
    )

-- Whether a clear continues a back-to-back chain.
abbrev pub chains : TSpinKind → ℕ → Bool → Bool
chains spin lines previous = Scoring.qualifies_for_b2b spin lines && previous

product-le : (a m n : ℕ) → a ≤ m → a * n ≤ m * n
product-le a m n h = grind arith

b2b_lem : (p : ℕ) → p ≤ 1300000000 → Scoring.apply_b2b_multiplier p ≡ p * 3 / 2
unfolding Scoring.apply_b2b_multiplier
b2b_lem p h = ground arith

combo_lem : (c : ℕ) → c < 1000000 → Scoring.calculate_combo_bonus c ≡ 50 * c
unfolding Scoring.calculate_combo_bonus
combo_lem c h = ground arith

-- For a level below 800000 and a combo index from 0 to a million nothing saturates: the score of
-- a clear is its table value times the level plus one, times three halves (rounded down) in a
-- back-to-back chain, plus 50 for each step of the combo; the new chain flag is whether the clear
-- qualifies.
pub calculate_score_lem :
    (lines level : ℕ) (spin : TSpinKind) (combo : ℕ) (previous : Bool)
    → level < 800000
    → combo < 1000000
    → let base = table_points spin lines * (level + 1) in
      let r = Scoring.calculate_score lines level spin combo previous in
      (r.line_clear_score ≡ (if chains spin lines previous then base * 3 / 2 else base))
      × (r.combo_bonus ≡ 50 * combo)
      × (r.total ≡ r.line_clear_score + r.combo_bonus)
      × (r.qualifies_for_b2b ≡ Scoring.qualifies_for_b2b spin lines)
unfolding Scoring.calculate_score
calculate_score_lem lines level spin combo previous hl hc =
    let e = base_points_lem spin lines level (omega arith) in
    let cap = product-le (table_points spin lines) 1600 (level + 1) (table_points-le spin lines) in
    rw e (
      ground (
        arith,
        combo_lem combo hc,
        cap,
        b2b_lem (table_points spin lines * (level + 1)) (omega (arith, cap)),
      ))

-- For every input the total fits in a u32.
pub calculate_score_total-le :
    (lines level : ℕ) (spin : TSpinKind) (combo : ℕ) (previous : Bool)
    → (Scoring.calculate_score lines level spin combo previous).total ≤ u32_max
unfolding Scoring.calculate_score
calculate_score_total-le lines level spin combo previous = ground arith
