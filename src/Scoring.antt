-- ===== src/Scoring.antt =====
-- crates/tetris-core/src/core/scoring.rs. Scores are u32 and saturate; a combo index is an i32.
pub mod Tables
use package.tui_tetris.Prelude.{ℕ, ◌+◌, ◌*◌, ◌/◌, Bool, true, false, ◌&&◌, ◌||◌, List, get_or}
use package.tui_tetris.Prelude.{ltb, leb, ◌==◌, if◌then◌else◌, saturating_add, saturating_mul}
use package.tui_tetris.Prelude.{nonpos_i32, length, [], ◌∷◌, max}
use package.tui_tetris.Types.{TSpinKind, no_spin, mini, full, line_scores, combo_base}
use package.tui_tetris.Types.{b2b_numerator, b2b_denominator}

pub record ScoreResult : Type 0 where
  pub line_clear_score : ℕ
  pub combo_bonus : ℕ
  pub total : ℕ
  pub qualifies_for_b2b : Bool
  pub b2b_applied : Bool

unfoldable pub calculate_line_score : ℕ → ℕ → ℕ
calculate_line_score lines level =
    if lines == 0 || ltb 4 lines
    then 0
    else saturating_mul (get_or line_scores lines 0) (saturating_add level 1)

unfoldable pub calculate_tspin_score : TSpinKind → ℕ → ℕ → ℕ
calculate_tspin_score full lines level =
    let level_multiplier = saturating_add level 1 in
    if lines == 0
    then saturating_mul 400 level_multiplier
    else if lines == 1
    then saturating_mul 800 level_multiplier
    else if lines == 2
    then saturating_mul 1200 level_multiplier
    else if lines == 3
    then saturating_mul 1600 level_multiplier
    else 0
calculate_tspin_score mini lines level =
    let level_multiplier = saturating_add level 1 in
    if lines == 0
    then saturating_mul 100 level_multiplier
    else if lines == 1
    then saturating_mul 200 level_multiplier
    else if lines == 2
    then saturating_mul 400 level_multiplier
    else 0
calculate_tspin_score no_spin lines level = 0

-- `combo_index as u32` keeps the pattern.
unfoldable pub calculate_combo_bonus : ℕ → ℕ
calculate_combo_bonus combo_index =
    if nonpos_i32 combo_index then 0 else saturating_mul combo_base combo_index

unfoldable pub qualifies_for_b2b : TSpinKind → ℕ → Bool
qualifies_for_b2b full lines = leb 1 lines && leb lines 4
qualifies_for_b2b no_spin lines = lines == 4
qualifies_for_b2b mini lines = false

unfoldable pub apply_b2b_multiplier : ℕ → ℕ
apply_b2b_multiplier points = saturating_mul points b2b_numerator / b2b_denominator

-- The table that the kind of spin selects.
unfoldable pub base_points : TSpinKind → ℕ → ℕ → ℕ
base_points no_spin lines level = calculate_line_score lines level
base_points full lines level = calculate_tspin_score full lines level
base_points mini lines level = calculate_tspin_score mini lines level

unfoldable pub calculate_score : ℕ → ℕ → TSpinKind → ℕ → Bool → ScoreResult
calculate_score lines level tspin combo_index previous_b2b =
    let qualifies_b2b = qualifies_for_b2b tspin lines in
    let base = base_points tspin lines level in
    let b2b_applied = qualifies_b2b && previous_b2b in
    let line_clear_score = if b2b_applied then apply_b2b_multiplier base else base in
    let combo_bonus = calculate_combo_bonus combo_index in
    record {
      line_clear_score = line_clear_score;
      combo_bonus = combo_bonus;
      total = saturating_add line_clear_score combo_bonus;
      qualifies_for_b2b = qualifies_b2b;
      b2b_applied = b2b_applied;
    }

unfoldable pub calculate_drop_score : ℕ → Bool → ℕ
calculate_drop_score cells is_hard_drop = if is_hard_drop then saturating_mul cells 2 else cells

unfoldable pub calculate_level : ℕ → ℕ
calculate_level total_lines = total_lines / 10

abbrev pub drop_intervals : List ℕ
drop_intervals = 1000 ∷ 800 ∷ 650 ∷ 500 ∷ 400 ∷ 320 ∷ 250 ∷ 200 ∷ 160 ∷ []

unfoldable pub get_drop_interval_ms : ℕ → ℕ
get_drop_interval_ms level =
    if ltb level (length drop_intervals) then get_or drop_intervals level 0 else 120

unfoldable pub get_soft_drop_interval_ms : ℕ → ℕ → ℕ
get_soft_drop_interval_ms base_interval multiplier = max (base_interval / multiplier) 1
