-- ===== src/Tests/Tables.antt =====
-- Names and scores at concrete inputs.
use tui_tetris.Prelude.{◌+◌, ◌≤◌, ◌≡◌, true, arith}
use tui_tetris.Types.{no_spin}
use tui_tetris.Scoring
use tui_tetris.Scoring.Tables.{drop_interval_antitone, calculate_score_lem}

drop_interval_antitone_example :
    (Scoring.get_drop_interval_ms 7 ≤ Scoring.get_drop_interval_ms 3)
    × (120 ≤ Scoring.get_drop_interval_ms 7)
drop_interval_antitone_example = drop_interval_antitone 3 7 (omega arith)

calculate_score_lem_example :
    let r = Scoring.calculate_score 4 2 no_spin 3 true in
    (r.line_clear_score ≡ 5400)
    × (r.combo_bonus ≡ 150)
    × (r.total ≡ r.line_clear_score + r.combo_bonus)
    × (r.qualifies_for_b2b ≡ true)
unfolding Scoring.qualifies_for_b2b
calculate_score_lem_example = calculate_score_lem 4 2 no_spin 3 true (omega arith) (omega arith)
