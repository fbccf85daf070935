-- ===== src/Throttle.antt =====
-- crates/tetris-terminal/src/term/render_throttle.rs: which frames are drawn.
use tui_tetris.Prelude.{ℕ, ◌-◌, ◌≡◌, Bool, true, false, not, ◌||◌, ◌==◌, leb, if◌then◌else◌, arith}

-- Times are u64 milliseconds; the `saturating_sub` of the source is the subtraction of ℕ.
pub record RenderThrottle : Type 0 where
  pub min_static_interval_ms : ℕ
  pub last_render_ms : ℕ
  pub last_fingerprint : ℕ
  pub has_rendered : Bool

abbrev pub new_throttle : ℕ → RenderThrottle
new_throttle min_static_interval_ms = record {
  min_static_interval_ms = min_static_interval_ms;
  last_render_ms = 0;
  last_fingerprint = 0;
  has_rendered = false;
}

-- The state after a frame was drawn.
abbrev pub drawn : RenderThrottle → ℕ → ℕ → RenderThrottle
drawn t now_ms fingerprint = record t { last_render_ms = now_ms; last_fingerprint = fingerprint }

unfoldable pub should_render : RenderThrottle → ℕ → ℕ → Bool → RenderThrottle × Bool
should_render t now_ms fingerprint is_static =
    if not t.has_rendered
    then (record (drawn t now_ms fingerprint) { has_rendered = true }, true)
    else if not is_static
    then (drawn t now_ms fingerprint, true)
    else if not (fingerprint == t.last_fingerprint)
    then (drawn t now_ms fingerprint, true)
    else if leb t.min_static_interval_ms (now_ms - t.last_render_ms)
    then (record t { last_render_ms = now_ms }, true)
    else (t, false)

-- When a frame is due: the first, one that is not static, a changed one, or one after the interval.
abbrev pub is_due : RenderThrottle → ℕ → ℕ → Bool → Bool
is_due t now_ms fingerprint is_static =
    not t.has_rendered
    || not is_static
    || not (fingerprint == t.last_fingerprint)
    || leb t.min_static_interval_ms (now_ms - t.last_render_ms)

-- A frame is drawn exactly when it is due; then its time and its fingerprint are those of the last
-- frame drawn, and otherwise they stay.
should_render_lem :
    (t : RenderThrottle) (now_ms fingerprint : ℕ) (is_static : Bool)
    → let r = should_render t now_ms fingerprint is_static in
      let due = is_due t now_ms fingerprint is_static in
      (r.1 ≡ due)
      × (r.0.last_render_ms ≡ (if due then now_ms else t.last_render_ms))
      × (r.0.last_fingerprint ≡ (if due then fingerprint else t.last_fingerprint))
      × (r.0.has_rendered ≡ true)
unfolding should_render
should_render_lem t now_ms fingerprint is_static = ground arith
