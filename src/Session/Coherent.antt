-- ===== src/Session/Coherent.antt =====
-- crates/tetris-session/src/engine/session.rs: the refresh of the snapshot cache returns.
use tui_tetris.Prelude.{refl, inl, inr, none}
use tui_tetris.Prelude.{Returns, Option-cases}
use tui_tetris.Game.State.{GameState}
use tui_tetris.Game.Moves.{ghost_y}
use tui_tetris.Game.Snapshot.{snapshot_meta_into}
use tui_tetris.Game.Invariant.{IsWellFormed}
use tui_tetris.Game.Ghost.{ghost-hard_drop}
use tui_tetris.Session.Cache.{SnapshotStore, refresh}

ghost_y-Returns : (s : GameState) → IsWellFormed s → Returns (ghost_y s) (λ g. Unit {0})
unfolding ghost_y
ghost_y-Returns s w = elim (Option-cases s.active) [
  | inl e ↦ rw (e, ghost_y) (none, refl, tt)
  | inr (t, e) ↦ let (d, h) = ghost-hard_drop s t w e in (_, h.ghost, tt)
]

-- A refresh in a well-formed game returns.
pub refresh-Returns :
    (store : SnapshotStore) (s : GameState)
    → IsWellFormed s
    → Returns (refresh store s) (λ store'. Unit {0})
unfolding refresh snapshot_meta_into
refresh-Returns store s w = let (g, e, u) = ghost_y-Returns s w in rw e (_, refl, tt)
