-- ===== src/Session/Fresh.antt =====
-- crates/tetris-session/src/engine/session.rs: the snapshot cache of a session against its game, over
-- steps that start no game anew: with a new game the id of the board starts at 0 again.
use tui_tetris.Prelude.{
  ℕ, ◌+◌, ◌≤◌, ◌≡◌, refl, sym, ap, ◌∙◌, true, some, List, [], ◌∷◌, length, arith,
}
use tui_tetris.Prelude.{
  Run, ret, fault, ◌>>=◌, Returns, Returns->>=, Allows, Allows->>=, ◌==◌, ==_iff, if◌then◌else◌,
  if_both, u32_max,
}
use mathlib.Core.Path.{subst}
use tui_tetris.Game.State
use tui_tetris.Game.State.{GameState}
use tui_tetris.Game.Moves.{ghost_y}
use tui_tetris.Game.Snapshot.{
  GameSnapshot, default_snapshot, snapshot, snapshot_board_into, snapshot_meta_into,
}
use tui_tetris.Game.BoardId.Locks.{Keeps, anything}
use tui_tetris.Session.Runtime
use tui_tetris.Session.Runtime.{StepInput, SessionRuntime, Transition}
use tui_tetris.Session.Steps.{AreCommands}
use tui_tetris.Session.Cache
use tui_tetris.Session.Cache.{
  CachedSession, SnapshotStore, is_cached, refresh, refresh_meta, store_of, empty_store,
}
use tui_tetris.Session.BoardId.Steps.{NoRestart, NoRestartIn, action_count, transition-Keeps}
use tui_tetris.Session.Replay.Verify.{Sound, transition-Returns, new-Returns}

-- The store holds the snapshot of the game, under its board id.
pub record Shows (store : SnapshotStore) (s : GameState) : Type 0 where
  pub own : snapshot s ≡ ret store.snapshot
  pub own_id : store.board_id ≡ some s.board_id

snapshot-board : (s : GameState) → Allows (snapshot s) (λ out. snapshot_board_into s out ≡ out)
unfolding snapshot snapshot_meta_into snapshot_board_into
snapshot-board s = Allows->>= (ghost_y s) _ (λ g. Unit {0}) _ (anything (ghost_y s)) (λ g u. refl)

-- The board of a store that shows the game is that of the game.
Shows-board :
    (store : SnapshotStore) (s : GameState)
    → Shows store s
    → snapshot_board_into s store.snapshot ≡ store.snapshot
Shows-board store s p =
    subst (λ m. Allows m (λ out. snapshot_board_into s out ≡ out)) p.own (snapshot-board s)

-- What a refresh leaves, from a copy of the board.
fresh :
    (s : GameState) (m : Run GameSnapshot)
    → m ≡ snapshot s
    → Allows (m >>= λ (out : GameSnapshot). ret (store_of s out)) (λ store. Shows store s)
fresh s (ret out) e = record { own = sym e; own_id = refl }
fresh s fault e = tt

refresh_meta-Shows :
    (s : GameState) (out : GameSnapshot)
    → Allows (refresh_meta s (snapshot_board_into s out)) (λ store. Shows store s)
unfolding snapshot snapshot_meta_into snapshot_board_into
refresh_meta-Shows s out = fresh s (snapshot_meta_into s (snapshot_board_into s out)) refl

-- Two boards that the ids do not tell apart are the same.
Follows-same :
    (s s' : GameState)
    → s.board_id ≤ u32_max
    → Keeps s.board s.board_id u32_max s'
    → (s.board_id == s'.board_id) ≡ true
    → (s'.board ≡ s.board) × (s'.board_id ≡ s.board_id)
Follows-same s s' h (k, le, e, same) cached =
    let ids : s.board_id ≡ s'.board_id = (==_iff s.board_id s'.board_id).0 cached in
    (same (omega (arith, h, le, e, ids)), sym ids)

board_into-same :
    (s s' : GameState) (out : GameSnapshot)
    → s'.board ≡ s.board
    → s'.board_id ≡ s.board_id
    → snapshot_board_into s' out ≡ snapshot_board_into s out
unfolding snapshot_board_into
board_into-same s s' out e e' = rw (e, e') refl

-- A store that shows a game shows the one that follows after a refresh.
refresh-Shows :
    (store : SnapshotStore) (s s' : GameState)
    → s.board_id ≤ u32_max
    → Keeps s.board s.board_id u32_max s'
    → Shows store s
    → Allows (refresh store s') (λ store'. Shows store' s')
unfolding refresh
refresh-Shows store s s' h k p =
    subst (λ out. Allows (refresh_meta s' out) (λ store'. Shows store' s')) (sym chosen)
      (refresh_meta-Shows s' store.snapshot)
  where
    chosen :
        (if is_cached store.board_id s'.board_id
          then store.snapshot
          else snapshot_board_into s' store.snapshot)
        ≡ snapshot_board_into s' store.snapshot
    chosen =
        if_both (λ out. out ≡ snapshot_board_into s' store.snapshot)
          (is_cached store.board_id s'.board_id) store.snapshot
          (snapshot_board_into s' store.snapshot)
          (λ cached.
            let (e, e') =
              Follows-same s s' h k (ap (λ o. is_cached o s'.board_id) (sym p.own_id) ∙ cached) in
            sym (board_into-same s s' store.snapshot e e' ∙ Shows-board store s p))
          (λ other. refl)

-- The session is sound, and its store shows its game.
pub record IsFresh (c : CachedSession) : Type 0 where
  pub sound : Sound c
  pub is_u32 : c.runtime.game.board_id ≤ u32_max
  pub shows : Shows c.snapshots c.runtime.game

board_id-new : (seed : ℕ) → (State.start (State.new seed)).board_id ≡ 0
unfolding State.new State.start State.spawn_piece State.consume
board_id-new seed = ground arith

abbrev Shown : CachedSession → Type 0
Shown c = (c.runtime.game.board_id ≤ u32_max) × Shows c.snapshots c.runtime.game

-- The input places at i8 columns, starts no game anew and has fewer than 2 ^ 32 - 1 actions and
-- placements.
pub record IsPlain (input : StepInput) : Type 0 where
  pub commands : AreCommands input.remote
  pub remote : NoRestartIn input.remote
  pub local : NoRestart input.local
  pub few : action_count input.remote + length input.local + 1 ≤ u32_max

new-Shown : (seed : ℕ) → Allows (Cache.new seed) Shown
unfolding Cache.new Cache.from_runtime refresh
new-Shown seed =
    Allows->>= (refresh empty_store (State.start (State.new seed))) _
      (λ store. Shows store (State.start (State.new seed))) _
      (refresh_meta-Shows (State.start (State.new seed)) default_snapshot)
      (λ store p. (omega (arith, board_id-new seed), p))

transition-Shown :
    (c : CachedSession) (input : StepInput)
    → IsPlain input
    → IsFresh c
    → Allows (Cache.transition c input) (λ (r : CachedSession × Transition). Shown r.0)
unfolding Cache.transition
transition-Shown c input plain p =
    let game = c.runtime.game in
    Allows->>= (Runtime.transition c.runtime input) _
      (λ (r : SessionRuntime × Transition). Keeps game.board game.board_id u32_max r.0.game) _
      (transition-Keeps game.board game.board_id 4294967294 c.runtime input
        (omega (arith, plain.few)) plain.remote plain.local
        (0, omega arith, omega (arith, p.is_u32), λ z. refl))
      (λ r k.
        Allows->>= (refresh c.snapshots r.0.game) _ (λ store. Shows store r.0.game) _
          (refresh-Shows c.snapshots game r.0.game p.is_u32 k p.shows)
          (λ store shown. (let (n, le, e, same) = k in omega (arith, e), shown)))

new-IsFresh : (seed : ℕ) → Returns (Cache.new seed) IsFresh
new-IsFresh seed =
    let (c, e, w) = new-Returns seed in
    let (small, shown) = subst (λ m. Allows m Shown) e (new-Shown seed) in
    (c, e, record { sound = w; is_u32 = small; shows = shown })

transition-IsFresh :
    (c : CachedSession) (input : StepInput)
    → IsPlain input
    → IsFresh c
    → Returns (Cache.transition c input) (λ (r : CachedSession × Transition). IsFresh r.0)
transition-IsFresh c input plain p =
    let (r, e, w) = transition-Returns c input plain.commands p.sound in
    let (small, shown) =
      subst (λ m. Allows m (λ (r : CachedSession × Transition). Shown r.0)) e
        (transition-Shown c input plain p) in
    (r, e, record { sound = w; is_u32 = small; shows = shown })

-- The session after steps with the inputs, in order.
abbrev pub after_inputs : CachedSession → List StepInput → Run CachedSession
after_inputs c [] = ret c
after_inputs c (input ∷ inputs) =
    Cache.transition c input >>= λ (r : CachedSession × Transition). after_inputs r.0 inputs

abbrev pub ArePlain : List StepInput → Type 0
ArePlain [] = Unit {0}
ArePlain (input ∷ inputs) = IsPlain input × ArePlain inputs

after_inputs-IsFresh :
    (inputs : List StepInput) (c : CachedSession)
    → ArePlain inputs
    → IsFresh c
    → Returns (after_inputs c inputs) IsFresh
after_inputs-IsFresh [] c plain p = (c, refl, p)
after_inputs-IsFresh (input ∷ inputs) c (plain, rest) p =
    Returns->>= (Cache.transition c input)
      (λ (r : CachedSession × Transition). after_inputs r.0 inputs)
      (λ (r : CachedSession × Transition). IsFresh r.0) IsFresh (transition-IsFresh c input plain p)
      (λ r p'. after_inputs-IsFresh inputs r.0 rest p')

-- From every seed, and after any steps whose inputs place at i8 columns, start no game anew and have
-- fewer than 2 ^ 32 - 1 actions and placements each: the session is reached, its game is well formed,
-- with a board id of 32 bits, and its store holds the game's own snapshot, under the game's board id,
-- also where the board was not copied.
pub session-IsFresh :
    (seed : ℕ) (inputs : List StepInput)
    → ArePlain inputs
    → Returns (Cache.new seed >>= λ (c : CachedSession). after_inputs c inputs) IsFresh
session-IsFresh seed inputs plain =
    Returns->>= (Cache.new seed) (λ (c : CachedSession). after_inputs c inputs) IsFresh IsFresh
      (new-IsFresh seed) (λ c p. after_inputs-IsFresh inputs c plain p)
