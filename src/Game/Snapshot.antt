-- ===== src/Game/Snapshot.antt =====
-- crates/tetris-core/src/core: the snapshot of a game (snapshot.rs and `snapshot_into` of
-- game_state.rs) and its stable hash (state_hash.rs).
-- A snapshot is a `Run`, as the ghost row that it holds is a loop.
use Prim.Native.Nat.{bit_xor}
use tui_tetris.Prelude.{
  ℕ, ◌*◌, ◌/◌, ◌%◌, Bool, true, false, not, ◌&&◌, Option, none, some, List, [], ◌∷◌, ◌++◌,
}
use tui_tetris.Prelude.{replicate, Run, ret, ◌>>=◌, u64_mod}
use tui_tetris.Types.{
  PieceKind, i_piece, o_piece, t_piece, s_piece, z_piece, j_piece, l_piece, Rotation, north, east,
  south, west,
}
use tui_tetris.Types.{TSpinKind, no_spin, mini, full, CoreLastEvent}
use tui_tetris.Board.{write_u8_grid}
use tui_tetris.Game.State.{Tetromino, GameState}
use tui_tetris.Game.Moves.{ghost_y}

pub record ActiveSnapshot : Type 0 where
  pub kind : PieceKind
  pub rotation : Rotation
  pub x : ℕ
  pub y : ℕ

-- `ActiveSnapshot::from`, under `Option::map`.
abbrev pub from_active : Option Tetromino → Option ActiveSnapshot
from_active none = none
from_active (some t) = some (record { kind = t.kind; rotation = t.rotation; x = t.x; y = t.y })

pub record TimersSnapshot : Type 0 where
  pub drop_ms : ℕ
  pub lock_ms : ℕ
  pub line_clear_ms : ℕ

pub record GameSnapshot : Type 0 where
  pub board : List (List ℕ)
  pub board_id : ℕ
  pub board_hash : ℕ
  pub active : Option ActiveSnapshot
  pub ghost_y : Option ℕ
  pub hold : Option PieceKind
  pub next_queue : List PieceKind
  pub can_hold : Bool
  pub paused : Bool
  pub game_over : Bool
  pub episode_id : ℕ
  pub seed : ℕ
  pub piece_id : ℕ
  pub step_in_piece : ℕ
  pub score : ℕ
  pub level : ℕ
  pub lines : ℕ
  pub timers : TimersSnapshot

-- `GameSnapshot::default`, which `clear` makes of any snapshot too.
abbrev pub default_snapshot : GameSnapshot
default_snapshot = record {
  board = replicate 20 (replicate 10 0);
  board_id = 0;
  board_hash = 0;
  active = none;
  ghost_y = none;
  hold = none;
  next_queue = replicate 5 i_piece;
  can_hold = true;
  paused = false;
  game_over = false;
  episode_id = 0;
  seed = 0;
  piece_id = 0;
  step_in_piece = 0;
  score = 0;
  level = 0;
  lines = 0;
  timers = record { drop_ms = 0; lock_ms = 0; line_clear_ms = 0 };
}

abbrev pub playable : GameSnapshot → Bool
playable snap = not snap.game_over && not snap.paused

abbrev pub offset_basis : ℕ
offset_basis = 14695981039346656037

abbrev pub prime : ℕ
prime = 1099511628211

-- The FNV-1a loop, of `write` and of the board's hash.
unfoldable pub write : ℕ → List ℕ → ℕ
write hash [] = hash
write hash (byte ∷ bytes) = write ((bit_xor hash byte * prime) % u64_mod) bytes

-- Writes one after the other.
unfoldable pub write_all : ℕ → List (List ℕ) → ℕ
write_all hash [] = hash
write_all hash (bytes ∷ rest) = write_all (write hash bytes) rest

-- The rows are hashed one after the other.
unfoldable pub snapshot_board_into : GameState → GameSnapshot → GameSnapshot
snapshot_board_into s out = record out {
  board = write_u8_grid s.board;
  board_id = s.board_id;
  board_hash = write_all offset_basis (write_u8_grid s.board);
}

-- `snapshot_meta_into` with the ghost row.
abbrev pub with_meta : GameState → GameSnapshot → Option ℕ → GameSnapshot
with_meta s out ghost = record out {
  active = from_active s.active;
  ghost_y = ghost;
  hold = s.hold;
  next_queue = s.next_queue;
  can_hold = s.can_hold;
  paused = s.paused;
  game_over = s.game_over;
  episode_id = s.episode_id;
  seed = s.piece_queue.episode_seed;
  piece_id = s.piece_id;
  step_in_piece = s.step_in_piece;
  score = s.score;
  level = s.level;
  lines = s.lines;
  timers = record {
    drop_ms = s.drop_timer_ms;
    lock_ms = s.lock_timer_ms;
    line_clear_ms = s.line_clear_timer_ms;
  };
}

unfoldable pub snapshot_meta_into : GameState → GameSnapshot → Run GameSnapshot
snapshot_meta_into s out = ghost_y s >>= λ (ghost : Option ℕ). ret (with_meta s out ghost)

unfoldable pub snapshot : GameState → Run GameSnapshot
snapshot s = snapshot_meta_into s (snapshot_board_into s default_snapshot)

abbrev pub piece_code : PieceKind → ℕ
piece_code i_piece = 1
piece_code o_piece = 2
piece_code t_piece = 3
piece_code s_piece = 4
piece_code z_piece = 5
piece_code j_piece = 6
piece_code l_piece = 7

abbrev pub rotation_code : Rotation → ℕ
rotation_code north = 0
rotation_code east = 1
rotation_code south = 2
rotation_code west = 3

abbrev pub bool_code : Bool → ℕ
bool_code true = 1
bool_code false = 0

abbrev pub spin_code : TSpinKind → ℕ
spin_code no_spin = 0
spin_code mini = 1
spin_code full = 2

-- `to_le_bytes` of a u32 and of a u64.
abbrev pub u32_bytes : ℕ → List ℕ
u32_bytes n = n % 256 ∷ (n / 256) % 256 ∷ (n / 65536) % 256 ∷ (n / 16777216) % 256 ∷ []

abbrev pub u64_bytes : ℕ → List ℕ
u64_bytes n = u32_bytes (n % 4294967296) ++ u32_bytes (n / 4294967296)

abbrev pub active_writes : Option ActiveSnapshot → List (List ℕ)
active_writes none = (0 ∷ []) ∷ []
active_writes (some a) =
    (1 ∷ []) ∷ (piece_code a.kind ∷ rotation_code a.rotation ∷ a.x ∷ a.y ∷ []) ∷ []

abbrev pub hold_writes : Option PieceKind → List (List ℕ)
hold_writes none = (0 ∷ []) ∷ []
hold_writes (some kind) = (1 ∷ []) ∷ (piece_code kind ∷ []) ∷ []

abbrev pub queue_writes : List PieceKind → List (List ℕ)
queue_writes [] = []
queue_writes (kind ∷ kinds) = (piece_code kind ∷ []) ∷ queue_writes kinds

abbrev pub spin_writes : Option TSpinKind → List (List ℕ)
spin_writes none = (0 ∷ []) ∷ []
spin_writes (some spin) = (1 ∷ []) ∷ (spin_code spin ∷ []) ∷ []

abbrev pub event_writes : Option CoreLastEvent → List (List ℕ)
event_writes none = (0 ∷ []) ∷ []
event_writes (some e) =
    (1 ∷ [])
    ∷ (bool_code e.locked ∷ [])
    ∷ u32_bytes e.lines_cleared
    ∷ u32_bytes e.line_clear_score
    ∷ (spin_writes e.tspin ++ u32_bytes e.combo ∷ (bool_code e.back_to_back ∷ []) ∷ [])

abbrev pub counter_writes : GameSnapshot → List (List ℕ)
counter_writes snap =
    u32_bytes snap.episode_id
    ∷ u32_bytes snap.piece_id
    ∷ u32_bytes snap.step_in_piece
    ∷ u32_bytes snap.seed
    ∷ u32_bytes snap.score
    ∷ u32_bytes snap.level
    ∷ u32_bytes snap.lines
    ∷ u32_bytes snap.timers.drop_ms
    ∷ u32_bytes snap.timers.lock_ms
    ∷ u32_bytes snap.timers.line_clear_ms
    ∷ []

-- The writes of `stable_state_hash`, in order.
abbrev pub state_writes : GameSnapshot → Option CoreLastEvent → List (List ℕ)
state_writes snap event =
    u64_bytes snap.board_hash
    ∷ u32_bytes snap.board_id
    ∷ (active_writes snap.active
        ++ hold_writes snap.hold
        ++ (bool_code snap.can_hold ∷ [])
          ∷ (queue_writes snap.next_queue
              ++ (bool_code snap.paused ∷ bool_code snap.game_over ∷ [])
                ∷ (counter_writes snap ++ event_writes event)))

unfoldable pub stable_state_hash : GameSnapshot → Option CoreLastEvent → ℕ
stable_state_hash snap event = write_all offset_basis (state_writes snap event)
