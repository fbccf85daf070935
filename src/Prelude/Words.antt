-- ===== src/Prelude/Words.antt =====
-- Machine words as their bit patterns, native numbers below 2 ^ w. An i8 or i32 is its two's
-- complement pattern: -1 is 255 as an i8. Arithmetic wraps as in a release build.
use Prim.Native.Nat.{ℕ, ◌+◌, ◌-◌, ◌*◌, ◌%◌}
use mathlib.Core.Bool.{Bool}
use tui_tetris.Prelude.Tests.{ltb, leb, ◌==◌, if◌then◌else◌}

abbrev pub u32_mod : ℕ
u32_mod = 4294967296

abbrev pub u64_mod : ℕ
u64_mod = 18446744073709551616

abbrev pub u32_max : ℕ
u32_max = 4294967295

abbrev pub saturating_add : ℕ → ℕ → ℕ
saturating_add a b = if leb (a + b) u32_max then a + b else u32_max

abbrev pub saturating_mul : ℕ → ℕ → ℕ
saturating_mul a b = if leb (a * b) u32_max then a * b else u32_max

-- u32 wrapping_add.
abbrev pub wrapping_add : ℕ → ℕ → ℕ
wrapping_add a b = (a + b) % u32_mod

-- The i8 value -k.
abbrev pub neg : ℕ → ℕ
neg k = (256 - k) % 256

abbrev pub add_i8 : ℕ → ℕ → ℕ
add_i8 a b = (a + b) % 256

abbrev pub sub_i8 : ℕ → ℕ → ℕ
sub_i8 a b = (a + 256 - b) % 256

-- The signed order is the order of the patterns moved up by 128.
abbrev pub bias_i8 : ℕ → ℕ
bias_i8 a = (a + 128) % 256

abbrev pub ltb_i8 : ℕ → ℕ → Bool
ltb_i8 a b = ltb (bias_i8 a) (bias_i8 b)

abbrev pub leb_i8 : ℕ → ℕ → Bool
leb_i8 a b = leb (bias_i8 a) (bias_i8 b)

-- i32: -1, the sign test, and `saturating_add(1)`.
abbrev pub i32_max : ℕ
i32_max = 2147483647

abbrev pub minus_one_i32 : ℕ
minus_one_i32 = 4294967295

-- `c <= 0` for an i32.
abbrev pub nonpos_i32 : ℕ → Bool
nonpos_i32 c = if c == 0 then Bool.true else ltb i32_max c

abbrev pub saturating_inc_i32 : ℕ → ℕ
saturating_inc_i32 c = if c == i32_max then c else (c + 1) % u32_mod
