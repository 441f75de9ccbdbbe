-- ===== src/Prelude/Words.antt =====
-- Go's 64-bit integers as bit patterns below 2 ^ 64: `uint64` is the pattern itself, and an
-- `int64` with pattern p stands for p, or for p - 2 ^ 64 from 2 ^ 63 on.
use map_reduce_rpc.Prelude.Tests.{ltb}
use Prim.Native.Nat.{ℕ, ◌+◌, ◌-◌, ◌%◌, ◌^◌, ◌<◌}
use mathlib.Core.Bool.{Bool}

abbrev pub u64_mod : ℕ
u64_mod = 2 ^ 64

abbrev pub IsU64 : ℕ → Type 0
IsU64 v = v < 2 ^ 64

-- `a + b` and `a - b`, which wrap around.
abbrev pub add64 : ℕ → ℕ → ℕ
add64 a b = (a + b) % 2 ^ 64

abbrev pub sub64 : ℕ → ℕ → ℕ
sub64 a b = (a + 2 ^ 64 - b) % 2 ^ 64

-- `a < b` on two `int64`: moving both by 2 ^ 63 makes it the order of the patterns.
abbrev pub slt64 : ℕ → ℕ → Bool
slt64 a b = ltb ((a + 2 ^ 63) % 2 ^ 64) ((b + 2 ^ 63) % 2 ^ 64)

-- `a < 0` on an `int64`.
abbrev pub negative64 : ℕ → Bool
negative64 a = slt64 a 0
