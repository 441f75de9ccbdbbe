-- ===== src/Prelude/Env.antt =====
-- The environment of a process: the values of its variables, empty for those that are not set.
use map_reduce_rpc.Prelude.Tests.{if◌then◌else◌}
use map_reduce_rpc.Prelude.Equality.{list_beq, nat_eq}
use Prim.Native.Nat.{ℕ}
use mathlib.Core.List.{List}

abbrev pub Env : Type 0
Env = List ℕ → List ℕ

-- `os.Setenv`
unfoldable pub set_env : List ℕ → List ℕ → Env → Env
set_env key value env other = if list_beq other key then value else env other
