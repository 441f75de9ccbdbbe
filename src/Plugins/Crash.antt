-- ===== src/Plugins/Crash.antt =====
-- plugins/crash/crash.go. The random number below 1000 is an argument; `none` is the end of the process.
-- The delay is left out.
use map_reduce_rpc.Prelude.{ℕ, Option, none, some, List, ltb, if◌then◌else◌}
use map_reduce_rpc.Rpc.{KeyValue}
use map_reduce_rpc.Plugins.NoCrash

-- The rest is the text of plugins/nocrash.
unfoldable pub map : ℕ → List ℕ → List ℕ → Option (List KeyValue)
map rr filename contents = if ltb rr 330 then none else some (NoCrash.map filename contents)

unfoldable pub reduce : ℕ → List ℕ → List (List ℕ) → Option (List ℕ)
reduce rr key values = if ltb rr 330 then none else some (NoCrash.reduce key values)
