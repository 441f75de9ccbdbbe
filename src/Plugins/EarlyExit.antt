-- ===== src/Plugins/EarlyExit.antt =====
-- plugins/early_exit/early_exit.go. The time that `Reduce` sleeps is left out.
use map_reduce_rpc.Prelude.{ℕ, List, [], ◌∷◌, length}
use map_reduce_rpc.Durable.Names.{int_text}
use map_reduce_rpc.Rpc.{KeyValue}
use map_reduce_rpc.Plugins.{one_of}

unfoldable pub map : List ℕ → List ℕ → List KeyValue
map filename contents = one_of filename ∷ []

unfoldable pub reduce : List ℕ → List (List ℕ) → List ℕ
reduce key values = int_text (length values)
