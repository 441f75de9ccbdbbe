-- ===== src/Plugins/Wc.antt =====
-- plugins/wc/wc.go
use map_reduce_rpc.Prelude.{ℕ, List, length}
use map_reduce_rpc.Durable.Names.{int_text}
use map_reduce_rpc.Rpc.{KeyValue}
use map_reduce_rpc.Plugins.{letter_fields, ones}

unfoldable pub map : List ℕ → List ℕ → List KeyValue
map filename contents = ones (letter_fields contents)

unfoldable pub reduce : List ℕ → List (List ℕ) → List ℕ
reduce key values = int_text (length values)
