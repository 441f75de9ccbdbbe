-- ===== src/Plugins/NoCrash.antt =====
-- plugins/nocrash/nocrash.go. Its `maybeCrash` has the test `false && …` and does nothing.
use map_reduce_rpc.Prelude.{ℕ, List, [], ◌∷◌, length}
use map_reduce_rpc.Prelude.Text.{codes}
use map_reduce_rpc.Durable.Names.{int_text}
use map_reduce_rpc.Rpc.{KeyValue}
use map_reduce_rpc.Plugins.{sort_strings, join}

unfoldable pub map : List ℕ → List ℕ → List KeyValue
map filename contents =
    record { key = codes "a"; value = filename }
    ∷ record { key = codes "b"; value = int_text (length filename) }
    ∷ record { key = codes "c"; value = int_text (length contents) }
    ∷ record { key = codes "d"; value = codes "xyzzy" }
    ∷ []

-- The values are sorted in a copy.
unfoldable pub reduce : List ℕ → List (List ℕ) → List ℕ
reduce key values = join (b' ' ∷ []) (sort_strings values)
