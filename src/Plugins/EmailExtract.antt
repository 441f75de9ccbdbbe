-- ===== src/Plugins/EmailExtract.antt =====
-- plugins/emailextract/emailextract.go; its `Reduce` is `Sum.reduce`. What package `regexp` finds is a
-- parameter.
use map_reduce_rpc.Prelude.{ℕ, List, [], ◌∷◌}
use map_reduce_rpc.Rpc.{KeyValue}
use map_reduce_rpc.Plugins.{to_lower, one_of}

unfoldable pub map_loop : List (List ℕ) → List KeyValue
map_loop [] = []
map_loop (m ∷ matches) = one_of (to_lower m) ∷ map_loop matches

unfoldable pub map : (List ℕ → List (List ℕ)) → List ℕ → List ℕ → List KeyValue
map find_all_string filename contents = map_loop (find_all_string contents)
