-- ===== src/Plugins/UrlExtractor.antt =====
-- plugins/urlextractor/urlextractor.go; its `Reduce` is `Sum.reduce`. What package `regexp` finds is a
-- parameter.
use map_reduce_rpc.Prelude.{ℕ, Bool, ◌||◌, List, [], ◌∷◌, eqb}
use map_reduce_rpc.Prelude.Trim.{trim_right}
use map_reduce_rpc.Rpc.{KeyValue}
use map_reduce_rpc.Plugins.{to_lower, one_of}

-- the cut set ".,!?:"
abbrev pub is_punctuation : ℕ → Bool
is_punctuation c = eqb c b'.' || eqb c b',' || eqb c b'!' || eqb c b'?' || eqb c b':'

unfoldable pub map_loop : List (List ℕ) → List KeyValue
map_loop [] = []
map_loop (m ∷ matches) = one_of (to_lower (trim_right is_punctuation m)) ∷ map_loop matches

unfoldable pub map : (List ℕ → List (List ℕ)) → List ℕ → List ℕ → List KeyValue
map find_all_string filename contents = map_loop (find_all_string contents)
