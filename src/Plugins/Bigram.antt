-- ===== src/Plugins/Bigram.antt =====
-- plugins/bigram/bigram.go; its `Reduce` is `Sum.reduce`.
use map_reduce_rpc.Prelude.{ℕ, List, [], ◌∷◌, ◌++◌, ltb, if◌then◌else◌, length}
use map_reduce_rpc.Rpc.{KeyValue}
use map_reduce_rpc.Plugins.{tokenize, one_of}

-- The loop over the words that have a next one.
unfoldable pub pairs_loop : List (List ℕ) → List KeyValue
pairs_loop [] = []
pairs_loop (w ∷ []) = []
pairs_loop (w ∷ v ∷ words) = one_of (w ++ (b' ' ∷ v)) ∷ pairs_loop (v ∷ words)

unfoldable pub map : List ℕ → List ℕ → List KeyValue
map filename contents =
    let words = tokenize contents in if ltb (length words) 2 then [] else pairs_loop words
