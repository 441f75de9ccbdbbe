-- ===== src/Plugins/Indexer.antt =====
-- plugins/indexer/indexer.go. Go ranges over the map of the words in any order; here it is the order of
-- the association list.
use map_reduce_rpc.Prelude.{ℕ, List, [], ◌∷◌, ◌++◌, length, list_eq, nat_eq}
use map_reduce_rpc.Prelude.Assoc.{Assoc, store}
use map_reduce_rpc.Durable.Names.{int_text}
use map_reduce_rpc.Rpc.{KeyValue}
use map_reduce_rpc.Plugins.{letter_fields, sort_strings, join}

-- `m[w] = true` for every word
unfoldable pub word_set : List (List ℕ) → Assoc (List ℕ) (Unit {0}) → Assoc (List ℕ) (Unit {0})
word_set [] m = m
word_set (w ∷ words) m = word_set words (store w tt m)

unfoldable pub entries_of : List ℕ → Assoc (List ℕ) (Unit {0}) → List KeyValue
entries_of document [] = []
entries_of document ((w, present) ∷ m) =
    record { key = w; value = document } ∷ entries_of document m

unfoldable pub map : List ℕ → List ℕ → List KeyValue
map document value = entries_of document (word_set (letter_fields value) [])

unfoldable pub reduce : List ℕ → List (List ℕ) → List ℕ
reduce key values =
    let sorted = sort_strings values in int_text (length sorted) ++ (b' ' ∷ join (b',' ∷ []) sorted)
