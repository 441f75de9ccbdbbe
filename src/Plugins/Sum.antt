-- ===== src/Plugins/Sum.antt =====
-- The `Reduce` that plugins/charfreq, bigram, linestats, topwords, sentiment, emailextract and
-- urlextractor have in common.
use map_reduce_rpc.Prelude.{ℕ, Option, none, some, List, [], ◌∷◌}
use map_reduce_rpc.Prelude.Words.{add64}
use map_reduce_rpc.Durable.Names.{int_text}
use map_reduce_rpc.Plugins.{atoi}

-- A value that is no number is passed over.
abbrev pub add_parsed : ℕ → Option ℕ → ℕ
add_parsed total none = total
add_parsed total (some n) = add64 total n

unfoldable pub sum_loop : List (List ℕ) → ℕ → ℕ
sum_loop [] total = total
sum_loop (v ∷ values) total = sum_loop values (add_parsed total (atoi v))

unfoldable pub reduce : List ℕ → List (List ℕ) → List ℕ
reduce key values = int_text (sum_loop values 0)
