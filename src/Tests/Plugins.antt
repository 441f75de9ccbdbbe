-- ===== src/Tests/Plugins.antt =====
-- The plugins at work.
use map_reduce_rpc.Prelude.{
  ℕ, ◌^◌, ◌<◌, ◌≡◌, refl, arith, Bool, true, false, List, [], ◌∷◌, ◌++◌, All, eqb, length,
  if◌then◌else◌, Bool-cases, inl, inr, ◌==◌, ==_iff, list_eq, nat_eq,
}
use map_reduce_rpc.Prelude.Text.{codes}
use map_reduce_rpc.Prelude.TextOrder.{occurrences}
use map_reduce_rpc.Prelude.Assoc.{lookup}
use map_reduce_rpc.Worker.Reduce.{keys_of, count, reduce_all}
use map_reduce_rpc.Worker.Counts.{report, tally_loop, times}
use map_reduce_rpc.Plugins.{tokenize, letter_fields, sort_strings}
use map_reduce_rpc.Plugins.Sum
use map_reduce_rpc.Plugins.Wc
use map_reduce_rpc.Plugins.TopWords
use map_reduce_rpc.Plugins.Sentiment
use map_reduce_rpc.Plugins.Indexer
use map_reduce_rpc.Plugins.Totals.{reduce_parts, concat_parts, reduce-reduce_parts}
use map_reduce_rpc.Plugins.Counting.{top_words_lem}
use map_reduce_rpc.Plugins.Merged.{cut_at_separator}
use map_reduce_rpc.Plugins.Shares.{indexer_lem}
use map_reduce_rpc.Tests.Work.{insertion}

abbrev text : List ℕ
text = codes "Hope, hope and fear; the sea"

abbrev name : List ℕ
name = codes "sea.txt"

abbrev parts : List (List (List ℕ))
parts = (codes "1" ∷ codes "x" ∷ codes "-3" ∷ []) ∷ (codes "40" ∷ []) ∷ []

reduce-reduce_parts_example :
    Sum.reduce name (reduce_parts name parts) ≡ Sum.reduce name (concat_parts parts)
reduce-reduce_parts_example = reduce-reduce_parts name parts

thirty_eight : Sum.reduce name (concat_parts parts) ≡ codes "38"
unfolding Sum.reduce Sum.sum_loop concat_parts map_reduce_rpc.Plugins.atoi
    map_reduce_rpc.Durable.Names.int_text map_reduce_rpc.Prelude.Text.decimal
thirty_eight = refl

top_words_example :
    (reduce_all insertion Sum.reduce (TopWords.map name text)
      ≡ report (
          tally_loop
            (length (TopWords.map name text))
            (keys_of (insertion.sort (TopWords.map name text)))))
    × (lookup (codes "hope") (
          tally_loop
            (length (TopWords.map name text))
            (keys_of (insertion.sort (TopWords.map name text))))
        ≡ times (
            if TopWords.is_skipped (codes "hope")
            then 0
            else occurrences (codes "hope") (tokenize text)))
top_words_example = top_words_lem insertion name text (codes "hope") (omega arith)

cut_at_separator_example :
    (Wc.map name (codes "to be" ++ b' ' ∷ codes "or not")
      ≡ Wc.map name (codes "to be") ++ Wc.map name (codes "or not"))
    × (TopWords.map name (codes "to be" ++ b' ' ∷ codes "or not")
        ≡ TopWords.map name (codes "to be") ++ TopWords.map name (codes "or not"))
    × (Sentiment.map name (codes "to be" ++ b' ' ∷ codes "or not")
        ≡ Sentiment.map name (codes "to be") ++ Sentiment.map name (codes "or not"))
cut_at_separator_example = cut_at_separator name (codes "to be") (codes "or not") b' ' refl

indexer_example :
    (count (λ kv. kv.key == codes "hope") (Indexer.map name text)
      ≡ (if eqb (occurrences (codes "hope") (letter_fields text)) 0 then 0 else 1))
    × All (λ kv. kv.value ≡ name) (Indexer.map name text)
indexer_example = indexer_lem name text (codes "hope")

abbrev two_names : List (List ℕ)
two_names = codes "b" ∷ codes "a" ∷ []

swapped : (k : List ℕ) → occurrences k two_names ≡ occurrences k (codes "a" ∷ codes "b" ∷ [])
unfolding occurrences
swapped k = elim (Bool-cases (codes "a" == k)) [
  | inl same ↦ rw same (ground arith)
  | inr other ↦ rw other (ground arith)
]
