-- ===== src/Plugins/Shares.antt =====
-- How plugins/sentiment and plugins/indexer share out the words, and what their reducers make of them.
use map_reduce_rpc.Prelude.{
  ℕ, suc, ◌≡◌, refl, sym, ◌∙◌, arith, Bool, true, false, not, ◌&&◌, List, [], ◌∷◌, if◌then◌else◌,
  eqb, Bool-cases, inl, inr, ◌==◌, ==_iff, list_eq, nat_eq, All,
}
use map_reduce_rpc.Prelude.Assoc.{Assoc, store}
use map_reduce_rpc.Prelude.TextOrder.{
  text_less, NoneLess, IsTextSorted, occurrences, sorted_unique, text_less_trans,
}
use map_reduce_rpc.Worker.Reduce.{count}
use map_reduce_rpc.Plugins.{letter_fields, has_word, insert_text, sort_strings}
use map_reduce_rpc.Plugins.Sentiment
use map_reduce_rpc.Plugins.Sentiment.{positive_words, negative_words}
use map_reduce_rpc.Plugins.Indexer
use map_reduce_rpc.Plugins.NoCrash

-- How many words pass a test.
unfoldable pub number : (List ℕ → Bool) → List (List ℕ) → ℕ
number p [] = 0
number p (w ∷ ws) = let rest = number p ws in if p w then suc rest else rest

abbrev pub is_neutral : List ℕ → Bool
is_neutral w = not (has_word positive_words w) && not (has_word negative_words w)

-- `n`, but one at least.
abbrev once : ℕ → ℕ
once n = if eqb n 0 then 1 else n

count-store :
    (document v w : List ℕ) (m : Assoc (List ℕ) (Unit {0}))
    → count (λ kv. kv.key == w) (Indexer.entries_of document (store v tt m)) ≡ (
        if v == w
        then once (count (λ kv. kv.key == w) (Indexer.entries_of document m))
        else count (λ kv. kv.key == w) (Indexer.entries_of document m))
unfolding count store Indexer.entries_of
count-store document v w [] = ground arith
count-store document v w ((j, present) ∷ m) =
    ground (arith, count-store document v w m, ==_iff j v, ==_iff j w, ==_iff v w)

count-word_set :
    (document w : List ℕ) (words : List (List ℕ)) (m : Assoc (List ℕ) (Unit {0}))
    → count (λ kv. kv.key == w) (Indexer.entries_of document (Indexer.word_set words m)) ≡ (
        if eqb (occurrences w words) 0
        then count (λ kv. kv.key == w) (Indexer.entries_of document m)
        else once (count (λ kv. kv.key == w) (Indexer.entries_of document m)))
unfolding Indexer.word_set occurrences
count-word_set document w [] m = refl
count-word_set document w (v ∷ words) m =
    ground (arith, count-word_set document w words (store v tt m), count-store document v w m)

entries_of-documents :
    (document : List ℕ) (m : Assoc (List ℕ) (Unit {0}))
    → All (λ kv. kv.value ≡ document) (Indexer.entries_of document m)
unfolding Indexer.entries_of
entries_of-documents document [] = tt
entries_of-documents document ((w, present) ∷ m) = (refl, entries_of-documents document m)

-- The pairs of plugins/indexer: every word that occurs is there once, however often it occurs, no other
-- word is, and all values are the document.
pub indexer_lem :
    (document value w : List ℕ)
    → (count (λ kv. kv.key == w) (Indexer.map document value)
        ≡ (if eqb (occurrences w (letter_fields value)) 0 then 0 else 1))
      × All (λ kv. kv.value ≡ document) (Indexer.map document value)
unfolding Indexer.map count Indexer.entries_of
indexer_lem document value w = (
  count-word_set document w (letter_fields value) [],
  entries_of-documents document (Indexer.word_set (letter_fields value) []),
)

text_less_asym : (s t : List ℕ) → text_less s t ≡ true → text_less t s ≡ false
unfolding text_less
text_less_asym [] [] less = ground arith
text_less_asym (b ∷ s) [] less = ground arith
text_less_asym [] (c ∷ t) less = refl
text_less_asym (b ∷ s) (c ∷ t) less = ground (arith, text_less_asym s t)

NoneLess-insert :
    (r s : List ℕ) (ts : List (List ℕ))
    → text_less s r ≡ false
    → NoneLess r ts
    → NoneLess r (insert_text s ts)
unfolding insert_text
NoneLess-insert r s [] here none_less = (here, tt)
NoneLess-insert r s (t ∷ ts) here (first, rest) = elim (Bool-cases (text_less t s)) [
  | inl after ↦ rw after (first, NoneLess-insert r s ts here rest)
  | inr before ↦ rw before (here, (first, rest))
]

NoneLess-trans :
    (s t : List ℕ) (ts : List (List ℕ)) → text_less t s ≡ false → NoneLess t ts → NoneLess s ts
NoneLess-trans s t [] le none_less = tt
NoneLess-trans s t (u ∷ ts) le (first, rest) =
    (text_less_trans s t u le first, NoneLess-trans s t ts le rest)

insert-IsTextSorted :
    (s : List ℕ) (ts : List (List ℕ)) → IsTextSorted ts → IsTextSorted (insert_text s ts)
unfolding insert_text
insert-IsTextSorted s [] sorted = (tt, tt)
insert-IsTextSorted s (t ∷ ts) (least, sorted) = elim (Bool-cases (text_less t s)) [
  | inl after ↦
      rw after
        (NoneLess-insert t s ts (text_less_asym t s after) least, insert-IsTextSorted s ts sorted)
  | inr before ↦ rw before ((before, NoneLess-trans s t ts before least), (least, sorted))
]

sort_strings-IsTextSorted : (ss : List (List ℕ)) → IsTextSorted (sort_strings ss)
unfolding sort_strings
sort_strings-IsTextSorted [] = tt
sort_strings-IsTextSorted (s ∷ ss) =
    insert-IsTextSorted s (sort_strings ss) (sort_strings-IsTextSorted ss)

occurrences-insert :
    (k s : List ℕ) (ts : List (List ℕ)) → occurrences k (insert_text s ts) ≡ occurrences k (s ∷ ts)
unfolding insert_text occurrences
occurrences-insert k s [] = refl
occurrences-insert k s (t ∷ ts) = ground (arith, occurrences-insert k s ts)

occurrences-sort_strings :
    (k : List ℕ) (ss : List (List ℕ)) → occurrences k (sort_strings ss) ≡ occurrences k ss
unfolding sort_strings occurrences
occurrences-sort_strings k [] = refl
occurrences-sort_strings k (s ∷ ss) =
    occurrences-insert k s (sort_strings ss) ∙ ground (arith, occurrences-sort_strings k ss)

-- `sort.Strings` sorts and keeps every text as often as it is there; so the results of the reducers of
-- plugins/indexer and plugins/nocrash do not depend on the order in which the values arrive.
pub sorted_reducers :
    (key : List ℕ) (values values' : List (List ℕ))
    → ((k : List ℕ) → occurrences k values ≡ occurrences k values')
    → IsTextSorted (sort_strings values)
      × ((k : List ℕ) → occurrences k (sort_strings values) ≡ occurrences k values)
      × (Indexer.reduce key values ≡ Indexer.reduce key values')
      × (NoCrash.reduce key values ≡ NoCrash.reduce key values')
unfolding Indexer.reduce NoCrash.reduce
sorted_reducers key values values' same =
    let sorted : sort_strings values ≡ sort_strings values' =
      sorted_unique (sort_strings values) (sort_strings values') (sort_strings-IsTextSorted values)
        (sort_strings-IsTextSorted values')
        (λ k.
          occurrences-sort_strings k values ∙ same k ∙ sym (occurrences-sort_strings k values')) in
    (sort_strings-IsTextSorted values, λ k. occurrences-sort_strings k values, rw sorted, rw sorted)
