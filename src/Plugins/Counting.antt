-- ===== src/Plugins/Counting.antt =====
-- A plugin that emits the value "1" and sums up counts its keys, as the default functions do.
use map_reduce_rpc.Prelude.{
  ℕ, zero, suc, ◌+◌, ◌^◌, ◌≤◌, ◌<◌, ◌≡◌, refl, ap, ◌∙◌, arith, Bool, true, not, some, List, [], ◌∷◌,
  ◌++◌, if◌then◌else◌, Bool-cases, inl, inr, length, ap2, ltb, ◌==◌, ==_iff, list_eq, nat_eq,
}
use map_reduce_rpc.Prelude.Text.{codes, decimal}
use map_reduce_rpc.Prelude.Assoc.{lookup}
use map_reduce_rpc.Prelude.TextOrder.{occurrences}
use map_reduce_rpc.Durable.Names.{int_text}
use map_reduce_rpc.Rpc.{KeyValue}
use map_reduce_rpc.Worker.Reduce.{
  default_reduce, keys_of, count, SortSlice, span_key, reduce_loop, reduce_all, output_line,
}
use map_reduce_rpc.Worker.Counts.{tally_loop, report, times, word_count_lem}
use map_reduce_rpc.Plugins.{ones, atoi, tokenize, to_lower}
use map_reduce_rpc.Plugins.Sum
use map_reduce_rpc.Plugins.TopWords
use map_reduce_rpc.Plugins.Tokens.{length-letter_fields, length-to_lower}

-- The value is not "1".
abbrev pub is_other : KeyValue → Bool
is_other kv = not (kv.value == codes "1")

-- `n` values "1".
unfoldable pub one_values : ℕ → List (List ℕ)
one_values zero = []
one_values (suc n) = codes "1" ∷ one_values n

atoi-one : atoi (codes "1") ≡ some 1
unfolding atoi
atoi-one = refl

sum_loop-one_values :
    (n total : ℕ) → total + n < 2 ^ 64 → Sum.sum_loop (one_values n) total ≡ total + n
unfolding Sum.sum_loop one_values
sum_loop-one_values zero total small = omega arith
sum_loop-one_values (suc n) total small =
    ap (Sum.sum_loop (one_values n)) (ap (Sum.add_parsed total) atoi-one ∙ omega arith)
    ∙ sum_loop-one_values n (total + 1) (omega arith)
    ∙ omega arith

first_is_one :
    (kv : KeyValue) (kvs : List KeyValue)
    → count is_other (kv ∷ kvs) ≡ 0
    → (kv.value ≡ codes "1") × (count is_other kvs ≡ 0)
unfolding count
first_is_one kv kvs none_other = elim (Bool-cases (kv.value == codes "1")) [
  | inl same ↦ ((==_iff kv.value (codes "1")).0 same, (rw same at none_other))
  | inr other ↦ absurd (ground (arith, (rw other at none_other)))
]

span_key-ones :
    (key : List ℕ) (kvs : List KeyValue)
    → count is_other kvs ≡ 0
    → ((span_key key kvs).0 ≡ one_values (length (span_key key kvs).0))
      × (count is_other (span_key key kvs).1 ≡ 0)
      × (length (span_key key kvs).0 + length (span_key key kvs).1 ≡ length kvs)
unfolding span_key count one_values
span_key-ones key [] none_other = (refl, refl, refl)
span_key-ones key (kv ∷ kvs) none_other =
    let (value, others) = first_is_one kv kvs none_other in
    let (ones, none_later, counted) = span_key-ones key kvs others in
    elim (Bool-cases (kv.key == key)) [
      | inl same ↦ rw same (ap2 (◌∷◌) value ones, none_later, omega (arith, counted))
      | inr other ↦ rw other (refl, none_other, omega arith)
    ]

reduce-one_values : (key : List ℕ) (n : ℕ) → n < 2 ^ 63 → Sum.reduce key (one_values n) ≡ decimal n
unfolding Sum.reduce int_text
reduce-one_values key n small =
    let sum : Sum.sum_loop (one_values n) 0 ≡ n =
      sum_loop-one_values n 0 (omega arith) ∙ omega arith in
    let positive : ltb n (2 ^ 63) ≡ true = ground arith in rw (sum, positive)

reduce_loop-sum :
    (fuel : ℕ) (kvs : List KeyValue)
    → count is_other kvs ≡ 0
    → length kvs < 2 ^ 63
    → reduce_loop Sum.reduce fuel kvs ≡ reduce_loop default_reduce fuel kvs
unfolding reduce_loop default_reduce one_values
reduce_loop-sum zero kvs none_other small = refl
reduce_loop-sum (suc fuel) [] none_other small = refl
reduce_loop-sum (suc fuel) (kv ∷ kvs) none_other small =
    let (value, others) = first_is_one kv kvs none_other in
    let (ones, none_later, counted) = span_key-ones kv.key kvs others in
    let n = length (span_key kv.key kvs).0 in
    let reduced : Sum.reduce kv.key (kv.value ∷ (span_key kv.key kvs).0) ≡ decimal (suc n) =
      ap (Sum.reduce kv.key) (ap2 (◌∷◌) value ones)
      ∙ reduce-one_values kv.key (suc n) (omega arith) in
    ap2 (λ (v : List ℕ) (rest : List ℕ). output_line kv.key v ++ rest) reduced
      (reduce_loop-sum fuel (span_key kv.key kvs).1 none_later (omega arith))

length-count : (kvs : List KeyValue) → length kvs ≡ count (λ kv. true) kvs
unfolding count
length-count [] = refl
length-count (kv ∷ kvs) = ap suc (length-count kvs)

-- On pairs with the value "1", fewer than 2 ^ 63, the `Reduce` that sums up numbers gives what
-- counting them gives.
pub reduce_all-sum :
    (slice : SortSlice) (kvs : List KeyValue)
    → count is_other kvs ≡ 0
    → length kvs < 2 ^ 63
    → reduce_all slice Sum.reduce kvs ≡ reduce_all slice default_reduce kvs
unfolding reduce_all
reduce_all-sum slice kvs none_other small =
    reduce_loop-sum (length kvs) (slice.sort kvs) (slice.permutes is_other kvs ∙ none_other) (
      omega
        (arith, length-count kvs, length-count (slice.sort kvs), slice.permutes (λ kv. true) kvs))

-- The pairs of plugins/topwords: each word as often as it occurs, unless it is skipped.
map_loop-count :
    (w : List ℕ) (words : List (List ℕ))
    → (count (λ kv. kv.key == w) (TopWords.map_loop words)
        ≡ (if TopWords.is_skipped w then 0 else occurrences w words))
      × (count is_other (TopWords.map_loop words) ≡ 0)
      × (length (TopWords.map_loop words) ≤ length words)
unfolding count TopWords.map_loop occurrences
map_loop-count w [] = (ground arith, refl, omega arith)
map_loop-count w (v ∷ words) =
    let (counted, none_other, short) = map_loop-count w words in
    elim (Bool-cases (TopWords.is_skipped v)) [
      | inl skipped ↦
          rw skipped (ground (arith, counted, skipped, ==_iff v w), none_other, omega arith)
      | inr taken ↦ rw taken (ground (arith, counted, taken, ==_iff v w), none_other, omega arith)
    ]

length-tokenize : (text : List ℕ) → length (tokenize text) ≤ length text
unfolding tokenize
length-tokenize text = omega (arith, length-letter_fields (to_lower text), length-to_lower text)

-- What plugins/topwords makes of a text of fewer than 2 ^ 63 bytes, after the sort and the reduce loop
-- of the worker: a line `word number` for each word that has three letters or more and is no stop word,
-- once, with the number of times it occurs among the lower-case words of the text.
pub top_words_lem :
    (slice : SortSlice) (filename contents w : List ℕ)
    → length contents < 2 ^ 63
    → (reduce_all slice Sum.reduce (TopWords.map filename contents)
        ≡ report (
            tally_loop
              (length (TopWords.map filename contents))
              (keys_of (slice.sort (TopWords.map filename contents)))))
      × (lookup w (
            tally_loop
              (length (TopWords.map filename contents))
              (keys_of (slice.sort (TopWords.map filename contents))))
          ≡ times (if TopWords.is_skipped w then 0 else occurrences w (tokenize contents)))
unfolding TopWords.map
top_words_lem slice filename contents w short =
    let kvs = TopWords.map_loop (tokenize contents) in
    let (counted, none_other, small) = map_loop-count w (tokenize contents) in
    let (lines, table) = word_count_lem slice kvs w in
    (
      reduce_all-sum slice kvs none_other (omega (arith, length-tokenize contents)) ∙ lines,
      table ∙ ap times counted,
    )
