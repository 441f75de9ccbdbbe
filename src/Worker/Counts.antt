-- ===== src/Worker/Counts.antt =====
-- The word count that `defaultMap` and `defaultReduce` give: every word once, with its number.
use map_reduce_rpc.Prelude.{
  ℕ, zero, suc, ◌+◌, ◌≤◌, ◌≡◌, refl, ap, ◌∙◌, sym, arith, Bool, true, false, Option, none, some,
  List, [], ◌∷◌, ◌++◌, eqb, length, if◌then◌else◌, ◌==◌, ==_iff, list_eq, nat_eq, Bool-cases, inl,
  inr,
}
use map_reduce_rpc.Prelude.Text.{decimal}
use map_reduce_rpc.Prelude.Assoc.{Assoc, lookup}
use map_reduce_rpc.Prelude.TextOrder.{
  text_less, text_less_antisym, NoneLess, IsTextSorted, occurrences, occurs-NoneLess, sorted_unique,
}
use map_reduce_rpc.Rpc.{KeyValue}
use map_reduce_rpc.Worker.Reduce.{
  default_reduce, keys_of, count, SortSlice, span_key, output_line, reduce_loop, reduce_all,
}

-- How often the first keys are this one, and the keys that follow.
unfoldable pub span_same : List ℕ → List (List ℕ) → ℕ × List (List ℕ)
span_same key [] = (0, [])
span_same key (k ∷ ks) =
    let (n, later) = span_same key ks in if k == key then (suc n, later) else (0, k ∷ ks)

-- The runs of a list of keys with their lengths.
unfoldable pub tally_loop : ℕ → List (List ℕ) → Assoc (List ℕ) ℕ
tally_loop zero ks = []
tally_loop (suc fuel) [] = []
tally_loop (suc fuel) (k ∷ ks) =
    let (n, later) = span_same k ks in (k, suc n) ∷ tally_loop fuel later

-- The report of a word count: a line for each key.
unfoldable pub report : Assoc (List ℕ) ℕ → List ℕ
report [] = []
report ((k, n) ∷ m) = output_line k (decimal n) ++ report m

span_key-span_same :
    (key : List ℕ) (kvs : List KeyValue)
    → (length (span_key key kvs).0 ≡ (span_same key (keys_of kvs)).0)
      × (keys_of (span_key key kvs).1 ≡ (span_same key (keys_of kvs)).1)
unfolding span_key span_same keys_of
span_key-span_same key [] = (refl, refl)
span_key-span_same key (kv ∷ kvs) =
    let (values, later) = span_key-span_same key kvs in
    elim (Bool-cases (kv.key == key)) [
      | inl same ↦ rw same (ap suc values, later)
      | inr other ↦ rw other (refl, refl)
    ]

reduce_loop-report :
    (fuel : ℕ) (kvs : List KeyValue)
    → reduce_loop default_reduce fuel kvs ≡ report (tally_loop fuel (keys_of kvs))
unfolding reduce_loop tally_loop report keys_of default_reduce
reduce_loop-report zero kvs = refl
reduce_loop-report (suc fuel) [] = refl
reduce_loop-report (suc fuel) (kv ∷ kvs) =
    let (values, later) = span_key-span_same kv.key kvs in
    ap
      (λ (n : ℕ).
        output_line kv.key (decimal (suc n))
        ++ reduce_loop default_reduce fuel (span_key kv.key kvs).1)
      values
    ∙ ap (◌++◌ (output_line kv.key (decimal (suc (span_same kv.key (keys_of kvs)).0)))) (
        reduce_loop-report fuel (span_key kv.key kvs).1
        ∙ ap (λ (ks : List (List ℕ)). report (tally_loop fuel ks)) later)

occurrences-span_same :
    (key j : List ℕ) (ks : List (List ℕ))
    → occurrences j ks
      ≡ (if key == j then (span_same key ks).0 else 0) + occurrences j (span_same key ks).1
unfolding span_same occurrences
occurrences-span_same key j [] = ground arith
occurrences-span_same key j (k ∷ ks) = ground (arith, occurrences-span_same key j ks, ==_iff k key)

length-span_same : (key : List ℕ) (ks : List (List ℕ)) → length (span_same key ks).1 ≤ length ks
unfolding span_same
length-span_same key [] = omega arith
length-span_same key (k ∷ ks) = ground (arith, length-span_same key ks)

absent :
    (k key : List ℕ) (ks : List (List ℕ))
    → NoneLess k ks
    → text_less k key ≡ false
    → (k == key) ≡ false
    → occurrences key ks ≡ 0
absent k key ks above not_less other = elim (Bool-cases (eqb (occurrences key ks) 0)) [
  | inl never ↦ ground (arith, never)
  | inr occurs ↦ absurd (
      ground (
        arith,
        other,
        ==_iff k key,
        text_less_antisym k key not_less (occurs-NoneLess k key ks above (ground (arith, occurs))),
      ))
]

span_same-IsTextSorted :
    (key : List ℕ) (ks : List (List ℕ))
    → IsTextSorted ks
    → NoneLess key ks
    → IsTextSorted (span_same key ks).1 × (occurrences key (span_same key ks).1 ≡ 0)
unfolding span_same occurrences
span_same-IsTextSorted key [] sorted least = (tt, refl)
span_same-IsTextSorted key (k ∷ ks) (above, sorted) (not_less, least) =
    elim (Bool-cases (k == key)) [
      | inl same ↦ rw same (span_same-IsTextSorted key ks sorted least)
      | inr other ↦
          rw other ((above, sorted), ground (arith, absent k key ks above not_less, other))
    ]

abbrev pub times : ℕ → Option ℕ
times zero = none
times (suc n) = some (suc n)

-- A sorted list of keys has one run for each key, with the number of its occurrences.
lookup-tally_loop :
    (fuel : ℕ) (ks : List (List ℕ)) (k : List ℕ)
    → IsTextSorted ks
    → length ks ≤ fuel
    → lookup k (tally_loop fuel ks) ≡ times (occurrences k ks)
unfolding tally_loop occurrences lookup
lookup-tally_loop zero [] k sorted enough = refl
lookup-tally_loop zero (j ∷ ks) k sorted enough = absurd (omega arith)
lookup-tally_loop (suc fuel) [] k sorted enough = refl
lookup-tally_loop (suc fuel) (j ∷ ks) k (least, sorted) enough =
    let (later_sorted, gone) = span_same-IsTextSorted j ks sorted least in
    let ih =
      lookup-tally_loop fuel (span_same j ks).1 k later_sorted
        (omega (arith, length-span_same j ks)) in
    elim (Bool-cases (j == k)) [
      | inl same ↦ rw same (
          ap (λ (n : ℕ). some (suc n))
            (ground (arith, occurrences-span_same j k ks, same, gone, ==_iff j k)))
      | inr other ↦ rw other (ih ∙ ap times (ground (arith, occurrences-span_same j k ks, other)))
    ]

count-keys_of :
    (k : List ℕ) (kvs : List KeyValue) → occurrences k (keys_of kvs) ≡ count (λ kv. kv.key == k) kvs
unfolding occurrences keys_of count
count-keys_of k [] = refl
count-keys_of k (kv ∷ kvs) = ground (arith, count-keys_of k kvs)

length-count : (kvs : List KeyValue) → length (keys_of kvs) ≡ count (λ kv. true) kvs
unfolding keys_of count
length-count [] = refl
length-count (kv ∷ kvs) = ap suc (length-count kvs)

length-keys_of : (kvs : List KeyValue) → length (keys_of kvs) ≡ length kvs
unfolding keys_of
length-keys_of [] = refl
length-keys_of (kv ∷ kvs) = ap suc (length-keys_of kvs)

-- The word count of some pairs: a line `word number` for each key, where the table has each key that
-- occurs, once, with the number of pairs that have it, in the order of the keys.
pub word_count_lem :
    (slice : SortSlice) (kvs : List KeyValue) (k : List ℕ)
    → (reduce_all slice default_reduce kvs
        ≡ report (tally_loop (length kvs) (keys_of (slice.sort kvs))))
      × (lookup k (tally_loop (length kvs) (keys_of (slice.sort kvs)))
          ≡ times (count (λ kv. kv.key == k) kvs))
unfolding reduce_all
word_count_lem slice kvs k = (
  reduce_loop-report (length kvs) (slice.sort kvs),
  lookup-tally_loop (length kvs) (keys_of (slice.sort kvs)) k (slice.sorts kvs) (
        omega (
          arith,
          length-count (slice.sort kvs),
          slice.permutes (λ kv. true) kvs,
          length-count kvs,
          length-keys_of kvs,
        ))
      ∙ ap times (count-keys_of k (slice.sort kvs) ∙ slice.permutes (λ kv. kv.key == k) kvs),
)

-- The word count does not depend on the order in which the pairs arrive, nor on how `sort.Slice` orders
-- equal keys.
pub word_count_order :
    (slice slice' : SortSlice) (kvs kvs' : List KeyValue)
    → ((p : KeyValue → Bool) → count p kvs ≡ count p kvs')
    → reduce_all slice default_reduce kvs ≡ reduce_all slice' default_reduce kvs'
unfolding reduce_all
word_count_order slice slice' kvs kvs' same =
    reduce_loop-report (length kvs) (slice.sort kvs)
    ∙ ap (λ (n : ℕ). report (tally_loop n (keys_of (slice.sort kvs)))) lengths
    ∙ ap (λ (ks : List (List ℕ)). report (tally_loop (length kvs') ks)) keys
    ∙ sym (reduce_loop-report (length kvs') (slice'.sort kvs'))
  where
    lengths : length kvs ≡ length kvs'
    lengths = omega (
      arith,
      length-count kvs,
      length-count kvs',
      length-keys_of kvs,
      length-keys_of kvs',
      same (λ kv. true),
    )

    keys : keys_of (slice.sort kvs) ≡ keys_of (slice'.sort kvs')
    keys =
        sorted_unique (keys_of (slice.sort kvs)) (keys_of (slice'.sort kvs')) (slice.sorts kvs)
          (slice'.sorts kvs')
          λ k.
            count-keys_of k (slice.sort kvs)
            ∙ slice.permutes (λ kv. kv.key == k) kvs
            ∙ same (λ kv. kv.key == k)
            ∙ sym (slice'.permutes (λ kv. kv.key == k) kvs')
            ∙ sym (count-keys_of k (slice'.sort kvs'))
