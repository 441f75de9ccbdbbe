-- ===== src/Worker/Pipeline/Counting.antt =====
-- The word count of a chunk does not depend on the partitions or on the order in which they arrive.
use map_reduce_rpc.Prelude.{
  ℕ, suc, ◌+◌, ◌<◌, ◌≡◌, refl, ap, ◌∙◌, sym, arith, Bool, true, ◌&&◌, some, List, [], ◌∷◌, ◌++◌,
  length, length-append, append_assoc, if-true,
}
use map_reduce_rpc.Rpc.{KeyValue, MapReduceRequest}
use map_reduce_rpc.Worker.Reduce.{
  arrange_immediate, SortSlice, reduce_all, count, default_map, default_reduce,
}
use map_reduce_rpc.Worker.Partition.{count_all, count-append, arrange_immediate_lem}
use map_reduce_rpc.Worker.Counts.{word_count_order}
use map_reduce_rpc.Worker.Pipeline.{
  WorkerIo, partition_at, indices, Arrives, collect, run_reduce_from_channel,
  run_map_reduce_pipeline, reduce_collected, all_written, unless_failed,
}

-- Every call succeeds, and JSON gives back the pairs that it was given.
pub record IsSound (io : WorkerIo) : Type 0 where
  pub mkdir : (io.mkdir_intermediate && io.mkdir_output) ≡ true
  pub writes : (i : ℕ) → io.writes i ≡ true
  pub opens : (i : ℕ) → io.opens i ≡ true
  pub decodes : (kvs : List KeyValue) → io.decode kvs ≡ some kvs
  pub commits : (io.write_tmp && io.rename) ≡ true

total : (ℕ → ℕ) → List ℕ → ℕ
total f [] = 0
total f (i ∷ is) = f i + total f is

total-append : (f : ℕ → ℕ) (is js : List ℕ) → total f (is ++ js) ≡ total f is + total f js
unfolding total
total-append f [] js = omega arith
total-append f (i ∷ is) js = omega (arith, total-append f is js)

-- An order of arrival visits every waiting partition once.
total-Arrives :
    (f : ℕ → ℕ) (order waiting : List ℕ) → Arrives waiting order → total f order ≡ total f waiting
unfolding total
total-Arrives f [] waiting e = ap (total f) (sym e)
total-Arrives f (i ∷ order) waiting (before, after, e, rest) =
    ap (◌+◌ (f i)) (total-Arrives f order (before ++ after) rest ∙ total-append f before after)
    ∙ omega (arith, total-append f before (i ∷ after))
    ∙ ap (total f) (sym e)

gather : List (List KeyValue) → List ℕ → List KeyValue
gather partitions [] = []
gather partitions (i ∷ order) = partition_at partitions i ++ gather partitions order

count-gather :
    (p : KeyValue → Bool) (partitions : List (List KeyValue)) (order : List ℕ)
    → count p (gather partitions order) ≡ total (λ i. count p (partition_at partitions i)) order
unfolding gather total count
count-gather p partitions [] = refl
count-gather p partitions (i ∷ order) =
    count-append p (partition_at partitions i) (gather partitions order)
    ∙ ap (◌+◌ (count p (partition_at partitions i))) (count-gather p partitions order)

partition_at-append :
    (front : List (List KeyValue)) (kvs : List KeyValue) (back : List (List KeyValue))
    → partition_at (front ++ kvs ∷ back) (length front) ≡ kvs
partition_at-append [] kvs back = refl
partition_at-append (x ∷ front) kvs back = partition_at-append front kvs back

total-indices :
    (p : KeyValue → Bool) (back front whole : List (List KeyValue)) (i : ℕ)
    → whole ≡ front ++ back
    → i ≡ length front
    → total (λ j. count p (partition_at whole j)) (indices i back) ≡ count_all p back
unfolding total count_all
total-indices p [] front whole i e at_front = refl
total-indices p (kvs ∷ back) front whole i e at_front =
    let here : partition_at whole i ≡ kvs =
      ap (partition_at whole) at_front
      ∙ ap (λ (w : List (List KeyValue)). partition_at w (length front)) e
      ∙ partition_at-append front kvs back in
    let rest =
      total-indices p back (front ++ kvs ∷ []) whole (suc i)
        (e ∙ sym (append_assoc front (kvs ∷ []) back))
        (omega (arith, length-append front (kvs ∷ []))) in
    omega (arith, ap (count p) here, rest)

collect-gather :
    (io : WorkerIo) (partitions : List (List KeyValue)) (order : List ℕ)
    → IsSound io
    → collect io partitions order ≡ some (gather partitions order)
unfolding collect gather
collect-gather io partitions [] sound = refl
collect-gather io partitions (i ∷ order) sound =
    rw
      (
        sound.opens i,
        sound.decodes (partition_at partitions i),
        collect-gather io partitions order sound,
      )
      refl

written-all : (io : WorkerIo) (is : List ℕ) → IsSound io → all_written io.writes is ≡ true
written-all io [] sound = refl
written-all io (i ∷ is) sound = rw (sound.writes i, written-all io is sound) refl

run_reduce-commits :
    (io : WorkerIo) (slice : SortSlice) (partitions : List (List KeyValue)) (order : List ℕ)
    → IsSound io
    → run_reduce_from_channel io slice default_reduce partitions order ≡ record {
      committed = some (reduce_all slice default_reduce (gather partitions order));
      answer = some (reduce_all slice default_reduce (gather partitions order));
    }
unfolding run_reduce_from_channel
run_reduce-commits io slice partitions order sound =
    ap (reduce_collected io slice default_reduce) (collect-gather io partitions order sound)
    ∙ if-true sound.commits _

pipeline-reduces :
    (io : WorkerIo) (slice : SortSlice) (n_reduce : ℕ) (order : List ℕ) (request : MapReduceRequest)
    (chunk_data : List ℕ)
    → IsSound io
    → run_map_reduce_pipeline io slice default_map default_reduce n_reduce order request chunk_data
      ≡ run_reduce_from_channel io slice default_reduce
          (arrange_immediate (default_map request.chunk_info.path chunk_data) n_reduce)
          order
unfolding run_map_reduce_pipeline
pipeline-reduces io slice n_reduce order request chunk_data sound =
    let partitions = arrange_immediate (default_map request.chunk_info.path chunk_data) n_reduce in
    if-true sound.mkdir _
    ∙ ap
        (λ (b : Bool).
          unless_failed b (run_reduce_from_channel io slice default_reduce partitions order))
        (written-all io (indices 0 partitions) sound)

-- A pipeline whose calls all succeed answers, for every positive number of partitions, every order in
-- which they arrive and every order that sorting gives to equal keys, with the word count of the chunk
-- that one reduce of all its words gives; the output file has the same text.
pub run_map_reduce_pipeline_counts :
    (io : WorkerIo) (slice slice' : SortSlice) (n_reduce : ℕ) (order : List ℕ)
    (request : MapReduceRequest) (chunk_data : List ℕ)
    → IsSound io
    → 0 < n_reduce
    → Arrives
        (indices 0 (arrange_immediate (default_map request.chunk_info.path chunk_data) n_reduce))
        order
    → run_map_reduce_pipeline io slice default_map default_reduce n_reduce order request chunk_data
      ≡ record {
        committed =
            some
              (reduce_all slice' default_reduce (default_map request.chunk_info.path chunk_data));
        answer =
            some
              (reduce_all slice' default_reduce (default_map request.chunk_info.path chunk_data));
      }
run_map_reduce_pipeline_counts io slice slice' n_reduce order request chunk_data sound positive
      arrives =
    let partitions = arrange_immediate (default_map request.chunk_info.path chunk_data) n_reduce in
    let (long, buckets, counts) =
      arrange_immediate_lem n_reduce (default_map request.chunk_info.path chunk_data) positive in
    pipeline-reduces io slice n_reduce order request chunk_data sound
    ∙ run_reduce-commits io slice partitions order sound
    ∙ ap (λ (output : List ℕ). record { committed = some output; answer = some output })
        (word_count_order slice slice' (gather partitions order) _ λ p.
          count-gather p partitions order
          ∙ total-Arrives (λ i. count p (partition_at partitions i)) order (indices 0 partitions)
              arrives
          ∙ total-indices p partitions [] partitions 0 refl refl
          ∙ counts p)
