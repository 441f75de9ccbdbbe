-- ===== src/Worker/Task/Attempt.antt =====
-- What a task sends, writes and leaves behind.
use map_reduce_rpc.Prelude.{
  ℕ, suc, ◌<◌, ◌≡◌, refl, sym, ap, ◌∙◌, arith, true, false, Option, none, some, List, [], ◌∷◌,
  length, eqb, Bool-cases, inl, inr, ap2, if◌then◌else◌, list_beq, list_eq, nat_eq, ◌==◌, ==_iff,
}
use map_reduce_rpc.Prelude.Assoc.{lookup, lookup-store}
use map_reduce_rpc.Prelude.Text.{codes}
use map_reduce_rpc.Prelude.Trim.{trim_space}
use map_reduce_rpc.Rpc.{KeyValue, MapReduceRequest, MapReduceResultRequest}
use map_reduce_rpc.Worker.Chunk.{
  ChunkRead, chunk_bytes, no_dfs_address, path_is_empty, cancelled, dfs_failed, panics,
  read_chunk_data,
}
use map_reduce_rpc.Worker.Reduce.{
  SortSlice, arrange_immediate, default_map, default_reduce, reduce_all,
}
use map_reduce_rpc.Worker.Pipeline.{
  Reduced, Arrives, indices, run_map_reduce_pipeline, partition_file_name,
}
use map_reduce_rpc.Worker.Pipeline.Counting.{IsSound, run_map_reduce_pipeline_counts}
use map_reduce_rpc.Worker.Life.{Worker}
use map_reduce_rpc.Worker.Task.{
  Intermediate, is_intermediate, cleanup_intermediate_files, TaskIo, write_partitions, submitted,
  submit_result_to_master, result_request, Task, reduced, run_task, after_pipeline, after_read,
  sent_off, made_dirs, store_left,
}
use map_reduce_rpc.Worker.Task.Cleanup.{cleanup_lem, partition_is_intermediate}

other_name :
    (request : MapReduceRequest) (index : ℕ) (name : List ℕ)
    → is_intermediate request.handle.id request.chunk_index name ≡ false
    → (partition_file_name request index == name) ≡ false
other_name request index name other =
    elim (Bool-cases (partition_file_name request index == name)) [
      | inl same ↦
          let e : partition_file_name request index ≡ name =
            (==_iff (partition_file_name request index) name).0 same in
          absurd (ground (arith, other, partition_is_intermediate request index, e))
      | inr different ↦ different
    ]

lookup-store_left :
    (name key : List ℕ) (left : Option (List KeyValue)) (dir : Intermediate)
    → (key == name) ≡ false
    → lookup name (store_left key left dir) ≡ lookup name dir
lookup-store_left name key none dir other = refl
lookup-store_left name key (some kvs) dir other = lookup-store key name kvs dir ∙ rw other

-- The writers touch no file of another chunk.
lookup-write_partitions :
    (io : TaskIo) (request : MapReduceRequest) (index : ℕ) (partitions : List (List KeyValue))
    (dir : Intermediate) (name : List ℕ)
    → is_intermediate request.handle.id request.chunk_index name ≡ false
    → lookup name (write_partitions io request index partitions dir) ≡ lookup name dir
unfolding write_partitions
lookup-write_partitions io request index [] dir name other = refl
lookup-write_partitions io request index (kvs ∷ partitions) dir name other =
    let different = other_name request index name other in
    lookup-write_partitions io request (suc index) partitions _ name other
    ∙ elim (Bool-cases (io.pipeline.writes index)) [
      | inl written ↦
          rw written (lookup-store (partition_file_name request index) name kvs dir ∙ rw different)
      | inr failed ↦ rw failed (
          lookup-store_left name (partition_file_name request index) (io.leaves index) dir
            different)
    ]

-- Every call of the operating system succeeds, and the master takes the result.
pub record IsSoundTask (io : TaskIo) (w : Worker) (request : MapReduceRequest) (bytes : List ℕ)
    : Type 0 where
  pub pipeline : IsSound io.pipeline
  pub globs : io.globs ≡ true
  pub removes : (name : List ℕ) → io.removes name ≡ true
  pub map_default : w.mapf ≡ default_map
  pub reduce_default : w.reducef ≡ default_reduce
  pub positive : 0 < w.n_reduce
  pub arrives :
      Arrives
        (indices 0 (arrange_immediate (default_map request.chunk_info.path bytes) w.n_reduce))
        io.order
  pub reads : read_chunk_data w.fs_server_addr io.is_done io.client_read request ≡ chunk_bytes bytes
  pub has_master : eqb (length (trim_space w.master_address)) 0 ≡ false
  pub dials : io.dials ≡ true
  pub takes :
      (r : MapReduceResultRequest)
      → (s : List ℕ) × (io.call_master r ≡ some s) × (list_beq s (codes "error") ≡ false)

submits :
    (io : TaskIo) (w : Worker) (request : MapReduceRequest) (bytes : List ℕ)
    (r : MapReduceResultRequest)
    → IsSoundTask io w request bytes
    → submit_result_to_master io w r ≡ (some r, submitted)
unfolding submit_result_to_master
submits io w request bytes r sound =
    let (s, called, taken) = sound.takes r in rw (sound.has_master, sound.dials, called, taken) refl

-- The files after the writers of a sound task.
abbrev files_after : TaskIo → Worker → MapReduceRequest → Intermediate → List ℕ → Intermediate
files_after io w request dir bytes =
    let cleaned =
      cleanup_intermediate_files io.globs io.removes request.handle.id request.chunk_index dir in
    if made_dirs io.pipeline
    then write_partitions io request 0
        (arrange_immediate (w.mapf request.chunk_info.path bytes) w.n_reduce) cleaned
    else cleaned

run_task_sound :
    (io : TaskIo) (slice slice' : SortSlice) (w : Worker) (request : MapReduceRequest)
    (dir : Intermediate) (bytes : List ℕ)
    → IsSoundTask io w request bytes
    → run_task io slice w request dir ≡ record {
      dir =
          cleanup_intermediate_files io.globs io.removes request.handle.id request.chunk_index
            (files_after io w request dir bytes);
      committed =
          some (reduce_all slice' default_reduce (default_map request.chunk_info.path bytes));
      sent = some (
          result_request io w request
            (reduce_all slice' default_reduce (default_map request.chunk_info.path bytes)));
      ended = reduced submitted;
    }
unfolding run_task
run_task_sound io slice slice' w request dir bytes sound =
    let out = reduce_all slice' default_reduce (default_map request.chunk_info.path bytes) in
    let cleaned =
      cleanup_intermediate_files io.globs io.removes request.handle.id request.chunk_index dir in
    let pipeline =
      ap2 (λ m r. run_map_reduce_pipeline io.pipeline slice m r w.n_reduce io.order request bytes)
        sound.map_default sound.reduce_default
      ∙ run_map_reduce_pipeline_counts io.pipeline slice slice' w.n_reduce io.order request bytes
          sound.pipeline sound.positive sound.arrives in
    ap (after_read io slice w request cleaned) sound.reads
    ∙ ap
        (λ (a : Reduced).
          after_pipeline io w request (files_after io w request dir bytes) a.committed a.answer)
        pipeline
    ∙ ap
        (sent_off
          (cleanup_intermediate_files io.globs io.removes request.handle.id request.chunk_index
            (files_after io w request dir bytes))
          (some out))
        (submits io w request bytes (result_request io w request out) sound)

lookup-cleanup :
    (io : TaskIo) (w : Worker) (request : MapReduceRequest) (dir : Intermediate)
    (bytes name : List ℕ)
    → IsSoundTask io w request bytes
    → lookup name
        (cleanup_intermediate_files io.globs io.removes request.handle.id request.chunk_index dir)
      ≡ (if is_intermediate request.handle.id request.chunk_index name
          then none
          else lookup name dir)
lookup-cleanup io w request dir bytes name sound =
    rw sound.globs
      (cleanup_lem io.removes request.handle.id request.chunk_index dir name sound.removes)

files_after_other :
    (io : TaskIo) (w : Worker) (request : MapReduceRequest) (dir : Intermediate)
    (bytes name : List ℕ)
    → IsSoundTask io w request bytes
    → is_intermediate request.handle.id request.chunk_index name ≡ false
    → lookup name (files_after io w request dir bytes) ≡ lookup name dir
files_after_other io w request dir bytes name sound other =
    let cleaned =
      cleanup_intermediate_files io.globs io.removes request.handle.id request.chunk_index dir in
    rw sound.pipeline.mkdir (
      lookup-write_partitions io request 0
        (arrange_immediate (w.mapf request.chunk_info.path bytes) w.n_reduce) cleaned name other
      ∙ lookup-cleanup io w request dir bytes name sound
      ∙ rw other)

files_left :
    (io : TaskIo) (w : Worker) (request : MapReduceRequest) (dir : Intermediate)
    (bytes name : List ℕ)
    → IsSoundTask io w request bytes
    → lookup name (
        cleanup_intermediate_files io.globs io.removes request.handle.id request.chunk_index
          (files_after io w request dir bytes))
      ≡ (if is_intermediate request.handle.id request.chunk_index name
          then none
          else lookup name dir)
files_left io w request dir bytes name sound =
    lookup-cleanup io w request (files_after io w request dir bytes) bytes name sound
    ∙ elim (Bool-cases (is_intermediate request.handle.id request.chunk_index name)) [
      | inl own ↦ rw own
      | inr other ↦ rw other (files_after_other io w request dir bytes name sound other)
    ]

-- A task of a worker with the default functions whose calls all succeed sends the word count of its
-- chunk to the master and commits it to its output file, for every order in which the partitions
-- arrive; it leaves no intermediate file of the chunk and keeps all other files.
pub run_task_counts :
    (io : TaskIo) (slice slice' : SortSlice) (w : Worker) (request : MapReduceRequest)
    (dir : Intermediate) (bytes name : List ℕ)
    → IsSoundTask io w request bytes
    → ((run_task io slice w request dir).sent
        ≡ some (
            result_request io w request
              (reduce_all slice' default_reduce (default_map request.chunk_info.path bytes))))
      × ((run_task io slice w request dir).committed
          ≡ some (reduce_all slice' default_reduce (default_map request.chunk_info.path bytes)))
      × ((run_task io slice w request dir).ended ≡ reduced submitted)
      × (lookup name (run_task io slice w request dir).dir ≡ (
          if is_intermediate request.handle.id request.chunk_index name
          then none
          else lookup name dir))
unfolding run_task
run_task_counts io slice slice' w request dir bytes name sound =
    let ran = run_task_sound io slice slice' w request dir bytes sound in
    (
      ap (λ (t : Task). t.sent) ran,
      ap (λ (t : Task). t.committed) ran,
      ap (λ (t : Task). t.ended) ran,
      ap (λ (t : Task). lookup name t.dir) ran ∙ files_left io w request dir bytes name sound,
    )

submitted_request :
    (io : TaskIo) (w : Worker) (request sent : MapReduceResultRequest)
    → (submit_result_to_master io w request).0 ≡ some sent
    → request ≡ sent
unfolding submit_result_to_master
submitted_request io w request sent same =
    elim (Bool-cases (eqb (length (trim_space w.master_address)) 0)) [
      | inl blank ↦ absurd (ground (arith, (rw blank at same)))
      | inr address ↦ elim (Bool-cases io.dials) [
        | inl dialled ↦ ground (arith, (rw (address, dialled) at same))
        | inr not_dialled ↦ absurd (ground (arith, (rw (address, not_dialled) at same)))
      ]
    ]

sent_after_pipeline :
    (io : TaskIo) (w : Worker) (request : MapReduceRequest) (dir : Intermediate)
    (committed answer : Option (List ℕ)) (sent : MapReduceResultRequest)
    → (after_pipeline io w request dir committed answer).sent ≡ some sent
    → (output : List ℕ) × (answer ≡ some output) × (sent ≡ result_request io w request output)
sent_after_pipeline io w request dir committed none sent same = absurd (ground (arith, same))
sent_after_pipeline io w request dir committed (some output) sent same =
    (output, refl, sym (submitted_request io w (result_request io w request output) sent same))

sent_after_read :
    (io : TaskIo) (slice : SortSlice) (w : Worker) (request : MapReduceRequest) (dir : Intermediate)
    (read : ChunkRead) (sent : MapReduceResultRequest)
    → (after_read io slice w request dir read).sent ≡ some sent
    → (bytes : List ℕ) × (output : List ℕ) × (read ≡ chunk_bytes bytes)
      × ((run_map_reduce_pipeline io.pipeline slice w.mapf w.reducef w.n_reduce io.order request
            bytes).answer
          ≡ some output)
      × (sent ≡ result_request io w request output)
sent_after_read io slice w request dir (chunk_bytes bytes) sent same =
    let (output, answered, sends) = sent_after_pipeline io w request _ _ _ sent same in
    (bytes, output, refl, answered, sends)
sent_after_read io slice w request dir no_dfs_address sent same = absurd (ground (arith, same))
sent_after_read io slice w request dir path_is_empty sent same = absurd (ground (arith, same))
sent_after_read io slice w request dir cancelled sent same = absurd (ground (arith, same))
sent_after_read io slice w request dir dfs_failed sent same = absurd (ground (arith, same))
sent_after_read io slice w request dir panics sent same = absurd (ground (arith, same))

-- Whatever fails: what a task sends to the master is the answer of the pipeline on the whole chunk that
-- it has read, under the handle and the index of the request; so a chunk that cannot be read, or whose
-- pipeline has an error, sends nothing.
pub run_task_sends :
    (io : TaskIo) (slice : SortSlice) (w : Worker) (request : MapReduceRequest) (dir : Intermediate)
    (sent : MapReduceResultRequest)
    → (run_task io slice w request dir).sent ≡ some sent
    → (bytes : List ℕ) × (output : List ℕ) × (read_chunk_data w.fs_server_addr io.is_done
          io.client_read request
        ≡ chunk_bytes bytes)
      × ((run_map_reduce_pipeline io.pipeline slice w.mapf w.reducef w.n_reduce io.order request
            bytes).answer
          ≡ some output)
      × (sent ≡ result_request io w request output)
unfolding run_task
run_task_sends io slice w request dir sent same =
    sent_after_read io slice w request _
      (read_chunk_data w.fs_server_addr io.is_done io.client_read request) sent same
