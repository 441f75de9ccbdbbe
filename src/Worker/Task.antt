-- ===== src/Worker/Task.antt =====
-- `RPCMapReduce` with its goroutine, `cleanupIntermediateFiles` and `submitResultToMaster` of
-- mrp/worker.go.
pub mod Cleanup
pub mod Attempt
use map_reduce_rpc.Prelude.{
  ℕ, zero, suc, ◌+◌, ◌-◌, Bool, true, false, ◌&&◌, not, Option, none, some, List, [], ◌∷◌, ◌++◌,
  length, drop, eqb, leb, if◌then◌else◌, list_beq, list_eq, nat_eq, get_elem?,
}
use map_reduce_rpc.Prelude.Assoc.{Assoc, store, delete}
use map_reduce_rpc.Prelude.Text.{codes, decimal, strip_prefix}
use map_reduce_rpc.Prelude.Trim.{trim_space}
use map_reduce_rpc.Durable.Names.{int_text}
use map_reduce_rpc.Rpc.{KeyValue, MapReduceRequest, MapReduceResultRequest, MapReduceReply}
use map_reduce_rpc.Worker.Chunk.{
  ChunkRead, chunk_bytes, no_dfs_address, path_is_empty, cancelled, dfs_failed, panics, DfsRead,
  read_chunk_data,
}
use map_reduce_rpc.Worker.Reduce.{SortSlice, arrange_immediate}
use map_reduce_rpc.Worker.Pipeline.{
  WorkerIo, Reduced, run_map_reduce_pipeline, partition_file_name, output_file_name,
}
use map_reduce_rpc.Worker.Life.{Worker}

-- The files of the directory of intermediate files, by name.
abbrev pub Intermediate : Type 0
Intermediate = Assoc (List ℕ) (List KeyValue)

-- "mr-<handle>-<chunk>-"
unfoldable pub chunk_prefix : ℕ → ℕ → List ℕ
chunk_prefix handle_id chunk_index =
    codes "mr-" ++ (decimal handle_id ++ (b'-' ∷ (int_text chunk_index ++ b'-' ∷ [])))

abbrev pub has_suffix : List ℕ → List ℕ → Bool
has_suffix s suffix =
    leb (length suffix) (length s) && list_beq (drop (length s - length suffix) s) suffix

abbrev pub rest_matches : Option (List ℕ) → Bool
rest_matches none = false
rest_matches (some rest) = has_suffix rest (codes ".json")

-- Whether a name matches "mr-<handle>-<chunk>-*.json". A name has no slash.
unfoldable pub is_intermediate : ℕ → ℕ → List ℕ → Bool
is_intermediate handle_id chunk_index name =
    rest_matches (strip_prefix (chunk_prefix handle_id chunk_index) name)

-- `cleanupIntermediateFiles`; `globs` and `removes` are the answers of `Glob` and `Remove`.
unfoldable pub remove_matches : (List ℕ → Bool) → ℕ → ℕ → Intermediate → Intermediate
remove_matches removes handle_id chunk_index [] = []
remove_matches removes handle_id chunk_index ((name, kvs) ∷ dir) =
    let rest = remove_matches removes handle_id chunk_index dir in
    if is_intermediate handle_id chunk_index name && removes name then rest else (name, kvs) ∷ rest

unfoldable pub cleanup_intermediate_files :
    Bool → (List ℕ → Bool) → ℕ → ℕ → Intermediate → Intermediate
cleanup_intermediate_files globs removes handle_id chunk_index dir =
    if globs then remove_matches removes handle_id chunk_index dir else dir

-- What the system and the master answer to a task.
pub record TaskIo : Type 0 where
  pub globs : Bool
  pub removes : List ℕ → Bool
  -- what a writer that fails leaves of its file
  pub leaves : ℕ → Option (List KeyValue)
  pub pipeline : WorkerIo
  pub order : List ℕ
  pub is_done : Bool
  pub client_read : List ℕ → ℕ → ℕ → DfsRead
  pub now : List ℕ
  pub dials : Bool
  -- the status of the reply of the master, none if the call fails
  pub call_master : MapReduceResultRequest → Option (List ℕ)

abbrev pub store_left : List ℕ → Option (List KeyValue) → Intermediate → Intermediate
store_left name none dir = dir
store_left name (some kvs) dir = store name kvs dir

-- The files that the writers of the partitions leave.
unfoldable pub write_partitions :
    TaskIo → MapReduceRequest → ℕ → List (List KeyValue) → Intermediate → Intermediate
write_partitions io request index [] dir = dir
write_partitions io request index (kvs ∷ partitions) dir =
    write_partitions io request (suc index) partitions (
      if io.pipeline.writes index
      then store (partition_file_name request index) kvs dir
      else store_left (partition_file_name request index) (io.leaves index) dir)

pub data SubmitAnswer : Type 0 where
  no_master_address dial_failed call_failed rejected submitted : SubmitAnswer

abbrev answered : Option (List ℕ) → SubmitAnswer
answered none = call_failed
answered (some status) = if list_beq status (codes "error") then rejected else submitted

abbrev pub result_request : TaskIo → Worker → MapReduceRequest → List ℕ → MapReduceResultRequest
result_request io w request output = record {
  handle = request.handle;
  chunk_index = request.chunk_index;
  worker_addr = w.server_address;
  output_file = output_file_name request;
  output_data = output;
  generated_at = io.now;
}

-- `submitResultToMaster`: what is sent, and how it ends.
unfoldable pub submit_result_to_master :
    TaskIo → Worker → MapReduceResultRequest → Option MapReduceResultRequest × SubmitAnswer
submit_result_to_master io w request =
    if eqb (length (trim_space w.master_address)) 0
    then (none, no_master_address)
    else if not io.dials
    then (none, dial_failed)
    else (some request, answered (io.call_master request))

-- How a task ends. `crashed`: a panic, which ends the process.
pub data TaskEnd : Type 0 where
  unread : ChunkRead → TaskEnd
  crashed not_reduced : TaskEnd
  reduced : SubmitAnswer → TaskEnd

pub record Task : Type 0 where
  pub dir : Intermediate
  pub committed : Option (List ℕ)
  pub sent : Option MapReduceResultRequest
  pub ended : TaskEnd

abbrev pub sent_off :
    Intermediate → Option (List ℕ) → Option MapReduceResultRequest × SubmitAnswer → Task
sent_off dir committed (sent, answer) = record {
  dir = dir;
  committed = committed;
  sent = sent;
  ended = reduced answer;
}

-- From the answer of the pipeline on: only a task that is reduced cleans up and submits.
abbrev pub after_pipeline :
    TaskIo → Worker → MapReduceRequest → Intermediate → Option (List ℕ) → Option (List ℕ) → Task
after_pipeline io w request dir committed none = record {
  dir = dir;
  committed = committed;
  sent = none;
  ended = not_reduced;
}
after_pipeline io w request dir committed (some output) =
    sent_off
      (cleanup_intermediate_files io.globs io.removes request.handle.id request.chunk_index dir)
      committed (submit_result_to_master io w (result_request io w request output))

abbrev pub made_dirs : WorkerIo → Bool
made_dirs io = io.mkdir_intermediate && io.mkdir_output

abbrev pub run_on : TaskIo → SortSlice → Worker → MapReduceRequest → Intermediate → List ℕ → Task
run_on io slice w request dir bytes =
    let answer =
      run_map_reduce_pipeline io.pipeline slice w.mapf w.reducef w.n_reduce io.order request
        bytes in
    let partitions = arrange_immediate (w.mapf request.chunk_info.path bytes) w.n_reduce in
    after_pipeline io w request
      (if made_dirs io.pipeline then write_partitions io request 0 partitions dir else dir)
      answer.committed answer.answer

abbrev pub after_read :
    TaskIo → SortSlice → Worker → MapReduceRequest → Intermediate → ChunkRead → Task
after_read io slice w request dir (chunk_bytes bytes) = run_on io slice w request dir bytes
after_read io slice w request dir panics = record {
  dir = dir;
  committed = none;
  sent = none;
  ended = crashed;
}
after_read io slice w request dir no_dfs_address = record {
  dir = dir;
  committed = none;
  sent = none;
  ended = unread no_dfs_address;
}
after_read io slice w request dir path_is_empty = record {
  dir = dir;
  committed = none;
  sent = none;
  ended = unread path_is_empty;
}
after_read io slice w request dir cancelled = record {
  dir = dir;
  committed = none;
  sent = none;
  ended = unread cancelled;
}
after_read io slice w request dir dfs_failed = record {
  dir = dir;
  committed = none;
  sent = none;
  ended = unread dfs_failed;
}

-- The goroutine of `RPCMapReduce`.
unfoldable pub run_task : TaskIo → SortSlice → Worker → MapReduceRequest → Intermediate → Task
run_task io slice w request dir =
    after_read io slice w request
      (cleanup_intermediate_files io.globs io.removes request.handle.id request.chunk_index dir)
      (read_chunk_data w.fs_server_addr io.is_done io.client_read request)

-- `RPCMapReduce`: the task is counted and runs on its own; the answer does not wait for it.
unfoldable pub rpc_map_reduce : Worker → Worker × MapReduceReply
rpc_map_reduce w =
    (record w { waiting = suc w.waiting }, record { status = codes "accepted"; error_code = 0 })
