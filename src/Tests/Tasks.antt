-- ===== src/Tests/Tasks.antt =====
-- The tasks of a worker, and its start.
use map_reduce_rpc.Prelude.{
  ℕ, ◌^◌, ◌<◌, ◌≡◌, ◌≢◌, refl, arith, Bool, true, false, ◌&&◌, eqb, Option, none, some, List, [],
  ◌∷◌, if◌then◌else◌, list_eq, nat_eq,
}
use map_reduce_rpc.Prelude.Text.{codes}
use map_reduce_rpc.Prelude.Assoc.{lookup}
use map_reduce_rpc.Prelude.Env.{Env}
use map_reduce_rpc.Rpc.{MapReduceRequest}
use map_reduce_rpc.Listener.{new_rpc_listener}
use map_reduce_rpc.Worker.Chunk.{DfsRead, chunk_bytes, read_chunk_data}
use map_reduce_rpc.Worker.Reduce.{default_map, default_reduce, reduce_all}
use map_reduce_rpc.Worker.Pipeline.{partition_file_name, run_map_reduce_pipeline}
use map_reduce_rpc.Worker.Life.{Worker, Plugin, found, start}
use map_reduce_rpc.Worker.Life.Loads.{Begun, start_lem}
use map_reduce_rpc.Worker.Task.{
  Intermediate, TaskIo, is_intermediate, cleanup_intermediate_files, result_request, submitted,
  reduced, run_task,
}
use map_reduce_rpc.Worker.Task.Cleanup.{cleanup_exact}
use map_reduce_rpc.Worker.Task.Attempt.{IsSoundTask, run_task_counts, run_task_sends}
use map_reduce_rpc.Tests.Work.{insertion, words, sound_io, sound_io-IsSound, word_request, arrives}

abbrev request : MapReduceRequest
request = record word_request { chunk_info = record word_request.chunk_info { path = codes "/f" } }

abbrev worker : Worker
worker = record {
  server_address = codes "w:1";
  master_address = codes "m:1";
  fs_server_addr = codes "f:1";
  plugin_name = [];
  plugin_path = [];
  n_reduce = 2;
  intermediate = codes "i";
  output_dir = codes "o";
  mapf = default_map;
  reducef = default_reduce;
  started = false;
  stopped = false;
  start_err = none;
  waiting = 0;
  listener = new_rpc_listener (codes "w:1") true;
}

abbrev task_io : TaskIo
task_io = record {
  globs = true;
  removes = λ name. true;
  leaves = λ i. none;
  pipeline = sound_io;
  order = 1 ∷ 0 ∷ [];
  is_done = false;
  client_read = λ path offset size. DfsRead.dfs_bytes words;
  now = codes "now";
  dials = true;
  call_master = λ r. some (codes "accepted");
}

reads_words :
    read_chunk_data worker.fs_server_addr false task_io.client_read request ≡ chunk_bytes words
unfolding read_chunk_data map_reduce_rpc.Worker.Chunk.chunk_path
    map_reduce_rpc.Prelude.Trim.trim_space map_reduce_rpc.Prelude.Trim.trim_left
    map_reduce_rpc.Prelude.Trim.trim_right
reads_words = refl

has_master :
    eqb
      (map_reduce_rpc.Prelude.length (map_reduce_rpc.Prelude.Trim.trim_space worker.master_address))
      0
    ≡ false
unfolding map_reduce_rpc.Prelude.Trim.trim_space map_reduce_rpc.Prelude.Trim.trim_left
    map_reduce_rpc.Prelude.Trim.trim_right
has_master = refl

task_io-IsSoundTask : IsSoundTask task_io worker request words
unfolding default_map
task_io-IsSoundTask = record {
  pipeline = sound_io-IsSound;
  globs = refl;
  removes = λ name. refl;
  map_default = refl;
  reduce_default = refl;
  positive = omega arith;
  arrives = arrives;
  reads = reads_words;
  has_master = has_master;
  dials = refl;
  takes = λ r. (codes "accepted", refl, refl);
}

-- A file of an earlier attempt, and one of another chunk.
abbrev dir : Intermediate
dir = (codes "mr-1-0-7.json", []) ∷ (codes "mr-1-10-0.json", []) ∷ []

run_task_counts_example :
    ((run_task task_io insertion worker request dir).sent
      ≡ some (
          result_request task_io worker request
            (reduce_all insertion default_reduce (default_map request.chunk_info.path words))))
    × ((run_task task_io insertion worker request dir).committed
        ≡ some (reduce_all insertion default_reduce (default_map request.chunk_info.path words)))
    × ((run_task task_io insertion worker request dir).ended ≡ reduced submitted)
    × (lookup (codes "mr-1-10-0.json") (run_task task_io insertion worker request dir).dir ≡ (
        if is_intermediate request.handle.id request.chunk_index (codes "mr-1-10-0.json")
        then none
        else lookup (codes "mr-1-10-0.json") dir))
run_task_counts_example =
    run_task_counts task_io insertion insertion worker request dir words (codes "mr-1-10-0.json")
      task_io-IsSoundTask

abbrev output : List ℕ
output = reduce_all insertion default_reduce (default_map request.chunk_info.path words)

sends_output :
    (run_task task_io insertion worker request dir).sent
    ≡ some (result_request task_io worker request output)
sends_output =
    (run_task_counts task_io insertion insertion worker request dir words (codes "mr-1-10-0.json")
      task_io-IsSoundTask).0

run_task_sends_example :
    (bytes : List ℕ) × (out : List ℕ) × (read_chunk_data worker.fs_server_addr task_io.is_done
        task_io.client_read request
      ≡ chunk_bytes bytes)
    × ((run_map_reduce_pipeline sound_io insertion worker.mapf worker.reducef worker.n_reduce
          task_io.order request bytes).answer
        ≡ some out)
    × (result_request task_io worker request output ≡ result_request task_io worker request out)
run_task_sends_example =
    run_task_sends task_io insertion worker request dir
      (result_request task_io worker request output) sends_output

cleanup_exact_example :
    lookup (partition_file_name request 7) (cleanup_intermediate_files true task_io.removes 1 0 dir)
    ≡ (if eqb 1 request.handle.id && eqb 0 request.chunk_index
        then none
        else lookup (partition_file_name request 7) dir)
cleanup_exact_example =
    cleanup_exact task_io.removes 1 0 dir request 7 (λ name. refl) (omega arith) (omega arith)
      (omega arith) (omega arith)

abbrev plugin : Plugin
plugin = record { map_symbol = found default_map; reduce_symbol = found default_reduce }

abbrev env : Env
env key = []

abbrev configured : Worker
configured = record worker { plugin_path = codes "plugins/wc/wc.so" }

start_example :
    Begun env
      (λ path. some plugin)
      (record configured { started = true })
      (start env (λ path. some plugin) (λ address. true) configured).0
    × ((start env (λ path. some plugin) (λ address. true) configured).1
        ≡ (start env (λ path. some plugin) (λ address. true) configured).0.start_err)
    × (start env
          (λ path. none)
          (λ address. false)
          (start env (λ path. some plugin) (λ address. true) configured).0
        ≡ start env (λ path. some plugin) (λ address. true) configured)
start_example =
    start_lem env env (λ path. some plugin) (λ path. none) (λ address. true) (λ address. false)
      configured refl refl
