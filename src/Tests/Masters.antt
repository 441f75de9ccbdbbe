-- ===== src/Tests/Masters.antt =====
-- The master at work.
use map_reduce_rpc.Prelude.{
  ℕ, ◌+◌, ◌*◌, ◌^◌, ◌%◌, ◌<◌, ◌≤◌, ◌≡◌, refl, arith, Bool, true, false, ◌&&◌, eqb, leb, take, drop,
  inl, inr, Bool-cases, if-true, if-false, ==_refl, Option, none, some, List, [], ◌∷◌, ◌++◌, length,
  get_elem?, if◌then◌else◌, ◌==◌, list_eq, nat_eq,
}
use map_reduce_rpc.Prelude.Text.{codes}
use map_reduce_rpc.Prelude.Trim.{trim_space, has_prefix}
use map_reduce_rpc.Prelude.Assoc.{lookup, store, delete}
use map_reduce_rpc.Rpc.{ChunkInfo, FileMetadata, MapReduceResultRequest}
use map_reduce_rpc.Master.State.{Master}
use map_reduce_rpc.Master.Plan.{DfsFiles, FileInfo, Found, find_under}
use map_reduce_rpc.Master.Plan.Covers.{Reads, read_all, content_path, plan_chunks_covers}
use map_reduce_rpc.Worker.Chunk.{DfsRead, read_chunk_data}
use map_reduce_rpc.Master.Dispatch.{chunk_request, MasterEnv, WorkerAnswer, dispatch_job}
use map_reduce_rpc.Master.Dispatch.Counts.{no_chunk, every_chunk, deserved, dispatch_job_lem}
use map_reduce_rpc.Master.Submit.{
  SubmitIo, submit_result, result_key, key_prefix, results_of, collate, result_file_name,
  notify_coordinator,
}
use map_reduce_rpc.Master.Submit.Job.{add_notified, submit_all}
use map_reduce_rpc.Master.Submit.Job.Last.{job_completes}
use map_reduce_rpc.Master.Submit.Completes.{
  received, is_complete, written_file, outcome, submit_result_lem,
}
use map_reduce_rpc.Master.Submit.Stale.{Among, stale_results_complete}
use map_reduce_rpc.Tests.Data.{handle_a}

abbrev five_bytes : List ℕ
five_bytes = 1 ∷ 2 ∷ 3 ∷ 4 ∷ 5 ∷ []

abbrev five_info : FileInfo
five_info = record { length = 5; chunks = 2 }

abbrev dfs : DfsFiles
dfs = record {
  get_file = λ path. if path == content_path (codes "/in") handle_a then some five_info else none;
  get_chunk_handle = λ path index. some (index + 40);
  chunk_max = 4;
}

-- The client notes the end of the file when it is reached.
abbrev read_five : List ℕ → ℕ → ℕ → DfsRead
read_five path offset n =
    if leb 5 (offset + n)
    then DfsRead.dfs_eof (take n (drop offset five_bytes))
    else DfsRead.dfs_bytes (take n (drop offset five_bytes))

five-Reads : Reads read_five (content_path (codes "/in") handle_a) five_bytes
five-Reads offset n = elim (Bool-cases (leb 5 (offset + n))) [
  | inl ends ↦ inr (if-true ends _)
  | inr goes_on ↦ inl (if-false goes_on _)
]

path_trimmed :
    trim_space (content_path (codes "/in") handle_a) ≡ content_path (codes "/in") handle_a
unfolding map_reduce_rpc.Prelude.Trim.trim_right trim_space map_reduce_rpc.Prelude.Trim.trim_left
    map_reduce_rpc.Prelude.Text.decimal map_reduce_rpc.Durable.Names.int_text
path_trimmed = refl

plan_chunks_covers_example :
    (planned : FileMetadata) × (find_under dfs handle_a (codes "/in") ≡ Found.metadata planned)
    × (read_all
          (λ idx chunk.
            read_chunk_data
              (codes "dfs")
              false
              read_five
              (chunk_request handle_a planned idx chunk))
          0
          planned.chunks
        ≡ some five_bytes)
    × (length planned.chunks ≡ 2)
unfolding trim_space map_reduce_rpc.Prelude.Trim.trim_right map_reduce_rpc.Prelude.Trim.trim_left
plan_chunks_covers_example =
    plan_chunks_covers dfs handle_a (codes "/in") five_bytes (codes "dfs") five_info read_five
      (if-true (==_refl (content_path (codes "/in") handle_a)) _) refl (omega arith) (omega arith)
      (omega arith) (omega arith) (omega arith) (λ i. (i + 40, refl)) path_trimmed refl five-Reads

abbrev chunk_of : ℕ → ChunkInfo
chunk_of i = record { index = i; offset = i * 4; size = 4; path = codes "/f"; handle = i + 40 }

abbrev file : FileMetadata
file = record {
  handle = handle_a;
  source_log = [];
  source_path = codes "/f";
  size_bytes = 8;
  mod_unix_nano = 0;
  uploaded_at = [];
  completed = true;
  raw_content = [];
  chunks = chunk_of 0 ∷ chunk_of 1 ∷ [];
}

abbrev result_of : ℕ → List ℕ → MapReduceResultRequest
result_of chunk_index output = record {
  handle = handle_a;
  chunk_index = chunk_index;
  worker_addr = codes "w1";
  output_file = [];
  output_data = output;
  generated_at = [];
}

-- One of the two results of `handle_a` is in.
abbrev waiting : Master
waiting = record {
  server_address = [];
  fs_server_address = codes "dfs";
  coordinator_address = codes "coordinator";
  worker_addresses = codes "w1" ∷ codes "w2" ∷ [];
  results = (codes "1:0", result_of 0 (codes "a 1")) ∷ [];
  jobs = (1, record { expected_chunks = 2; dispatched_at = 120 }) ∷ [];
  worker_plugins = (codes "w1", codes "wc") ∷ [];
}

abbrev sound_submit : SubmitIo
sound_submit = record {
  mkdir = true;
  create = true;
  encode = λ payload. some payload.combined_output;
  rename = true;
}

submit_result_example :
    submit_result sound_submit (result_of 1 (codes "b 2")) waiting []
    ≡ outcome handle_a
        (record waiting {
          results = store (result_key 1 1) (result_of 1 (codes "b 2")) waiting.results;
        })
        []
        (is_complete (result_of 1 (codes "b 2")) waiting)
        (if is_complete (result_of 1 (codes "b 2")) waiting
          then written_file sound_submit handle_a (received (result_of 1 (codes "b 2")) waiting)
          else none)
submit_result_example = submit_result_lem sound_submit (result_of 1 (codes "b 2")) waiting []

-- The worker `w1` takes its chunks and `w2` cannot be reached.
abbrev env : MasterEnv
env = record {
  fetch = λ h. some file;
  probe = λ addr. none;
  timed_out = λ idx. false;
  call_worker = λ addr request.
      if addr == codes "w1"
      then WorkerAnswer.replied (record { status = codes "accepted"; error_code = 0 })
      else WorkerAnswer.dial_failed;
  now = 130;
}

dispatch_job_example :
    ((dispatch_job env waiting.worker_addresses handle_a file waiting).1
      ≡ deserved
          (no_chunk env waiting.worker_addresses handle_a file 0 file.chunks)
          (every_chunk env waiting.worker_addresses handle_a file 0 file.chunks))
    × (lookup 1 (dispatch_job env waiting.worker_addresses handle_a file waiting).0.jobs ≡ (
        if handle_a.id == 1
        then (if no_chunk env waiting.worker_addresses handle_a file 0 file.chunks
            then none
            else some (record { expected_chunks = 2; dispatched_at = 130 }))
        else lookup 1 waiting.jobs))
dispatch_job_example = dispatch_job_lem env waiting.worker_addresses handle_a file waiting 1

-- The master after a run of `handle_a`.
abbrev finished : Master
finished = record waiting {
  results =
      (codes "1:0", result_of 0 (codes "old")) ∷ (codes "1:1", result_of 1 (codes "old")) ∷ [];
  jobs = [];
}

some_taken : no_chunk env finished.worker_addresses handle_a file 0 file.chunks ≡ false
unfolding no_chunk map_reduce_rpc.Master.Dispatch.dispatch_chunk
some_taken = refl

two_old : length (results_of (key_prefix 1) finished.results) ≡ 2
unfolding results_of key_prefix has_prefix map_reduce_rpc.Prelude.Text.strip_prefix
    map_reduce_rpc.Prelude.Text.decimal
two_old = refl

abbrev m_again : Master
m_again = (dispatch_job env finished.worker_addresses handle_a file finished).0

abbrev first_new : MapReduceResultRequest
first_new = result_of 0 (codes "new")

abbrev first_written : List ℕ
first_written = (collate handle_a (received first_new m_again)).combined_output

other_key : (result_key 1 0 == codes "1:1") ≡ false
unfolding result_key key_prefix map_reduce_rpc.Prelude.Text.decimal
    map_reduce_rpc.Durable.Names.int_text
other_key = refl

old_kept : lookup (codes "1:1") finished.results ≡ some (result_of 1 (codes "old"))
unfolding lookup
old_kept = refl

old_named : has_prefix (codes "1:1") (key_prefix 1) ≡ true
unfolding key_prefix has_prefix map_reduce_rpc.Prelude.Text.strip_prefix
    map_reduce_rpc.Prelude.Text.decimal
old_named = refl

stale_results_complete_example :
    let after = submit_result sound_submit first_new m_again [] in
    (is_complete first_new m_again ≡ true)
    × (after.files ≡ store (result_file_name 1) first_written [])
    × (after.master.jobs ≡ delete 1 m_again.jobs)
    × Among (result_of 1 (codes "old")) (collate handle_a (received first_new m_again)).chunks
    × (lookup (codes "1:1") after.master.results ≡ some (result_of 1 (codes "old")))
stale_results_complete_example =
    stale_results_complete env finished.worker_addresses file finished first_new sound_submit []
      first_written (codes "1:1") (result_of 1 (codes "old")) some_taken (omega (arith, two_old))
      (omega (arith, two_old)) refl refl old_kept old_named other_key

-- A job of two chunks, whose results come in the other order.
abbrev new_job : Master
new_job = record waiting { results = [] }

abbrev both_results : List MapReduceResultRequest
both_results = result_of 0 (codes "a 1") ∷ result_of 1 (codes "b 2") ∷ []

abbrev combined : List ℕ
combined = (collate handle_a both_results).combined_output

is_tracked : lookup 1 new_job.jobs ≡ some (record { expected_chunks = 2; dispatched_at = 120 })
unfolding lookup
is_tracked = refl

no_results : results_of (key_prefix 1) new_job.results ≡ []
unfolding results_of
no_results = refl

job_completes_example :
    ((submit_all sound_submit (result_of 1 (codes "b 2") ∷ []) new_job []).files ≡ [])
    × ((submit_all sound_submit (result_of 1 (codes "b 2") ∷ []) new_job []).notified ≡ [])
    × ((submit_all sound_submit
          (result_of 1 (codes "b 2") ∷ result_of 0 (codes "a 1") ∷ [])
          new_job
          []).files
        ≡ store (result_file_name 1) combined [])
    × ((submit_all sound_submit
          (result_of 1 (codes "b 2") ∷ result_of 0 (codes "a 1") ∷ [])
          new_job
          []).notified
        ≡ add_notified (notify_coordinator new_job handle_a) [])
    × (lookup 1
          (submit_all sound_submit
            (result_of 1 (codes "b 2") ∷ result_of 0 (codes "a 1") ∷ [])
            new_job
            []).master.jobs
        ≡ none)
job_completes_example =
    job_completes sound_submit handle_a (record { expected_chunks = 2; dispatched_at = 120 })
      new_job [] both_results (result_of 1 (codes "b 2") ∷ []) [] (result_of 0 (codes "a 1"))
      combined is_tracked refl (omega arith) no_results (refl, (refl, tt))
      (omega arith, (omega arith, tt)) ((refl, tt), (tt, tt))
      (result_of 1 (codes "b 2") ∷ [], [], refl, ([], [], refl, refl)) refl refl
