-- ===== src/Master/Dispatch.antt =====
-- `RPCStartMapReduce` of mrp/master.go: the chunks of a file are given to the workers in turn. Each
-- chunk is dispatched by a goroutine of its own; the reply depends on how many succeed only, so their
-- order does not matter.
pub mod Counts
use map_reduce_rpc.Prelude.{
  ℕ, zero, suc, ◌+◌, ◌%◌, Bool, true, false, ◌&&◌, not, Option, none, some, List, [], ◌∷◌, ◌++◌,
  length, eqb, ltb, if◌then◌else◌, get_elem?, list_eq, nat_eq, list_beq,
}
use map_reduce_rpc.Prelude.Assoc.{Assoc, lookup, store, delete}
use map_reduce_rpc.Prelude.Text.{codes}
use map_reduce_rpc.Prelude.Trim.{trim_space}
use map_reduce_rpc.Durable.Types.{Handle}
use map_reduce_rpc.Rpc.{
  ChunkInfo, FileMetadata, MapReduceRequest, MapReduceReply, StartMapReduceRequest,
  StartMapReduceReply,
}
use map_reduce_rpc.Master.State.{Master, JobMeta, get_workers_for_plugin}

-- The answer to a call of `Worker.RPCMapReduce`.
pub data WorkerAnswer : Type 0 where
  dial_failed call_failed : WorkerAnswer
  replied : MapReduceReply → WorkerAnswer

-- What the other processes and the clock do in a call.
pub record MasterEnv : Type 0 where
  pub fetch : Handle → Option FileMetadata
  pub probe : List ℕ → Option (List ℕ)
  -- whether the context is done when the chunk of this index is to be dispatched
  pub timed_out : ℕ → Bool
  pub call_worker : List ℕ → MapReduceRequest → WorkerAnswer
  pub now : ℕ

abbrev pub or_no_address : Option (List ℕ) → List ℕ
or_no_address none = []
or_no_address (some addr) = addr

-- `targetWorkers[idx%len(targetWorkers)]`
abbrev pub worker_for : List (List ℕ) → ℕ → List ℕ
worker_for workers idx = or_no_address (get_elem? workers (idx % length workers))

abbrev pub chunk_request : Handle → FileMetadata → ℕ → ChunkInfo → MapReduceRequest
chunk_request handle file idx chunk = record {
  handle = handle;
  file = file;
  chunk_index = idx;
  chunk_info = chunk;
}

abbrev accepts : WorkerAnswer → Bool
accepts WorkerAnswer.dial_failed = false
accepts WorkerAnswer.call_failed = false
accepts (WorkerAnswer.replied reply) = not (list_beq reply.status (codes "error"))

-- The goroutine of a chunk: whether it reports no error.
unfoldable pub dispatch_chunk :
    MasterEnv → List (List ℕ) → Handle → FileMetadata → ℕ → ChunkInfo → Bool
dispatch_chunk env workers handle file idx chunk =
    not (env.timed_out idx)
    && accepts (env.call_worker (worker_for workers idx) (chunk_request handle file idx chunk))

-- How many of the chunks, from the one of index `idx` on, are dispatched and fail.
unfoldable pub dispatch_chunks :
    MasterEnv → List (List ℕ) → Handle → FileMetadata → ℕ → List ChunkInfo → ℕ × ℕ
dispatch_chunks env workers handle file idx [] = (0, 0)
dispatch_chunks env workers handle file idx (chunk ∷ chunks) =
    let (dispatched, failed) = dispatch_chunks env workers handle file (suc idx) chunks in
    if dispatch_chunk env workers handle file idx chunk
    then (suc dispatched, failed)
    else (dispatched, suc failed)

abbrev pub error_reply : ℕ → StartMapReduceReply
error_reply code = record { status = codes "error"; error_code = code }

abbrev pub counted_reply : ℕ → ℕ → StartMapReduceReply
counted_reply dispatched failed =
    if eqb dispatched 0
    then error_reply 500
    else if ltb 0 failed
    then record { status = codes "partial"; error_code = 207 }
    else record { status = codes "accepted"; error_code = 0 }

abbrev settle : ℕ → ℕ → ℕ × ℕ → Master → Master × StartMapReduceReply
settle now id (dispatched, failed) m = (
  if eqb dispatched 0 then record m { jobs = delete id m.jobs } else m,
  counted_reply dispatched failed,
)

-- From the tracking of the job on.
unfoldable pub dispatch_job :
    MasterEnv → List (List ℕ) → Handle → FileMetadata → Master → Master × StartMapReduceReply
dispatch_job env workers handle file m =
    settle env.now handle.id (dispatch_chunks env workers handle file 0 file.chunks) (record m {
      jobs =
          store handle.id (record { expected_chunks = length file.chunks; dispatched_at = env.now })
            m.jobs;
    })

abbrev dispatch_to :
    MasterEnv → Handle → FileMetadata → Master × List (List ℕ) → Master × StartMapReduceReply
dispatch_to env handle file (m, []) = (m, error_reply 503)
dispatch_to env handle file (m, worker ∷ workers) =
    dispatch_job env (worker ∷ workers) handle file m

abbrev target_workers : MasterEnv → List ℕ → Master → Master × List (List ℕ)
target_workers env plugin m =
    if eqb (length plugin) 0
    then (m, m.worker_addresses)
    else get_workers_for_plugin env.probe plugin m

abbrev start_fetched :
    MasterEnv → StartMapReduceRequest → Option FileMetadata → Master → Master × StartMapReduceReply
start_fetched env request none m = (m, error_reply 500)
start_fetched env request (some file) m =
    if eqb (length file.chunks) 0
    then (m, error_reply 500)
    else if eqb (length m.worker_addresses) 0
    then (m, error_reply 503)
    else dispatch_to env request.handle file (target_workers env (trim_space request.plugin) m)

-- `RPCStartMapReduce`
unfoldable pub start_map_reduce :
    MasterEnv → StartMapReduceRequest → Master → Master × StartMapReduceReply
start_map_reduce env request m = start_fetched env request (env.fetch request.handle) m
