-- ===== src/Master/Submit.antt =====
-- `RPCSubmitMapReduceResult`, `notifyCoordinator` and `RPCGetJobResult` of mrp/master.go.
pub mod Keys
pub mod Combine
pub mod Completes
pub mod Stale
pub mod Orders
pub mod Job
use map_reduce_rpc.Prelude.{
  ℕ, zero, suc, ◌+◌, Bool, true, false, ◌&&◌, ◌||◌, not, Option, none, some, List, [], ◌∷◌, ◌++◌,
  length, eqb, ltb, if◌then◌else◌, list_eq, nat_eq,
}
use map_reduce_rpc.Prelude.Words.{slt64}
use map_reduce_rpc.Prelude.Assoc.{Assoc, lookup, store, delete, is_some}
use map_reduce_rpc.Prelude.Text.{codes, decimal}
use map_reduce_rpc.Prelude.Trim.{trim_space, has_prefix, ends_with}
use map_reduce_rpc.Durable.Types.{Handle}
use map_reduce_rpc.Durable.Names.{int_text}
use map_reduce_rpc.Rpc.{MapReduceResultRequest, JobCompleteRequest}
use map_reduce_rpc.Master.State.{Master, JobMeta}

-- `fmt.Sprintf("%d:", …)` and `fmt.Sprintf("%d:%d", …)`
unfoldable pub key_prefix : ℕ → List ℕ
key_prefix id = decimal id ++ b':' ∷ []

unfoldable pub result_key : ℕ → ℕ → List ℕ
unfolding key_prefix
result_key id chunk_index = key_prefix id ++ int_text chunk_index

-- The results whose key has the prefix, in the order of the map.
unfoldable pub results_of :
    List ℕ → Assoc (List ℕ) MapReduceResultRequest → List MapReduceResultRequest
results_of prefix [] = []
results_of prefix ((key, item) ∷ results) =
    let rest = results_of prefix results in if has_prefix key prefix then item ∷ rest else rest

unfoldable pub insert_chunk :
    MapReduceResultRequest → List MapReduceResultRequest → List MapReduceResultRequest
insert_chunk c [] = c ∷ []
insert_chunk c (d ∷ chunks) =
    let rest = insert_chunk c chunks in
    if slt64 d.chunk_index c.chunk_index then d ∷ rest else c ∷ d ∷ chunks

-- `sort.Slice` by chunk index; the indices of the results of a handle differ.
unfoldable pub sort_chunks : List MapReduceResultRequest → List MapReduceResultRequest
sort_chunks [] = []
sort_chunks (c ∷ chunks) = insert_chunk c (sort_chunks chunks)

-- A chunk is appended to what is combined so far; `first` is `i == 0`.
unfoldable pub combine_step : Bool → List ℕ → List ℕ → List ℕ
combine_step first combined output =
    let broken =
      if not first && not (ends_with 10 combined) then combined ++ 10 ∷ [] else combined in
    if ends_with 10 output then broken ++ output else broken ++ output ++ 10 ∷ []

unfoldable pub combine_loop : Bool → List ℕ → List MapReduceResultRequest → List ℕ
combine_loop first combined [] = combined
combine_loop first combined (c ∷ chunks) =
    combine_loop false (combine_step first combined c.output_data) chunks

-- `collatedResult`, with the time left out.
pub record CollatedResult : Type 0 where
  pub handle : Handle
  pub chunk_count : ℕ
  pub chunks : List MapReduceResultRequest
  pub combined_output : List ℕ

unfoldable pub collate : Handle → List MapReduceResultRequest → CollatedResult
collate handle chunks = record {
  handle = handle;
  chunk_count = length chunks;
  chunks = sort_chunks chunks;
  combined_output = combine_loop true [] (sort_chunks chunks);
}

-- What the operating system, `encoding/json` and the coordinator's address answer.
pub record SubmitIo : Type 0 where
  pub mkdir : Bool
  pub create : Bool
  pub encode : CollatedResult → Option (List ℕ)
  pub rename : Bool

unfoldable pub result_file_name : ℕ → List ℕ
result_file_name id = codes "map_reduce_result_" ++ (decimal id ++ codes ".json")

-- The directory of results, and the notification that is sent, if one is.
pub record Submitted : Type 0 where
  pub master : Master
  pub files : Assoc (List ℕ) (List ℕ)
  pub accepted : Bool
  pub notified : Option JobCompleteRequest

abbrev pub notify_coordinator : Master → Handle → Option JobCompleteRequest
notify_coordinator m handle =
    if eqb (length (trim_space m.coordinator_address)) 0
    then none
    else some (record { handle = handle; result_file = result_file_name handle.id })

abbrev submitted : Master → Assoc (List ℕ) (List ℕ) → Bool → Submitted
submitted m files accepted = record {
  master = m;
  files = files;
  accepted = accepted;
  notified = none;
}

-- From the encoding on: the temporary file is renamed or removed.
abbrev pub commit_result :
    SubmitIo → Handle → Master → Assoc (List ℕ) (List ℕ) → Option (List ℕ) → Submitted
commit_result io handle m files none = submitted m files false
commit_result io handle m files (some bytes) =
    if io.rename
    then record {
      master = record m { jobs = delete handle.id m.jobs };
      files = store (result_file_name handle.id) bytes files;
      accepted = true;
      notified = notify_coordinator m handle;
    }
    else submitted m files false

abbrev pub write_result :
    SubmitIo → Handle → Master → Assoc (List ℕ) (List ℕ) → CollatedResult → Submitted
write_result io handle m files payload =
    if io.mkdir && io.create
    then commit_result io handle m files (io.encode payload)
    else submitted m files false

abbrev submit_tracked :
    SubmitIo
    → Handle
    → Master
    → Assoc (List ℕ) (List ℕ)
    → List MapReduceResultRequest
    → Option JobMeta
    → Submitted
submit_tracked io handle m files received none = submitted m files true
submit_tracked io handle m files received (some job) =
    if slt64 (length received) job.expected_chunks
    then submitted m files true
    else write_result io handle m files (collate handle received)

-- `RPCSubmitMapReduceResult` and `notifyCoordinator`; an error of the notification is only logged.
unfoldable pub submit_result :
    SubmitIo → MapReduceResultRequest → Master → Assoc (List ℕ) (List ℕ) → Submitted
submit_result io request m files =
    let results = store (result_key request.handle.id request.chunk_index) request m.results in
    submit_tracked io request.handle (record m { results = results }) files
      (results_of (key_prefix request.handle.id) results) (lookup request.handle.id m.jobs)

-- `RPCGetJobResult`: `reads` is false when the file is there but cannot be read.
pub data JobResult : Type 0 where
  complete : List ℕ → JobResult
  in_progress not_found read_failed : JobResult

abbrev result_of : Bool → Bool → Option (List ℕ) → JobResult
result_of reads tracked none = if tracked then JobResult.in_progress else JobResult.not_found
result_of reads tracked (some json) =
    if reads then JobResult.complete json else JobResult.read_failed

unfoldable pub get_job_result : Bool → ℕ → Master → Assoc (List ℕ) (List ℕ) → JobResult
get_job_result reads handle_id m files =
    result_of reads (is_some (lookup handle_id m.jobs)) (lookup (result_file_name handle_id) files)
