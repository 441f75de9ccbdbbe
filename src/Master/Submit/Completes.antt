-- ===== src/Master/Submit/Completes.antt =====
-- When a job is complete, and what a submission then leaves.
use map_reduce_rpc.Prelude.{
  ℕ, ◌≡◌, refl, ap, ◌∙◌, sym, arith, Bool, true, false, ◌&&◌, not, Option, none, some, List, length,
  if◌then◌else◌, Bool-cases, inl, inr, list_eq, nat_eq, if-true, if-false,
}
use map_reduce_rpc.Prelude.Words.{slt64}
use map_reduce_rpc.Prelude.Assoc.{Assoc, lookup, store, delete}
use map_reduce_rpc.Durable.Types.{Handle}
use map_reduce_rpc.Rpc.{MapReduceResultRequest}
use map_reduce_rpc.Master.State.{Master, JobMeta}
use map_reduce_rpc.Master.Submit.{
  results_of, key_prefix, result_key, collate, SubmitIo, Submitted, submit_result, result_file_name,
  notify_coordinator, commit_result, write_result, submit_tracked,
}

-- The results of the handle once the request is among them.
abbrev pub received : MapReduceResultRequest → Master → List MapReduceResultRequest
received request m =
    results_of (key_prefix request.handle.id)
      (store (result_key request.handle.id request.chunk_index) request m.results)

-- Whether the job is tracked and has as many results as chunks.
abbrev pub has_all : Option JobMeta → ℕ → Bool
has_all none count = false
has_all (some job) count = not (slt64 count job.expected_chunks)

abbrev pub is_complete : MapReduceResultRequest → Master → Bool
is_complete request m = has_all (lookup request.handle.id m.jobs) (length (received request m))

-- The file that is written, if every call succeeds.
abbrev pub written_file : SubmitIo → Handle → List MapReduceResultRequest → Option (List ℕ)
written_file io handle chunks =
    if io.mkdir && io.create && io.rename then io.encode (collate handle chunks) else none

-- What a submission leaves, for the file that it writes.
abbrev pub outcome : Handle → Master → Assoc (List ℕ) (List ℕ) → Bool → Option (List ℕ) → Submitted
outcome handle m files complete none = record {
  master = m;
  files = files;
  accepted = not complete;
  notified = none;
}
outcome handle m files complete (some bytes) = record {
  master = record m { jobs = delete handle.id m.jobs };
  files = store (result_file_name handle.id) bytes files;
  accepted = true;
  notified = notify_coordinator m handle;
}

module _ (io : SubmitIo) (handle : Handle) (m : Master) (files : Assoc (List ℕ) (List ℕ)) where
  commit_result-outcome :
      (encoded : Option (List ℕ))
      → commit_result io handle m files encoded
        ≡ outcome handle m files true (if io.rename then encoded else none)
  commit_result-outcome none = elim (Bool-cases io.rename) [
    | inl renamed ↦ ap (outcome handle m files true) (sym (if-true renamed _))
    | inr not_renamed ↦ ap (outcome handle m files true) (sym (if-false not_renamed _))
  ]
  commit_result-outcome (some bytes) = elim (Bool-cases io.rename) [
    | inl renamed ↦ if-true renamed _ ∙ ap (outcome handle m files true) (sym (if-true renamed _))
    | inr not_renamed ↦
        if-false not_renamed _ ∙ ap (outcome handle m files true) (sym (if-false not_renamed _))
  ]

  write_result-outcome :
      (chunks : List MapReduceResultRequest)
      → write_result io handle m files (collate handle chunks)
        ≡ outcome handle m files true (written_file io handle chunks)
  write_result-outcome chunks = elim (Bool-cases (io.mkdir && io.create)) [
    | inl made ↦
        let written : (if io.rename then io.encode (collate handle chunks) else none)
            ≡ written_file io handle chunks =
          ground arith in
        if-true made _
        ∙ commit_result-outcome (io.encode (collate handle chunks))
        ∙ ap (outcome handle m files true) written
    | inr failed ↦
        let nothing : none ≡ written_file io handle chunks = ground arith in
        if-false failed _ ∙ ap (outcome handle m files true) nothing
  ]

  submit_tracked-outcome :
      (chunks : List MapReduceResultRequest) (job : Option JobMeta)
      → submit_tracked io handle m files chunks job
        ≡ outcome handle m files
            (has_all job (length chunks))
            (if has_all job (length chunks) then written_file io handle chunks else none)
  submit_tracked-outcome chunks none = refl
  submit_tracked-outcome chunks (some job) =
      elim (Bool-cases (slt64 (length chunks) job.expected_chunks)) [
        | inl waiting ↦ if-true waiting _ ∙ rw waiting refl
        | inr all ↦ if-false all _ ∙ write_result-outcome chunks ∙ rw all refl
      ]

-- A submitted result is always kept. The job is finished by it exactly when the job is tracked, has with
-- this result as many as it has chunks, and the collated result can be written: then the result file is
-- replaced, the job is no longer tracked and the coordinator is told. In every other case no file and
-- no job changes and nobody is told, and only a complete job whose file cannot be written is an error.
pub submit_result_lem :
    (io : SubmitIo) (request : MapReduceResultRequest) (m : Master)
    (files : Assoc (List ℕ) (List ℕ))
    → submit_result io request m files
      ≡ outcome request.handle
          (record m {
            results = store (result_key request.handle.id request.chunk_index) request m.results;
          })
          files
          (is_complete request m)
          (if is_complete request m
            then written_file io request.handle (received request m)
            else none)
unfolding submit_result
submit_result_lem io request m files =
    submit_tracked-outcome io request.handle
      (record m {
        results = store (result_key request.handle.id request.chunk_index) request m.results;
      })
      files (received request m) (lookup request.handle.id m.jobs)
