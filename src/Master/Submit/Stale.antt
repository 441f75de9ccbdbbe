-- ===== src/Master/Submit/Stale.antt =====
-- Results that an earlier run of a job has left.
use map_reduce_rpc.Prelude.{
  ℕ, ◌+◌, ◌^◌, ◌≤◌, ◌<◌, ◌≡◌, ◌⊎◌, inl, inr, ap, ◌∙◌, arith, true, false, ◌&&◌, Option, some, List,
  [], ◌∷◌, length, ◌==◌, ==_iff, ==_refl, list_eq, nat_eq, if-true, if-false, Bool-cases,
}
use map_reduce_rpc.Prelude.Words.{slt64}
use map_reduce_rpc.Prelude.Trim.{has_prefix}
use map_reduce_rpc.Prelude.Assoc.{Assoc, lookup, store, delete, lookup-store}
use map_reduce_rpc.Durable.Types.{Handle}
use map_reduce_rpc.Rpc.{MapReduceResultRequest, FileMetadata}
use map_reduce_rpc.Master.State.{Master, JobMeta}
use map_reduce_rpc.Master.Dispatch.{MasterEnv, dispatch_job}
use map_reduce_rpc.Master.Dispatch.Counts.{no_chunk, dispatch_job_lem}
use map_reduce_rpc.Master.Submit.{
  results_of, key_prefix, result_key, collate, insert_chunk, sort_chunks, SubmitIo, Submitted,
  submit_result, result_file_name,
}
use map_reduce_rpc.Master.Submit.Completes.{
  received, has_all, is_complete, written_file, outcome, submit_result_lem,
}

-- A result that is stored adds to the results of a prefix or replaces one of them.
results_of-store :
    (prefix key : List ℕ) (item : MapReduceResultRequest)
    (results : Assoc (List ℕ) MapReduceResultRequest)
    → (length (results_of prefix results) ≤ length (results_of prefix (store key item results)))
      × (length (results_of prefix (store key item results))
          ≤ length (results_of prefix results) + 1)
unfolding results_of store
results_of-store prefix key item [] = (ground arith, ground arith)
results_of-store prefix key item ((j, old) ∷ results) =
    let (more, few) = results_of-store prefix key item results in
    (ground (arith, more, ==_iff j key), ground (arith, few, ==_iff j key))

tracked-has_all :
    (o : Option JobMeta) (job : JobMeta) (count : ℕ)
    → o ≡ some job
    → job.expected_chunks ≤ count
    → count < 2 ^ 63
    → has_all o count ≡ true
tracked-has_all o job count e enough small = ground arith

dispatch_job-results :
    (env : MasterEnv) (workers : List (List ℕ)) (handle : Handle) (file : FileMetadata) (m : Master)
    → (dispatch_job env workers handle file m).0.results ≡ m.results
unfolding dispatch_job
dispatch_job-results env workers handle file m = ground arith

-- With as many old results as the file has chunks, one result completes the job.
dispatch_job-is_complete :
    (env : MasterEnv) (workers : List (List ℕ)) (file : FileMetadata) (m : Master)
    (request : MapReduceResultRequest)
    → no_chunk env workers request.handle file 0 file.chunks ≡ false
    → length (results_of (key_prefix request.handle.id) m.results) < 2 ^ 62
    → length file.chunks ≤ length (results_of (key_prefix request.handle.id) m.results)
    → is_complete request (dispatch_job env workers request.handle file m).0 ≡ true
dispatch_job-is_complete env workers file m request some_taken few enough =
    let m' = (dispatch_job env workers request.handle file m).0 in
    let key = result_key request.handle.id request.chunk_index in
    let prefix = key_prefix request.handle.id in
    let (reply, tracked) = dispatch_job_lem env workers request.handle file m request.handle.id in
    let (more, bound) = results_of-store prefix key request m'.results in
    let old : length (results_of prefix m'.results) ≡ length (results_of prefix m.results) =
      ap (λ (rs : Assoc (List ℕ) MapReduceResultRequest). length (results_of prefix rs))
        (dispatch_job-results env workers request.handle file m) in
    tracked-has_all (lookup request.handle.id m'.jobs)
      (record { expected_chunks = length file.chunks; dispatched_at = env.now })
      (length (received request m'))
      (tracked ∙ if-true (==_refl request.handle.id) _ ∙ if-false some_taken _)
      (omega (arith, more, old, enough)) (omega (arith, bound, old, few))

-- A result is one of a list.
abbrev pub Among : MapReduceResultRequest → List MapReduceResultRequest → Type 0
Among c [] = ⊥
Among c (d ∷ chunks) = (d ≡ c) ⊎ Among c chunks

insert_chunk-Among :
    (c d : MapReduceResultRequest) (chunks : List MapReduceResultRequest)
    → (d ≡ c) ⊎ Among c chunks
    → Among c (insert_chunk d chunks)
unfolding insert_chunk
insert_chunk-Among c d [] h = h
insert_chunk-Among c d (e ∷ chunks) h = elim (Bool-cases (slt64 e.chunk_index d.chunk_index)) [
  | inl later ↦ rw later (elim h [
    | inl same ↦ inr (insert_chunk-Among c d chunks (inl same))
    | inr (inl first) ↦ inl first
    | inr (inr rest) ↦ inr (insert_chunk-Among c d chunks (inr rest))
  ])
  | inr here ↦ rw here h
]

sort_chunks-Among :
    (c : MapReduceResultRequest) (chunks : List MapReduceResultRequest)
    → Among c chunks
    → Among c (sort_chunks chunks)
unfolding sort_chunks
sort_chunks-Among c [] h = absurd h
sort_chunks-Among c (d ∷ chunks) (inl same) = insert_chunk-Among c d (sort_chunks chunks) (inl same)
sort_chunks-Among c (d ∷ chunks) (inr rest) =
    insert_chunk-Among c d (sort_chunks chunks) (inr (sort_chunks-Among c chunks rest))

-- A result that is stored under a key of the prefix is among the results of the prefix.
results_of-Among :
    (prefix key : List ℕ) (c : MapReduceResultRequest)
    (results : Assoc (List ℕ) MapReduceResultRequest)
    → has_prefix key prefix ≡ true
    → lookup key results ≡ some c
    → Among c (results_of prefix results)
unfolding results_of lookup
results_of-Among prefix key c [] named e = absurd (ground (arith, e))
results_of-Among prefix key c ((j, item) ∷ results) named e = elim (Bool-cases (j == key)) [
  | inl same ↦
      let here : item ≡ c = ground (arith, e, same) in
      let first : has_prefix j prefix ≡ true =
        ap (λ (k : List ℕ). has_prefix k prefix) ((==_iff j key).0 same) ∙ named in
      rw first (inl here)
  | inr other ↦
      let rest = results_of-Among prefix key c results named (ground (arith, e, other)) in
      elim (Bool-cases (has_prefix j prefix)) [
        | inl listed ↦ rw listed (inr rest)
        | inr not_listed ↦ rw not_listed rest
      ]
]

-- Results are never cleared: when a handle is dispatched again, with a chunk that is taken, after a run
-- that left as many results as the file has chunks (and fewer than 2 ^ 62), the first result of the new run already completes the job. When the file system
-- takes it, the result file is written and the job is no longer tracked. An old result that has a key of
-- the handle, and not that of the new result, is among the chunks of what is written, and stays in the
-- map after it.
pub stale_results_complete :
    (env : MasterEnv) (workers : List (List ℕ)) (file : FileMetadata) (m : Master)
    (request : MapReduceResultRequest) (io : SubmitIo) (files : Assoc (List ℕ) (List ℕ))
    (bytes key : List ℕ) (old : MapReduceResultRequest)
    → no_chunk env workers request.handle file 0 file.chunks ≡ false
    → length (results_of (key_prefix request.handle.id) m.results) < 2 ^ 62
    → length file.chunks ≤ length (results_of (key_prefix request.handle.id) m.results)
    → (io.mkdir && io.create && io.rename) ≡ true
    → io.encode (
        collate request.handle
          (received request (dispatch_job env workers request.handle file m).0))
      ≡ some bytes
    → lookup key m.results ≡ some old
    → has_prefix key (key_prefix request.handle.id) ≡ true
    → (result_key request.handle.id request.chunk_index == key) ≡ false
    → let m' = (dispatch_job env workers request.handle file m).0 in
      let after = submit_result io request m' files in
      (is_complete request m' ≡ true)
      × (after.files ≡ store (result_file_name request.handle.id) bytes files)
      × (after.master.jobs ≡ delete request.handle.id m'.jobs)
      × Among old (collate request.handle (received request m')).chunks
      × (lookup key after.master.results ≡ some old)
unfolding collate
stale_results_complete env workers file m request io files bytes key old some_taken few enough sound
      encodes kept named other =
    let m' = (dispatch_job env workers request.handle file m).0 in
    let new_key = result_key request.handle.id request.chunk_index in
    let complete = dispatch_job-is_complete env workers file m request some_taken few enough in
    let writes : written_file io request.handle (received request m') ≡ some bytes =
      if-true sound _ ∙ encodes in
    let left =
      submit_result_lem io request m' files
      ∙ ap
          (outcome request.handle (record m' { results = store new_key request m'.results }) files
            (is_complete request m'))
          (if-true complete _ ∙ writes) in
    let stays : lookup key (store new_key request m'.results) ≡ some old =
      lookup-store new_key key request m'.results
      ∙ if-false other _
      ∙ ap (λ (rs : Assoc (List ℕ) MapReduceResultRequest). lookup key rs)
          (dispatch_job-results env workers request.handle file m)
      ∙ kept in
    (
      complete,
      ap (λ (s : Submitted). s.files) left,
      ap (λ (s : Submitted). s.master.jobs) left,
      sort_chunks-Among old (received request m') (
          results_of-Among (key_prefix request.handle.id) key old (store new_key request m'.results)
            named stays),
      ap (λ (s : Submitted). lookup key s.master.results) left ∙ stays,
    )
