-- ===== src/Master/Dispatch/Counts.antt =====
-- What the reply of `RPCStartMapReduce` says of the chunks, and which jobs are tracked after it.
use native.Mathlib.Nat.{mod-lt, add-mod_right}
use map_reduce_rpc.Prelude.{
  ℕ, suc, ◌+◌, ◌%◌, ◌<◌, ◌≡◌, refl, ap, ◌∙◌, sym, arith, Bool, true, ◌&&◌, not, none, some, List,
  [], ◌∷◌, length, eqb, if◌then◌else◌, get_elem?, get_elem?-some, list_eq, nat_eq, ◌==◌, Bool-cases,
  inl, inr,
}
use map_reduce_rpc.Prelude.Assoc.{lookup, store, lookup-store, lookup-delete}
use map_reduce_rpc.Prelude.Text.{codes}
use map_reduce_rpc.Durable.Types.{Handle}
use map_reduce_rpc.Rpc.{ChunkInfo, FileMetadata, StartMapReduceReply}
use map_reduce_rpc.Master.State.{Master, JobMeta}
use map_reduce_rpc.Master.Dispatch.{
  MasterEnv, dispatch_chunk, dispatch_chunks, dispatch_job, worker_for, or_no_address,
}

-- Whether every chunk, and whether some chunk, is dispatched.
unfoldable pub every_chunk :
    MasterEnv → List (List ℕ) → Handle → FileMetadata → ℕ → List ChunkInfo → Bool
every_chunk env workers handle file idx [] = true
every_chunk env workers handle file idx (chunk ∷ chunks) =
    dispatch_chunk env workers handle file idx chunk
    && every_chunk env workers handle file (suc idx) chunks

unfoldable pub no_chunk :
    MasterEnv → List (List ℕ) → Handle → FileMetadata → ℕ → List ChunkInfo → Bool
no_chunk env workers handle file idx [] = true
no_chunk env workers handle file idx (chunk ∷ chunks) =
    not (dispatch_chunk env workers handle file idx chunk)
    && no_chunk env workers handle file (suc idx) chunks

dispatch_chunks_lem :
    (env : MasterEnv) (workers : List (List ℕ)) (handle : Handle) (file : FileMetadata) (idx : ℕ)
    (chunks : List ChunkInfo)
    → ((dispatch_chunks env workers handle file idx chunks).0
          + (dispatch_chunks env workers handle file idx chunks).1
        ≡ length chunks)
      × (eqb (dispatch_chunks env workers handle file idx chunks).0 0
          ≡ no_chunk env workers handle file idx chunks)
      × (eqb (dispatch_chunks env workers handle file idx chunks).1 0
          ≡ every_chunk env workers handle file idx chunks)
unfolding dispatch_chunks no_chunk every_chunk
dispatch_chunks_lem env workers handle file idx [] = (omega arith, refl, refl)
dispatch_chunks_lem env workers handle file idx (chunk ∷ chunks) =
    let (total, none_left, all_sent) =
      dispatch_chunks_lem env workers handle file (suc idx) chunks in
    elim (Bool-cases (dispatch_chunk env workers handle file idx chunk)) [
      | inl sent ↦ rw sent (omega (arith, total), ground arith, ground (arith, all_sent))
      | inr lost ↦ rw lost (omega (arith, total), ground (arith, none_left), ground arith)
    ]

-- The reply that the chunks deserve.
abbrev pub deserved : Bool → Bool → StartMapReduceReply
deserved lost_all sent_all =
    if lost_all
    then record { status = codes "error"; error_code = 500 }
    else if sent_all
    then record { status = codes "accepted"; error_code = 0 }
    else record { status = codes "partial"; error_code = 207 }

-- A dispatch replies `error` with the code 500 if no chunk is taken by its worker, `accepted` with the
-- code 0 if there are some and every one is taken, and `partial` with the code 207 otherwise. It tracks the job with the number of its chunks exactly when some chunk was taken, and
-- forgets it when none was, so that a job that cannot produce a result is not waited for; no other job
-- is touched.
pub dispatch_job_lem :
    (env : MasterEnv) (workers : List (List ℕ)) (handle : Handle) (file : FileMetadata) (m : Master)
    (id : ℕ)
    → ((dispatch_job env workers handle file m).1
        ≡ deserved
            (no_chunk env workers handle file 0 file.chunks)
            (every_chunk env workers handle file 0 file.chunks))
      × (lookup id (dispatch_job env workers handle file m).0.jobs ≡ (
          if handle.id == id
          then (if no_chunk env workers handle file 0 file.chunks
              then none
              else some (record { expected_chunks = length file.chunks; dispatched_at = env.now }))
          else lookup id m.jobs))
unfolding dispatch_job
dispatch_job_lem env workers handle file m id =
    let (total, lost_all, sent_all) = dispatch_chunks_lem env workers handle file 0 file.chunks in
    let job : JobMeta = record { expected_chunks = length file.chunks; dispatched_at = env.now } in
    (
      ground (arith, lost_all, sent_all),
      ground (
        arith,
        lost_all,
        lookup-store handle.id id job m.jobs,
        lookup-delete handle.id id (store handle.id job m.jobs),
      ),
    )

-- Every chunk has a worker of the list, and two chunks that are a multiple of the number of workers
-- apart have the same.
pub worker_for_lem :
    (worker : List ℕ) (workers : List (List ℕ)) (idx : ℕ)
    → (get_elem? (worker ∷ workers) (idx % length (worker ∷ workers))
        ≡ some (worker_for (worker ∷ workers) idx))
      × (worker_for (worker ∷ workers) (idx + length (worker ∷ workers))
          ≡ worker_for (worker ∷ workers) idx)
worker_for_lem worker workers idx =
    let n = length (worker ∷ workers) in
    let positive : 0 < n = omega arith in
    let (addr, found) = get_elem?-some (worker ∷ workers) (idx % n) (mod-lt idx positive) in
    (
      found ∙ ap some (sym (ap or_no_address found)),
      ap (λ (i : ℕ). or_no_address (get_elem? (worker ∷ workers) i)) (add-mod_right idx n),
    )
