-- ===== src/Master/Submit/Job/Last.antt =====
-- The last result of a job.
use map_reduce_rpc.Prelude.{
  ℕ, ◌+◌, ◌^◌, ◌<◌, ◌≤◌, ◌≡◌, refl, sym, ap, ◌∙◌, arith, Bool, true, ◌&&◌, Option, none, some, List,
  [], ◌∷◌, ◌++◌, append_assoc, length, length-append, All, Reorders, if◌then◌else◌, if-true,
  list_eq, nat_eq, ==_refl,
}
use map_reduce_rpc.Prelude.Assoc.{Assoc, lookup, store, delete, lookup-delete}
use mathlib.Core.Path.{subst}
use map_reduce_rpc.Durable.Types.{Handle}
use map_reduce_rpc.Rpc.{MapReduceResultRequest, JobCompleteRequest}
use map_reduce_rpc.Master.State.{Master, JobMeta}
use map_reduce_rpc.Master.Submit.{
  results_of, key_prefix, result_key, SubmitIo, Submitted, submit_result, result_file_name,
  notify_coordinator, collate,
}
use map_reduce_rpc.Master.Submit.Completes.{
  received, has_all, is_complete, written_file, outcome, submit_result_lem,
}
use map_reduce_rpc.Master.Submit.Orders.{
  IsIndex, Differ, AreApart, Reorders-All, Reorders-AreApart, length-Reorders, collate-Reorders,
}
use map_reduce_rpc.Master.Submit.Job.{
  Job, add_notified, after_first, submit_all, key_of, stored, IsNew, still-IsNew, results_of-new,
  waits, absent_of_none, key_has_prefix,
}

add_notified-append :
    (n : Option JobCompleteRequest) (xs ys : List JobCompleteRequest)
    → add_notified n (xs ++ ys) ≡ add_notified n xs ++ ys
add_notified-append none xs ys = refl
add_notified-append (some n) xs ys = refl

-- The submissions before the last one, and then the last one.
abbrev then_last : Job → Submitted → Job
then_last j s = record {
  master = s.master;
  files = s.files;
  notified = j.notified ++ add_notified s.notified [];
}

submit_all-append :
    (io : SubmitIo) (rs : List MapReduceResultRequest) (r : MapReduceResultRequest) (m : Master)
    (files : Assoc (List ℕ) (List ℕ))
    → submit_all io (rs ++ r ∷ []) m files
      ≡ then_last
          (submit_all io rs m files)
          (submit_result io r (submit_all io rs m files).master (submit_all io rs m files).files)
unfolding submit_all
submit_all-append io [] r m files = refl
submit_all-append io (x ∷ rs) r m files =
    let s = submit_result io x m files in
    let j = submit_all io rs s.master s.files in
    let t = submit_result io r j.master j.files in
    ap (after_first s) (submit_all-append io rs r s.master s.files)
    ∙ ap
        (λ (l : List JobCompleteRequest). record {
          master = t.master;
          files = t.files;
          notified = l;
        })
        (add_notified-append s.notified j.notified (add_notified t.notified []))

split_last :
    (r : MapReduceResultRequest) (late : List MapReduceResultRequest)
    → (front : List MapReduceResultRequest) × (last : MapReduceResultRequest) × (r ∷ late
        ≡ front ++ last ∷ [])
split_last r [] = ([], r, refl)
split_last r (x ∷ late) =
    let (front, last, e) = split_last x late in (r ∷ front, last, ap (◌∷◌ r) e)

All-front :
    (P : MapReduceResultRequest → Type 0) (front back : List MapReduceResultRequest)
    → All P (front ++ back)
    → All P front
All-front P [] back h = tt
All-front P (c ∷ front) back (here, rest) = (here, All-front P front back rest)

apart_front : (front back : List MapReduceResultRequest) → AreApart (front ++ back) → AreApart front
apart_front [] back h = tt
apart_front (c ∷ front) back (differ, rest) =
    (All-front (Differ c) front back differ, apart_front front back rest)

module _ (handle : Handle) where
  -- The last result is new when all the others are in.
  last-IsNew :
      (front : List MapReduceResultRequest) (last : MapReduceResultRequest)
      (results : Assoc (List ℕ) MapReduceResultRequest)
      → All (IsNew handle results) (front ++ last ∷ [])
      → AreApart (front ++ last ∷ [])
      → IsNew handle (stored front results) last
  unfolding stored
  last-IsNew [] last results (here, rest) apart = here
  last-IsNew (c ∷ front) last results (here, new) (differ, apart) =
      last-IsNew front last (store (key_of c) c results)
        (subst
          (λ (h : Handle).
            All (IsNew handle (store (result_key h.id c.chunk_index) c results))
              (front ++ last ∷ []))
          (sym here.0) (still-IsNew handle c results (front ++ last ∷ []) here.1 differ new))
        apart

  completes_once :
      (io : SubmitIo) (job : JobMeta) (r : MapReduceResultRequest) (m : Master)
      (files : Assoc (List ℕ) (List ℕ)) (done : List MapReduceResultRequest) (bytes : List ℕ)
      → job.expected_chunks < 2 ^ 63
      → lookup handle.id m.jobs ≡ some job
      → results_of (key_prefix handle.id) m.results ≡ done
      → IsNew handle m.results r
      → length done + 1 ≡ job.expected_chunks
      → written_file io handle (done ++ r ∷ []) ≡ some bytes
      → submit_result io r m files ≡ record {
        master = record m {
          results = store (key_of r) r m.results;
          jobs = delete handle.id m.jobs;
        };
        files = store (result_file_name handle.id) bytes files;
        accepted = true;
        notified = notify_coordinator m handle;
      }
  completes_once io job r m files done bytes few tracked received_so_far new all_in written =
      let chunks : received r m ≡ done ++ r ∷ [] =
        ap (λ (h : Handle). results_of (key_prefix h.id) (store (key_of r) r m.results)) new.0
        ∙ results_of-new handle r m.results new
        ∙ ap (λ (l : List MapReduceResultRequest). l ++ r ∷ []) received_so_far in
      let count : length (received r m) ≡ length done + 1 =
        ap length chunks ∙ length-append done (r ∷ []) in
      let complete : is_complete r m ≡ true =
        ap (λ (h : Handle). has_all (lookup h.id m.jobs) (length (received r m))) new.0
        ∙ ap (λ (o : Option JobMeta). has_all o (length (received r m))) tracked
        ∙ (ground (arith, count, all_in, few)) in
      let m' : Master = record m { results = store (key_of r) r m.results } in
      submit_result_lem io r m files
      ∙ ap
          (λ (b : Bool).
            outcome r.handle m' files b
              (if b then written_file io r.handle (received r m) else none))
          complete
      ∙ ap (λ (h : Handle). outcome h m' files true (written_file io h (received r m))) new.0
      ∙ ap
          (λ (l : List MapReduceResultRequest).
            outcome handle m' files true (written_file io handle l))
          chunks
      ∙ ap (outcome handle m' files true) written

  All-IsNew :
      (results : Assoc (List ℕ) MapReduceResultRequest) (rs : List MapReduceResultRequest)
      → results_of (key_prefix handle.id) results ≡ []
      → All (λ r. r.handle ≡ handle) rs
      → All IsIndex rs
      → All (IsNew handle results) rs
  All-IsNew results [] none_there own small = tt
  All-IsNew results (r ∷ rs) none_there (here, own) (small, smalls) = (
    (
      here,
      small,
      absent_of_none (key_prefix handle.id) (result_key handle.id r.chunk_index) results
          (key_has_prefix handle.id r.chunk_index) none_there,
    ),
    All-IsNew results rs none_there own smalls,
  )

  -- All results of a job, the last one apart.
  completes :
      (io : SubmitIo) (job : JobMeta) (front : List MapReduceResultRequest)
      (last : MapReduceResultRequest) (m : Master) (files : Assoc (List ℕ) (List ℕ))
      (bytes : List ℕ)
      → job.expected_chunks < 2 ^ 63
      → lookup handle.id m.jobs ≡ some job
      → results_of (key_prefix handle.id) m.results ≡ []
      → All (IsNew handle m.results) (front ++ last ∷ [])
      → AreApart (front ++ last ∷ [])
      → length front + 1 ≡ job.expected_chunks
      → written_file io handle (front ++ last ∷ []) ≡ some bytes
      → submit_all io (front ++ last ∷ []) m files ≡ record {
        master = record m {
          results = store (key_of last) last (stored front m.results);
          jobs = delete handle.id m.jobs;
        };
        files = store (result_file_name handle.id) bytes files;
        notified = add_notified (notify_coordinator m handle) [];
      }
  completes io job front last m files bytes few tracked none_there new apart all_in written =
      let (waited, left) =
        waits handle io job few front m files [] tracked none_there
          (All-front (IsNew handle m.results) front (last ∷ []) new)
          (apart_front front (last ∷ []) apart) (omega (arith, all_in)) in
      submit_all-append io front last m files
      ∙ ap (λ (j : Job). then_last j (submit_result io last j.master j.files)) waited
      ∙ ap
          (λ (s : Submitted).
            then_last
              (record {
                master = record m { results = stored front m.results };
                files = files;
                notified = [];
              })
              s)
          (completes_once io job last (record m { results = stored front m.results }) files front
            bytes few tracked left (last-IsNew front last m.results new apart) all_in written)

-- A tracked job of which the master has no result yet is finished by the last of its results, in
-- whatever order they are submitted: its file then has the result that the same chunks collate to in
-- any other order, the job is no longer tracked, and the coordinator is told once. Until the last one
-- no file is written and nobody is told. The results are one for each chunk, and every call that the
-- last submission makes succeeds.
pub job_completes :
    (io : SubmitIo) (handle : Handle) (job : JobMeta) (m : Master) (files : Assoc (List ℕ) (List ℕ))
    (rs early late : List MapReduceResultRequest) (r : MapReduceResultRequest) (bytes : List ℕ)
    → lookup handle.id m.jobs ≡ some job
    → job.expected_chunks ≡ length rs
    → length rs < 2 ^ 63
    → results_of (key_prefix handle.id) m.results ≡ []
    → All (λ c. c.handle ≡ handle) rs
    → All IsIndex rs
    → AreApart rs
    → Reorders rs (early ++ r ∷ late)
    → (io.mkdir && io.create && io.rename) ≡ true
    → io.encode (collate handle rs) ≡ some bytes
    → ((submit_all io early m files).files ≡ files)
      × ((submit_all io early m files).notified ≡ [])
      × ((submit_all io (early ++ r ∷ late) m files).files
          ≡ store (result_file_name handle.id) bytes files)
      × ((submit_all io (early ++ r ∷ late) m files).notified
          ≡ add_notified (notify_coordinator m handle) [])
      × (lookup handle.id (submit_all io (early ++ r ∷ late) m files).master.jobs ≡ none)
job_completes io handle job m files rs early late r bytes tracked expected few none_there own small
      apart other sound encodes =
    let ds = early ++ r ∷ late in
    let new =
      All-IsNew handle m.results ds none_there
        (Reorders-All (λ c. c.handle ≡ handle) rs ds other own)
        (Reorders-All IsIndex rs ds other small) in
    let apart' = Reorders-AreApart rs ds other apart in
    let count = length-Reorders rs ds other in
    let (back, last, splits) = split_last r late in
    let front = early ++ back in
    let whole : ds ≡ front ++ last ∷ [] =
      ap (◌++◌ early) splits ∙ sym (append_assoc early back (last ∷ [])) in
    let fits : job.expected_chunks < 2 ^ 63 = omega (arith, expected, few) in
    let all_in : length front + 1 ≡ job.expected_chunks =
      sym (length-append front (last ∷ [])) ∙ ap length (sym whole) ∙ count ∙ sym expected in
    let written : written_file io handle (front ++ last ∷ []) ≡ some bytes =
      if-true sound none
      ∙ ap io.encode
          (ap (collate handle) (sym whole) ∙ collate-Reorders handle rs ds other small apart)
      ∙ encodes in
    let done =
      ap (λ (l : List MapReduceResultRequest). submit_all io l m files) whole
      ∙ completes handle io job front last m files bytes fits tracked none_there (rw whole at new)
          (rw whole at apart') all_in written in
    let some_left : length early + 1 ≤ length ds = omega (arith, length-append early (r ∷ late)) in
    let (waited, left) =
      waits handle io job fits early m files [] tracked none_there
        (All-front (IsNew handle m.results) early (r ∷ late) new)
        (apart_front early (r ∷ late) apart') (omega (arith, some_left, count, expected)) in
    (
      ap (λ (j : Job). j.files) waited,
      ap (λ (j : Job). j.notified) waited,
      ap (λ (j : Job). j.files) done,
      ap (λ (j : Job). j.notified) done,
      ap (λ (j : Job). lookup handle.id j.master.jobs) done
          ∙ lookup-delete handle.id handle.id m.jobs
          ∙ if-true (==_refl handle.id) _,
    )
