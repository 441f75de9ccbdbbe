-- ===== src/Master/Submit/Job.antt =====
-- The submissions of a job, and what they leave before the last one.
pub mod Last
use map_reduce_rpc.Prelude.{
  ℕ, suc, ◌+◌, ◌^◌, ◌<◌, ◌≤◌, ◌≡◌, refl, sym, ap, ◌∙◌, arith, Bool, true, false, ◌&&◌, Option, none,
  some, List, [], ◌∷◌, ◌++◌, append-nil, append_assoc, length, length-append, eqb, ltb, All,
  if◌then◌else◌, if-true, if-false, Bool-cases, inl, inr, ==_iff, ◌==◌, list_eq, nat_eq,
}
use map_reduce_rpc.Prelude.Words.{slt64}
use map_reduce_rpc.Prelude.Assoc.{Assoc, lookup, store, delete, lookup-store, lookup-delete}
use map_reduce_rpc.Prelude.Text.{decimal, digits_value, decimal-value, strip_prefix}
use map_reduce_rpc.Prelude.Trim.{has_prefix}
use mathlib.Core.Path.{subst}
use map_reduce_rpc.Durable.Types.{Handle}
use map_reduce_rpc.Durable.Names.{int_text}
use map_reduce_rpc.Rpc.{MapReduceResultRequest, JobCompleteRequest}
use map_reduce_rpc.Master.State.{Master, JobMeta}
use map_reduce_rpc.Master.Submit.{
  results_of, key_prefix, result_key, SubmitIo, Submitted, submit_result, result_file_name,
  notify_coordinator, collate,
}
use map_reduce_rpc.Master.Submit.Keys.{own_prefix}
use map_reduce_rpc.Master.Submit.Completes.{
  received, has_all, is_complete, written_file, outcome, submit_result_lem,
}
use map_reduce_rpc.Master.Submit.Orders.{IsIndex, Differ, AreApart}

-- What submissions leave, one after the other: the files, and the notifications in their order.
pub record Job : Type 0 where
  pub master : Master
  pub files : Assoc (List ℕ) (List ℕ)
  pub notified : List JobCompleteRequest

abbrev pub add_notified :
    Option JobCompleteRequest → List JobCompleteRequest → List JobCompleteRequest
add_notified none notified = notified
add_notified (some n) notified = n ∷ notified

abbrev pub after_first : Submitted → Job → Job
after_first s j = record j { notified = add_notified s.notified j.notified }

unfoldable pub submit_all :
    SubmitIo → List MapReduceResultRequest → Master → Assoc (List ℕ) (List ℕ) → Job
submit_all io [] m files = record { master = m; files = files; notified = [] }
submit_all io (r ∷ rs) m files =
    let s = submit_result io r m files in after_first s (submit_all io rs s.master s.files)

abbrev pub key_of : MapReduceResultRequest → List ℕ
key_of r = result_key r.handle.id r.chunk_index

unfoldable pub stored :
    List MapReduceResultRequest
    → Assoc (List ℕ) MapReduceResultRequest
    → Assoc (List ℕ) MapReduceResultRequest
stored [] results = results
stored (r ∷ rs) results = stored rs (store (key_of r) r results)

int_text-value : (n : ℕ) → n < 2 ^ 63 → digits_value (int_text n) ≡ n
unfolding int_text
int_text-value n small =
    let below : ltb n (2 ^ 63) ≡ true = ground arith in rw below (decimal-value n (omega arith))

-- Results of different chunks have different keys.
result_key-differs :
    (id : ℕ) (c d : MapReduceResultRequest)
    → IsIndex c
    → IsIndex d
    → Differ c d
    → (result_key id c.chunk_index == result_key id d.chunk_index) ≡ false
result_key-differs id c d small small' differ =
    elim (Bool-cases (result_key id c.chunk_index == result_key id d.chunk_index)) [
      | inr other ↦ other
      | inl same ↦
          let texts : some (int_text c.chunk_index) ≡ some (int_text d.chunk_index) =
            sym (own_prefix id c.chunk_index)
            ∙ ap (strip_prefix (key_prefix id)) ((==_iff _ _).0 same)
            ∙ own_prefix id d.chunk_index in
          let indices : c.chunk_index ≡ d.chunk_index =
            sym (int_text-value c.chunk_index small)
            ∙ ap (λ (t : Option (List ℕ)). value_of t) texts
            ∙ int_text-value d.chunk_index small' in
          absurd (ground (arith, indices, differ))
    ]
  where
    value_of : Option (List ℕ) → ℕ
    value_of none = 0
    value_of (some t) = digits_value t

-- A key that is not there yet goes to the end.
results_of-store_new :
    (prefix key : List ℕ) (r : MapReduceResultRequest)
    (results : Assoc (List ℕ) MapReduceResultRequest)
    → has_prefix key prefix ≡ true
    → lookup key results ≡ none
    → results_of prefix (store key r results) ≡ results_of prefix results ++ r ∷ []
unfolding results_of store lookup
results_of-store_new prefix key r [] own absent = if-true own _
results_of-store_new prefix key r ((j, old) ∷ results) own absent = elim (Bool-cases (j == key)) [
  | inl same ↦ absurd (ground (arith, (rw same at absent)))
  | inr other ↦
      let rest = results_of-store_new prefix key r results own (rw other at absent) in
      rw other (elim (Bool-cases (has_prefix j prefix)) [
        | inl counted ↦ rw counted (ap (◌∷◌ old) rest)
        | inr not_counted ↦ rw not_counted rest
      ])
]

absent_of_none :
    (prefix key : List ℕ) (results : Assoc (List ℕ) MapReduceResultRequest)
    → has_prefix key prefix ≡ true
    → results_of prefix results ≡ []
    → lookup key results ≡ none
unfolding results_of lookup
absent_of_none prefix key [] own none_there = refl
absent_of_none prefix key ((j, old) ∷ results) own none_there =
    elim (Bool-cases (has_prefix j prefix)) [
      | inl counted ↦ absurd (ground (arith, (rw counted at none_there)))
      | inr not_counted ↦ elim (Bool-cases (j == key)) [
        | inl same ↦
            let counted : has_prefix j prefix ≡ true =
              ap (λ (k : List ℕ). has_prefix k prefix) ((==_iff j key).0 same) ∙ own in
            absurd (ground (arith, not_counted, counted))
        | inr other ↦
            rw other (absent_of_none prefix key results own (rw not_counted at none_there))
      ]
    ]

key_has_prefix :
    (id chunk_index : ℕ) → has_prefix (result_key id chunk_index) (key_prefix id) ≡ true
unfolding has_prefix
key_has_prefix id chunk_index = rw (own_prefix id chunk_index) refl

module _ (handle : Handle) where
  -- A result of the handle that the master does not have.
  abbrev pub IsNew : Assoc (List ℕ) MapReduceResultRequest → MapReduceResultRequest → Type 0
  IsNew results r =
      (r.handle ≡ handle) × IsIndex r × (lookup (result_key handle.id r.chunk_index) results ≡ none)

  pub still-IsNew :
      (c : MapReduceResultRequest) (results : Assoc (List ℕ) MapReduceResultRequest)
      (rs : List MapReduceResultRequest)
      → IsIndex c
      → All (Differ c) rs
      → All (IsNew results) rs
      → All (IsNew (store (result_key handle.id c.chunk_index) c results)) rs
  still-IsNew c results [] small differ new = tt
  still-IsNew c results (r ∷ rs) small (first, differ) ((own, small', absent), new) =
      let other = result_key-differs handle.id c r small small' first in
      (
        (
          own,
          small',
          lookup-store (result_key handle.id c.chunk_index) (result_key handle.id r.chunk_index) c
                results
              ∙ rw other absent,
        ),
        still-IsNew c results rs small differ new,
      )

  pub results_of-new :
      (r : MapReduceResultRequest) (results : Assoc (List ℕ) MapReduceResultRequest)
      → IsNew results r
      → results_of (key_prefix handle.id) (store (key_of r) r results)
        ≡ results_of (key_prefix handle.id) results ++ r ∷ []
  results_of-new r results (own, small, absent) =
      ap
        (λ (h : Handle).
          results_of (key_prefix handle.id) (store (result_key h.id r.chunk_index) r results))
        own
      ∙ results_of-store_new (key_prefix handle.id) (result_key handle.id r.chunk_index) r results
          (key_has_prefix handle.id r.chunk_index) absent

  -- Before its last result a job waits.
  module _ (io : SubmitIo) (job : JobMeta) (few : job.expected_chunks < 2 ^ 63) where
    waits_once :
        (r : MapReduceResultRequest) (m : Master) (files : Assoc (List ℕ) (List ℕ))
        (done : List MapReduceResultRequest)
        → lookup handle.id m.jobs ≡ some job
        → results_of (key_prefix handle.id) m.results ≡ done
        → IsNew m.results r
        → length done + 1 < job.expected_chunks
        → submit_result io r m files ≡ record {
          master = record m { results = store (key_of r) r m.results };
          files = files;
          accepted = true;
          notified = none;
        }
    waits_once r m files done tracked received_so_far new some_left =
        let count : length (received r m) ≡ length done + 1 =
          ap (λ (h : Handle). length (results_of (key_prefix h.id) (store (key_of r) r m.results)))
            new.0
          ∙ ap length (results_of-new r m.results new)
          ∙ length-append (results_of (key_prefix handle.id) m.results) (r ∷ [])
          ∙ ap (λ (l : List MapReduceResultRequest). length l + 1) received_so_far in
        let waiting : is_complete r m ≡ false =
          ap (λ (h : Handle). has_all (lookup h.id m.jobs) (length (received r m))) new.0
          ∙ ap (λ (o : Option JobMeta). has_all o (length (received r m))) tracked
          ∙ (ground (arith, count, some_left, few)) in
        submit_result_lem io r m files
        ∙ ap
            (λ (b : Bool).
              outcome r.handle (record m { results = store (key_of r) r m.results }) files b
                (if b then written_file io r.handle (received r m) else none))
            waiting

    pub waits :
        (rs : List MapReduceResultRequest) (m : Master) (files : Assoc (List ℕ) (List ℕ))
        (done : List MapReduceResultRequest)
        → lookup handle.id m.jobs ≡ some job
        → results_of (key_prefix handle.id) m.results ≡ done
        → All (IsNew m.results) rs
        → AreApart rs
        → length done + length rs < job.expected_chunks
        → (submit_all io rs m files ≡ record {
          master = record m { results = stored rs m.results };
          files = files;
          notified = [];
        })
          × (results_of (key_prefix handle.id) (stored rs m.results) ≡ done ++ rs)
    unfolding submit_all stored
    waits [] m files done tracked received_so_far new apart some_left =
        (refl, received_so_far ∙ sym (append-nil done))
    waits (r ∷ rs) m files done tracked received_so_far (here, new) (differ, apart) some_left =
        let m' : Master = record m { results = store (key_of r) r m.results } in
        let received_now =
          results_of-new r m.results here
          ∙ ap (λ (l : List MapReduceResultRequest). l ++ r ∷ []) received_so_far in
        let new' =
          subst (λ (h : Handle). All (IsNew (store (result_key h.id r.chunk_index) r m.results)) rs)
            (sym here.0) (still-IsNew r m.results rs here.1 differ new) in
        let (waits_on, left) =
          waits rs m' files (done ++ r ∷ []) tracked received_now new' apart
            (omega (arith, length-append done (r ∷ []), some_left)) in
        (
          ap (λ (s : Submitted). after_first s (submit_all io rs s.master s.files))
                (waits_once r m files done tracked received_so_far here (omega (arith, some_left)))
              ∙ ap (λ (j : Job). record j { notified = add_notified none j.notified }) waits_on,
          left ∙ append_assoc done (r ∷ []) rs,
        )
