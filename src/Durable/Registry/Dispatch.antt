-- ===== src/Durable/Registry/Dispatch.antt =====
-- `GetUploadedHandles`: every uploaded handle is given out once, until it is released or its time is up.
use map_reduce_rpc.Prelude.{
  ◌+◌, ◌≡◌, ◌<◌, ◌≤◌, ◌^◌, refl, ◌∙◌, arith, Bool, true, false, ◌&&◌, Option, none, some, ℕ, [],
  ◌∷◌, if◌then◌else◌, ==_iff, ==_refl, nat_eq, list_eq,
}
use map_reduce_rpc.Prelude.Assoc.{Assoc, lookup, store, lookup-store, lookup-delete, is_some}
use map_reduce_rpc.Prelude.Words.{slt64, sub64}
use map_reduce_rpc.Utils.MapLaws.{IsMap}
use map_reduce_rpc.Utils.Slices.{contains}
use map_reduce_rpc.Durable.Types.{Handle, handle_eq}
use map_reduce_rpc.Durable.Buffer.{
  DurableBuffer, older_than, is_handle_uploaded, release_processing_handle,
}
use map_reduce_rpc.Durable.Registry.{dispatch_known, dispatch_loop, get_uploaded_handles}
use map_reduce_rpc.Durable.Registry.Order.{IsSorted, sort_handles-IsSorted, contains-sort_handles}

-- A handle that was not given out, or more than `ttl` before now, as signed 64-bit numbers.
abbrev is_free : ℕ → ℕ → Option ℕ → Bool
is_free now ttl none = true
is_free now ttl (some since) = slt64 ttl (sub64 now since)

-- Whether a handle is due: uploaded, and not given out or given out too long ago.
abbrev pub is_due : ℕ → ℕ → Handle → Assoc Handle ℕ → Assoc Handle ℕ → Bool
is_due now ttl h uploaded processing =
    is_some (lookup h uploaded) && is_free now ttl (lookup h processing)

dispatch_known-is_free : (now ttl : ℕ) (o : Option ℕ) → dispatch_known now ttl o ≡ is_free now ttl o
dispatch_known-is_free now ttl none = refl
dispatch_known-is_free now ttl (some since) = refl

dispatch_loop-handles :
    (now ttl : ℕ) (uploaded processing : Assoc Handle ℕ) (k : Handle)
    → IsMap uploaded
    → contains (dispatch_loop now ttl uploaded processing).1 k
      ≡ is_due now ttl k uploaded processing
unfolding dispatch_loop lookup contains
dispatch_loop-handles now ttl [] processing k once = refl
dispatch_loop-handles now ttl ((h, t) ∷ uploaded) processing k (here, once) = ground (
  arith,
  dispatch_loop-handles now ttl uploaded processing k once,
  dispatch_loop-handles now ttl uploaded (store h now processing) k once,
  lookup-store h k now processing,
  ==_iff h k,
  dispatch_known-is_free now ttl (lookup h processing),
)

dispatch_loop-processing :
    (now ttl : ℕ) (uploaded processing : Assoc Handle ℕ) (k : Handle)
    → IsMap uploaded
    → lookup k (dispatch_loop now ttl uploaded processing).0
      ≡ (if is_due now ttl k uploaded processing then some now else lookup k processing)
unfolding dispatch_loop lookup
dispatch_loop-processing now ttl [] processing k once = refl
dispatch_loop-processing now ttl ((h, t) ∷ uploaded) processing k (here, once) = ground (
  arith,
  dispatch_loop-processing now ttl uploaded processing k once,
  dispatch_loop-processing now ttl uploaded (store h now processing) k once,
  lookup-store h k now processing,
  ==_iff h k,
  dispatch_known-is_free now ttl (lookup h processing),
)

-- A call gives out exactly the handles that are due, sorted, and notes the time at each of them; no
-- other entry changes.
pub get_uploaded_handles_lem :
    (now : ℕ) (d : DurableBuffer) (h : Handle)
    → IsMap d.uploaded_handles
    → IsSorted (get_uploaded_handles now d).1
      × (contains (get_uploaded_handles now d).1 h
          ≡ is_due now d.processing_handle_ttl h d.uploaded_handles d.processing_handles)
      × (lookup h (get_uploaded_handles now d).0.processing_handles ≡ (
          if is_due now d.processing_handle_ttl h d.uploaded_handles d.processing_handles
          then some now
          else lookup h d.processing_handles))
unfolding get_uploaded_handles
get_uploaded_handles_lem now d h once = (
  sort_handles-IsSorted _,
  contains-sort_handles _ h
      ∙ dispatch_loop-handles now d.processing_handle_ttl d.uploaded_handles d.processing_handles h
          once,
  dispatch_loop-processing now d.processing_handle_ttl d.uploaded_handles d.processing_handles h
      once,
)

get_uploaded_handles-uploaded :
    (now : ℕ) (d : DurableBuffer)
    → IsMap d.uploaded_handles
    → IsMap (get_uploaded_handles now d).0.uploaded_handles
unfolding get_uploaded_handles
get_uploaded_handles-uploaded now d once = once

not_due :
    (now ttl since : ℕ) (h : Handle) (uploaded processing : Assoc Handle ℕ)
    → lookup h processing ≡ some since
    → older_than now since ttl ≡ false
    → is_due now ttl h uploaded processing ≡ false
not_due now ttl since h uploaded processing e young = ground arith

young_enough :
    (now later : ℕ) (d : DurableBuffer)
    → now ≤ later
    → later < 2 ^ 63
    → d.processing_handle_ttl < 2 ^ 63
    → later ≤ now + d.processing_handle_ttl
    → older_than later now (get_uploaded_handles now d).0.processing_handle_ttl ≡ false
unfolding get_uploaded_handles
young_enough now later d order small_later small_ttl near = ground arith

-- A handle that was just given out is not given out again before its time is up.
pub get_uploaded_handles_once :
    (now later : ℕ) (d : DurableBuffer) (h : Handle)
    → IsMap d.uploaded_handles
    → now ≤ later
    → later < 2 ^ 63
    → d.processing_handle_ttl < 2 ^ 63
    → later ≤ now + d.processing_handle_ttl
    → contains (get_uploaded_handles now d).1 h ≡ true
    → contains (get_uploaded_handles later (get_uploaded_handles now d).0).1 h ≡ false
get_uploaded_handles_once now later d h once order small_later small_ttl near given =
    let (sorted, due, noted) = get_uploaded_handles_lem now d h once in
    let marked : lookup h (get_uploaded_handles now d).0.processing_handles ≡ some now =
      ground (arith, due, noted, given) in
    let (sorted', due', noted') =
      get_uploaded_handles_lem later (get_uploaded_handles now d).0 h
        (get_uploaded_handles-uploaded now d once) in
    due'
    ∙ not_due later (get_uploaded_handles now d).0.processing_handle_ttl now h _ _ marked
        (young_enough now later d order small_later small_ttl near)

-- Releasing a handle, which is what the end of a job does, makes it due at once as long as it stands in
-- the registry of uploaded handles: the next poll gives the finished job out again.
pub release_redispatches :
    (now : ℕ) (d : DurableBuffer) (h : Handle)
    → IsMap d.uploaded_handles
    → contains (get_uploaded_handles now (release_processing_handle h d)).1 h
      ≡ is_handle_uploaded h d
unfolding release_processing_handle is_handle_uploaded
release_redispatches now d h once =
    let (sorted, due, noted) =
      get_uploaded_handles_lem now (release_processing_handle h d) h once in
    due ∙ ground (arith, lookup-delete h h d.processing_handles, ==_refl h)
