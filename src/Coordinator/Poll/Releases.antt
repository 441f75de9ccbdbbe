-- ===== src/Coordinator/Poll/Releases.antt =====
-- What `startMapReduce` leaves of the handles that it takes.
use map_reduce_rpc.Prelude.{
  ℕ, ◌≡◌, refl, ◌∙◌, arith, Bool, ◌&&◌, not, none, some, List, [], ◌∷◌, if◌then◌else◌, Bool-cases,
  inl, inr, ==_iff, nat_eq, list_eq,
}
use map_reduce_rpc.Prelude.Assoc.{lookup, lookup-delete}
use map_reduce_rpc.Utils.Slices.{contains}
use map_reduce_rpc.Utils.MapLaws.{IsMap}
use map_reduce_rpc.Durable.Types.{Handle, handle_eq}
use map_reduce_rpc.Durable.Buffer.{DurableBuffer, release_processing_handle}
use map_reduce_rpc.Durable.Registry.{get_uploaded_handles}
use map_reduce_rpc.Durable.Registry.Dispatch.{is_due, get_uploaded_handles_lem}
use map_reduce_rpc.Rpc.{StartMapReduceRequest}
use map_reduce_rpc.Coordinator.Upload.{Coordinator}
use map_reduce_rpc.Coordinator.Poll.{
  MasterAnswer, run_map_reduce_for_handle, start_loop, start_map_reduce,
}

start_loop-lookup :
    (runs : Handle → Bool) (hs : List Handle) (d : DurableBuffer) (g : Handle)
    → lookup g (start_loop runs hs d).0.processing_handles
      ≡ (if contains hs g && not (runs g) then none else lookup g d.processing_handles)
unfolding start_loop contains release_processing_handle
start_loop-lookup runs [] d g = refl
start_loop-lookup runs (h ∷ hs) d g = elim (Bool-cases (runs h)) [
  | inl ok ↦ rw ok (start_loop-lookup runs hs d g ∙ ground (arith, ==_iff h g, ok))
  | inr fails ↦ rw fails (
      start_loop-lookup runs hs (release_processing_handle h d) g
      ∙ ground (arith, lookup-delete h g d.processing_handles, ==_iff h g, fails))
]

-- A poll takes every handle that is due. One that the master takes is noted with the time, and one that
-- fails is released at once. Handles that are not due are left alone.
pub start_map_reduce_lem :
    (now : ℕ) (call_master : StartMapReduceRequest → MasterAnswer) (plugin : List ℕ)
    (c : Coordinator) (g : Handle)
    → IsMap c.durable_log.uploaded_handles
    → lookup g (start_map_reduce now call_master plugin c).0.durable_log.processing_handles ≡ (
        if is_due now c.durable_log.processing_handle_ttl g c.durable_log.uploaded_handles
          c.durable_log.processing_handles
        then (if run_map_reduce_for_handle call_master c.master_address plugin g
            then some now
            else none)
        else lookup g c.durable_log.processing_handles)
unfolding start_map_reduce
start_map_reduce_lem now call_master plugin c g once =
    let (sorted, due, noted) = get_uploaded_handles_lem now c.durable_log g once in
    start_loop-lookup (run_map_reduce_for_handle call_master c.master_address plugin)
      (get_uploaded_handles now c.durable_log).1 (get_uploaded_handles now c.durable_log).0 g
    ∙ ground (arith, due, noted)
