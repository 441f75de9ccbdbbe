-- ===== src/Coordinator/Poll.antt =====
-- `startMapReduce`, `runMapReduceForHandle`, `RPCTriggerProcessing` and the tick of the polling loop of
-- mrp/coordinator.go.
pub mod Releases
use map_reduce_rpc.Prelude.{
  ℕ, Bool, true, false, ◌&&◌, not, Option, none, some, List, [], ◌∷◌, length, eqb, if◌then◌else◌,
  list_beq, nat_eq, list_eq,
}
use map_reduce_rpc.Prelude.Text.{codes}
use map_reduce_rpc.Prelude.Trim.{trim_space}
use map_reduce_rpc.Durable.Types.{Handle}
use map_reduce_rpc.Durable.Disk.{Disk, Os}
use map_reduce_rpc.Durable.Buffer.{DurableBuffer, release_processing_handle}
use map_reduce_rpc.Durable.Registry.{get_uploaded_handles}
use map_reduce_rpc.Rpc.{StartMapReduceRequest, StartMapReduceReply}
use map_reduce_rpc.Coordinator.Upload.{Coordinator, DfsClient, Uploaded, upload_file_to_storage}

-- The answer to a call of `Master.RPCStartMapReduce`.
pub data MasterAnswer : Type 0 where
  dial_failed call_failed : MasterAnswer
  replied : StartMapReduceReply → MasterAnswer

abbrev started : MasterAnswer → Bool
started MasterAnswer.dial_failed = false
started MasterAnswer.call_failed = false
started (MasterAnswer.replied reply) = not (list_beq reply.status (codes "error"))

-- `runMapReduceForHandle`: whether there is no error. A partial dispatch is none.
unfoldable pub run_map_reduce_for_handle :
    (StartMapReduceRequest → MasterAnswer) → List ℕ → List ℕ → Handle → Bool
run_map_reduce_for_handle call_master master_address plugin handle =
    not (eqb (length (trim_space master_address)) 0)
    && started (call_master (record { handle = handle; plugin = plugin }))

-- The loop of `startMapReduce`, which releases the handles that fail; the flag: none has.
unfoldable pub start_loop : (Handle → Bool) → List Handle → DurableBuffer → DurableBuffer × Bool
start_loop runs [] d = (d, true)
start_loop runs (h ∷ hs) d =
    let (d', ok) = start_loop runs hs (if runs h then d else release_processing_handle h d) in
    (d', runs h && ok)

-- `startMapReduce`, with the reading of the clock.
unfoldable pub start_map_reduce :
    ℕ → (StartMapReduceRequest → MasterAnswer) → List ℕ → Coordinator → Coordinator × Bool
start_map_reduce now call_master plugin c =
    let (d, handles) = get_uploaded_handles now c.durable_log in
    let (d', ok) =
      start_loop (run_map_reduce_for_handle call_master c.master_address plugin) handles d in
    (record c { durable_log = d' }, ok)

pub data Triggered : Type 0 where
  upload_failed dispatch_failed success : Triggered

abbrev dispatched : Coordinator × Bool → Disk → Coordinator × Disk × Triggered
dispatched (c, ok) disk = (c, disk, if ok then success else dispatch_failed)

abbrev after_upload :
    ℕ
    → (StartMapReduceRequest → MasterAnswer)
    → List ℕ
    → Coordinator
    → Option Uploaded
    → Option (Coordinator × Disk × Triggered)
after_upload now call_master plugin c none = none
after_upload now call_master plugin c (some u) =
    if u.ok
    then some (
        dispatched (start_map_reduce now call_master plugin (record c { durable_log = u.log }))
          u.disk)
    else some (record c { durable_log = u.log }, u.disk, upload_failed)

-- `RPCTriggerProcessing`: nothing is dispatched after an upload with an error.
unfoldable pub trigger_processing :
    Os
    → ℕ
    → ℕ
    → ℕ
    → DfsClient
    → (Handle → Bool)
    → List ℕ
    → (StartMapReduceRequest → MasterAnswer)
    → List ℕ
    → Coordinator
    → Disk
    → Option (Coordinator × Disk × Triggered)
trigger_processing os now later last client is_done prefix call_master plugin c disk =
    after_upload last call_master plugin c
      (upload_file_to_storage os now later client is_done prefix c disk)

abbrev dispatched_tick : Coordinator × Bool → Disk → Coordinator × Disk
dispatched_tick (c, ok) disk = (c, disk)

abbrev tick_uploaded :
    ℕ
    → (StartMapReduceRequest → MasterAnswer)
    → Coordinator
    → Option Uploaded
    → Option (Coordinator × Disk)
tick_uploaded now call_master c none = none
tick_uploaded now call_master c (some u) = some (
    dispatched_tick (start_map_reduce now call_master [] (record c { durable_log = u.log })) u.disk)

-- A tick of the polling loop of `Start`: both errors are only logged.
unfoldable pub poll_tick :
    Os
    → ℕ
    → ℕ
    → ℕ
    → DfsClient
    → (Handle → Bool)
    → List ℕ
    → (StartMapReduceRequest → MasterAnswer)
    → Coordinator
    → Disk
    → Option (Coordinator × Disk)
poll_tick os now later last client is_done prefix call_master c disk =
    tick_uploaded last call_master c
      (upload_file_to_storage os now later client is_done prefix c disk)
