-- ===== src/Durable/Retention.antt =====
-- The periodic work of `monitor` in mrp/durable_buffer.go: `cleanup`, `performLogDeletion`,
-- `pruneUploadedHandles`, and the shutdown by `Close`.
pub mod Deletes
use map_reduce_rpc.Prelude.{
  ℕ, Bool, true, false, ◌&&◌, Option, none, some, List, [], ◌∷◌, if◌then◌else◌, list_eq, nat_eq,
}
use map_reduce_rpc.Prelude.Words.{sub64, slt64}
use map_reduce_rpc.Prelude.Assoc.{Assoc, lookup, delete}
use map_reduce_rpc.Durable.Types.{Handle, handle_eq, Error}
use map_reduce_rpc.Durable.Names.{is_download_log_file, parse_handle}
use map_reduce_rpc.Durable.Disk.{Disk, Os, File}
use map_reduce_rpc.Durable.Buffer.{
  DurableBuffer, is_handle_uploaded, older_than, prune_processing_handles,
}
use map_reduce_rpc.Durable.Sync.{flush}
use map_reduce_rpc.Durable.Registry.{save_uploaded_handles}

unfoldable pub prune_loop : ℕ → ℕ → Assoc Handle ℕ → DurableBuffer → DurableBuffer
prune_loop now ttl [] d = d
prune_loop now ttl ((h, uploaded_at) ∷ m) d = prune_loop now ttl m (
    if older_than now uploaded_at ttl
    then record d {
      uploaded_handles = delete h d.uploaded_handles;
      processing_handles = delete h d.processing_handles;
    }
    else d)

-- `pruneUploadedHandles`, with the readings of the clock by it and by `saveUploadedHandles`.
unfoldable pub prune_uploaded_handles : Os → ℕ → ℕ → DurableBuffer → Disk → DurableBuffer × Disk
prune_uploaded_handles os now later d disk =
    let d' = prune_loop now d.uploaded_handle_ttl d.uploaded_handles d in
    (d', save_uploaded_handles os later d' disk)

abbrev pub is_uploaded_log : Option Handle → DurableBuffer → Bool
is_uploaded_log none d = false
is_uploaded_log (some h) d = is_handle_uploaded h d

-- The guards of `performLogDeletion` on a file, in their order.
abbrev pub is_deletable : Os → ℕ → DurableBuffer → List ℕ × File → Bool
is_deletable os threshold d (name, file) =
    is_download_log_file name
    && is_uploaded_log (parse_handle name) d
    && os.info name
    && slt64 file.mod_time threshold

abbrev pub forget : Option Handle → DurableBuffer → DurableBuffer
forget none d = d
forget (some h) d = record d { uploaded_handles = delete h d.uploaded_handles }

unfoldable pub deletion_loop : Os → ℕ → Disk → DurableBuffer → Disk → DurableBuffer × Disk
deletion_loop os threshold [] d disk = (d, disk)
deletion_loop os threshold (f ∷ files) d disk =
    let removes = is_deletable os threshold d f && os.remove f.0 in
    deletion_loop os threshold files (if removes then forget (parse_handle f.0) d else d)
      (if removes then delete f.0 disk else disk)

-- `performLogDeletion`, with its reading of the clock and those of `pruneUploadedHandles`. When the
-- directory cannot be read nothing is pruned.
unfoldable pub perform_log_deletion : Os → ℕ → ℕ → ℕ → DurableBuffer → Disk → DurableBuffer × Disk
perform_log_deletion os now later last d disk =
    if os.read_dir
    then (let (d', disk') = deletion_loop os (sub64 now d.log_deletion_duration) disk d disk in
        prune_uploaded_handles os later last d' disk')
    else (d, disk)

abbrev cleanup_rest :
    Os → ℕ → ℕ → Option (DurableBuffer × Disk × Option Error) → Option (DurableBuffer × Disk)
cleanup_rest os now later none = none
cleanup_rest os now later (some (d, disk, err)) =
    let d' = prune_processing_handles now d in some (d', save_uploaded_handles os later d' disk)

-- `cleanup`: an error of the flush is only logged.
unfoldable pub cleanup : Os → ℕ → ℕ → DurableBuffer → Disk → Option (DurableBuffer × Disk)
cleanup os now later d disk = cleanup_rest os now later (flush os d disk)

-- What wakes the loop of `monitor`, with what the operating system and the clock then answer.
pub data Wake : Type 0 where
  cleanup_tick : Os → ℕ → ℕ → Wake
  deletion_tick : Os → ℕ → ℕ → ℕ → Wake
  shutdown : Os → ℕ → ℕ → Wake

abbrev pub ends : Wake → Bool
ends (Wake.cleanup_tick os now later) = false
ends (Wake.deletion_tick os now later last) = false
ends (Wake.shutdown os now later) = true

unfoldable pub monitor_step : Wake → DurableBuffer → Disk → Option (DurableBuffer × Disk)
monitor_step (Wake.cleanup_tick os now later) d disk = cleanup os now later d disk
monitor_step (Wake.deletion_tick os now later last) d disk =
    some (perform_log_deletion os now later last d disk)
monitor_step (Wake.shutdown os now later) d disk = cleanup os now later d disk

-- `Close`: the flag is set once; only the first call shuts the monitor down and waits for it.
unfoldable pub close : Os → ℕ → ℕ → DurableBuffer → Disk → Option (DurableBuffer × Disk)
close os now later d disk =
    if d.closed
    then some (d, disk)
    else monitor_step (Wake.shutdown os now later) (record d { closed = true }) disk
