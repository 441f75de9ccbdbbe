-- ===== src/Durable/Sync.antt =====
-- `Flush` of mrp/durable_buffer.go: `syncLogToFile` and `syncContentsToFile`.
pub mod Files
pub mod Refine
use map_reduce_rpc.Prelude.{
  ℕ, zero, suc, ◌+◌, Bool, true, false, ◌||◌, Option, none, some, List, [], ◌∷◌, ◌++◌, eqb,
  if◌then◌else◌, list_eq, nat_eq,
}
use map_reduce_rpc.Prelude.Assoc.{Assoc, lookup, store}
use map_reduce_rpc.RingBuffer.{RingBuffer, cap, drain}
use map_reduce_rpc.Durable.Types.{Handle, Content, Error, mkdir_failed}
use map_reduce_rpc.Durable.Codec.{build_log_content}
use map_reduce_rpc.Durable.Names.{log_file_name}
use map_reduce_rpc.Durable.Disk.{Disk, Os, write_to_file}
use map_reduce_rpc.Durable.Buffer.{DurableBuffer, is_handle_expired}

abbrev pub or_empty : Option (List ℕ) → List ℕ
or_empty none = []
or_empty (some bytes) = bytes

-- What the first loop of `syncContentsToFile` leaves out.
abbrev pub skips : ℕ → DurableBuffer → Content → Bool
skips now d entry = eqb entry.id.id 0 || is_handle_expired now entry.id d

-- `fileBuffers[fileName].Write(logContent)`
unfoldable pub add_content : Content → Assoc (List ℕ) (List ℕ) → Assoc (List ℕ) (List ℕ)
add_content entry buffers =
    store (log_file_name entry.id)
      (or_empty (lookup (log_file_name entry.id) buffers) ++ build_log_content entry.id entry)
      buffers

-- That loop, from entry `i` on; entry `i` is looked at when the clock reads `clock i`.
unfoldable pub file_buffers :
    (ℕ → ℕ) → DurableBuffer → ℕ → List Content → Assoc (List ℕ) (List ℕ) → Assoc (List ℕ) (List ℕ)
file_buffers clock d i [] buffers = buffers
file_buffers clock d i (entry ∷ contents) buffers =
    file_buffers clock d (suc i) contents
      (if skips (clock i) d entry then buffers else add_content entry buffers)

-- The loop that writes the files and stops at the first error.
unfoldable pub write_files : Os → Assoc (List ℕ) (List ℕ) → Disk → Disk × Option Error
write_files os [] disk = (disk, none)
write_files os ((file_name, bytes) ∷ buffers) disk =
    let (disk', err) = write_to_file os file_name bytes disk in
    elim err [ none ↦ write_files os buffers disk' | some e ↦ (disk', some e) ]

unfoldable pub sync_contents_to_file :
    Os → DurableBuffer → List Content → Disk → Disk × Option Error
sync_contents_to_file os d contents disk =
    if os.mkdir_all
    then write_files os (os.range (file_buffers os.clock d 0 contents [])) disk
    else (disk, some mkdir_failed)

abbrev sync_snapshot :
    Os
    → DurableBuffer
    → RingBuffer Content
    → List Content
    → Disk
    → DurableBuffer × Disk × Option Error
sync_snapshot os d log [] disk = (record d { log = log }, disk, none)
sync_snapshot os d log (entry ∷ contents) disk =
    let (disk', err) = sync_contents_to_file os d (entry ∷ contents) disk in
    (record d { log = log }, disk', err)

-- `syncLogToFile` and `Flush`. The contents of the ring are gone from it, also after an error.
-- `none`: a call of the ring did not return.
unfoldable pub flush : Os → DurableBuffer → Disk → Option (DurableBuffer × Disk × Option Error)
flush os d disk = elim (drain (cap d.log) d.log) [
  | none ↦ none
  | some (log, contents) ↦ some (sync_snapshot os d log contents disk)
]
