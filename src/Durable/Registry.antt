-- ===== src/Durable/Registry.antt =====
-- The registries of handles in mrp/durable_buffer.go: completed, uploaded and dispatched handles, and
-- the file uploaded_handles.dat. `Range` of a `sync.Map` visits the entries in the order of the list.
pub mod Order
pub mod Dispatch
pub mod Persist
pub mod Marking
use map_reduce_rpc.Prelude.{
  ℕ, zero, suc, ◌+◌, Bool, true, false, ◌||◌, ◌&&◌, not, Option, none, some, List, [], ◌∷◌, ◌++◌,
  eqb, ltb, take, length, if◌then◌else◌, list_eq, nat_eq,
}
use map_reduce_rpc.Prelude.Assoc.{Assoc, lookup, store, delete}
use map_reduce_rpc.Prelude.Words.{sub64, slt64}
use map_reduce_rpc.Prelude.Text.{codes}
use map_reduce_rpc.Durable.Types.{Handle, handle_eq}
use map_reduce_rpc.Durable.Codec.{le_bytes, Read, ◌>>=◌, read_number}
use map_reduce_rpc.Durable.Names.{log_file_name, is_download_log_file, parse_handle}
use map_reduce_rpc.Durable.Disk.{Disk, Os, File, file_bytes}
use map_reduce_rpc.Durable.Buffer.{DurableBuffer, is_handle_uploaded, older_than, kept_young}

-- The order that `sort.Slice` is called with: by id, then by time stamp.
abbrev pub handle_less : Handle → Handle → Bool
handle_less a b = if eqb a.id b.id then slt64 a.time_stamp b.time_stamp else ltb a.id b.id

unfoldable pub insert_handle : Handle → List Handle → List Handle
insert_handle h [] = h ∷ []
insert_handle h (g ∷ hs) =
    let rest = insert_handle h hs in if handle_less g h then g ∷ rest else h ∷ g ∷ hs

-- `sort.Slice` on handles: the keys of a map differ, so the result is the only sorted order.
unfoldable pub sort_handles : List Handle → List Handle
sort_handles [] = []
sort_handles (h ∷ hs) = insert_handle h (sort_handles hs)

unfoldable pub completed_of : Assoc Handle Bool → List Handle
completed_of [] = []
completed_of ((h, complete) ∷ m) = let rest = completed_of m in if complete then h ∷ rest else rest

-- `GetCompletedHandleForRetransmission`
unfoldable pub get_completed_handles : DurableBuffer → List Handle
get_completed_handles d = sort_handles (completed_of d.handles)

-- One entry of the `Range` of `GetUploadedHandles`: `LoadOrStore`, and what it decides.
abbrev pub dispatch_known : ℕ → ℕ → Option ℕ → Bool
dispatch_known now ttl none = true
dispatch_known now ttl (some since) = older_than now since ttl

unfoldable pub dispatch_loop :
    ℕ → ℕ → Assoc Handle ℕ → Assoc Handle ℕ → Assoc Handle ℕ × List Handle
dispatch_loop now ttl [] processing = (processing, [])
dispatch_loop now ttl ((h, t) ∷ uploaded) processing =
    let fresh = dispatch_known now ttl (lookup h processing) in
    let (after, handles) =
      dispatch_loop now ttl uploaded (if fresh then store h now processing else processing) in
    (after, if fresh then h ∷ handles else handles)

-- `GetUploadedHandles`, with the reading of the clock.
unfoldable pub get_uploaded_handles : ℕ → DurableBuffer → DurableBuffer × List Handle
get_uploaded_handles now d =
    let (processing, handles) =
      dispatch_loop now d.processing_handle_ttl d.uploaded_handles d.processing_handles in
    (record d { processing_handles = processing }, sort_handles handles)

abbrev pub uploaded_handles_file_name : List ℕ
uploaded_handles_file_name = codes "uploaded_handles.dat"

abbrev pub tmp_name : List ℕ
tmp_name = uploaded_handles_file_name ++ codes ".tmp"

-- The three `binary.Write` of every entry.
unfoldable pub registry_bytes : Assoc Handle ℕ → List ℕ
registry_bytes [] = []
registry_bytes ((h, uploaded_at) ∷ m) =
    le_bytes 8 h.id ++ (le_bytes 8 h.time_stamp ++ (le_bytes 8 uploaded_at ++ registry_bytes m))

-- The errors of these writes are not looked at; after one that fails, nothing more is written.
abbrev pub written : Option ℕ → List ℕ → List ℕ
written none bytes = bytes
written (some n) bytes = take n bytes

unfoldable pub commit_tmp : Os → List ℕ → Disk → Disk
commit_tmp os bytes disk =
    let file : File = record { bytes = bytes; mod_time = os.write_time tmp_name } in
    if not (os.sync tmp_name)
    then store tmp_name file disk
    else if os.rename
    then store uploaded_handles_file_name file (delete tmp_name disk)
    else store tmp_name file disk

-- `saveUploadedHandles`
unfoldable pub save_uploaded_handles : Os → ℕ → DurableBuffer → Disk → Disk
save_uploaded_handles os now d disk =
    if os.mkdir_all && os.opens tmp_name
    then commit_tmp os
        (written (os.short_write tmp_name)
          (registry_bytes (kept_young now d.uploaded_handle_ttl d.uploaded_handles)))
        disk
    else disk

abbrev pub read_entry : List ℕ → Read (Handle × ℕ)
read_entry file = read_number 8 file >>= λ id file. read_number 8 file >>= λ time_stamp file.
    read_number 8 file >>= λ uploaded_at file.
    Read.got (record { id = id; time_stamp = time_stamp }, uploaded_at) file

-- The loop of `loadUploadedHandles`. An entry has more than one byte, so the length of the file is
-- enough fuel.
unfoldable pub load_loop : ℕ → ℕ → ℕ → List ℕ → Assoc Handle ℕ → Assoc Handle ℕ
load_loop zero now ttl file uploaded = uploaded
load_loop (suc fuel) now ttl file uploaded = elim (read_entry file) [
  | Read.got (h, uploaded_at) rest ↦
      load_loop fuel now ttl rest
        (if older_than now uploaded_at ttl then uploaded else store h uploaded_at uploaded)
  | _ ↦ uploaded
]

abbrev pub load_file : ℕ → Option File → DurableBuffer → DurableBuffer
load_file now none d = d
load_file now (some file) d = record d {
  uploaded_handles =
      load_loop (length file.bytes) now d.uploaded_handle_ttl file.bytes d.uploaded_handles;
}

-- `loadUploadedHandles`
unfoldable pub load_uploaded_handles : Os → ℕ → Disk → DurableBuffer → DurableBuffer
load_uploaded_handles os now disk d =
    if os.opens uploaded_handles_file_name
    then load_file now (lookup uploaded_handles_file_name disk) d
    else d

-- The `ForEach` loops of `MarkHandlesUploaded`.
unfoldable pub mark_loop : ℕ → List Handle → DurableBuffer → DurableBuffer
mark_loop now [] d = d
mark_loop now (h ∷ hs) d =
    mark_loop now hs
      (record d { uploaded_handles = store h now d.uploaded_handles; handles = delete h d.handles })

unfoldable pub remove_file : Os → List ℕ → Disk → Disk
remove_file os name disk = if os.remove name then delete name disk else disk

unfoldable pub remove_logs : Os → List Handle → Disk → Disk
remove_logs os [] disk = disk
remove_logs os (h ∷ hs) disk = remove_logs os hs (remove_file os (log_file_name h) disk)

-- `MarkHandlesUploaded`, with the readings of the clock by it and by `saveUploadedHandles`.
unfoldable pub mark_handles_uploaded :
    Os → ℕ → ℕ → List Handle → DurableBuffer → Disk → DurableBuffer × Disk
mark_handles_uploaded os now later hs d disk =
    let d' = mark_loop now hs d in (d', remove_logs os hs (save_uploaded_handles os later d' disk))
