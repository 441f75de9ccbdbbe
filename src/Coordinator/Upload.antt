-- ===== src/Coordinator/Upload.antt =====
-- `uploadFileToStorage` of mrp/coordinator.go with `buildHandleMetadataPayload`, `decodeDlogContent` and
-- `ensureRemoteDirectoryExists`.
pub mod Marks
use map_reduce_rpc.Prelude.{
  ℕ, zero, suc, Bool, true, false, ◌&&◌, ◌||◌, not, Option, none, some, List, [], ◌∷◌, ◌++◌, length,
  eqb, if◌then◌else◌, list_beq, list_eq, nat_eq,
}
use map_reduce_rpc.Prelude.Assoc.{Assoc, lookup}
use map_reduce_rpc.Prelude.Text.{codes, decimal}
use map_reduce_rpc.Prelude.Paths.{clean_loop, is_rooted, reversed, join_path}
use map_reduce_rpc.Prelude.Trim.{trim_space, trim_right, is_slash, split_at}
use map_reduce_rpc.Durable.Types.{Handle, Error}
use map_reduce_rpc.Durable.Names.{log_file_name, int_text}
use map_reduce_rpc.Durable.Codec.{Decoded, decoded, failed, stuck, decode_dlog_file_content}
use map_reduce_rpc.Durable.Disk.{Disk, Os, File}
use map_reduce_rpc.Durable.Buffer.{DurableBuffer}
use map_reduce_rpc.Durable.Sync.{flush}
use map_reduce_rpc.Durable.Registry.{get_completed_handles, mark_handles_uploaded}

pub record Coordinator : Type 0 where
  pub server_address : List ℕ
  pub fs_server_address : List ℕ
  pub master_address : List ℕ
  pub durable_log : DurableBuffer

-- The answer of the client of the distributed file system, a third-party package, to `MkDir` or
-- `CreateFile`. `exists_already`: an error whose text says so.
pub data Made : Type 0 where
  made exists_already not_made : Made

-- What is uploaded of a handle beside its content. `raw_content` is left empty.
pub record CompletedHandleMetadata : Type 0 where
  pub handle : Handle
  pub source_log : List ℕ
  pub source_path : List ℕ
  pub size_bytes : ℕ
  pub mod_unix_nano : ℕ
  pub uploaded_at : List ℕ
  pub completed : Bool
  pub raw_content : List ℕ

pub record DfsClient : Type 0 where
  pub mk_dir : List ℕ → Made
  pub create_file : List ℕ → Made
  pub write : List ℕ → List ℕ → Bool
  -- the text of `time.Now()` when the metadata of a handle is built, and `json.Marshal`
  pub now_text : Handle → List ℕ
  pub encode_metadata : CompletedHandleMetadata → Option (List ℕ)

abbrev without_last : List (List ℕ) → List (List ℕ)
without_last [] = []
without_last (p ∷ []) = []
without_last (p ∷ q ∷ ps) = p ∷ without_last (q ∷ ps)

-- The parts of `path.Dir`.
unfoldable pub dir_parts : List ℕ → List (List ℕ)
dir_parts path = reversed (clean_loop (is_rooted path) (without_last (split_at b'/' path)) []) []

unfoldable pub make_dirs : (List ℕ → Made) → List ℕ → List (List ℕ) → Bool
make_dirs mk_dir current [] = true
make_dirs mk_dir current (part ∷ parts) =
    let blank = eqb (length (trim_space part)) 0 in
    let deeper = current ++ (b'/' ∷ part) in
    let rest = make_dirs mk_dir (if blank then current else deeper) parts in
    if blank
    then rest
    else elim (mk_dir deeper) [ made ↦ rest | exists_already ↦ rest | not_made ↦ false ]

-- `ensureRemoteDirectoryExists`
unfoldable pub ensure_remote_directory_exists : (List ℕ → Made) → List ℕ → Bool
ensure_remote_directory_exists mk_dir remote_file_path =
    make_dirs mk_dir [] (dir_parts (trim_space remote_file_path))

abbrev pub created : Made → Bool
created made = true
created exists_already = true
created not_made = false

abbrev pub log_base : Handle → List ℕ
log_base handle =
    codes "download_log_" ++ (decimal handle.id ++ (b'-' ∷ int_text handle.time_stamp))

abbrev pub remote_path : List ℕ → Handle → List ℕ → List ℕ
remote_path prefix handle ext = trim_right is_slash prefix ++ (b'/' ∷ (log_base handle ++ ext))

abbrev pub decoded_bytes : Decoded → Option (List ℕ)
decoded_bytes (decoded bytes) = some bytes
decoded_bytes (failed e) = none
decoded_bytes stuck = none

abbrev pub opened_content : Option File → Option (List ℕ)
opened_content none = none
opened_content (some file) = decoded_bytes (decode_dlog_file_content file.bytes)

-- `decodeDlogContent`
unfoldable pub decode_dlog_content : Os → Disk → Handle → Option (List ℕ)
decode_dlog_content os disk handle =
    if os.opens (log_file_name handle)
    then opened_content (lookup (log_file_name handle) disk)
    else none

-- The size and the time of modification; both are 0 when the file is missing.
abbrev stat_of : Option File → ℕ × ℕ
stat_of none = (0, 0)
stat_of (some file) = (length file.bytes, file.mod_time)

abbrev pub handle_metadata : DfsClient → List ℕ → Handle → Option File → CompletedHandleMetadata
handle_metadata client log_dir handle file = record {
  handle = handle;
  source_log = log_file_name handle;
  source_path = join_path (log_dir ∷ log_file_name handle ∷ []);
  size_bytes = (stat_of file).0;
  mod_unix_nano = (stat_of file).1;
  uploaded_at = client.now_text handle;
  completed = true;
  raw_content = [];
}

-- `buildHandleMetadataPayload`, with the directory of the log: a missing file is no error here, another
-- error of `Stat` is one.
unfoldable pub build_payload : Os → DfsClient → List ℕ → Disk → Handle → Option (List ℕ)
build_payload os client log_dir disk handle = elim (lookup (log_file_name handle) disk) [
  | none ↦ client.encode_metadata (handle_metadata client log_dir handle none)
  | some file ↦
      if os.info (log_file_name handle)
      then client.encode_metadata (handle_metadata client log_dir handle (some file))
      else none
]

abbrev upload_metadata : DfsClient → List ℕ → Handle → List ℕ → Bool
upload_metadata client prefix handle payload =
    created (client.create_file (remote_path prefix handle (codes ".json")))
    && client.write (remote_path prefix handle (codes ".json")) payload

abbrev upload_content : DfsClient → List ℕ → Handle → List ℕ → Option (List ℕ) → Bool
upload_content client prefix handle payload none = false
upload_content client prefix handle payload (some content) =
    client.write (remote_path prefix handle (codes ".content")) content
    && upload_metadata client prefix handle payload

abbrev upload_payload : Os → DfsClient → List ℕ → Disk → Handle → Option (List ℕ) → Bool
upload_payload os client prefix disk handle none = false
upload_payload os client prefix disk handle (some payload) =
    ensure_remote_directory_exists client.mk_dir (remote_path prefix handle (codes ".json"))
    && created (client.create_file (remote_path prefix handle (codes ".content")))
    && upload_content client prefix handle payload (decode_dlog_content os disk handle)

-- The body of the loop over the completed handles: whether the handle is uploaded. Every step that
-- fails skips the later ones and adds an error.
unfoldable pub upload_handle :
    Os → DfsClient → List ℕ → (Handle → Bool) → List ℕ → Disk → Handle → Bool
upload_handle os client log_dir is_done prefix disk handle =
    not (is_done handle)
    && upload_payload os client prefix disk handle (build_payload os client log_dir disk handle)

unfoldable pub uploaded_of : (Handle → Bool) → List Handle → List Handle
uploaded_of uploads [] = []
uploaded_of uploads (h ∷ hs) =
    let rest = uploaded_of uploads hs in if uploads h then h ∷ rest else rest

abbrev pub mark_uploaded : Os → ℕ → ℕ → List Handle → DurableBuffer → Disk → DurableBuffer × Disk
mark_uploaded os now later [] d disk = (d, disk)
mark_uploaded os now later (h ∷ hs) d disk = mark_handles_uploaded os now later (h ∷ hs) d disk

-- What an upload leaves; the flag: no handle had an error.
pub record Uploaded : Type 0 where
  pub log : DurableBuffer
  pub disk : Disk
  pub ok : Bool

abbrev pub upload_completed :
    Os → ℕ → ℕ → (Handle → Bool) → List Handle → DurableBuffer → Disk → Uploaded
upload_completed os now later uploads handles d disk =
    let uploaded = uploaded_of uploads handles in
    let (d', disk') = mark_uploaded os now later uploaded d disk in
    record { log = d'; disk = disk'; ok = eqb (length uploaded) (length handles) }

abbrev pub upload_flushed :
    Os
    → ℕ
    → ℕ
    → DfsClient
    → (Handle → Bool)
    → List ℕ
    → Option (DurableBuffer × Disk × Option Error)
    → Option Uploaded
upload_flushed os now later client is_done prefix none = none
upload_flushed os now later client is_done prefix (some (d, disk, err)) = some (
    upload_completed os now later (upload_handle os client d.log_dir is_done prefix disk)
      (get_completed_handles d) d disk)

-- `uploadFileToStorage`. An error of the flush is only logged. `none`: a call of the ring did not return.
unfoldable pub upload_file_to_storage :
    Os → ℕ → ℕ → DfsClient → (Handle → Bool) → List ℕ → Coordinator → Disk → Option Uploaded
upload_file_to_storage os now later client is_done prefix c disk =
    if eqb (length (trim_space c.fs_server_address)) 0
    then some (record { log = c.durable_log; disk = disk; ok = true })
    else upload_flushed os now later client is_done prefix (flush os c.durable_log disk)
