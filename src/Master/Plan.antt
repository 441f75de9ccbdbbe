-- ===== src/Master/Plan.antt =====
-- `fetchFileMetadataFromDFS` of mrp/master.go: where a file is found and how it is cut into chunks. The
-- client of the distributed file system is a third-party package and a parameter here.
pub mod Covers
use map_reduce_rpc.Prelude.{
  ℕ, zero, suc, ◌+◌, ◌-◌, ◌*◌, Bool, true, false, ◌&&◌, ◌||◌, not, Option, none, some, List, [],
  ◌∷◌, ◌++◌, length, eqb, if◌then◌else◌, list_eq, nat_eq,
}
use map_reduce_rpc.Prelude.Words.{add64, sub64, slt64, negative64}
use map_reduce_rpc.Prelude.Text.{codes, decimal, strip_prefix}
use map_reduce_rpc.Prelude.Trim.{trim_space, trim_left, trim_right, is_slash, is_blank_char}
use map_reduce_rpc.Utils.Slices.{contains}
use map_reduce_rpc.Durable.Names.{int_text}
use map_reduce_rpc.Durable.Types.{Handle}
use map_reduce_rpc.Rpc.{ChunkInfo, FileMetadata}

-- What the client knows of a file.
pub record FileInfo : Type 0 where
  pub length : ℕ
  pub chunks : ℕ

pub record DfsFiles : Type 0 where
  -- `none`: an error, or no information
  pub get_file : List ℕ → Option FileInfo
  pub get_chunk_handle : List ℕ → ℕ → Option ℕ
  -- the constant `ChunkMaxSizeInByte`
  pub chunk_max : ℕ

abbrev pub chunk_size : ℕ → ℕ → ℕ → ℕ
chunk_size chunk_max length offset =
    let remaining = sub64 length offset in
    if slt64 remaining chunk_max then (if negative64 remaining then 0 else remaining) else chunk_max

abbrev pub planned_chunk : DfsFiles → List ℕ → FileInfo → ℕ → ℕ → ChunkInfo
planned_chunk dfs path info index handle = record {
  index = index;
  offset = index * dfs.chunk_max;
  size = chunk_size dfs.chunk_max info.length (index * dfs.chunk_max);
  path = path;
  handle = handle;
}

abbrev chunk_then : ChunkInfo → Option (List ChunkInfo) → Option (List ChunkInfo)
chunk_then chunk none = none
chunk_then chunk (some chunks) = some (chunk ∷ chunks)

-- The loop from `index` on, for the chunks that are left. An offset stays far below 2 ^ 63.
unfoldable pub plan_chunks : DfsFiles → List ℕ → FileInfo → ℕ → ℕ → Option (List ChunkInfo)
plan_chunks dfs path info zero index = some []
plan_chunks dfs path info (suc left) index = elim (dfs.get_chunk_handle path index) [
  | none ↦ none
  | some handle ↦
      chunk_then (planned_chunk dfs path info index handle)
        (plan_chunks dfs path info left (suc index))
]

abbrev pub metadata_of : Handle → List ℕ → List ℕ → ℕ → List ChunkInfo → FileMetadata
metadata_of handle source_log source_path size_bytes chunks = record {
  handle = handle;
  source_log = source_log;
  source_path = source_path;
  size_bytes = size_bytes;
  mod_unix_nano = 0;
  uploaded_at = [];
  completed = true;
  raw_content = [];
  chunks = chunks;
}

abbrev one_chunk : List ℕ → ℕ → List ChunkInfo
one_chunk path size = record { index = 0; offset = 0; size = size; path = path; handle = 0 } ∷ []

-- What a prefix gives: the metadata, the error that ends the search, or nothing.
pub data Found : Type 0 where
  metadata : FileMetadata → Found
  no_chunk_handle missing : Found

abbrev content_metadata : Handle → List ℕ → List ℕ → FileInfo → Option (List ChunkInfo) → Found
content_metadata handle source_log path info none = Found.no_chunk_handle
content_metadata handle source_log path info (some chunks) =
    Found.metadata (metadata_of handle source_log path info.length chunks)

abbrev json_found : Handle → List ℕ → List ℕ → Option FileInfo → Found
json_found handle source_log path none = Found.missing
json_found handle source_log path (some info) =
    Found.metadata (metadata_of handle source_log path info.length (one_chunk path info.length))

-- `contentInfo.Chunks <= 0`: then the chunk has size 0.
abbrev content_found : DfsFiles → Handle → List ℕ → List ℕ → FileInfo → Found
content_found dfs handle source_log path info =
    if not (slt64 0 info.chunks)
    then Found.metadata (metadata_of handle source_log path info.length (one_chunk path 0))
    else content_metadata handle source_log path info (plan_chunks dfs path info info.chunks 0)

abbrev pub non_empty : Option FileInfo → Option FileInfo
non_empty none = none
non_empty (some info) = if eqb info.length 0 then none else some info

abbrev pub log_file : Handle → List ℕ
log_file handle =
    codes "download_log_" ++ (decimal handle.id ++ (b'-' ∷ int_text handle.time_stamp))

abbrev pub remote_file : List ℕ → Handle → List ℕ → List ℕ
remote_file prefix handle ext = trim_right is_slash prefix ++ (b'/' ∷ (log_file handle ++ ext))

-- The content file, and the metadata file when there is no content.
unfoldable pub find_under : DfsFiles → Handle → List ℕ → Found
find_under dfs handle prefix =
    let json_path = remote_file prefix handle (codes ".json") in
    let content_path = remote_file prefix handle (codes ".content") in
    elim (non_empty (dfs.get_file content_path)) [
      | none ↦
          json_found handle (log_file handle ++ codes ".json") json_path (dfs.get_file json_path)
      | some info ↦ content_found dfs handle (log_file handle ++ codes ".content") content_path info
    ]

unfoldable pub search_prefixes : DfsFiles → Handle → List (List ℕ) → Option FileMetadata
search_prefixes dfs handle [] = none
search_prefixes dfs handle (prefix ∷ prefixes) = elim (find_under dfs handle prefix) [
  | Found.metadata m ↦ some m
  | Found.no_chunk_handle ↦ none
  | Found.missing ↦ search_prefixes dfs handle prefixes
]

abbrev or_root : List ℕ → List ℕ
or_root [] = codes "/"
or_root (c ∷ s) = c ∷ s

abbrev without_slash : List ℕ → Option (List ℕ) → List ℕ
without_slash s none = s
without_slash s (some rest) = rest

-- One round of the loop of `resolveUploadPrefixes` on a prefix that is not blank.
unfoldable pub clean_prefix : List ℕ → List ℕ
clean_prefix prefix =
    let inner = without_slash prefix (strip_prefix (codes "/") prefix) in
    or_root (trim_right is_slash (b'/' ∷ trim_right is_blank_char (trim_left is_blank_char inner)))

unfoldable pub resolve_loop : List (List ℕ) → List (List ℕ) → List (List ℕ)
resolve_loop [] result = result
resolve_loop (prefix ∷ prefixes) result =
    let cleaned = trim_space prefix in
    resolve_loop prefixes (
      if eqb (length cleaned) 0 || contains result (clean_prefix cleaned)
      then result
      else result ++ clean_prefix cleaned ∷ [])

-- `resolveUploadPrefixes`, with the configured prefix. `seen` has the prefixes of the result.
unfoldable pub resolve_upload_prefixes : List ℕ → List (List ℕ)
resolve_upload_prefixes configured =
    resolve_loop
      (trim_space configured ∷ codes "/mapreduce" ∷ codes "/mapreduce/download_logs" ∷ []) []

-- `fetchFileMetadataFromDFS`, with the address of the file system and the configured prefix.
unfoldable pub fetch_file_metadata : DfsFiles → List ℕ → List ℕ → Handle → Option FileMetadata
fetch_file_metadata dfs fs_server_address configured handle =
    if eqb (length (trim_space fs_server_address)) 0
    then none
    else search_prefixes dfs handle (resolve_upload_prefixes configured)
