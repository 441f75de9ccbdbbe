-- ===== src/Worker/Chunk.antt =====
-- `readChunkData` of mrp/worker.go. Offsets and sizes are `int64`.
use map_reduce_rpc.Prelude.{
  ℕ, ◌-◌, ◌*◌, Bool, ◌&&◌, not, List, [], length, take, drop, eqb, if◌then◌else◌,
}
use map_reduce_rpc.Prelude.Words.{add64, sub64, slt64, negative64}
use map_reduce_rpc.Prelude.Trim.{trim_space}
use map_reduce_rpc.Rpc.{MapReduceRequest}

-- `panics`: the slice bounds are out of range.
pub data ChunkRead : Type 0 where
  chunk_bytes : List ℕ → ChunkRead
  no_dfs_address path_is_empty cancelled dfs_failed panics : ChunkRead

-- `raw[start:end]` for `0 ≤ start ≤ len(raw)` and `end ≤ len(raw)`
abbrev pub slice_between : List ℕ → ℕ → ℕ → ChunkRead
slice_between raw start end =
    if slt64 end start then panics else chunk_bytes (take (end - start) (drop start raw))

abbrev pub chunk_end : ℕ → ℕ → ℕ → ℕ
chunk_end start size len =
    if slt64 0 size && slt64 (add64 start size) len then add64 start size else len

-- The part of `readChunkData` for a request that brings its content.
unfoldable pub raw_chunk : List ℕ → ℕ → ℕ → ChunkRead
raw_chunk raw offset size =
    let start = if negative64 offset then 0 else offset in
    if not (slt64 start (length raw))
    then chunk_bytes []
    else slice_between raw start (chunk_end start size (length raw))

abbrev pub default_chunk_read_size : ℕ
default_chunk_read_size = 64 * 1024

unfoldable pub read_size : ℕ → ℕ → ℕ → ℕ
read_size size offset size_bytes =
    if slt64 0 size
    then size
    else if slt64 offset size_bytes
    then sub64 size_bytes offset
    else default_chunk_read_size

-- The answer of `Read` of the client of the distributed file system: the bytes that it has put into the
-- buffer, at its end or not, or another error.
pub data DfsRead : Type 0 where
  dfs_bytes dfs_eof : List ℕ → DfsRead
  dfs_error : DfsRead

abbrev pub dfs_answer : DfsRead → ChunkRead
dfs_answer (DfsRead.dfs_bytes bytes) = chunk_bytes bytes
dfs_answer (DfsRead.dfs_eof bytes) = chunk_bytes bytes
dfs_answer DfsRead.dfs_error = dfs_failed

abbrev is_blank : List ℕ → Bool
is_blank s = eqb (length s) 0

unfoldable pub chunk_path : MapReduceRequest → List ℕ
chunk_path request =
    let path = trim_space request.chunk_info.path in
    if is_blank path then trim_space request.file.source_path else path

-- `readChunkData`, with the address of the file system, whether the context is done, and the client.
unfoldable pub read_chunk_data :
    List ℕ → Bool → (List ℕ → ℕ → ℕ → DfsRead) → MapReduceRequest → ChunkRead
read_chunk_data fs_server_addr is_done client_read request =
    if not (eqb (length request.file.raw_content) 0)
    then raw_chunk request.file.raw_content request.chunk_info.offset request.chunk_info.size
    else if is_blank (trim_space fs_server_addr)
    then no_dfs_address
    else if is_blank (chunk_path request)
    then path_is_empty
    else if is_done
    then cancelled
    else dfs_answer (
        client_read (chunk_path request) request.chunk_info.offset
          (read_size request.chunk_info.size request.chunk_info.offset request.file.size_bytes))
