-- ===== src/Master/Plan/Covers.antt =====
-- The chunks that the master plans are the whole file when the workers read them.
use native.Mathlib.Nat.{suc-mul, add-mul}
use map_reduce_rpc.Prelude.{
  ℕ, zero, suc, ◌+◌, ◌-◌, ◌*◌, ◌^◌, ◌<◌, ◌≤◌, ◌≡◌, ◌⊎◌, inl, inr, refl, ap, ap2, ◌∙◌, sym, arith,
  true, false, Bool-cases, eqb, Option, none, some, List, [], ◌∷◌, ◌++◌, length, take, drop,
  take-append-drop, length-drop,
}
use map_reduce_rpc.Prelude.Words.{slt64}
use map_reduce_rpc.Prelude.Text.{codes}
use map_reduce_rpc.Prelude.Trim.{trim_space}
use map_reduce_rpc.Durable.Types.{Handle}
use map_reduce_rpc.Rpc.{ChunkInfo, FileMetadata}
use map_reduce_rpc.Worker.Chunk.{
  ChunkRead, DfsRead, dfs_answer, chunk_bytes, chunk_path, read_size, read_chunk_data,
}
use map_reduce_rpc.Master.Dispatch.{chunk_request}
use map_reduce_rpc.Master.Plan.{
  DfsFiles, FileInfo, chunk_size, planned_chunk, plan_chunks, metadata_of, log_file, Found,
  remote_file, find_under, non_empty,
}

take_enough : (n : ℕ) (xs : List ℕ) → length xs ≤ n → take n xs ≡ xs
take_enough zero [] h = refl
take_enough zero (x ∷ xs) h = absurd (omega arith)
take_enough (suc n) [] h = refl
take_enough (suc n) (x ∷ xs) h = ap (◌∷◌ x) (take_enough n xs (omega arith))

drop_enough : (n : ℕ) (xs : List ℕ) → length xs ≤ n → drop n xs ≡ []
drop_enough zero [] h = refl
drop_enough zero (x ∷ xs) h = absurd (omega arith)
drop_enough (suc n) [] h = refl
drop_enough (suc n) (x ∷ xs) h = drop_enough n xs (omega arith)

drop_nothing : (n : ℕ) → drop {A = ℕ} n [] ≡ []
drop_nothing zero = refl
drop_nothing (suc n) = refl

drop-drop : (n m : ℕ) (xs : List ℕ) → drop n (drop m xs) ≡ drop (m + n) xs
drop-drop n zero xs = ap (λ (k : ℕ). drop k xs) (omega arith)
drop-drop n (suc m) [] = drop_nothing n ∙ sym (drop_nothing (suc m + n))
drop-drop n (suc m) (x ∷ xs) = drop-drop n m xs ∙ ap (λ (k : ℕ). drop k (x ∷ xs)) (add_suc m n)
  where
    add_suc : (m n : ℕ) → suc (m + n) ≡ suc m + n
    add_suc m n = omega arith

take_nothing : (n : ℕ) → take {A = ℕ} n [] ≡ []
take_nothing zero = refl
take_nothing (suc n) = refl

-- As many bytes as a worker asks for are those from the offset on, at most as many as a chunk can have.
take-read_size :
    (raw : List ℕ) (chunk_max offset : ℕ)
    → 0 < chunk_max
    → chunk_max < 2 ^ 61
    → offset < 2 ^ 62
    → length raw < 2 ^ 62
    → take
        (read_size (chunk_size chunk_max (length raw) offset) offset (length raw))
        (drop offset raw)
      ≡ take chunk_max (drop offset raw)
unfolding read_size
take-read_size raw chunk_max offset positive small_max small_offset small =
    elim (Bool-cases (slt64 offset (length raw))) [
      | inl inside ↦ ground (
        arith,
        inside,
        length-drop offset raw,
        take_enough chunk_max (drop offset raw),
        take_enough (length raw - offset) (drop offset raw),
      )
      | inr outside ↦
          let nothing : drop offset raw ≡ [] =
            drop_enough offset raw (ground (arith, outside, small_offset, small)) in
          rw nothing (
            take_nothing (read_size (chunk_size chunk_max (length raw) offset) offset (length raw))
            ∙ sym (take_nothing chunk_max))
    ]

abbrev append_read : ChunkRead → Option (List ℕ) → Option (List ℕ)
append_read (ChunkRead.chunk_bytes bytes) (some rest) = some (bytes ++ rest)
append_read _ _ = none

-- The reads of the chunks, one after the other, from the one of index `idx` on; `none` if one of them
-- fails.
unfoldable pub read_all : (ℕ → ChunkInfo → ChunkRead) → ℕ → List ChunkInfo → Option (List ℕ)
read_all read idx [] = some []
read_all read idx (c ∷ cs) = append_read (read idx c) (read_all read (suc idx) cs)

plan_chunks-covers :
    (dfs : DfsFiles) (path raw : List ℕ) (info : FileInfo) (read : ℕ → ChunkInfo → ChunkRead)
    (left index : ℕ)
    → (index + left) * dfs.chunk_max < 2 ^ 62
    → length raw ≤ (index + left) * dfs.chunk_max
    → ((i : ℕ) → (h : ℕ) × (dfs.get_chunk_handle path i ≡ some h))
    → ((i h : ℕ)
        → i * dfs.chunk_max < 2 ^ 62
        → read i (planned_chunk dfs path info i h)
          ≡ chunk_bytes (take dfs.chunk_max (drop (i * dfs.chunk_max) raw)))
    → (chunks : List ChunkInfo) × (plan_chunks dfs path info left index ≡ some chunks)
      × (read_all read index chunks ≡ some (drop (index * dfs.chunk_max) raw))
      × (length chunks ≡ left)
unfolding plan_chunks read_all
plan_chunks-covers dfs path raw info read zero index bound covers handles reads =
    ([], refl, ap some (sym (drop_enough (index * dfs.chunk_max) raw (shifted covers))), refl)
  where
    shifted : length raw ≤ (index + 0) * dfs.chunk_max → length raw ≤ index * dfs.chunk_max
    shifted h = omega (arith, h, add-mul index 0 dfs.chunk_max)
plan_chunks-covers dfs path raw info read (suc left) index bound covers handles reads =
    let m = dfs.chunk_max in
    let (handle, found) = handles index in
    let next : (suc index + left) * m ≡ (index + suc left) * m =
      ap (λ (n : ℕ). n * m) (omega arith) in
    let (chunks, planned, others, long) =
      plan_chunks-covers dfs path raw info read left (suc index) (omega (arith, next, bound))
        (omega (arith, next, covers)) handles reads in
    (
      planned_chunk dfs path info index handle ∷ chunks,
      rw (found, plan_chunks, planned) refl,
      ap2 append_read (reads index handle (omega (arith, bound, add-mul index (suc left) m))) others
          ∙ ap some (joined m index),
      ap suc long,
    )
  where
    joined :
        (m index : ℕ)
        → take m (drop (index * m) raw) ++ drop (suc index * m) raw ≡ drop (index * m) raw
    joined m index =
        ap (λ (n : ℕ). take m (drop (index * m) raw) ++ drop n raw) (suc-mul index m)
        ∙ ap (◌++◌ (take m (drop (index * m) raw))) (sym (drop-drop m (index * m) raw))
        ∙ take-append-drop m (drop (index * m) raw)

abbrev pub content_path : List ℕ → Handle → List ℕ
content_path prefix handle = remote_file prefix handle (codes ".content")

-- What `Read` of the client of the file system promises for a file: the bytes from the offset on that
-- it has, as many as asked for, with or without the note that the file ends there.
abbrev pub Reads : (List ℕ → ℕ → ℕ → DfsRead) → List ℕ → List ℕ → Type 0
Reads client_read path raw =
    (offset n : ℕ)
    → (client_read path offset n ≡ DfsRead.dfs_bytes (take n (drop offset raw)))
      ⊎ (client_read path offset n ≡ DfsRead.dfs_eof (take n (drop offset raw)))

dfs_answer-Reads :
    (answer : DfsRead) (bytes : List ℕ)
    → (answer ≡ DfsRead.dfs_bytes bytes) ⊎ (answer ≡ DfsRead.dfs_eof bytes)
    → dfs_answer answer ≡ chunk_bytes bytes
dfs_answer-Reads answer bytes (inl e) = ap dfs_answer e
dfs_answer-Reads answer bytes (inr e) = ap dfs_answer e

append-nonblank : (s t : List ℕ) (c : ℕ) → eqb (length (s ++ c ∷ t)) 0 ≡ false
append-nonblank [] t c = ground arith
append-nonblank (d ∷ s) t c = ground arith

-- A worker that is asked for a chunk of a file without raw content reads it from the file system.
read_chunk_data-read :
    (fs_server_addr : List ℕ) (client_read : List ℕ → ℕ → ℕ → DfsRead) (handle : Handle)
    (file : FileMetadata) (idx : ℕ) (chunk : ChunkInfo) (bytes : List ℕ)
    → file.raw_content ≡ []
    → eqb (length (trim_space fs_server_addr)) 0 ≡ false
    → trim_space chunk.path ≡ chunk.path
    → eqb (length chunk.path) 0 ≡ false
    → dfs_answer
        (client_read chunk.path chunk.offset (read_size chunk.size chunk.offset file.size_bytes))
      ≡ chunk_bytes bytes
    → read_chunk_data fs_server_addr false client_read (chunk_request handle file idx chunk)
      ≡ chunk_bytes bytes
unfolding read_chunk_data chunk_path
read_chunk_data-read fs_server_addr client_read handle file idx chunk bytes no_raw served trimmed
      named answers =
    rw (no_raw, served, trimmed, named, named) answers

le_mul : (n m : ℕ) → 0 < m → n ≤ n * m
le_mul zero m positive = omega arith
le_mul (suc n) m positive = omega (arith, le_mul n m positive, suc-mul n m, positive)

find_under-planned :
    (dfs : DfsFiles) (handle : Handle) (prefix : List ℕ) (info : FileInfo) (chunks : List ChunkInfo)
    → dfs.get_file (content_path prefix handle) ≡ some info
    → eqb info.length 0 ≡ false
    → slt64 0 info.chunks ≡ true
    → plan_chunks dfs (content_path prefix handle) info info.chunks 0 ≡ some chunks
    → find_under dfs handle prefix
      ≡ Found.metadata (
          metadata_of handle
            (log_file handle ++ codes ".content")
            (content_path prefix handle)
            info.length
            chunks)
unfolding find_under
find_under-planned dfs handle prefix info chunks known full some_chunks planned =
    rw (known, find_under, non_empty, full, some_chunks, planned, find_under) refl

-- When the content file of a handle is found under a prefix and is not empty, and the handle of every
-- chunk is found, the metadata has one chunk for each chunk of the file system. A worker that is asked
-- for such a chunk reads it by the client of the file system, and what the workers read of the chunks,
-- one after the other, is the content of the file: no read fails, and nothing is read twice or left
-- out. The client reads as it promises, the path has no blanks around it, the workers have an address
-- of the file system and time, and the chunks have room for the content, a chunk less than 2 ^ 61 bytes
-- and all of them less than 2 ^ 62.
pub plan_chunks_covers :
    (dfs : DfsFiles) (handle : Handle) (prefix raw fs_server_addr : List ℕ) (info : FileInfo)
    (client_read : List ℕ → ℕ → ℕ → DfsRead)
    → dfs.get_file (content_path prefix handle) ≡ some info
    → info.length ≡ length raw
    → 0 < length raw
    → 0 < dfs.chunk_max
    → dfs.chunk_max < 2 ^ 61
    → info.chunks * dfs.chunk_max < 2 ^ 62
    → length raw ≤ info.chunks * dfs.chunk_max
    → ((i : ℕ) → (h : ℕ) × (dfs.get_chunk_handle (content_path prefix handle) i ≡ some h))
    → trim_space (content_path prefix handle) ≡ content_path prefix handle
    → eqb (length (trim_space fs_server_addr)) 0 ≡ false
    → Reads client_read (content_path prefix handle) raw
    → (file : FileMetadata) × (find_under dfs handle prefix ≡ Found.metadata file)
      × (read_all
            (λ idx chunk.
              read_chunk_data fs_server_addr false client_read
                (chunk_request handle file idx chunk))
            0
            file.chunks
          ≡ some raw)
      × (length file.chunks ≡ info.chunks)
unfolding read_chunk_data chunk_path
plan_chunks_covers dfs handle prefix raw fs_server_addr info client_read known same full positive
      small_max bound covers handles trimmed served reads =
    let m = dfs.chunk_max in
    let path = content_path prefix handle in
    let file_of : List ChunkInfo → FileMetadata =
      metadata_of handle (log_file handle ++ codes ".content") path info.length in
    let read : ℕ → ChunkInfo → ChunkRead = λ idx chunk.
      read_chunk_data fs_server_addr false client_read
        (chunk_request handle (file_of []) idx chunk) in
    let here : (i h : ℕ)
        → i * m < 2 ^ 62
        → read i (planned_chunk dfs path info i h) ≡ chunk_bytes (take m (drop (i * m) raw)) =
      λ i h near.
        read_chunk_data-read fs_server_addr client_read handle (file_of []) i
          (planned_chunk dfs path info i h) _ refl served trimmed (append-nonblank _ _ _)
          (dfs_answer-Reads _ _
              (reads (i * m) (read_size (chunk_size m info.length (i * m)) (i * m) info.length))
            ∙ ap
                (λ (n : ℕ).
                  chunk_bytes
                    (take (read_size (chunk_size m n (i * m)) (i * m) n) (drop (i * m) raw)))
                same
            ∙ ap chunk_bytes
                (take-read_size raw m (i * m) positive small_max near (omega arith))) in
    let from_start : (0 + info.chunks) * m ≡ info.chunks * m =
      ap (λ (n : ℕ). n * m) (omega arith) in
    let at_start : 0 * m ≡ 0 = omega arith in
    let (chunks, planned, whole, long) =
      plan_chunks-covers dfs path raw info read info.chunks 0 (omega (arith, from_start, bound))
        (omega (arith, from_start, covers)) handles here in
    (
      file_of chunks,
      find_under-planned dfs handle prefix info chunks known (ground (arith, same, full))
          (ground (arith, le_mul info.chunks m positive, same, full, bound, covers)) planned,
      whole ∙ ap (λ (n : ℕ). some (drop n raw)) at_start,
      long,
    )
