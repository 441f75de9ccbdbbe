-- ===== src/Uploader/Arrives.antt =====
-- From a file on the disk of a client to the content that the coordinator uploads.
use map_reduce_rpc.Prelude.{
  ℕ, suc, ◌^◌, ◌≤◌, ◌≡◌, refl, sym, ap, ◌∙◌, arith, Bool, true, false, none, some, List, [], ◌∷◌,
  ◌++◌, append-nil, length, eqb, All, Option-cases, inl, inr, ==_refl, list_eq, nat_eq,
}
use map_reduce_rpc.Prelude.Assoc.{lookup}
use map_reduce_rpc.RingBuffer.Calls.{IsQueue}
use map_reduce_rpc.Durable.Types.{Handle, Content, IsContent}
use map_reduce_rpc.Durable.Names.{log_file_name}
use map_reduce_rpc.Durable.Codec.{decode_dlog_file_content}
use map_reduce_rpc.Durable.Codec.Torn.{encode_all, length-encode_all}
use map_reduce_rpc.Durable.Codec.Decode.{all_bytes, decode-encode_all}
use map_reduce_rpc.Durable.Disk.{Disk, Os, file_bytes}
use map_reduce_rpc.Durable.Buffer.{DurableBuffer, is_handle_expired, generate_handle}
use map_reduce_rpc.Durable.Sync.{flush}
use map_reduce_rpc.Durable.Sync.Files.{retained, records_of}
use map_reduce_rpc.Durable.Sync.Refine.{
  flush_appends, contents_for, records_of-contents_for, IsRange,
}
use map_reduce_rpc.Coordinator.Calls.{generate_download_handle}
use map_reduce_rpc.Coordinator.Upload.{decode_dlog_content, decoded_bytes}
use map_reduce_rpc.Uploader.{
  FileRead, read_bytes, read_eof, read_error, UploadEnd, uploaded, upload_file,
}
use map_reduce_rpc.Uploader.Sends.{contents_of, Reads, Log, upload_loop-appends}

all_bytes-contents_of :
    (handle : Handle) (reads : List FileRead) (file : List ℕ)
    → Reads reads file
    → all_bytes (contents_of handle reads) ≡ file
unfolding contents_of
all_bytes-contents_of handle [] file whole = absurd whole
all_bytes-contents_of handle (read_error ∷ reads) file whole = absurd whole
all_bytes-contents_of handle (read_bytes [] ∷ reads) file (rest, e, whole) =
    all_bytes-contents_of handle reads rest whole ∙ sym e
all_bytes-contents_of handle (read_bytes (b ∷ bytes) ∷ reads) file (rest, e, whole) =
    ap (◌++◌ (b ∷ bytes)) (all_bytes-contents_of handle reads rest whole) ∙ sym e
all_bytes-contents_of handle (read_eof bytes ∷ reads) file whole = append-nil bytes ∙ sym whole

contents_of-handle :
    (handle : Handle) (reads : List FileRead) → All (λ c. c.id ≡ handle) (contents_of handle reads)
unfolding contents_of
contents_of-handle handle [] = tt
contents_of-handle handle (read_error ∷ reads) = tt
contents_of-handle handle (read_bytes [] ∷ reads) = contents_of-handle handle reads
contents_of-handle handle (read_bytes (b ∷ bytes) ∷ reads) = (refl, contents_of-handle handle reads)
contents_of-handle handle (read_eof bytes ∷ reads) = (refl, tt)

-- There is one content at least.
contents_of-first :
    (handle : Handle) (reads : List FileRead) (file : List ℕ)
    → Reads reads file
    → (c : Content) × (cs : List Content) × (contents_of handle reads ≡ c ∷ cs)
unfolding contents_of
contents_of-first handle [] file whole = absurd whole
contents_of-first handle (read_error ∷ reads) file whole = absurd whole
contents_of-first handle (read_bytes [] ∷ reads) file (rest, e, whole) =
    contents_of-first handle reads rest whole
contents_of-first handle (read_bytes (b ∷ bytes) ∷ reads) file whole = (_, _, refl)
contents_of-first handle (read_eof bytes ∷ reads) file whole = (_, _, refl)

retained-All :
    (clock : ℕ → ℕ) (d : DurableBuffer) (handle : Handle) (i : ℕ) (cs : List Content)
    → All (λ c. c.id ≡ handle) cs
    → eqb handle.id 0 ≡ false
    → ((j : ℕ) → is_handle_expired (clock j) handle d ≡ false)
    → contents_for (log_file_name handle) (retained clock d i cs) ≡ cs
unfolding retained contents_for
retained-All clock d handle i [] own positive fresh = refl
retained-All clock d handle i (c ∷ cs) (here, rest) positive fresh =
    let rest_kept = retained-All clock d handle (suc i) cs rest positive fresh in
    rw (here, positive, fresh i, contents_for, ==_refl (log_file_name handle))
      (ap (◌∷◌ (record c { id = handle })) rest_kept)

encode_all-nonempty :
    (cs ds : List Content) (c : Content) → All IsContent cs → cs ≡ c ∷ ds → encode_all cs ≡ [] → ⊥
encode_all-nonempty cs ds c valid e none_there =
    let counted : length (encode_all cs) ≡ 0 = ap length none_there in
    let some_content : length cs ≡ length (c ∷ ds) = ap length e in
    omega (arith, length-encode_all cs 0 valid (omega arith))

-- A file with the records of the contents is decoded to their data.
decode_written :
    (os : Os) (disk : Disk) (handle : Handle) (reads : List FileRead) (file : List ℕ)
    → Reads reads file
    → All IsContent (contents_of handle reads)
    → os.opens (log_file_name handle) ≡ true
    → file_bytes (log_file_name handle) disk ≡ encode_all (contents_of handle reads)
    → decode_dlog_content os disk handle ≡ some file
unfolding decode_dlog_content
decode_written os disk handle reads file whole valid opens written =
    let cs = contents_of handle reads in
    let (c, ds, first) = contents_of-first handle reads file whole in
    elim (Option-cases (lookup (log_file_name handle) disk)) [
      | inl missing ↦ absurd (encode_all-nonempty cs ds c valid first (sym (rw missing at written)))
      | inr (f, there) ↦
          rw (opens, there)
            (ap (λ (bytes : List ℕ). decoded_bytes (decode_dlog_file_content bytes))
                (rw there at written)
              ∙ ap decoded_bytes (decode-encode_all cs valid)
              ∙ ap some (all_bytes-contents_of handle reads file whole))
    ]

-- An upload of a file, however `Read` cuts it, returns and succeeds when its calls arrive, the log is
-- empty and has room for its contents, and its handle does not expire meanwhile; the log then holds
-- contents with this handle whose data are the file, one after the other.
pub upload_file_lem :
    (now : ℕ) (clock : ℕ → ℕ) (arrives : ℕ → Bool) (reads : List FileRead) (file : List ℕ)
    (d : DurableBuffer) (k : ℕ)
    → Reads reads file
    → ((j : ℕ) → arrives j ≡ true)
    → IsQueue d.log k []
    → ((j : ℕ)
        → is_handle_expired (clock j) (generate_handle now d).1 (generate_handle now d).0 ≡ false)
    → length (contents_of (generate_handle now d).1 reads) ≤ 2 ^ k
    → (d' : DurableBuffer) × (q : List Content) × (upload_file true true now clock arrives reads d
        ≡ some (d', uploaded))
      × Log (generate_handle now d).0 k q d'
      × (q ≡ contents_of (generate_handle now d).1 reads)
      × All (λ c. c.id ≡ (generate_handle now d).1) q
      × (all_bytes q ≡ file)
unfolding upload_file generate_download_handle generate_handle
upload_file_lem now clock arrives reads file d k whole arrive h fresh room =
    let handle = (generate_handle now d).1 in
    let d0 = (generate_handle now d).0 in
    let (d', uploads, l) =
      upload_loop-appends clock arrives 0 handle reads file d0 k [] whole arrive h fresh
        (omega (arith, room)) in
    (
      d',
      contents_of handle reads,
      uploads,
      l,
      refl,
      contents_of-handle handle reads,
      all_bytes-contents_of handle reads file whole,
    )

-- What a client uploads is what the coordinator takes to the file system: after the upload of a file to
-- an empty log with room for it, whose handle does not expire until it is flushed, and a `Flush` without
-- an error into a directory that has no file of the handle, the content of its .dlog file is the file.
pub uploaded_file_arrives :
    (now : ℕ) (clock : ℕ → ℕ) (arrives : ℕ → Bool) (reads : List FileRead) (file : List ℕ)
    (d d' d'' : DurableBuffer) (k : ℕ) (ended : UploadEnd) (os : Os) (disk disk' : Disk)
    → Reads reads file
    → ((j : ℕ) → arrives j ≡ true)
    → IsQueue d.log k []
    → ((j : ℕ)
        → is_handle_expired (clock j) (generate_handle now d).1 (generate_handle now d).0 ≡ false)
    → ((j : ℕ)
        → is_handle_expired (os.clock j) (generate_handle now d).1 (generate_handle now d).0
          ≡ false)
    → length (contents_of (generate_handle now d).1 reads) ≤ 2 ^ k
    → All IsContent (contents_of (generate_handle now d).1 reads)
    → eqb (generate_handle now d).1.id 0 ≡ false
    → upload_file true true now clock arrives reads d ≡ some (d', ended)
    → IsRange os
    → os.opens (log_file_name (generate_handle now d).1) ≡ true
    → file_bytes (log_file_name (generate_handle now d).1) disk ≡ []
    → flush os d' disk ≡ some (d'', disk', none)
    → (ended ≡ uploaded) × (decode_dlog_content os disk' (generate_handle now d).1 ≡ some file)
uploaded_file_arrives now clock arrives reads file d d' d'' k ended os disk disk' whole arrive h
      fresh fresh' room valid positive uploads range opens empty flushes =
    let handle = (generate_handle now d).1 in
    let name = log_file_name handle in
    let (e, q, returns, l, same, own, all) =
      upload_file_lem now clock arrives reads file d k whole arrive h fresh room in
    let answer = sym returns ∙ uploads in
    let ends : (e ≡ d') × (uploaded ≡ ended) = (ground (arith, answer), ground (arith, answer)) in
    let log : Log (generate_handle now d).0 k q d' = (rw ends.0 at l) in
    let written =
      flush_appends os d' disk k q log.holds range d'' disk' flushes name
      ∙ ap (λ (b : List ℕ). b ++ records_of name (retained os.clock d' 0 q)) empty
      ∙ records_of-contents_for name (retained os.clock d' 0 q)
      ∙ ap encode_all (
          retained-All os.clock d' handle 0 q own positive
            (λ j. log.same (os.clock j) handle ∙ fresh' j))
      ∙ ap encode_all same in
    (sym ends.1, decode_written os disk' handle reads file whole valid opens written)
