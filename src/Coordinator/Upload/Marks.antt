-- ===== src/Coordinator/Upload/Marks.antt =====
-- Which handles an upload marks.
use map_reduce_rpc.Prelude.{
  ℕ, ◌≡◌, refl, ap, ◌∙◌, arith, Bool, true, false, ◌&&◌, none, some, List, [], ◌∷◌, length, eqb,
  if◌then◌else◌, if-false, Option-cases, inl, inr, ==_iff, list_eq, nat_eq,
}
use map_reduce_rpc.Prelude.Assoc.{lookup}
use map_reduce_rpc.Prelude.Text.{codes}
use map_reduce_rpc.Prelude.Trim.{trim_space}
use map_reduce_rpc.Utils.Slices.{contains}
use map_reduce_rpc.Utils.MapLaws.{IsMap}
use map_reduce_rpc.RingBuffer.{RingBuffer}
use map_reduce_rpc.RingBuffer.Calls.{IsQueue}
use map_reduce_rpc.Durable.Types.{Handle, handle_eq, Content}
use map_reduce_rpc.Durable.Disk.{Disk, Os}
use map_reduce_rpc.Durable.Buffer.{DurableBuffer}
use map_reduce_rpc.Durable.Sync.Refine.{flush_empties}
use map_reduce_rpc.Durable.Registry.{get_completed_handles}
use map_reduce_rpc.Durable.Registry.Order.{is_true, get_completed_handles_lem}
use map_reduce_rpc.Durable.Registry.Marking.{mark_handles_uploaded_lem}
use map_reduce_rpc.Coordinator.Upload.{
  Coordinator, DfsClient, uploaded_of, upload_handle, mark_uploaded, upload_completed,
  upload_flushed, upload_file_to_storage, decode_dlog_content, remote_path, build_payload,
}

contains-uploaded_of :
    (uploads : Handle → Bool) (hs : List Handle) (g : Handle)
    → contains (uploaded_of uploads hs) g ≡ (contains hs g && uploads g)
unfolding uploaded_of contains
contains-uploaded_of uploads [] g = refl
contains-uploaded_of uploads (h ∷ hs) g =
    ground (arith, contains-uploaded_of uploads hs g, ==_iff h g)

mark_uploaded-lookup :
    (os : Os) (now later : ℕ) (hs : List Handle) (d : DurableBuffer) (disk : Disk) (g : Handle)
    → (lookup g (mark_uploaded os now later hs d disk).0.uploaded_handles
        ≡ (if contains hs g then some now else lookup g d.uploaded_handles))
      × (lookup g (mark_uploaded os now later hs d disk).0.handles
          ≡ (if contains hs g then none else lookup g d.handles))
unfolding contains
mark_uploaded-lookup os now later [] d disk g = (refl, refl)
mark_uploaded-lookup os now later (h ∷ hs) d disk g =
    let (uploaded, handles, files) = mark_handles_uploaded_lem os now later (h ∷ hs) d disk g [] in
    (uploaded, handles)

-- Whether an upload takes a handle: its last chunk was written, and every step for it succeeds.
abbrev pub is_uploaded : (Handle → Bool) → Handle → DurableBuffer → Bool
is_uploaded uploads g d = is_true (lookup g d.handles) && uploads g

-- From a flushed log, an upload marks exactly the handles that are complete and for which every step
-- succeeds, with the time; these leave the written handles. Every other handle stays as it was.
pub upload_completed_lem :
    (os : Os) (now later : ℕ) (uploads : Handle → Bool) (d : DurableBuffer) (disk : Disk)
    (g : Handle)
    → IsMap d.handles
    → (lookup g
          (upload_completed os now later uploads
            (get_completed_handles d)
            d
            disk).log.uploaded_handles
        ≡ (if is_uploaded uploads g d then some now else lookup g d.uploaded_handles))
      × (lookup g
            (upload_completed os now later uploads (get_completed_handles d) d disk).log.handles
          ≡ (if is_uploaded uploads g d then none else lookup g d.handles))
upload_completed_lem os now later uploads d disk g once =
    let (sorted, listed) = get_completed_handles_lem d g once in
    let same =
      contains-uploaded_of uploads (get_completed_handles d) g
      ∙ ap (λ (b : Bool). b && uploads g) listed in
    let (uploaded, handles) =
      mark_uploaded-lookup os now later (uploaded_of uploads (get_completed_handles d)) d disk g in
    (
      uploaded ∙ ap (λ (b : Bool). if b then some now else lookup g d.uploaded_handles) same,
      handles ∙ ap (λ (b : Bool). if b then none else lookup g d.handles) same,
    )

-- A handle counts as uploaded only when the content that its log file decodes to was written to the
-- file system, and so was its metadata.
pub upload_handle_lem :
    (os : Os) (client : DfsClient) (log_dir : List ℕ) (is_done : Handle → Bool) (prefix : List ℕ)
    (disk : Disk) (h : Handle)
    → upload_handle os client log_dir is_done prefix disk h ≡ true
    → (content : List ℕ) × (payload : List ℕ) × (decode_dlog_content os disk h ≡ some content)
      × (build_payload os client log_dir disk h ≡ some payload)
      × (client.write (remote_path prefix h (codes ".content")) content ≡ true)
      × (client.write (remote_path prefix h (codes ".json")) payload ≡ true)
unfolding upload_handle
upload_handle_lem os client log_dir is_done prefix disk h e =
    elim (Option-cases (build_payload os client log_dir disk h)) [
      | inl missing ↦ absurd (ground (arith, missing))
      | inr (payload, built) ↦ elim (Option-cases (decode_dlog_content os disk h)) [
        | inl missing ↦ absurd (ground (arith, missing, built))
        | inr (content, decodes) ↦ (
          content,
          payload,
          decodes,
          built,
          ground (arith, built, decodes),
          ground (arith, built, decodes),
        )
      ]
    ]

-- After an upload with a configured file system the ring is empty, whatever the file system did.
pub upload_file_to_storage_empties :
    (os : Os) (now later : ℕ) (client : DfsClient) (is_done : Handle → Bool) (prefix : List ℕ)
    (c : Coordinator) (disk : Disk) (k : ℕ) (q : List Content)
    → IsQueue c.durable_log.log k q
    → eqb (length (trim_space c.fs_server_address)) 0 ≡ false
    → (log : RingBuffer Content) × (disk' : Disk) × IsQueue log k []
      × (upload_file_to_storage os now later client is_done prefix c disk
          ≡ some (
              upload_completed os now later
                (upload_handle os client c.durable_log.log_dir is_done prefix disk')
                (get_completed_handles (record c.durable_log { log = log }))
                (record c.durable_log { log = log })
                disk'))
unfolding upload_file_to_storage
upload_file_to_storage_empties os now later client is_done prefix c disk k q h configured =
    let (log, disk', err, after, flushes) = flush_empties os c.durable_log disk k q h in
    (
      log,
      disk',
      after,
      if-false configured _ ∙ ap (upload_flushed os now later client is_done prefix) flushes,
    )
