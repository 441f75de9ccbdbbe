-- ===== src/Tests/Coordination.antt =====
-- The coordinator at work.
use map_reduce_rpc.Prelude.{
  ℕ, ◌*◌, ◌^◌, ◌≡◌, refl, arith, Bool, true, false, ◌||◌, ◌&&◌, not, Option, none, some, List, [],
  ◌∷◌, ◌++◌, length, ltb, eqb, if◌then◌else◌, Eq, ◌==◌, list_eq, nat_eq,
}
use map_reduce_rpc.Prelude.Text.{codes}
use map_reduce_rpc.Prelude.Assoc.{lookup}
use map_reduce_rpc.RingBuffer.Calls.{IsQueue}
use map_reduce_rpc.Durable.Types.{Handle, handle_eq}
use map_reduce_rpc.Durable.Buffer.{DurableBuffer, is_handle_expired}
use map_reduce_rpc.Durable.Write.Refine.{answer_write}
use map_reduce_rpc.Durable.Registry.{get_completed_handles}
use map_reduce_rpc.Durable.Registry.Dispatch.{is_due}
use map_reduce_rpc.Rpc.{DownloadRequest, StartMapReduceRequest}
use map_reduce_rpc.Coordinator.Calls.{forward_download}
use map_reduce_rpc.Coordinator.Calls.Download.{is_kept, content_of, forward_download_lem}
use map_reduce_rpc.Coordinator.Upload.{
  Coordinator, DfsClient, Made, upload_handle, upload_completed, decode_dlog_content, remote_path,
  build_payload,
}
use map_reduce_rpc.Coordinator.Upload.Marks.{is_uploaded, upload_completed_lem, upload_handle_lem}
use map_reduce_rpc.Coordinator.Poll.{MasterAnswer, run_map_reduce_for_handle, start_map_reduce}
use map_reduce_rpc.Coordinator.Poll.Releases.{start_map_reduce_lem}
use map_reduce_rpc.Tests.Data.{
  handle_a, handle_b, content_a, ring_a, ring_a-IsQueue, buffer_with, sound_os, disk_a,
}

-- A log with one content in its ring, one handle complete and another not.
abbrev log_a : DurableBuffer
log_a = buffer_with ring_a ((handle_a, true) ∷ (handle_b, false) ∷ []) [] []

abbrev download : DownloadRequest
download = record { handle = handle_b; bytes = 9 ∷ []; eof = true }

forward_download_example :
    (d' : DurableBuffer) × (forward_download 120 download log_a
      ≡ some (
        d',
        if is_kept 120 download log_a 1 2
            then record { status = codes "success"; error_code = 0 }
            else record { status = codes "error"; error_code = 400 },
      ))
    × IsQueue d'.log 1
        (answer_write
          (is_handle_expired 120 handle_b log_a)
          0
          2
          (content_a ∷ [])
          (content_of download)).0
forward_download_example = forward_download_lem 120 download log_a 1 (content_a ∷ []) ring_a-IsQueue

abbrev uploads : Handle → Bool
uploads h = h == handle_a

upload_completed_example :
    (lookup handle_a
        (upload_completed sound_os 120 121 uploads
          (get_completed_handles log_a)
          log_a
          []).log.uploaded_handles
      ≡ (if is_uploaded uploads handle_a log_a
          then some 120
          else lookup handle_a log_a.uploaded_handles))
    × (lookup handle_a
          (upload_completed sound_os 120 121 uploads
            (get_completed_handles log_a)
            log_a
            []).log.handles
        ≡ (if is_uploaded uploads handle_a log_a then none else lookup handle_a log_a.handles))
unfolding lookup
upload_completed_example =
    upload_completed_lem sound_os 120 121 uploads log_a [] handle_a (refl, (refl, tt))

-- A file system that does what it is told.
abbrev sound_client : DfsClient
sound_client = record {
  mk_dir = λ path. Made.made;
  create_file = λ path. Made.made;
  write = λ path bytes. true;
  now_text = λ h. codes "2026-01-02T03:04:05Z";
  encode_metadata = λ m. some (m.source_path ++ m.uploaded_at);
}

uploads_a :
    upload_handle sound_os sound_client (codes "/logs") (λ h. false) (codes "/in") disk_a handle_a
    ≡ true
unfolding upload_handle build_payload lookup map_reduce_rpc.Durable.Names.log_file_name
    map_reduce_rpc.Prelude.Text.decimal
    map_reduce_rpc.Coordinator.Upload.ensure_remote_directory_exists
    map_reduce_rpc.Coordinator.Upload.make_dirs map_reduce_rpc.Coordinator.Upload.dir_parts
    map_reduce_rpc.Prelude.Paths.clean_loop map_reduce_rpc.Prelude.Trim.split_at
    map_reduce_rpc.Prelude.Trim.trim_space map_reduce_rpc.Prelude.Trim.trim_right
    map_reduce_rpc.Prelude.Trim.trim_left decode_dlog_content
    map_reduce_rpc.Durable.Codec.decode_dlog_file_content map_reduce_rpc.Durable.Codec.decode_loop
    map_reduce_rpc.Durable.Codec.read_number map_reduce_rpc.Durable.Codec.read_bytes
    map_reduce_rpc.Durable.Codec.from_le_bytes map_reduce_rpc.Durable.Codec.read_bool
    map_reduce_rpc.Durable.Names.int_text map_reduce_rpc.Prelude.Text.decimal_loop
uploads_a = refl

upload_handle_example :
    (content : List ℕ) × (payload : List ℕ) × (decode_dlog_content sound_os disk_a handle_a
      ≡ some content)
    × (build_payload sound_os sound_client (codes "/logs") disk_a handle_a ≡ some payload)
    × (true ≡ true)
    × (true ≡ true)
upload_handle_example =
    upload_handle_lem sound_os sound_client (codes "/logs") (λ h. false) (codes "/in") disk_a
      handle_a uploads_a

-- Two handles are uploaded and one of them is in work.
abbrev coordinator : Coordinator
coordinator = record {
  server_address = [];
  fs_server_address = codes "dfs";
  master_address = codes "master";
  durable_log =
      buffer_with ring_a [] ((handle_a, 100) ∷ (handle_b, 100) ∷ []) ((handle_b, 110) ∷ []);
}

abbrev no_master : StartMapReduceRequest → MasterAnswer
no_master request = MasterAnswer.dial_failed

start_map_reduce_example :
    lookup handle_a (start_map_reduce 120 no_master [] coordinator).0.durable_log.processing_handles
    ≡ (if is_due 120 50 handle_a coordinator.durable_log.uploaded_handles
          coordinator.durable_log.processing_handles
        then (if run_map_reduce_for_handle no_master (codes "master") [] handle_a
            then some 120
            else none)
        else lookup handle_a coordinator.durable_log.processing_handles)
unfolding lookup
start_map_reduce_example =
    start_map_reduce_lem 120 no_master [] coordinator handle_a (refl, (refl, tt))
