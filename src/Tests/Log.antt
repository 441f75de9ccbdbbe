-- ===== src/Tests/Log.antt =====
-- The durable log at work.
use map_reduce_rpc.Prelude.{
  ℕ, ◌+◌, ◌*◌, ◌^◌, ◌<◌, ◌≤◌, ◌≡◌, ◌≢◌, refl, arith, Bool, true, false, ◌&&◌, not, ltb, Option,
  none, some, List, [], ◌∷◌, ◌++◌, All, list_eq, nat_eq, if◌then◌else◌,
}
use map_reduce_rpc.Prelude.Assoc.{lookup}
use map_reduce_rpc.RingBuffer.{RingBuffer}
use map_reduce_rpc.RingBuffer.Calls.{IsQueue}
use map_reduce_rpc.Durable.Types.{Content}
use map_reduce_rpc.Durable.Codec.{
  read_records, Decoded, decoded, failed, DecodeError, decode_dlog_file_content, build_log_content,
  le_bytes,
}
use map_reduce_rpc.Durable.Codec.Decode.{decode_torn}
use map_reduce_rpc.Durable.Codec.Torn.{encode_all, IsTorn}
use map_reduce_rpc.Durable.Names.{log_file_name, parse_handle}
use map_reduce_rpc.Durable.Names.RoundTrip.{parse_handle-log_file_name}
use map_reduce_rpc.Durable.Disk.{Disk, Os, File, file_bytes}
use map_reduce_rpc.Durable.Buffer.{
  Float64, DurableBuffer, generate_handle, is_handle_expired, new_durable_buffer,
  set_uploaded_handle_ttl,
}
use map_reduce_rpc.Durable.Buffer.Handles.{generate_all, IsIncreasing, generate_all-IsIncreasing}
use map_reduce_rpc.Durable.Buffer.Config.{IsConfigured, new_durable_buffer-IsConfigured}
use map_reduce_rpc.Durable.Write.{write}
use map_reduce_rpc.Durable.Write.Refine.{answer_write, noted, write_refines}
use map_reduce_rpc.Durable.Sync.{flush}
use map_reduce_rpc.Durable.Sync.Files.{retained}
use map_reduce_rpc.Durable.Sync.Refine.{contents_for, flush-read_records, IsRange}
use map_reduce_rpc.Durable.Recovery.{recover, replay}
use map_reduce_rpc.Durable.Recovery.Recovered.{replayed, push_all, recover_lem}
use map_reduce_rpc.Tests.Data.{
  handle_a, ring_drained, name_a, disk_a, content_a, content_b, content_a-IsContent, ring_a,
  ring_a-IsQueue, buffer_with, sound_os,
}

abbrev log_a : DurableBuffer
log_a = buffer_with ring_a [] [] []

write_refines_example :
    (log : RingBuffer Content) × IsQueue log 1
      (answer_write
        (is_handle_expired 120 content_b.id log_a)
        log_a.policy
        (2 ^ 1)
        (content_a ∷ [])
        content_b).0
    × (write 120 content_b log_a
        ≡ some (
          record (noted
              (answer_write
                (is_handle_expired 120 content_b.id log_a)
                log_a.policy
                (2 ^ 1)
                (content_a ∷ [])
                content_b).1
              content_b
              log_a) { log = log },
          (answer_write
              (is_handle_expired 120 content_b.id log_a)
              log_a.policy
              (2 ^ 1)
              (content_a ∷ [])
              content_b).1,
        ))
write_refines_example = write_refines 120 content_b log_a 1 (content_a ∷ []) ring_a-IsQueue

sound_os-IsRange : IsRange sound_os
sound_os-IsRange = record { once = λ m h. h; same = λ m k h. refl }

flush_a : flush sound_os log_a [] ≡ some (record log_a { log = ring_drained }, disk_a, none)
unfolding flush map_reduce_rpc.RingBuffer.drain map_reduce_rpc.RingBuffer.pop
    map_reduce_rpc.Durable.Sync.sync_contents_to_file map_reduce_rpc.Durable.Sync.write_files
    map_reduce_rpc.Durable.Sync.file_buffers is_handle_expired
    map_reduce_rpc.Durable.Sync.add_content map_reduce_rpc.Prelude.Assoc.store
    map_reduce_rpc.Durable.Disk.write_to_file log_file_name lookup
    map_reduce_rpc.Prelude.Text.decimal map_reduce_rpc.Durable.Codec.build_log_content
    map_reduce_rpc.Durable.Codec.le_bytes
flush_a = refl

flush-read_records_example :
    read_records (file_bytes name_a disk_a)
    ≡ [] ++ contents_for name_a (retained sound_os.clock log_a 0 (content_a ∷ []))
flush-read_records_example =
    flush-read_records sound_os log_a [] 1 (content_a ∷ []) ring_a-IsQueue sound_os-IsRange
      (content_a-IsContent, tt) (record log_a { log = ring_drained }) disk_a flush_a name_a [] tt
      (unfold lookup in refl)

replayed_a : replayed sound_os disk_a log_a ≡ content_a ∷ []
unfolding replayed map_reduce_rpc.Durable.Recovery.Replayed.delivered
    map_reduce_rpc.Durable.Recovery.sort_files map_reduce_rpc.Durable.Recovery.insert_file
    map_reduce_rpc.Durable.Names.is_download_log_file
    map_reduce_rpc.Durable.Recovery.Replayed.not_uploaded read_records
    map_reduce_rpc.Durable.Codec.read_records_loop map_reduce_rpc.Durable.Codec.read_record
    map_reduce_rpc.Durable.Codec.read_number map_reduce_rpc.Durable.Codec.read_bytes
    map_reduce_rpc.Durable.Codec.from_le_bytes map_reduce_rpc.Durable.Codec.read_bool
    map_reduce_rpc.Durable.Buffer.is_handle_uploaded lookup
replayed_a = refl

small_ids : All (λ (c : Content). c.id.id + 1 < 2 ^ 64) (replayed sound_os disk_a log_a)
small_ids = rw replayed_a (omega arith, tt)

recover_example :
    (d' : DurableBuffer) × (recover sound_os disk_a log_a ≡ some d')
    × (d'.in_recovery ≡ false)
    × IsQueue d'.log 1 (push_all (2 ^ 1) (content_a ∷ []) (replayed sound_os disk_a log_a))
    × All (λ (c : Content). c.id.id < d'.next_handle) (replayed sound_os disk_a log_a)
recover_example = recover_lem sound_os disk_a log_a 1 (content_a ∷ []) ring_a-IsQueue refl small_ids

generate_all_example : IsIncreasing 5 110 (generate_all (90 ∷ 200 ∷ 200 ∷ []) log_a)
generate_all_example =
    generate_all-IsIncreasing (90 ∷ 200 ∷ 200 ∷ []) log_a (omega arith) (omega arith)
      (omega arith, (omega arith, (omega arith, tt)))
      (omega arith, (omega arith, (omega arith, tt))) (omega arith)

generated : (generate_handle 120 log_a).1.time_stamp ≤ 150
unfolding generate_handle
generated = omega arith

-- Durations below 2 ^ 53 are exact as `float64`, so that whole numbers will do for them here.
whole_numbers : Float64
whole_numbers = record {
  Num = ℕ;
  from_int64 = λ n. n;
  to_int64 = λ n. n;
  mul = λ a b. b * a;
  below_one = λ a. ltb a 1;
  two = 2;
  below_one-two = refl;
  double = λ n small. refl;
}

new_durable_buffer_example : IsConfigured (new_durable_buffer whole_numbers 0 true 0 300 7 [])
new_durable_buffer_example =
    new_durable_buffer-IsConfigured whole_numbers 0 true 0 300 7 [] (omega arith) (omega arith)
      (omega arith) refl refl

log_a-IsConfigured : IsConfigured log_a
log_a-IsConfigured = record {
  expires = omega arith;
  flushes = omega arith;
  deletes = omega arith;
  registry = omega arith;
  word = omega arith;
}

parse_handle_example : parse_handle (log_file_name handle_a) ≡ some handle_a
parse_handle_example = parse_handle-log_file_name handle_a (omega arith, omega arith)

torn : IsTorn (1 ∷ 0 ∷ [])
unfolding build_log_content le_bytes
torn = record { content = content_a; valid = content_a-IsContent; next = 0; back = _; cut = refl }

abbrev front : List ℕ
front = 1 ∷ 0 ∷ []

not_empty : front ≢ []
not_empty e = ground arith

decode_torn_example :
    (e : DecodeError) × (decode_dlog_file_content (encode_all (content_a ∷ []) ++ front) ≡ failed e)
    × (read_records (encode_all (content_a ∷ []) ++ front) ≡ content_a ∷ [])
decode_torn_example = decode_torn (content_a ∷ []) front (content_a-IsContent, tt) torn not_empty
