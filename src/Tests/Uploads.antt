-- ===== src/Tests/Uploads.antt =====
-- A file of two bytes that is uploaded, flushed and read again.
use map_reduce_rpc.Prelude.{
  ℕ, ◌+◌, ◌^◌, ◌≤◌, ◌<◌, ◌≡◌, refl, arith, Bool, true, false, Option, none, some, List, [], ◌∷◌,
  All, length, eqb,
}
use map_reduce_rpc.Prelude.Text.{codes}
use map_reduce_rpc.RingBuffer.{RingBuffer}
use map_reduce_rpc.Durable.Types.{Handle, Content, IsContent}
use map_reduce_rpc.Durable.Names.{log_file_name}
use map_reduce_rpc.Durable.Codec.Decode.{all_bytes}
use map_reduce_rpc.Durable.Disk.{Disk, Os, file_bytes}
use map_reduce_rpc.Durable.Buffer.{DurableBuffer, generate_handle, is_handle_expired}
use map_reduce_rpc.Durable.Sync.{flush}
use map_reduce_rpc.Durable.Sync.Refine.{IsRange}
use map_reduce_rpc.Coordinator.Upload.{decode_dlog_content}
use map_reduce_rpc.Uploader.{FileRead, read_bytes, read_eof, UploadEnd, uploaded, upload_file}
use map_reduce_rpc.Uploader.Sends.{contents_of, Reads, Log}
use map_reduce_rpc.Uploader.Arrives.{upload_file_lem, uploaded_file_arrives}
use map_reduce_rpc.Tests.Data.{empty_ring, empty_ring-IsQueue, buffer_with, sound_os}

abbrev log : DurableBuffer
log = buffer_with empty_ring [] [] []

abbrev clock : ℕ → ℕ
clock i = 120

abbrev arrives : ℕ → Bool
arrives i = true

abbrev reads : List FileRead
reads = read_bytes (7 ∷ 8 ∷ []) ∷ read_eof [] ∷ []

abbrev file : List ℕ
file = 7 ∷ 8 ∷ []

whole : Reads reads file
whole = ([], refl, refl)

fresh :
    (j : ℕ)
    → is_handle_expired (clock j) (generate_handle 120 log).1 (generate_handle 120 log).0 ≡ false
unfolding is_handle_expired generate_handle
fresh j = refl

two_contents : length (contents_of (generate_handle 120 log).1 reads) ≤ 2 ^ 1
unfolding contents_of
two_contents = omega arith

upload_file_example :
    (d' : DurableBuffer) × (q : List Content) × (upload_file true true 120 clock arrives reads log
      ≡ some (d', uploaded))
    × Log (generate_handle 120 log).0 1 q d'
    × (q ≡ contents_of (generate_handle 120 log).1 reads)
    × All (λ c. c.id ≡ (generate_handle 120 log).1) q
    × (all_bytes q ≡ file)
upload_file_example =
    upload_file_lem 120 clock arrives reads file log 1 whole (λ j. refl) empty_ring-IsQueue fresh
      two_contents

positive : eqb (generate_handle 120 log).1.id 0 ≡ false
unfolding generate_handle
positive = refl

sound_os-IsRange : IsRange sound_os
sound_os-IsRange = record { once = λ m h. h; same = λ m k h. refl }

abbrev handle : Handle
handle = record { id = 6; time_stamp = 120 }

abbrev first : Content
first = record { id = handle; eof = false; bytes = 7 ∷ 8 ∷ [] }

abbrev second : Content
second = record { id = handle; eof = true; bytes = [] }

abbrev generated : DurableBuffer
generated = record log { next_handle = 6; last_timestamp = 120; handles = (handle, true) ∷ [] }

abbrev uploaded_log : DurableBuffer
uploaded_log = record generated {
  log = record {
    buffer = record { sequence = 1; val = first } ∷ record { sequence = 2; val = second } ∷ [];
    head = 0;
    tail = 2;
    capacity = 2;
  };
}

abbrev flushed_log : DurableBuffer
flushed_log = record generated {
  log = record {
    buffer = record { sequence = 2; val = first } ∷ record { sequence = 3; val = second } ∷ [];
    head = 2;
    tail = 2;
    capacity = 2;
  };
}

abbrev disk : Disk
disk =
    (
      codes "download_log_6-120.dlog",
      record {
        bytes =
            6 ∷ 0 ∷ 0 ∷ 0 ∷ 0 ∷ 0 ∷ 0 ∷ 0 ∷ 120 ∷ 0 ∷ 0 ∷ 0 ∷ 0 ∷ 0 ∷ 0 ∷ 0 ∷ 2 ∷ 0 ∷ 0 ∷ 0 ∷ 7 ∷ 8
            ∷ 0 ∷ 6 ∷ 0 ∷ 0 ∷ 0 ∷ 0 ∷ 0 ∷ 0 ∷ 0 ∷ 120 ∷ 0 ∷ 0 ∷ 0 ∷ 0 ∷ 0 ∷ 0 ∷ 0 ∷ 0 ∷ 0 ∷ 0 ∷ 0
            ∷ 1 ∷ [];
        mod_time = 120;
      },
    )
    ∷ []

uploads : upload_file true true 120 clock arrives reads log ≡ some (uploaded_log, uploaded)
unfolding upload_file map_reduce_rpc.Uploader.upload_loop generate_handle is_handle_expired
    map_reduce_rpc.Coordinator.Calls.generate_download_handle
    map_reduce_rpc.Coordinator.Calls.forward_download map_reduce_rpc.Durable.Write.write
    map_reduce_rpc.Durable.Write.write_loop map_reduce_rpc.Durable.Write.write_round
    map_reduce_rpc.Durable.Write.accept map_reduce_rpc.Durable.Write.note_entry
    map_reduce_rpc.RingBuffer.push map_reduce_rpc.Prelude.Assoc.lookup
    map_reduce_rpc.Prelude.Assoc.store
uploads = refl

flushes : flush sound_os uploaded_log [] ≡ some (flushed_log, disk, none)
unfolding flush map_reduce_rpc.RingBuffer.drain map_reduce_rpc.RingBuffer.pop
    map_reduce_rpc.Durable.Sync.sync_contents_to_file map_reduce_rpc.Durable.Sync.write_files
    map_reduce_rpc.Durable.Sync.file_buffers is_handle_expired
    map_reduce_rpc.Durable.Sync.add_content map_reduce_rpc.Prelude.Assoc.store
    map_reduce_rpc.Prelude.Assoc.lookup map_reduce_rpc.Durable.Disk.write_to_file
    map_reduce_rpc.Durable.Codec.build_log_content map_reduce_rpc.Durable.Codec.le_bytes
    log_file_name map_reduce_rpc.Prelude.Text.decimal
flushes = refl

contents-IsContent : All IsContent (contents_of (generate_handle 120 log).1 reads)
unfolding contents_of generate_handle
contents-IsContent = (
  record {
    handle = (omega arith, omega arith);
    short = omega arith;
    bytes = (omega arith, (omega arith, tt));
  },
  (record { handle = (omega arith, omega arith); short = omega arith; bytes = tt }, tt),
)

uploaded_file_arrives_example :
    (uploaded ≡ uploaded)
    × (decode_dlog_content sound_os disk (generate_handle 120 log).1 ≡ some file)
uploaded_file_arrives_example =
    uploaded_file_arrives 120 clock arrives reads file log uploaded_log flushed_log 1 uploaded
      sound_os [] disk whole (λ j. refl) empty_ring-IsQueue fresh fresh two_contents
      contents-IsContent positive uploads sound_os-IsRange refl
      (unfold map_reduce_rpc.Prelude.Assoc.lookup in refl) flushes
