-- ===== src/Tests/Data.antt =====
-- The data of the tests.
use map_reduce_rpc.Prelude.{ℕ, refl, arith, Bool, true, false, none, List, [], ◌∷◌}
use map_reduce_rpc.Prelude.Assoc.{Assoc}
use map_reduce_rpc.Prelude.Text.{codes}
use map_reduce_rpc.RingBuffer.{RingBuffer}
use map_reduce_rpc.RingBuffer.Calls.{IsQueue}
use map_reduce_rpc.Durable.Types.{Handle, Content, IsContent}
use map_reduce_rpc.Durable.Disk.{Disk, Os}
use map_reduce_rpc.Durable.Buffer.{DurableBuffer, zero_content}

abbrev pub handle_a : Handle
handle_a = record { id = 1; time_stamp = 100 }

abbrev pub handle_b : Handle
handle_b = record { id = 2; time_stamp = 101 }

abbrev pub content_a : Content
content_a = record { id = handle_a; eof = false; bytes = 7 ∷ 8 ∷ [] }

abbrev pub content_b : Content
content_b = record { id = handle_b; eof = true; bytes = 9 ∷ [] }

pub content_a-IsContent : IsContent content_a
content_a-IsContent = record {
  handle = (omega arith, omega arith);
  short = omega arith;
  bytes = (omega arith, (omega arith, tt));
}

pub content_b-IsContent : IsContent content_b
content_b-IsContent = record {
  handle = (omega arith, omega arith);
  short = omega arith;
  bytes = (omega arith, tt);
}

-- A ring of two slots that holds nothing, and one that holds a content.
abbrev pub empty_ring : RingBuffer Content
empty_ring = record {
  buffer =
      record { sequence = 0; val = zero_content }
      ∷ record { sequence = 1; val = zero_content }
      ∷ [];
  head = 0;
  tail = 0;
  capacity = 2;
}

abbrev pub ring_a : RingBuffer Content
ring_a = record {
  buffer =
      record { sequence = 1; val = content_a } ∷ record { sequence = 1; val = zero_content } ∷ [];
  head = 0;
  tail = 1;
  capacity = 2;
}

pub empty_ring-IsQueue : IsQueue empty_ring 1 []
empty_ring-IsQueue = record {
  start = 0;
  holds = record {
    more_than_one = omega arith;
    few = omega arith;
    capacity = refl;
    slots = refl;
    fits = omega arith;
    head = refl;
    tail = refl;
    filled = tt;
    free = (refl, (refl, tt));
  };
}

pub ring_a-IsQueue : IsQueue ring_a 1 (content_a ∷ [])
ring_a-IsQueue = record {
  start = 0;
  holds = record {
    more_than_one = omega arith;
    few = omega arith;
    capacity = refl;
    slots = refl;
    fits = omega arith;
    head = refl;
    tail = refl;
    filled = (refl, tt);
    free = (refl, tt);
  };
}

abbrev pub buffer_with :
    RingBuffer Content → Assoc Handle Bool → Assoc Handle ℕ → Assoc Handle ℕ → DurableBuffer
buffer_with log handles uploaded processing = record {
  recovery_mode = true;
  in_recovery = false;
  closed = false;
  next_handle = 5;
  last_timestamp = 110;
  policy = 0;
  capacity = 2;
  log = log;
  handles = handles;
  uploaded_handles = uploaded;
  processing_handles = processing;
  handle_expiry_duration = 60;
  cleanup_time_interval = 30;
  log_deletion_duration = 180;
  uploaded_handle_ttl = 300;
  processing_handle_ttl = 50;
  log_dir = codes "logs";
}

-- An operating system without faults whose clock stands at 120.
abbrev pub sound_os : Os
sound_os = record {
  clock = λ i. 120;
  write_time = λ name. 120;
  mkdir_all = true;
  read_dir = true;
  opens = λ name. true;
  short_write = λ name. none;
  sync = λ name. true;
  range = λ m. m;
  rename = true;
  info = λ name. true;
  remove = λ name. true;
}

-- The same operating system, which cannot make the directory.
abbrev pub faulty_os : Os
faulty_os = record sound_os { mkdir_all = false }

abbrev pub ring_drained : RingBuffer Content
ring_drained = record {
  buffer =
      record { sequence = 2; val = content_a } ∷ record { sequence = 1; val = zero_content } ∷ [];
  head = 1;
  tail = 1;
  capacity = 2;
}

abbrev pub name_a : List ℕ
name_a = codes "download_log_1-100.dlog"

abbrev pub bytes_a : List ℕ
bytes_a =
    1 ∷ 0 ∷ 0 ∷ 0 ∷ 0 ∷ 0 ∷ 0 ∷ 0 ∷ 100 ∷ 0 ∷ 0 ∷ 0 ∷ 0 ∷ 0 ∷ 0 ∷ 0 ∷ 2 ∷ 0 ∷ 0 ∷ 0 ∷ 7 ∷ 8 ∷ 0 ∷ []

abbrev pub disk_a : Disk
disk_a = (name_a, record { bytes = bytes_a; mod_time = 120 }) ∷ []
