-- ===== src/Tests/Processes.antt =====
-- A coordinator that is closed while a download comes between the closing of its log and that of its
-- listener.
use map_reduce_rpc.Prelude.{◌≡◌, refl, arith, inr, true, false, none, some, [], ◌∷◌, if◌then◌else◌}
use map_reduce_rpc.Prelude.Text.{codes}
use map_reduce_rpc.RingBuffer.Calls.{IsQueue}
use map_reduce_rpc.Durable.Disk.{Disk}
use map_reduce_rpc.Durable.Buffer.{DurableBuffer}
use map_reduce_rpc.Rpc.{DownloadRequest}
use map_reduce_rpc.Coordinator.Upload.{Made}
use map_reduce_rpc.Coordinator.Life.{Server, Around, close_coordinator}
use map_reduce_rpc.Coordinator.Life.Serving.{queue_after}
use map_reduce_rpc.Coordinator.Life.Closing.{close_leaves}
use map_reduce_rpc.Tests.Data.{handle_b, content_a, ring_a, ring_a-IsQueue, buffer_with, sound_os}

abbrev log_a : DurableBuffer
log_a = buffer_with ring_a [] [] []

abbrev server : Server
server = record {
  coordinator = record {
    server_address = codes ":1234";
    fs_server_address = codes "dfs";
    master_address = codes "master";
    durable_log = log_a;
  };
  listener = record {
    address = codes ":1234";
    has_handler = true;
    err_chan = some [];
    listening = true;
    socket_open = true;
    running = 2;
    closed = false;
  };
  started = true;
  stopped = false;
  start_err = none;
  polling = true;
}

abbrev download : DownloadRequest
download = record { handle = handle_b; bytes = 9 ∷ []; eof = true }

abbrev around : Around
around = record {
  upload_os = sound_os;
  upload_now = 120;
  upload_later = 121;
  client = record {
    mk_dir = λ path. Made.made;
    create_file = λ path. Made.made;
    write = λ path bytes. true;
    now_text = λ h. codes "2026-01-02T03:04:05Z";
    encode_metadata = λ m. some m.source_path;
  };
  is_done = λ h. false;
  prefix = codes "/in";
  log_os = sound_os;
  log_now = 122;
  log_later = 123;
  socket_err = none;
  log_first = true;
  before = [];
  between = (124, download) ∷ [];
  during = [];
  polling_ends = true;
  connections_end = 2;
}

-- The download that comes between the two is in the queue.
accepts_between :
    queue_after log_a 2 around.between []
    ≡ record { id = handle_b; eof = true; bytes = 9 ∷ [] } ∷ []
unfolding queue_after map_reduce_rpc.Durable.Write.Refine.answer_write
    map_reduce_rpc.Durable.Write.Refine.queue_write map_reduce_rpc.Durable.Buffer.is_handle_expired
accepts_between = refl

-- One of the two goroutines of the listener does not end.
abbrev around_stuck : Around
around_stuck = record around { connections_end = 1 }

close_leaves_example :
    (close_coordinator around_stuck server [] ≡ none)
    × (s' : Server) × (disk' : Disk) × (close_coordinator around server [] ≡ some (s', disk'))
    × (s'.polling ≡ false)
    × (s'.listener.closed ≡ true)
    × (s'.listener.running ≡ 0)
    × (s'.coordinator.durable_log.closed ≡ true)
    × IsQueue s'.coordinator.durable_log.log 1
        (if true then queue_after log_a 2 [] (queue_after log_a 2 around.between []) else [])
    × (close_coordinator around s' disk' ≡ some (s', disk'))
close_leaves_example =
    close_leaves around around around_stuck server [] 1 (content_a ∷ []) ring_a-IsQueue refl refl
      refl (omega arith) refl (omega arith) (inr (omega arith))
