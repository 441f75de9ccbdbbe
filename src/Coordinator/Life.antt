-- ===== src/Coordinator/Life.antt =====
-- The process of a coordinator in mrp/coordinator.go: `NewCoordinator`, `Start` and `Close`. The
-- goroutine of `Start` that only logs errors is left out; `polling` says whether the other one runs, a
-- round of which is `poll_tick`.
pub mod Starting
pub mod Serving
pub mod Closing
use map_reduce_rpc.Prelude.{
  ℕ, ◌*◌, Bool, true, false, ◌&&◌, not, Option, none, some, List, [], ◌∷◌, ltb, if◌then◌else◌,
}
use map_reduce_rpc.Prelude.Text.{codes}
use map_reduce_rpc.Prelude.Env.{Env}
use map_reduce_rpc.Utils.Env.{env_or_default}
use map_reduce_rpc.Listener.{
  RpcListener, ListenError, new_rpc_listener, listen, errors, closing, wait,
}
use map_reduce_rpc.Durable.Types.{Handle}
use map_reduce_rpc.Durable.Disk.{Disk, Os}
use map_reduce_rpc.Durable.Buffer.{Float64, DurableBuffer, second, new_durable_buffer}
use map_reduce_rpc.Durable.Registry.{load_uploaded_handles}
use map_reduce_rpc.Rpc.{DownloadRequest, DownloadReply}
use map_reduce_rpc.Coordinator.Calls.{forward_download}
use map_reduce_rpc.Coordinator.Upload.{Coordinator, DfsClient, Uploaded, upload_file_to_storage}

pub record Server : Type 0 where
  pub coordinator : Coordinator
  pub listener : RpcListener
  pub started : Bool
  pub stopped : Bool
  pub start_err : Option ListenError
  pub polling : Bool

-- `NewCoordinator`, with the reading of the clock by `loadUploadedHandles`. Registering the RPC server
-- succeeds.
unfoldable pub new_coordinator : Float64 → Env → Os → ℕ → Disk → List ℕ → List ℕ → Server
new_coordinator fl env os now disk server_address file_server_address = record {
  coordinator = record {
    server_address = server_address;
    fs_server_address = file_server_address;
    master_address =
        env_or_default env (codes "MAPREDUCE_MASTER_SERVER_ADDRESS") (codes "localhost:1235");
    durable_log = load_uploaded_handles os now disk (
        new_durable_buffer fl 1024 true (60 * second) (300 * second) (3600 * second) (
          env_or_default env (codes "MAPREDUCE_DOWNLOAD_LOG_DIR")
            (codes "./mapreduce_download_logs")));
  };
  listener = new_rpc_listener server_address true;
  started = false;
  stopped = false;
  start_err = none;
  polling = false;
}

abbrev pub listened : RpcListener × Option ListenError → Server → Server
listened (r, none) s = record s { listener = errors r; polling = true }
listened (r, some e) s = record s { listener = r; start_err = some e }

-- `Start`, which acts once, and its answer.
unfoldable pub start : (List ℕ → Bool) → Server → Server × Option ListenError
start binds s =
    let s' =
      if s.started then s else listened (listen binds s.listener) (record s { started = true }) in
    (s', s'.start_err)

abbrev pub with_log : DurableBuffer → Server → Server
with_log d s = record s { coordinator = record s.coordinator { durable_log = d } }

-- Calls of `RPCForwardDownload`, each with the reading of the clock. They arrive as long as goroutines of
-- the listener run: a connection that is open is served even after the socket has been closed. `none`:
-- a call of the ring did not return.
unfoldable pub serve_downloads : List (ℕ × DownloadRequest) → Server → Option Server
serve_downloads [] s = some s
serve_downloads ((now, request) ∷ calls) s =
    if ltb 0 s.listener.running
    then elim (forward_download now request s.coordinator.durable_log) [
      | none ↦ none
      | some (d, reply) ↦ serve_downloads calls (with_log d s)
    ]
    else some s

-- What happens around a `Close`: the answers of the operating system, the clock and the file system to
-- the last upload and to the closing of the log, the error of closing the socket, which of the two the
-- loop over the map closes first, and the downloads that arrive until then, between the two, and while
-- the listener waits for its goroutines. `polling_ends`: the goroutine that polls ends when it is told
-- to, so the call that it may be in returns; such a round is taken to be before the `Close`.
-- `connections_end`: how many of the listener's goroutines end.
pub record Around : Type 0 where
  pub upload_os : Os
  pub upload_now : ℕ
  pub upload_later : ℕ
  pub client : DfsClient
  pub is_done : Handle → Bool
  pub prefix : List ℕ
  pub log_os : Os
  pub log_now : ℕ
  pub log_later : ℕ
  pub socket_err : Option ℕ
  pub log_first : Bool
  pub before : List (ℕ × DownloadRequest)
  pub between : List (ℕ × DownloadRequest)
  pub during : List (ℕ × DownloadRequest)
  pub polling_ends : Bool
  pub connections_end : ℕ

abbrev pub and_then :
    Option (Server × Disk) → (Server → Disk → Option (Server × Disk)) → Option (Server × Disk)
and_then none f = none
and_then (some (s, disk)) f = f s disk

abbrev pub uploaded : Server → Option Uploaded → Option (Server × Disk)
uploaded s none = none
uploaded s (some u) = some (with_log u.log s, u.disk)

abbrev pub on_disk : Disk → Option Server → Option (Server × Disk)
on_disk disk none = none
on_disk disk (some s) = some (s, disk)

abbrev pub serve : List (ℕ × DownloadRequest) → Server → Disk → Option (Server × Disk)
serve calls s disk = on_disk disk (serve_downloads calls s)

abbrev pub log_closed : Server → Option (DurableBuffer × Disk) → Option (Server × Disk)
log_closed s none = none
log_closed s (some (d, disk)) = some (with_log d s, disk)

abbrev pub close_log : Around → Server → Disk → Option (Server × Disk)
close_log a s disk = log_closed s (
    map_reduce_rpc.Durable.Retention.close a.log_os a.log_now a.log_later s.coordinator.durable_log
      disk)

abbrev pub waited : Server → Disk → Option RpcListener → Option (Server × Disk)
waited s disk none = none
waited s disk (some r) = some (record s { listener = r }, disk)

abbrev pub wait_listener : Around → Server → Disk → Option (Server × Disk)
wait_listener a s disk = waited s disk (wait a.connections_end s.listener)

-- `Close` of the listener, with the downloads that it still serves during its wait.
abbrev pub close_listener : Around → Server → Disk → Option (Server × Disk)
close_listener a s disk =
    if s.listener.closed
    then some (s, disk)
    else and_then (serve a.during (record s { listener = closing a.socket_err s.listener }) disk)
        (wait_listener a)

-- The loop over the map of what is to be closed; the flag: the log comes first.
abbrev pub close_both : Bool → Around → Server → Disk → Option (Server × Disk)
close_both true a s disk =
    and_then (and_then (close_log a s disk) (serve a.between)) (close_listener a)
close_both false a s disk =
    and_then (and_then (close_listener a s disk) (serve a.between)) (close_log a)

-- `Close`, which acts once: it waits for the end of the polling, then the last upload is tried, and both
-- are closed. Neither has an error, and that of the upload is only logged. `none`: it does not return.
unfoldable pub close_coordinator : Around → Server → Disk → Option (Server × Disk)
close_coordinator a s disk =
    if s.stopped
    then some (s, disk)
    else if s.polling && not a.polling_ends
    then none
    else and_then
        (and_then
          (uploaded (record s { stopped = true; polling = false })
            (upload_file_to_storage a.upload_os a.upload_now a.upload_later a.client a.is_done
              a.prefix s.coordinator disk))
          (serve a.before))
        (close_both a.log_first a)
