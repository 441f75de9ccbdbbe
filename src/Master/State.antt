-- ===== src/Master/State.antt =====
-- The state of `Master` in mrp/master.go, its heartbeat, and the plugins of its workers.
pub mod Plugins
use map_reduce_rpc.Prelude.{
  ℕ, Bool, true, false, ◌||◌, not, Option, none, some, List, [], ◌∷◌, ◌++◌, length, eqb,
  if◌then◌else◌, list_eq, nat_eq, ◌==◌,
}
use map_reduce_rpc.Prelude.Assoc.{Assoc, lookup, store}
use map_reduce_rpc.Prelude.Text.{codes}
use map_reduce_rpc.Prelude.Trim.{trim_space, split_at}
use map_reduce_rpc.Utils.Slices.{contains}
use map_reduce_rpc.Rpc.{MapReduceResultRequest, HeartbeatRequest, HeartbeatReply}

pub record JobMeta : Type 0 where
  pub expected_chunks : ℕ
  pub dispatched_at : ℕ

pub record Master : Type 0 where
  pub server_address : List ℕ
  pub fs_server_address : List ℕ
  pub coordinator_address : List ℕ
  pub worker_addresses : List (List ℕ)
  pub results : Assoc (List ℕ) MapReduceResultRequest
  pub jobs : Assoc ℕ JobMeta
  pub worker_plugins : Assoc (List ℕ) (List ℕ)

unfoldable pub parse_loop : List (List ℕ) → List (List ℕ) → List (List ℕ)
parse_loop [] result = result
parse_loop (part ∷ parts) result =
    let address = trim_space part in
    parse_loop parts
      (if eqb (length address) 0 || contains result address then result else result ++ address ∷ [])

-- `parseWorkerAddresses`. `seen` has the addresses of the result.
unfoldable pub parse_worker_addresses : List ℕ → List (List ℕ)
parse_worker_addresses raw = parse_loop (split_at b',' raw) []

-- `NewMaster` without its listener; its arguments are what `envOrDefault` answers.
unfoldable pub new_master : List ℕ → List ℕ → List ℕ → List ℕ → Master
new_master server_address fs_server_address coordinator_address workers = record {
  server_address = server_address;
  fs_server_address = fs_server_address;
  coordinator_address = coordinator_address;
  worker_addresses = parse_worker_addresses workers;
  results = [];
  jobs = [];
  worker_plugins = [];
}

-- `Heartbeat`, which changes nothing; the worker's differs by the first text.
unfoldable pub heartbeat : List ℕ → HeartbeatRequest → HeartbeatReply
heartbeat received request =
    if eqb (length request.worker_id) 0
    then record { status = codes "ok"; message = received }
    else if eqb (length request.message) 0
    then record { status = codes "ok"; message = received ++ (codes " from " ++ request.worker_id) }
    else record {
      status = codes "ok";
      message =
          received ++ (codes " from " ++ (request.worker_id ++ (codes ": " ++ request.message)));
    }

abbrev pub learned :
    List ℕ → Option (List ℕ) → Option (List ℕ) → Assoc (List ℕ) (List ℕ) → Assoc (List ℕ) (List ℕ)
learned addr (some plugin) answer known = known
learned addr none none known = known
learned addr none (some plugin) known = store addr plugin known

-- The loop of `getWorkersForPlugin` that asks the workers whose plugin is not known. `probe` is the
-- answer of a worker, `none` when it cannot be reached.
unfoldable pub probe_workers :
    (List ℕ → Option (List ℕ)) → List (List ℕ) → Assoc (List ℕ) (List ℕ) → Assoc (List ℕ) (List ℕ)
probe_workers probe [] known = known
probe_workers probe (addr ∷ addrs) known =
    probe_workers probe addrs (learned addr (lookup addr known) (probe addr) known)

-- A missing key of the map reads as the empty text.
abbrev pub or_no_plugin : Option (List ℕ) → List ℕ
or_no_plugin none = []
or_no_plugin (some plugin) = plugin

unfoldable pub matching : Assoc (List ℕ) (List ℕ) → List ℕ → List (List ℕ) → List (List ℕ)
matching known plugin [] = []
matching known plugin (addr ∷ addrs) =
    let rest = matching known plugin addrs in
    if or_no_plugin (lookup addr known) == plugin then addr ∷ rest else rest

-- `getWorkersForPlugin`
unfoldable pub get_workers_for_plugin :
    (List ℕ → Option (List ℕ)) → List ℕ → Master → Master × List (List ℕ)
get_workers_for_plugin probe plugin m =
    let known = probe_workers probe m.worker_addresses m.worker_plugins in
    (record m { worker_plugins = known }, matching known plugin m.worker_addresses)
