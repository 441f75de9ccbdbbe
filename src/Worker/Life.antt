-- ===== src/Worker/Life.antt =====
-- The state of `Worker` in mrp/worker.go, `NewWorker`, `Start`, `Close`, `Heartbeat`, `RPCGetPluginInfo`
-- and `loadMapReducePlugin`. The goroutines that wait for tasks and log errors are left out; `waiting`
-- counts the tasks that `Close` waits for.
pub mod Loads
use map_reduce_rpc.Prelude.{
  ℕ, suc, ◌+◌, ◌-◌, ◌*◌, Bool, true, false, ◌&&◌, ◌||◌, not, Option, none, some, List, [], ◌∷◌,
  ◌++◌, length, take, drop, eqb, leb, if◌then◌else◌, list_beq, nat_eq,
}
use map_reduce_rpc.Prelude.Words.{slt64}
use map_reduce_rpc.Prelude.Text.{codes}
use map_reduce_rpc.Prelude.Trim.{trim_space}
use map_reduce_rpc.Prelude.Paths.{join_path, base_name}
use map_reduce_rpc.Prelude.Env.{Env}
use map_reduce_rpc.Utils.Env.{env_or_default}
use map_reduce_rpc.Plugins.{atoi}
use map_reduce_rpc.Rpc.{KeyValue, HeartbeatRequest, HeartbeatReply}
use map_reduce_rpc.Listener.{RpcListener, ListenError, new_rpc_listener, listen, close, errors}
use map_reduce_rpc.Master.State.{heartbeat}
use map_reduce_rpc.Worker.Reduce.{default_map, default_reduce}

-- What `plugin.Open` and `Lookup` answer for a name of a plugin.
pub data Symbol (F : Type 0) : Type 0 where
  missing invalid : Symbol F
  found : F → Symbol F

abbrev pub MapFunction : Type 0
MapFunction = List ℕ → List ℕ → List KeyValue

abbrev pub ReduceFunction : Type 0
ReduceFunction = List ℕ → List (List ℕ) → List ℕ

pub record Plugin : Type 0 where
  pub map_symbol : Symbol MapFunction
  pub reduce_symbol : Symbol ReduceFunction

pub data StartError : Type 0 where
  open_failed map_missing reduce_missing map_invalid reduce_invalid : StartError
  listen_failed : ListenError → StartError

pub record Worker : Type 0 where
  pub server_address : List ℕ
  pub master_address : List ℕ
  pub fs_server_addr : List ℕ
  pub plugin_name : List ℕ
  pub plugin_path : List ℕ
  pub n_reduce : ℕ
  pub intermediate : List ℕ
  pub output_dir : List ℕ
  pub mapf : MapFunction
  pub reducef : ReduceFunction
  pub started : Bool
  pub stopped : Bool
  pub start_err : Option StartError
  pub waiting : ℕ
  pub listener : RpcListener

abbrev positive_or_one : Option ℕ → ℕ
positive_or_one none = 1
positive_or_one (some parsed) = if slt64 0 parsed then parsed else 1

-- `NewWorker`. Registering the RPC server succeeds.
unfoldable pub new_worker : Env → List ℕ → Worker
new_worker env server_address = record {
  server_address = server_address;
  master_address =
      env_or_default env (codes "MAPREDUCE_MASTER_SERVER_ADDRESS") (codes "localhost:1235");
  fs_server_addr =
      env_or_default env (codes "MAPREDUCE_DFS_SERVER_ADDRESS") (codes "localhost:8089");
  plugin_name = trim_space (env (codes "MAPREDUCE_PLUGIN_NAME"));
  plugin_path = trim_space (env (codes "MAPREDUCE_PLUGIN_PATH"));
  n_reduce = positive_or_one (atoi (trim_space (env (codes "MAPREDUCE_N_REDUCE"))));
  intermediate =
      env_or_default env (codes "MAPREDUCE_WORKER_INTERMEDIATE_DIR") (codes "./intermediate");
  output_dir = env_or_default env (codes "MAPREDUCE_WORKER_OUTPUT_DIR") (codes "./output");
  mapf = default_map;
  reducef = default_reduce;
  started = false;
  stopped = false;
  start_err = none;
  waiting = 0;
  listener = new_rpc_listener server_address true;
}

-- `strings.TrimSuffix`
unfoldable pub trim_suffix : List ℕ → List ℕ → List ℕ
trim_suffix s suffix =
    let n = length s - length suffix in
    if leb (length suffix) (length s) && list_beq (drop n s) suffix then take n s else s

abbrev pub so_ext : List ℕ
so_ext = codes ".so"

abbrev is_blank : List ℕ → Bool
is_blank s = eqb (length s) 0

-- The path of the plugin: the configured one, or that of the name; none if there is neither.
unfoldable pub resolved_path : Env → Worker → Option (List ℕ)
resolved_path env w =
    let path = trim_space w.plugin_path in
    let name = trim_space w.plugin_name in
    let base = trim_suffix name so_ext in
    if not (is_blank path)
    then some path
    else if is_blank name
    then none
    else some (
        join_path (
          env_or_default env (codes "MAPREDUCE_PLUGIN_DIR") (codes "./plugins")
          ∷ base
          ∷ (base ++ so_ext)
          ∷ []))

abbrev named : List ℕ → Worker → Worker
named path w = record w {
  plugin_path = path;
  plugin_name =
      if is_blank w.plugin_name then trim_suffix (base_name path) so_ext else w.plugin_name;
}

-- The symbols are looked up before their types are looked at.
abbrev pub install :
    List ℕ → Symbol MapFunction → Symbol ReduceFunction → Worker → Worker × Option StartError
install path missing reduce_symbol w = (w, some map_missing)
install path invalid missing w = (w, some reduce_missing)
install path invalid invalid w = (w, some map_invalid)
install path invalid (found reducef) w = (w, some map_invalid)
install path (found mapf) missing w = (w, some reduce_missing)
install path (found mapf) invalid w = (w, some reduce_invalid)
install path (found mapf) (found reducef) w =
    (named path (record w { mapf = mapf; reducef = reducef }), none)

abbrev opened : List ℕ → Option Plugin → Worker → Worker × Option StartError
opened path none w = (w, some open_failed)
opened path (some p) w = install path p.map_symbol p.reduce_symbol w

abbrev load_at : (List ℕ → Option Plugin) → Option (List ℕ) → Worker → Worker × Option StartError
load_at open_plugin none w = (w, none)
load_at open_plugin (some path) w = opened path (open_plugin path) w

-- `loadMapReducePlugin`; `open_plugin` is `plugin.Open` with the two lookups.
unfoldable pub load_map_reduce_plugin :
    Env → (List ℕ → Option Plugin) → Worker → Worker × Option StartError
load_map_reduce_plugin env open_plugin w = load_at open_plugin (resolved_path env w) w

abbrev pub listened : RpcListener × Option ListenError → Worker → Worker
listened (r, none) w = record w { listener = errors r }
listened (r, some e) w = record w { listener = r; start_err = some (listen_failed e) }

abbrev pub loaded : (List ℕ → Bool) → Worker × Option StartError → Worker
loaded binds (w, some e) = record w { start_err = some e }
loaded binds (w, none) = listened (listen binds w.listener) w

-- `Start`, which acts once, and its answer.
unfoldable pub start :
    Env → (List ℕ → Option Plugin) → (List ℕ → Bool) → Worker → Worker × Option StartError
start env open_plugin binds w =
    let w' =
      if w.started
      then w
      else loaded binds (load_map_reduce_plugin env open_plugin (record w { started = true })) in
    (w', w'.start_err)

abbrev tasks_end : ℕ → Worker → Option RpcListener → Option Worker
tasks_end tasks w none = none
tasks_end tasks w (some r) =
    if leb w.waiting tasks
    then some (record w { stopped = true; waiting = 0; listener = r })
    else none

-- `Close`, which acts once: it closes the listener and waits for the tasks. `err` is the error of closing
-- the socket; `ends` goroutines of the listener end and so do `tasks` tasks. `none`: it does not return.
unfoldable pub close_worker : Option ℕ → ℕ → ℕ → Worker → Option Worker
close_worker err ends tasks w =
    if w.stopped then some w else tasks_end tasks w (close err ends w.listener)

-- `Heartbeat` and `RPCGetPluginInfo`
unfoldable pub worker_heartbeat : HeartbeatRequest → HeartbeatReply
worker_heartbeat request = heartbeat (codes "worker heartbeat received") request

abbrev pub get_plugin_info : Worker → List ℕ
get_plugin_info w = w.plugin_name
