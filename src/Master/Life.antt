-- ===== src/Master/Life.antt =====
-- The process of a master in mrp/master.go: `NewMaster`, `Start` and `Close`. The goroutine that logs
-- errors is left out.
use map_reduce_rpc.Prelude.{
  Bool, true, false, Option, none, some, List, [], ℕ, ◌≤◌, ◌≡◌, refl, ap, ◌∙◌, if-false,
  if◌then◌else◌,
}
use map_reduce_rpc.Prelude.Text.{codes}
use map_reduce_rpc.Prelude.Env.{Env}
use map_reduce_rpc.Utils.Env.{env_or_default}
use map_reduce_rpc.Listener.{
  RpcListener, ListenError, new_rpc_listener, listen, errors, closing, close,
}
use map_reduce_rpc.Listener.Life.{closing-closed, close-returns}
use map_reduce_rpc.Master.State.{Master, new_master}

pub record Server : Type 0 where
  pub master : Master
  pub listener : RpcListener
  pub started : Bool
  pub stopped : Bool
  pub start_err : Option ListenError

-- `NewMaster` in an environment. Registering the RPC server succeeds.
unfoldable pub new_server : Env → List ℕ → Server
new_server env server_address = record {
  master =
      new_master server_address
        (env_or_default env (codes "MAPREDUCE_DFS_SERVER_ADDRESS") (codes "localhost:8089"))
        (env_or_default env (codes "MAPREDUCE_COORDINATOR_ADDRESS") [])
        (env_or_default env (codes "MAPREDUCE_WORKER_ADDRESSES") []);
  listener = new_rpc_listener server_address true;
  started = false;
  stopped = false;
  start_err = none;
}

abbrev listened : RpcListener × Option ListenError → Server → Server
listened (r, none) s = record s { listener = errors r }
listened (r, some e) s = record s { listener = r; start_err = some e }

-- `Start`, which acts once, and its answer.
unfoldable pub start_master : (List ℕ → Bool) → Server → Server × Option ListenError
start_master binds s =
    let s' =
      if s.started then s else listened (listen binds s.listener) (record s { started = true }) in
    (s', s'.start_err)

abbrev listener_closed : Server → Option RpcListener → Option Server
listener_closed s none = none
listener_closed s (some r) = some (record s { stopped = true; listener = r })

-- `Close`, which acts once; `err` is the error of closing the socket, which the listener only reports in
-- its channel, and `ends` of its goroutines end. `none`: it does not return. The goroutine that logs
-- errors always ends.
unfoldable pub close_master : Option ℕ → ℕ → Server → Option Server
close_master err ends s =
    if s.stopped then some s else listener_closed s (close err ends s.listener)

-- When the goroutines of the listener end, the first close returns: then the listener is closed and the
-- jobs and results are as before, and a later close returns at once.
close_master-once :
    (err err' : Option ℕ) (ends ends' : ℕ) (s : Server)
    → s.stopped ≡ false
    → s.listener.closed ≡ false
    → s.listener.running ≤ ends
    → (s' : Server) × (close_master err ends s ≡ some s')
      × (s'.listener.closed ≡ true)
      × (s'.master ≡ s.master)
      × (close_master err' ends' s' ≡ some s')
unfolding close_master
close_master-once err err' ends ends' s runs opened enough = (
  record s { stopped = true; listener = record (closing err s.listener) { running = 0 } },
  if-false runs _ ∙ ap (listener_closed s) (close-returns err ends s.listener opened enough),
  closing-closed err s.listener,
  refl,
  refl,
)
