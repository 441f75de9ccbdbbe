-- ===== src/Worker/Life/Loads.antt =====
-- What the start of a worker loads, and what it answers.
use map_reduce_rpc.Prelude.{
  ℕ, ◌≡◌, ◌⊎◌, refl, ap, ◌∙◌, arith, Bool, true, false, Option, none, some, List, Option-cases, inl,
  inr, if◌then◌else◌,
}
use map_reduce_rpc.Prelude.Env.{Env}
use map_reduce_rpc.Prelude.Paths.{base_name}
use map_reduce_rpc.Listener.{RpcListener, ListenError, listen, errors}
use map_reduce_rpc.Listener.Life.{listen-opens}
use map_reduce_rpc.Worker.Life.{
  Symbol, missing, invalid, found, MapFunction, ReduceFunction, Plugin, StartError, Worker,
  resolved_path, install, load_map_reduce_plugin, listened, loaded, start, is_blank, trim_suffix,
  so_ext,
}

-- The worker has the functions that it had, if it has no path of a plugin, or both functions of the
-- plugin at its path, and its name if it had one.
pub record HasFunctions (env : Env) (open_plugin : List ℕ → Option Plugin) (w w' : Worker)
    : Type 0 where
  pub functions :
      ((resolved_path env w ≡ none) × (w'.mapf ≡ w.mapf) × (w'.reducef ≡ w.reducef))
      ⊎ ((path : List ℕ) × (p : Plugin) × (resolved_path env w ≡ some path)
          × (open_plugin path ≡ some p)
          × (p.map_symbol ≡ found w'.mapf)
          × (p.reduce_symbol ≡ found w'.reducef)
          × (w'.plugin_path ≡ path)
          × (w'.plugin_name ≡ (
              if is_blank w.plugin_name
              then trim_suffix (base_name path) so_ext
              else w.plugin_name)))

install-functions :
    (path : List ℕ) (m : Symbol MapFunction) (r : Symbol ReduceFunction) (w : Worker)
    → (install path m r w).1 ≡ none
    → (m ≡ found (install path m r w).0.mapf)
      × (r ≡ found (install path m r w).0.reducef)
      × ((install path m r w).0.plugin_path ≡ path)
      × ((install path m r w).0.plugin_name
          ≡ (if is_blank w.plugin_name then trim_suffix (base_name path) so_ext else w.plugin_name))
      × ((install path m r w).0.listener ≡ w.listener)
      × ((install path m r w).0.start_err ≡ w.start_err)
install-functions path missing r w ok = absurd (ground (arith, ok))
install-functions path invalid missing w ok = absurd (ground (arith, ok))
install-functions path invalid invalid w ok = absurd (ground (arith, ok))
install-functions path invalid (found reducef) w ok = absurd (ground (arith, ok))
install-functions path (found mapf) missing w ok = absurd (ground (arith, ok))
install-functions path (found mapf) invalid w ok = absurd (ground (arith, ok))
install-functions path (found mapf) (found reducef) w ok = (refl, refl, refl, refl, refl, refl)

load-functions :
    (env : Env) (open_plugin : List ℕ → Option Plugin) (w : Worker)
    → (load_map_reduce_plugin env open_plugin w).1 ≡ none
    → HasFunctions env open_plugin w (load_map_reduce_plugin env open_plugin w).0
      × ((load_map_reduce_plugin env open_plugin w).0.listener ≡ w.listener)
      × ((load_map_reduce_plugin env open_plugin w).0.start_err ≡ w.start_err)
unfolding load_map_reduce_plugin
load-functions env open_plugin w ok = elim (Option-cases (resolved_path env w)) [
  | inl nowhere ↦ rw nowhere (record { functions = inl (nowhere, refl, refl) }, refl, refl)
  | inr (path, there) ↦ elim (Option-cases (open_plugin path)) [
    | inl fails ↦ absurd (ground (arith, (rw (there, fails) at ok)))
    | inr (p, opens) ↦
        let (m, r, at, name, same, err) =
          install-functions path p.map_symbol p.reduce_symbol w (rw (there, opens) at ok) in
        rw (there, opens)
          (record { functions = inr (path, p, there, opens, m, r, at, name) }, same, err)
  ]
]

-- What the first `Start` shows: with an error the worker has not begun to listen.
pub record Begun (env : Env) (open_plugin : List ℕ → Option Plugin) (w w' : Worker) : Type 0 where
  pub serves :
      w'.start_err ≡ none
      → HasFunctions env open_plugin w w'
        × (w'.listener.listening ≡ true)
        × (w'.listener.socket_open ≡ true)
  pub refuses :
      (e : StartError) → w'.start_err ≡ some e → w'.listener.socket_open ≡ w.listener.socket_open

listened-Begun :
    (env : Env) (open_plugin : List ℕ → Option Plugin) (w w' : Worker)
    (result : RpcListener × Option ListenError)
    → HasFunctions env open_plugin w w'
    → w'.start_err ≡ none
    → (result.1 ≡ none → (result.0.listening ≡ true) × (result.0.socket_open ≡ true))
    → ((e : ListenError) → result.1 ≡ some e → result.0.socket_open ≡ w.listener.socket_open)
    → Begun env open_plugin w (listened result w')
unfolding errors
listened-Begun env open_plugin w w' (r, none) has quiet opens fails = record {
  serves = λ ok. (record { functions = has.functions }, (opens refl).0, (opens refl).1);
  refuses = λ e h. absurd (ground (arith, h, quiet));
}
listened-Begun env open_plugin w w' (r, some e) has quiet opens fails = record {
  serves = λ ok. absurd (ground (arith, ok));
  refuses = λ e' h. fails e refl;
}

loaded-Begun :
    (env : Env) (open_plugin : List ℕ → Option Plugin) (binds : List ℕ → Bool) (w w' : Worker)
    (err : Option StartError)
    → w.start_err ≡ none
    → (err ≡ none
        → HasFunctions env open_plugin w w'
          × (w'.listener ≡ w.listener)
          × (w'.start_err ≡ w.start_err))
    → w'.listener ≡ w.listener
    → Begun env open_plugin w (loaded binds (w', err))
loaded-Begun env open_plugin binds w w' (some e) quiet has same = record {
  serves = λ ok. absurd (ground (arith, ok));
  refuses = λ e' h. ap (λ (r : RpcListener). r.socket_open) same;
}
loaded-Begun env open_plugin binds w w' none quiet has same =
    let (functions, listener, err) = has refl in
    let (opens, fails) = listen-opens binds w'.listener in
    listened-Begun env open_plugin w w' (listen binds w'.listener) functions (err ∙ quiet) opens
      (λ e h. fails e h ∙ ap (λ (r : RpcListener). r.socket_open) listener)

-- Loading neither listens nor forgets that it was started.
abbrev Untouched : Worker → Worker → Type 0
Untouched w w' = (w'.listener ≡ w.listener) × (w'.started ≡ w.started)

install-Untouched :
    (path : List ℕ) (m : Symbol MapFunction) (r : Symbol ReduceFunction) (w : Worker)
    → Untouched w (install path m r w).0
install-Untouched path missing r w = (refl, refl)
install-Untouched path invalid missing w = (refl, refl)
install-Untouched path invalid invalid w = (refl, refl)
install-Untouched path invalid (found reducef) w = (refl, refl)
install-Untouched path (found mapf) missing w = (refl, refl)
install-Untouched path (found mapf) invalid w = (refl, refl)
install-Untouched path (found mapf) (found reducef) w = (refl, refl)

load-Untouched :
    (env : Env) (open_plugin : List ℕ → Option Plugin) (w : Worker)
    → Untouched w (load_map_reduce_plugin env open_plugin w).0
unfolding load_map_reduce_plugin
load-Untouched env open_plugin w = elim (Option-cases (resolved_path env w)) [
  | inl nowhere ↦ rw nowhere (refl, refl)
  | inr (path, there) ↦ elim (Option-cases (open_plugin path)) [
    | inl fails ↦ rw (there, fails) (refl, refl)
    | inr (p, opens) ↦ rw (there, opens) (install-Untouched path p.map_symbol p.reduce_symbol w)
  ]
]

listened-started :
    (result : RpcListener × Option ListenError) (w : Worker)
    → (listened result w).started ≡ w.started
listened-started (r, none) w = refl
listened-started (r, some e) w = refl

loaded-started :
    (binds : List ℕ → Bool) (w : Worker) (err : Option StartError)
    → (loaded binds (w, err)).started ≡ w.started
loaded-started binds w (some e) = refl
loaded-started binds w none = listened-started (listen binds w.listener) w

-- The first `Start` of a worker answers without an error only when it listens, with the functions that
-- it had if no plugin is configured, or with both functions of the plugin at the configured path, under
-- the configured name or else that of the file; with an error it has not begun to listen. Every later
-- `Start` changes nothing and has the same answer.
pub start_lem :
    (env env' : Env) (open_plugin open_plugin' : List ℕ → Option Plugin)
    (binds binds' : List ℕ → Bool) (w : Worker)
    → w.started ≡ false
    → w.start_err ≡ none
    → Begun env open_plugin (record w { started = true }) (start env open_plugin binds w).0
      × ((start env open_plugin binds w).1 ≡ (start env open_plugin binds w).0.start_err)
      × (start env' open_plugin' binds' (start env open_plugin binds w).0
          ≡ start env open_plugin binds w)
unfolding start
start_lem env env' open_plugin open_plugin' binds binds' w new quiet =
    let w1 : Worker = record w { started = true } in
    let l = load_map_reduce_plugin env open_plugin w1 in
    let (listener, started) = load-Untouched env open_plugin w1 in
    let on : (loaded binds l).started ≡ true = loaded-started binds l.0 l.1 ∙ started in
    rw new (
      loaded-Begun env open_plugin binds w1 l.0 l.1 quiet (load-functions env open_plugin w1)
          listener,
      refl,
      rw on refl,
    )
