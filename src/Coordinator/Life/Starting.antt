-- ===== src/Coordinator/Life/Starting.antt =====
-- What the start of a coordinator answers.
use map_reduce_rpc.Prelude.{ℕ, ◌≡◌, refl, arith, Bool, true, false, Option, none, some, List}
use map_reduce_rpc.Listener.{RpcListener, ListenError, listen, errors}
use map_reduce_rpc.Listener.Life.{listen-opens}
use map_reduce_rpc.Coordinator.Life.{Server, listened, start}

-- What the first `Start` shows.
pub record Begun (s s' : Server) : Type 0 where
  pub serves :
      s'.start_err ≡ none
      → (s'.polling ≡ true) × (s'.listener.listening ≡ true) × (s'.listener.socket_open ≡ true)
  pub refuses :
      (e : ListenError)
      → s'.start_err ≡ some e
      → (s'.polling ≡ s.polling) × (s'.listener.socket_open ≡ s.listener.socket_open)
  pub stays_started : s'.started ≡ true
  pub same_log : s'.coordinator ≡ s.coordinator

listened-Begun :
    (s : Server) (result : RpcListener × Option ListenError)
    → s.start_err ≡ none
    → (result.1 ≡ none → (result.0.listening ≡ true) × (result.0.socket_open ≡ true))
    → ((e : ListenError) → result.1 ≡ some e → result.0.socket_open ≡ s.listener.socket_open)
    → Begun s (listened result (record s { started = true }))
unfolding errors
listened-Begun s (r, none) quiet opens fails = record {
  serves = λ ok. (refl, (opens refl).0, (opens refl).1);
  refuses = λ e h. absurd (ground (arith, h, quiet));
  stays_started = refl;
  same_log = refl;
}
listened-Begun s (r, some e) quiet opens fails = record {
  serves = λ ok. absurd (ground (arith, ok));
  refuses = λ e' h. (refl, fails e refl);
  stays_started = refl;
  same_log = refl;
}

-- The first `Start` of a coordinator answers without an error only when its listener listens, and only
-- then does the polling run; with an error it has not begun to listen. The log is untouched. Every later
-- `Start` changes nothing and has the same answer.
pub start_polls :
    (binds binds' : List ℕ → Bool) (s : Server)
    → s.started ≡ false
    → s.start_err ≡ none
    → Begun (record s { started = true }) (start binds s).0
      × ((start binds s).1 ≡ (start binds s).0.start_err)
      × (start binds' (start binds s).0 ≡ start binds s)
unfolding start
start_polls binds binds' s new quiet =
    let (opens, fails) = listen-opens binds s.listener in
    let b =
      listened-Begun (record s { started = true }) (listen binds s.listener) quiet opens fails in
    rw new (b, refl, rw b.stays_started refl)
