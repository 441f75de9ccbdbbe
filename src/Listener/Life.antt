-- ===== src/Listener/Life.antt =====
-- A listener that is closed stays closed, and its channel never overflows.
use map_reduce_rpc.Prelude.{
  ℕ, ◌<◌, ◌≤◌, ◌≡◌, ◌∙◌, if-false, refl, arith, Bool, true, false, ◌&&◌, not, Option, none, some,
  List, [], ◌∷◌, length, leb, eqb, Bool-cases, inl, inr,
}
use map_reduce_rpc.Listener.{
  RpcListener, report_err, report_to, chan_size, made_chan, listen, errors, Accepted, accept_step,
  serve_ends, closing, wait, close, new_rpc_listener, ListenError, normalize_address,
}

-- What happens to a listener, one after the other; `closes` is a call of `Close` up to its wait.
pub data Event : Type 0 where
  listens : (List ℕ → Bool) → Event
  asks_errors : Event
  accepts : Accepted → Event
  serves : Event
  closes : Option ℕ → Event

unfoldable pub step : Event → RpcListener → RpcListener
step (Event.listens binds) r = (listen binds r).0
step Event.asks_errors r = errors r
step (Event.accepts a) r = (accept_step a r).0
step Event.serves r = serve_ends r
step (Event.closes err) r = closing err r

unfoldable pub run : List Event → RpcListener → RpcListener
run [] r = r
run (e ∷ es) r = run es (step e r)

abbrev pub fits : Option (List ℕ) → Bool
fits none = true
fits (some errs) = leb (length errs) chan_size

-- The channel is within its size, the socket of a closed listener is closed, and an open socket has been
-- made.
abbrev pub IsWellFormed : RpcListener → Type 0
IsWellFormed r =
    (fits r.err_chan ≡ true)
    × ((r.closed && r.socket_open) ≡ false)
    × ((r.socket_open && not r.listening) ≡ false)

fits-report_to : (err : ℕ) (o : Option (List ℕ)) → fits o ≡ true → fits (report_to err o) ≡ true
fits-report_to err none h = refl
fits-report_to err (some errs) h = ground arith

fits-made_chan : (o : Option (List ℕ)) → fits o ≡ true → fits (made_chan o) ≡ true
fits-made_chan none h = refl
fits-made_chan (some errs) h = h

step-IsWellFormed : (e : Event) (r : RpcListener) → IsWellFormed r → IsWellFormed (step e r)
unfolding step listen errors accept_step serve_ends closing report_err
step-IsWellFormed (Event.listens binds) r (within, shut, bound) =
    (ground (arith, fits-made_chan r.err_chan within), ground arith, ground arith)
step-IsWellFormed Event.asks_errors r (within, shut, bound) =
    (fits-made_chan r.err_chan within, shut, bound)
step-IsWellFormed (Event.accepts Accepted.connection) r h = h
step-IsWellFormed (Event.accepts (Accepted.accept_failed err)) r (within, shut, bound) =
    (ground (arith, fits-report_to err r.err_chan within), ground arith, ground arith)
step-IsWellFormed Event.serves r h = h
step-IsWellFormed (Event.closes none) r (within, shut, bound) =
    (ground arith, ground arith, ground arith)
step-IsWellFormed (Event.closes (some err)) r (within, shut, bound) =
    (ground (arith, fits-report_to err r.err_chan within), ground arith, ground arith)

step-closed : (e : Event) (r : RpcListener) → r.closed ≡ true → (step e r).closed ≡ true
unfolding step listen errors accept_step serve_ends closing report_err
step-closed (Event.listens binds) r h = ground arith
step-closed Event.asks_errors r h = h
step-closed (Event.accepts Accepted.connection) r h = h
step-closed (Event.accepts (Accepted.accept_failed err)) r h = ground arith
step-closed Event.serves r h = h
step-closed (Event.closes none) r h = ground arith
step-closed (Event.closes (some err)) r h = ground arith

run-IsWellFormed : (es : List Event) (r : RpcListener) → IsWellFormed r → IsWellFormed (run es r)
unfolding run
run-IsWellFormed [] r h = h
run-IsWellFormed (e ∷ es) r h = run-IsWellFormed es (step e r) (step-IsWellFormed e r h)

run-closed : (es : List Event) (r : RpcListener) → r.closed ≡ true → (run es r).closed ≡ true
unfolding run
run-closed [] r h = h
run-closed (e ∷ es) r h = run-closed es (step e r) (step-closed e r h)

pub closing-closed : (err : Option ℕ) (r : RpcListener) → (closing err r).closed ≡ true
unfolding closing report_err
closing-closed none r = ground arith
closing-closed (some err) r = ground arith

pub closing-running : (err : Option ℕ) (r : RpcListener) → (closing err r).running ≡ r.running
unfolding closing report_err
closing-running none r = ground arith
closing-running (some err) r = ground arith

-- The wait ends when every goroutine that is counted ends, and only then.
pub wait-returns :
    (ends : ℕ) (r : RpcListener) → r.running ≤ ends → wait ends r ≡ some (record r { running = 0 })
unfolding wait
wait-returns ends r enough = ground (arith, enough)

pub wait-none : (ends : ℕ) (r : RpcListener) → ends < r.running → wait ends r ≡ none
unfolding wait
wait-none ends r few = ground (arith, few)

-- The first close returns when every goroutine ends.
pub close-returns :
    (err : Option ℕ) (ends : ℕ) (r : RpcListener)
    → r.closed ≡ false
    → r.running ≤ ends
    → close err ends r ≡ some (record (closing err r) { running = 0 })
unfolding close
close-returns err ends r opened enough =
    if-false opened _ ∙ wait-returns ends (closing err r) (rw (closing-running err r) enough)

-- Whatever happens to a listener before and after, once it has been closed it stays closed and its socket
-- stays shut, so that no later call of `Listen` opens it again; and its channel of errors never holds
-- more than it has room for.
pub closed_for_good :
    (address : List ℕ) (has_handler : Bool) (before after : List Event) (err : Option ℕ)
    → ((run after (closing err (run before (new_rpc_listener address has_handler)))).closed ≡ true)
      × ((run after (closing err (run before (new_rpc_listener address has_handler)))).socket_open
          ≡ false)
      × (fits (run after (closing err (run before (new_rpc_listener address has_handler)))).err_chan
          ≡ true)
closed_for_good address has_handler before after err =
    let r = run before (new_rpc_listener address has_handler) in
    let closed = run-closed after (closing err r) (closing-closed err r) in
    let (within, shut, bound) = run-IsWellFormed after (closing err r) (
      unfold step in
      step-IsWellFormed (Event.closes err) r (
        run-IsWellFormed before (new_rpc_listener address has_handler)
          (fresh address has_handler))) in
    (closed, ground (arith, closed, shut), within)
  where
    fresh :
        (address : List ℕ) (has_handler : Bool)
        → IsWellFormed (new_rpc_listener address has_handler)
    fresh address has_handler = unfold new_rpc_listener in (refl, refl, refl)

-- A listener listens exactly when it answers without an error.
pub listen-opens :
    (binds : List ℕ → Bool) (r : RpcListener)
    → ((listen binds r).1 ≡ none
        → ((listen binds r).0.listening ≡ true) × ((listen binds r).0.socket_open ≡ true))
      × ((e : ListenError)
          → (listen binds r).1 ≡ some e
          → (listen binds r).0.socket_open ≡ r.socket_open)
unfolding listen
listen-opens binds r = elim (Bool-cases r.closed) [
  | inl closed ↦ rw closed ((λ e. absurd (ground (arith, e))), (λ e h. refl))
  | inr open_still ↦ elim (Bool-cases r.has_handler) [
    | inr no_handler ↦
        rw (open_still, no_handler) ((λ e. absurd (ground (arith, e))), (λ e h. refl))
    | inl handler ↦ elim (Bool-cases (eqb (length (normalize_address r.address)) 0)) [
      | inl no_address ↦
          rw (open_still, handler, no_address) ((λ e. absurd (ground (arith, e))), (λ e h. refl))
      | inr address ↦ elim (Bool-cases (binds (normalize_address r.address))) [
        | inl bound ↦
            rw (open_still, handler, address, bound)
              ((λ e. (refl, refl)), (λ e h. absurd (ground (arith, h))))
        | inr unbound ↦
            rw (open_still, handler, address, unbound)
              ((λ e. absurd (ground (arith, e))), (λ e h. refl))
      ]
    ]
  ]
]
