-- ===== src/Listener.antt =====
-- mrp/rpc_listener.go: the life of a listener. The goroutines that accept and serve connections are the
-- steps `accept_step` and `serve_ends`.
pub mod Life
use map_reduce_rpc.Prelude.{
  ℕ, suc, ◌+◌, ◌-◌, Bool, true, false, ◌&&◌, ◌||◌, not, Option, none, some, List, [], ◌∷◌, length,
  eqb, leb, ltb, if◌then◌else◌,
}
use map_reduce_rpc.Prelude.Trim.{trim_space}

pub record RpcListener : Type 0 where
  pub address : List ℕ
  pub has_handler : Bool
  -- the errors in the channel, none if it has not been made
  pub err_chan : Option (List ℕ)
  -- the socket: it has been made, and it is still open
  pub listening : Bool
  pub socket_open : Bool
  -- the count of the wait group
  pub running : ℕ
  pub closed : Bool

unfoldable pub new_rpc_listener : List ℕ → Bool → RpcListener
new_rpc_listener address has_handler = record {
  address = address;
  has_handler = has_handler;
  err_chan = none;
  listening = false;
  socket_open = false;
  running = 0;
  closed = false;
}

abbrev pub chan_size : ℕ
chan_size = 16

-- `reportErr`: an error that does not fit into the channel is dropped.
abbrev pub report_to : ℕ → Option (List ℕ) → Option (List ℕ)
report_to err none = none
report_to err (some errs) = if ltb (length errs) chan_size then some (err ∷ errs) else some errs

unfoldable pub report_err : ℕ → RpcListener → RpcListener
report_err err r = record r { err_chan = report_to err r.err_chan }

unfoldable pub contains_colon : List ℕ → Bool
contains_colon [] = false
contains_colon (c ∷ s) = eqb c b':' || contains_colon s

abbrev with_colon : List ℕ → List ℕ
with_colon [] = []
with_colon (c ∷ s) = if contains_colon (c ∷ s) then c ∷ s else b':' ∷ c ∷ s

-- `normalizeAddress`
unfoldable pub normalize_address : List ℕ → List ℕ
normalize_address address = with_colon (trim_space address)

pub data ListenError : Type 0 where
  listener_is_closed handler_is_required address_is_required bind_failed : ListenError

abbrev pub made_chan : Option (List ℕ) → Option (List ℕ)
made_chan none = some []
made_chan (some errs) = some errs

-- `Listen`; `binds` is the answer of `net.Listen` for an address.
unfoldable pub listen : (List ℕ → Bool) → RpcListener → RpcListener × Option ListenError
listen binds r =
    if r.closed
    then (r, some listener_is_closed)
    else if not r.has_handler
    then (r, some handler_is_required)
    else if eqb (length (normalize_address r.address)) 0
    then (record r { err_chan = made_chan r.err_chan }, some address_is_required)
    else if not (binds (normalize_address r.address))
    then (record r { err_chan = made_chan r.err_chan }, some bind_failed)
    else (
      record r {
        err_chan = made_chan r.err_chan;
        listening = true;
        socket_open = true;
        running = suc r.running;
      },
      none,
    )

-- `Errors`
unfoldable pub errors : RpcListener → RpcListener
errors r = record r { err_chan = made_chan r.err_chan }

-- What `Accept` answers.
pub data Accepted : Type 0 where
  connection : Accepted
  accept_failed : ℕ → Accepted

-- A round of the accept loop of an open socket, or its end: the flag says whether it goes on.
unfoldable pub accept_step : Accepted → RpcListener → RpcListener × Bool
accept_step Accepted.connection r = (record r { running = suc r.running }, true)
accept_step (Accepted.accept_failed err) r =
    if r.closed || not r.socket_open
    then (record r { running = r.running - 1; socket_open = false }, false)
    else (report_err err r, true)

-- The goroutine of a connection ends.
unfoldable pub serve_ends : RpcListener → RpcListener
serve_ends r = record r { running = r.running - 1 }

abbrev close_socket : Option ℕ → RpcListener → RpcListener
close_socket none r = record r { closed = true; socket_open = false }
close_socket (some err) r = record (report_err err r) { closed = true; socket_open = false }

-- The part of `Close` before its wait; `err` is the error of closing the socket.
unfoldable pub closing : Option ℕ → RpcListener → RpcListener
closing err r = if r.listening then close_socket err r else record r { closed = true }

-- `waitGroup.Wait`, when as many goroutines end as `ends` says. `none`: it waits for ever.
unfoldable pub wait : ℕ → RpcListener → Option RpcListener
wait ends r = if leb r.running ends then some (record r { running = 0 }) else none

-- `Close`: only the first call closes the socket and waits.
unfoldable pub close : Option ℕ → ℕ → RpcListener → Option RpcListener
close err ends r = if r.closed then some r else wait ends (closing err r)
