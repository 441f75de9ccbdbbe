-- ===== src/Coordinator/Life/Closing.antt =====
-- What the close of a coordinator leaves in its log.
use map_reduce_rpc.Prelude.{
  ℕ, ◌^◌, ◌<◌, ◌≤◌, ◌⊎◌, ltb, if-true, if-false, ◌≡◌, refl, ap, ◌∙◌, arith, Bool, true, false, ◌&&◌,
  not, Option, none, some, List, [], ◌∷◌, if◌then◌else◌, Bool-cases, inl, inr,
}
use map_reduce_rpc.Listener.{closing}
use map_reduce_rpc.Listener.Life.{closing-closed}
use map_reduce_rpc.RingBuffer.Calls.{IsQueue}
use map_reduce_rpc.Durable.Types.{Content}
use map_reduce_rpc.Durable.Disk.{Disk}
use map_reduce_rpc.Durable.Buffer.{DurableBuffer}
use map_reduce_rpc.Rpc.{DownloadRequest}
use map_reduce_rpc.Coordinator.Upload.{Uploaded}
use map_reduce_rpc.Coordinator.Life.{
  Server, with_log, serve_downloads, on_disk, serve, Around, and_then, uploaded, log_closed,
  close_log, close_listener, close_both, close_coordinator,
}
use map_reduce_rpc.Coordinator.Life.Serving.{
  queue_after, Same, Alike, Same-trans, Alike-trans, queue_after-Same, upload-returns,
  serve-returns, close_log-returns, close_listener-returns, close_listener-none,
}

-- Each end of a close: what it leaves of the server, and the queue.
record Ended (s : Server) (k : ℕ) (q : List Content) (result : Option (Server × Disk))
    : Type 0 where
  pub server : Server
  pub disk : Disk
  pub ends : result ≡ some (server, disk)
  pub holds : IsQueue server.coordinator.durable_log.log k q
  pub log_closed : server.coordinator.durable_log.closed ≡ true
  pub listener_closed : server.listener.closed ≡ true
  pub none_runs : server.listener.running ≡ 0
  pub stopped : server.stopped ≡ s.stopped
  pub polling : server.polling ≡ s.polling

-- The downloads that are served once the log is closed.
abbrev pub after_log : Around → DurableBuffer → ℕ → List Content
after_log a d bound = queue_after d bound a.during (queue_after d bound a.between [])

after_log-Same :
    {d d' : DurableBuffer} (a : Around) (bound : ℕ)
    → Same d d'
    → after_log a d' bound ≡ after_log a d bound
after_log-Same {d} {d'} a bound same =
    queue_after-Same bound a.during (queue_after d' bound a.between []) same
    ∙ ap (queue_after d bound a.during) (queue_after-Same bound a.between [] same)

-- The log is closed first: the downloads that still come are in the queue at the end.
log_first-Ended :
    (a : Around) (s : Server) (disk : Disk) (k : ℕ) (q : List Content)
    → IsQueue s.coordinator.durable_log.log k q
    → s.coordinator.durable_log.closed ≡ false
    → s.listener.closed ≡ false
    → ltb 0 s.listener.running ≡ true
    → s.listener.running ≤ a.connections_end
    → Ended s k (after_log a s.coordinator.durable_log (2 ^ k)) (close_both true a s disk)
log_first-Ended a s disk k q h unclosed opened runs enough =
    let d0 = s.coordinator.durable_log in
    let (d1, disk1, closes, same, shut, empty) =
      close_log-returns a.log_os a.log_now a.log_later d0 disk k q h unclosed in
    let (d2, serves, (same', closed'), holds) =
      serve-returns a.between (with_log d1 s) disk1 k [] empty runs in
    let (d3, waits, (same'', closed''), holds') =
      close_listener-returns a (with_log d2 s) disk1 k _ holds opened runs enough in
    let left =
      queue_after-Same (2 ^ k) a.during (queue_after d1 (2 ^ k) a.between [])
        (Same-trans same same')
      ∙ ap (queue_after d0 (2 ^ k) a.during) (queue_after-Same (2 ^ k) a.between [] same) in
    record {
      server = _;
      disk = disk1;
      ends =
          ap
            (λ (r : Option (DurableBuffer × Disk)).
              and_then (and_then (log_closed s r) (serve a.between)) (close_listener a))
            closes
          ∙ ap (λ (r : Option Server). and_then (on_disk disk1 r) (close_listener a)) serves
          ∙ waits;
      holds = (rw left at holds');
      log_closed = closed'' ∙ closed' ∙ shut;
      listener_closed = closing-closed a.socket_err s.listener;
      none_runs = refl;
      stopped = refl;
      polling = refl;
    }

idle-serves_none :
    (calls : List (ℕ × DownloadRequest)) (s : Server)
    → s.listener.running ≡ 0
    → serve_downloads calls s ≡ some s
unfolding serve_downloads
idle-serves_none [] s idle = refl
idle-serves_none ((now, request) ∷ calls) s idle = rw idle (ground arith)

-- The listener is closed first: no download comes any more once it has been.
listener_first-Ended :
    (a : Around) (s : Server) (disk : Disk) (k : ℕ) (q : List Content)
    → IsQueue s.coordinator.durable_log.log k q
    → s.coordinator.durable_log.closed ≡ false
    → s.listener.closed ≡ false
    → ltb 0 s.listener.running ≡ true
    → s.listener.running ≤ a.connections_end
    → Ended s k [] (close_both false a s disk)
listener_first-Ended a s disk k q h unclosed opened runs enough =
    let (d1, waits, (same, closed), holds) =
      close_listener-returns a s disk k q h opened runs enough in
    let s1 : Server = record (with_log d1 s) {
      listener = record (closing a.socket_err s.listener) { running = 0 };
    } in
    let (d2, disk1, closes, same', shut, empty) =
      close_log-returns a.log_os a.log_now a.log_later d1 disk k _ holds (closed ∙ unclosed) in
    record {
      server = with_log d2 s1;
      disk = disk1;
      ends =
          ap (λ (r : Option (Server × Disk)). and_then (and_then r (serve a.between)) (close_log a))
            waits
          ∙ ap (λ (r : Option Server). and_then (on_disk disk r) (close_log a))
              (idle-serves_none a.between s1 refl)
          ∙ ap (log_closed s1) closes;
      holds = empty;
      log_closed = shut;
      listener_closed = closing-closed a.socket_err s.listener;
      none_runs = refl;
      stopped = refl;
      polling = refl;
    }

close_both-Ended :
    (log_first : Bool) (a : Around) (s : Server) (disk : Disk) (k : ℕ) (q : List Content)
    → IsQueue s.coordinator.durable_log.log k q
    → s.coordinator.durable_log.closed ≡ false
    → s.listener.closed ≡ false
    → ltb 0 s.listener.running ≡ true
    → s.listener.running ≤ a.connections_end
    → Ended s k
        (if log_first then after_log a s.coordinator.durable_log (2 ^ k) else [])
        (close_both log_first a s disk)
close_both-Ended true a s disk k q h unclosed opened runs enough =
    log_first-Ended a s disk k q h unclosed opened runs enough
close_both-Ended false a s disk k q h unclosed opened runs enough =
    listener_first-Ended a s disk k q h unclosed opened runs enough

close_both-none :
    (log_first : Bool) (a : Around) (s : Server) (disk : Disk) (k : ℕ) (q : List Content)
    → IsQueue s.coordinator.durable_log.log k q
    → s.coordinator.durable_log.closed ≡ false
    → s.listener.closed ≡ false
    → a.connections_end < s.listener.running
    → close_both log_first a s disk ≡ none
close_both-none false a s disk k q h unclosed opened few =
    ap (λ (r : Option (Server × Disk)). and_then (and_then r (serve a.between)) (close_log a))
      (close_listener-none a s disk k q h opened few)
close_both-none true a s disk k q h unclosed opened few =
    let (d1, disk1, closes, same, shut, empty) =
      close_log-returns a.log_os a.log_now a.log_later s.coordinator.durable_log disk k q h
        unclosed in
    let (d2, serves, alike, holds) =
      serve-returns a.between (with_log d1 s) disk1 k [] empty (ground (arith, few)) in
    ap
      (λ (r : Option (DurableBuffer × Disk)).
        and_then (and_then (log_closed s r) (serve a.between)) (close_listener a))
      closes
    ∙ ap (λ (r : Option Server). and_then (on_disk disk1 r) (close_listener a)) serves
    ∙ close_listener-none a (with_log d2 s) disk1 k _ holds opened few

-- A close that gets past its first wait comes to the closing of the listener and of the log, with the
-- downloads that were accepted before in the queue.
record Reaches (a : Around) (s : Server) (disk : Disk) (k : ℕ) : Type 0 where
  pub log : DurableBuffer
  pub disk_then : Disk
  pub queue : List Content
  pub holds : IsQueue log.log k queue
  pub alike : Alike s.coordinator.durable_log log
  pub reaches :
      close_coordinator a s disk
      ≡ close_both a.log_first a
          (with_log log (record s { stopped = true; polling = false }))
          disk_then

close_coordinator-Reaches :
    (a : Around) (s : Server) (disk : Disk) (k : ℕ) (q : List Content)
    → IsQueue s.coordinator.durable_log.log k q
    → s.stopped ≡ false
    → (s.polling && not a.polling_ends) ≡ false
    → ltb 0 s.listener.running ≡ true
    → Reaches a s disk k
unfolding close_coordinator
close_coordinator-Reaches a s disk k q h open_still ends runs =
    let s0 : Server = record s { stopped = true; polling = false } in
    let (u, q1, uploads, alike, holds) =
      upload-returns a.upload_os a.upload_now a.upload_later a.client a.is_done a.prefix
        s.coordinator disk k q h in
    let (d2, serves, alike', holds') =
      serve-returns a.before (with_log u.log s0) u.disk k q1 holds runs in
    record {
      log = d2;
      disk_then = u.disk;
      queue = _;
      holds = holds';
      alike = Alike-trans alike alike';
      reaches =
          if-false open_still _
          ∙ if-false ends _
          ∙ ap
              (λ (r : Option Uploaded).
                and_then (and_then (uploaded s0 r) (serve a.before)) (close_both a.log_first a))
              uploads
          ∙ ap (λ (r : Option Server). and_then (on_disk u.disk r) (close_both a.log_first a))
              serves;
    }

stuck_close :
    (a : Around) (s : Server) (disk : Disk) (k : ℕ) (q : List Content)
    → IsQueue s.coordinator.durable_log.log k q
    → s.stopped ≡ false
    → s.coordinator.durable_log.closed ≡ false
    → s.listener.closed ≡ false
    → 0 < s.listener.running
    → ((s.polling && not a.polling_ends) ≡ true) ⊎ (a.connections_end < s.listener.running)
    → close_coordinator a s disk ≡ none
stuck_close a s disk k q h open_still unclosed opened runs stays =
    elim (Bool-cases (s.polling && not a.polling_ends)) [
      | inl polls ↦ unfold close_coordinator in if-false open_still _ ∙ if-true polls _
      | inr ends ↦
          let r = close_coordinator-Reaches a s disk k q h open_still ends (ground (arith, runs)) in
          let (same, closed) = r.alike in
          r.reaches
          ∙ close_both-none a.log_first a
              (with_log r.log (record s { stopped = true; polling = false })) r.disk_then k r.queue
              r.holds (closed ∙ unclosed) opened (fewer ends stays)
    ]
  where
    fewer :
        (s.polling && not a.polling_ends) ≡ false
        → ((s.polling && not a.polling_ends) ≡ true) ⊎ (a.connections_end < s.listener.running)
        → a.connections_end < s.listener.running
    fewer ends (inl polls) = absurd (ground (arith, ends, polls))
    fewer ends (inr few) = few

-- The first close of a coordinator whose listener runs does not return when the polling does not end, or when fewer of the
-- listener's goroutines end than run. It returns when the polling and all of these goroutines end,
-- whatever the file systems and the other calls do, and then the polling has ended, the listener and
-- the log are closed and no connection is served. Nothing is left in the log's ring when the listener
-- is closed before the log. When the log is closed first, the ring holds the downloads that the
-- coordinator still accepts between the two and while the listener waits, which no flush writes any
-- more. A later close changes nothing.
pub close_leaves :
    (a a' stuck : Around) (s : Server) (disk : Disk) (k : ℕ) (q : List Content)
    → IsQueue s.coordinator.durable_log.log k q
    → s.stopped ≡ false
    → s.coordinator.durable_log.closed ≡ false
    → s.listener.closed ≡ false
    → 0 < s.listener.running
    → (s.polling && not a.polling_ends) ≡ false
    → s.listener.running ≤ a.connections_end
    → ((s.polling && not stuck.polling_ends) ≡ true) ⊎ (stuck.connections_end < s.listener.running)
    → (close_coordinator stuck s disk ≡ none)
      × (s' : Server) × (disk' : Disk) × (close_coordinator a s disk ≡ some (s', disk'))
      × (s'.polling ≡ false)
      × (s'.listener.closed ≡ true)
      × (s'.listener.running ≡ 0)
      × (s'.coordinator.durable_log.closed ≡ true)
      × IsQueue s'.coordinator.durable_log.log k (
          if a.log_first
          then queue_after s.coordinator.durable_log
              (2 ^ k)
              a.during
              (queue_after s.coordinator.durable_log (2 ^ k) a.between [])
          else [])
      × (close_coordinator a' s' disk' ≡ some (s', disk'))
close_leaves a a' stuck s disk k q h open_still unclosed opened runs ends enough stays =
    let serves : ltb 0 s.listener.running ≡ true = ground (arith, runs) in
    let r = close_coordinator-Reaches a s disk k q h open_still ends serves in
    let (same, closed) = r.alike in
    let e =
      close_both-Ended a.log_first a (with_log r.log (record s { stopped = true; polling = false }))
        r.disk_then k r.queue r.holds (closed ∙ unclosed) opened serves enough in
    let left =
      ap (λ (l : List Content). if a.log_first then l else []) (after_log-Same a (2 ^ k) same) in
    (
      stuck_close stuck s disk k q h open_still unclosed opened runs stays,
      e.server,
      e.disk,
      r.reaches ∙ e.ends,
      e.polling,
      e.listener_closed,
      e.none_runs,
      e.log_closed,
      (rw left at e.holds),
      (unfold close_coordinator in if-true e.stopped _),
    )
