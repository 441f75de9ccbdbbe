-- ===== src/Coordinator/Life/Serving.antt =====
-- What the last upload of a coordinator, the downloads that it serves, and the closings of its log and
-- its listener do to the log.
use map_reduce_rpc.Prelude.{
  ℕ, ◌^◌, ◌<◌, ◌≤◌, ltb, if-false, ◌≡◌, refl, ap, ◌∙◌, arith, Bool, true, false, Option, none, some,
  List, [], ◌∷◌, Bool-cases, inl, inr, eqb, length,
}
use map_reduce_rpc.Prelude.Trim.{trim_space}
use map_reduce_rpc.RingBuffer.{RingBuffer}
use map_reduce_rpc.Listener.{closing}
use map_reduce_rpc.Listener.Life.{closing-running, wait-returns, wait-none}
use map_reduce_rpc.RingBuffer.Calls.{IsQueue}
use map_reduce_rpc.Durable.Types.{Handle, Content, Error}
use map_reduce_rpc.Durable.Disk.{Disk, Os}
use map_reduce_rpc.Durable.Buffer.{DurableBuffer, is_handle_expired, prune_processing_handles}
use map_reduce_rpc.Durable.Write.Refine.{answer_write, noted, write_refines}
use map_reduce_rpc.Durable.Registry.{get_completed_handles, mark_loop, mark_handles_uploaded}
use map_reduce_rpc.Durable.Sync.Refine.{flush_empties}
use map_reduce_rpc.Durable.Retention.{cleanup, monitor_step}
use map_reduce_rpc.Rpc.{DownloadRequest}
use map_reduce_rpc.Coordinator.Calls.{forward_download, reply_to, download_reply}
use map_reduce_rpc.Coordinator.Calls.Download.{content_of}
use map_reduce_rpc.Coordinator.Upload.{
  Coordinator, DfsClient, Uploaded, mark_uploaded, upload_file_to_storage, uploaded_of,
  upload_handle,
}
use map_reduce_rpc.Coordinator.Life.{
  Server, with_log, serve_downloads, on_disk, Around, and_then, waited, wait_listener,
  close_listener,
}

-- Calls that come to a log, one after the other, as its queue sees them.
unfoldable pub queue_after :
    DurableBuffer → ℕ → List (ℕ × DownloadRequest) → List Content → List Content
queue_after d bound [] q = q
queue_after d bound ((now, request) ∷ calls) q =
    queue_after d bound calls
      (answer_write (is_handle_expired now request.handle d) d.policy bound q
        (content_of request)).0

-- Another state of the log, which judges handles and writes as the first one.
pub record Same (d d' : DurableBuffer) : Type 0 where
  pub expiry :
      (now : ℕ) (handle : Handle) → is_handle_expired now handle d' ≡ is_handle_expired now handle d
  pub policy : d'.policy ≡ d.policy

-- It is also closed just when the first one is.
abbrev pub Alike : DurableBuffer → DurableBuffer → Type 0
Alike d d' = Same d d' × (d'.closed ≡ d.closed)

pub Same-trans : {d d' d'' : DurableBuffer} → Same d d' → Same d' d'' → Same d d''
Same-trans a b = record {
  expiry = λ now h. b.expiry now h ∙ a.expiry now h;
  policy = b.policy ∙ a.policy;
}

pub Alike-trans : {d d' d'' : DurableBuffer} → Alike d d' → Alike d' d'' → Alike d d''
Alike-trans (a, closed) (b, closed') = (Same-trans a b, closed' ∙ closed)

pub queue_after-Same :
    {d d' : DurableBuffer} (bound : ℕ) (calls : List (ℕ × DownloadRequest)) (q : List Content)
    → Same d d'
    → queue_after d' bound calls q ≡ queue_after d bound calls q
unfolding queue_after
queue_after-Same bound [] q same = refl
queue_after-Same bound ((now, request) ∷ calls) q same =
    rw (same.expiry now request.handle, same.policy) (queue_after-Same bound calls _ same)

with_ring-Alike : (d : DurableBuffer) (log : RingBuffer Content) → Alike d (record d { log = log })
with_ring-Alike d log =
    unfold is_handle_expired in (record { expiry = λ now h. refl; policy = refl }, refl)

noted-Alike :
    (answer : Option Error) (c : Content) (log : RingBuffer Content) (d : DurableBuffer)
    → Alike d (record (noted answer c d) { log = log })
noted-Alike none c log d =
    unfold is_handle_expired in (record { expiry = λ now h. refl; policy = refl }, refl)
noted-Alike (some e) c log d = with_ring-Alike d log

mark_loop-Alike :
    (now : ℕ) (hs : List Handle) (d : DurableBuffer)
    → Alike d (mark_loop now hs d) × ((mark_loop now hs d).log ≡ d.log)
unfolding mark_loop is_handle_expired
mark_loop-Alike now [] d = ((record { expiry = λ t h. refl; policy = refl }, refl), refl)
mark_loop-Alike now (h ∷ hs) d =
    let ((same, closed), log) = mark_loop-Alike now hs _ in
    ((record { expiry = same.expiry; policy = same.policy }, closed), log)

mark_uploaded-Alike :
    (os : Os) (now later : ℕ) (hs : List Handle) (d : DurableBuffer) (disk : Disk)
    → Alike d (mark_uploaded os now later hs d disk).0
      × ((mark_uploaded os now later hs d disk).0.log ≡ d.log)
unfolding mark_handles_uploaded
mark_uploaded-Alike os now later [] d disk =
    ((record { expiry = λ t h. refl; policy = refl }, refl), refl)
mark_uploaded-Alike os now later (h ∷ hs) d disk = mark_loop-Alike now (h ∷ hs) d

-- The last upload returns, and empties the ring or leaves it as it is.
pub upload-returns :
    (os : Os) (now later : ℕ) (client : DfsClient) (is_done : Handle → Bool) (prefix : List ℕ)
    (c : Coordinator) (disk : Disk) (k : ℕ) (q : List Content)
    → IsQueue c.durable_log.log k q
    → (u : Uploaded) × (q' : List Content) × (upload_file_to_storage os now later client is_done
          prefix c disk
        ≡ some u)
      × Alike c.durable_log u.log
      × IsQueue u.log.log k q'
unfolding upload_file_to_storage
upload-returns os now later client is_done prefix c disk k q h =
    elim (Bool-cases (eqb (length (trim_space c.fs_server_address)) 0)) [
      | inl nowhere ↦ rw nowhere (
        record { log = c.durable_log; disk = disk; ok = true },
        q,
        refl,
        (record { expiry = λ t g. refl; policy = refl }, refl),
        h,
      )
      | inr somewhere ↦
          let (log, disk', err, after, flushes) = flush_empties os c.durable_log disk k q h in
          let d : DurableBuffer = record c.durable_log { log = log } in
          let (alike, kept) =
            mark_uploaded-Alike os now later
              (uploaded_of (upload_handle os client d.log_dir is_done prefix disk')
                (get_completed_handles d))
              d disk' in
          rw (somewhere, flushes)
            (_, [], refl, Alike-trans (with_ring-Alike c.durable_log log) alike, (rw kept after))
    ]

-- The downloads that are served do to the log what they do to its queue.
pub serve-returns :
    (calls : List (ℕ × DownloadRequest)) (s : Server) (disk : Disk) (k : ℕ) (q : List Content)
    → IsQueue s.coordinator.durable_log.log k q
    → ltb 0 s.listener.running ≡ true
    → (d : DurableBuffer) × (serve_downloads calls s ≡ some (with_log d s))
      × Alike s.coordinator.durable_log d
      × IsQueue d.log k (queue_after s.coordinator.durable_log (2 ^ k) calls q)
unfolding serve_downloads queue_after
serve-returns [] s disk k q h open_still =
    (s.coordinator.durable_log, refl, (record { expiry = λ t g. refl; policy = refl }, refl), h)
serve-returns ((now, request) ∷ calls) s disk k q h open_still =
    let d0 = s.coordinator.durable_log in
    let c = content_of request in
    let (log, after, writes) = write_refines now c d0 k q h in
    let answer = answer_write (is_handle_expired now c.id d0) d0.policy (2 ^ k) q c in
    let d1 : DurableBuffer = record (noted answer.1 c d0) { log = log } in
    let alike = noted-Alike answer.1 c log d0 in
    let (d2, serves, alike', after') =
      serve-returns calls (with_log d1 s) disk k answer.0 after open_still in
    let forwards : forward_download now request d0 ≡ some (d1, download_reply answer.1) =
      (unfold forward_download in ap reply_to writes) in
    (
      d2,
      rw (open_still, forwards, serve_downloads) serves,
      Alike-trans alike alike',
      (rw (queue_after-Same (2 ^ k) calls answer.0 alike.0) at after'),
    )

-- The closing of a log that is open empties it.
pub close_log-returns :
    (os : Os) (now later : ℕ) (d : DurableBuffer) (disk : Disk) (k : ℕ) (q : List Content)
    → IsQueue d.log k q
    → d.closed ≡ false
    → (d' : DurableBuffer) × (disk' : Disk) × (map_reduce_rpc.Durable.Retention.close os now later d
          disk
        ≡ some (d', disk'))
      × Same d d'
      × (d'.closed ≡ true)
      × IsQueue d'.log k []
unfolding map_reduce_rpc.Durable.Retention.close monitor_step cleanup prune_processing_handles
    is_handle_expired
close_log-returns os now later d disk k q h open_still =
    let d0 : DurableBuffer = record d { closed = true } in
    let (log, disk', err, after, flushes) = flush_empties os d0 disk k q h in
    rw (open_still, flushes)
      (_, _, refl, record { expiry = λ t g. refl; policy = refl }, refl, after)

closing-served :
    (a : Around) (s : Server)
    → ltb 0 s.listener.running ≡ true
    → ltb 0 (closing a.socket_err s.listener).running ≡ true
closing-served a s runs = rw (closing-running a.socket_err s.listener) runs

-- The close of the listener returns when all of its goroutines end, and the downloads that it serves
-- until then are in the queue.
pub close_listener-returns :
    (a : Around) (s : Server) (disk : Disk) (k : ℕ) (q : List Content)
    → IsQueue s.coordinator.durable_log.log k q
    → s.listener.closed ≡ false
    → ltb 0 s.listener.running ≡ true
    → s.listener.running ≤ a.connections_end
    → (d : DurableBuffer) × (close_listener a s disk
        ≡ some (
          record (with_log d s) {
            listener = record (closing a.socket_err s.listener) { running = 0 };
          },
          disk,
        ))
      × Alike s.coordinator.durable_log d
      × IsQueue d.log k (queue_after s.coordinator.durable_log (2 ^ k) a.during q)
close_listener-returns a s disk k q h opened runs enough =
    let s1 : Server = record s { listener = closing a.socket_err s.listener } in
    let (d, serves, alike, after) =
      serve-returns a.during s1 disk k q h (closing-served a s runs) in
    (
      d,
      if-false opened _
          ∙ ap (λ (r : Option Server). and_then (on_disk disk r) (wait_listener a)) serves
          ∙ ap (waited (with_log d s1) disk) (
              wait-returns a.connections_end (closing a.socket_err s.listener)
                (rw (closing-running a.socket_err s.listener) enough)),
      alike,
      after,
    )

-- It does not return when fewer of them end.
pub close_listener-none :
    (a : Around) (s : Server) (disk : Disk) (k : ℕ) (q : List Content)
    → IsQueue s.coordinator.durable_log.log k q
    → s.listener.closed ≡ false
    → a.connections_end < s.listener.running
    → close_listener a s disk ≡ none
close_listener-none a s disk k q h opened few =
    let s1 : Server = record s { listener = closing a.socket_err s.listener } in
    let runs : ltb 0 s.listener.running ≡ true = ground (arith, few) in
    let (d, serves, alike, after) =
      serve-returns a.during s1 disk k q h (closing-served a s runs) in
    if-false opened _
    ∙ ap (λ (r : Option Server). and_then (on_disk disk r) (wait_listener a)) serves
    ∙ ap (waited (with_log d s1) disk) (
        wait-none a.connections_end (closing a.socket_err s.listener)
          (rw (closing-running a.socket_err s.listener) few))
