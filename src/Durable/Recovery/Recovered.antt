-- ===== src/Durable/Recovery/Recovered.antt =====
-- The state after the recovery of `monitor`.
use map_reduce_rpc.Prelude.{
  ℕ, zero, suc, ◌+◌, ◌^◌, ◌≤◌, ◌<◌, ◌≡◌, refl, ap, ◌∙◌, arith, true, false, Option, some, List, [],
  ◌∷◌, ◌++◌, length, ltb, if◌then◌else◌, Bool-cases, inl, inr, if-true, All, ltb→lt,
}
use map_reduce_rpc.RingBuffer.{RingBuffer}
use map_reduce_rpc.RingBuffer.Calls.{IsQueue}
use map_reduce_rpc.RingBuffer.Refine.{push_room, push_no_room}
use map_reduce_rpc.Durable.Types.{Content}
use map_reduce_rpc.Durable.Disk.{Disk, Os}
use map_reduce_rpc.Durable.Buffer.{DurableBuffer}
use map_reduce_rpc.Durable.Write.{note_entry}
use map_reduce_rpc.Durable.Recovery.{
  bump_next_handle, push_retries, recover_content, recover, end_recovery, replay, sort_files,
}
use map_reduce_rpc.Durable.Recovery.Replayed.{delivered, visit_until, replay_lem}

-- What a full ring leaves out.
abbrev pub push_or_drop : ℕ → List Content → Content → List Content
push_or_drop bound q c = if ltb (length q) bound then q ++ c ∷ [] else q

push_retries-full :
    (n : ℕ) (c : Content) {log : RingBuffer Content} {k : ℕ} (q : List Content)
    → IsQueue log k q
    → length q ≡ 2 ^ k
    → push_retries n c log ≡ some log
unfolding push_retries
push_retries-full zero c q h full = rw (push_no_room q h.holds c full, push_retries) refl
push_retries-full (suc n) c q h full =
    rw (push_no_room q h.holds c full, push_retries) (push_retries-full n c q h full)

push_retries-refines :
    (c : Content) {log : RingBuffer Content} {k : ℕ} (q : List Content)
    → IsQueue log k q
    → (log' : RingBuffer Content) × (push_retries 100 c log ≡ some log')
      × IsQueue log' k (push_or_drop (2 ^ k) q c)
unfolding push_retries
push_retries-refines c {log} {k} q h = elim (Bool-cases (ltb (length q) (2 ^ k))) [
  | inl room ↦
      let (log', returns, after) = push_room h.holds c (ltb→lt _ _ room) in
      rw room (log', rw (returns, push_retries) refl, record { start = h.start; holds = after })
  | inr full ↦ rw full (log, push_retries-full 100 c q h (ground (arith, h.holds.fits)), h)
]

unfoldable pub push_all : ℕ → List Content → List Content → List Content
push_all bound q [] = q
push_all bound q (c ∷ cs) = push_all bound (push_or_drop bound q c) cs

-- The largest id is not above what the counter will count from.
record Recovered (d : DurableBuffer) (k : ℕ) (q cs : List Content) (r : Option DurableBuffer)
    : Type 0 where
  pub after : DurableBuffer
  pub same : r ≡ some after
  pub holds : IsQueue after.log k (push_all (2 ^ k) q cs)
  pub grows : d.next_handle ≤ after.next_handle
  pub above : All (λ (c : Content). c.id.id < after.next_handle) cs

visit_until-recover :
    (cs : List Content) (d : DurableBuffer) (k : ℕ) (q : List Content)
    → IsQueue d.log k q
    → All (λ (c : Content). c.id.id + 1 < 2 ^ 64) cs
    → Recovered d k q cs (visit_until recover_content cs (some d)).0
unfolding visit_until push_all recover_content
visit_until-recover [] d k q h small = record {
  after = d;
  same = refl;
  holds = h;
  grows = omega arith;
  above = tt;
}
visit_until-recover (c ∷ cs) d k q h (here, small) =
    let (log, pushes, after) = push_retries-refines c q h in
    let next : DurableBuffer = record d {
      next_handle = bump_next_handle c.id.id d.next_handle;
      log = log;
      handles = note_entry c d.handles;
    } in
    let r = visit_until-recover cs next k (push_or_drop (2 ^ k) q c) after small in
    record {
      after = r.after;
      same = rw (pushes, recover_content) r.same;
      holds = r.holds;
      grows = ground (arith, r.grows);
      above = (ground (arith, r.grows), r.above);
    }

-- The contents that `Replay` delivers to the recovery.
unfoldable pub replayed : Os → Disk → DurableBuffer → List Content
replayed os disk d = delivered os d (sort_files (if os.read_dir then disk else []))

recover-on :
    (os : Os) (disk : Disk) (d : DurableBuffer)
    → d.recovery_mode ≡ true
    → recover os disk d
      ≡ end_recovery (replay recover_content os d disk (some (record d { in_recovery = true })))
unfolding recover
recover-on os disk d mode = if-true mode _

-- A recovery always ends. The ring then holds, behind what it held, the contents that `Replay` delivers,
-- as many as there is room for; the others are left on the disk. Every handle that was recovered is
-- below the counter of handles, so a new handle never has the id of a recovered one.
pub recover_lem :
    (os : Os) (disk : Disk) (d : DurableBuffer) (k : ℕ) (q : List Content)
    → IsQueue d.log k q
    → d.recovery_mode ≡ true
    → All (λ (c : Content). c.id.id + 1 < 2 ^ 64) (replayed os disk d)
    → (d' : DurableBuffer) × (recover os disk d ≡ some d')
      × (d'.in_recovery ≡ false)
      × IsQueue d'.log k (push_all (2 ^ k) q (replayed os disk d))
      × All (λ (c : Content). c.id.id < d'.next_handle) (replayed os disk d)
unfolding replayed
recover_lem os disk d k q h mode small =
    let r =
      visit_until-recover (replayed os disk d) (record d { in_recovery = true }) k q h small in
    let ends = replay_lem recover_content os d disk (some (record d { in_recovery = true })) in
    (
      record r.after { in_recovery = false },
      recover-on os disk d mode ∙ ap end_recovery (ends ∙ r.same),
      refl,
      r.holds,
      r.above,
    )
