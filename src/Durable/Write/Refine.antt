-- ===== src/Durable/Write/Refine.antt =====
-- What `Write` promises: the ring with its policy is a queue that rejects or drops its oldest.
use native.Mathlib.Nat.{one-le-pow}
use map_reduce_rpc.Prelude.{
  ℕ, zero, suc, ◌+◌, ◌^◌, ◌<◌, ◌≡◌, refl, arith, Bool, true, false, Option, none, some, List, [],
  ◌∷◌, ◌++◌, ltb, eqb, if◌then◌else◌, length, drop, Bool-cases, inl, inr, ltb→lt,
}
use map_reduce_rpc.RingBuffer.{RingBuffer}
use map_reduce_rpc.RingBuffer.Calls.{IsQueue}
use map_reduce_rpc.RingBuffer.Refine.{push_room, push_no_room, pop_first}
use map_reduce_rpc.Durable.Types.{Content, Error, invalid_handle, buffer_full, overflow_reject}
use map_reduce_rpc.Durable.Buffer.{DurableBuffer, is_handle_expired}
use map_reduce_rpc.Durable.Write.{
  note_entry, accept, write_round, Round, write_loop, write, max_retries,
}

-- What a write whose handle has not expired does to the queue, and its answer.
unfoldable pub queue_write : ℕ → ℕ → List Content → Content → List Content × Option Error
queue_write policy bound q entry =
    if ltb (length q) bound
    then (q ++ entry ∷ [], none)
    else if eqb policy overflow_reject
    then (q, some buffer_full)
    else (drop 1 q ++ entry ∷ [], none)

-- The map of handles after a write with the given answer.
abbrev pub noted : Option Error → Content → DurableBuffer → DurableBuffer
noted none entry d = record d { handles = note_entry entry d.handles }
noted (some e) entry d = d

module _ (d : DurableBuffer) (k : ℕ) (entry : Content) where
  -- A round that answers and leaves the queue `after` in the ring.
  record Wrote (result : List Content × Option Error) (round : Round) : Type 0 where
    pub log : RingBuffer Content
    pub holds : IsQueue log k result.0
    pub ends : round ≡ Round.answers (record (noted result.1 entry d) { log = log }) result.1

  Wrote-room :
      (q : List Content)
      → IsQueue d.log k q
      → length q < 2 ^ k
      → Wrote (q ++ entry ∷ [], none) (write_round entry d d.log)
  unfolding write_round accept
  Wrote-room q h room =
      let (log, returns, after) = push_room h.holds entry room in
      record { log = log; holds = record { start = h.start; holds = after }; ends = rw returns }

  Wrote-reject :
      (q : List Content)
      → IsQueue d.log k q
      → length q ≡ 2 ^ k
      → eqb d.policy overflow_reject ≡ true
      → Wrote (q, some buffer_full) (write_round entry d d.log)
  unfolding write_round accept
  Wrote-reject q h full reject = record {
    log = d.log;
    holds = h;
    ends = rw (push_no_room q h.holds entry full, reject);
  }

  Wrote-drop :
      (q : List Content)
      → IsQueue d.log k q
      → length q ≡ 2 ^ k
      → eqb d.policy overflow_reject ≡ false
      → Wrote (drop 1 q ++ entry ∷ [], none) (write_round entry d d.log)
  unfolding write_round accept
  Wrote-drop [] h full drop = absurd (omega (arith, one-le-pow k 2 (omega arith)))
  Wrote-drop (x ∷ q) h full drop =
      let (log, pops, rest) = pop_first h.holds in
      let (log', pushes, after) = push_room rest entry (omega arith) in
      record {
        log = log';
        holds = record { start = h.start + 1; holds = after };
        ends = rw (push_no_room (x ∷ q) h.holds entry full, drop, pops, pushes);
      }

  write_round-Wrote :
      (q : List Content)
      → IsQueue d.log k q
      → Wrote (queue_write d.policy (2 ^ k) q entry) (write_round entry d d.log)
  unfolding queue_write
  write_round-Wrote q h = elim (Bool-cases (ltb (length q) (2 ^ k))) [
    | inl room ↦ rw room (Wrote-room q h (ltb→lt _ _ room))
    | inr no_room ↦
        let full : length q ≡ 2 ^ k = ground (arith, h.holds.fits) in
        elim (Bool-cases (eqb d.policy overflow_reject)) [
          | inl reject ↦ rw (no_room, reject) (Wrote-reject q h full reject)
          | inr drops ↦ rw (no_room, drops) (Wrote-drop q h full drops)
        ]
  ]

write_loop-answers :
    (retries : ℕ) (entry : Content) (d d' : DurableBuffer) (answer : Option Error)
    → write_round entry d d.log ≡ Round.answers d' answer
    → write_loop retries entry d d.log ≡ some (d', answer)
unfolding write_loop
write_loop-answers zero entry d d' answer e = rw (e, write_loop)
write_loop-answers (suc n) entry d d' answer e = rw (e, write_loop)

-- What a write does to the queue, and its answer. `expired`: its handle has.
unfoldable pub answer_write : Bool → ℕ → ℕ → List Content → Content → List Content × Option Error
answer_write expired policy bound q entry =
    if expired then (q, some invalid_handle) else queue_write policy bound q entry

-- `Write` always returns, and does to the ring what `answer_write` does to the queue that it holds: an
-- expired handle is refused; an entry that has room is appended; when there is none, the policy decides
-- whether the write is refused or the oldest entry is dropped for the new one. Only an accepted entry
-- reaches the map of handles, and nothing else of the state changes. No write needs a retry.
pub write_refines :
    (now : ℕ) (entry : Content) (d : DurableBuffer) (k : ℕ) (q : List Content)
    → IsQueue d.log k q
    → (log : RingBuffer Content) × IsQueue log k
        (answer_write (is_handle_expired now entry.id d) d.policy (2 ^ k) q entry).0
      × (write now entry d
          ≡ some (
            record (noted
                (answer_write (is_handle_expired now entry.id d) d.policy (2 ^ k) q entry).1
                entry
                d) { log = log },
            (answer_write (is_handle_expired now entry.id d) d.policy (2 ^ k) q entry).1,
          ))
unfolding write answer_write
write_refines now entry d k q h = elim (Bool-cases (is_handle_expired now entry.id d)) [
  | inl expired ↦ rw expired (d.log, h, refl)
  | inr fresh ↦
      let w = write_round-Wrote d k entry q h in
      rw fresh (w.log, w.holds, write_loop-answers max_retries entry d _ _ w.ends)
]
