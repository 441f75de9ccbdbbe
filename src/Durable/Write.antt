-- ===== src/Durable/Write.antt =====
-- `Write` of mrp/durable_buffer.go: a content goes into the ring, and the map of handles learns
-- whether the content of its handle is complete.
pub mod Refine
use map_reduce_rpc.Prelude.{
  ℕ, zero, suc, Bool, true, false, Option, none, some, List, [], ◌∷◌, eqb, if◌then◌else◌, nat_eq,
}
use map_reduce_rpc.Prelude.Assoc.{Assoc, lookup, store}
use map_reduce_rpc.RingBuffer.{RingBuffer, push, pop}
use map_reduce_rpc.Durable.Types.{
  Handle, Content, handle_eq, Error, invalid_handle, buffer_full, buffer_full_after_retries,
  overflow_reject,
}
use map_reduce_rpc.Durable.Buffer.{DurableBuffer, is_handle_expired}

abbrev note_open : Option Bool → Content → Assoc Handle Bool → Assoc Handle Bool
note_open none entry handles = store entry.id false handles
note_open (some false) entry handles = store entry.id false handles
note_open (some true) entry handles = handles

-- The end of `Write`: a handle that was complete stays so.
unfoldable pub note_entry : Content → Assoc Handle Bool → Assoc Handle Bool
note_entry entry handles =
    if entry.eof
    then store entry.id true handles
    else note_open (lookup entry.id handles) entry handles

unfoldable pub accept : Content → DurableBuffer → RingBuffer Content → DurableBuffer
accept entry d log = record d { log = log; handles = note_entry entry d.handles }

abbrev pub max_retries : ℕ
max_retries = 100

-- How a round of the loop of `Write` ends: with an answer, or with the ring for the next round.
-- `stuck`: a call of the ring did not return.
pub data Round : Type 0 where
  stuck : Round
  answers : DurableBuffer → Option Error → Round
  again : RingBuffer Content → Round

abbrev second_push : Content → DurableBuffer → Option (RingBuffer Content × Bool) → Round
second_push entry d none = stuck
second_push entry d (some (log, true)) = answers (accept entry d log) none
second_push entry d (some (log, false)) = again log

abbrev drop_oldest : Content → DurableBuffer → Option (RingBuffer Content × Option Content) → Round
drop_oldest entry d none = stuck
drop_oldest entry d (some (log, dropped)) = second_push entry d (push entry log)

abbrev first_push : Content → DurableBuffer → Option (RingBuffer Content × Bool) → Round
first_push entry d none = stuck
first_push entry d (some (log, true)) = answers (accept entry d log) none
first_push entry d (some (log, false)) =
    if eqb d.policy overflow_reject
    then answers (record d { log = log }) (some buffer_full)
    else drop_oldest entry d (pop log)

-- One round, under the mutex.
unfoldable pub write_round : Content → DurableBuffer → RingBuffer Content → Round
write_round entry d log = first_push entry d (push entry log)

-- The loop of `Write` with the number of retries that are left.
unfoldable pub write_loop :
    ℕ → Content → DurableBuffer → RingBuffer Content → Option (DurableBuffer × Option Error)
write_loop zero entry d log = elim (write_round entry d log) [
  | Round.stuck ↦ none
  | Round.answers d' answer ↦ some (d', answer)
  | Round.again log' ↦ some (record d { log = log' }, some buffer_full_after_retries)
]
write_loop (suc retries) entry d log = elim (write_round entry d log) [
  | Round.stuck ↦ none
  | Round.answers d' answer ↦ some (d', answer)
  | Round.again log' ↦ write_loop retries entry d log'
]

-- `Write`, with the reading of the clock.
unfoldable pub write : ℕ → Content → DurableBuffer → Option (DurableBuffer × Option Error)
write now content d =
    if is_handle_expired now content.id d
    then some (d, some invalid_handle)
    else write_loop max_retries content d d.log
