-- ===== src/RingBuffer/Threads.antt =====
-- Calls of `Push` and `Pop` of mrp/ringbuffer.go by any number of threads, interleaved action by action.
pub mod Positions
pub mod Change
pub mod Slots
pub mod Claims
pub mod Writes
pub mod Moves
pub mod History
pub mod Safety
pub mod Quiet
use map_reduce_rpc.Prelude.{
  ℕ, List, [], ◌∷◌, Option, none, some, eqb, if◌then◌else◌, get_elem?, Bool, true, false,
}
use map_reduce_rpc.RingBuffer.{
  RingBuffer, new_ring_buffer, PushState, PopState, push_step, pop_step,
}
use map_reduce_rpc.RingBuffer.Calls.{Call, put, get}

-- A thread in a call of `Push` with this value, or in a call of `Pop`.
pub data Thread (A : Type 0) : Type 0 where
  pushing : A → PushState → Thread A
  popping : PopState A → Thread A

abbrev pub update {ℓ} : {B : Type ℓ} → (ℕ → B) → ℕ → B → ℕ → B
update f i b j = if eqb j i then b else f j

pub record System (A : Type 0) : Type 0 where
  pub ring : RingBuffer A
  pub threads : ℕ → Thread A

module _ {A : Type 0} where
  abbrev pushing_on : A → RingBuffer A × PushState → RingBuffer A × Thread A
  pushing_on x (rb, s) = (rb, pushing x s)

  abbrev popping_on : RingBuffer A × PopState A → RingBuffer A × Thread A
  popping_on (rb, s) = (rb, popping s)

  -- The next action of a thread; one that has returned does nothing.
  abbrev pub thread_step : RingBuffer A → Thread A → RingBuffer A × Thread A
  thread_step rb (pushing x s) = pushing_on x (push_step x rb s)
  thread_step rb (popping s) = popping_on (pop_step rb s)

  abbrev pub turn : ℕ → System A → System A
  turn i s =
      let (rb, t) = thread_step s.ring (s.threads i) in
      record { ring = rb; threads = update s.threads i t }

  -- The threads act in the order of the schedule.
  unfoldable pub run_schedule : List ℕ → System A → System A
  run_schedule [] s = s
  run_schedule (i ∷ schedule) s = run_schedule schedule (turn i s)

  abbrev pub begin : Option (Call A) → Thread A
  begin none = popping (PopState.returned none)
  begin (some (put x)) = pushing x PushState.load_tail
  begin (some get) = popping PopState.load_head

  -- Thread `i` makes call `i`; there is nothing to do for the others.
  abbrev pub threads_of : List (Call A) → ℕ → Thread A
  threads_of calls i = begin (get_elem? calls i)

  -- A new ring, and the calls before their first actions.
  unfoldable pub started : A → ℕ → List (Call A) → System A
  started zero_value capacity calls = record {
    ring = new_ring_buffer zero_value capacity;
    threads = threads_of calls;
  }

  -- Whether a thread has returned.
  abbrev pub is_returned : Thread A → Bool
  is_returned (pushing x (PushState.returned b)) = true
  is_returned (popping (PopState.returned r)) = true
  is_returned t = false

  -- The value that a thread pushes, and the value that a thread has popped.
  abbrev pub pushed : Thread A → Option A
  pushed (pushing x s) = some x
  pushed (popping s) = none

  abbrev pub popped : Thread A → Option A
  popped (popping (PopState.returned r)) = r
  popped t = none

  -- The threads that move the tail, and those that move the head, in the order in which they do.
  unfoldable pub tail_movers : List ℕ → System A → List ℕ
  tail_movers [] s = []
  tail_movers (i ∷ schedule) s =
      let movers = tail_movers schedule (turn i s) in
      if eqb (turn i s).ring.tail s.ring.tail then movers else i ∷ movers

  unfoldable pub head_movers : List ℕ → System A → List ℕ
  head_movers [] s = []
  head_movers (i ∷ schedule) s =
      let movers = head_movers schedule (turn i s) in
      if eqb (turn i s).ring.head s.ring.head then movers else i ∷ movers
