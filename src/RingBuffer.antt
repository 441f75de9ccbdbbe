-- ===== src/RingBuffer.antt =====
-- mrp/ringbuffer.go: the lock-free ring buffer. `push_step` and `pop_step` are the atomic actions of
-- `Push` and `Pop`, one load, compare-and-swap or write each, so that they can be interleaved;
-- `push` and `pop` run them alone, as `DurableBuffer` does under its mutex.
-- The counters are `uint64` and wrap around. An index out of range would be a panic in Go: a read
-- gives the default and a write changes nothing, and the invariant shows that there is none.
pub mod Capacity
pub mod Holds
pub mod Alone
pub mod Queue
pub mod Refine
pub mod Calls
pub mod OneSlot
pub mod Threads
use Prim.Native.Nat.{bit_and, bit_or}
use map_reduce_rpc.Prelude.{
  ℕ, zero, suc, ◌+◌, ◌-◌, ◌/◌, ◌%◌, ◌^◌, Bool, true, false, Option, none, some, List, [], ◌∷◌, ◌++◌,
  ltb, eqb, if◌then◌else◌, length, get_elem?, set,
}
use map_reduce_rpc.Prelude.Words.{add64, sub64, negative64}

pub record Slot {ℓ} (A : Type ℓ) : Type ℓ where
  pub sequence : ℕ
  pub val : A

pub record RingBuffer {ℓ} (A : Type ℓ) : Type ℓ where
  pub buffer : List (Slot A)
  pub head : ℕ
  pub tail : ℕ
  pub capacity : ℕ

-- `n |= n >> k`
unfoldable pub smear : ℕ → ℕ → ℕ
smear k n = bit_or n (n / 2 ^ k)

unfoldable pub next_power_of_two : ℕ → ℕ
next_power_of_two n =
    if eqb n 0
    then 1
    else add64 (smear 32 (smear 16 (smear 8 (smear 4 (smear 2 (smear 1 (n - 1))))))) 1

module _ {ℓ} {A : Type ℓ} where
  -- the loop of `NewRingBuffer`: `n` slots from index `i` on
  unfoldable pub new_slots : A → ℕ → ℕ → List (Slot A)
  new_slots zero_value zero i = []
  new_slots zero_value (suc n) i =
      record { sequence = i; val = zero_value } ∷ new_slots zero_value n (i + 1)

  unfoldable pub new_ring_buffer : A → ℕ → RingBuffer A
  unfolding next_power_of_two new_slots
  new_ring_buffer zero_value capacity = record {
    buffer = new_slots zero_value (next_power_of_two capacity) 0;
    head = 0;
    tail = 0;
    capacity = next_power_of_two capacity;
  }

  abbrev pub cap : RingBuffer A → ℕ
  cap rb = rb.capacity

  unfoldable pub len : RingBuffer A → ℕ
  len rb = if ltb rb.head rb.tail then rb.tail - rb.head else 0

  unfoldable pub is_full : RingBuffer A → Bool
  is_full rb = eqb (len rb) rb.capacity

  unfoldable pub is_empty : RingBuffer A → Bool
  is_empty rb = eqb (len rb) 0

  -- `position & mask`
  abbrev pub index : RingBuffer A → ℕ → ℕ
  index rb position = bit_and position (sub64 rb.capacity 1)

  abbrev sequence_of : Option (Slot A) → ℕ
  sequence_of none = 0
  sequence_of (some slot) = slot.sequence

  abbrev pub sequence_at : List (Slot A) → ℕ → ℕ
  sequence_at slots i = sequence_of (get_elem? slots i)

  abbrev with_sequence : ℕ → Option (Slot A) → ℕ → List (Slot A) → List (Slot A)
  with_sequence i none sequence slots = slots
  with_sequence i (some slot) sequence slots = set slots i (record slot { sequence = sequence })

  abbrev pub store_sequence_at : List (Slot A) → ℕ → ℕ → List (Slot A)
  store_sequence_at slots i sequence = with_sequence i (get_elem? slots i) sequence slots

  abbrev with_val : ℕ → Option (Slot A) → A → List (Slot A) → List (Slot A)
  with_val i none val slots = slots
  with_val i (some slot) val slots = set slots i (record slot { val = val })

  abbrev pub write_val_at : List (Slot A) → ℕ → A → List (Slot A)
  write_val_at slots i val = with_val i (get_elem? slots i) val slots

-- Where a call of `Push` stands: before the action that the constructor names.
pub data PushState : Type 0 where
  load_tail : PushState
  load_sequence : ℕ → PushState
  swap_tail : ℕ → PushState
  write_val : ℕ → PushState
  store_sequence : ℕ → PushState
  returned : Bool → PushState

-- the `switch` on `int64(sequence) - int64(tail)`
abbrev pub push_switch : ℕ → ℕ → PushState
push_switch tail difference =
    if eqb difference 0
    then PushState.swap_tail tail
    else if negative64 difference
    then PushState.returned false
    else PushState.load_tail

-- Where a call of `Pop` stands. `none` is the answer that the buffer is empty.
pub data PopState {ℓ} (A : Type ℓ) : Type ℓ where
  load_head : PopState A
  load_sequence : ℕ → PopState A
  swap_head : ℕ → PopState A
  read_val : ℕ → PopState A
  store_sequence : ℕ → A → PopState A
  returned : Option A → PopState A

module _ {ℓ} {A : Type ℓ} where
  unfoldable pub push_step : A → RingBuffer A → PushState → RingBuffer A × PushState
  push_step val rb PushState.load_tail = (rb, PushState.load_sequence rb.tail)
  push_step val rb (PushState.load_sequence tail) =
      (rb, push_switch tail (sub64 (sequence_at rb.buffer (index rb tail)) tail))
  push_step val rb (PushState.swap_tail tail) =
      if eqb rb.tail tail
      then (record rb { tail = add64 tail 1 }, PushState.write_val tail)
      else (rb, PushState.load_tail)
  push_step val rb (PushState.write_val tail) = (
    record rb { buffer = write_val_at rb.buffer (index rb tail) val },
    PushState.store_sequence tail,
  )
  push_step val rb (PushState.store_sequence tail) = (
    record rb { buffer = store_sequence_at rb.buffer (index rb tail) (add64 tail 1) },
    PushState.returned true,
  )
  push_step val rb (PushState.returned b) = (rb, PushState.returned b)

  -- the `switch` on `int64(sequence) - int64(head+1)`
  abbrev pub pop_switch : ℕ → ℕ → PopState A
  pop_switch head difference =
      if eqb difference 0
      then PopState.swap_head head
      else if negative64 difference
      then PopState.returned none
      else PopState.load_head

  abbrev pub read_slot : ℕ → Option (Slot A) → PopState A
  read_slot head none = PopState.read_val head
  read_slot head (some slot) = PopState.store_sequence head slot.val

  unfoldable pub pop_step : RingBuffer A → PopState A → RingBuffer A × PopState A
  pop_step rb PopState.load_head = (rb, PopState.load_sequence rb.head)
  pop_step rb (PopState.load_sequence head) =
      (rb, pop_switch head (sub64 (sequence_at rb.buffer (index rb head)) (add64 head 1)))
  pop_step rb (PopState.swap_head head) =
      if eqb rb.head head
      then (record rb { head = add64 head 1 }, PopState.read_val head)
      else (rb, PopState.load_head)
  pop_step rb (PopState.read_val head) = (rb, read_slot head (get_elem? rb.buffer (index rb head)))
  pop_step rb (PopState.store_sequence head val) = (
    record rb { buffer = store_sequence_at rb.buffer (index rb head) (add64 head rb.capacity) },
    PopState.returned (some val),
  )
  pop_step rb (PopState.returned r) = (rb, PopState.returned r)

  unfoldable pub run_push : ℕ → A → RingBuffer A → PushState → RingBuffer A × PushState
  run_push zero val rb s = (rb, s)
  run_push (suc n) val rb s = let (rb', s') = push_step val rb s in run_push n val rb' s'

  unfoldable pub run_pop : ℕ → RingBuffer A → PopState A → RingBuffer A × PopState A
  run_pop zero rb s = (rb, s)
  run_pop (suc n) rb s = let (rb', s') = pop_step rb s in run_pop n rb' s'

  abbrev pub push_result : RingBuffer A × PushState → Option (RingBuffer A × Bool)
  push_result (rb, PushState.returned b) = some (rb, b)
  push_result (rb, _) = none

  abbrev pub pop_result : RingBuffer A × PopState A → Option (RingBuffer A × Option A)
  pop_result (rb, PopState.returned r) = some (rb, r)
  pop_result (rb, _) = none

  -- A call that runs alone does not repeat its loop: five actions, and `none` would mean that it
  -- has not returned by then.
  unfoldable pub push : A → RingBuffer A → Option (RingBuffer A × Bool)
  unfolding run_push push_step
  push val rb = push_result (run_push 5 val rb PushState.load_tail)

  unfoldable pub pop : RingBuffer A → Option (RingBuffer A × Option A)
  unfolding run_pop pop_step
  pop rb = pop_result (run_pop 5 rb PopState.load_head)

  -- `Drain` into a slice of `room` elements: the values in the order in which they are written.
  unfoldable pub drain : ℕ → RingBuffer A → Option (RingBuffer A × List A)
  drain zero rb = some (rb, [])
  drain (suc room) rb = elim (pop rb) [
    | none ↦ none
    | some (rb', none) ↦ some (rb', [])
    | some (rb', some val) ↦ elim (drain room rb') [
      | none ↦ none
      | some (rb'', vals) ↦ some (rb'', val ∷ vals)
    ]
  ]
