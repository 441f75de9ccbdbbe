-- ===== src/RingBuffer/OneSlot.antt =====
-- A ring of one slot. The slot that `Push` has just filled has the sequence number that `Push`
-- expects of a free slot a lap later, so the ring never counts as full.
use map_reduce_rpc.Prelude.{ℕ, zero, suc, ◌-◌, ◌≡◌, refl, true, none, some, [], ◌∷◌}
use map_reduce_rpc.RingBuffer.{
  RingBuffer, PopState, smear, new_ring_buffer, push, run_pop, pop_step, pop_result,
}

module _ {ℓ} {A : Type ℓ} (zero_value a b : A) where
  -- the ring after two pushes
  abbrev overwritten : RingBuffer A
  overwritten = record {
    buffer = record { sequence = 2; val = b } ∷ [];
    head = 0;
    tail = 2;
    capacity = 1;
  }

  pop_spins : (n : ℕ) → pop_result (run_pop n overwritten PopState.load_head) ≡ none
  unfolding run_pop pop_step
  pop_spins zero = refl
  pop_spins (suc zero) = refl
  pop_spins (suc (suc n)) = pop_spins n

  -- `NewRingBuffer(1)` has capacity 1. Two pushes both return true; the only slot has the first value
  -- after the first push and the second value after the second, though the tail counts two values; and
  -- a `Pop` after them does not return, however many actions it takes.
  pub one_slot_overwrites :
      (one two : RingBuffer A) × ((new_ring_buffer zero_value 1).capacity ≡ 1)
      × (push a (new_ring_buffer zero_value 1) ≡ some (one, true))
      × (one.buffer ≡ record { sequence = 1; val = a } ∷ [])
      × (push b one ≡ some (two, true))
      × (two.buffer ≡ record { sequence = 2; val = b } ∷ [])
      × (two.tail - two.head ≡ 2)
      × ((n : ℕ) → pop_result (run_pop n two PopState.load_head) ≡ none)
  unfolding new_ring_buffer smear push
  one_slot_overwrites = (
    record { buffer = record { sequence = 1; val = a } ∷ []; head = 0; tail = 1; capacity = 1 },
    overwritten,
    refl,
    refl,
    refl,
    refl,
    refl,
    refl,
    pop_spins,
  )
