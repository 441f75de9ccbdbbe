-- ===== src/Tests/Helpers.antt =====
-- The helpers, the listener and the smallest ring at work.
use map_reduce_rpc.Prelude.{ℕ, ◌-◌, ◌≡◌, true, none, some, List, [], ◌∷◌}
use map_reduce_rpc.RingBuffer.{RingBuffer, PopState, new_ring_buffer, push, run_pop, pop_result}
use map_reduce_rpc.RingBuffer.OneSlot.{one_slot_overwrites}
use map_reduce_rpc.Listener.Life.{Event}

abbrev zero_byte : ℕ
zero_byte = 0

abbrev seven : ℕ
seven = 7

abbrev eight : ℕ
eight = 8

abbrev three : List ℕ
three = 1 ∷ 2 ∷ 3 ∷ []

one_slot_overwrites_example :
    (one two : RingBuffer ℕ) × ((new_ring_buffer zero_byte 1).capacity ≡ 1)
    × (push seven (new_ring_buffer zero_byte 1) ≡ some (one, true))
    × (one.buffer ≡ record { sequence = 1; val = seven } ∷ [])
    × (push eight one ≡ some (two, true))
    × (two.buffer ≡ record { sequence = 2; val = eight } ∷ [])
    × (two.tail - two.head ≡ 2)
    × ((n : ℕ) → pop_result (run_pop n two PopState.load_head) ≡ none)
one_slot_overwrites_example = one_slot_overwrites zero_byte seven eight

abbrev opening : List Event
opening = Event.listens (λ address. true) ∷ []
