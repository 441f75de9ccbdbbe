-- ===== src/Tests/Threads.antt =====
-- Two pushes and a pop on one ring, action by action. The second push loses the race for the tail.
use mathlib.Core.List.{map}
use map_reduce_rpc.Prelude.{
  ℕ, zero, suc, ◌*◌, ◌^◌, ◌<◌, ◌≤◌, ◌≡◌, ◌≢◌, refl, arith, Bool, true, false, some, List, [], ◌∷◌,
  ◌++◌, get_elem?, ltb, ap, ◌∙◌, ◌&&◌,
}
use map_reduce_rpc.RingBuffer.{
  PushState, PopState, push_step, pop_step, new_ring_buffer, len, next_power_of_two, new_slots,
  smear,
}
use map_reduce_rpc.RingBuffer.Calls.{IsQueue, Call, put, get}
use map_reduce_rpc.RingBuffer.Threads.{
  pushing, popping, run_schedule, started, threads_of, tail_movers, head_movers, is_returned,
  pushed, popped, turn, System,
}
use map_reduce_rpc.RingBuffer.Threads.Safety.{popped_once, push_answers}
use map_reduce_rpc.RingBuffer.Threads.Quiet.{first_in_first_out}

abbrev calls : List (Call ℕ)
calls = put 7 ∷ put 8 ∷ get ∷ []

abbrev turns : List ℕ
turns = 0 ∷ 1 ∷ 0 ∷ 1 ∷ 0 ∷ 1 ∷ 0 ∷ 1 ∷ 2 ∷ 0 ∷ 1 ∷ 2 ∷ 1 ∷ 2 ∷ 1 ∷ 2 ∷ 1 ∷ 2 ∷ []

popped_at :
    (run_schedule turns (started 0 2 calls)).threads 2 ≡ popping (PopState.returned (some 7))
unfolding run_schedule started new_ring_buffer next_power_of_two new_slots smear push_step pop_step
popped_at = refl

pushed_at : (run_schedule turns (started 0 2 calls)).threads 1 ≡ pushing 8 (PushState.returned true)
unfolding run_schedule started new_ring_buffer next_power_of_two new_slots smear push_step pop_step
pushed_at = refl

abbrev all_below : ℕ → List ℕ → Bool
all_below n [] = true
all_below n (i ∷ schedule) = ltb i n && all_below n schedule

-- A thread whose turn never comes stays as it is.
untouched :
    (n : ℕ) (schedule : List ℕ) (s : System ℕ) (i : ℕ)
    → all_below n schedule ≡ true
    → n ≤ i
    → (run_schedule schedule s).threads i ≡ s.threads i
unfolding run_schedule
untouched n [] s i below lo = refl
untouched n (j ∷ schedule) s i below lo =
    untouched n schedule (turn j s) i (ground arith) lo ∙ ground arith

all_returned : (i : ℕ) → is_returned ((run_schedule turns (started 0 2 calls)).threads i) ≡ true
unfolding run_schedule started new_ring_buffer next_power_of_two new_slots smear push_step pop_step
all_returned zero = refl
all_returned (suc zero) = refl
all_returned (suc (suc zero)) = refl
all_returned (suc (suc (suc i))) =
    ap is_returned (untouched 3 turns (started 0 2 calls) (suc (suc (suc i))) refl (omega arith))

popped_once_example :
    (p : ℕ) × (j : ℕ) × (get_elem? (head_movers turns (started 0 2 calls)) p ≡ some 2)
    × (get_elem? (tail_movers turns (started 0 2 calls)) p ≡ some j)
    × (get_elem? calls j ≡ some (put 7))
    × ((q : ℕ) → get_elem? (head_movers turns (started 0 2 calls)) q ≡ some 2 → q ≡ p)
    × ((q : ℕ) → get_elem? (tail_movers turns (started 0 2 calls)) q ≡ some j → q ≡ p)
popped_once_example =
    popped_once 0 2 (omega arith) (omega arith) calls turns (omega arith) 2 7 popped_at

push_answers_example :
    (get_elem? calls 1 ≡ some (put 8))
    × (true ≡ true
        → (p : ℕ) × (get_elem? (tail_movers turns (started 0 2 calls)) p ≡ some 1)
          × ((q : ℕ) → get_elem? (tail_movers turns (started 0 2 calls)) q ≡ some 1 → q ≡ p))
    × (true ≡ false → (p : ℕ) → get_elem? (tail_movers turns (started 0 2 calls)) p ≢ some 1)
    × (len (run_schedule turns (started 0 2 calls)).ring
        ≤ (run_schedule turns (started 0 2 calls)).ring.capacity)
    × (k : ℕ) × ((run_schedule turns (started 0 2 calls)).ring.capacity ≡ 2 ^ k)
    × (2 ≤ 2 ^ k)
    × (2 ^ k < 2 * 2)
push_answers_example =
    push_answers 0 2 (omega arith) (omega arith) calls turns (omega arith) 1 8 true pushed_at

first_in_first_out_example :
    (k : ℕ) × (q : List ℕ) × (2 ≤ 2 ^ k)
    × (2 ^ k < 2 * 2)
    × IsQueue (run_schedule turns (started 0 2 calls)).ring k q
    × (map (λ i. pushed (threads_of calls i)) (tail_movers turns (started 0 2 calls))
        ≡ map
            (λ i. popped ((run_schedule turns (started 0 2 calls)).threads i))
            (head_movers turns (started 0 2 calls))
          ++ map some q)
first_in_first_out_example =
    first_in_first_out 0 2 (omega arith) (omega arith) calls turns (omega arith) all_returned
