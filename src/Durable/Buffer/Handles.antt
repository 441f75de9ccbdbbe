-- ===== src/Durable/Buffer/Handles.antt =====
-- Handles: how `GenerateHandle` orders them and when `isHandleExpired` ends them. Times are `int64`
-- bit patterns; `rank` puts them in their order.
use map_reduce_rpc.Prelude.{
  ℕ, suc, ◌+◌, ◌%◌, ◌^◌, ◌<◌, ◌≤◌, ◌≡◌, arith, ◌&&◌, not, List, [], ◌∷◌, ltb, length, All,
}
use map_reduce_rpc.Durable.Types.{Handle}
use map_reduce_rpc.Durable.Buffer.{DurableBuffer, generate_handle, is_handle_expired}

abbrev pub rank : ℕ → ℕ
rank t = (t + 2 ^ 63) % 2 ^ 64

-- Handles that are generated at the given readings of the clock.
unfoldable pub generate_all : List ℕ → DurableBuffer → List Handle
generate_all [] d = []
generate_all (now ∷ clock) d =
    let (d', handle) = generate_handle now d in handle ∷ generate_all clock d'

-- Each handle has the next id and a later time than the one before.
abbrev pub IsIncreasing : ℕ → ℕ → List Handle → Type 0
IsIncreasing id time [] = Unit
IsIncreasing id time (h ∷ hs) =
    (h.id ≡ id + 1) × (rank time < rank h.time_stamp) × IsIncreasing h.id h.time_stamp hs

reach-less :
    (n : ℕ) (clock : List ℕ)
    → All (λ (t : ℕ). rank t + suc n < 2 ^ 64) clock
    → All (λ (t : ℕ). rank t + n < 2 ^ 64) clock
reach-less n [] h = tt
reach-less n (t ∷ clock) (here, rest) = (omega arith, reach-less n clock rest)

generate_handle-next :
    (now more : ℕ) (d : DurableBuffer)
    → d.next_handle + suc more < 2 ^ 64
    → rank d.last_timestamp + suc more < 2 ^ 64
    → rank now + suc more < 2 ^ 64
    → now < 2 ^ 64
    → d.last_timestamp < 2 ^ 64
    → ((generate_handle now d).1.id ≡ d.next_handle + 1)
      × (rank d.last_timestamp < rank (generate_handle now d).1.time_stamp)
      × (rank (generate_handle now d).1.time_stamp + more < 2 ^ 64)
      × ((generate_handle now d).1.time_stamp < 2 ^ 64)
unfolding generate_handle
generate_handle-next now more d ids last here small word =
    (omega arith, ground arith, ground arith, ground arith)

-- Handles are generated with consecutive ids and strictly increasing time stamps, even when the clock
-- stands still or goes back, as long as neither counter overflows.
pub generate_all-IsIncreasing :
    (clock : List ℕ) (d : DurableBuffer)
    → d.next_handle + length clock < 2 ^ 64
    → rank d.last_timestamp + length clock < 2 ^ 64
    → All (λ (t : ℕ). rank t + length clock < 2 ^ 64) clock
    → All (λ (t : ℕ). t < 2 ^ 64) clock
    → d.last_timestamp < 2 ^ 64
    → IsIncreasing d.next_handle d.last_timestamp (generate_all clock d)
unfolding generate_all generate_handle
generate_all-IsIncreasing [] d ids last clock words word = tt
generate_all-IsIncreasing (now ∷ clock) d ids last (here, later) (small, words) word =
    let (id, after, near, word') =
      generate_handle-next now (length clock) d (omega arith) (omega arith) (omega arith) small
        word in
    (
      id,
      after,
      generate_all-IsIncreasing clock (generate_handle now d).0 (omega (arith, id))
          (omega (arith, near)) (reach-less _ clock later) words word',
    )

-- A new handle stays valid for exactly the expiry duration, whatever handles are generated meanwhile;
-- in recovery no handle expires.
pub generate_handle-expires :
    (now later : ℕ) (d : DurableBuffer)
    → d.next_handle + 1 < 2 ^ 64
    → d.handle_expiry_duration < 2 ^ 63
    → (generate_handle now d).1.time_stamp ≤ later
    → later < 2 ^ 63
    → is_handle_expired later (generate_handle now d).1 (generate_handle now d).0 ≡ (
        not d.in_recovery
        && ltb ((generate_handle now d).1.time_stamp + d.handle_expiry_duration) later)
unfolding generate_handle is_handle_expired
generate_handle-expires now later d ids short from small = ground arith
