-- ===== src/RingBuffer/Calls.antt =====
-- Sequences of calls: a ring, from its constructor on, is the bounded queue of what it holds.
use mathlib.Core.Path.{subst}
use native.Mathlib.Nat.{mod-eq_of_lt, pow-le-pow_right}
use native.Mathlib.Decide.{dec_lt}
use map_reduce_rpc.Prelude.{
  ℕ, zero, suc, ◌+◌, ◌*◌, ◌^◌, ◌≤◌, ◌<◌, ◌≡◌, refl, ap, ◌∙◌, sym, arith, length, Bool, List, [],
  ◌∷◌, Option, none, some, take, drop, ltb, Bool-cases, inl, inr, ltb→lt, eqb,
}
use map_reduce_rpc.RingBuffer.{
  RingBuffer, new_slots, new_ring_buffer, push, pop, drain, len, is_full, is_empty, sequence_at,
}
use map_reduce_rpc.RingBuffer.Capacity.{next_power_of_two_least}
use map_reduce_rpc.RingBuffer.Holds.{Holds, Free, Free-cast}
use map_reduce_rpc.RingBuffer.Refine.{push_room, push_no_room, pop_first, pop_empty}
use map_reduce_rpc.RingBuffer.Queue

exponent_small : (k : ℕ) → 2 ^ k < 2 ^ 63 → k ≤ 62
exponent_small k h = elim (dec_lt k 63) [
  | yes p ↦ omega arith
  | no p ↦
      absurd (omega (arith, pow-le-pow_right {n = 2} (omega arith) {i = 63} {j = k} (omega arith)))
]

exponent_positive : (k : ℕ) → 2 ≤ 2 ^ k → 1 ≤ k
exponent_positive zero h = absurd (omega arith)
exponent_positive (suc k) h = omega arith

pow-le-62 : (k : ℕ) → k ≤ 62 → 2 ^ k ≤ 2 ^ 62
pow-le-62 k few = pow-le-pow_right {n = 2} (omega arith) {i = k} {j = 62} few

module _ {ℓ} {A : Type ℓ} where
  -- The ring holds `q`, at whatever position its head is.
  pub record IsQueue (rb : RingBuffer A) (k : ℕ) (q : List A) : Type ℓ where
    pub start : ℕ
    pub holds : Holds rb k start q

  -- `Push` answers as the queue of capacity 2 ^ k does, and leaves the ring holding its queue.
  pub push_refines :
      {rb : RingBuffer A} {k : ℕ} (q : List A)
      → IsQueue rb k q
      → (x : A)
      → (rb' : RingBuffer A) × (push x rb ≡ some (rb', (Queue.push (2 ^ k) q x).1))
        × IsQueue rb' k (Queue.push (2 ^ k) q x).0
  unfolding Queue.push
  push_refines {rb} {k} q h x = elim (Bool-cases (ltb (length q) (2 ^ k))) [
    | inl room ↦
        let (rb', returns, after) = push_room h.holds x (ltb→lt _ _ room) in
        rw room (rb', returns, record { start = h.start; holds = after })
    | inr full ↦ rw full (rb, push_no_room q h.holds x (ground (arith, h.holds.fits)), h)
  ]

  pub pop_refines :
      {rb : RingBuffer A} {k : ℕ} (q : List A)
      → IsQueue rb k q
      → (rb' : RingBuffer A) × (pop rb ≡ some (rb', (Queue.pop q).1))
        × IsQueue rb' k (Queue.pop q).0
  unfolding Queue.pop
  pop_refines {rb} [] h = (rb, pop_empty h.holds, h)
  pop_refines (x ∷ q) h =
      let (rb', returns, after) = pop_first h.holds in
      (rb', returns, record { start = h.start + 1; holds = after })

  -- `Drain` takes the oldest values, as many as there is room for, and leaves the others.
  pub drain_refines :
      (room : ℕ) (q : List A) {rb : RingBuffer A} {k : ℕ}
      → IsQueue rb k q
      → (rb' : RingBuffer A) × (drain room rb ≡ some (rb', take room q))
        × IsQueue rb' k (drop room q)
  unfolding drain
  drain_refines zero q {rb} h = (rb, refl, h)
  drain_refines (suc room) [] {rb} h = (rb, rw (pop_empty h.holds, drain), h)
  drain_refines (suc room) (x ∷ q) h =
      let (rb', popped, after) = pop_first h.holds in
      let (rb'', drained, rest) =
        drain_refines room q (record { start = h.start + 1; holds = after }) in
      (rb'', rw (popped, drain, drained), rest)

  length-new_slots : (zero_value : A) (n i : ℕ) → length (new_slots zero_value n i) ≡ n
  unfolding new_slots
  length-new_slots zero_value zero i = refl
  length-new_slots zero_value (suc n) i = ap suc (length-new_slots zero_value n (i + 1))

  sequence_at-new_slots :
      (zero_value : A) (n i j : ℕ) → j < n → sequence_at (new_slots zero_value n i) j ≡ i + j
  unfolding new_slots
  sequence_at-new_slots zero_value zero i j h = absurd (omega arith)
  sequence_at-new_slots zero_value (suc n) i zero h = omega arith
  sequence_at-new_slots zero_value (suc n) i (suc j) h =
      omega (arith, sequence_at-new_slots zero_value n (i + 1) j (omega arith))

  Free-new_slots :
      (zero_value : A) (n p m : ℕ) → n ≤ 2 ^ 62 → p + m ≤ n → Free (new_slots zero_value n 0) n p m
  Free-new_slots zero_value n p zero small fits = tt
  Free-new_slots zero_value n p (suc m) small fits = (
    rw (mod-eq_of_lt {n = p} {m = n} (omega arith))
        (omega (arith, sequence_at-new_slots zero_value n 0 p (omega arith))),
    Free-new_slots zero_value n (p + 1) m small (omega arith),
  )

  fresh : A → ℕ → RingBuffer A
  fresh zero_value c = record {
    buffer = new_slots zero_value c 0;
    head = 0;
    tail = 0;
    capacity = c;
  }

  fresh-Holds : (zero_value : A) (k : ℕ) → 1 ≤ k → k ≤ 62 → Holds (fresh zero_value (2 ^ k)) k 0 []
  unfolding fresh
  fresh-Holds zero_value k positive few = record {
    more_than_one = positive;
    few = few;
    capacity = refl;
    slots = length-new_slots zero_value (2 ^ k) 0;
    fits = omega arith;
    head = refl;
    tail = refl;
    filled = tt;
    free =
        Free-cast (new_slots zero_value (2 ^ k) 0) (2 ^ k) {p = 0} {n = 2 ^ k} refl (omega arith)
          (Free-new_slots zero_value (2 ^ k) 0 (2 ^ k) (pow-le-62 k few) (omega arith));
  }

  -- The new ring holds nothing, with its head at position 0.
  pub new_ring_buffer-Holds :
      (zero_value : A) (n : ℕ)
      → 2 ≤ n
      → n ≤ 2 ^ 62
      → (k : ℕ) × Holds (new_ring_buffer zero_value n) k 0 [] × (n ≤ 2 ^ k) × (2 ^ k < 2 * n)
  unfolding new_ring_buffer fresh
  new_ring_buffer-Holds zero_value n two small =
      let (k, e, most, above, below) = next_power_of_two_least n (omega arith) (omega arith) in
      (
        k,
        subst (λ c. Holds (fresh zero_value c) k 0 []) (sym e)
            (fresh-Holds zero_value k (exponent_positive k (omega arith))
              (exponent_small k (omega arith))),
        above,
        below,
      )

  -- A new ring for `2 ≤ n ≤ 2 ^ 62` is empty and has room for a power of two values that is at
  -- least `n` and less than twice `n`.
  pub new_ring_buffer-IsQueue :
      (zero_value : A) (n : ℕ)
      → 2 ≤ n
      → n ≤ 2 ^ 62
      → (k : ℕ) × IsQueue (new_ring_buffer zero_value n) k [] × (n ≤ 2 ^ k) × (2 ^ k < 2 * n)
  new_ring_buffer-IsQueue zero_value n two small =
      let (k, holds, above, below) = new_ring_buffer-Holds zero_value n two small in
      (k, record { start = 0; holds = holds }, above, below)

  -- `Len` counts what the ring holds as long as the counters have not wrapped.
  pub len-length :
      {rb : RingBuffer A} {k start : ℕ} (q : List A)
      → Holds rb k start q
      → start + length q < 2 ^ 64
      → (len rb ≡ length q)
        × (is_empty rb ≡ eqb (length q) 0)
        × (is_full rb ≡ eqb (length q) (2 ^ k))
  unfolding len is_empty is_full
  len-length {rb} {k} {start} q h small = (
    counted,
    ap (λ (n : ℕ). eqb n 0) counted,
    ap (λ (n : ℕ). eqb n rb.capacity) counted ∙ ap (eqb (length q)) h.capacity,
  )
    where
      counted : len rb ≡ length q
      counted = ground (arith, h.head, h.tail)

pub data Call {ℓ} (A : Type ℓ) : Type ℓ where
  put : A → Call A
  get : Call A

pub data Reply {ℓ} (A : Type ℓ) : Type ℓ where
  stored : Bool → Reply A
  taken : Option A → Reply A

module _ {ℓ} {A : Type ℓ} where
  -- The replies to a sequence of calls; `none` if a call does not return.
  pub run : List (Call A) → RingBuffer A → Option (List (Reply A))
  run [] rb = some []
  run (put x ∷ calls) rb = elim (push x rb) [
    | none ↦ none
    | some (rb', b) ↦ elim (run calls rb') [ none ↦ none | some rs ↦ some (stored b ∷ rs) ]
  ]
  run (get ∷ calls) rb = elim (pop rb) [
    | none ↦ none
    | some (rb', r) ↦ elim (run calls rb') [ none ↦ none | some rs ↦ some (taken r ∷ rs) ]
  ]

  -- The same calls on a queue of the given capacity.
  pub run_queue : ℕ → List (Call A) → List A → List (Reply A)
  run_queue bound [] q = []
  run_queue bound (put x ∷ calls) q =
      let (q', b) = Queue.push bound q x in stored b ∷ run_queue bound calls q'
  run_queue bound (get ∷ calls) q = let (q', r) = Queue.pop q in taken r ∷ run_queue bound calls q'

  -- No sequence of calls tells a ring from the queue of what it holds, and every call returns.
  pub run_refines :
      (calls : List (Call A)) {rb : RingBuffer A} {k : ℕ} (q : List A)
      → IsQueue rb k q
      → run calls rb ≡ some (run_queue (2 ^ k) calls q)
  unfolding run run_queue
  run_refines [] q h = refl
  run_refines (put x ∷ calls) {k = k} q h =
      let (rb', returns, after) = push_refines q h x in
      rw (returns, run, run_refines calls (Queue.push (2 ^ k) q x).0 after)
  run_refines (get ∷ calls) q h =
      let (rb', returns, after) = pop_refines q h in
      rw (returns, run, run_refines calls (Queue.pop q).0 after)
