-- ===== src/RingBuffer/Threads/Positions.antt =====
-- Who owns which position of a ring. A position is a value of the counters, which do not wrap here; it
-- is owned by the push that has moved the tail past it and taken by the pop that has moved the head
-- past it. `seq` and `vals` are the sequence numbers and values of the slots.
use map_reduce_rpc.Prelude.{ℕ, ◌+◌, ◌%◌, ◌≤◌, ◌<◌, ◌≡◌, ◌⊎◌, arith, true, Option, some}
use map_reduce_rpc.RingBuffer.{PushState, PopState}
use map_reduce_rpc.RingBuffer.Threads.{Thread, pushing, popping, pushed}

-- The slot of position `p` waits for a push at a position `r` of it, or holds the value of one.
pub record Shape (c head tail : ℕ) (seq : ℕ → ℕ) (p : ℕ) : Type 0 where
  pub at : ℕ
  pub same : at % c ≡ p % c
  pub state : ((seq (p % c) ≡ at) × (at < head + c)) ⊎ ((seq (p % c) ≡ at + 1) × (at < tail))

module _ {A : Type 0} where
  -- Where the owner of position `p` may stand, when the slot has this sequence number and value.
  abbrev pub PushAt : ℕ → Option A → ℕ → Thread A → Type 0
  PushAt q v p (pushing x (PushState.write_val t)) = (t ≡ p) × (q ≡ p)
  PushAt q v p (pushing x (PushState.store_sequence t)) = (t ≡ p) × (q ≡ p) × (v ≡ some x)
  PushAt q v p (pushing x (PushState.returned true)) = p < q
  PushAt q v p _ = ⊥

  -- Where the pop that takes position `p` may stand; `u` is the value that was pushed there.
  abbrev pub TakeAt : ℕ → Option A → ℕ → Thread A → Type 0
  TakeAt q u p (popping (PopState.read_val t)) = (t ≡ p) × (q ≡ p + 1)
  TakeAt q u p (popping (PopState.store_sequence t v)) = (t ≡ p) × (q ≡ p + 1) × (u ≡ some v)
  TakeAt q u p (popping (PopState.returned (some v))) = (p + 1 < q) × (u ≡ some v)
  TakeAt q u p _ = ⊥

  -- What thread `i` knows of the ring.
  abbrev pub Knows : ℕ → ℕ → ℕ → (ℕ → ℕ) → (ℕ → ℕ) → (ℕ → ℕ) → ℕ → Thread A → Type 0
  Knows c head tail seq owner taker i (pushing x (PushState.load_sequence t)) = t ≤ tail
  Knows c head tail seq owner taker i (pushing x (PushState.swap_tail t)) =
      (t ≤ tail) × (t ≤ seq (t % c))
  Knows c head tail seq owner taker i (pushing x (PushState.write_val t)) =
      (t < tail) × (owner t ≡ i)
  Knows c head tail seq owner taker i (pushing x (PushState.store_sequence t)) =
      (t < tail) × (owner t ≡ i)
  Knows c head tail seq owner taker i (pushing x (PushState.returned true)) =
      (t : ℕ) × (t < tail) × (owner t ≡ i)
  Knows c head tail seq owner taker i (popping (PopState.load_sequence t)) = t ≤ head
  Knows c head tail seq owner taker i (popping (PopState.swap_head t)) =
      (t ≤ head) × (t + 1 ≤ seq (t % c))
  Knows c head tail seq owner taker i (popping (PopState.read_val t)) = (t < head) × (taker t ≡ i)
  Knows c head tail seq owner taker i (popping (PopState.store_sequence t v)) =
      (t < head) × (taker t ≡ i)
  Knows c head tail seq owner taker i (popping (PopState.returned (some v))) =
      (t : ℕ) × (t < head) × (taker t ≡ i)
  Knows c head tail seq owner taker i _ = Unit {0}

  pub record Positions (c head tail : ℕ) (seq : ℕ → ℕ) (vals : ℕ → Option A) (ts : ℕ → Thread A)
      (owner taker : ℕ → ℕ) : Type 0 where
    pub more_than_one : 2 ≤ c
    pub order : head ≤ tail
    pub room : tail ≤ head + c
    pub shape : (p : ℕ) → Shape c head tail seq p
    pub stored : (p : ℕ) → p < tail → seq (p % c) ≡ p + 1 → vals (p % c) ≡ pushed (ts (owner p))
    pub owned : (p : ℕ) → p < tail → PushAt (seq (p % c)) (vals (p % c)) p (ts (owner p))
    pub taken : (p : ℕ) → p < head → TakeAt (seq (p % c)) (pushed (ts (owner p))) p (ts (taker p))
    pub single : (p q : ℕ) → p < tail → q < tail → owner p ≡ owner q → p ≡ q
    pub single_take : (p q : ℕ) → p < head → q < head → taker p ≡ taker q → p ≡ q
    pub knows : (i : ℕ) → Knows c head tail seq owner taker i (ts i)

  -- Another thread's position is not disturbed when its slot keeps what it waits for.
  pub PushAt-keeps :
      (p : ℕ) {q q' : ℕ} {v v' : Option A} (t : Thread A)
      → q ≤ q'
      → (q ≡ p → (q' ≡ q) × (v' ≡ v))
      → PushAt q v p t
      → PushAt q' v' p t
  PushAt-keeps p (pushing x (PushState.write_val t)) grows keeps (at, here) =
      let (s, w) = keeps here in (at, omega arith)
  PushAt-keeps p (pushing x (PushState.store_sequence t)) grows keeps (at, here, stored) =
      let (s, w) = keeps here in (at, omega arith, ground arith)
  PushAt-keeps p (pushing x (PushState.returned true)) grows keeps passed = omega arith
  PushAt-keeps p t grows keeps h = elim h [ ]

  pub TakeAt-keeps :
      (p : ℕ) {q q' : ℕ} (u : Option A) (t : Thread A)
      → q ≤ q'
      → (q ≡ p + 1 → q' ≡ q)
      → TakeAt q u p t
      → TakeAt q' u p t
  TakeAt-keeps p u (popping (PopState.read_val t)) grows keeps (at, here) =
      let s = keeps here in (at, omega arith)
  TakeAt-keeps p u (popping (PopState.store_sequence t v)) grows keeps (at, here, value) =
      let s = keeps here in (at, omega arith, value)
  TakeAt-keeps p u (popping (PopState.returned (some v))) grows keeps (passed, value) =
      (omega arith, value)
  TakeAt-keeps p u t grows keeps h = elim h [ ]

  pub Knows-keeps :
      (c : ℕ) {head head' tail tail' : ℕ} (seq seq' owner owner' taker taker' : ℕ → ℕ) (i : ℕ)
      (t : Thread A)
      → head ≤ head'
      → tail ≤ tail'
      → ((j : ℕ) → seq j ≤ seq' j)
      → ((p : ℕ) → p < tail → owner' p ≡ owner p)
      → ((p : ℕ) → p < head → taker' p ≡ taker p)
      → Knows c head tail seq owner taker i t
      → Knows c head' tail' seq' owner' taker' i t
  Knows-keeps c seq seq' owner owner' taker taker' i (pushing x (PushState.load_sequence t)) hh ht g
        o k n =
      omega arith
  Knows-keeps c seq seq' owner owner' taker taker' i (pushing x (PushState.swap_tail t)) hh ht g o k
        n =
      omega (arith, g (t % c))
  Knows-keeps c seq seq' owner owner' taker taker' i (pushing x (PushState.write_val t)) hh ht g o k
        n =
      omega (arith, o t n.0)
  Knows-keeps c seq seq' owner owner' taker taker' i (pushing x (PushState.store_sequence t)) hh ht
        g o k n =
      omega (arith, o t n.0)
  Knows-keeps c seq seq' owner owner' taker taker' i (pushing x (PushState.returned true)) hh ht g o
        k (t, lt, e) =
      (t, omega arith, omega (arith, o t lt))
  Knows-keeps c seq seq' owner owner' taker taker' i (popping (PopState.load_sequence t)) hh ht g o
        k n =
      omega arith
  Knows-keeps c seq seq' owner owner' taker taker' i (popping (PopState.swap_head t)) hh ht g o k
        n =
      omega (arith, g (t % c))
  Knows-keeps c seq seq' owner owner' taker taker' i (popping (PopState.read_val t)) hh ht g o k n =
      omega (arith, k t n.0)
  Knows-keeps c seq seq' owner owner' taker taker' i (popping (PopState.store_sequence t v)) hh ht g
        o k n =
      omega (arith, k t n.0)
  Knows-keeps c seq seq' owner owner' taker taker' i (popping (PopState.returned (some v))) hh ht g
        o k (t, lt, e) =
      (t, omega arith, omega (arith, k t lt))
  Knows-keeps c seq seq' owner owner' taker taker' i t hh ht g o k n = tt
