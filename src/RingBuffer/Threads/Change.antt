-- ===== src/RingBuffer/Threads/Change.antt =====
-- What an action of thread `i` must show for the ownership of positions to be kept.
use map_reduce_rpc.Prelude.{
  ℕ, ◌+◌, ◌%◌, ◌≤◌, ◌<◌, ◌≡◌, ◌≢◌, sym, ◌∙◌, arith, Option, eqb, Bool-cases, inl, inr, ltb, ltb→lt,
}
use map_reduce_rpc.RingBuffer.Threads.{pushed, Thread, update}
use map_reduce_rpc.RingBuffer.Threads.Positions.{
  PushAt, TakeAt, Knows, Shape, Positions, PushAt-keeps, TakeAt-keeps, Knows-keeps,
}

module _ {A : Type 0} {c head tail : ℕ} {seq : ℕ → ℕ} {vals : ℕ → Option A} {ts : ℕ → Thread A}
    {owner taker : ℕ → ℕ} (P : Positions c head tail seq vals ts owner taker) (i : ℕ) where
  -- The thread goes on to `t'`; the primed values are those after the action.
  pub record Change (t' : Thread A) (head' tail' : ℕ) (seq' : ℕ → ℕ) (vals' : ℕ → Option A)
      (owner' taker' : ℕ → ℕ) : Type 0 where
    pub head_grows : head ≤ head'
    pub tail_grows : tail ≤ tail'
    pub order : head' ≤ tail'
    pub room : tail' ≤ head' + c
    pub seq_grows : (j : ℕ) → seq j ≤ seq' j
    pub owners : (p : ℕ) → p < tail → owner' p ≡ owner p
    pub takers : (p : ℕ) → p < head → taker' p ≡ taker p
    pub new_owner : (p : ℕ) → tail ≤ p → p < tail' → owner' p ≡ i
    pub new_taker : (p : ℕ) → head ≤ p → p < head' → taker' p ≡ i
    pub other_pushes :
        (p : ℕ)
        → p < tail
        → owner p ≢ i
        → seq (p % c) ≡ p
        → (seq' (p % c) ≡ seq (p % c)) × (vals' (p % c) ≡ vals (p % c))
    pub other_pops :
        (p : ℕ) → p < head → taker p ≢ i → seq (p % c) ≡ p + 1 → seq' (p % c) ≡ seq (p % c)
    pub value : pushed t' ≡ pushed (ts i)
    pub own_push : (p : ℕ) → p < tail' → owner' p ≡ i → PushAt (seq' (p % c)) (vals' (p % c)) p t'
    pub own_pop :
        (p : ℕ) → p < head' → taker' p ≡ i → TakeAt (seq' (p % c)) (pushed (ts (owner' p))) p t'
    pub shape : (p : ℕ) → Shape c head' tail' seq' p
    pub stored : (p : ℕ) → p < tail' → seq' (p % c) ≡ p + 1 → vals' (p % c) ≡ pushed (ts (owner' p))
    pub single : (p q : ℕ) → p < tail' → q < tail' → owner' p ≡ owner' q → p ≡ q
    pub single_take : (p q : ℕ) → p < head' → q < head' → taker' p ≡ taker' q → p ≡ q
    pub knows : Knows c head' tail' seq' owner' taker' i t'

  module _ {t' : Thread A} {head' tail' : ℕ} {seq' : ℕ → ℕ} {vals' : ℕ → Option A}
      {owner' taker' : ℕ → ℕ} (C : Change t' head' tail' seq' vals' owner' taker') where
    pushed-update : (j : ℕ) → pushed (update ts i t' j) ≡ pushed (ts j)
    pushed-update j = elim (Bool-cases (eqb j i)) [
      | inl self ↦ let e : j ≡ i = ground arith in rw (self, e) C.value
      | inr other ↦ rw other
    ]

    owned :
        (p : ℕ) → p < tail' → PushAt (seq' (p % c)) (vals' (p % c)) p (update ts i t' (owner' p))
    owned p lt = elim (Bool-cases (eqb (owner' p) i)) [
      | inl self ↦ rw self (C.own_push p lt (ground arith))
      | inr other ↦ elim (Bool-cases (ltb p tail)) [
        | inl old ↦
            let same = C.owners p (ltb→lt p tail old) in
            rw (other, same)
              (PushAt-keeps p (ts (owner p)) (C.seq_grows (p % c))
                (λ e. C.other_pushes p (ltb→lt p tail old) (λ own. ground arith) e)
                (P.owned p (ltb→lt p tail old)))
        | inr new ↦ absurd (ground (arith, C.new_owner p))
      ]
    ]

    taken :
        (p : ℕ)
        → p < head'
        → TakeAt (seq' (p % c)) (pushed (update ts i t' (owner' p))) p (update ts i t' (taker' p))
    taken p lt = elim (Bool-cases (eqb (taker' p) i)) [
      | inl self ↦ rw (pushed-update, self) (C.own_pop p lt (ground arith))
      | inr other ↦ elim (Bool-cases (ltb p head)) [
        | inl old ↦
            let below = ltb→lt p head old in
            let same = C.takers p below in
            rw (pushed-update, other, same, C.owners p (omega (arith, P.order)))
              (TakeAt-keeps p (pushed (ts (owner p))) (ts (taker p)) (C.seq_grows (p % c))
                (λ e. C.other_pops p below (λ own. ground arith) e) (P.taken p below))
        | inr new ↦ absurd (ground (arith, C.new_taker p))
      ]
    ]

    knows : (j : ℕ) → Knows c head' tail' seq' owner' taker' j (update ts i t' j)
    knows j = elim (Bool-cases (eqb j i)) [
      | inl self ↦ let e : j ≡ i = ground arith in rw (self, e) C.knows
      | inr other ↦ rw other (
          Knows-keeps c seq seq' owner owner' taker taker' j (ts j) C.head_grows C.tail_grows
            C.seq_grows C.owners C.takers (P.knows j))
    ]

    pub Change-Positions : Positions c head' tail' seq' vals' (update ts i t') owner' taker'
    Change-Positions = record {
      more_than_one = P.more_than_one;
      order = C.order;
      room = C.room;
      shape = C.shape;
      stored = λ p lt e. C.stored p lt e ∙ sym (pushed-update (owner' p));
      owned = owned;
      taken = taken;
      single = C.single;
      single_take = C.single_take;
      knows = knows;
    }
