-- ===== src/RingBuffer/Threads/History.antt =====
-- A schedule from a new ring on: who has moved the counters, and in which order.
use native.Mathlib.Nat.{mod-lt, mod-mod, mod-eq_of_lt, one-le-pow, pow-le-pow_right}
use map_reduce_rpc.Prelude.{
  ℕ, zero, suc, ◌+◌, ◌%◌, ◌^◌, ◌<◌, ◌≡◌, refl, sym, ap, ◌∙◌, arith, Option, none, some, List, [],
  ◌∷◌, length, eqb, Bool-cases, inl, inr, get_elem?, if◌then◌else◌,
}
use map_reduce_rpc.RingBuffer.{Slot, RingBuffer, sequence_at}
use map_reduce_rpc.RingBuffer.Holds.{Holds, Free, Free-cast}
use map_reduce_rpc.RingBuffer.Refine.{two-le-pow}
use map_reduce_rpc.RingBuffer.Calls.{Call, put, get}
use map_reduce_rpc.RingBuffer.Threads.{
  System, turn, run_schedule, begin, threads_of, tail_movers, head_movers,
}
use map_reduce_rpc.RingBuffer.Threads.Positions.{Knows}
use map_reduce_rpc.RingBuffer.Threads.Moves.{Moved, IsShared, turn_keeps}

-- From `count` on the movers have moved the counter to `count'`, one position each.
pub record Follows (count count' : ℕ) (mover mover' : ℕ → ℕ) (movers : List ℕ) : Type 0 where
  pub counted : count' ≡ count + length movers
  pub old : (p : ℕ) → p < count → mover' p ≡ mover p
  pub new : (j i : ℕ) → get_elem? movers j ≡ some i → mover' (count + j) ≡ i

Follows-none : (count : ℕ) (mover : ℕ → ℕ) → Follows count count mover mover []
Follows-none count mover = record {
  counted = omega arith;
  old = λ p lt. refl;
  new = λ j i e. ground arith;
}

-- The mover of the first position, and those of the later ones.
first_or_later :
    (mover : ℕ → ℕ) (count i : ℕ) (movers : List ℕ)
    → mover count ≡ i
    → ((j a : ℕ) → get_elem? movers j ≡ some a → mover (count + 1 + j) ≡ a)
    → (j a : ℕ) → get_elem? (i ∷ movers) j ≡ some a
    → mover (count + j) ≡ a
first_or_later mover count i movers first later zero a at =
    let e : count + 0 ≡ count = omega arith in ap mover e ∙ first ∙ ground arith
first_or_later mover count i movers first later (suc j) a at =
    let e : count + suc j ≡ count + 1 + j = omega arith in ap mover e ∙ later j a at

Follows-step :
    {i count count' count'' : ℕ} {mover mover' mover'' : ℕ → ℕ} (movers : List ℕ)
    → Moved i count count' mover mover'
    → Follows count' count'' mover' mover'' movers
    → Follows count count'' mover mover'' (if eqb count' count then movers else i ∷ movers)
Follows-step {i} {count} {count'} {mover'' = mover''} movers m f =
    elim (Bool-cases (eqb count' count)) [
      | inl still ↦
          let e : count' ≡ count = ground arith in
          rw still (record {
            counted = omega (arith, f.counted);
            old = λ p lt. f.old p (omega arith) ∙ m.old p lt;
            new = λ j a at. ap (λ (n : ℕ). mover'' (n + j)) (sym e) ∙ f.new j a at;
          })
      | inr moved ↦
          let e : count' ≡ count + 1 = ground (arith, m.grows, m.by_one) in
          rw moved (record {
            counted = omega (arith, f.counted);
            old = λ p lt. f.old p (omega arith) ∙ m.old p lt;
            new =
                first_or_later mover'' count i movers
                  (f.old count (omega arith) ∙ m.new count (omega arith) (omega arith))
                  (λ j a at. ap (λ (n : ℕ). mover'' (n + j)) (sym e) ∙ f.new j a at);
          })
    ]

module _ {A : Type 0} where
  pub record Reached (k : ℕ) (schedule : List ℕ) (s : System A) (owner taker : ℕ → ℕ) : Type 0 where
    pub owner' : ℕ → ℕ
    pub taker' : ℕ → ℕ
    pub shared :
        IsShared k (run_schedule schedule s).ring (run_schedule schedule s).threads owner' taker'
    pub tail_moves :
        Follows s.ring.tail
          (run_schedule schedule s).ring.tail
          owner
          owner'
          (tail_movers schedule s)
    pub head_moves :
        Follows s.ring.head
          (run_schedule schedule s).ring.head
          taker
          taker'
          (head_movers schedule s)

  -- A schedule that is too short for the counters to wrap keeps the ownership.
  pub run_schedule-Reached :
      (schedule : List ℕ) (s : System A) (k : ℕ) (owner taker : ℕ → ℕ)
      → s.ring.tail + length schedule < 2 ^ 62
      → IsShared k s.ring s.threads owner taker
      → Reached k schedule s owner taker
  unfolding run_schedule tail_movers head_movers
  run_schedule-Reached [] s k owner taker short h = record {
    owner' = owner;
    taker' = taker;
    shared = h;
    tail_moves = Follows-none s.ring.tail owner;
    head_moves = Follows-none s.ring.head taker;
  }
  run_schedule-Reached (i ∷ schedule) s k owner taker short h =
      let step = turn_keeps h (omega arith) i in
      let rest =
        run_schedule-Reached schedule (turn i s) k step.owner' step.taker'
          (omega (arith, step.tail_moved.by_one)) step.kept in
      record {
        owner' = rest.owner';
        taker' = rest.taker';
        shared = rest.shared;
        tail_moves = Follows-step (tail_movers schedule (turn i s)) step.tail_moved rest.tail_moves;
        head_moves = Follows-step (head_movers schedule (turn i s)) step.head_moved rest.head_moves;
      }

  Free-at :
      (slots : List (Slot A)) (c p n j : ℕ)
      → Free slots c p n
      → j < n
      → sequence_at slots ((p + j) % c) ≡ (p + j) % 2 ^ 64
  Free-at slots c p zero j h lt = absurd (omega arith)
  Free-at slots c p (suc n) zero (here, rest) lt = let e : p + 0 ≡ p = omega arith in rw e here
  Free-at slots c p (suc n) (suc j) (here, rest) lt =
      let e : p + suc j ≡ p + 1 + j = omega arith in
      rw e (Free-at slots c (p + 1) n j rest (omega arith))

  fresh_sequence :
      (rb : RingBuffer A) (k i : ℕ) → Holds rb k 0 [] → i < 2 ^ k → sequence_at rb.buffer i ≡ i
  fresh_sequence rb k i h lt =
      let free =
        Free-cast rb.buffer (2 ^ k) {p' = 0} {n' = 2 ^ k} (omega arith) (omega arith) h.free in
      let small = pow-le-pow_right {n = 2} (omega arith) {i = k} {j = 62} h.few in
      let here : 0 + i ≡ i = omega arith in
      let inside : i % 2 ^ k ≡ i = mod-eq_of_lt {n = i} {m = 2 ^ k} lt in
      ap (sequence_at rb.buffer) (sym (ap (λ (n : ℕ). n % 2 ^ k) here ∙ inside))
      ∙ Free-at rb.buffer (2 ^ k) 0 (2 ^ k) i free lt
      ∙ omega arith

  begin-Knows :
      (c : ℕ) (seq owner taker : ℕ → ℕ) (i : ℕ) (call : Option (Call A))
      → Knows c 0 0 seq owner taker i (begin call)
  begin-Knows c seq owner taker i none = tt
  begin-Knows c seq owner taker i (some (put x)) = tt
  begin-Knows c seq owner taker i (some get) = tt

  -- At the start nobody owns a position, and every slot waits for its first push.
  pub start-IsShared :
      (rb : RingBuffer A) (k : ℕ) (calls : List (Call A)) (nobody : ℕ → ℕ)
      → Holds rb k 0 []
      → IsShared k rb (threads_of calls) nobody nobody
  start-IsShared rb k calls nobody h =
      let at_zero : (rb.head ≡ 0) × (rb.tail ≡ 0) =
        (omega (arith, h.head), omega (arith, h.tail)) in
      let pos = one-le-pow k 2 (omega arith) in
      record {
        positive = h.more_than_one;
        few = h.few;
        capacity = h.capacity;
        slots = h.slots;
        positions =
            rw (at_zero.0, at_zero.1)
              (record {
                more_than_one = two-le-pow k h.more_than_one;
                order = omega arith;
                room = omega arith;
                shape = λ p.
                    let lt = mod-lt p {m = 2 ^ k} pos in
                    record {
                      at = p % 2 ^ k;
                      same = mod-mod p (2 ^ k);
                      state = inl (fresh_sequence rb k (p % 2 ^ k) h lt, omega arith);
                    };
                stored = λ p lt e. absurd (omega arith);
                owned = λ p lt. absurd (omega arith);
                taken = λ p lt. absurd (omega arith);
                single = λ p q lp lq e. absurd (omega arith);
                single_take = λ p q lp lq e. absurd (omega arith);
                knows = λ i.
                    begin-Knows (2 ^ k) (sequence_at rb.buffer) nobody nobody i (get_elem? calls i);
              });
      }
