-- ===== src/RingBuffer/Threads/Moves.antt =====
-- Every action of every thread keeps the ownership of positions.
use native.Mathlib.Nat.{one-le-pow, pow-le-pow_right, mod-lt}
use map_reduce_rpc.Prelude.{
  ℕ, ◌+◌, ◌%◌, ◌^◌, ◌≤◌, ◌<◌, ◌≡◌, refl, ap, ◌∙◌, arith, false, none, List, [], ◌∷◌, length, eqb,
  Bool-cases, inl, inr, get_elem?-some,
}
use map_reduce_rpc.Prelude.Words.{add64, sub64, negative64}
use map_reduce_rpc.RingBuffer.{
  RingBuffer, PushState, PopState, push_switch, pop_switch, push_step, pop_step, index, sequence_at,
  store_sequence_at, write_val_at,
}
use map_reduce_rpc.RingBuffer.Threads.{
  pushed, Thread, pushing, popping, update, System, thread_step, turn, run_schedule,
}
use map_reduce_rpc.RingBuffer.Threads.Positions.{Positions}
use map_reduce_rpc.RingBuffer.Threads.Change.{Change, Change-Positions}
use map_reduce_rpc.RingBuffer.Threads.Slots.{
  val_at, index_small, sequence_at-store_self, sequence_at-store_ne, val_at-write_self,
  val_at-write_ne, val_at-store, sequence_at-write, length-store, length-write,
}
use map_reduce_rpc.RingBuffer.Threads.Claims.{stay, rest, claim_tail, claim_head, read_own}
use map_reduce_rpc.RingBuffer.Threads.Writes.{write_own, push_store, pop_store}

-- A counter that an action of thread `i` moves by one at most, and who has moved it.
pub record Moved (i count count' : ℕ) (mover mover' : ℕ → ℕ) : Type 0 where
  pub grows : count ≤ count'
  pub by_one : count' ≤ count + 1
  pub old : (p : ℕ) → p < count → mover' p ≡ mover p
  pub new : (p : ℕ) → count ≤ p → p < count' → mover' p ≡ i

Moved-none : (i count : ℕ) (mover : ℕ → ℕ) → Moved i count count mover mover
Moved-none i count mover = record {
  grows = omega arith;
  by_one = omega arith;
  old = λ p lt. refl;
  new = λ p lo hi. absurd (omega arith);
}

Moved-one :
    (i count count' : ℕ) (mover : ℕ → ℕ)
    → count' ≡ count + 1
    → Moved i count count' mover (update mover count i)
Moved-one i count count' mover e = record {
  grows = omega arith;
  by_one = omega arith;
  old = λ p lt. ground arith;
  new = λ p lo hi. ground arith;
}

module _ {A : Type 0} where
  pub record IsShared (k : ℕ) (rb : RingBuffer A) (ts : ℕ → Thread A) (owner taker : ℕ → ℕ)
      : Type 0 where
    pub positive : 1 ≤ k
    pub few : k ≤ 62
    pub capacity : rb.capacity ≡ 2 ^ k
    pub slots : length rb.buffer ≡ 2 ^ k
    pub positions :
        Positions (2 ^ k) rb.head rb.tail (sequence_at rb.buffer) (val_at rb.buffer) ts owner taker

  -- The ring and the thread after an action of thread `i`.
  pub record Kept (k head tail : ℕ) (ts : ℕ → Thread A) (owner taker : ℕ → ℕ) (i : ℕ)
      (after : RingBuffer A × Thread A) : Type 0 where
    pub owner' : ℕ → ℕ
    pub taker' : ℕ → ℕ
    pub kept : IsShared k after.0 (update ts i after.1) owner' taker'
    pub tail_moved : Moved i tail after.0.tail owner owner'
    pub head_moved : Moved i head after.0.head taker taker'

  module _ {k : ℕ} {rb : RingBuffer A} {ts : ℕ → Thread A} {owner taker : ℕ → ℕ}
      (h : IsShared k rb ts owner taker) (small : rb.tail < 2 ^ 62) (i : ℕ) where
    P : Positions (2 ^ k) rb.head rb.tail (sequence_at rb.buffer) (val_at rb.buffer) ts owner taker
    P = h.positions

    bound : (t : ℕ) → t % 2 ^ k < length rb.buffer
    bound t = omega (arith, h.slots, mod-lt t (one-le-pow k 2 (omega arith)))

    -- An action that changes no slot and no counter.
    local :
        (t' : Thread A)
        → Change P i t' rb.head rb.tail (sequence_at rb.buffer) (val_at rb.buffer) owner taker
        → Kept k rb.head rb.tail ts owner taker i (rb, t')
    local t' c = (record {
      owner' = owner;
      taker' = taker;
      kept = record {
        positive = h.positive;
        few = h.few;
        capacity = h.capacity;
        slots = h.slots;
        positions = Change-Positions P i c;
      };
      tail_moved = Moved-none i rb.tail owner;
      head_moved = Moved-none i rb.head taker;
    })

    slot_of : (t : ℕ) → t ≤ rb.tail → index rb t ≡ t % 2 ^ k
    slot_of t le = index_small rb k t h.capacity h.few (omega arith)

    push_compare :
        (x : A) (t q : ℕ)
        → ts i ≡ pushing x (PushState.load_sequence t)
        → q ≡ sequence_at rb.buffer (t % 2 ^ k)
        → Kept k rb.head rb.tail ts owner taker i (rb, pushing x (push_switch t (sub64 q t)))
    push_compare x t q at e =
        let old : t ≤ rb.tail = (rw at at (P.knows i)) in
        elim (Bool-cases (eqb (sub64 q t) 0)) [
          | inl same ↦
              let none_left : sub64 q t ≡ 0 = ground arith in
              rw same (
                local (pushing x (PushState.swap_tail t)) (
                  stay P i (pushing x (PushState.load_sequence t))
                    (pushing x (PushState.swap_tail t)) at (λ q p v no. no, λ q p v no. no) refl
                    (old, omega (arith, none_left, e))))
          | inr differs ↦ elim (Bool-cases (negative64 (sub64 q t))) [
            | inl behind ↦
                rw (differs, behind)
                  (local (pushing x (PushState.returned false)) (
                    stay P i (pushing x (PushState.load_sequence t))
                      (pushing x (PushState.returned false)) at (λ q p v no. no, λ q p v no. no)
                      refl tt))
            | inr ahead ↦
                rw (differs, ahead)
                  (local (pushing x PushState.load_tail) (
                    stay P i (pushing x (PushState.load_sequence t)) (pushing x PushState.load_tail)
                      at (λ q p v no. no, λ q p v no. no) refl tt))
          ]
        ]

    pop_compare :
        (t q : ℕ)
        → ts i ≡ popping (PopState.load_sequence t)
        → q ≡ sequence_at rb.buffer (t % 2 ^ k)
        → Kept k rb.head rb.tail ts owner taker i (rb, popping (pop_switch t (sub64 q (add64 t 1))))
    pop_compare t q at e =
        let old : t ≤ rb.head = (rw at at (P.knows i)) in
        elim (Bool-cases (eqb (sub64 q (add64 t 1)) 0)) [
          | inl same ↦
              let none_left : sub64 q (add64 t 1) ≡ 0 = ground arith in
              rw same (
                local (popping (PopState.swap_head t)) (
                  stay P i (popping (PopState.load_sequence t)) (popping (PopState.swap_head t)) at
                    (λ q p v no. no, λ q p v no. no) refl
                    (old, omega (arith, none_left, e, P.order))))
          | inr differs ↦ elim (Bool-cases (negative64 (sub64 q (add64 t 1)))) [
            | inl behind ↦
                rw (differs, behind)
                  (local (popping (PopState.returned none)) (
                    stay P i (popping (PopState.load_sequence t)) (popping (PopState.returned none))
                      at (λ q p v no. no, λ q p v no. no) refl tt))
            | inr ahead ↦
                rw (differs, ahead)
                  (local (popping PopState.load_head) (
                    stay P i (popping (PopState.load_sequence t)) (popping PopState.load_head) at
                      (λ q p v no. no, λ q p v no. no) refl tt))
          ]
        ]

    push_move :
        (x : A) (s : PushState)
        → ts i ≡ pushing x s
        → Kept k rb.head rb.tail ts owner taker i (thread_step rb (pushing x s))
    unfolding push_step
    push_move x PushState.load_tail at = local (pushing x (PushState.load_sequence rb.tail)) (
        stay P i (pushing x PushState.load_tail) (pushing x (PushState.load_sequence rb.tail)) at
          (λ q p v no. no, λ q p v no. no) refl (omega arith))
    push_move x (PushState.load_sequence t) at =
        let old : t ≤ rb.tail = (rw at at (P.knows i)) in
        push_compare x t (sequence_at rb.buffer (index rb t)) at
          (ap (sequence_at rb.buffer) (slot_of t old))
    push_move x (PushState.swap_tail t) at = elim (Bool-cases (eqb rb.tail t)) [
      | inl won ↦
          let e : t ≡ rb.tail = ground arith in
          let next : add64 t 1 ≡ rb.tail + 1 = omega arith in
          rw won (record {
            owner' = update owner rb.tail i;
            taker' = taker;
            kept = record {
              positive = h.positive;
              few = h.few;
              capacity = h.capacity;
              slots = h.slots;
              positions = rw (next, e) (Change-Positions P i (claim_tail P i x ((rw e at at))));
            };
            tail_moved = Moved-one i rb.tail _ owner next;
            head_moved = Moved-none i rb.head taker;
          })
      | inr lost ↦ rw lost (
          local (pushing x PushState.load_tail) (
            stay P i (pushing x (PushState.swap_tail t)) (pushing x PushState.load_tail) at
              (λ q p v no. no, λ q p v no. no) refl tt))
    ]
    push_move x (PushState.write_val t) at =
        let known : (t < rb.tail) × (owner t ≡ i) = (rw at at (P.knows i)) in
        rw (slot_of t (omega arith)) (record {
          owner' = owner;
          taker' = taker;
          kept = record {
            positive = h.positive;
            few = h.few;
            capacity = h.capacity;
            slots = length-write rb.buffer (t % 2 ^ k) (bound t) x ∙ h.slots;
            positions = Change-Positions P i (
                write_own P i t (sequence_at (write_val_at rb.buffer (t % 2 ^ k) x))
                  (val_at (write_val_at rb.buffer (t % 2 ^ k) x)) x at
                  (sequence_at-write rb.buffer (t % 2 ^ k) (bound t) x)
                  (val_at-write_self rb.buffer (t % 2 ^ k) (bound t) x)
                  (val_at-write_ne rb.buffer (t % 2 ^ k) (bound t) x));
          };
          tail_moved = Moved-none i rb.tail owner;
          head_moved = Moved-none i rb.head taker;
        })
    push_move x (PushState.store_sequence t) at =
        let known : (t < rb.tail) × (owner t ≡ i) = (rw at at (P.knows i)) in
        rw (slot_of t (omega arith)) (record {
          owner' = owner;
          taker' = taker;
          kept = record {
            positive = h.positive;
            few = h.few;
            capacity = h.capacity;
            slots = length-store rb.buffer (t % 2 ^ k) (bound t) (add64 t 1) ∙ h.slots;
            positions = Change-Positions P i (
                push_store P i t (sequence_at (store_sequence_at rb.buffer (t % 2 ^ k) (add64 t 1)))
                  (val_at (store_sequence_at rb.buffer (t % 2 ^ k) (add64 t 1))) x at
                  (sequence_at-store_self rb.buffer (t % 2 ^ k) (bound t) (add64 t 1) ∙ omega arith)
                  (sequence_at-store_ne rb.buffer (t % 2 ^ k) (bound t) (add64 t 1))
                  (val_at-store rb.buffer (t % 2 ^ k) (bound t) (add64 t 1)));
          };
          tail_moved = Moved-none i rb.tail owner;
          head_moved = Moved-none i rb.head taker;
        })
    push_move x (PushState.returned b) at =
        local (pushing x (PushState.returned b)) (rest P i (pushing x (PushState.returned b)) at)

    pop_move :
        (s : PopState A)
        → ts i ≡ popping s
        → Kept k rb.head rb.tail ts owner taker i (thread_step rb (popping s))
    unfolding pop_step
    pop_move PopState.load_head at = local (popping (PopState.load_sequence rb.head)) (
        stay P i (popping PopState.load_head) (popping (PopState.load_sequence rb.head)) at
          (λ q p v no. no, λ q p v no. no) refl (omega arith))
    pop_move (PopState.load_sequence t) at =
        let old : t ≤ rb.head = (rw at at (P.knows i)) in
        pop_compare t (sequence_at rb.buffer (index rb t)) at
          (ap (sequence_at rb.buffer) (slot_of t (omega (arith, P.order))))
    pop_move (PopState.swap_head t) at = elim (Bool-cases (eqb rb.head t)) [
      | inl won ↦
          let e : t ≡ rb.head = ground arith in
          let next : add64 t 1 ≡ rb.head + 1 = omega (arith, P.order) in
          rw won (record {
            owner' = owner;
            taker' = update taker rb.head i;
            kept = record {
              positive = h.positive;
              few = h.few;
              capacity = h.capacity;
              slots = h.slots;
              positions = rw (next, e) (Change-Positions P i (claim_head P i ((rw e at at))));
            };
            tail_moved = Moved-none i rb.tail owner;
            head_moved = Moved-one i rb.head _ taker next;
          })
      | inr lost ↦ rw lost (
          local (popping PopState.load_head) (
            stay P i (popping (PopState.swap_head t)) (popping PopState.load_head) at
              (λ q p v no. no, λ q p v no. no) refl tt))
    ]
    pop_move (PopState.read_val t) at =
        let known : (t < rb.head) × (taker t ≡ i) = (rw at at (P.knows i)) in
        let (slot, found) = get_elem?-some rb.buffer (t % 2 ^ k) (bound t) in
        rw (slot_of t (omega (arith, P.order)), found)
          (local (popping (PopState.store_sequence t slot.val))
            (read_own P i t slot.val at (rw found refl)))
    pop_move (PopState.store_sequence t v) at =
        let known : (t < rb.head) × (taker t ≡ i) = (rw at at (P.knows i)) in
        rw (slot_of t (omega (arith, P.order))) (record {
          owner' = owner;
          taker' = taker;
          kept = record {
            positive = h.positive;
            few = h.few;
            capacity = h.capacity;
            slots = length-store rb.buffer (t % 2 ^ k) (bound t) (add64 t rb.capacity) ∙ h.slots;
            positions = Change-Positions P i (
                pop_store P i t
                  (sequence_at (store_sequence_at rb.buffer (t % 2 ^ k) (add64 t rb.capacity)))
                  (val_at (store_sequence_at rb.buffer (t % 2 ^ k) (add64 t rb.capacity))) v at
                  (sequence_at-store_self rb.buffer (t % 2 ^ k) (bound t) (add64 t rb.capacity)
                    ∙ omega (
                      arith,
                      P.order,
                      h.capacity,
                      pow-le-pow_right {n = 2} (omega arith) {i = k} {j = 62} h.few,
                    ))
                  (sequence_at-store_ne rb.buffer (t % 2 ^ k) (bound t) (add64 t rb.capacity))
                  (val_at-store rb.buffer (t % 2 ^ k) (bound t) (add64 t rb.capacity)));
          };
          tail_moved = Moved-none i rb.tail owner;
          head_moved = Moved-none i rb.head taker;
        })
    pop_move (PopState.returned r) at =
        local (popping (PopState.returned r)) (rest P i (popping (PopState.returned r)) at)

    move : (t : Thread A) → ts i ≡ t → Kept k rb.head rb.tail ts owner taker i (thread_step rb t)
    move (pushing x s) at = push_move x s at
    move (popping s) at = pop_move s at

    pub turn_keeps : Kept k rb.head rb.tail ts owner taker i (thread_step rb (ts i))
    turn_keeps = move (ts i) refl

  pub pushed-thread_step :
      (rb : RingBuffer A) (t : Thread A) → pushed (thread_step rb t).1 ≡ pushed t
  pushed-thread_step rb (pushing x s) = refl
  pushed-thread_step rb (popping s) = refl

  -- No action changes what a thread pushes.
  pub pushed-run_schedule :
      (schedule : List ℕ) (s : System A) (i : ℕ)
      → pushed ((run_schedule schedule s).threads i) ≡ pushed (s.threads i)
  unfolding run_schedule
  pushed-run_schedule [] s i = refl
  pushed-run_schedule (j ∷ schedule) s i =
      pushed-run_schedule schedule (turn j s) i ∙ elim (Bool-cases (eqb i j)) [
        | inl self ↦
            let e : i ≡ j = ground arith in rw (self, e) (pushed-thread_step s.ring (s.threads j))
        | inr other ↦ rw other
      ]
