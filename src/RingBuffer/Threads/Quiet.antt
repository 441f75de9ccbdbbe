-- ===== src/RingBuffer/Threads/Quiet.antt =====
-- When every thread has returned: the ring is a queue again, and what was pushed and not popped
-- stands in it.
use mathlib.Core.List.{map}
use native.Mathlib.Decide.{dec_lt}
use native.Mathlib.Nat.{pow-le-pow_right, one-le-pow, mod-lt, add-mod_right}
use map_reduce_rpc.Prelude.{
  ℕ, zero, suc, ◌+◌, ◌-◌, ◌*◌, ◌%◌, ◌^◌, ◌≤◌, ◌<◌, ◌≡◌, ◌⊎◌, refl, sym, ap, ◌∙◌, arith, true, false,
  Option, none, some, List, [], ◌∷◌, ◌++◌, inl, inr, length, get_elem?, get_elem?-some,
}
use map_reduce_rpc.RingBuffer.{Slot, RingBuffer, PushState, PopState, sequence_at}
use map_reduce_rpc.RingBuffer.Holds.{Filled, Free, slot-ne}
use map_reduce_rpc.RingBuffer.Calls.{Call, IsQueue}
use map_reduce_rpc.RingBuffer.Threads.{
  Thread, pushing, popping, run_schedule, started, threads_of, tail_movers, head_movers,
  is_returned, pushed, popped,
}
use map_reduce_rpc.RingBuffer.Threads.Positions.{PushAt, TakeAt, Shape, Positions}
use map_reduce_rpc.RingBuffer.Threads.Slots.{val_at}
use map_reduce_rpc.RingBuffer.Threads.Claims.{same_slot}
use map_reduce_rpc.RingBuffer.Threads.Moves.{IsShared, pushed-run_schedule}
use map_reduce_rpc.RingBuffer.Threads.Safety.{Movers, started-Ran, length-tail_movers}

module _ {A : Type 0} where
  PushAt-returned :
      (q : ℕ) (v : Option A) (p : ℕ) (t : Thread A)
      → is_returned t ≡ true
      → PushAt q v p t
      → (p < q) × ((x : A) × (pushed t ≡ some x))
  PushAt-returned q v p (pushing x (PushState.returned true)) e h = (h, (x, refl))
  PushAt-returned q v p (pushing x (PushState.returned false)) e h = absurd h
  PushAt-returned q v p (pushing x (PushState.write_val t)) e h = ground arith
  PushAt-returned q v p (pushing x (PushState.store_sequence t)) e h = ground arith
  PushAt-returned q v p (pushing x PushState.load_tail) e h = absurd h
  PushAt-returned q v p (pushing x (PushState.load_sequence t)) e h = absurd h
  PushAt-returned q v p (pushing x (PushState.swap_tail t)) e h = absurd h
  PushAt-returned q v p (popping s) e h = absurd h

  TakeAt-returned :
      (q : ℕ) (u : Option A) (p : ℕ) (t : Thread A)
      → is_returned t ≡ true
      → TakeAt q u p t
      → (p + 1 < q) × (u ≡ popped t)
  TakeAt-returned q u p (popping (PopState.returned (some v))) e (passed, value) = (passed, value)
  TakeAt-returned q u p (popping (PopState.returned none)) e h = absurd h
  TakeAt-returned q u p (popping (PopState.read_val t)) e h = ground arith
  TakeAt-returned q u p (popping (PopState.store_sequence t v)) e h = ground arith
  TakeAt-returned q u p (popping PopState.load_head) e h = absurd h
  TakeAt-returned q u p (popping (PopState.load_sequence t)) e h = absurd h
  TakeAt-returned q u p (popping (PopState.swap_head t)) e h = absurd h
  TakeAt-returned q u p (pushing x s) e h = absurd h

  -- The values at `n` positions from `p` on.
  values_from : (ℕ → Option A) → ℕ → ℕ → List (Option A)
  values_from f p zero = []
  values_from f p (suc n) = f p ∷ values_from f (p + 1) n

  values_from-append :
      (f : ℕ → Option A) (p m n : ℕ)
      → values_from f p (m + n) ≡ values_from f p m ++ values_from f (p + m) n
  unfolding values_from
  values_from-append f p zero n =
      let e : p + 0 ≡ p = omega arith in let e' : 0 + n ≡ n = omega arith in rw (e, e') refl
  values_from-append f p (suc m) n =
      let e : p + suc m ≡ p + 1 + m = omega arith in
      let e' : suc m + n ≡ suc (m + n) = omega arith in
      rw (e, e') (ap (◌∷◌ (f p)) (values_from-append f (p + 1) m n))

  values_from-eq :
      (f g : ℕ → Option A) (p n : ℕ)
      → ((m : ℕ) → m < p + n → f m ≡ g m)
      → values_from f p n ≡ values_from g p n
  unfolding values_from
  values_from-eq f g p zero same = refl
  values_from-eq f g p (suc n) same =
      rw (same p (omega arith))
        (ap (◌∷◌ (g p)) (values_from-eq f g (p + 1) n (λ m lt. same m (omega arith))))

  map-values_from :
      (f : ℕ → Option A) (movers : List ℕ) (mover : ℕ → ℕ) (p : ℕ)
      → ((j i : ℕ) → get_elem? movers j ≡ some i → mover (p + j) ≡ i)
      → map f movers ≡ values_from (λ m. f (mover m)) p (length movers)
  unfolding values_from
  map-values_from f [] mover p at = refl
  map-values_from f (i ∷ movers) mover p at =
      let e : p + 0 ≡ p = omega arith in
      let first : mover p ≡ i = ap mover (sym e) ∙ at 0 i refl in
      rw first (
        ap (◌∷◌ (f i)) (
          map-values_from f movers mover (p + 1) (λ j a found.
            let e : p + 1 + j ≡ p + suc j = omega arith in ap mover e ∙ at (suc j) a found)))

  slot_of_parts :
      (slots : List (Slot A)) (i s : ℕ) (x : A)
      → i < length slots
      → sequence_at slots i ≡ s
      → val_at slots i ≡ some x
      → get_elem? slots i ≡ some (record { sequence = s; val = x })
  slot_of_parts slots i s x lt e v =
      let (slot, found) = get_elem?-some slots i lt in
      let same_sequence : slot.sequence ≡ s = rw found at e in
      let same_value : slot.val ≡ x = ground (arith, (rw found at v)) in
      rw (← same_sequence, ← same_value) found

  module _ {c head tail : ℕ} {seq : ℕ → ℕ} {vals : ℕ → Option A} {ts : ℕ → Thread A}
      {owner taker : ℕ → ℕ} (P : Positions c head tail seq vals ts owner taker)
      (quiet : (i : ℕ) → is_returned (ts i) ≡ true) where
    -- Every position between head and tail is filled with the value of its push.
    filled_at :
        (p : ℕ)
        → head ≤ p
        → p < tail
        → (seq (p % c) ≡ p + 1)
          × ((x : A) × (vals (p % c) ≡ some x) × (pushed (ts (owner p)) ≡ some x))
    filled_at p lo hi =
        let (passed, (x, value)) =
          PushAt-returned (seq (p % c)) (vals (p % c)) p (ts (owner p)) (quiet (owner p))
            (P.owned p hi) in
        let s = P.shape p in
        let here : seq (p % c) ≡ p + 1 = elim s.state [
          | inl (waits, fits) ↦
              absurd (omega (arith, same_slot c p s.at (sym s.same) (omega arith) (omega arith)))
          | inr (ready, old) ↦
              omega (arith, same_slot c p s.at (sym s.same) (omega arith) (omega (arith, P.room)))
        ] in
        (here, (x, P.stored p hi here ∙ value, value))

    -- Every position from the tail up to a lap after the head is free.
    free_at : (p : ℕ) → tail ≤ p → p < head + c → seq (p % c) ≡ p
    free_at p lo hi = elim (dec_lt p (s.at + c)) [
      | yes near ↦ near_free near s.state
      | no far ↦ absurd (far_free (omega arith) s.state)
    ]
      where
        s : Shape c head tail seq p
        s = P.shape p

        near_free :
            p < s.at + c
            → ((seq (p % c) ≡ s.at) × (s.at < head + c))
              ⊎ ((seq (p % c) ≡ s.at + 1) × (s.at < tail))
            → seq (p % c) ≡ p
        near_free near (inl (waits, fits)) = elim (dec_lt p s.at) [
          | yes above ↦
              omega (arith, same_slot c p s.at (sym s.same) (omega arith) (omega (arith, P.order)))
          | no below ↦ omega (arith, same_slot c s.at p s.same (omega arith) near)
        ]
        near_free near (inr (ready, old)) = absurd (slot-ne c s.at p (omega arith) near s.same)

        far_free :
            s.at + c ≤ p
            → ((seq (p % c) ≡ s.at) × (s.at < head + c))
              ⊎ ((seq (p % c) ≡ s.at + 1) × (s.at < tail))
            → ⊥
        far_free far state =
            let same : (p - c) % c ≡ p % c =
              sym (add-mod_right (p - c) c) ∙ ap (λ (n : ℕ). n % c) (omega arith) in
            let (passed, value) =
              TakeAt-returned (seq ((p - c) % c)) (pushed (ts (owner (p - c)))) (p - c)
                (ts (taker (p - c))) (quiet (taker (p - c))) (P.taken (p - c) (omega arith)) in
            let behind : p - c + 1 < seq (p % c) = rw same at passed in
            elim state [ inl (waits, fits) ↦ omega arith | inr (ready, old) ↦ omega arith ]

  module _ {k : ℕ} {rb : RingBuffer A} {ts : ℕ → Thread A} {owner taker : ℕ → ℕ}
      (h : IsShared k rb ts owner taker) (small : rb.tail < 2 ^ 62)
      (quiet : (i : ℕ) → is_returned (ts i) ≡ true) where
    queue_from :
        (n p : ℕ)
        → rb.head ≤ p
        → p + n ≤ rb.tail
        → (q : List A) × (length q ≡ n)
          × (map some q ≡ values_from (λ m. pushed (ts (owner m))) p n)
          × Filled rb.buffer (2 ^ k) p q
    unfolding values_from
    queue_from zero p lo hi = ([], refl, refl, tt)
    queue_from (suc n) p lo hi =
        let (here, (x, held, value)) = filled_at h.positions quiet p lo (omega arith) in
        let (q, counted, values, filled) = queue_from n (p + 1) (omega arith) (omega arith) in
        let bound : p % 2 ^ k < length rb.buffer =
          omega (arith, h.slots, mod-lt p (one-le-pow k 2 (omega arith))) in
        (
          x ∷ q,
          ap suc counted,
          rw (value, values) refl,
          (
            slot_of_parts rb.buffer (p % 2 ^ k) ((p + 1) % 2 ^ 64) x bound (omega arith) held,
            filled,
          ),
        )

    Free-from : (n p : ℕ) → rb.tail ≤ p → p + n ≤ rb.head + 2 ^ k → Free rb.buffer (2 ^ k) p n
    Free-from zero p lo hi = tt
    Free-from (suc n) p lo hi =
        let c = pow-le-pow_right {n = 2} (omega arith) {i = k} {j = 62} h.few in
        (
          free_at h.positions quiet p lo (omega arith) ∙ omega (arith, h.positions.order),
          Free-from n (p + 1) (omega arith) (omega arith),
        )

    quiet-IsQueue :
        (q : List A) × IsQueue rb k q
        × (map some q ≡ values_from (λ m. pushed (ts (owner m))) rb.head (rb.tail - rb.head))
    quiet-IsQueue =
        let P = h.positions in
        let (q, counted, values, filled) =
          queue_from (rb.tail - rb.head) rb.head (omega arith) (omega (arith, P.order)) in
        (
          q,
          record {
            start = rb.head;
            holds = record {
              more_than_one = h.positive;
              few = h.few;
              capacity = h.capacity;
              slots = h.slots;
              fits = omega (arith, P.room);
              head = omega (arith, P.order);
              tail = omega (arith, P.order);
              filled = filled;
              free =
                  Free-from (2 ^ k - length q) (rb.head + length q) (omega (arith, P.order))
                    (omega (arith, P.order, P.room));
            };
          },
          values,
        )

    -- Position by position, what the pops have got is what the pushes have put.
    taken_values :
        values_from (λ m. pushed (ts (owner m))) 0 rb.head
        ≡ values_from (λ m. popped (ts (taker m))) 0 rb.head
    taken_values =
        values_from-eq (λ m. pushed (ts (owner m))) (λ m. popped (ts (taker m))) 0 rb.head
          (λ m lt.
            (TakeAt-returned (sequence_at rb.buffer (m % 2 ^ k)) (pushed (ts (owner m))) m
              (ts (taker m)) (quiet (taker m)) (h.positions.taken m (omega arith))).1)

  mover_values :
      {count : ℕ} {movers : List ℕ} {mover : ℕ → ℕ} (f : ℕ → Option A)
      → Movers count movers mover
      → map f movers ≡ values_from (λ m. f (mover m)) 0 count
  mover_values {movers = movers} {mover = mover} f m =
      map-values_from f movers mover 0 (λ j i found. ap mover (omega arith) ∙ m.at j i found)
      ∙ ap (values_from (λ p. f (mover p)) 0) (sym m.counted)

  pushed_values :
      {head tail : ℕ} {movers : List ℕ} {mover : ℕ → ℕ} (ts : ℕ → Thread A) (f : ℕ → Option A)
      → head ≤ tail
      → ((i : ℕ) → f i ≡ pushed (ts i))
      → Movers tail movers mover
      → map f movers
        ≡ values_from (λ m. pushed (ts (mover m))) 0 head
          ++ values_from (λ m. pushed (ts (mover m))) head (tail - head)
  pushed_values {head} {tail} {mover = mover} ts f order same m =
      let parts : tail ≡ head + (tail - head) = omega arith in
      let from_head : 0 + head ≡ head = omega arith in
      mover_values f m
      ∙ values_from-eq (λ p. f (mover p)) (λ p. pushed (ts (mover p))) 0 tail
          (λ p lt. same (mover p))
      ∙ ap (values_from (λ p. pushed (ts (mover p))) 0) parts
      ∙ values_from-append (λ p. pushed (ts (mover p))) 0 head (tail - head)
      ∙ ap
          (λ (n : ℕ).
            values_from (λ p. pushed (ts (mover p))) 0 head
            ++ values_from (λ p. pushed (ts (mover p))) n (tail - head))
          from_head

  module _ (zero_value : A) (capacity : ℕ) (two : 2 ≤ capacity) (small : capacity ≤ 2 ^ 62)
      (calls : List (Call A)) (schedule : List ℕ) (short : length schedule < 2 ^ 62) where
    -- On a new ring with `2 ≤ capacity ≤ 2 ^ 62`, after fewer than 2 ^ 62 actions of any number of
    -- threads in any order by which every call has returned: the ring holds a queue again, of a
    -- power of two of places between the capacity and its double, and the values of the pushes, in
    -- the order in which they moved the tail, are the values that the pops returned, in the order
    -- in which they moved the head, followed by the queue. So the ring is first-in first-out, and
    -- no value is lost.
    pub first_in_first_out :
        ((i : ℕ)
          → is_returned ((run_schedule schedule (started zero_value capacity calls)).threads i)
            ≡ true)
        → (k : ℕ) × (q : List A) × (capacity ≤ 2 ^ k)
          × (2 ^ k < 2 * capacity)
          × IsQueue (run_schedule schedule (started zero_value capacity calls)).ring k q
          × (map
                (λ i. pushed (threads_of calls i))
                (tail_movers schedule (started zero_value capacity calls))
              ≡ map
                  (λ i.
                    popped ((run_schedule schedule (started zero_value capacity calls)).threads i))
                  (head_movers schedule (started zero_value capacity calls))
                ++ map some q)
    unfolding started
    first_in_first_out quiet =
        let s = started zero_value capacity calls in
        let s' = run_schedule schedule s in
        let r = started-Ran zero_value capacity two small calls schedule short in
        let bound : s'.ring.tail < 2 ^ 62 =
          omega (arith, r.tail.counted, length-tail_movers schedule s) in
        let (q, holds, values) = quiet-IsQueue r.shared bound quiet in
        (
          r.k,
          q,
          r.room_enough,
          r.room_bound,
          holds,
          pushed_values s'.threads (λ i. pushed (s.threads i)) r.shared.positions.order
                (λ i. sym (pushed-run_schedule schedule s i)) r.tail
              ∙ ap
                  (λ l.
                    l
                    ++ values_from (λ m. pushed (s'.threads (r.owner m))) s'.ring.head
                        (s'.ring.tail - s'.ring.head))
                  (taken_values r.shared bound quiet
                    ∙ sym (mover_values (λ i. popped (s'.threads i)) r.head))
              ∙ ap (λ l. map (λ i. popped (s'.threads i)) (head_movers schedule s) ++ l)
                  (sym values),
        )
