-- ===== src/RingBuffer/Threads/Writes.antt =====
-- The actions that change a slot: the writing of a value, and the two stores of a sequence number.
use native.Mathlib.Nat.{add-mod_right}
use map_reduce_rpc.Prelude.{
  ℕ, ◌+◌, ◌%◌, ◌≤◌, ◌<◌, ◌≡◌, ◌≢◌, refl, sym, ap, ◌∙◌, arith, true, Option, some, eqb, Bool-cases,
  inl, inr,
}
use map_reduce_rpc.RingBuffer.{PushState, PopState}
use map_reduce_rpc.RingBuffer.Holds.{slot-ne}
use map_reduce_rpc.RingBuffer.Threads.{pushed, Thread, pushing, popping}
use map_reduce_rpc.RingBuffer.Threads.Positions.{Shape, Positions}
use map_reduce_rpc.RingBuffer.Threads.Change.{Change}

-- A position and the next one have different slots.
next-ne : (c p q : ℕ) → 2 ≤ c → q ≡ p + 1 → p % c ≢ q % c
next-ne c p q two e = slot-ne c p q (omega arith) (omega arith)

Shape-same :
    (c head tail p : ℕ) (seq seq' : ℕ → ℕ)
    → seq' (p % c) ≡ seq (p % c)
    → Shape c head tail seq p
    → Shape c head tail seq' p
Shape-same c head tail p seq seq' e s = record { at = s.at; same = s.same; state = rw e s.state }

module _ {A : Type 0} {c head tail : ℕ} {seq : ℕ → ℕ} {vals : ℕ → Option A} {ts : ℕ → Thread A}
    {owner taker : ℕ → ℕ} (P : Positions c head tail seq vals ts owner taker) (i t : ℕ)
    (seq' : ℕ → ℕ) (vals' : ℕ → Option A) where
  -- A push in flight is the only one that waits for its slot.
  alone : (p : ℕ) → seq (t % c) ≡ t → owner t ≡ i → seq (p % c) ≡ p → owner p ≢ i → t % c ≢ p % c
  alone p mine own theirs ne e =
      let same : p ≡ t = sym theirs ∙ ap seq (sym e) ∙ mine in ne (ap owner same ∙ own)

  pub write_own :
      (x : A)
      → ts i ≡ pushing x (PushState.write_val t)
      → ((j : ℕ) → seq' j ≡ seq j)
      → vals' (t % c) ≡ some x
      → ((j : ℕ) → t % c ≢ j → vals' j ≡ vals j)
      → Change P i (pushing x (PushState.store_sequence t)) head tail seq' vals' owner taker
  write_own x at same here other =
      let known : (t < tail) × (owner t ≡ i) = (rw at at (P.knows i)) in
      let (refl_t, waits) : (t ≡ t) × (seq (t % c) ≡ t) =
        (rw (known.1, at) at (P.owned t known.0)) in
      record {
        head_grows = omega arith;
        tail_grows = omega arith;
        order = P.order;
        room = P.room;
        seq_grows = λ j. omega (arith, same j);
        owners = λ p lt. refl;
        takers = λ p lt. refl;
        new_owner = λ p lo hi. absurd (omega arith);
        new_taker = λ p lo hi. absurd (omega arith);
        other_pushes = λ p lt ne e. (same (p % c), other (p % c) (alone p waits known.1 e ne));
        other_pops = λ p lt ne e. same (p % c);
        value = ap pushed (sym at);
        own_push = λ p lt own.
            let (e, w) : (t ≡ p) × (seq (p % c) ≡ p) = (rw (own, at) at (P.owned p lt)) in
            (e, same (p % c) ∙ w, ap (λ (n : ℕ). vals' (n % c)) (sym e) ∙ here);
        own_pop = λ p lt own. absurd ((rw (own, at) at (P.taken p lt)));
        shape = λ p. Shape-same c head tail p seq seq' (same (p % c)) (P.shape p);
        stored = λ p lt e.
            other (p % c) (λ s.
              next-ne c p t P.more_than_one (sym waits ∙ ap seq s ∙ sym (same (p % c)) ∙ e) (sym s))
            ∙ P.stored p lt (sym (same (p % c)) ∙ e);
        single = P.single;
        single_take = P.single_take;
        knows = known;
      }

  pub push_store :
      (x : A)
      → ts i ≡ pushing x (PushState.store_sequence t)
      → seq' (t % c) ≡ t + 1
      → ((j : ℕ) → t % c ≢ j → seq' j ≡ seq j)
      → ((j : ℕ) → vals' j ≡ vals j)
      → Change P i (pushing x (PushState.returned true)) head tail seq' vals' owner taker
  push_store x at here other same =
      let known : (t < tail) × (owner t ≡ i) = (rw at at (P.knows i)) in
      let (refl_t, waits, value) : (t ≡ t) × (seq (t % c) ≡ t) × (vals (t % c) ≡ some x) =
        (rw (known.1, at) at (P.owned t known.0)) in
      record {
        head_grows = omega arith;
        tail_grows = omega arith;
        order = P.order;
        room = P.room;
        seq_grows = λ j. elim (Bool-cases (eqb (t % c) j)) [
          | inl slot ↦ let e : t % c ≡ j = ground arith in rw (← e) (omega arith)
          | inr away ↦ omega (arith, other j (λ e. ground arith))
        ];
        owners = λ p lt. refl;
        takers = λ p lt. refl;
        new_owner = λ p lo hi. absurd (omega arith);
        new_taker = λ p lo hi. absurd (omega arith);
        other_pushes = λ p lt ne e. (other (p % c) (alone p waits known.1 e ne), same (p % c));
        other_pops = λ p lt ne e.
            other (p % c) (λ s. next-ne c p t P.more_than_one (sym waits ∙ ap seq s ∙ e) (sym s));
        value = ap pushed (sym at);
        own_push = λ p lt own.
            let (e, w, v) : (t ≡ p) × (seq (p % c) ≡ p) × (vals (p % c) ≡ some x) =
              (rw (own, at) at (P.owned p lt)) in
            rw (← e) (omega arith);
        own_pop = λ p lt own. absurd ((rw (own, at) at (P.taken p lt)));
        shape = λ p. elim (Bool-cases (eqb (t % c) (p % c))) [
          | inl slot ↦
              let e : t % c ≡ p % c = ground arith in
              record { at = t; same = e; state = inr (ap seq' (sym e) ∙ here, known.0) }
          | inr away ↦
              Shape-same c head tail p seq seq' (other (p % c) (λ e. ground arith)) (P.shape p)
        ];
        stored = λ p lt e. elim (Bool-cases (eqb (t % c) (p % c))) [
          | inl slot ↦
              let s : t % c ≡ p % c = ground arith in
              let e' : t ≡ p = omega (arith, here, ap seq' s) in
              same (p % c)
              ∙ ap (λ (n : ℕ). vals (n % c)) (sym e')
              ∙ value
              ∙ ap pushed (sym at)
              ∙ ap (λ (n : ℕ). pushed (ts n)) (sym known.1 ∙ ap owner e')
          | inr away ↦
              let unchanged = other (p % c) (λ s. ground arith) in
              same (p % c) ∙ P.stored p lt (sym unchanged ∙ e)
        ];
        single = P.single;
        single_take = P.single_take;
        knows = (t, known.0, known.1);
      }

  pub pop_store :
      (v : A)
      → ts i ≡ popping (PopState.store_sequence t v)
      → seq' (t % c) ≡ t + c
      → ((j : ℕ) → t % c ≢ j → seq' j ≡ seq j)
      → ((j : ℕ) → vals' j ≡ vals j)
      → Change P i (popping (PopState.returned (some v))) head tail seq' vals' owner taker
  pop_store v at here other same =
      let known : (t < head) × (taker t ≡ i) = (rw at at (P.knows i)) in
      let (refl_t, filled, value) : (t ≡ t)
          × (seq (t % c) ≡ t + 1)
          × (pushed (ts (owner t)) ≡ some v) =
        (rw (known.1, at) at (P.taken t known.0)) in
      record {
        head_grows = omega arith;
        tail_grows = omega arith;
        order = P.order;
        room = P.room;
        seq_grows = λ j. elim (Bool-cases (eqb (t % c) j)) [
          | inl slot ↦ let e : t % c ≡ j = ground arith in rw (← e) (omega (arith, P.more_than_one))
          | inr away ↦ omega (arith, other j (λ e. ground arith))
        ];
        owners = λ p lt. refl;
        takers = λ p lt. refl;
        new_owner = λ p lo hi. absurd (omega arith);
        new_taker = λ p lo hi. absurd (omega arith);
        other_pushes = λ p lt ne e. (
          other (p % c) (λ s. next-ne c t p P.more_than_one (sym e ∙ ap seq (sym s) ∙ filled) s),
          same (p % c),
        );
        other_pops = λ p lt ne e. other (p % c) (λ s.
            let e' : t ≡ p = omega (arith, filled, e, ap seq s) in
            ne (ap taker (sym e') ∙ known.1));
        value = ap pushed (sym at);
        own_push = λ p lt own. absurd ((rw (own, at) at (P.owned p lt)));
        own_pop = λ p lt own.
            let (e, w, u) : (t ≡ p) × (seq (p % c) ≡ p + 1) × (pushed (ts (owner p)) ≡ some v) =
              (rw (own, at) at (P.taken p lt)) in
            (rw (← e) (omega (arith, P.more_than_one)), u);
        shape = λ p. elim (Bool-cases (eqb (t % c) (p % c))) [
          | inl slot ↦
              let e : t % c ≡ p % c = ground arith in
              record {
                at = t + c;
                same = add-mod_right t c ∙ e;
                state = inl (ap seq' (sym e) ∙ here, omega arith);
              }
          | inr away ↦
              Shape-same c head tail p seq seq' (other (p % c) (λ e. ground arith)) (P.shape p)
        ];
        stored = λ p lt e. elim (Bool-cases (eqb (t % c) (p % c))) [
          | inl slot ↦
              let s : t % c ≡ p % c = ground arith in
              let e' : t + c ≡ p + 1 = sym here ∙ ap seq' s ∙ e in
              absurd (slot-ne c t p (omega (arith, P.more_than_one)) (omega arith) s)
          | inr away ↦
              let unchanged = other (p % c) (λ s. ground arith) in
              same (p % c) ∙ P.stored p lt (sym unchanged ∙ e)
        ];
        single = P.single;
        single_take = P.single_take;
        knows = (t, known.0, known.1);
      }
