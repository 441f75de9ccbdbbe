-- ===== src/RingBuffer/Threads/Claims.antt =====
-- The actions that change no slot: loads, lost and won compare-and-swaps, and the reading of a value.
use native.Mathlib.Decide.{dec_le}
use map_reduce_rpc.Prelude.{
  ℕ, ◌+◌, ◌%◌, ◌≤◌, ◌<◌, ◌≡◌, ◌⊎◌, refl, sym, ap, ◌∙◌, arith, Option, some, eqb, Bool-cases, inl,
  inr,
}
use map_reduce_rpc.RingBuffer.{PushState, PopState}
use map_reduce_rpc.RingBuffer.Holds.{slot-ne}
use map_reduce_rpc.RingBuffer.Threads.{pushed, Thread, pushing, popping, update}
use map_reduce_rpc.RingBuffer.Threads.Positions.{PushAt, TakeAt, Knows, Shape, Positions}
use map_reduce_rpc.RingBuffer.Threads.Change.{Change}

-- Positions of one slot less than a lap apart are the same.
pub same_slot : (c p q : ℕ) → p % c ≡ q % c → p ≤ q → q < p + c → p ≡ q
same_slot c p q e lo hi = elim (dec_le q p) [
  | yes below ↦ omega arith
  | no above ↦ absurd (slot-ne c p q (omega arith) hi e)
]

-- A thread that holds no position.
abbrev pub IsPassive : {A : Type 0} → Thread A → Type 0
IsPassive t =
    ((q p : ℕ) (v : Option _) → PushAt q v p t → ⊥)
    × ((q p : ℕ) (v : Option _) → TakeAt q v p t → ⊥)

module _ {A : Type 0} {c head tail : ℕ} {seq : ℕ → ℕ} {vals : ℕ → Option A} {ts : ℕ → Thread A}
    {owner taker : ℕ → ℕ} (P : Positions c head tail seq vals ts owner taker) (i : ℕ) where
  -- The slot at the tail is free if its sequence number is not behind.
  pub tail_free : tail ≤ seq (tail % c) → (seq (tail % c) ≡ tail) × (tail < head + c)
  tail_free ahead = free (P.shape tail)
    where
      free : Shape c head tail seq tail → (seq (tail % c) ≡ tail) × (tail < head + c)
      free s = elim s.state [
        | inl (waits, fits) ↦
            let e : tail ≡ s.at =
              same_slot c tail s.at (sym s.same) (omega arith) (omega (arith, P.order)) in
            (omega arith, omega arith)
        | inr (filled, old) ↦
            absurd (slot-ne c s.at tail old (omega (arith, P.more_than_one)) s.same)
      ]

  -- The slot at the head is filled if its sequence number is not behind.
  pub head_filled : head + 1 ≤ seq (head % c) → (seq (head % c) ≡ head + 1) × (head < tail)
  head_filled ahead = filled_slot (P.shape head)
    where
      filled_slot : Shape c head tail seq head → (seq (head % c) ≡ head + 1) × (head < tail)
      filled_slot s = elim s.state [
        | inl (waits, fits) ↦ absurd (slot-ne c head s.at (omega arith) fits (sym s.same))
        | inr (filled, old) ↦
            let e : head ≡ s.at =
              same_slot c head s.at (sym s.same) (omega arith) (omega (arith, P.room)) in
            (omega arith, omega arith)
      ]

  pub stay :
      (t t' : Thread A)
      → ts i ≡ t
      → IsPassive t
      → pushed t' ≡ pushed t
      → Knows c head tail seq owner taker i t'
      → Change P i t' head tail seq vals owner taker
  stay t t' at (no_push, no_pop) value knows = record {
    head_grows = omega arith;
    tail_grows = omega arith;
    order = P.order;
    room = P.room;
    seq_grows = λ j. omega arith;
    owners = λ p lt. refl;
    takers = λ p lt. refl;
    new_owner = λ p lo hi. absurd (omega arith);
    new_taker = λ p lo hi. absurd (omega arith);
    other_pushes = λ p lt ne e. (refl, refl);
    other_pops = λ p lt ne e. refl;
    value = value ∙ ap pushed (sym at);
    own_push = λ p lt own. absurd (no_push _ p _ ((rw (own, at) at (P.owned p lt))));
    own_pop = λ p lt own. absurd (no_pop _ p _ ((rw (own, at) at (P.taken p lt))));
    shape = P.shape;
    stored = P.stored;
    single = P.single;
    single_take = P.single_take;
    knows = knows;
  }

  -- A thread that has returned does nothing.
  pub rest : (t : Thread A) → ts i ≡ t → Change P i t head tail seq vals owner taker
  rest t at = record {
    head_grows = omega arith;
    tail_grows = omega arith;
    order = P.order;
    room = P.room;
    seq_grows = λ j. omega arith;
    owners = λ p lt. refl;
    takers = λ p lt. refl;
    new_owner = λ p lo hi. absurd (omega arith);
    new_taker = λ p lo hi. absurd (omega arith);
    other_pushes = λ p lt ne e. (refl, refl);
    other_pops = λ p lt ne e. refl;
    value = ap pushed (sym at);
    own_push = λ p lt own. (rw (own, at) at (P.owned p lt));
    own_pop = λ p lt own. (rw (own, at) at (P.taken p lt));
    shape = P.shape;
    stored = P.stored;
    single = P.single;
    single_take = P.single_take;
    knows = (rw at at (P.knows i));
  }

  Shape-grows :
      (head' tail' : ℕ) (p : ℕ)
      → head ≤ head'
      → tail ≤ tail'
      → Shape c head tail seq p
      → Shape c head' tail' seq p
  Shape-grows head' tail' p hh ht s = record { at = s.at; same = s.same; state = later s.state }
    where
      later :
          {a : ℕ}
          → ((seq (p % c) ≡ a) × (a < head + c)) ⊎ ((seq (p % c) ≡ a + 1) × (a < tail))
          → ((seq (p % c) ≡ a) × (a < head' + c)) ⊎ ((seq (p % c) ≡ a + 1) × (a < tail'))
      later (inl (e, lt)) = inl (e, omega arith)
      later (inr (e, lt)) = inr (e, omega arith)

  -- A won compare-and-swap of the tail makes the thread the owner of the position.
  pub claim_tail :
      (x : A)
      → ts i ≡ pushing x (PushState.swap_tail tail)
      → Change P i
          (pushing x (PushState.write_val tail))
          head
          (tail + 1)
          seq
          vals
          (update owner tail i)
          taker
  claim_tail x at =
      let known : (tail ≤ tail) × (tail ≤ seq (tail % c)) = (rw at at (P.knows i)) in
      let (free, fits) = tail_free known.1 in
      record {
        head_grows = omega arith;
        tail_grows = omega arith;
        order = omega (arith, P.order);
        room = omega arith;
        seq_grows = λ j. omega arith;
        owners = λ p lt. ground arith;
        takers = λ p lt. refl;
        new_owner = λ p lo hi. ground arith;
        new_taker = λ p lo hi. absurd (omega arith);
        other_pushes = λ p lt ne e. (refl, refl);
        other_pops = λ p lt ne e. refl;
        value = ap pushed (sym at);
        own_push = λ p lt own. elim (Bool-cases (eqb p tail)) [
          | inl last ↦ let e : p ≡ tail = ground arith in rw e (refl, free)
          | inr old ↦
              let own' : owner p ≡ i = (rw old at own) in
              absurd ((rw (own', at) at (P.owned p (ground arith))))
        ];
        own_pop = λ p lt own. absurd ((rw (own, at) at (P.taken p lt)));
        shape = λ p. Shape-grows head (tail + 1) p (omega arith) (omega arith) (P.shape p);
        stored = λ p lt e. elim (Bool-cases (eqb p tail)) [
          | inl last ↦ let e' : p ≡ tail = ground arith in absurd (omega (arith, (rw e' at e)))
          | inr old ↦ rw old (P.stored p (ground arith) e)
        ];
        single = λ p q lp lq e. elim (Bool-cases (eqb p tail)) [
          | inl last ↦ elim (Bool-cases (eqb q tail)) [
            | inl last' ↦ ground arith
            | inr old' ↦
                let own : owner q ≡ i = sym ((rw (last, old') at e)) in
                absurd ((rw (own, at) at (P.owned q (ground arith))))
          ]
          | inr old ↦ elim (Bool-cases (eqb q tail)) [
            | inl last' ↦
                let own : owner p ≡ i = (rw (old, last') at e) in
                absurd ((rw (own, at) at (P.owned p (ground arith))))
            | inr old' ↦ P.single p q (ground arith) (ground arith) ((rw (old, old') at e))
          ]
        ];
        single_take = P.single_take;
        knows = (omega arith, ground arith);
      }

  -- A won compare-and-swap of the head lets the thread take what was pushed at the position.
  pub claim_head :
      ts i ≡ popping (PopState.swap_head head)
      → Change P i
          (popping (PopState.read_val head))
          (head + 1)
          tail
          seq
          vals
          owner
          (update taker head i)
  claim_head at =
      let known : (head ≤ head) × (head + 1 ≤ seq (head % c)) = (rw at at (P.knows i)) in
      let (filled, fits) = head_filled known.1 in
      record {
        head_grows = omega arith;
        tail_grows = omega arith;
        order = omega arith;
        room = omega (arith, P.room);
        seq_grows = λ j. omega arith;
        owners = λ p lt. refl;
        takers = λ p lt. ground arith;
        new_owner = λ p lo hi. absurd (omega arith);
        new_taker = λ p lo hi. ground arith;
        other_pushes = λ p lt ne e. (refl, refl);
        other_pops = λ p lt ne e. refl;
        value = ap pushed (sym at);
        own_push = λ p lt own. absurd ((rw (own, at) at (P.owned p lt)));
        own_pop = λ p lt own. elim (Bool-cases (eqb p head)) [
          | inl last ↦ let e : p ≡ head = ground arith in rw e (refl, filled)
          | inr old ↦
              let own' : taker p ≡ i = (rw old at own) in
              absurd ((rw (own', at) at (P.taken p (ground arith))))
        ];
        shape = λ p. Shape-grows (head + 1) tail p (omega arith) (omega arith) (P.shape p);
        stored = P.stored;
        single = P.single;
        single_take = λ p q lp lq e. elim (Bool-cases (eqb p head)) [
          | inl last ↦ elim (Bool-cases (eqb q head)) [
            | inl last' ↦ ground arith
            | inr old' ↦
                let own : taker q ≡ i = sym ((rw (last, old') at e)) in
                absurd ((rw (own, at) at (P.taken q (ground arith))))
          ]
          | inr old ↦ elim (Bool-cases (eqb q head)) [
            | inl last' ↦
                let own : taker p ≡ i = (rw (old, last') at e) in
                absurd ((rw (own, at) at (P.taken p (ground arith))))
            | inr old' ↦ P.single_take p q (ground arith) (ground arith) ((rw (old, old') at e))
          ]
        ];
        knows = (omega arith, ground arith);
      }

  -- The value that a pop reads is the one that was pushed at its position.
  pub read_own :
      (t : ℕ) (v : A)
      → ts i ≡ popping (PopState.read_val t)
      → vals (t % c) ≡ some v
      → Change P i (popping (PopState.store_sequence t v)) head tail seq vals owner taker
  read_own t v at found =
      let known : (t < head) × (taker t ≡ i) = (rw at at (P.knows i)) in
      record {
        head_grows = omega arith;
        tail_grows = omega arith;
        order = P.order;
        room = P.room;
        seq_grows = λ j. omega arith;
        owners = λ p lt. refl;
        takers = λ p lt. refl;
        new_owner = λ p lo hi. absurd (omega arith);
        new_taker = λ p lo hi. absurd (omega arith);
        other_pushes = λ p lt ne e. (refl, refl);
        other_pops = λ p lt ne e. refl;
        value = ap pushed (sym at);
        own_push = λ p lt own. absurd ((rw (own, at) at (P.owned p lt)));
        own_pop = λ p lt own.
            let (e, filled) : (t ≡ p) × (seq (p % c) ≡ p + 1) = (rw (own, at) at (P.taken p lt)) in
            (
              e,
              filled,
              sym (P.stored p (omega (arith, P.order)) filled)
                  ∙ ap (λ (n : ℕ). vals (n % c)) (sym e)
                  ∙ found,
            );
        shape = P.shape;
        stored = P.stored;
        single = P.single;
        single_take = P.single_take;
        knows = known;
      }
