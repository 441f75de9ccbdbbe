-- ===== src/RingBuffer/Refine.antt =====
-- A ring that runs alone behaves as the bounded queue of what it holds, across every wrap-around.
use Prim.Native.Nat.{bit_and, ◌∣◌}
use native.Mathlib.Nat.{
  mod-mod_of_dvd, one-le-pow, pow-le-pow_right, pow-suc, add-mod_right, dvd_refl,
  dvd-mul_right_of_dvd, mod-lt,
}
use native.Mathlib.Decide.{dec_le}
use map_reduce_rpc.Prelude.{
  ℕ, zero, suc, ◌+◌, ◌-◌, ◌%◌, ◌^◌, ◌≤◌, ◌<◌, ◌≡◌, refl, ap, ◌∙◌, sym, arith, lt→ltb, length, true,
  false, List, [], ◌∷◌, ◌++◌, none, some, set, get_elem?-set_self, get_elem?-some, length-set,
  length-append,
}
use map_reduce_rpc.Prelude.Bits.{and_mask}
use map_reduce_rpc.Prelude.Words.{add64, sub64, negative64}
use map_reduce_rpc.RingBuffer.{Slot, RingBuffer, index, push, pop}
use map_reduce_rpc.RingBuffer.Holds.{
  Free-first, Free-cast, Holds, slot-ne, Filled-set, Free-set, Filled-append, Free-append,
}
use map_reduce_rpc.RingBuffer.Alone.{push_free, push_full, pop_filled, pop-none}

two-pow-dvd : (k n : ℕ) → k ≤ n → (2 ^ k) ∣ (2 ^ n)
two-pow-dvd zero zero h = dvd_refl 1
two-pow-dvd (suc k) zero h = absurd (omega arith)
two-pow-dvd k (suc n) h = elim (dec_le k n) [
  | yes below ↦ rw (pow-suc 2 n) (dvd-mul_right_of_dvd (2 ^ k) (two-pow-dvd k n below) 2)
  | no above ↦ let same : k ≡ suc n = omega arith in rw same (dvd_refl (2 ^ suc n))
]

pow-le-62 : (k : ℕ) → k ≤ 62 → 2 ^ k ≤ 2 ^ 62
pow-le-62 k few = pow-le-pow_right {n = 2} (omega arith) {i = k} {j = 62} few

-- The mask of the capacity finds the slot of a position that is kept modulo 2 ^ 64.
pub index-position {ℓ} :
    {A : Type ℓ} (rb : RingBuffer A) (k p : ℕ)
    → rb.capacity ≡ 2 ^ k
    → k ≤ 62
    → index rb (p % 2 ^ 64) ≡ p % 2 ^ k
index-position rb k p e few =
    ap (bit_and (p % 2 ^ 64)) mask
    ∙ and_mask k (p % 2 ^ 64)
    ∙ mod-mod_of_dvd (2 ^ k) p (two-pow-dvd k 64 (omega arith))
  where
    mask : sub64 rb.capacity 1 ≡ 2 ^ k - 1
    mask = omega (arith, one-le-pow k 2 (omega arith), pow-le-62 k few)

next_position : (p n : ℕ) → n ≡ p % 2 ^ 64 → add64 n 1 ≡ (p + 1) % 2 ^ 64
next_position p n e = omega (arith, e)

-- A slot that was filled a lap ago, or freed and not yet filled, is behind what the call expects.
lap_behind :
    (p c n : ℕ)
    → 2 ≤ c
    → c ≤ 2 ^ 62
    → n ≡ (p + c) % 2 ^ 64
    → negative64 (sub64 ((p + 1) % 2 ^ 64) n) ≡ true
lap_behind p c n lo hi e = lt→ltb _ _ (omega (arith, e))

not_yet_filled : (p n : ℕ) → n ≡ p % 2 ^ 64 → negative64 (sub64 n (add64 n 1)) ≡ true
not_yet_filled p n e = lt→ltb _ _ (omega (arith, e))

pub two-le-pow : (k : ℕ) → 1 ≤ k → 2 ≤ 2 ^ k
two-le-pow k pos = pow-le-pow_right {n = 2} (omega arith) {i = 1} {j = k} pos

module _ {ℓ} {A : Type ℓ} where
  module _ {rb : RingBuffer A} {k start : ℕ} {q : List A} (h : Holds rb k start q) where
    slot_bound : (p : ℕ) → p % 2 ^ k < length rb.buffer
    slot_bound p = omega (arith, h.slots, mod-lt p (one-le-pow k 2 (omega arith)))

    -- A push to a ring that is not full returns true, and the value stands last.
    pub push_room :
        (x : A)
        → length q < 2 ^ k
        → (rb' : RingBuffer A) × (push x rb ≡ some (rb', true)) × Holds rb' k start (q ++ x ∷ [])
    push_room x room =
        let t = start + length q in
        let i = t % 2 ^ k in
        let (slot, found) = get_elem?-some rb.buffer i (slot_bound t) in
        let (first, others) =
          Free-first rb.buffer (2 ^ k) t (2 ^ k - length q) (omega arith) h.free in
        let written : Slot A = record { sequence = add64 rb.tail 1; val = x } in
        (
          record rb { buffer = set rb.buffer i written; tail = add64 rb.tail 1 },
          push_free rb i x (omega (arith, h.tail))
              (ap (index rb) h.tail ∙ index-position rb k t h.capacity h.few) (slot_bound t) found
              ((rw found at first) ∙ sym h.tail),
          record {
            more_than_one = h.more_than_one;
            few = h.few;
            capacity = h.capacity;
            slots = length-set rb.buffer i written ∙ h.slots;
            fits = omega (arith, length-append q (x ∷ []));
            head = h.head;
            tail = omega (arith, h.tail, length-append q (x ∷ []));
            filled =
                Filled-append (set rb.buffer i written) (2 ^ k) start t q x refl
                  (Filled-set rb.buffer (2 ^ k) start i written q
                    (λ m lo hi e. slot-ne (2 ^ k) m t hi (omega (arith, h.fits)) (sym e)) h.filled)
                  (get_elem?-set_self rb.buffer i written (slot_bound t)
                    ∙ ap (λ (n : ℕ). some (record { sequence = n; val = x }))
                        (next_position t rb.tail h.tail));
            free =
                Free-cast (set rb.buffer i written) (2 ^ k)
                  (omega (arith, length-append q (x ∷ [])))
                  (omega (arith, length-append q (x ∷ [])))
                  (Free-set rb.buffer (2 ^ k) (t + 1) i written (2 ^ k - length q - 1)
                    (λ m lo hi. slot-ne (2 ^ k) t m (omega arith) (omega arith)) others);
          },
        )

  -- A push to a full ring returns false and changes nothing.
  pub push_no_room :
      {rb : RingBuffer A} {k start : ℕ} (q : List A)
      → Holds rb k start q
      → (x : A) → length q ≡ 2 ^ k
      → push x rb ≡ some (rb, false)
  push_no_room {k} [] h x full = absurd (omega (arith, two-le-pow k h.more_than_one))
  push_no_room {rb} {k} {start} (y ∷ q) h x full =
      push_full rb (start % 2 ^ k) x (omega (arith, h.tail))
        (ap (index rb) h.tail
          ∙ index-position rb k (start + length (y ∷ q)) h.capacity h.few
          ∙ ap (λ (n : ℕ). (start + n) % 2 ^ k) full
          ∙ add-mod_right start (2 ^ k))
        h.filled.0
        (lap_behind start (2 ^ k) rb.tail (two-le-pow k h.more_than_one) (pow-le-62 k h.few)
          (h.tail ∙ ap (λ (n : ℕ). (start + n) % 2 ^ 64) full))

  -- A pop of a ring that holds a value returns the oldest one.
  pub pop_first :
      {rb : RingBuffer A} {k start : ℕ} {x : A} {q : List A}
      → Holds rb k start (x ∷ q)
      → (rb' : RingBuffer A) × (pop rb ≡ some (rb', some x)) × Holds rb' k (start + 1) q
  pop_first {rb} {k} {start} {x} {q} h =
      let i = start % 2 ^ k in
      let freed : Slot A = record { sequence = add64 rb.head rb.capacity; val = x } in
      let bound : i < length rb.buffer =
        omega (arith, h.slots, mod-lt start (one-le-pow k 2 (omega arith))) in
      (
        record rb { buffer = set rb.buffer i freed; head = add64 rb.head 1 },
        pop_filled rb i (omega (arith, h.head))
            (ap (index rb) h.head ∙ index-position rb k start h.capacity h.few) h.filled.0
            (sym (next_position start rb.head h.head)),
        record {
          more_than_one = h.more_than_one;
          few = h.few;
          capacity = h.capacity;
          slots = length-set rb.buffer i freed ∙ h.slots;
          fits = omega (arith, h.fits);
          head = next_position start rb.head h.head;
          tail = omega (arith, h.tail);
          filled =
              Filled-set rb.buffer (2 ^ k) (start + 1) i freed q
                (λ m lo hi. slot-ne (2 ^ k) start m (omega arith) (omega (arith, h.fits)))
                h.filled.1;
          free =
              Free-cast (set rb.buffer i freed) (2 ^ k) {n = suc (2 ^ k - suc (length q))} refl
                (omega (arith, h.fits))
                (Free-append (set rb.buffer i freed) (2 ^ k) (start + 1 + length q) (start + 2 ^ k)
                  (2 ^ k - suc (length q)) (omega (arith, h.fits))
                  (Free-set rb.buffer (2 ^ k) (start + 1 + length q) i freed
                    (2 ^ k - suc (length q))
                    (λ m lo hi. slot-ne (2 ^ k) start m (omega arith) (omega (arith, h.fits)))
                    (Free-cast rb.buffer (2 ^ k) (omega arith) refl h.free))
                  (rw (add-mod_right, get_elem?-set_self rb.buffer i freed bound)
                    (omega (arith, h.head, h.capacity))));
        },
      )

  -- A pop of an empty ring returns no value and changes nothing.
  pub pop_empty : {rb : RingBuffer A} {k start : ℕ} → Holds rb k start [] → pop rb ≡ some (rb, none)
  pop_empty {rb} {k} {start} h =
      let bound : start % 2 ^ k < length rb.buffer =
        omega (arith, h.slots, mod-lt start (one-le-pow k 2 (omega arith))) in
      let (slot, found) = get_elem?-some rb.buffer (start % 2 ^ k) bound in
      let (first, others) =
        Free-first rb.buffer (2 ^ k) start (2 ^ k) (omega (arith, two-le-pow k h.more_than_one))
          (Free-cast rb.buffer (2 ^ k) (omega arith) (omega arith) h.free) in
      pop-none rb (start % 2 ^ k) (omega (arith, h.head))
        (ap (index rb) h.head ∙ index-position rb k start h.capacity h.few) found
        (ap (λ (n : ℕ). negative64 (sub64 n (add64 rb.head 1))) ((rw found at first) ∙ sym h.head)
          ∙ not_yet_filled start rb.head h.head)
