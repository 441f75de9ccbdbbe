-- ===== src/RingBuffer/Threads/Slots.antt =====
-- How an action of a thread changes the slots of a ring.
use native.Mathlib.Nat.{mod-eq_of_lt}
use map_reduce_rpc.Prelude.{
  ℕ, ◌%◌, ◌^◌, ◌≤◌, ◌<◌, ◌≡◌, ◌≢◌, ap, ◌∙◌, sym, arith, Option, none, some, List, eqb, Bool-cases,
  inl, inr, length, get_elem?, get_elem?-some, get_elem?-set_self, get_elem?-set_ne, length-set,
}
use map_reduce_rpc.RingBuffer.{
  Slot, RingBuffer, index, sequence_at, store_sequence_at, write_val_at,
}
use map_reduce_rpc.RingBuffer.Refine.{index-position}

module _ {A : Type 0} where
  abbrev value_of : Option (Slot A) → Option A
  value_of none = none
  value_of (some slot) = some slot.val

  abbrev pub val_at : List (Slot A) → ℕ → Option A
  val_at slots i = value_of (get_elem? slots i)

  pub index_small :
      (rb : RingBuffer A) (k p : ℕ)
      → rb.capacity ≡ 2 ^ k
      → k ≤ 62
      → p < 2 ^ 64
      → index rb p ≡ p % 2 ^ k
  index_small rb k p e few small =
      ap (index rb) (sym (mod-eq_of_lt {n = p} {m = 2 ^ 64} small)) ∙ index-position rb k p e few

  module _ (slots : List (Slot A)) (i : ℕ) (bound : i < length slots) where
    pub sequence_at-store_self : (s : ℕ) → sequence_at (store_sequence_at slots i s) i ≡ s
    sequence_at-store_self s =
        let (slot, found) = get_elem?-some slots i bound in
        ground (arith, found, get_elem?-set_self slots i (record slot { sequence = s }) bound)

    pub val_at-write_self : (x : A) → val_at (write_val_at slots i x) i ≡ some x
    val_at-write_self x =
        let (slot, found) = get_elem?-some slots i bound in
        ground (arith, found, get_elem?-set_self slots i (record slot { val = x }) bound)

    pub sequence_at-store_ne :
        (s j : ℕ) → i ≢ j → sequence_at (store_sequence_at slots i s) j ≡ sequence_at slots j
    sequence_at-store_ne s j ne =
        let (slot, found) = get_elem?-some slots i bound in
        ground (arith, found, get_elem?-set_ne slots i j (record slot { sequence = s }) ne)

    pub val_at-write_ne :
        (x : A) (j : ℕ) → i ≢ j → val_at (write_val_at slots i x) j ≡ val_at slots j
    val_at-write_ne x j ne =
        let (slot, found) = get_elem?-some slots i bound in
        ground (arith, found, get_elem?-set_ne slots i j (record slot { val = x }) ne)

    -- Storing a sequence number leaves the values alone, and writing a value the sequence numbers.
    pub val_at-store : (s j : ℕ) → val_at (store_sequence_at slots i s) j ≡ val_at slots j
    val_at-store s j = elim (Bool-cases (eqb i j)) [
      | inl self ↦
          let e : i ≡ j = ground arith in
          let (slot, found) = get_elem?-some slots i bound in
          rw (← e)
            (ground (arith, found, get_elem?-set_self slots i (record slot { sequence = s }) bound))
      | inr other ↦
          let (slot, found) = get_elem?-some slots i bound in
          ground (
            arith,
            found,
            get_elem?-set_ne slots i j (record slot { sequence = s }) (λ e. ground arith),
          )
    ]

    pub sequence_at-write :
        (x : A) (j : ℕ) → sequence_at (write_val_at slots i x) j ≡ sequence_at slots j
    sequence_at-write x j = elim (Bool-cases (eqb i j)) [
      | inl self ↦
          let e : i ≡ j = ground arith in
          let (slot, found) = get_elem?-some slots i bound in
          rw (← e)
            (ground (arith, found, get_elem?-set_self slots i (record slot { val = x }) bound))
      | inr other ↦
          let (slot, found) = get_elem?-some slots i bound in
          ground
            (arith, found, get_elem?-set_ne slots i j (record slot { val = x }) (λ e. ground arith))
    ]

    pub length-store : (s : ℕ) → length (store_sequence_at slots i s) ≡ length slots
    length-store s =
        let (slot, found) = get_elem?-some slots i bound in
        ground (arith, found, length-set slots i (record slot { sequence = s }))

    pub length-write : (x : A) → length (write_val_at slots i x) ≡ length slots
    length-write x =
        let (slot, found) = get_elem?-some slots i bound in
        ground (arith, found, length-set slots i (record slot { val = x }))
