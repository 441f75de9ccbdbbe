-- ===== src/RingBuffer/Alone.antt =====
-- What a call of `Push` or `Pop` does when no other thread runs.
use map_reduce_rpc.Prelude.{
  ℕ, ◌<◌, ◌≡◌, arith, true, false, some, none, length, get_elem?, set, get_elem?-set_self,
  set_twice,
}
use map_reduce_rpc.Prelude.Words.{add64, sub64, negative64, IsU64}
use map_reduce_rpc.RingBuffer.{Slot, RingBuffer, index, push, pop}

module _ {ℓ} {A : Type ℓ} (rb : RingBuffer A) (i : ℕ) {slot : Slot A} where
  open rb use {buffer, head, tail, capacity}

  -- The slot at the tail is free: the value is written there.
  pub push_free :
      (x : A)
      → IsU64 tail
      → index rb tail ≡ i
      → i < length buffer
      → get_elem? buffer i ≡ some slot
      → slot.sequence ≡ tail
      → push x rb
        ≡ some (
          record rb {
            buffer = set buffer i (record { sequence = add64 tail 1; val = x });
            tail = add64 tail 1;
          },
          true,
        )
  unfolding push
  push_free x small at bound found free = ground (
    arith,
    get_elem?-set_self buffer i (record slot { val = x }) bound,
    set_twice buffer i (record slot { val = x }) (record { sequence = add64 tail 1; val = x }),
  )

  -- The slot at the tail still holds the value of the lap before.
  pub push_full :
      (x : A)
      → IsU64 tail
      → index rb tail ≡ i
      → get_elem? buffer i ≡ some slot
      → negative64 (sub64 slot.sequence tail) ≡ true
      → push x rb ≡ some (rb, false)
  unfolding push
  push_full x small at found behind = ground arith

  pub pop_filled :
      IsU64 head
      → index rb head ≡ i
      → get_elem? buffer i ≡ some slot
      → slot.sequence ≡ add64 head 1
      → pop rb
        ≡ some (
          record rb {
            buffer = set buffer i (record slot { sequence = add64 head capacity });
            head = add64 head 1;
          },
          some slot.val,
        )
  unfolding pop
  pop_filled small at found filled = ground arith

  pub pop-none :
      IsU64 head
      → index rb head ≡ i
      → get_elem? buffer i ≡ some slot
      → negative64 (sub64 slot.sequence (add64 head 1)) ≡ true
      → pop rb ≡ some (rb, none)
  unfolding pop
  pop-none small at found behind = ground arith
