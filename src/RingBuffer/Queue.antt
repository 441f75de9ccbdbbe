-- ===== src/RingBuffer/Queue.antt =====
-- The abstract view of a ring: a bounded first-in first-out queue.
use map_reduce_rpc.Prelude.{
  ℕ, Bool, true, false, Option, none, some, List, [], ◌∷◌, ◌++◌, ltb, if◌then◌else◌, length,
}

module _ {ℓ} {A : Type ℓ} where
  unfoldable pub push : ℕ → List A → A → List A × Bool
  push bound q x = if ltb (length q) bound then (q ++ x ∷ [], true) else (q, false)

  unfoldable pub pop : List A → List A × Option A
  pop [] = ([], none)
  pop (x ∷ q) = (q, some x)
