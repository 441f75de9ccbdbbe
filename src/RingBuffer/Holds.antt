-- ===== src/RingBuffer/Holds.antt =====
-- What a ring holds. Positions count all pushes and pops and never wrap; the program keeps them
-- modulo 2 ^ 64, and a slot is a position modulo the capacity.
use native.Mathlib.Decide.{dec_le}
use native.Mathlib.Nat.{mul-le-mul_left, div-add-mod}
use map_reduce_rpc.Prelude.{
  ℕ, zero, suc, ◌+◌, ◌-◌, ◌/◌, ◌%◌, ◌^◌, ◌≤◌, ◌<◌, ◌≡◌, ◌≢◌, ◌∙◌, arith, length, List, [], ◌∷◌,
  ◌++◌, some, get_elem?, set, get_elem?-set_ne,
}
use map_reduce_rpc.RingBuffer.{Slot, RingBuffer, sequence_at}

-- Positions less than `c` apart have different slots.
pub slot-ne : (c p q : ℕ) → p < q → q < p + c → p % c ≢ q % c
slot-ne c p q lo hi e = elim (dec_le (q / c) (p / c)) [
  | yes below ↦ omega (arith, div-add-mod p c, div-add-mod q c, mul-le-mul_left c below)
  | no above ↦ omega (
    arith,
    div-add-mod p c,
    div-add-mod q c,
    mul-le-mul_left {m = suc (p / c)} {n = q / c} c (omega arith),
  )
]

module _ {ℓ} {A : Type ℓ} where
  -- From position `p` on, the slots hold the values of the list and are ready for `Pop`.
  abbrev pub Filled : List (Slot A) → ℕ → ℕ → List A → Type ℓ
  Filled slots c p [] = Unit
  Filled slots c p (x ∷ q) =
      (get_elem? slots (p % c) ≡ some (record { sequence = (p + 1) % 2 ^ 64; val = x }))
      × Filled slots c (p + 1) q

  -- The `n` slots from position `p` on are ready for `Push`.
  abbrev pub Free : List (Slot A) → ℕ → ℕ → ℕ → Type 0
  Free slots c p zero = Unit
  Free slots c p (suc n) = (sequence_at slots (p % c) ≡ p % 2 ^ 64) × Free slots c (p + 1) n

  -- The ring holds the queue `q`, oldest first. `start` is the position of its head, and the
  -- capacity is 2 ^ k with 1 ≤ k ≤ 62.
  pub record Holds (rb : RingBuffer A) (k start : ℕ) (q : List A) : Type ℓ where
    pub more_than_one : 1 ≤ k
    pub few : k ≤ 62
    pub capacity : rb.capacity ≡ 2 ^ k
    pub slots : length rb.buffer ≡ 2 ^ k
    pub fits : length q ≤ 2 ^ k
    pub head : rb.head ≡ start % 2 ^ 64
    pub tail : rb.tail ≡ (start + length q) % 2 ^ 64
    pub filled : Filled rb.buffer (2 ^ k) start q
    pub free : Free rb.buffer (2 ^ k) (start + length q) (2 ^ k - length q)

  pub Filled-set :
      (slots : List (Slot A)) (c p i : ℕ) (s : Slot A) (q : List A)
      → ((m : ℕ) → p ≤ m → m < p + length q → i ≢ m % c)
      → Filled slots c p q
      → Filled (set slots i s) c p q
  Filled-set slots c p i s [] away h = tt
  Filled-set slots c p i s (x ∷ q) away (here, rest) = (
    get_elem?-set_ne slots i (p % c) s (away p (omega arith) (omega arith)) ∙ here,
    Filled-set slots c (p + 1) i s q (λ m lo hi. away m (omega arith) (omega arith)) rest,
  )

  pub Free-set :
      (slots : List (Slot A)) (c p i : ℕ) (s : Slot A) (n : ℕ)
      → ((m : ℕ) → p ≤ m → m < p + n → i ≢ m % c)
      → Free slots c p n
      → Free (set slots i s) c p n
  Free-set slots c p i s zero away h = tt
  Free-set slots c p i s (suc n) away (here, rest) = (
    rw (get_elem?-set_ne slots i (p % c) s (away p (omega arith) (omega arith))) here,
    Free-set slots c (p + 1) i s n (λ m lo hi. away m (omega arith) (omega arith)) rest,
  )

  -- One more value behind the queue.
  pub Filled-append :
      (slots : List (Slot A)) (c p t : ℕ) (q : List A) (x : A)
      → t ≡ p + length q
      → Filled slots c p q
      → get_elem? slots (t % c) ≡ some (record { sequence = (t + 1) % 2 ^ 64; val = x })
      → Filled slots c p (q ++ x ∷ [])
  Filled-append slots c p t [] x e h last = let same : t ≡ p = omega arith in (rw same at last, tt)
  Filled-append slots c p t (y ∷ q) x e (here, rest) last =
      (here, Filled-append slots c (p + 1) t q x (omega arith) rest last)

  -- One more free slot behind the others.
  pub Free-append :
      (slots : List (Slot A)) (c p t n : ℕ)
      → t ≡ p + n
      → Free slots c p n
      → sequence_at slots (t % c) ≡ t % 2 ^ 64
      → Free slots c p (suc n)
  Free-append slots c p t zero e h last = let same : t ≡ p = omega arith in (rw same at last, tt)
  Free-append slots c p t (suc n) e (here, rest) last =
      (here, Free-append slots c (p + 1) t n (omega arith) rest last)

  pub Free-first :
      (slots : List (Slot A)) (c p n : ℕ)
      → 0 < n
      → Free slots c p n
      → (sequence_at slots (p % c) ≡ p % 2 ^ 64) × Free slots c (p + 1) (n - 1)
  Free-first slots c p zero pos h = absurd (omega arith)
  Free-first slots c p (suc n) pos (here, rest) =
      let same : n ≡ suc n - 1 = omega arith in (here, rw same at rest)

  pub Free-cast :
      (slots : List (Slot A)) (c : ℕ) {p p' n n' : ℕ}
      → p ≡ p'
      → n ≡ n'
      → Free slots c p n
      → Free slots c p' n'
  Free-cast slots c e f h = rw (e, f) at h
