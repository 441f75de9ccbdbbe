-- ===== src/RingBuffer/Capacity.antt =====
-- `nextPowerOfTwo` and the capacity of a new ring.
use native.Mathlib.Nat.{div-le_self, pow-le-pow_right, pow-suc}
use native.Mathlib.Decide.{dec_lt}
use map_reduce_rpc.Prelude.{
  ℕ, zero, suc, ◌+◌, ◌-◌, ◌*◌, ◌/◌, ◌^◌, ◌≤◌, ◌<◌, ◌≡◌, refl, ap, ◌∙◌, arith,
}
use map_reduce_rpc.Prelude.Bits.{
  bit, bit-bit_or, bit-shift, bit_or-lt, bit_top, bit-le-one, all_ones, log2,
}
use map_reduce_rpc.RingBuffer.{smear, next_power_of_two}

-- The `w` digits of `n` from the highest, number `k`, downwards are all 1.
record IsSmeared (w k n : ℕ) : Type 0 where
  ones : (i : ℕ) → i ≤ k → k < i + w → bit i n ≡ 1
  below : n < 2 ^ suc k

-- `n |= n >> w` doubles the run of ones.
smear-IsSmeared : {w k n : ℕ} → IsSmeared w k n → IsSmeared (w + w) k (smear w n)
unfolding smear
smear-IsSmeared {w} {k} {n} h = record {
  ones = λ i low near. elim (dec_lt k (i + w)) [
    | yes p ↦ omega (arith, bit-bit_or i n (n / 2 ^ w), h.ones i low p, bit_le i (n / 2 ^ w))
    | no p ↦ omega (
      arith,
      bit-bit_or i n (n / 2 ^ w),
      bit-shift w i (w + i) n refl,
      h.ones (w + i) (omega arith) (omega arith),
      bit_le i n,
    )
  ];
  below = bit_or-lt (suc k) n (n / 2 ^ w) h.below (omega (arith, h.below, div-le_self n (2 ^ w)));
}
  where
    bit_le : (i m : ℕ) → bit i m ≤ 1
    bit_le = bit-le-one

-- The six shifts fill in all digits of a `uint64` below its highest.
smear_all :
    (k n : ℕ)
    → k < 64
    → 2 ^ k ≤ n
    → n < 2 ^ suc k
    → smear 32 (smear 16 (smear 8 (smear 4 (smear 2 (smear 1 n))))) + 1 ≡ 2 ^ suc k
smear_all k n small lo hi = all_ones k _ (λ i low. all.ones i low (omega arith)) all.below
  where
    top : IsSmeared 1 k n
    top = record {
      ones = λ i low near.
          let same : i ≡ k = omega arith in ap (λ (t : ℕ). bit t n) same ∙ bit_top k n lo hi;
      below = hi;
    }

    all : IsSmeared 64 k (smear 32 (smear 16 (smear 8 (smear 4 (smear 2 (smear 1 n))))))
    all = smear-IsSmeared {w = 32} (
        smear-IsSmeared {w = 16} (
          smear-IsSmeared {w = 8}
            (smear-IsSmeared {w = 4} (smear-IsSmeared {w = 2} (smear-IsSmeared {w = 1} top)))))

fill_up : (k n : ℕ) → k < 63 → 2 ^ k ≤ n → n < 2 ^ suc k → next_power_of_two (suc n) ≡ 2 ^ suc k
unfolding next_power_of_two
fill_up k n small lo hi = ground (
  arith,
  one-less,
  smear_all k n (omega arith) lo hi,
  pow-le-pow_right {n = 2} (omega arith) {i = suc k} {j = 63} (omega arith),
)
  where
    one-less : suc n - 1 ≡ n
    one-less = omega arith

exponent_small : (k : ℕ) → 2 ^ k < 2 ^ 63 → k < 63
exponent_small k h = elim (dec_lt k 63) [
  | yes p ↦ p
  | no p ↦
      absurd (omega (arith, pow-le-pow_right {n = 2} (omega arith) {i = 63} {j = k} (omega arith)))
]

-- For `1 ≤ n ≤ 2 ^ 63` the result of `nextPowerOfTwo` is a power of two that is at least `n` and less
-- than twice `n`, so it is the least such power.
pub next_power_of_two_least :
    (n : ℕ)
    → 1 ≤ n
    → n ≤ 2 ^ 63
    → (k : ℕ) × (next_power_of_two n ≡ 2 ^ k) × (k ≤ 63) × (n ≤ 2 ^ k) × (2 ^ k < 2 * n)
next_power_of_two_least zero pos small = absurd (omega arith)
next_power_of_two_least (suc zero) pos small =
    (0, (unfold next_power_of_two smear in refl), omega arith, omega arith, omega arith)
next_power_of_two_least (suc (suc n)) pos small =
    let (k, lo, hi) = log2 (suc n) (suc n) (omega arith) (omega arith) in
    let fits : k < 63 = exponent_small k (omega arith) in
    (suc k, fill_up k (suc n) fits lo hi, omega arith, omega arith, omega (arith, pow-suc 2 k))
