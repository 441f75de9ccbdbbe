-- ===== src/Prelude/Bits.antt =====
-- The laws of `&`, `|` and `>>` on numbers of any width, one binary digit at a time.
use Prim.Native.Nat.{
  ℕ, zero, suc, ◌+◌, ◌-◌, ◌*◌, ◌/◌, ◌%◌, ◌^◌, ◌≤◌, ◌<◌, min, max, bit_and, bit_or, digits,
  bit_and-bitwise, bit_or-bitwise,
}
use mathlib.Core.Path.{◌≡◌, refl, ap, sym, ◌∙◌}
use native.Mathlib.Nat.{
  pow-suc, pow-succ', one-le-pow, div-div-eq-div-mul, div-one, div-add-mod, mod-lt, mod-eq_of_lt,
  mul-add-mod_self_left,
}
use native.Mathlib.Omega.{arith}

-- `digits` on enough fuel does not depend on the fuel.
enough_digits :
    (z : ℕ → ℕ) (f : ℕ → ℕ → ℕ) (fuel fuel' a b : ℕ)
    → a ≤ fuel
    → a ≤ fuel'
    → digits z f fuel a b ≡ digits z f fuel' a b
enough_digits z f zero zero a b h h' = refl
enough_digits z f (suc fuel) zero zero b h h' = refl
enough_digits z f (suc fuel) zero (suc a) b h h' = absurd (omega arith)
enough_digits z f zero (suc fuel') zero b h h' = refl
enough_digits z f zero (suc fuel') (suc a) b h h' = absurd (omega arith)
enough_digits z f (suc fuel) (suc fuel') zero b h h' = refl
enough_digits z f (suc fuel) (suc fuel') (suc a) b h h' =
    rw (enough_digits z f fuel fuel' (suc a / 2) (b / 2) (omega arith) (omega arith))

pub or_digit : (m n : ℕ) → bit_or m n ≡ bit_or (m / 2) (n / 2) * 2 + max (m % 2) (n % 2)
or_digit zero n = omega (arith, bit_or-bitwise 0 n, bit_or-bitwise 0 (n / 2))
or_digit (suc m) n = omega (
  arith,
  bit_or-bitwise (suc m) n,
  bit_or-bitwise (suc m / 2) (n / 2),
  enough_digits (λ y. y) max m (suc m / 2) (suc m / 2) (n / 2) (omega arith) (omega arith),
)

pub and_digit : (m n : ℕ) → bit_and m n ≡ bit_and (m / 2) (n / 2) * 2 + min (m % 2) (n % 2)
and_digit zero n = omega (arith, bit_and-bitwise 0 n, bit_and-bitwise 0 (n / 2))
and_digit (suc m) n = omega (
  arith,
  bit_and-bitwise (suc m) n,
  bit_and-bitwise (suc m / 2) (n / 2),
  enough_digits (λ y. 0) min m (suc m / 2) (suc m / 2) (n / 2) (omega arith) (omega arith),
)

and_nothing : (fuel a : ℕ) → a ≤ fuel → bit_and a 0 ≡ 0
and_nothing fuel zero h = refl
and_nothing zero (suc a) h = absurd (omega arith)
and_nothing (suc fuel) (suc a) h =
    omega (arith, and_digit (suc a) 0, and_nothing fuel (suc a / 2) (omega arith))

-- the remainder by twice `m`, digit by digit
mod-double : (a m : ℕ) → 0 < m → a % (m * 2) ≡ a / 2 % m * 2 + a % 2
mod-double a m pos =
    ap (λ (t : ℕ). t % (m * 2)) split
    ∙ mul-add-mod_self_left (m * 2) (a / 2 / m) (a / 2 % m * 2 + a % 2)
    ∙ mod-eq_of_lt (omega (arith, mod-lt (a / 2) pos))
  where
    split : a ≡ m * 2 * (a / 2 / m) + (a / 2 % m * 2 + a % 2)
    split = omega (arith, ap (λ (t : ℕ). 2 * t) (div-add-mod (a / 2) m))

-- A mask of `k` ones keeps the remainder by `2 ^ k`.
pub and_mask : (k a : ℕ) → bit_and a (2 ^ k - 1) ≡ a % 2 ^ k
and_mask zero a = omega (arith, and_nothing a a (omega arith))
and_mask (suc k) a = omega (
  arith,
  and_digit a (2 ^ suc k - 1),
  pow-suc 2 k,
  one-le-pow k 2,
  ap (λ (t : ℕ). bit_and (a / 2) t) half_mask,
  and_mask k (a / 2),
  mod-double a (2 ^ k) (one-le-pow k 2 (omega arith)),
  ap (λ (t : ℕ). a % t) (pow-suc 2 k),
)
  where
    half_mask : (2 ^ suc k - 1) / 2 ≡ 2 ^ k - 1
    half_mask = omega (arith, pow-suc 2 k, one-le-pow k 2 (omega arith))

-- The digit of `n` that stands for `2 ^ i`.
pub bit : ℕ → ℕ → ℕ
bit zero n = n % 2
bit (suc i) n = bit i (n / 2)

pub bit-le-one : (i n : ℕ) → bit i n ≤ 1
unfolding bit
bit-le-one zero n = omega arith
bit-le-one (suc i) n = bit-le-one i (n / 2)

pub bit-bit_or : (i a b : ℕ) → bit i (bit_or a b) ≡ max (bit i a) (bit i b)
unfolding bit
bit-bit_or zero a b = omega (arith, or_digit a b)
bit-bit_or (suc i) a b = rw (half, bit-bit_or i (a / 2) (b / 2))
  where
    half : bit_or a b / 2 ≡ bit_or (a / 2) (b / 2)
    half = omega (arith, or_digit a b)

-- `n >> w` moves the digits down by `w`.
pub bit-shift : (w i j n : ℕ) → j ≡ w + i → bit i (n / 2 ^ w) ≡ bit j n
unfolding bit
bit-shift zero i j n e = let same : i ≡ j = omega arith in rw div-one (ap (λ (t : ℕ). bit t n) same)
bit-shift (suc w) i zero n e = absurd (omega arith)
bit-shift (suc w) i (suc j) n e =
    ap (bit i) (ap (λ (t : ℕ). n / t) (pow-succ' 2 w) ∙ sym (div-div-eq-div-mul n 2 (2 ^ w)))
    ∙ bit-shift w i j (n / 2) (omega arith)

pub bit_or-lt : (k a b : ℕ) → a < 2 ^ k → b < 2 ^ k → bit_or a b < 2 ^ k
bit_or-lt zero a b ha hb =
    let a_zero : a ≡ 0 = omega arith in
    let b_zero : b ≡ 0 = omega arith in rw (a_zero, b_zero) (omega arith)
bit_or-lt (suc k) a b ha hb = omega (
  arith,
  or_digit a b,
  pow-suc 2 k,
  bit_or-lt k (a / 2) (b / 2) (omega (arith, pow-suc 2 k)) (omega (arith, pow-suc 2 k)),
)

pub bit_top : (k n : ℕ) → 2 ^ k ≤ n → n < 2 ^ suc k → bit k n ≡ 1
unfolding bit
bit_top zero n lo hi = omega arith
bit_top (suc k) n lo hi =
    bit_top k (n / 2) (omega (arith, pow-suc 2 k)) (omega (arith, pow-suc 2 (suc k)))

pub all_ones : (k n : ℕ) → ((i : ℕ) → i ≤ k → bit i n ≡ 1) → n < 2 ^ suc k → n + 1 ≡ 2 ^ suc k
unfolding bit
all_ones zero n ones hi = omega (arith, ones 0 (omega arith))
all_ones (suc k) n ones hi = omega (
  arith,
  ones 0 (omega arith),
  pow-suc 2 (suc k),
  all_ones k (n / 2) (λ i h. ones (suc i) (omega arith)) (omega (arith, pow-suc 2 (suc k))),
)

-- Every positive number lies between two consecutive powers of two.
pub log2 : (fuel n : ℕ) → 0 < n → n ≤ fuel → (k : ℕ) × (2 ^ k ≤ n) × (n < 2 ^ suc k)
log2 zero n pos h = absurd (omega arith)
log2 (suc fuel) zero pos h = absurd (omega arith)
log2 (suc fuel) (suc zero) pos h = (0, omega arith, omega arith)
log2 (suc fuel) (suc (suc n)) pos h =
    let (k, lo, hi) = log2 fuel (suc (suc n) / 2) (omega arith) (omega arith) in
    (suc k, omega (arith, pow-suc 2 k), omega (arith, pow-suc 2 (suc k)))
