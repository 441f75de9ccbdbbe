-- ===== src/Prelude/Text.antt =====
-- Texts as the list of their bytes, with what the program takes from `strings`, `strconv` and `fmt`.
use Prim.Native.Nat.{ℕ, zero, suc, ◌+◌, ◌-◌, ◌*◌, ◌/◌, ◌%◌, ◌^◌, ◌<◌, ◌≤◌}
use Prim.Native.Char.{code}
use Prim.Native.String.{String}
use mathlib.Core.Path.{◌≡◌, refl}
use mathlib.Core.Logic.{inl, inr}
use mathlib.Core.Bool.{Bool, true, false, ◌&&◌}
use mathlib.Core.List.{List, [], ◌∷◌, ◌++◌}
use mathlib.Core.Option.{Option, none, some}
use native.Mathlib.Nat.{pow-suc}
use native.Mathlib.Omega.{arith}
use map_reduce_rpc.Prelude.Tests.{ltb, leb, eqb, if◌then◌else◌, Bool-cases}
use map_reduce_rpc.Prelude.Lists.{All, All-append, length, length-append, range_loop}

abbrev pub codes : String → List ℕ
codes String.[] = []
codes (String.◌∷◌ c s) = code c ∷ codes s

abbrev pub is_digit : ℕ → Bool
is_digit c = leb b'0' c && leb c b'9'

-- `%d` of an unsigned number. A `uint64` has at most 20 digits.
unfoldable pub decimal_loop : ℕ → ℕ → List ℕ
decimal_loop zero n = []
decimal_loop (suc fuel) n =
    let rest = decimal_loop fuel (n / 10) in
    if ltb n 10 then (b'0' + n) ∷ [] else rest ++ (b'0' + n % 10) ∷ []

unfoldable pub decimal : ℕ → List ℕ
unfolding decimal_loop
decimal n = decimal_loop 20 n

-- The longest run of digits at the front, and what follows it.
unfoldable pub span_digits : List ℕ → List ℕ × List ℕ
span_digits [] = ([], [])
span_digits (c ∷ s) =
    let (ds, rest) = span_digits s in if is_digit c then (c ∷ ds, rest) else ([], c ∷ s)

-- The value of a run of digits.
abbrev pub digits_value : List ℕ → ℕ
digits_value ds = range_loop (λ n d. n * 10 + (d - b'0')) ds 0

-- `strings.TrimPrefix` where the prefix is there; `none` where it is not.
unfoldable pub strip_prefix : List ℕ → List ℕ → Option (List ℕ)
strip_prefix [] s = some s
strip_prefix (p ∷ ps) [] = none
strip_prefix (p ∷ ps) (c ∷ s) = let rest = strip_prefix ps s in if eqb p c then rest else none

abbrev pub IsDigits : List ℕ → Type 0
IsDigits = All (λ c. is_digit c ≡ true)

pub strip_prefix-append : (p s : List ℕ) → strip_prefix p (p ++ s) ≡ some s
unfolding strip_prefix
strip_prefix-append [] s = refl
strip_prefix-append (c ∷ p) s = ground (arith, strip_prefix-append p s)

pub range_loop-append {ℓ} :
    {S : Type ℓ} (body : S → ℕ → S) (xs ys : List ℕ) (s : S)
    → range_loop body (xs ++ ys) s ≡ range_loop body ys (range_loop body xs s)
range_loop-append body [] ys s = refl
range_loop-append body (x ∷ xs) ys s = range_loop-append body xs ys (body s x)

decimal_loop-IsDigits : (fuel n : ℕ) → IsDigits (decimal_loop fuel n)
unfolding decimal_loop
decimal_loop-IsDigits zero n = tt
decimal_loop-IsDigits (suc fuel) n = elim (Bool-cases (ltb n 10)) [
  | inl small ↦ rw small (ground arith, tt)
  | inr large ↦ rw large (
      All-append (λ c. is_digit c ≡ true) (decimal_loop fuel (n / 10)) ((b'0' + n % 10) ∷ [])
        (decimal_loop-IsDigits fuel (n / 10)) (ground arith, tt))
]

decimal_loop-value : (fuel n : ℕ) → n < 10 ^ fuel → digits_value (decimal_loop fuel n) ≡ n
unfolding decimal_loop
decimal_loop-value zero n h = omega arith
decimal_loop-value (suc fuel) n h = ground (
  arith,
  pow-suc 10 fuel,
  range_loop-append (λ n d. n * 10 + (d - b'0')) (decimal_loop fuel (n / 10)) ((b'0' + n % 10) ∷ [])
      0,
  decimal_loop-value fuel (n / 10) (omega (arith, pow-suc 10 fuel)),
)

pub decimal-IsDigits : (n : ℕ) → IsDigits (decimal n)
unfolding decimal
decimal-IsDigits n = decimal_loop-IsDigits 20 n

pub decimal-value : (n : ℕ) → n < 2 ^ 64 → digits_value (decimal n) ≡ n
unfolding decimal
decimal-value n h = decimal_loop-value 20 n (omega arith)

decimal_loop-nonempty : (fuel n : ℕ) → 1 ≤ length (decimal_loop (suc fuel) n)
unfolding decimal_loop
decimal_loop-nonempty fuel n =
    ground (arith, length-append (decimal_loop fuel (n / 10)) ((b'0' + n % 10) ∷ []))

pub decimal-nonempty : (n : ℕ) → 1 ≤ length (decimal n)
unfolding decimal
decimal-nonempty n = decimal_loop-nonempty 19 n

-- A run of digits ends where a byte is no digit.
pub span_digits-append :
    (ds rest : List ℕ) (c : ℕ)
    → IsDigits ds
    → is_digit c ≡ false
    → span_digits (ds ++ c ∷ rest) ≡ (ds, c ∷ rest)
unfolding span_digits
span_digits-append [] rest c h stop = rw stop
span_digits-append (d ∷ ds) rest c (hd, hds) stop = rw (span_digits-append ds rest c hds stop, hd)

pub span_digits-end : (ds : List ℕ) → IsDigits ds → span_digits ds ≡ (ds, [])
unfolding span_digits
span_digits-end [] h = refl
span_digits-end (d ∷ ds) (hd, hds) = rw (span_digits-end ds hds, hd)
