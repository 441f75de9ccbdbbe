-- ===== src/Prelude/TextOrder.antt =====
-- Go's order on strings, which are lists of bytes, and what sorting by it determines.
use map_reduce_rpc.Prelude.Tests.{ltb, eqb, if◌then◌else◌}
use map_reduce_rpc.Prelude.Tests.{Bool-cases}
use map_reduce_rpc.Prelude.Equality.{◌==◌, ==_iff, ==_refl, list_eq, nat_eq}
use mathlib.Core.Logic.{inl, inr}
use Prim.Native.Nat.{ℕ, suc, ◌≤◌}
use mathlib.Core.Path.{◌≡◌, refl, ap, ◌∙◌}
use mathlib.Core.Bool.{Bool, true, false}
use mathlib.Core.List.{List, [], ◌∷◌}
use native.Mathlib.Omega.{arith}

-- `<` on strings.
unfoldable pub text_less : List ℕ → List ℕ → Bool
text_less s [] = false
text_less [] (c ∷ t) = true
text_less (b ∷ s) (c ∷ t) = let rest = text_less s t in if eqb b c then rest else ltb b c

pub text_less_trans :
    (s t u : List ℕ) → text_less t s ≡ false → text_less u t ≡ false → text_less u s ≡ false
unfolding text_less
text_less_trans [] t [] e f = refl
text_less_trans [] [] (d ∷ u) e f = refl
text_less_trans [] (c ∷ t) (d ∷ u) e f = refl
text_less_trans (b ∷ s) [] u e f = ground arith
text_less_trans (b ∷ s) (c ∷ t) [] e f = ground arith
text_less_trans (b ∷ s) (c ∷ t) (d ∷ u) e f = ground (arith, text_less_trans s t u)

pub text_less_antisym : (s t : List ℕ) → text_less s t ≡ false → text_less t s ≡ false → s ≡ t
unfolding text_less
text_less_antisym [] [] e f = refl
text_less_antisym [] (c ∷ t) e f = ground arith
text_less_antisym (b ∷ s) [] e f = ground arith
text_less_antisym (b ∷ s) (c ∷ t) e f = ground (arith, text_less_antisym s t)

-- No text of the list is less than `s`.
abbrev pub NoneLess : List ℕ → List (List ℕ) → Type 0
NoneLess s [] = Unit
NoneLess s (t ∷ ts) = (text_less t s ≡ false) × NoneLess s ts

abbrev pub IsTextSorted : List (List ℕ) → Type 0
IsTextSorted [] = Unit
IsTextSorted (s ∷ ts) = NoneLess s ts × IsTextSorted ts

-- How often a text occurs.
unfoldable pub occurrences : List ℕ → List (List ℕ) → ℕ
occurrences k [] = 0
occurrences k (s ∷ ts) = let rest = occurrences k ts in if s == k then suc rest else rest

pub occurs-NoneLess :
    (s k : List ℕ) (ts : List (List ℕ))
    → NoneLess s ts
    → 1 ≤ occurrences k ts
    → text_less k s ≡ false
unfolding occurrences
occurs-NoneLess s k [] h once = absurd (omega arith)
occurs-NoneLess s k (t ∷ ts) (here, rest) once = elim (Bool-cases (t == k)) [
  | inl same ↦ ground (arith, ==_iff t k)
  | inr other ↦ occurs-NoneLess s k ts rest (ground arith)
]

text_less_irrefl : (s : List ℕ) → text_less s s ≡ false
unfolding text_less
text_less_irrefl [] = refl
text_less_irrefl (c ∷ s) = ground (arith, text_less_irrefl s)

first-same :
    (s t : List ℕ) (ss ts : List (List ℕ))
    → IsTextSorted (s ∷ ss)
    → IsTextSorted (t ∷ ts)
    → ((k : List ℕ) → occurrences k (s ∷ ss) ≡ occurrences k (t ∷ ts))
    → s ≡ t
first-same s t ss ts hs ht same =
    text_less_antisym s t
      (occurs-NoneLess t s (t ∷ ts) (text_less_irrefl t, ht.0)
        (omega (arith, same s, occurs-first s ss)))
      (occurs-NoneLess s t (s ∷ ss) (text_less_irrefl s, hs.0)
        (omega (arith, same t, occurs-first t ts)))
  where
    occurs-first : (u : List ℕ) (us : List (List ℕ)) → 1 ≤ occurrences u (u ∷ us)
    occurs-first u us = unfold occurrences in ground (arith, ==_refl u)

-- A sorted list is determined by how often each text occurs in it.
pub sorted_unique :
    (ss ts : List (List ℕ))
    → IsTextSorted ss
    → IsTextSorted ts
    → ((k : List ℕ) → occurrences k ss ≡ occurrences k ts)
    → ss ≡ ts
unfolding occurrences
sorted_unique [] [] hs ht same = refl
sorted_unique [] (t ∷ ts) hs ht same = absurd (ground (arith, same t, ==_refl t))
sorted_unique (s ∷ ss) [] hs ht same = absurd (ground (arith, same s, ==_refl s))
sorted_unique (s ∷ ss) (t ∷ ts) hs ht same =
    let first = first-same s t ss ts hs ht same in
    ap (λ (u : List ℕ). u ∷ ss) first
    ∙ ap (◌∷◌ t) (sorted_unique ss ts hs.1 ht.1 (λ k. ground (arith, same k, first)))
