-- ===== src/Prelude/Trim.antt =====
-- The trimming and splitting of package `strings`, for texts in ASCII.
use map_reduce_rpc.Prelude.Tests.{ltb, eqb, if◌then◌else◌}
use map_reduce_rpc.Prelude.Equality.{list_eq, nat_eq}
use map_reduce_rpc.Prelude.Text.{strip_prefix}
use map_reduce_rpc.Prelude.Assoc.{is_some}
use Prim.Native.Nat.{ℕ}
use mathlib.Core.Bool.{Bool, false, ◌&&◌, ◌||◌, not}
use mathlib.Core.List.{List, [], ◌∷◌}

abbrev pub is_white : ℕ → Bool
is_white c = eqb c b' ' || (not (ltb c 9) && not (ltb 13 c))

-- Cut off from the left, and from the right, what passes the test.
unfoldable pub trim_left : (ℕ → Bool) → List ℕ → List ℕ
trim_left cut [] = []
trim_left cut (c ∷ s) = let rest = trim_left cut s in if cut c then rest else c ∷ s

abbrev append_kept : (ℕ → Bool) → ℕ → List ℕ → List ℕ
append_kept cut c [] = if cut c then [] else c ∷ []
append_kept cut c (d ∷ s) = c ∷ d ∷ s

unfoldable pub trim_right : (ℕ → Bool) → List ℕ → List ℕ
trim_right cut [] = []
trim_right cut (c ∷ s) = append_kept cut c (trim_right cut s)

-- `strings.TrimSpace`
unfoldable pub trim_space : List ℕ → List ℕ
trim_space s = trim_right is_white (trim_left is_white s)

-- `strings.TrimRight(s, "/")` and `strings.Trim(s, " ")`
abbrev pub is_slash : ℕ → Bool
is_slash c = eqb c b'/'

abbrev pub is_blank_char : ℕ → Bool
is_blank_char c = eqb c b' '

abbrev first_piece : ℕ → List (List ℕ) → List (List ℕ)
first_piece c [] = (c ∷ []) ∷ []
first_piece c (piece ∷ pieces) = (c ∷ piece) ∷ pieces

-- `strings.Split` at a single character.
unfoldable pub split_at : ℕ → List ℕ → List (List ℕ)
split_at sep [] = [] ∷ []
split_at sep (c ∷ s) =
    let pieces = split_at sep s in if eqb c sep then [] ∷ pieces else first_piece c pieces

unfoldable pub has_prefix : List ℕ → List ℕ → Bool
has_prefix s p = is_some (strip_prefix p s)

unfoldable pub ends_with : ℕ → List ℕ → Bool
ends_with e [] = false
ends_with e (c ∷ []) = eqb c e
ends_with e (c ∷ d ∷ s) = ends_with e (d ∷ s)
