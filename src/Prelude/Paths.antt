-- ===== src/Prelude/Paths.antt =====
-- Paths with slashes, of packages `path` and `path/filepath`.
use map_reduce_rpc.Prelude.Tests.{eqb, if◌then◌else◌}
use map_reduce_rpc.Prelude.Equality.{list_beq, nat_eq}
use map_reduce_rpc.Prelude.Lists.{length}
use map_reduce_rpc.Prelude.Text.{codes}
use map_reduce_rpc.Prelude.Trim.{split_at, trim_right, is_slash}
use Prim.Native.Nat.{ℕ}
use mathlib.Core.Bool.{Bool, false, ◌||◌}
use mathlib.Core.List.{List, [], ◌∷◌, ◌++◌}

-- The elements of a cleaned path, last one first.
abbrev pop_element : Bool → List (List ℕ) → List (List ℕ)
pop_element rooted [] = if rooted then [] else codes ".." ∷ []
pop_element rooted (e ∷ elements) =
    if list_beq e (codes "..") then codes ".." ∷ e ∷ elements else elements

unfoldable pub clean_loop : Bool → List (List ℕ) → List (List ℕ) → List (List ℕ)
clean_loop rooted [] elements = elements
clean_loop rooted (part ∷ parts) elements = clean_loop rooted parts (
    if eqb (length part) 0 || list_beq part (codes ".")
    then elements
    else if list_beq part (codes "..")
    then pop_element rooted elements
    else part ∷ elements)

abbrev pub is_rooted : List ℕ → Bool
is_rooted [] = false
is_rooted (c ∷ s) = eqb c b'/'

abbrev pub reversed : List (List ℕ) → List (List ℕ) → List (List ℕ)
reversed [] result = result
reversed (p ∷ ps) result = reversed ps (p ∷ result)

abbrev with_slashes : List (List ℕ) → List ℕ
with_slashes [] = []
with_slashes (p ∷ []) = p
with_slashes (p ∷ q ∷ ps) = p ++ (b'/' ∷ with_slashes (q ∷ ps))

abbrev or_dot : List ℕ → List ℕ
or_dot [] = codes "."
or_dot (c ∷ s) = c ∷ s

-- `Clean`
unfoldable pub clean_path : List ℕ → List ℕ
clean_path s =
    let elements = with_slashes (reversed (clean_loop (is_rooted s) (split_at b'/' s) []) []) in
    or_dot (if is_rooted s then b'/' ∷ elements else elements)

abbrev drop_empty : List (List ℕ) → List (List ℕ)
drop_empty [] = []
drop_empty ([] ∷ ps) = drop_empty ps
drop_empty ((c ∷ s) ∷ ps) = (c ∷ s) ∷ drop_empty ps

abbrev join_nonempty : List (List ℕ) → List ℕ
join_nonempty [] = []
join_nonempty (p ∷ ps) = clean_path (with_slashes (p ∷ ps))

-- `Join`
unfoldable pub join_path : List (List ℕ) → List ℕ
join_path elements = join_nonempty (drop_empty elements)

abbrev last_element : List (List ℕ) → List ℕ
last_element [] = []
last_element (p ∷ []) = p
last_element (p ∷ q ∷ ps) = last_element (q ∷ ps)

abbrev base_of : List ℕ → List ℕ
base_of [] = codes "/"
base_of (c ∷ s) = last_element (split_at b'/' (c ∷ s))

-- `Base`
unfoldable pub base_name : List ℕ → List ℕ
base_name [] = codes "."
base_name (c ∷ s) = base_of (trim_right is_slash (c ∷ s))
