-- ===== src/Utils/Slices.antt =====
-- The slice helpers of mrp/utils.go. A loop `for _, v := range s` is `range_loop`; what Go writes into
-- a slice that `make` filled with zero values is a write at an index.
use map_reduce_rpc.Prelude.{
  ℕ, zero, suc, ◌+◌, ◌-◌, Bool, true, false, ◌||◌, not, Option, none, some, List, [], ◌∷◌, ◌++◌,
  ltb, eqb, if◌then◌else◌, length, set, take, drop, range_loop, Eq, ◌==◌,
}
use map_reduce_rpc.Prelude.Assoc.{Assoc, lookup, store}

-- `make([]U, n)`
unfoldable pub make {ℓ} : {U : Type ℓ} → U → ℕ → List U
make zero_value zero = []
make zero_value (suc n) = zero_value ∷ make zero_value n

module _ {ℓ} {T : Type ℓ} where
  module _ {κ} {U : Type κ} where
    unfoldable pub map_loop : (T → U) → ℕ → List T → List U → List U
    map_loop fn i [] result = result
    map_loop fn i (v ∷ s) result = map_loop fn (i + 1) s (set result i (fn v))

    unfoldable pub map : U → List T → (T → U) → List U
    unfolding make map_loop
    map zero_value s fn = map_loop fn 0 s (make zero_value (length s))

    unfoldable pub reduce : List T → U → (U → T → U) → U
    reduce s initial fn = range_loop fn s initial

    unfoldable pub flat_map : List T → (T → List U) → List U
    flat_map s fn = range_loop (λ result v. result ++ fn v) s []

    -- `ForEach` with a callback that changes a state.
    unfoldable pub for_each_from : ℕ → List T → (ℕ → T → U → U) → U → U
    for_each_from i [] fn state = state
    for_each_from i (v ∷ s) fn state = for_each_from (i + 1) s fn (fn i v state)

    unfoldable pub for_each : List T → (ℕ → T → U → U) → U → U
    unfolding for_each_from
    for_each s fn state = for_each_from 0 s fn state

  unfoldable pub filter : List T → (T → Bool) → List T
  filter s fn = range_loop (λ result v. if fn v then result ++ v ∷ [] else result) s []

  -- `none` is the zero value with false.
  unfoldable pub find : List T → (T → Bool) → Option T
  find [] fn = none
  find (v ∷ s) fn = if fn v then some v else find s fn

  -- `none` is -1.
  unfoldable pub find_index_from : ℕ → List T → (T → Bool) → Option ℕ
  find_index_from i [] fn = none
  find_index_from i (v ∷ s) fn = if fn v then some i else find_index_from (i + 1) s fn

  unfoldable pub find_index : List T → (T → Bool) → Option ℕ
  unfolding find_index_from
  find_index s fn = find_index_from 0 s fn

  -- `slices.ContainsFunc` is the library's.
  unfoldable pub some_of : List T → (T → Bool) → Bool
  some_of [] fn = false
  some_of (v ∷ s) fn = fn v || some_of s fn

  unfoldable pub every : List T → (T → Bool) → Bool
  every [] fn = true
  every (v ∷ s) fn = if not (fn v) then false else every s fn

  unfoldable pub partition : List T → (T → Bool) → List T × List T
  partition s fn =
      range_loop
        (λ lists v. if fn v then (lists.0 ++ v ∷ [], lists.1) else (lists.0, lists.1 ++ v ∷ [])) s
        ([], [])

  unfoldable pub flatten : List (List T) → List T
  flatten s = range_loop (λ result inner. result ++ inner) s []

  -- `s[i:end]`
  abbrev pub slice : List T → ℕ → ℕ → List T
  slice s i end = take (end - i) (drop i s)

  -- Each round moves `i` by `size`, so the length of `s` is enough fuel.
  unfoldable pub chunk_loop : ℕ → List T → ℕ → ℕ → List (List T) → List (List T)
  chunk_loop zero s size i chunks = chunks
  chunk_loop (suc fuel) s size i chunks = elim (ltb i (length s)) [
    | false ↦ chunks
    | true ↦
        let end = if ltb (length s) (i + size) then length s else i + size in
        chunk_loop fuel s size (i + size) (chunks ++ slice s i end ∷ [])
  ]

  -- `size` 0 stands for every `size <= 0`. `len(s)+size-1` is taken not to overflow.
  unfoldable pub chunk : List T → ℕ → List (List T)
  unfolding chunk_loop
  chunk s size = if eqb size 0 then [] else chunk_loop (length s) s size 0 []

  -- `result[k]` of a key that is not there is the nil slice.
  abbrev pub slice_at : Option (List T) → List T
  slice_at none = []
  slice_at (some vs) = vs

  unfoldable pub count_by : List T → (T → Bool) → ℕ
  count_by s fn = range_loop (λ count v. if fn v then count + 1 else count) s 0

  module _ ⦃e : Eq T⦄ where
    -- `slices.Contains` is the library's.
    unfoldable pub contains : List T → T → Bool
    unfolding some_of
    contains s val = some_of s (λ v. v == val)

    -- the map `seen` as the list of its keys
    unfoldable pub uniq_loop : List T → List T → List T → List T
    unfolding contains
    uniq_loop [] seen result = result
    uniq_loop (v ∷ s) seen result =
        let again = contains seen v in
        uniq_loop s (if again then seen else v ∷ seen) (if again then result else result ++ v ∷ [])

    unfoldable pub uniq : List T → List T
    unfolding uniq_loop
    uniq s = uniq_loop s [] []

    unfoldable pub compact : T → List T → List T
    compact zero_value s =
        range_loop (λ result v. if v == zero_value then result else result ++ v ∷ []) s []

module _ {ℓ κ} {T : Type ℓ} {K : Type κ} ⦃e : Eq K⦄ where
  unfoldable pub group_by : List T → (T → K) → Assoc K (List T)
  group_by s key_fn =
      range_loop
        (λ result v. store (key_fn v) (slice_at (lookup (key_fn v) result) ++ v ∷ []) result) s []

  unfoldable pub key_by : List T → (T → K) → Assoc K T
  key_by s key_fn = range_loop (λ result v. store (key_fn v) v result) s []

  unfoldable pub uniq_by_loop : (T → K) → List T → List K → List T → List T
  unfolding contains
  uniq_by_loop key_fn [] seen result = result
  uniq_by_loop key_fn (v ∷ s) seen result =
      let again = contains seen (key_fn v) in
      uniq_by_loop key_fn s (if again then seen else key_fn v ∷ seen)
        (if again then result else result ++ v ∷ [])

  unfoldable pub uniq_by : List T → (T → K) → List T
  unfolding uniq_by_loop
  uniq_by s key_fn = uniq_by_loop key_fn s [] []
