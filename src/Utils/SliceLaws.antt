-- ===== src/Utils/SliceLaws.antt =====
-- The loops of the slice helpers against plain recursions, and how the helpers fit together.
use native.Mathlib.Nat.{zero-add}
use map_reduce_rpc.Prelude.{
  ℕ, zero, suc, ◌+◌, ◌≡◌, refl, ap, ◌∙◌, sym, arith, Bool, true, false, not, none, some, List, [],
  ◌∷◌, ◌++◌, append-nil, append_assoc, if◌then◌else◌, length, set, get_elem?, range_loop,
  Bool-cases, inl, inr, length-append,
}
use map_reduce_rpc.Utils.Slices.{
  make, map_loop, map, flat_map, filter, find, find_index, find_index_from, some_of, every,
  partition, flatten, count_by,
}

module _ {ℓ} {T : Type ℓ} (fn : T → Bool) where
  -- The elements that pass, by structural recursion.
  abbrev pub kept : List T → List T
  kept [] = []
  kept (v ∷ s) = if fn v then v ∷ kept s else kept s

  abbrev pub dropped : List T → List T
  dropped [] = []
  dropped (v ∷ s) = if fn v then dropped s else v ∷ dropped s

  filter_loop :
      (s result : List T)
      → range_loop (λ result v. if fn v then result ++ v ∷ [] else result) s result
        ≡ result ++ kept s
  filter_loop [] result = sym (append-nil result)
  filter_loop (v ∷ s) result = ground (
    arith,
    filter_loop s result,
    filter_loop s (result ++ v ∷ []),
    append_assoc result (v ∷ []) (kept s),
  )

  pub filter_lem : (s : List T) → filter s fn ≡ kept s
  unfolding filter
  filter_lem s = filter_loop s []

  partition_loop :
      (s yes_list no_list : List T)
      → ◌≡◌ {A = List T × List T}
          (range_loop
            (λ lists v. if fn v then (lists.0 ++ v ∷ [], lists.1) else (lists.0, lists.1 ++ v ∷ []))
            s
            (yes_list, no_list))
          (yes_list ++ kept s, no_list ++ dropped s)
  partition_loop [] yes_list no_list = ground (arith, append-nil yes_list, append-nil no_list)
  partition_loop (v ∷ s) yes_list no_list = ground (
    arith,
    partition_loop s (yes_list ++ v ∷ []) no_list,
    partition_loop s yes_list (no_list ++ v ∷ []),
    append_assoc yes_list (v ∷ []) (kept s),
    append_assoc no_list (v ∷ []) (dropped s),
  )

  count_loop :
      (s : List T) (count : ℕ)
      → range_loop (λ count v. if fn v then count + 1 else count) s count ≡ count + length (kept s)
  count_loop [] count = omega arith
  count_loop (v ∷ s) count = ground (arith, count_loop s count, count_loop s (count + 1))

  length-kept : (s : List T) → length (kept s) + length (dropped s) ≡ length s
  length-kept [] = omega arith
  length-kept (v ∷ s) = ground (arith, length-kept s)

module _ {ℓ} {T : Type ℓ} where
  dropped-not : (fn : T → Bool) (s : List T) → dropped fn s ≡ kept (λ v. not (fn v)) s
  dropped-not fn [] = refl
  dropped-not fn (v ∷ s) = ground (arith, dropped-not fn s)

  -- `Partition` returns what `Filter` keeps and what it keeps of the negated predicate; `CountBy`
  -- counts the first part, and the two lengths make up the whole.
  pub partition_lem :
      (s : List T) (fn : T → Bool)
      → (partition s fn ≡ (filter s fn, filter s (λ v. not (fn v))))
        × (count_by s fn ≡ length (filter s fn))
        × (length (filter s fn) + length (filter s (λ v. not (fn v))) ≡ length s)
  unfolding partition count_by
  partition_lem s fn =
      rw (filter_lem fn s, filter_lem (λ v. not (fn v)) s, ← dropped-not fn s)
        (partition_loop fn s [] [], count_loop fn s 0 ∙ zero-add _, length-kept fn s)

  -- The first `i` elements fail the test.
  abbrev NoneBefore : (T → Bool) → ℕ → List T → Type 0
  NoneBefore fn zero s = Unit
  NoneBefore fn (suc i) [] = Unit
  NoneBefore fn (suc i) (v ∷ s) = (fn v ≡ false) × NoneBefore fn i s

  find_index_at :
      (fn : T → Bool) (i j : ℕ) (s : List T)
      → find_index_from i s fn ≡ some j
      → (d : ℕ) × (j ≡ i + d)
        × (get_elem? s d ≡ find s fn)
        × (some_of s fn ≡ true)
        × NoneBefore fn d s
  unfolding find_index_from find some_of
  find_index_at fn i j [] e = cc
  find_index_at fn i j (v ∷ s) e = elim (Bool-cases (fn v)) [
    | inl passes ↦ (0, ground arith, ground arith, ground arith, tt)
    | inr fails ↦
        let (d, sum, found, one, before) = find_index_at fn (i + 1) j s (ground arith) in
        (suc d, omega arith, ground arith, ground arith, (fails, before))
  ]

  find_nowhere :
      (fn : T → Bool) (i : ℕ) (s : List T)
      → find_index_from i s fn ≡ none
      → (find s fn ≡ none) × (some_of s fn ≡ false) × (filter s fn ≡ [])
  unfolding find_index_from find some_of
  find_nowhere fn i [] e = (refl, refl, filter_lem fn [])
  find_nowhere fn i (v ∷ s) e =
      rw (filter_lem fn (v ∷ s)) (ground (arith, find_nowhere fn (i + 1) s, filter_lem fn s))

  -- An index that `FindIndex` returns is that of the element that `Find` returns; all elements
  -- before it fail the test, and `Some` is true.
  pub find_index_first :
      (s : List T) (fn : T → Bool) (j : ℕ)
      → find_index s fn ≡ some j
      → (get_elem? s j ≡ find s fn) × (some_of s fn ≡ true) × NoneBefore fn j s
  unfolding find_index
  find_index_first s fn j e =
      let (d, sum, found, one, before) = find_index_at fn 0 j s e in
      let same : d ≡ j = omega arith in (rw (← same) found, one, rw (← same) before)

  -- Where `FindIndex` returns -1, `Find` and `Some` return false and `Filter` keeps nothing.
  pub find_index-none :
      (s : List T) (fn : T → Bool)
      → find_index s fn ≡ none
      → (find s fn ≡ none) × (some_of s fn ≡ false) × (filter s fn ≡ [])
  unfolding find_index
  find_index-none s fn e = find_nowhere fn 0 s e

  every-not : (s : List T) (fn : T → Bool) → every s fn ≡ not (some_of s (λ v. not (fn v)))
  unfolding every some_of
  every-not [] fn = refl
  every-not (v ∷ s) fn = ground (arith, every-not s fn)

  flatten_loop :
      (s : List (List T)) (result : List T)
      → range_loop (λ result inner. result ++ inner) s result
        ≡ result ++ range_loop (λ result inner. result ++ inner) s []
  flatten_loop [] result = sym (append-nil result)
  flatten_loop (x ∷ s) result =
      flatten_loop s (result ++ x)
      ∙ append_assoc result x _
      ∙ ap (◌++◌ result) (sym (flatten_loop s x))

  pub flatten-cons : (x : List T) (s : List (List T)) → flatten (x ∷ s) ≡ x ++ flatten s
  unfolding flatten
  flatten-cons x s = flatten_loop s x

  pub flatten-append : (s t : List (List T)) → flatten (s ++ t) ≡ flatten s ++ flatten t
  flatten-append [] t = unfold flatten in refl
  flatten-append (x ∷ s) t =
      rw (flatten-cons x (s ++ t), flatten-cons x s, flatten-append s t, append_assoc)

set_middle {ℓ} :
    {U : Type ℓ} (front : List U) (old : U) (back : List U) (v : U)
    → set (front ++ old ∷ back) (length front) v ≡ front ++ v ∷ back
set_middle [] old back v = refl
set_middle (x ∷ front) old back v = ap (◌∷◌ x) (set_middle front old back v)

module _ {ℓ κ} {T : Type ℓ} {U : Type κ} where
  -- the elements of the result, in the order of the slice
  abbrev mapped : (T → U) → List T → List U
  mapped fn [] = []
  mapped fn (v ∷ s) = fn v ∷ mapped fn s

  map_fills :
      (fn : T → U) (zero_value : U) (s : List T) (i : ℕ) (front : List U)
      → i ≡ length front
      → map_loop fn i s (front ++ make zero_value (length s)) ≡ front ++ mapped fn s
  unfolding map_loop make
  map_fills fn zero_value [] i front e = refl
  map_fills fn zero_value (v ∷ s) i front e =
      rw
        (
          e,
          set_middle front zero_value (make zero_value (length s)) (fn v),
          ← append_assoc front (fn v ∷ []) (make zero_value (length s)),
          ← append_assoc front (fn v ∷ []) (mapped fn s),
        )
        (map_fills fn zero_value s (length front + 1) (front ++ fn v ∷ [])
          (omega (arith, length-append front (fn v ∷ []))))

  -- `Map` writes every element of its result, so the zero value that `make` put there does not show.
  pub map_lem : (zero_value : U) (s : List T) (fn : T → U) → map zero_value s fn ≡ mapped fn s
  unfolding map
  map_lem zero_value s fn = map_fills fn zero_value s 0 [] refl

module _ {ℓ κ} {T : Type ℓ} {U : Type κ} where
  flat_map_loop :
      (fn : T → List U) (s : List T) (result : List U)
      → range_loop (λ result v. result ++ fn v) s result
        ≡ range_loop (λ result inner. result ++ inner) (mapped fn s) result
  flat_map_loop fn [] result = refl
  flat_map_loop fn (v ∷ s) result = flat_map_loop fn s (result ++ fn v)

  -- `FlatMap` is `Flatten` after `Map`.
  pub flat_map_lem : (s : List T) (fn : T → List U) → flat_map s fn ≡ flatten (map [] s fn)
  unfolding flat_map flatten
  flat_map_lem s fn = rw (map_lem [] s fn) (flat_map_loop fn s [])
