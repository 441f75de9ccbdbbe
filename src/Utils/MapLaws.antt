-- ===== src/Utils/MapLaws.antt =====
-- What can be looked up in the results of the map helpers. A Go map has each key once.
use mathlib.Core.Option
use map_reduce_rpc.Prelude.{
  ◌≡◌, refl, ap, ◌∙◌, sym, arith, append-nil, append_assoc, List, [], ◌∷◌, ◌++◌, true, ◌||◌, Bool,
  Option, none, some, if◌then◌else◌, Eq, ==_iff, range_loop, inl, inr, not, Option-cases,
}
use map_reduce_rpc.Prelude.Assoc.{Assoc, lookup, store, lookup-store, is_some}
use map_reduce_rpc.Utils.Slices.{contains}
use map_reduce_rpc.Utils.Maps.{
  map_values, pick_one, pick, exclude, omit, copy, merge, Entry, entries, from_entries, filter_map,
}

abbrev pub or_else {ℓ} : {V : Type ℓ} → Option V → Option V → Option V
or_else none o = o
or_else (some v) o = some v

module _ {ℓ} {K : Type ℓ} ⦃e : Eq K⦄ where
  exclude_loop :
      (k : K) (ks : List K) (result : Assoc K (Unit {0}))
      → is_some (lookup k (range_loop (λ result k. store k tt result) ks result))
        ≡ (is_some (lookup k result) || contains ks k)
  unfolding contains
  exclude_loop k [] result = ground arith
  exclude_loop k (j ∷ ks) result =
      ground (arith, exclude_loop k ks (store j tt result), lookup-store j k tt result)

  pub exclude_lem : (ks : List K) (k : K) → is_some (lookup k (exclude ks)) ≡ contains ks k
  unfolding exclude lookup
  exclude_lem ks k = exclude_loop k ks []

module _ {ℓ κ} {K : Type ℓ} {V : Type κ} ⦃e : Eq K⦄ where
  abbrev pub IsMap : Assoc K V → Type κ
  IsMap [] = Unit
  IsMap ((k, v) ∷ m) = (lookup k m ≡ none) × IsMap m

  module _ {ι} {U : Type ι} (test : K → V → Bool) (fn : V → U) where
    abbrev changed : Option V → K → Option U → Option U
    changed none k before = before
    changed (some v) k before = if test k v then some (fn v) else before

    -- A loop that stores what passes a test.
    guarded_store :
        (k : K) (m : Assoc K V) (result : Assoc K U)
        → IsMap m
        → lookup k (
            range_loop
              (λ result e. if test e.0 e.1 then store e.0 (fn e.1) result else result)
              m
              result)
          ≡ changed (lookup k m) k (lookup k result)
    unfolding lookup
    guarded_store k [] result h = refl
    guarded_store k ((j, v) ∷ m) result (once, h) = ground (
      arith,
      guarded_store k m (store j (fn v) result) h,
      guarded_store k m result h,
      lookup-store j k (fn v) result,
      ==_iff j k,
    )

  pick_loop :
      (m : Assoc K V) (k : K) (ks : List K) (result : Assoc K V)
      → lookup k (range_loop (λ result k. pick_one k (lookup k m) result) ks result)
        ≡ or_else (if contains ks k then lookup k m else none) (lookup k result)
  unfolding contains
  pick_loop m k [] result = refl
  pick_loop m k (j ∷ ks) result = elim (Option-cases (lookup j m)) [
    | inl absent ↦ ground (arith, pick_loop m k ks result, ==_iff j k)
    | inr (v, there) ↦
        ground (arith, pick_loop m k ks (store j v result), lookup-store j k v result, ==_iff j k)
  ]

  -- `Pick` and `Omit` share a map out: a key that is listed is looked up in the first as in the
  -- map, any other in the second, and neither has the keys of the other.
  pub pick-omit :
      (m : Assoc K V) (ks : List K) (k : K)
      → IsMap m
      → (lookup k (pick m ks) ≡ (if contains ks k then lookup k m else none))
        × (lookup k (omit m ks) ≡ (if contains ks k then none else lookup k m))
  unfolding pick omit lookup
  pick-omit m ks k h = (
    ground (arith, pick_loop m k ks []),
    ground (
      arith,
      guarded_store (λ j v. not (is_some (lookup j (exclude ks)))) (λ v. v) k m [] h,
      exclude_lem ks k,
    ),
  )

  copy_lem :
      (k : K) (result m : Assoc K V)
      → IsMap m
      → lookup k (copy result m) ≡ or_else (lookup k m) (lookup k result)
  unfolding copy
  copy_lem k result m h = ground (arith, guarded_store (λ j v. true) (λ v. v) k m result h)

  range_loop-append :
      (ms : List (Assoc K V)) (m result : Assoc K V)
      → range_loop copy (ms ++ m ∷ []) result ≡ copy (range_loop copy ms result) m
  range_loop-append [] m result = refl
  range_loop-append (n ∷ ms) m result = range_loop-append ms m (copy result n)

  -- In `Merge` the last map that has a key decides its value.
  pub merge_last :
      (ms : List (Assoc K V)) (m : Assoc K V) (k : K)
      → IsMap m
      → lookup k (merge (ms ++ m ∷ [])) ≡ or_else (lookup k m) (lookup k (merge ms))
  unfolding merge
  merge_last ms m k h = ap (lookup k) (range_loop-append ms m []) ∙ copy_lem k _ m h

  abbrev pub passing : (K → V → Bool) → K → Option V → Option V
  passing test k none = none
  passing test k (some v) = if test k v then some v else none

  -- `MapValues` keeps the keys and maps each value; `FilterMap` keeps what passes the test.
  pub map_values-filter_map {ι} :
      {U : Type ι} (m : Assoc K V) (fn : V → U) (test : K → V → Bool) (k : K)
      → IsMap m
      → (lookup k (map_values m fn) ≡ Option.map fn (lookup k m))
        × (lookup k (filter_map m test) ≡ passing test k (lookup k m))
  unfolding map_values filter_map lookup
  map_values-filter_map m fn test k h = (
    ground (arith, guarded_store (λ j v. true) fn k m [] h),
    ground (arith, guarded_store test (λ v. v) k m [] h),
  )

  listed : Assoc K V → List (Entry K V)
  listed [] = []
  listed ((k, v) ∷ m) = record { key = k; value = v } ∷ listed m

  entries-listed :
      (m : Assoc K V) (es : List (Entry K V))
      → range_loop (λ es e. es ++ record { key = e.0; value = e.1 } ∷ []) m es ≡ es ++ listed m
  unfolding listed
  entries-listed [] es = sym (append-nil es)
  entries-listed ((k, v) ∷ m) es =
      entries-listed m (es ++ record { key = k; value = v } ∷ [])
      ∙ append_assoc es (record { key = k; value = v } ∷ []) (listed m)

  from_entries-listed :
      (m result : Assoc K V)
      → range_loop (λ result (e : Entry K V). store e.key e.value result) (listed m) result
        ≡ copy result m
  unfolding listed copy
  from_entries-listed [] result = refl
  from_entries-listed ((k, v) ∷ m) result = from_entries-listed m (store k v result)

  -- `FromEntries` after `Entries` is a map in which every key has its value again.
  pub from_entries-entries :
      (m : Assoc K V) (k : K) → IsMap m → lookup k (from_entries (entries m)) ≡ lookup k m
  unfolding from_entries entries lookup
  from_entries-entries m k h = rw (entries-listed m []) (
      ap (lookup k) (from_entries-listed m [])
      ∙ (unfold lookup in ground (arith, copy_lem k [] m h)))
