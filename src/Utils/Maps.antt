-- ===== src/Utils/Maps.antt =====
-- The map helpers of mrp/utils.go. Go ranges over a map in any order; here it is the order of the
-- association list.
use map_reduce_rpc.Prelude.{
  Bool, not, Option, none, some, List, [], ◌∷◌, ◌++◌, if◌then◌else◌, range_loop, Eq,
}
use map_reduce_rpc.Prelude.Assoc.{Assoc, lookup, store, is_some}

pub record Entry {ℓ κ} (K : Type ℓ) (V : Type κ) : Type (ℓ ⊔ κ) where
  pub key : K
  pub value : V

unfoldable pub exclude {ℓ} : {K : Type ℓ} ⦃e : Eq K⦄ → List K → Assoc K (Unit {0})
exclude ks = range_loop (λ result k. store k tt result) ks []

module _ {ℓ κ} {K : Type ℓ} {V : Type κ} where
  unfoldable pub keys : Assoc K V → List K
  keys m = range_loop (λ result e. result ++ e.0 ∷ []) m []

  unfoldable pub values : Assoc K V → List V
  values m = range_loop (λ result e. result ++ e.1 ∷ []) m []

  unfoldable pub entries : Assoc K V → List (Entry K V)
  entries m = range_loop (λ result e. result ++ record { key = e.0; value = e.1 } ∷ []) m []

  module _ ⦃e : Eq K⦄ where
    unfoldable pub map_values {ι} : {U : Type ι} → Assoc K V → (V → U) → Assoc K U
    map_values m fn = range_loop (λ result e. store e.0 (fn e.1) result) m []

    abbrev pub pick_one : K → Option V → Assoc K V → Assoc K V
    pick_one k none result = result
    pick_one k (some v) result = store k v result

    unfoldable pub pick : Assoc K V → List K → Assoc K V
    pick m ks = range_loop (λ result k. pick_one k (lookup k m) result) ks []

    unfoldable pub omit : Assoc K V → List K → Assoc K V
    unfolding exclude
    omit m ks =
        range_loop
          (λ result e.
            if not (is_some (lookup e.0 (exclude ks))) then store e.0 e.1 result else result)
          m []

    -- `maps.Copy`
    unfoldable pub copy : Assoc K V → Assoc K V → Assoc K V
    copy result m = range_loop (λ result e. store e.0 e.1 result) m result

    unfoldable pub merge : List (Assoc K V) → Assoc K V
    unfolding copy
    merge ms = range_loop copy ms []

    unfoldable pub from_entries : List (Entry K V) → Assoc K V
    from_entries es = range_loop (λ result e. store e.key e.value result) es []

    unfoldable pub filter_map : Assoc K V → (K → V → Bool) → Assoc K V
    filter_map m fn =
        range_loop (λ result e. if fn e.0 e.1 then store e.0 e.1 result else result) m []

module _ {ℓ κ} {K : Type ℓ} {V : Type κ} ⦃e : Eq V⦄ where
  unfoldable pub invert : Assoc K V → Assoc V K
  invert m = range_loop (λ result e. store e.1 e.0 result) m []
