-- ===== src/Utils/Grouping.antt =====
-- `Uniq` and `GroupBy` of mrp/utils.go.
use map_reduce_rpc.Prelude.{
  ◌≡◌, refl, ◌∙◌, sym, arith, List, [], ◌∷◌, ◌++◌, append-nil, append_assoc, false, ◌||◌, Eq, ◌==◌,
  ==_iff, range_loop, Bool-cases, inl, inr,
}
use map_reduce_rpc.Prelude.Assoc.{lookup, store, lookup-store}
use map_reduce_rpc.Utils.Slices.{contains, uniq_loop, uniq, slice_at, group_by}
use map_reduce_rpc.Utils.SliceLaws.{kept}

module _ {ℓ} {T : Type ℓ} ⦃e : Eq T⦄ where
  -- No element stands twice.
  abbrev pub IsUnique : List T → Type 0
  IsUnique [] = Unit
  IsUnique (x ∷ s) = (contains s x ≡ false) × IsUnique s

  pub contains-append :
      (s t : List T) (a : T) → contains (s ++ t) a ≡ (contains s a || contains t a)
  unfolding contains
  contains-append [] t a = refl
  contains-append (x ∷ s) t a = ground (arith, contains-append s t a)

  contains-one : (v a : T) → contains (v ∷ []) a ≡ (v == a)
  unfolding contains
  contains-one v a = ground arith

  pub IsUnique-append :
      (s : List T) (v : T) → contains s v ≡ false → IsUnique s → IsUnique (s ++ v ∷ [])
  unfolding contains
  IsUnique-append [] v new h = (refl, tt)
  IsUnique-append (x ∷ s) v new (once, rest) = (
    ground (arith, contains-append s (v ∷ []) x, contains-one v x, ==_iff x v, ==_iff v x),
    IsUnique-append s v (ground arith) rest,
  )

  uniq_loop_lem :
      (s seen result : List T)
      → ((a : T) → contains seen a ≡ contains result a)
      → IsUnique result
      → IsUnique (uniq_loop s seen result)
        × ((a : T) → contains (uniq_loop s seen result) a ≡ (contains result a || contains s a))
  unfolding uniq_loop
  uniq_loop_lem [] seen result same once = (once, λ a. unfold contains in ground arith)
  uniq_loop_lem (v ∷ s) seen result same once = elim (Bool-cases (contains seen v)) [
    | inl again ↦
        let (alone, kept) = uniq_loop_lem s seen result same once in
        rw again (alone, λ a. kept a ∙ (unfold contains in ground (arith, ==_iff v a, same v)))
    | inr new ↦
        let (alone, kept) =
          uniq_loop_lem s (v ∷ seen) (result ++ v ∷ [])
            (λ a.
              unfold contains in
              ground (arith, same a, contains-append result (v ∷ []) a, contains-one v a))
            (IsUnique-append result v (sym (same v) ∙ new) once) in
        rw new (
          alone,
          λ a.
              kept a
              ∙ (unfold contains in
                  ground (arith, contains-append result (v ∷ []) a, contains-one v a)),
        )
  ]

  -- The result of `Uniq` has the elements of the slice, each once.
  pub uniq_lem : (s : List T) → IsUnique (uniq s) × ((a : T) → contains (uniq s) a ≡ contains s a)
  unfolding uniq
  uniq_lem s = uniq_loop_lem s [] [] (λ a. refl) tt

module _ {ℓ κ} {T : Type ℓ} {K : Type κ} ⦃e : Eq K⦄ where
  group_loop :
      (key_fn : T → K) (k : K) (s : List T) (m : List (K × List T))
      → slice_at (
          lookup k (
            range_loop
              (λ result v. store (key_fn v) (slice_at (lookup (key_fn v) result) ++ v ∷ []) result)
              s
              m))
        ≡ slice_at (lookup k m) ++ kept (λ v. key_fn v == k) s
  group_loop key_fn k [] m = sym (append-nil _)
  group_loop key_fn k (v ∷ s) m =
      let next = store (key_fn v) (slice_at (lookup (key_fn v) m) ++ v ∷ []) m in
      group_loop key_fn k s next
      ∙ ground (
        arith,
        lookup-store (key_fn v) k (slice_at (lookup (key_fn v) m) ++ v ∷ []) m,
        ==_iff (key_fn v) k,
        append_assoc (slice_at (lookup k m)) (v ∷ []) (kept (λ v. key_fn v == k) s),
      )

  -- The group of a key holds the elements with that key, in the order of the slice.
  pub group_by_lem :
      (s : List T) (key_fn : T → K) (k : K)
      → slice_at (lookup k (group_by s key_fn)) ≡ kept (λ v. key_fn v == k) s
  unfolding group_by lookup
  group_by_lem s key_fn k = group_loop key_fn k s []
