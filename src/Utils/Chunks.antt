-- ===== src/Utils/Chunks.antt =====
-- `Chunk` of mrp/utils.go.
use map_reduce_rpc.Prelude.{
  ℕ, zero, suc, ◌+◌, ◌-◌, ◌≤◌, ◌<◌, ◌≡◌, refl, ap, ◌∙◌, sym, arith, List, [], ◌∷◌, ◌++◌, append-nil,
  append_assoc, ltb, length, take, drop, take-append-drop, length-take, length-drop, Bool-cases,
  inl, inr, ltb→lt, if◌then◌else◌,
}
use map_reduce_rpc.Utils.Slices.{flatten, slice, chunk_loop, chunk}
use map_reduce_rpc.Utils.SliceLaws.{flatten-cons}

module _ {ℓ} {T : Type ℓ} where
  drop_nil : (n : ℕ) → drop {A = T} n [] ≡ []
  drop_nil zero = refl
  drop_nil (suc n) = refl

  drop_twice : (i n : ℕ) (s : List T) → drop n (drop i s) ≡ drop (i + n) s
  drop_twice zero n s = ap (λ (t : ℕ). drop t s) (omega arith)
  drop_twice (suc i) n [] = drop_nil n ∙ sym (drop_nil (suc i + n))
  drop_twice (suc i) n (x ∷ s) =
      let same : suc i + n ≡ suc (i + n) = omega arith in
      drop_twice i n s ∙ ap (λ (t : ℕ). drop t (x ∷ s)) (sym same)

  drop_all : (i : ℕ) (s : List T) → length s ≤ i → drop i s ≡ []
  drop_all zero [] h = refl
  drop_all zero (x ∷ s) h = absurd (omega arith)
  drop_all (suc i) [] h = refl
  drop_all (suc i) (x ∷ s) h = drop_all i s (omega arith)

  take_all : (n : ℕ) (s : List T) → length s ≤ n → take n s ≡ s
  take_all zero [] h = refl
  take_all zero (x ∷ s) h = absurd (omega arith)
  take_all (suc n) [] h = refl
  take_all (suc n) (x ∷ s) h = ap (◌∷◌ x) (take_all n s (omega arith))

  -- Take `size` elements at a time.
  abbrev pub pieces : ℕ → ℕ → List T → List (List T)
  pieces zero size s = []
  pieces (suc fuel) size [] = []
  pieces (suc fuel) size (x ∷ s) = take size (x ∷ s) ∷ pieces fuel size (drop size (x ∷ s))

  pieces-cons :
      (fuel size : ℕ) (s : List T)
      → 0 < length s
      → pieces (suc fuel) size s ≡ take size s ∷ pieces fuel size (drop size s)
  pieces-cons fuel size [] h = absurd (omega arith)
  pieces-cons fuel size (x ∷ s) h = refl

  pieces-nil : (fuel size : ℕ) (s : List T) → s ≡ [] → pieces fuel size s ≡ []
  pieces-nil zero size s e = refl
  pieces-nil (suc fuel) size s e = rw e

  -- The end that the loop computes is that of a piece.
  slice_end :
      (s : List T) (size i : ℕ)
      → slice s i (if ltb (length s) (i + size) then length s else i + size) ≡ take size (drop i s)
  slice_end s size i = elim (Bool-cases (ltb (length s) (i + size))) [
    | inl over ↦ rw over (
        take_all (length s - i) (drop i s) (omega (arith, length-drop i s))
        ∙ sym (
            take_all size (drop i s)
              (omega (arith, length-drop i s, ltb→lt (length s) (i + size) over))))
    | inr inside ↦
        let same : i + size - i ≡ size = omega arith in
        rw inside (ap (λ (t : ℕ). take t (drop i s)) same)
  ]

  chunk_loop_lem :
      (fuel : ℕ) (s : List T) (size i : ℕ) (chunks : List (List T))
      → chunk_loop fuel s size i chunks ≡ chunks ++ pieces fuel size (drop i s)
  unfolding chunk_loop
  chunk_loop_lem zero s size i chunks = sym (append-nil chunks)
  chunk_loop_lem (suc fuel) s size i chunks = elim (Bool-cases (ltb i (length s))) [
    | inr done ↦
        rw (done, chunk_loop, pieces-nil (suc fuel) size (drop i s) (drop_all i s (ground arith)))
          (sym (append-nil chunks))
    | inl more ↦
        rw
          (
            more,
            chunk_loop,
            pieces-cons fuel size (drop i s)
                (omega (arith, length-drop i s, ltb→lt i (length s) more)),
          )
          (chunk_loop_lem fuel s size (i + size) _
            ∙ append_assoc chunks _ _
            ∙ ap (◌++◌ chunks) (
                ap (λ (c : List T). c ∷ pieces fuel size (drop (i + size) s)) (slice_end s size i)
                ∙ ap (λ (r : List T). take size (drop i s) ∷ pieces fuel size r)
                    (sym (drop_twice i size s))))
  ]

  -- All chunks have the given size, but the last, which may be shorter and is not empty.
  abbrev pub Evenly : ℕ → List (List T) → Type 0
  Evenly size [] = Unit
  Evenly size (c ∷ []) = (1 ≤ length c) × (length c ≤ size)
  Evenly size (c ∷ d ∷ chunks) = (length c ≡ size) × Evenly size (d ∷ chunks)

  flatten-pieces :
      (fuel size : ℕ) (s : List T) → 0 < size → length s ≤ fuel → flatten (pieces fuel size s) ≡ s
  flatten-pieces zero size [] pos h = unfold flatten in refl
  flatten-pieces zero size (x ∷ s) pos h = absurd (omega arith)
  flatten-pieces (suc fuel) size [] pos h = unfold flatten in refl
  flatten-pieces (suc fuel) size (x ∷ s) pos h =
      flatten-cons (take size (x ∷ s)) _
      ∙ ap (◌++◌ (take size (x ∷ s))) (
          flatten-pieces fuel size (drop size (x ∷ s)) pos
            (omega (arith, length-drop size (x ∷ s))))
      ∙ take-append-drop size (x ∷ s)

  Evenly-cons :
      (size : ℕ) (c : List T) (rest : List T) (fuel : ℕ)
      → (1 ≤ length c) × (length c ≤ size)
      → (0 < length rest → length c ≡ size)
      → Evenly size (pieces fuel size rest)
      → Evenly size (c ∷ pieces fuel size rest)
  Evenly-cons size c rest zero bounds full h = bounds
  Evenly-cons size c [] (suc fuel) bounds full h = bounds
  Evenly-cons size c (x ∷ rest) (suc fuel) bounds full h = (full (omega arith), h)

  pieces-Evenly : (fuel size : ℕ) (s : List T) → 0 < size → Evenly size (pieces fuel size s)
  pieces-Evenly zero size s pos = tt
  pieces-Evenly (suc fuel) size [] pos = tt
  pieces-Evenly (suc fuel) size (x ∷ s) pos =
      Evenly-cons size (take size (x ∷ s)) (drop size (x ∷ s)) fuel
        (omega (arith, length-take size (x ∷ s)), omega (arith, length-take size (x ∷ s)))
        (λ more. omega (arith, length-take size (x ∷ s), length-drop size (x ∷ s)))
        (pieces-Evenly fuel size (drop size (x ∷ s)) pos)

  chunk-pieces : (s : List T) (n : ℕ) → chunk s (suc n) ≡ pieces (length s) (suc n) s
  unfolding chunk
  chunk-pieces s n = ground (arith, chunk_loop_lem (length s) s (suc n) 0 [])

  -- For a positive size, `Chunk` cuts the slice into consecutive chunks that `Flatten` puts together
  -- again; all have the given size but the last, which is not empty.
  pub chunk-flatten :
      (s : List T) (size : ℕ) → 0 < size → (flatten (chunk s size) ≡ s) × Evenly size (chunk s size)
  chunk-flatten s zero pos = absurd (omega arith)
  chunk-flatten s (suc n) pos = rw (chunk-pieces s n) (
    flatten-pieces (length s) (suc n) s pos (omega arith),
    pieces-Evenly (length s) (suc n) s pos,
  )
