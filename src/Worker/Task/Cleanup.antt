-- ===== src/Worker/Task/Cleanup.antt =====
-- Which files the cleanup of a task removes.
use map_reduce_rpc.Prelude.{
  ℕ, ◌-◌, ◌^◌, ◌<◌, ◌≡◌, refl, sym, ap, ◌∙◌, arith, Bool, true, false, ◌&&◌, Option, none, some,
  List, [], ◌∷◌, ◌++◌, append_assoc, length, length-append, drop-append, leb, eqb, ltb, Bool-cases,
  inl, inr, ap2, if◌then◌else◌, list_eq, nat_eq, ==_iff, ==_refl,
}
use map_reduce_rpc.Prelude.Assoc.{lookup}
use map_reduce_rpc.Prelude.Text.{
  codes, decimal, strip_prefix, is_digit, digits_value, IsDigits, decimal-IsDigits, decimal-value,
  decimal-nonempty, strip_prefix-append,
}
use map_reduce_rpc.Durable.Names.{int_text}
use map_reduce_rpc.Rpc.{MapReduceRequest}
use map_reduce_rpc.Worker.Pipeline.{partition_file_name}
use map_reduce_rpc.Worker.Task.{
  Intermediate, chunk_prefix, is_intermediate, has_suffix, rest_matches, remove_matches,
  cleanup_intermediate_files,
}

-- A run of digits up to a character that is none is determined by a prefix.
strip-digits :
    (ds es p s : List ℕ) (c : ℕ) {r : List ℕ}
    → IsDigits ds
    → IsDigits es
    → is_digit c ≡ false
    → strip_prefix (ds ++ c ∷ p) (es ++ c ∷ s) ≡ some r
    → (ds ≡ es) × (strip_prefix p s ≡ some r)
unfolding strip_prefix
strip-digits [] [] p s c hd he stop same = (refl, ground (arith, same))
strip-digits [] (e ∷ es) p s c hd (he, hes) stop same = absurd (ground (arith, same))
strip-digits (d ∷ ds) [] p s c (hd, hds) he stop same = absurd (ground (arith, same))
strip-digits (d ∷ ds) (e ∷ es) p s c (hd, hds) (he, hes) stop same =
    let first : d ≡ e = ground (arith, same) in
    let (rest, later) = strip-digits ds es p s c hds hes stop (ground (arith, same)) in
    (ap2 (◌∷◌) first rest, later)

decimal_injective : (n m : ℕ) → n < 2 ^ 64 → m < 2 ^ 64 → decimal n ≡ decimal m → n ≡ m
decimal_injective n m hn hm same =
    sym (decimal-value n hn) ∙ ap digits_value same ∙ decimal-value m hm

no_digits : (n : ℕ) → decimal n ≡ [] → ⊥
no_digits n none_there = omega (arith, decimal-nonempty n, ap length none_there)

strip-int_text :
    (p q : ℕ) (u s : List ℕ) {r : List ℕ}
    → p < 2 ^ 64
    → q < 2 ^ 64
    → strip_prefix (int_text p ++ b'-' ∷ u) (int_text q ++ b'-' ∷ s) ≡ some r
    → (p ≡ q) × (strip_prefix u s ≡ some r)
unfolding int_text strip_prefix
strip-int_text p q u s hp hq same = elim (Bool-cases (ltb p (2 ^ 63))) [
  | inl p_pos ↦ elim (Bool-cases (ltb q (2 ^ 63))) [
    | inl q_pos ↦
        let (digits, later) =
          strip-digits (decimal p) (decimal q) u s b'-' (decimal-IsDigits p) (decimal-IsDigits q)
            refl (rw (p_pos, q_pos) at same) in
        (decimal_injective p q hp hq digits, later)
    | inr q_neg ↦ absurd (
        no_digits p
          (strip-digits (decimal p) [] u (decimal (2 ^ 64 - q) ++ b'-' ∷ s) b'-'
            (decimal-IsDigits p) tt refl (rw (p_pos, q_neg) at same)).0)
  ]
  | inr p_neg ↦ elim (Bool-cases (ltb q (2 ^ 63))) [
    | inl q_pos ↦ absurd (
        no_digits q (
          sym
            (strip-digits [] (decimal q) (decimal (2 ^ 64 - p) ++ b'-' ∷ u) s b'-' tt
              (decimal-IsDigits q) refl (rw (p_neg, q_pos) at same)).0))
    | inr q_neg ↦
        let (digits, later) =
          strip-digits (decimal (2 ^ 64 - p)) (decimal (2 ^ 64 - q)) u s b'-'
            (decimal-IsDigits (2 ^ 64 - p)) (decimal-IsDigits (2 ^ 64 - q)) refl
            (rw (p_neg, q_neg) at same) in
        let e = decimal_injective (2 ^ 64 - p) (2 ^ 64 - q) (ground arith) (ground arith) digits in
        (ground arith, later)
  ]
]

has_suffix-append : (s t : List ℕ) → has_suffix (s ++ t) t ≡ true
has_suffix-append s t =
    let counted = length-append s t in
    let long : leb (length t) (length (s ++ t)) ≡ true = ground arith in
    let before : length (s ++ t) - length t ≡ length s = omega arith in
    rw (long, before, drop-append s t) (==_refl t)

-- The name of a partition file is that of its chunk.
pub partition_is_intermediate :
    (request : MapReduceRequest) (index : ℕ)
    → is_intermediate request.handle.id request.chunk_index (partition_file_name request index)
      ≡ true
unfolding is_intermediate chunk_prefix
partition_is_intermediate request index =
    let h = decimal request.handle.id in
    let c = int_text request.chunk_index in
    let rest = int_text index ++ codes ".json" in
    let split =
      append_assoc h (b'-' ∷ (c ++ b'-' ∷ [])) rest
      ∙ ap (λ (s : List ℕ). h ++ (b'-' ∷ s)) (append_assoc c (b'-' ∷ []) rest) in
    ap
      (λ (s : List ℕ).
        rest_matches
          (strip_prefix (codes "mr-" ++ (h ++ (b'-' ∷ (c ++ b'-' ∷ [])))) (codes "mr-" ++ s)))
      (sym split)
    ∙ ap rest_matches (strip_prefix-append (codes "mr-" ++ (h ++ (b'-' ∷ (c ++ b'-' ∷ [])))) rest)
    ∙ has_suffix-append (int_text index) (codes ".json")

of_matches : (o : Option (List ℕ)) → rest_matches o ≡ true → (r : List ℕ) × (o ≡ some r)
of_matches none h = ground arith
of_matches (some r) h = (r, refl)

intermediate_of :
    (handle_id chunk_index : ℕ) (request : MapReduceRequest) (index : ℕ)
    → handle_id < 2 ^ 64
    → chunk_index < 2 ^ 64
    → request.handle.id < 2 ^ 64
    → request.chunk_index < 2 ^ 64
    → is_intermediate handle_id chunk_index (partition_file_name request index) ≡ true
    → (handle_id ≡ request.handle.id) × (chunk_index ≡ request.chunk_index)
unfolding is_intermediate chunk_prefix strip_prefix
intermediate_of handle_id chunk_index request index h1 h2 h3 h4 matches =
    let (r, found) = of_matches _ matches in
    let (digits, later) =
      strip-digits (decimal handle_id) (decimal request.handle.id)
        (int_text chunk_index ++ b'-' ∷ [])
        (int_text request.chunk_index ++ (b'-' ∷ (int_text index ++ codes ".json"))) b'-'
        (decimal-IsDigits handle_id) (decimal-IsDigits request.handle.id) refl found in
    (
      decimal_injective handle_id request.handle.id h1 h3 digits,
      (strip-int_text chunk_index request.chunk_index [] (int_text index ++ codes ".json") h2 h4
          later).0,
    )

lookup-remove_matches :
    (removes : List ℕ → Bool) (handle_id chunk_index : ℕ) (dir : Intermediate) (name : List ℕ)
    → ((n : List ℕ) → removes n ≡ true)
    → lookup name (remove_matches removes handle_id chunk_index dir)
      ≡ (if is_intermediate handle_id chunk_index name then none else lookup name dir)
unfolding lookup remove_matches
lookup-remove_matches removes handle_id chunk_index [] name all = ground arith
lookup-remove_matches removes handle_id chunk_index ((other, kvs) ∷ dir) name all = ground (
  arith,
  lookup-remove_matches removes handle_id chunk_index dir name all,
  all other,
  ==_iff other name,
)

pub cleanup_lem :
    (removes : List ℕ → Bool) (handle_id chunk_index : ℕ) (dir : Intermediate) (name : List ℕ)
    → ((n : List ℕ) → removes n ≡ true)
    → lookup name (cleanup_intermediate_files true removes handle_id chunk_index dir)
      ≡ (if is_intermediate handle_id chunk_index name then none else lookup name dir)
unfolding cleanup_intermediate_files
cleanup_lem removes handle_id chunk_index dir name all =
    lookup-remove_matches removes handle_id chunk_index dir name all

-- The cleanup of a chunk, when `Glob` and `Remove` succeed, removes every partition file of the chunk,
-- and keeps every partition file of another chunk or another handle, whatever their numbers.
pub cleanup_exact :
    (removes : List ℕ → Bool) (handle_id chunk_index : ℕ) (dir : Intermediate)
    (request : MapReduceRequest) (index : ℕ)
    → ((n : List ℕ) → removes n ≡ true)
    → handle_id < 2 ^ 64
    → chunk_index < 2 ^ 64
    → request.handle.id < 2 ^ 64
    → request.chunk_index < 2 ^ 64
    → lookup
        (partition_file_name request index)
        (cleanup_intermediate_files true removes handle_id chunk_index dir)
      ≡ (if eqb handle_id request.handle.id && eqb chunk_index request.chunk_index
          then none
          else lookup (partition_file_name request index) dir)
cleanup_exact removes handle_id chunk_index dir request index all h1 h2 h3 h4 =
    let name = partition_file_name request index in
    cleanup_lem removes handle_id chunk_index dir name all
    ∙ ap (λ (b : Bool). if b then none else lookup name dir)
        (decided (is_intermediate handle_id chunk_index name)
          (intermediate_of handle_id chunk_index request index h1 h2 h3 h4) (λ e f. own e f))
  where
    decided :
        (b : Bool)
        → (b ≡ true → (handle_id ≡ request.handle.id) × (chunk_index ≡ request.chunk_index))
        → (handle_id ≡ request.handle.id → chunk_index ≡ request.chunk_index → b ≡ true)
        → b ≡ (eqb handle_id request.handle.id && eqb chunk_index request.chunk_index)
    decided b only if_so = ground (arith, only, if_so)

    own :
        handle_id ≡ request.handle.id
        → chunk_index ≡ request.chunk_index
        → is_intermediate handle_id chunk_index (partition_file_name request index) ≡ true
    own e f = rw (e, f) (partition_is_intermediate request index)
