-- ===== src/Master/Submit/Keys.antt =====
-- The keys of results: a prefix selects the results of one handle and of no other.
use map_reduce_rpc.Prelude.{
  ℕ, ◌^◌, ◌<◌, ◌≡◌, refl, ap, ◌∙◌, sym, arith, some, List, [], ◌∷◌, ◌++◌, append_assoc, eqb,
  Option-cases, Bool-cases, inl, inr, nat_eq, list_eq,
}
use map_reduce_rpc.Prelude.Text.{
  decimal, digits_value, strip_prefix, strip_prefix-append, span_digits, span_digits-append,
  decimal-IsDigits, decimal-value,
}
use map_reduce_rpc.Prelude.Trim.{has_prefix}
use map_reduce_rpc.Durable.Names.{int_text}
use map_reduce_rpc.Master.Submit.{key_prefix, result_key}

strip_prefix-some : (p s rest : List ℕ) → strip_prefix p s ≡ some rest → s ≡ p ++ rest
unfolding strip_prefix
strip_prefix-some [] s rest e = ground arith
strip_prefix-some (p ∷ ps) [] rest e = ground arith
strip_prefix-some (p ∷ ps) (c ∷ s) rest e = ground (arith, strip_prefix-some ps s rest)

-- A number is determined by its digits and what follows them.
decimal-followed :
    (i j : ℕ) (rest rest' : List ℕ)
    → i < 2 ^ 64
    → j < 2 ^ 64
    → decimal i ++ b':' ∷ rest ≡ decimal j ++ b':' ∷ rest'
    → i ≡ j
decimal-followed i j rest rest' small small' e =
    sym (decimal-value i small)
    ∙ ap (λ (r : List ℕ × List ℕ). digits_value r.0)
        (sym (span_digits-append (decimal i) rest b':' (decimal-IsDigits i) refl)
          ∙ ap span_digits e
          ∙ span_digits-append (decimal j) rest' b':' (decimal-IsDigits j) refl)
    ∙ decimal-value j small'

key_prefix-same :
    (id other chunk_index : ℕ) (rest : List ℕ)
    → id < 2 ^ 64
    → other < 2 ^ 64
    → strip_prefix (key_prefix id) (result_key other chunk_index) ≡ some rest
    → id ≡ other
unfolding key_prefix result_key
key_prefix-same id other chunk_index rest small small' e =
    decimal-followed id other rest (int_text chunk_index) small small' (
      sym (append_assoc (decimal id) (b':' ∷ []) rest)
      ∙ sym (strip_prefix-some _ _ rest e)
      ∙ append_assoc (decimal other) (b':' ∷ []) (int_text chunk_index))

pub own_prefix :
    (id chunk_index : ℕ)
    → strip_prefix (key_prefix id) (result_key id chunk_index) ≡ some (int_text chunk_index)
unfolding result_key
own_prefix id chunk_index = strip_prefix-append (key_prefix id) (int_text chunk_index)

-- A result is counted for a handle exactly when it is a result of that handle: the prefix `1:` does not
-- select a result of handle 12.
pub has_prefix-result_key :
    (id other chunk_index : ℕ)
    → id < 2 ^ 64
    → other < 2 ^ 64
    → has_prefix (result_key other chunk_index) (key_prefix id) ≡ eqb id other
unfolding has_prefix
has_prefix-result_key id other chunk_index small small' =
    elim (Option-cases (strip_prefix (key_prefix id) (result_key other chunk_index))) [
      | inl missing ↦ elim (Bool-cases (eqb id other)) [
        | inl same ↦ ground (arith, missing, same, own_prefix id chunk_index)
        | inr differ ↦ rw (missing, differ) refl
      ]
      | inr (rest, found) ↦
          rw found (ground (arith, key_prefix-same id other chunk_index rest small small' found))
    ]
