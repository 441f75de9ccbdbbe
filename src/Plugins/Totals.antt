-- ===== src/Plugins/Totals.antt =====
-- The sums of the plugins: numbers read back, and sums of sums.
use map_reduce_rpc.Prelude.{
  ℕ, ◌+◌, ◌-◌, ◌^◌, ◌≤◌, ◌<◌, ◌≡◌, refl, sym, ap, ◌∙◌, arith, true, false, Option, none, some, List,
  [], ◌∷◌, ◌++◌, ltb, eqb, Bool-cases, inl, inr, length,
}
use map_reduce_rpc.Prelude.Text.{
  decimal, digits_value, IsDigits, decimal-IsDigits, decimal-value, decimal-nonempty,
}
use map_reduce_rpc.Prelude.Words.{add64}
use map_reduce_rpc.Durable.Names.{int_text}
use map_reduce_rpc.Plugins.{atoi, whole_number, some_digits, all_digits, negated}
use map_reduce_rpc.Plugins.Sum

all_digits-IsDigits : (s : List ℕ) → IsDigits s → all_digits s ≡ true
all_digits-IsDigits [] h = refl
all_digits-IsDigits (c ∷ s) (here, rest) = rw (here, all_digits-IsDigits s rest) refl

whole_number_lem :
    (bound n : ℕ) (s : List ℕ)
    → IsDigits s
    → digits_value s ≡ n
    → n < bound
    → whole_number bound s ≡ some n
whole_number_lem bound n s digits value small =
    let below : ltb (digits_value s) bound ≡ true = ground arith in
    rw (all_digits-IsDigits s digits, below) (ap some value)

some_digits_lem :
    (bound n : ℕ) (s : List ℕ)
    → 1 ≤ length s
    → IsDigits s
    → digits_value s ≡ n
    → n < bound
    → some_digits bound s ≡ some n
some_digits_lem bound n [] nonempty digits value small = absurd (omega arith)
some_digits_lem bound n (c ∷ s) nonempty digits value small =
    whole_number_lem bound n (c ∷ s) digits value small

atoi-digits :
    (n : ℕ) (s : List ℕ)
    → 1 ≤ length s
    → IsDigits s
    → digits_value s ≡ n
    → n < 2 ^ 63
    → atoi s ≡ some n
unfolding atoi
atoi-digits n [] nonempty digits value small = absurd (omega arith)
atoi-digits n (c ∷ s) nonempty (here, rest) value small =
    let not_minus : eqb c b'-' ≡ false = ground arith in
    let not_plus : eqb c b'+' ≡ false = ground arith in
    rw (not_minus, not_plus) (some_digits_lem (2 ^ 63) n (c ∷ s) nonempty (here, rest) value small)

-- `strconv.Atoi` reads what `strconv.Itoa` writes.
pub atoi-int_text : (p : ℕ) → p < 2 ^ 64 → atoi (int_text p) ≡ some p
unfolding int_text atoi
atoi-int_text p small = elim (Bool-cases (ltb p (2 ^ 63))) [
  | inl positive ↦ rw positive (
      atoi-digits p (decimal p) (decimal-nonempty p) (decimal-IsDigits p) (decimal-value p small)
        (ground arith))
  | inr negative ↦ rw negative (minus (ground arith))
]
  where
    minus : 2 ^ 63 ≤ p → atoi (b'-' ∷ decimal (2 ^ 64 - p)) ≡ some p
    minus lo =
        let n = 2 ^ 64 - p in
        let read =
          some_digits_lem (2 ^ 63 + 1) n (decimal n) (decimal-nonempty n) (decimal-IsDigits n)
            (decimal-value n (omega arith)) (omega arith) in
        ap negated read ∙ ground arith

add_parsed-small : (total : ℕ) (n : Option ℕ) → total < 2 ^ 64 → Sum.add_parsed total n < 2 ^ 64
add_parsed-small total none small = small
add_parsed-small total (some n) small = omega arith

pub sum_loop-small :
    (values : List (List ℕ)) (total : ℕ) → total < 2 ^ 64 → Sum.sum_loop values total < 2 ^ 64
unfolding Sum.sum_loop
sum_loop-small [] total small = small
sum_loop-small (v ∷ values) total small =
    sum_loop-small values (Sum.add_parsed total (atoi v)) (add_parsed-small total (atoi v) small)

add_parsed-add :
    (total : ℕ) (n : Option ℕ)
    → total < 2 ^ 64
    → Sum.add_parsed total n ≡ add64 total (Sum.add_parsed 0 n)
add_parsed-add total none small = omega arith
add_parsed-add total (some n) small = omega arith

-- The sum from a start is the start and the sum from 0.
sum_loop-add :
    (values : List (List ℕ)) (total : ℕ)
    → total < 2 ^ 64
    → Sum.sum_loop values total ≡ add64 total (Sum.sum_loop values 0)
unfolding Sum.sum_loop
sum_loop-add [] total small = omega arith
sum_loop-add (v ∷ values) total small =
    let n = Sum.add_parsed 0 (atoi v) in
    let n_small = add_parsed-small 0 (atoi v) (omega arith) in
    ap (Sum.sum_loop values) (add_parsed-add total (atoi v) small)
    ∙ sum_loop-add values (add64 total n) (omega arith)
    ∙ omega arith
    ∙ ap (add64 total) (sym (sum_loop-add values n n_small))

sum_loop-append :
    (us vs : List (List ℕ)) (total : ℕ)
    → Sum.sum_loop (us ++ vs) total ≡ Sum.sum_loop vs (Sum.sum_loop us total)
unfolding Sum.sum_loop
sum_loop-append [] vs total = refl
sum_loop-append (u ∷ us) vs total = sum_loop-append us vs (Sum.add_parsed total (atoi u))

-- The reduced values of each part.
unfoldable pub reduce_parts : List ℕ → List (List (List ℕ)) → List (List ℕ)
reduce_parts key [] = []
reduce_parts key (part ∷ parts) = Sum.reduce key part ∷ reduce_parts key parts

unfoldable pub concat_parts : List (List (List ℕ)) → List (List ℕ)
concat_parts [] = []
concat_parts (part ∷ parts) = part ++ concat_parts parts

sum_loop-reduce_parts :
    (key : List ℕ) (parts : List (List (List ℕ))) (total : ℕ)
    → total < 2 ^ 64
    → Sum.sum_loop (reduce_parts key parts) total ≡ Sum.sum_loop (concat_parts parts) total
unfolding Sum.sum_loop reduce_parts concat_parts Sum.reduce
sum_loop-reduce_parts key [] total small = refl
sum_loop-reduce_parts key (part ∷ parts) total small =
    let n = Sum.sum_loop part 0 in
    let n_small = sum_loop-small part 0 (omega arith) in
    ap (λ m. Sum.sum_loop (reduce_parts key parts) (Sum.add_parsed total m))
      (atoi-int_text n n_small)
    ∙ sum_loop-reduce_parts key parts (add64 total n) (omega arith)
    ∙ ap (Sum.sum_loop (concat_parts parts)) (sym (sum_loop-add part total small))
    ∙ sym (sum_loop-append part (concat_parts parts) total)

-- The `Reduce` of the counting plugins can be applied to its own results: the sums of the parts of a
-- list of values, reduced once more, are the sum of the whole list. This holds for every list, with
-- values that are no numbers and with sums that wrap around.
pub reduce-reduce_parts :
    (key : List ℕ) (parts : List (List (List ℕ)))
    → Sum.reduce key (reduce_parts key parts) ≡ Sum.reduce key (concat_parts parts)
unfolding Sum.reduce
reduce-reduce_parts key parts = ap int_text (sum_loop-reduce_parts key parts 0 (omega arith))
