-- ===== src/Worker/Partition.antt =====
-- `arrangeImmediate`: the buckets hold all pairs, and equal keys go to the same bucket.
use native.Mathlib.Nat.{mod-lt}
use map_reduce_rpc.Prelude.{
  ℕ, zero, suc, ◌+◌, ◌%◌, ◌<◌, ◌≡◌, refl, ap, ◌∙◌, arith, Bool, List, [], ◌∷◌, ◌++◌, length, All,
  All-append,
}
use map_reduce_rpc.Utils.Hash.{ihash}
use map_reduce_rpc.Rpc.{KeyValue}
use map_reduce_rpc.Worker.Reduce.{append_to, arrange_loop, empty_buckets, arrange_immediate, count}

-- The pairs of all buckets that pass a test.
unfoldable pub count_all : (KeyValue → Bool) → List (List KeyValue) → ℕ
count_all p [] = 0
count_all p (kvs ∷ kvap) = count p kvs + count_all p kvap

pub count-append :
    (p : KeyValue → Bool) (xs ys : List KeyValue) → count p (xs ++ ys) ≡ count p xs + count p ys
unfolding count
count-append p [] ys = omega arith
count-append p (x ∷ xs) ys = ground (arith, count-append p xs ys)

-- The buckets from index `i` on hold the keys whose hash, modulo `n`, is their index.
unfoldable pub AreBuckets : ℕ → ℕ → List (List KeyValue) → Type 0
AreBuckets n i [] = Unit
AreBuckets n i (kvs ∷ kvap) =
    All (λ (kv : KeyValue). ihash kv.key % n ≡ i) kvs × AreBuckets n (suc i) kvap

count_all-append_to :
    (p : KeyValue → Bool) (bucket : ℕ) (kv : KeyValue) (kvap : List (List KeyValue))
    → bucket < length kvap
    → count_all p (append_to bucket kv kvap) ≡ count p (kv ∷ []) + count_all p kvap
unfolding count_all
count_all-append_to p bucket kv [] h = absurd (omega arith)
count_all-append_to p zero kv (kvs ∷ kvap) h = omega (arith, count-append p kvs (kv ∷ []))
count_all-append_to p (suc bucket) kv (kvs ∷ kvap) h =
    omega (arith, count_all-append_to p bucket kv kvap (omega arith))

length-append_to :
    (bucket : ℕ) (kv : KeyValue) (kvap : List (List KeyValue))
    → length (append_to bucket kv kvap) ≡ length kvap
length-append_to bucket kv [] = refl
length-append_to zero kv (kvs ∷ kvap) = refl
length-append_to (suc bucket) kv (kvs ∷ kvap) = ap suc (length-append_to bucket kv kvap)

append_to-AreBuckets :
    (n i bucket : ℕ) (kv : KeyValue) (kvap : List (List KeyValue))
    → ihash kv.key % n ≡ i + bucket
    → AreBuckets n i kvap
    → AreBuckets n i (append_to bucket kv kvap)
unfolding AreBuckets
append_to-AreBuckets n i bucket kv [] e h = tt
append_to-AreBuckets n i zero kv (kvs ∷ kvap) e (here, rest) = (
  All-append (λ (kv : KeyValue). ihash kv.key % n ≡ i) kvs (kv ∷ []) here (omega (arith, e), tt),
  rest,
)
append_to-AreBuckets n i (suc bucket) kv (kvs ∷ kvap) e (here, rest) =
    (here, append_to-AreBuckets n (suc i) bucket kv kvap (omega (arith, e)) rest)

empty_buckets-AreBuckets : (n i m : ℕ) → AreBuckets n i (empty_buckets m)
unfolding AreBuckets
empty_buckets-AreBuckets n i zero = tt
empty_buckets-AreBuckets n i (suc m) = (tt, empty_buckets-AreBuckets n (suc i) m)

length-empty_buckets : (m : ℕ) → length (empty_buckets m) ≡ m
length-empty_buckets zero = refl
length-empty_buckets (suc m) = ap suc (length-empty_buckets m)

count_all-empty_buckets : (p : KeyValue → Bool) (m : ℕ) → count_all p (empty_buckets m) ≡ 0
unfolding count_all count
count_all-empty_buckets p zero = refl
count_all-empty_buckets p (suc m) = omega (arith, count_all-empty_buckets p m)

arrange_loop_lem :
    (n : ℕ) (kvs : List KeyValue) (kvap : List (List KeyValue))
    → 0 < n
    → length kvap ≡ n
    → AreBuckets n 0 kvap
    → (length (arrange_loop n kvs kvap) ≡ n)
      × AreBuckets n 0 (arrange_loop n kvs kvap)
      × ((p : KeyValue → Bool)
          → count_all p (arrange_loop n kvs kvap) ≡ count p kvs + count_all p kvap)
unfolding arrange_loop count
arrange_loop_lem n [] kvap positive long h = (long, h, λ p. omega arith)
arrange_loop_lem n (kv ∷ kvs) kvap positive long h =
    let bucket = ihash kv.key % n in
    let (long', h', counts) =
      arrange_loop_lem n kvs (append_to bucket kv kvap) positive
        (length-append_to bucket kv kvap ∙ long)
        (append_to-AreBuckets n 0 bucket kv kvap (omega arith) h) in
    (
      long',
      h',
      λ p. ground (
        arith,
        counts p,
        count_all-append_to p bucket kv kvap (omega (arith, long, mod-lt (ihash kv.key) positive)),
      ),
    )

-- For a positive number of buckets there are as many, every pair is in the bucket of its key's hash, so
-- that equal keys share a bucket, and all buckets together hold each pair as often as the input does.
pub arrange_immediate_lem :
    (n : ℕ) (kvs : List KeyValue)
    → 0 < n
    → (length (arrange_immediate kvs n) ≡ n)
      × AreBuckets n 0 (arrange_immediate kvs n)
      × ((p : KeyValue → Bool) → count_all p (arrange_immediate kvs n) ≡ count p kvs)
unfolding arrange_immediate
arrange_immediate_lem n kvs positive =
    let (long, h, counts) =
      arrange_loop_lem n kvs (empty_buckets n) positive (length-empty_buckets n)
        (empty_buckets-AreBuckets n 0 n) in
    (long, h, λ p. omega (arith, counts p, count_all-empty_buckets p n))
