-- ===== src/Worker/Reduce.antt =====
-- `arrangeImmediate`, `defaultMap`, `defaultReduce` and the reduce loop of `runReduceFromChannel` in
-- mrp/worker.go.
use map_reduce_rpc.Prelude.{
  ℕ, zero, suc, ◌%◌, ◌≡◌, Bool, ◌||◌, ◌&&◌, not, List, [], ◌∷◌, ◌++◌, eqb, ltb, length,
  if◌then◌else◌, ◌==◌, list_eq, nat_eq,
}
use map_reduce_rpc.Prelude.Text.{codes, decimal}
use map_reduce_rpc.Prelude.TextOrder.{IsTextSorted}
use map_reduce_rpc.Utils.Hash.{ihash}
use map_reduce_rpc.Rpc.{KeyValue}

-- `kvap[bucket] = append(kvap[bucket], kv)`
abbrev pub append_to : ℕ → KeyValue → List (List KeyValue) → List (List KeyValue)
append_to bucket kv [] = []
append_to zero kv (kvs ∷ kvap) = (kvs ++ kv ∷ []) ∷ kvap
append_to (suc bucket) kv (kvs ∷ kvap) = kvs ∷ append_to bucket kv kvap

unfoldable pub arrange_loop : ℕ → List KeyValue → List (List KeyValue) → List (List KeyValue)
arrange_loop n_reduce [] kvap = kvap
arrange_loop n_reduce (kv ∷ kvs) kvap =
    arrange_loop n_reduce kvs (append_to (ihash kv.key % n_reduce) kv kvap)

-- `make([][]KeyValue, nReduce)`
abbrev pub empty_buckets : ℕ → List (List KeyValue)
empty_buckets zero = []
empty_buckets (suc n) = [] ∷ empty_buckets n

-- `arrangeImmediate`
unfoldable pub arrange_immediate : List KeyValue → ℕ → List (List KeyValue)
arrange_immediate kvs n_reduce = arrange_loop n_reduce kvs (empty_buckets n_reduce)

-- The spaces of `strings.Fields` for texts in ASCII.
abbrev pub is_field_space : ℕ → Bool
is_field_space c = eqb c b' ' || (not (ltb c 9) && not (ltb 13 c))

-- The words of a text: `word` is the one that is being read.
abbrev pub word_ends : List ℕ → List (List ℕ) → List (List ℕ)
word_ends [] words = words
word_ends (c ∷ word) words = (c ∷ word) ∷ words

unfoldable pub fields_loop : List ℕ → List ℕ → List (List ℕ)
fields_loop word [] = word_ends word []
fields_loop word (c ∷ s) =
    let ended = word_ends word (fields_loop [] s) in
    let longer = fields_loop (word ++ c ∷ []) s in if is_field_space c then ended else longer

unfoldable pub one_each : List (List ℕ) → List KeyValue
one_each [] = []
one_each (word ∷ words) = record { key = word; value = codes "1" } ∷ one_each words

-- `defaultMap`
unfoldable pub default_map : List ℕ → List ℕ → List KeyValue
default_map file contents = one_each (fields_loop [] contents)

-- `defaultReduce`
unfoldable pub default_reduce : List ℕ → List (List ℕ) → List ℕ
default_reduce key values = decimal (length values)

unfoldable pub keys_of : List KeyValue → List (List ℕ)
keys_of [] = []
keys_of (kv ∷ kvs) = kv.key ∷ keys_of kvs

-- How many of the pairs pass a test.
unfoldable pub count : (KeyValue → Bool) → List KeyValue → ℕ
count p [] = 0
count p (kv ∷ kvs) = let rest = count p kvs in if p kv then suc rest else rest

-- `sort.Slice` by key. It is not stable: pairs of equal keys come in any order.
pub record SortSlice : Type 0 where
  pub sort : List KeyValue → List KeyValue
  pub sorts : (kvs : List KeyValue) → IsTextSorted (keys_of (sort kvs))
  pub permutes : (p : KeyValue → Bool) (kvs : List KeyValue) → count p (sort kvs) ≡ count p kvs

-- The inner loop: the values of the pairs with this key that come next, and what follows them.
unfoldable pub span_key : List ℕ → List KeyValue → List (List ℕ) × List KeyValue
span_key key [] = ([], [])
span_key key (kv ∷ kvs) =
    let (values, later) = span_key key kvs in
    if kv.key == key then (kv.value ∷ values, later) else ([], kv ∷ kvs)

-- `fmt.Fprintf(&output, "%s %s\n", …)`
abbrev pub output_line : List ℕ → List ℕ → List ℕ
output_line key reduced = key ++ (b' ' ∷ (reduced ++ 10 ∷ []))

-- The outer loop. Each round takes one pair at least, so the number of pairs is enough fuel.
unfoldable pub reduce_loop : (List ℕ → List (List ℕ) → List ℕ) → ℕ → List KeyValue → List ℕ
reduce_loop reducef zero kvs = []
reduce_loop reducef (suc fuel) [] = []
reduce_loop reducef (suc fuel) (kv ∷ kvs) =
    let (values, later) = span_key kv.key kvs in
    output_line kv.key (reducef kv.key (kv.value ∷ values)) ++ reduce_loop reducef fuel later

unfoldable pub reduce_all : SortSlice → (List ℕ → List (List ℕ) → List ℕ) → List KeyValue → List ℕ
reduce_all slice reducef kvs = reduce_loop reducef (length kvs) (slice.sort kvs)
