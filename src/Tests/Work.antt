-- ===== src/Tests/Work.antt =====
-- A worker at work.
use map_reduce_rpc.Prelude.{
  ℕ, ◌≡◌, refl, arith, Bool, true, false, some, List, [], ◌∷◌, if◌then◌else◌, Bool-cases, inl, inr,
  list_eq, nat_eq,
}
use map_reduce_rpc.Prelude.Text.{codes}
use map_reduce_rpc.Prelude.TextOrder.{text_less, text_less_trans, NoneLess, IsTextSorted}
use map_reduce_rpc.Rpc.{KeyValue, MapReduceRequest}
use map_reduce_rpc.Worker.Reduce.{
  SortSlice, keys_of, count, reduce_all, default_map, default_reduce, arrange_immediate,
}
use map_reduce_rpc.Worker.Pipeline.{WorkerIo, Arrives, indices, run_map_reduce_pipeline}
use map_reduce_rpc.Worker.Pipeline.Counting.{IsSound, run_map_reduce_pipeline_counts}

-- Insertion sort is one way to sort by key.
insert_pair : KeyValue → List KeyValue → List KeyValue
insert_pair kv [] = kv ∷ []
insert_pair kv (j ∷ kvs) =
    let rest = insert_pair kv kvs in if text_less j.key kv.key then j ∷ rest else kv ∷ j ∷ kvs

pub sort_pairs : List KeyValue → List KeyValue
sort_pairs [] = []
sort_pairs (kv ∷ kvs) = insert_pair kv (sort_pairs kvs)

text_less_asym : (s t : List ℕ) → text_less s t ≡ true → text_less t s ≡ false
unfolding text_less
text_less_asym s [] e = ground arith
text_less_asym [] (c ∷ t) e = refl
text_less_asym (b ∷ s) (c ∷ t) e = ground (arith, text_less_asym s t)

NoneLess-weaken :
    (s t : List ℕ) (us : List (List ℕ)) → text_less t s ≡ false → NoneLess t us → NoneLess s us
NoneLess-weaken s t [] e h = tt
NoneLess-weaken s t (u ∷ us) e (here, rest) =
    (text_less_trans s t u e here, NoneLess-weaken s t us e rest)

NoneLess-insert :
    (s : List ℕ) (kv : KeyValue) (kvs : List KeyValue)
    → text_less kv.key s ≡ false
    → NoneLess s (keys_of kvs)
    → NoneLess s (keys_of (insert_pair kv kvs))
unfolding insert_pair keys_of
NoneLess-insert s kv [] e h = (e, tt)
NoneLess-insert s kv (j ∷ kvs) e (here, rest) = elim (Bool-cases (text_less j.key kv.key)) [
  | inl less ↦ rw less (here, NoneLess-insert s kv kvs e rest)
  | inr not_less ↦ rw not_less (e, (here, rest))
]

insert_pair-IsTextSorted :
    (kv : KeyValue) (kvs : List KeyValue)
    → IsTextSorted (keys_of kvs)
    → IsTextSorted (keys_of (insert_pair kv kvs))
unfolding insert_pair keys_of
insert_pair-IsTextSorted kv [] h = (tt, tt)
insert_pair-IsTextSorted kv (j ∷ kvs) (first, rest) = elim (Bool-cases (text_less j.key kv.key)) [
  | inl less ↦ rw less (
    NoneLess-insert j.key kv kvs (text_less_asym j.key kv.key less) first,
    insert_pair-IsTextSorted kv kvs rest,
  )
  | inr not_less ↦
      rw not_less
        ((not_less, NoneLess-weaken kv.key j.key (keys_of kvs) not_less first), (first, rest))
]

pub sort_pairs-IsTextSorted : (kvs : List KeyValue) → IsTextSorted (keys_of (sort_pairs kvs))
unfolding sort_pairs keys_of
sort_pairs-IsTextSorted [] = tt
sort_pairs-IsTextSorted (kv ∷ kvs) =
    insert_pair-IsTextSorted kv (sort_pairs kvs) (sort_pairs-IsTextSorted kvs)

count-insert_pair :
    (p : KeyValue → Bool) (kv : KeyValue) (kvs : List KeyValue)
    → count p (insert_pair kv kvs) ≡ count p (kv ∷ kvs)
unfolding insert_pair count
count-insert_pair p kv [] = refl
count-insert_pair p kv (j ∷ kvs) = ground (arith, count-insert_pair p kv kvs)

pub count-sort_pairs :
    (p : KeyValue → Bool) (kvs : List KeyValue) → count p (sort_pairs kvs) ≡ count p kvs
unfolding sort_pairs count
count-sort_pairs p [] = refl
count-sort_pairs p (kv ∷ kvs) =
    ground (arith, count-insert_pair p kv (sort_pairs kvs), count-sort_pairs p kvs)

abbrev pub insertion : SortSlice
insertion = record {
  sort = sort_pairs;
  sorts = sort_pairs-IsTextSorted;
  permutes = count-sort_pairs;
}

abbrev pub words : List ℕ
words = codes "to be or not to be"

abbrev pairs : List KeyValue
pairs =
    record { key = codes "b"; value = codes "1" }
    ∷ record { key = codes "a"; value = codes "2" }
    ∷ record { key = codes "b"; value = codes "3" }
    ∷ []

abbrev pub sound_io : WorkerIo
sound_io = record {
  mkdir_intermediate = true;
  mkdir_output = true;
  writes = λ i. true;
  opens = λ i. true;
  decode = λ kvs. some kvs;
  write_tmp = true;
  rename = true;
}

pub sound_io-IsSound : IsSound sound_io
sound_io-IsSound = record {
  mkdir = refl;
  writes = λ i. refl;
  opens = λ i. refl;
  decodes = λ kvs. refl;
  commits = refl;
}

abbrev pub word_request : MapReduceRequest
word_request = record {
  handle = record { id = 1; time_stamp = 100 };
  file = record {
    handle = record { id = 1; time_stamp = 100 };
    source_log = [];
    source_path = [];
    size_bytes = 18;
    mod_unix_nano = 0;
    uploaded_at = [];
    completed = true;
    raw_content = [];
    chunks = [];
  };
  chunk_index = 0;
  chunk_info = record { index = 0; offset = 0; size = 18; path = []; handle = 0 };
}

-- The second partition arrives first.
pub arrives :
    Arrives
      (indices 0 (arrange_immediate (default_map word_request.chunk_info.path words) 2))
      (1 ∷ 0 ∷ [])
unfolding arrange_immediate default_map map_reduce_rpc.Worker.Reduce.arrange_loop
    map_reduce_rpc.Worker.Reduce.one_each map_reduce_rpc.Worker.Reduce.fields_loop
    map_reduce_rpc.Utils.Hash.ihash
arrives = (0 ∷ [], [], refl, ([], [], refl, refl))

run_map_reduce_pipeline_example :
    run_map_reduce_pipeline sound_io insertion default_map default_reduce 2
      (1 ∷ 0 ∷ [])
      word_request
      words
    ≡ record {
      committed =
          some
            (reduce_all insertion default_reduce (default_map word_request.chunk_info.path words));
      answer =
          some
            (reduce_all insertion default_reduce (default_map word_request.chunk_info.path words));
    }
run_map_reduce_pipeline_example =
    run_map_reduce_pipeline_counts sound_io insertion insertion 2 (1 ∷ 0 ∷ []) word_request words
      sound_io-IsSound (omega arith) arrives
