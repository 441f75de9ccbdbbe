-- ===== src/Worker/Pipeline.antt =====
-- `runMapReducePipeline` with `writeIntermediatePartition` and `runReduceFromChannel` of
-- mrp/worker.go. Each partition is written by a goroutine of its own; the files reach the reducer in the
-- order in which those finish.
pub mod Counting
use map_reduce_rpc.Prelude.{
  ℕ, zero, suc, ◌+◌, ◌≡◌, Bool, true, false, ◌&&◌, Option, none, some, List, [], ◌∷◌, ◌++◌, length,
  if◌then◌else◌, get_elem?,
}
use map_reduce_rpc.Prelude.Text.{codes, decimal}
use map_reduce_rpc.Durable.Names.{int_text}
use map_reduce_rpc.Durable.Types.{Handle}
use map_reduce_rpc.Rpc.{KeyValue, MapReduceRequest}
use map_reduce_rpc.Worker.Reduce.{arrange_immediate, SortSlice, reduce_all}

-- What the operating system and `encoding/json` answer.
pub record WorkerIo : Type 0 where
  pub mkdir_intermediate : Bool
  pub mkdir_output : Bool
  -- creating and encoding the file of a partition, and opening it
  pub writes : ℕ → Bool
  pub opens : ℕ → Bool
  -- what is decoded from the file into which these pairs were encoded
  pub decode : List KeyValue → Option (List KeyValue)
  pub write_tmp : Bool
  pub rename : Bool

abbrev pub or_no_pairs : Option (List KeyValue) → List KeyValue
or_no_pairs none = []
or_no_pairs (some kvs) = kvs

abbrev pub partition_at : List (List KeyValue) → ℕ → List KeyValue
partition_at partitions i = or_no_pairs (get_elem? partitions i)

abbrev pub indices : ℕ → List (List KeyValue) → List ℕ
indices i [] = []
indices i (kvs ∷ partitions) = i ∷ indices (suc i) partitions

-- The partitions whose writer has no error.
unfoldable pub successful : (ℕ → Bool) → List ℕ → List ℕ
successful writes [] = []
successful writes (i ∷ is) = let rest = successful writes is in if writes i then i ∷ rest else rest

-- The order in which the waiting partitions arrive: at each step one of them, whichever is done next.
abbrev pub Arrives : List ℕ → List ℕ → Type 0
Arrives waiting [] = waiting ≡ []
Arrives waiting (i ∷ order) =
    (before : List ℕ) × (after : List ℕ) × (waiting ≡ before ++ i ∷ after)
    × Arrives (before ++ after) order

abbrev pub append_some : Option (List KeyValue) → Option (List KeyValue) → Option (List KeyValue)
append_some none rest = none
append_some (some kvs) none = none
append_some (some kvs) (some rest) = some (kvs ++ rest)

-- The loop over the channel of `runReduceFromChannel`; an error ends it.
unfoldable pub collect : WorkerIo → List (List KeyValue) → List ℕ → Option (List KeyValue)
collect io partitions [] = some []
collect io partitions (i ∷ order) =
    if io.opens i
    then append_some (io.decode (partition_at partitions i)) (collect io partitions order)
    else none

-- A reduce: the output, and whether the output file has it.
pub record Reduced : Type 0 where
  pub committed : Option (List ℕ)
  pub answer : Option (List ℕ)

abbrev commit : WorkerIo → List ℕ → Reduced
commit io output =
    if io.write_tmp && io.rename
    then record { committed = some output; answer = some output }
    else record { committed = none; answer = none }

abbrev reduce_collected :
    WorkerIo → SortSlice → (List ℕ → List (List ℕ) → List ℕ) → Option (List KeyValue) → Reduced
reduce_collected io slice reducef none = record { committed = none; answer = none }
reduce_collected io slice reducef (some all) = commit io (reduce_all slice reducef all)

-- `runReduceFromChannel`
unfoldable pub run_reduce_from_channel :
    WorkerIo
    → SortSlice
    → (List ℕ → List (List ℕ) → List ℕ)
    → List (List KeyValue)
    → List ℕ
    → Reduced
run_reduce_from_channel io slice reducef partitions order =
    reduce_collected io slice reducef (collect io partitions order)

abbrev all_written : (ℕ → Bool) → List ℕ → Bool
all_written writes [] = true
all_written writes (i ∷ is) = writes i && all_written writes is

abbrev unless_failed : Bool → Reduced → Reduced
unless_failed true reduced = reduced
unless_failed false reduced = record reduced { answer = none }

-- `runMapReducePipeline` on a chunk, for an order of arrival. An error of a writer is an error of the
-- whole, though the reducer has by then committed what reached it.
unfoldable pub run_map_reduce_pipeline :
    WorkerIo
    → SortSlice
    → (List ℕ → List ℕ → List KeyValue)
    → (List ℕ → List (List ℕ) → List ℕ)
    → ℕ
    → List ℕ
    → MapReduceRequest
    → List ℕ
    → Reduced
run_map_reduce_pipeline io slice mapf reducef n_reduce order request chunk_data =
    if io.mkdir_intermediate && io.mkdir_output
    then (let partitions = arrange_immediate (mapf request.chunk_info.path chunk_data) n_reduce in
        unless_failed (all_written io.writes (indices 0 partitions))
          (run_reduce_from_channel io slice reducef partitions order))
    else record { committed = none; answer = none }

-- The names of the files of a chunk.
abbrev pub partition_file_name : MapReduceRequest → ℕ → List ℕ
partition_file_name request index =
    codes "mr-"
    ++ (decimal request.handle.id
        ++ (codes "-"
            ++ (int_text request.chunk_index ++ (codes "-" ++ (int_text index ++ codes ".json")))))

abbrev pub output_file_name : MapReduceRequest → List ℕ
output_file_name request =
    codes "mr-out-" ++ (decimal request.handle.id ++ (codes "-" ++ int_text request.chunk_index))
