-- ===== src/Plugins/JobCount.antt =====
-- plugins/jobcount/jobcount.go: every map leaves a file behind, and the reduce counts the files.
use map_reduce_rpc.Prelude.{
  ℕ, suc, Bool, Option, none, some, List, [], ◌∷◌, ◌++◌, if◌then◌else◌, list_eq, nat_eq,
}
use map_reduce_rpc.Prelude.Assoc.{Assoc, store}
use map_reduce_rpc.Prelude.Text.{codes}
use map_reduce_rpc.Prelude.Trim.{has_prefix}
use map_reduce_rpc.Prelude.Words.{add64}
use map_reduce_rpc.Durable.Names.{int_text}
use map_reduce_rpc.Rpc.{KeyValue}

-- A worker process: its id, its variable `count`; and the directory, whose files have no use but their names.
pub record Process : Type 0 where
  pub pid : ℕ
  pub count : ℕ

abbrev pub Directory : Type 0
Directory = Assoc (List ℕ) (List ℕ)

abbrev pub job_prefix : List ℕ
job_prefix = codes "mrp-worker-jobcount"

-- `fmt.Sprintf("mrp-worker-jobcount-%d-%d", me, count)`
unfoldable pub job_file : Process → List ℕ
job_file p = job_prefix ++ (b'-' ∷ (int_text p.pid ++ (b'-' ∷ int_text p.count)))

-- `none`: the file cannot be written, and the process panics. `count` has been increased by then.
unfoldable pub map : Bool → Process → Directory → Option (Process × Directory × List KeyValue)
map writes p dir =
    if writes
    then some (
      record p { count = add64 p.count 1 },
      store (job_file p) (codes "x") dir,
      record { key = codes "a"; value = codes "x" } ∷ [],
    )
    else none

unfoldable pub invocations : Directory → ℕ
invocations [] = 0
invocations ((name, file) ∷ dir) =
    let rest = invocations dir in if has_prefix name job_prefix then suc rest else rest

unfoldable pub reduce : Directory → List ℕ → List (List ℕ) → List ℕ
reduce dir key values = int_text (invocations dir)
