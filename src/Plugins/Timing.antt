-- ===== src/Plugins/Timing.antt =====
-- plugins/mtiming/mtiming.go and plugins/rtiming/rtiming.go: how many processes run at the same time.
-- The time stamp of a map is an argument, and the files of the directory are their names.
use map_reduce_rpc.Prelude.{ℕ, suc, Bool, Option, none, some, List, [], ◌∷◌, ◌++◌, if◌then◌else◌}
use map_reduce_rpc.Prelude.Text.{codes, strip_prefix}
use map_reduce_rpc.Durable.Names.{int_text, scan_int}
use map_reduce_rpc.Rpc.{KeyValue}
use map_reduce_rpc.Plugins.{one_of}

abbrev pub phase_prefix : List ℕ → List ℕ
phase_prefix phase = codes "mrp-worker-" ++ (phase ++ b'-' ∷ [])

abbrev pid_at : Option (List ℕ) → Option (ℕ × List ℕ)
pid_at none = none
pid_at (some s) = scan_int s

-- `fmt.Sscanf(name, "mrp-worker-<phase>-%d", &xpid)`
unfoldable pub scan_pid : List ℕ → List ℕ → Option (ℕ × List ℕ)
scan_pid phase name = pid_at (strip_prefix (phase_prefix phase) name)

abbrev lives : (ℕ → Bool) → Option (ℕ × List ℕ) → ℕ → ℕ
lives alive none n = n
lives alive (some (pid, rest)) n = if alive pid then suc n else n

-- The count of `nparallel`: `alive` is whether `syscall.Kill(pid, 0)` has no error, and `names` are
-- those of the directory, the own file among them.
unfoldable pub nparallel : (ℕ → Bool) → List ℕ → List (List ℕ) → ℕ
nparallel alive phase [] = 0
nparallel alive phase (name ∷ names) =
    lives alive (scan_pid phase name) (nparallel alive phase names)

-- `Map` of plugins/mtiming; its `Reduce` is `NoCrash.reduce`.
unfoldable pub map : (ℕ → Bool) → List (List ℕ) → ℕ → List ℕ → List KeyValue
map alive names pid ts =
    record { key = codes "times-" ++ int_text pid; value = ts }
    ∷ record {
      key = codes "parallel-" ++ int_text pid;
      value = int_text (nparallel alive (codes "map") names);
    }
    ∷ []

-- `Map` and `Reduce` of plugins/rtiming.
unfoldable pub letters_map : List ℕ → List ℕ → List KeyValue
letters_map filename contents =
    one_of (codes "a")
    ∷ one_of (codes "b")
    ∷ one_of (codes "c")
    ∷ one_of (codes "d")
    ∷ one_of (codes "e")
    ∷ one_of (codes "f")
    ∷ one_of (codes "g")
    ∷ one_of (codes "h")
    ∷ one_of (codes "i")
    ∷ one_of (codes "j")
    ∷ []

unfoldable pub count_reduce : (ℕ → Bool) → List (List ℕ) → List ℕ → List (List ℕ) → List ℕ
count_reduce alive names key values = int_text (nparallel alive (codes "reduce") names)
