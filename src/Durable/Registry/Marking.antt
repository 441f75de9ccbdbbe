-- ===== src/Durable/Registry/Marking.antt =====
-- `MarkHandlesUploaded`.
use map_reduce_rpc.Prelude.{
  ℕ, ◌≡◌, refl, ◌∙◌, arith, Bool, false, ◌||◌, ◌&&◌, none, some, List, [], ◌∷◌, if◌then◌else◌, ◌==◌,
  ==_iff, nat_eq, list_eq,
}
use map_reduce_rpc.Prelude.Assoc.{lookup, lookup-store, lookup-delete}
use map_reduce_rpc.Utils.Slices.{contains}
use map_reduce_rpc.Durable.Types.{Handle, handle_eq}
use map_reduce_rpc.Durable.Disk.{Disk, Os}
use map_reduce_rpc.Durable.Names.{log_file_name}
use map_reduce_rpc.Durable.Buffer.{DurableBuffer}
use map_reduce_rpc.Durable.Registry.{
  mark_loop, mark_handles_uploaded, remove_logs, remove_file, save_uploaded_handles,
}

mark_loop-uploaded :
    (now : ℕ) (hs : List Handle) (d : DurableBuffer) (g : Handle)
    → lookup g (mark_loop now hs d).uploaded_handles
      ≡ (if contains hs g then some now else lookup g d.uploaded_handles)
unfolding mark_loop contains
mark_loop-uploaded now [] d g = refl
mark_loop-uploaded now (h ∷ hs) d g =
    mark_loop-uploaded now hs _ g ∙ ground (arith, lookup-store h g now d.uploaded_handles)

mark_loop-handles :
    (now : ℕ) (hs : List Handle) (d : DurableBuffer) (g : Handle)
    → lookup g (mark_loop now hs d).handles ≡ (if contains hs g then none else lookup g d.handles)
unfolding mark_loop contains
mark_loop-handles now [] d g = refl
mark_loop-handles now (h ∷ hs) d g =
    mark_loop-handles now hs _ g ∙ ground (arith, lookup-delete h g d.handles)

-- Whether a file is the log file of one of the handles.
abbrev pub is_log_of : List Handle → List ℕ → Bool
is_log_of [] name = false
is_log_of (h ∷ hs) name = log_file_name h == name || is_log_of hs name

remove_file-lookup :
    (os : Os) (n name : List ℕ) (disk : Disk)
    → lookup name (remove_file os n disk)
      ≡ (if os.remove name && n == name then none else lookup name disk)
unfolding remove_file
remove_file-lookup os n name disk = ground (arith, lookup-delete n name disk, ==_iff n name)

remove_logs-lookup :
    (os : Os) (hs : List Handle) (disk : Disk) (name : List ℕ)
    → lookup name (remove_logs os hs disk)
      ≡ (if os.remove name && is_log_of hs name then none else lookup name disk)
unfolding remove_logs remove_file
remove_logs-lookup os [] disk name = ground arith
remove_logs-lookup os (h ∷ hs) disk name =
    remove_logs-lookup os hs (remove_file os (log_file_name h) disk) name
    ∙ ground (arith, remove_file-lookup os (log_file_name h) name disk)

-- The marked handles, and no others, move from the written handles to the uploaded ones. The registry
-- with them is saved first; then exactly the log files of the marked handles are gone from the
-- directory, those excepted that cannot be removed.
pub mark_handles_uploaded_lem :
    (os : Os) (now later : ℕ) (hs : List Handle) (d : DurableBuffer) (disk : Disk) (g : Handle)
    (name : List ℕ)
    → (lookup g (mark_handles_uploaded os now later hs d disk).0.uploaded_handles
        ≡ (if contains hs g then some now else lookup g d.uploaded_handles))
      × (lookup g (mark_handles_uploaded os now later hs d disk).0.handles
          ≡ (if contains hs g then none else lookup g d.handles))
      × (lookup name (mark_handles_uploaded os now later hs d disk).1 ≡ (
          if os.remove name && is_log_of hs name
          then none
          else lookup name (
              save_uploaded_handles os later
                (mark_handles_uploaded os now later hs d disk).0
                disk)))
unfolding mark_handles_uploaded
mark_handles_uploaded_lem os now later hs d disk g name =
    (mark_loop-uploaded now hs d g, mark_loop-handles now hs d g, remove_logs-lookup os hs _ name)
