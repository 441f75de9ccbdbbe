-- ===== src/Durable/Recovery.antt =====
-- `Replay` of mrp/durable_buffer.go and the recovery at the start of `monitor`.
pub mod Replayed
pub mod Recovered
pub mod InOrder
use map_reduce_rpc.Prelude.{
  ℕ, zero, suc, ◌+◌, Bool, true, false, ◌||◌, ◌&&◌, not, Option, none, some, List, [], ◌∷◌, ◌++◌,
  eqb, ltb, leb, length, if◌then◌else◌, list_eq, nat_eq,
}
use map_reduce_rpc.Prelude.Words.{add64}
use map_reduce_rpc.Prelude.Assoc.{Assoc, lookup, store}
use map_reduce_rpc.Prelude.TextOrder.{text_less}
use map_reduce_rpc.RingBuffer.{RingBuffer, push}
use map_reduce_rpc.Durable.Types.{Handle, Content, handle_eq}
use map_reduce_rpc.Durable.Codec.{read_records}
use map_reduce_rpc.Durable.Names.{is_download_log_file}
use map_reduce_rpc.Durable.Disk.{Disk, Os, File}
use map_reduce_rpc.Durable.Buffer.{DurableBuffer, is_handle_uploaded}
use map_reduce_rpc.Durable.Write.{note_entry}

unfoldable pub insert_file : List ℕ × File → Disk → Disk
insert_file f [] = f ∷ []
insert_file f (g ∷ files) =
    let rest = insert_file f files in if text_less g.0 f.0 then g ∷ rest else f ∷ g ∷ files

-- `sort.Slice` by name; names in a directory differ.
unfoldable pub sort_files : Disk → Disk
sort_files [] = []
sort_files (f ∷ files) = insert_file f (sort_files files)

-- Which files `Replay` reads: the others are skipped by a `continue`.
abbrev pub is_replayed : Os → List ℕ × File → Bool
is_replayed os (name, file) =
    is_download_log_file name && os.info name && not (eqb (length file.bytes) 0) && os.opens name

-- The flag of a visit is false when the visitor has answered false, which ends `Replay`.
abbrev pub unless_stopped {ℓ} : {S : Type ℓ} → S × Bool → (S → S × Bool) → S × Bool
unless_stopped (s, true) next = next s
unless_stopped (s, false) next = (s, false)

module _ {S : Type 0} (visitor : Content → S → S × Bool) where
  -- The inner loop, on the records of a file.
  unfoldable pub visit_records : DurableBuffer → List Content → S → S × Bool
  visit_records d [] s = (s, true)
  visit_records d (content ∷ contents) s =
      if is_handle_uploaded content.id d
      then visit_records d contents s
      else unless_stopped (visitor content s) (λ s'. visit_records d contents s')

  unfoldable pub visit_files : Os → DurableBuffer → Disk → S → S × Bool
  visit_files os d [] s = (s, true)
  visit_files os d (f ∷ files) s =
      if is_replayed os f
      then unless_stopped (visit_records d (read_records f.1.bytes) s)
          (λ s'. visit_files os d files s')
      else visit_files os d files s

  -- `Replay`; when the directory cannot be read there is no file.
  unfoldable pub replay : Os → DurableBuffer → Disk → S → S
  replay os d disk s = (visit_files os d (sort_files (if os.read_dir then disk else [])) s).0

-- The loop that moves the handle counter behind a handle that is found.
abbrev pub bump_next_handle : ℕ → ℕ → ℕ
bump_next_handle id next = if leb next id then add64 id 1 else next

-- The push with its retries: the ring does not change in between when nothing else runs.
unfoldable pub push_retries : ℕ → Content → RingBuffer Content → Option (RingBuffer Content)
push_retries zero content log = elim (push content log) [
  | none ↦ none
  | some (log', ok) ↦ some log'
]
push_retries (suc n) content log = elim (push content log) [
  | none ↦ none
  | some (log', true) ↦ some log'
  | some (log', false) ↦ push_retries n content log'
]

-- The visitor of `monitor`, which always goes on. `none`: a call of the ring did not return.
unfoldable pub recover_content : Content → Option DurableBuffer → Option DurableBuffer × Bool
recover_content content none = (none, true)
recover_content content (some d) = elim (push_retries 100 content d.log) [
  | none ↦ (none, true)
  | some log ↦ (
    some (record d {
      next_handle = bump_next_handle content.id.id d.next_handle;
      log = log;
      handles = note_entry content d.handles;
    }),
    true,
  )
]

abbrev end_recovery : Option DurableBuffer → Option DurableBuffer
end_recovery none = none
end_recovery (some d) = some (record d { in_recovery = false })

-- The part of `monitor` before its loop.
unfoldable pub recover : Os → Disk → DurableBuffer → Option DurableBuffer
recover os disk d =
    if d.recovery_mode
    then end_recovery (replay recover_content os d disk (some (record d { in_recovery = true })))
    else some d
