-- ===== src/Uploader.antt =====
-- cmd/uploader/main.go: which files of a folder are uploaded, and how one is sent to the coordinator.
pub mod Sends
pub mod Arrives
use map_reduce_rpc.Prelude.{
  ℕ, zero, suc, ◌+◌, Bool, true, false, not, Option, none, some, List, [], ◌∷◌, ◌++◌, length, eqb,
  if◌then◌else◌, list_beq, nat_eq,
}
use map_reduce_rpc.Prelude.Words.{slt64}
use map_reduce_rpc.Prelude.Text.{codes}
use map_reduce_rpc.Prelude.Trim.{trim_space}
use map_reduce_rpc.Prelude.Paths.{join_path}
use map_reduce_rpc.Durable.Types.{Handle}
use map_reduce_rpc.Durable.Buffer.{DurableBuffer}
use map_reduce_rpc.Rpc.{DownloadRequest, DownloadReply}
use map_reduce_rpc.Plugins.{sort_strings}
use map_reduce_rpc.Coordinator.Calls.{generate_download_handle, forward_download}

-- What stands in a folder under a name. `unreadable` is a folder whose entries cannot be read.
mutual
  pub data Tree : Type 0 where
    leaf : Tree
    folder : Forest → Tree
    unreadable : Tree

  pub data Forest : Type 0 where
    nothing : Forest
    entry : List ℕ → Tree → Forest → Forest

abbrev pub both : Option (List (List ℕ)) → Option (List (List ℕ)) → Option (List (List ℕ))
both none more = none
both (some files) none = none
both (some files) (some more) = some (files ++ more)

-- `filepath.WalkDir` with the function of `collectFiles`: the first error ends it.
unfoldable mutual
  pub walk_tree : List ℕ → Tree → Option (List (List ℕ))
  walk_tree path leaf = some (path ∷ [])
  walk_tree path (folder entries) = walk_forest path entries
  walk_tree path unreadable = none

  pub walk_forest : List ℕ → Forest → Option (List (List ℕ))
  walk_forest path nothing = some []
  walk_forest path (entry name tree entries) =
      both (walk_tree (join_path (path ∷ name ∷ [])) tree) (walk_forest path entries)

-- The loop over the entries of the folder itself.
unfoldable pub own_files : List ℕ → Forest → List (List ℕ)
own_files root nothing = []
own_files root (entry name leaf entries) = join_path (root ∷ name ∷ []) ∷ own_files root entries
own_files root (entry name (folder inner) entries) = own_files root entries
own_files root (entry name unreadable entries) = own_files root entries

abbrev sorted : Option (List (List ℕ)) → Option (List (List ℕ))
sorted none = none
sorted (some files) = some (sort_strings files)

-- `collectFiles` on what stands at the root.
unfoldable pub collect_files : List ℕ → Bool → Tree → Option (List (List ℕ))
collect_files root true tree = sorted (walk_tree root tree)
collect_files root false leaf = none
collect_files root false (folder entries) = some (sort_strings (own_files root entries))
collect_files root false unreadable = none

-- The answers of `Read` on a file: some bytes, the last ones with `io.EOF`, or another error.
pub data FileRead : Type 0 where
  read_bytes read_eof : List ℕ → FileRead
  read_error : FileRead

-- How an upload ends; `unfinished`: there is no further answer of `Read`.
pub data UploadEnd : Type 0 where
  uploaded open_failed handle_failed read_failed forward_failed rejected unfinished : UploadEnd

abbrev pub download_request : Handle → List ℕ → Bool → DownloadRequest
download_request handle bytes eof = record { handle = handle; bytes = bytes; eof = eof }

abbrev pub success : DownloadReply → Bool
success reply = list_beq reply.status (codes "success")

-- The loop of `uploadFile`. `clock i` is the time at which the coordinator gets the `i`-th request, and
-- `arrives i` whether the call has no error. `none`: a call of the coordinator's ring did not return.
unfoldable pub upload_loop :
    (ℕ → ℕ)
    → (ℕ → Bool)
    → ℕ
    → Handle
    → List FileRead
    → DurableBuffer
    → Option (DurableBuffer × UploadEnd)
upload_loop clock arrives i handle [] d = some (d, unfinished)
upload_loop clock arrives i handle (read_error ∷ reads) d = some (d, read_failed)
upload_loop clock arrives i handle (read_bytes [] ∷ reads) d =
    upload_loop clock arrives i handle reads d
upload_loop clock arrives i handle (read_bytes (b ∷ bytes) ∷ reads) d =
    if arrives i
    then elim (forward_download (clock i) (download_request handle (b ∷ bytes) false) d) [
      | none ↦ none
      | some (d', reply) ↦
          let rest = upload_loop clock arrives (suc i) handle reads d' in
          if success reply then rest else some (d', rejected)
    ]
    else some (d, forward_failed)
upload_loop clock arrives i handle (read_eof bytes ∷ reads) d =
    if arrives i
    then elim (forward_download (clock i) (download_request handle bytes true) d) [
      | none ↦ none
      | some (d', reply) ↦ some (d', if success reply then uploaded else rejected)
    ]
    else some (d, forward_failed)

-- `uploadFile`; the first call, at the time `now`, generates the handle and always has the status
-- "success".
unfoldable pub upload_file :
    Bool
    → Bool
    → ℕ
    → (ℕ → ℕ)
    → (ℕ → Bool)
    → List FileRead
    → DurableBuffer
    → Option (DurableBuffer × UploadEnd)
upload_file opens generates now clock arrives reads d =
    if not opens
    then some (d, open_failed)
    else if not generates
    then some (d, handle_failed)
    else (let (d', handle) = generate_download_handle now d in
        upload_loop clock arrives 0 handle reads d')

-- The loop of `main`: an upload with an error is counted out, and the next one begins.
pub record Upload : Type 0 where
  pub opens : Bool
  pub generates : Bool
  pub now : ℕ
  pub clock : ℕ → ℕ
  pub arrives : ℕ → Bool
  pub reads : List FileRead

abbrev pub is_uploaded : UploadEnd → Bool
is_uploaded uploaded = true
is_uploaded _ = false

unfoldable pub upload_all : List Upload → DurableBuffer → Option (DurableBuffer × ℕ)
upload_all [] d = some (d, 0)
upload_all (u ∷ us) d = elim (upload_file u.opens u.generates u.now u.clock u.arrives u.reads d) [
  | none ↦ none
  | some (d', ended) ↦ elim (upload_all us d') [
    | none ↦ none
    | some (d'', n) ↦ some (d'', if is_uploaded ended then suc n else n)
  ]
]

-- The checks of `main` before it collects the files.
pub data Refused : Type 0 where
  folder_is_required chunk_size_not_positive stat_failed not_a_folder : Refused

unfoldable pub check_arguments : List ℕ → ℕ → Option Tree → Option Refused
check_arguments folder_name chunk_size none =
    if eqb (length (trim_space folder_name)) 0
    then some folder_is_required
    else if not (slt64 0 chunk_size)
    then some chunk_size_not_positive
    else some stat_failed
check_arguments folder_name chunk_size (some leaf) =
    if eqb (length (trim_space folder_name)) 0
    then some folder_is_required
    else if not (slt64 0 chunk_size)
    then some chunk_size_not_positive
    else some not_a_folder
check_arguments folder_name chunk_size (some tree) =
    if eqb (length (trim_space folder_name)) 0
    then some folder_is_required
    else if not (slt64 0 chunk_size)
    then some chunk_size_not_positive
    else none
