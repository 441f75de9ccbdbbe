-- ===== src/Durable/Retention/Deletes.antt =====
-- Which log files `performLogDeletion` deletes.
use map_reduce_rpc.Prelude.{
  ℕ, ◌+◌, ◌^◌, ◌<◌, ◌≤◌, ◌≡◌, ◌≢◌, ◌⊎◌, ◌++◌, All, if-true, if-false, ap, sym, ==_iff, refl, ◌∙◌,
  arith, Bool, true, false, ◌&&◌, not, Option, none, some, List, [], ◌∷◌, inl, inr, Bool-cases,
  ◌==◌, nat_eq, list_eq,
}
use map_reduce_rpc.Prelude.Assoc.{lookup, store, delete, lookup-delete, lookup-store}
use map_reduce_rpc.Prelude.Words.{sub64, slt64}
use map_reduce_rpc.Durable.Types.{Handle, handle_eq, IsHandle}
use map_reduce_rpc.Durable.Names.{parse_handle, log_file_name, dlog_ext, is_download_log_file}
use map_reduce_rpc.Durable.Names.RoundTrip.{parse_handle-log_file_name}
use map_reduce_rpc.Durable.Names.Suffix.{log_file_stem}
use map_reduce_rpc.Durable.Disk.{Disk, Os, File}
use map_reduce_rpc.Durable.Buffer.{DurableBuffer, is_handle_uploaded}
use map_reduce_rpc.Durable.Registry.{
  save_uploaded_handles, commit_tmp, uploaded_handles_file_name, tmp_name,
}
use map_reduce_rpc.Durable.Retention.{
  is_deletable, forget, deletion_loop, perform_log_deletion, prune_uploaded_handles,
}

-- A file that is not yet due: no uploaded handle, or too young.
unfoldable pub is_kept : Os → ℕ → DurableBuffer → Disk → List ℕ → Bool
is_kept os threshold d [] name = true
is_kept os threshold d ((n, file) ∷ files) name =
    not (n == name && is_deletable os threshold d (n, file)) && is_kept os threshold d files name

forget-not_more :
    (o : Option Handle) (d : DurableBuffer) (h : Handle)
    → is_handle_uploaded h (forget o d) ≡ true
    → is_handle_uploaded h d ≡ true
unfolding is_handle_uploaded
forget-not_more none d h e = e
forget-not_more (some g) d h e = ground (arith, lookup-delete g h d.uploaded_handles)

is_deletable-forget :
    (os : Os) (threshold : ℕ) (o : Option Handle) (d : DurableBuffer) (f : List ℕ × File)
    → is_deletable os threshold (forget o d) f ≡ true
    → is_deletable os threshold d f ≡ true
is_deletable-forget os threshold o d (name, file) e = go (parse_handle name) refl
  where
    go :
        (p : Option Handle)
        → parse_handle name ≡ p
        → is_deletable os threshold d (name, file) ≡ true
    go none q = ground arith
    go (some h) q = ground (arith, forget-not_more o d h)

kept_step :
    (same old old' kept kept' : Bool)
    → (old' ≡ true → old ≡ true)
    → (kept ≡ true → kept' ≡ true)
    → (not (same && old) && kept) ≡ true
    → (not (same && old') && kept') ≡ true
kept_step same old old' kept kept' f g e = ground arith

is_kept-forget :
    (os : Os) (threshold : ℕ) (o : Option Handle) (d : DurableBuffer) (files : Disk) (name : List ℕ)
    → is_kept os threshold d files name ≡ true
    → is_kept os threshold (forget o d) files name ≡ true
unfolding is_kept
is_kept-forget os threshold o d [] name e = refl
is_kept-forget os threshold o d ((n, file) ∷ files) name e =
    kept_step (n == name) (is_deletable os threshold d (n, file))
      (is_deletable os threshold (forget o d) (n, file)) (is_kept os threshold d files name)
      (is_kept os threshold (forget o d) files name)
      (is_deletable-forget os threshold o d (n, file)) (is_kept-forget os threshold o d files name)
      e

-- A pass over the directory leaves a file as it was that is not due.
deletion_loop-is_kept :
    (os : Os) (threshold : ℕ) (files : Disk) (d : DurableBuffer) (disk : Disk) (name : List ℕ)
    → is_kept os threshold d files name ≡ true
    → lookup name (deletion_loop os threshold files d disk).1 ≡ lookup name disk
unfolding deletion_loop is_kept
deletion_loop-is_kept os threshold [] d disk name e = refl
deletion_loop-is_kept os threshold ((n, file) ∷ files) d disk name e =
    elim (Bool-cases (is_deletable os threshold d (n, file) && os.remove n)) [
      | inl removes ↦
          rw (removes, deletion_loop)
            (deletion_loop-is_kept os threshold files _ (delete n disk) name
                (is_kept-forget os threshold (parse_handle n) d files name (ground arith))
              ∙ ground (arith, lookup-delete n name disk))
      | inr stays ↦
          rw (stays, deletion_loop)
            (deletion_loop-is_kept os threshold files d disk name (ground arith))
    ]

-- Why a log file must stay: its name is that of no log file, or that of a handle that is not in the
-- registry of uploaded ones, or it has not reached the age of `d.log_deletion_duration`.
abbrev pub IsProtected : ℕ → DurableBuffer → Disk → List ℕ → Type 0
IsProtected now d disk name =
    ((stem : List ℕ) → name ≢ stem ++ dlog_ext)
    ⊎ ((h : Handle) × IsHandle h × (name ≡ log_file_name h) × (lookup h d.uploaded_handles ≡ none))
    ⊎ All
        (λ f. f.0 ≡ name → (f.1.mod_time < 2 ^ 63) × (now ≤ f.1.mod_time + d.log_deletion_duration))
        disk

not_due :
    (os : Os) (now : ℕ) (d : DurableBuffer) (name : List ℕ) (file : File)
    → now < 2 ^ 63
    → d.log_deletion_duration ≤ now
    → IsProtected now d ((name, file) ∷ []) name
    → is_deletable os (sub64 now d.log_deletion_duration) d (name, file) ≡ false
unfolding is_handle_uploaded
not_due os now d name file small early (inl other) = elim (Bool-cases (is_download_log_file name)) [
  | inl log ↦ let (stem, named) = log_file_stem name log in absurd (other stem named)
  | inr no_log ↦ rw no_log refl
]
not_due os now d name file small early (inr (inl (h, valid, named, absent))) =
    let parsed : parse_handle name ≡ some h =
      ap parse_handle named ∙ parse_handle-log_file_name h valid in
    rw (parsed, absent) (ground arith)
not_due os now d name file small early (inr (inr (young, rest))) =
    let (word, age) = young refl in
    let later : slt64 file.mod_time (sub64 now d.log_deletion_duration) ≡ false =
      ground (arith, small, early, word, age) in
    ground (arith, later)

IsProtected-first :
    (now : ℕ) (d : DurableBuffer) (f : List ℕ × File) (files : Disk) (name : List ℕ)
    → IsProtected now d (f ∷ files) name
    → IsProtected now d (f ∷ []) name × IsProtected now d files name
IsProtected-first now d f files name (inl other) = (inl other, inl other)
IsProtected-first now d f files name (inr (inl pending)) = (inr (inl pending), inr (inl pending))
IsProtected-first now d f files name (inr (inr (here, rest))) =
    (inr (inr (here, tt)), inr (inr rest))

IsProtected-is_kept :
    (os : Os) (now : ℕ) (d : DurableBuffer) (files : Disk) (name : List ℕ)
    → now < 2 ^ 63
    → d.log_deletion_duration ≤ now
    → IsProtected now d files name
    → is_kept os (sub64 now d.log_deletion_duration) d files name ≡ true
unfolding is_kept
IsProtected-is_kept os now d [] name small early h = refl
IsProtected-is_kept os now d ((n, file) ∷ files) name small early h =
    let (here, rest) = IsProtected-first now d (n, file) files name h in
    let kept = IsProtected-is_kept os now d files name small early rest in
    elim (Bool-cases (n == name)) [
      | inr other ↦ rw other kept
      | inl same ↦
          let named : n ≡ name = (==_iff n name).0 same in
          let due : is_deletable os (sub64 now d.log_deletion_duration) d (n, file) ≡ false =
            not_due os now d n file small early (rw (sym named) at here) in
          rw (same, due) kept
    ]

store-other :
    (k : List ℕ) (file : File) (disk : Disk) (name : List ℕ)
    → (k == name) ≡ false
    → lookup name (store k file disk) ≡ lookup name disk
store-other k file disk name other = lookup-store k name file disk ∙ if-false other _

commit_tmp-other :
    (os : Os) (bytes : List ℕ) (disk : Disk) (name : List ℕ)
    → (uploaded_handles_file_name == name) ≡ false
    → (tmp_name == name) ≡ false
    → lookup name (commit_tmp os bytes disk) ≡ lookup name disk
unfolding commit_tmp
commit_tmp-other os bytes disk name no_registry no_tmp =
    let file : File = record { bytes = bytes; mod_time = os.write_time tmp_name } in
    let stays = store-other tmp_name file disk name no_tmp in
    elim (Bool-cases (os.sync tmp_name)) [
      | inr not_synced ↦ rw not_synced stays
      | inl synced ↦ elim (Bool-cases os.rename) [
        | inr not_renamed ↦ rw (synced, not_renamed) stays
        | inl renamed ↦
            rw (synced, renamed)
              (store-other uploaded_handles_file_name file (delete tmp_name disk) name no_registry
                ∙ lookup-delete tmp_name name disk
                ∙ if-false no_tmp _)
      ]
    ]

-- `saveUploadedHandles` touches two files only.
save-other :
    (os : Os) (now : ℕ) (d : DurableBuffer) (disk : Disk) (name : List ℕ)
    → (uploaded_handles_file_name == name) ≡ false
    → (tmp_name == name) ≡ false
    → lookup name (save_uploaded_handles os now d disk) ≡ lookup name disk
unfolding save_uploaded_handles
save-other os now d disk name no_registry no_tmp =
    elim (Bool-cases (os.mkdir_all && os.opens tmp_name)) [
      | inr fails ↦ rw fails refl
      | inl opens ↦ rw opens (commit_tmp-other os _ disk name no_registry no_tmp)
    ]

-- `performLogDeletion` leaves a file of the directory as it was whose name does not end in .dlog, or is
-- the name of a handle that is not in the registry of uploaded ones, or that is younger than the log
-- deletion duration or just as old: whatever calls fail, and although handles are forgotten on the
-- way. The files of the registry itself are not among them. The clock reads at least this duration and
-- less than 2 ^ 63, which is also above the time of modification of a file that is young.
pub perform_log_deletion_safe :
    (os : Os) (now later last : ℕ) (d : DurableBuffer) (disk : Disk) (name : List ℕ)
    → now < 2 ^ 63
    → d.log_deletion_duration ≤ now
    → (uploaded_handles_file_name == name) ≡ false
    → (tmp_name == name) ≡ false
    → IsProtected now d disk name
    → lookup name (perform_log_deletion os now later last d disk).1 ≡ lookup name disk
unfolding perform_log_deletion prune_uploaded_handles
perform_log_deletion_safe os now later last d disk name small early no_registry no_tmp h =
    elim (Bool-cases os.read_dir) [
      | inr not_readable ↦
          ap (λ (r : DurableBuffer × Disk). lookup name r.1) (if-false not_readable _)
      | inl readable ↦
          ap (λ (r : DurableBuffer × Disk). lookup name r.1) (if-true readable _)
          ∙ save-other os last _ _ name no_registry no_tmp
          ∙ deletion_loop-is_kept os (sub64 now d.log_deletion_duration) disk d disk name
              (IsProtected-is_kept os now d disk name small early h)
    ]
