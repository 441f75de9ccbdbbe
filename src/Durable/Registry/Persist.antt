-- ===== src/Durable/Registry/Persist.antt =====
-- The file of uploaded handles: what is saved is loaded again.
use map_reduce_rpc.Prelude.{
  ℕ, zero, suc, ◌≡◌, ◌<◌, ◌≤◌, ◌^◌, refl, ap, ap2, ◌∙◌, arith, true, false, ◌&&◌, ◌⊎◌, Option, none,
  some, List, [], ◌∷◌, ◌++◌, if◌then◌else◌, All, ==_iff, Bool-cases, inl, inr, nat_eq, list_eq,
  length, length-append,
}
use map_reduce_rpc.Prelude.Assoc.{Assoc, lookup, store, lookup-store, delete}
use map_reduce_rpc.Utils.MapLaws.{IsMap, or_else}
use map_reduce_rpc.Durable.Types.{Handle, handle_eq, IsHandle}
use map_reduce_rpc.Durable.Codec.{le_bytes, read_number, read_bytes, Read}
use map_reduce_rpc.Durable.Codec.RoundTrip.{length-le_bytes, read_number-append}
use map_reduce_rpc.Durable.Disk.{Disk, Os, File}
use map_reduce_rpc.Durable.Buffer.{DurableBuffer, older_than, kept_young}
use map_reduce_rpc.Durable.Registry.{
  registry_bytes, read_entry, load_loop, load_uploaded_handles, save_uploaded_handles, commit_tmp,
  uploaded_handles_file_name, tmp_name, load_file,
}

abbrev pub IsEntry : Handle × ℕ → Type 0
IsEntry (h, t) = IsHandle h × (t < 2 ^ 64)

or_else-nothing : (h : Handle) (o : Option ℕ) → or_else o (lookup h []) ≡ o
unfolding lookup
or_else-nothing h none = refl
or_else-nothing h (some t) = refl

read_entry-append :
    (h : Handle) (t : ℕ) (rest : List ℕ)
    → IsHandle h
    → t < 2 ^ 64
    → read_entry (le_bytes 8 h.id ++ (le_bytes 8 h.time_stamp ++ (le_bytes 8 t ++ rest)))
      ≡ Read.got (h, t) rest
read_entry-append h t rest (id, stamp) small =
    rw
      (
        read_number-append 8 h.id _ id,
        read_number-append 8 h.time_stamp _ stamp,
        read_number-append 8 t rest small,
      )
      refl

length-registry_bytes : (m : Assoc Handle ℕ) → length m ≤ length (registry_bytes m)
unfolding registry_bytes
length-registry_bytes [] = omega arith
length-registry_bytes ((h, t) ∷ m) =
    let later = le_bytes 8 t ++ registry_bytes m in
    omega (
      arith,
      length-append (le_bytes 8 h.id) (le_bytes 8 h.time_stamp ++ later),
      length-append (le_bytes 8 h.time_stamp) later,
      length-append (le_bytes 8 t) (registry_bytes m),
      length-le_bytes 8 t,
      length-registry_bytes m,
    )

lookup-kept_young-none :
    (k : Handle) (now ttl : ℕ) (m : Assoc Handle ℕ)
    → lookup k m ≡ none
    → lookup k (kept_young now ttl m) ≡ none
unfolding lookup
lookup-kept_young-none k now ttl [] e = refl
lookup-kept_young-none k now ttl ((j, t) ∷ m) e = ground (arith, lookup-kept_young-none k now ttl m)

kept_young-IsMap : (now ttl : ℕ) (m : Assoc Handle ℕ) → IsMap m → IsMap (kept_young now ttl m)
kept_young-IsMap now ttl [] h = tt
kept_young-IsMap now ttl ((j, t) ∷ m) (once, h) = elim (Bool-cases (older_than now t ttl)) [
  | inl old ↦ rw old (kept_young-IsMap now ttl m h)
  | inr young ↦ rw young (lookup-kept_young-none j now ttl m once, kept_young-IsMap now ttl m h)
]

load_loop-registry_bytes :
    (k : Handle) (fuel now ttl : ℕ) (m uploaded : Assoc Handle ℕ)
    → IsMap m
    → All IsEntry m
    → length m ≤ fuel
    → lookup k (load_loop fuel now ttl (registry_bytes m) uploaded)
      ≡ or_else (lookup k (kept_young now ttl m)) (lookup k uploaded)
unfolding registry_bytes load_loop lookup
load_loop-registry_bytes k zero now ttl [] uploaded once valid enough = refl
load_loop-registry_bytes k (suc fuel) now ttl [] uploaded once valid enough =
    unfold read_number read_bytes in refl
load_loop-registry_bytes k zero now ttl (e ∷ m) uploaded once valid enough = absurd (omega arith)
load_loop-registry_bytes k (suc fuel) now ttl ((j, t) ∷ m) uploaded (once, h) ((hj, ht), valid)
      enough =
    rw (read_entry-append j t (registry_bytes m) hj ht, load_loop)
      (load_loop-registry_bytes k fuel now ttl m _ h valid (omega arith) ∙ stored_first)
  where
    stored_first :
        or_else
          (lookup k (kept_young now ttl m))
          (lookup k (if older_than now t ttl then uploaded else store j t uploaded))
        ≡ or_else (lookup k (kept_young now ttl ((j, t) ∷ m))) (lookup k uploaded)
    stored_first =
        ground
          (arith, lookup-store j k t uploaded, ==_iff j k, lookup-kept_young-none j now ttl m once)

kept_young-IsEntry :
    (now ttl : ℕ) (m : Assoc Handle ℕ) → All IsEntry m → All IsEntry (kept_young now ttl m)
kept_young-IsEntry now ttl [] h = tt
kept_young-IsEntry now ttl ((j, t) ∷ m) (here, rest) = elim (Bool-cases (older_than now t ttl)) [
  | inl old ↦ rw old (kept_young-IsEntry now ttl m rest)
  | inr young ↦ rw young (here, kept_young-IsEntry now ttl m rest)
]

commit_tmp-commits :
    (os : Os) (bytes : List ℕ) (disk : Disk)
    → os.sync tmp_name ≡ true
    → os.rename ≡ true
    → lookup uploaded_handles_file_name (commit_tmp os bytes disk)
      ≡ some (record { bytes = bytes; mod_time = os.write_time tmp_name })
unfolding commit_tmp
commit_tmp-commits os bytes disk synced renamed =
    let file : File = record { bytes = bytes; mod_time = os.write_time tmp_name } in
    rw (synced, renamed)
      (lookup-store uploaded_handles_file_name uploaded_handles_file_name file
        (delete tmp_name disk))

commit_tmp-keeps :
    (os : Os) (bytes : List ℕ) (disk : Disk)
    → (os.sync tmp_name && os.rename) ≡ false
    → lookup uploaded_handles_file_name (commit_tmp os bytes disk)
      ≡ lookup uploaded_handles_file_name disk
unfolding commit_tmp
commit_tmp-keeps os bytes disk fails =
    let file : File = record { bytes = bytes; mod_time = os.write_time tmp_name } in
    let other = lookup-store tmp_name uploaded_handles_file_name file disk in
    elim (Bool-cases (os.sync tmp_name)) [
      | inl synced ↦ elim (Bool-cases os.rename) [
        | inl renamed ↦ ground (arith, synced, renamed, fails)
        | inr not_renamed ↦ rw (synced, not_renamed) other
      ]
      | inr not_synced ↦ rw not_synced other
    ]

save_uploaded_handles-commit_tmp :
    (os : Os) (now : ℕ) (d : DurableBuffer) (disk : Disk)
    → os.short_write tmp_name ≡ none
    → (os.mkdir_all && os.opens tmp_name) ≡ true
    → save_uploaded_handles os now d disk
      ≡ commit_tmp os
          (registry_bytes (kept_young now d.uploaded_handle_ttl d.uploaded_handles))
          disk
unfolding save_uploaded_handles
save_uploaded_handles-commit_tmp os now d disk whole opened = rw (opened, whole) refl

-- `saveUploadedHandles` commits whole files: whatever call of the file system fails, the file
-- uploaded_handles.dat stays as it was or holds every entry that has not outlived its TTL. The errors
-- of `binary.Write` are excepted.
pub save_uploaded_handles_atomic :
    (os : Os) (now : ℕ) (d : DurableBuffer) (disk : Disk)
    → os.short_write tmp_name ≡ none
    → (lookup uploaded_handles_file_name (save_uploaded_handles os now d disk)
        ≡ lookup uploaded_handles_file_name disk)
      ⊎ (lookup uploaded_handles_file_name (save_uploaded_handles os now d disk)
          ≡ some (record {
            bytes = registry_bytes (kept_young now d.uploaded_handle_ttl d.uploaded_handles);
            mod_time = os.write_time tmp_name;
          }))
unfolding save_uploaded_handles
save_uploaded_handles_atomic os now d disk whole =
    elim (Bool-cases (os.mkdir_all && os.opens tmp_name)) [
      | inr fails ↦ inl (rw (fails, save_uploaded_handles) refl)
      | inl opened ↦ elim (Bool-cases (os.sync tmp_name && os.rename)) [
        | inl commits ↦ inr (
            ap (lookup uploaded_handles_file_name)
              (save_uploaded_handles-commit_tmp os now d disk whole opened)
            ∙ commit_tmp-commits os _ disk (ground arith) (ground arith))
        | inr fails ↦ inl (
            ap (lookup uploaded_handles_file_name)
              (save_uploaded_handles-commit_tmp os now d disk whole opened)
            ∙ commit_tmp-keeps os _ disk fails)
      ]
    ]

load_uploaded_handles-some :
    (os : Os) (now : ℕ) (d : DurableBuffer) (disk : Disk) (file : File)
    → os.opens uploaded_handles_file_name ≡ true
    → lookup uploaded_handles_file_name disk ≡ some file
    → load_uploaded_handles os now disk d ≡ load_file now (some file) d
unfolding load_uploaded_handles
load_uploaded_handles-some os now d disk file opens found =
    rw (opens, load_uploaded_handles) (ap (λ (o : Option File). load_file now o d) found)

-- What is saved is loaded: a buffer with the same TTL that starts after a successful save knows exactly
-- the uploaded handles that were young enough at the save and still are at the load.
pub load_save_uploaded_handles :
    (os os' : Os) (now later : ℕ) (d fresh : DurableBuffer) (disk : Disk)
    → os.short_write tmp_name ≡ none
    → (os.mkdir_all && os.opens tmp_name) ≡ true
    → (os.sync tmp_name && os.rename) ≡ true
    → os'.opens uploaded_handles_file_name ≡ true
    → fresh.uploaded_handles ≡ []
    → fresh.uploaded_handle_ttl ≡ d.uploaded_handle_ttl
    → IsMap d.uploaded_handles
    → All IsEntry d.uploaded_handles
    → (h : Handle)
    → lookup h
        (load_uploaded_handles os' later
          (save_uploaded_handles os now d disk)
          fresh).uploaded_handles
      ≡ lookup h (
          kept_young later d.uploaded_handle_ttl
            (kept_young now d.uploaded_handle_ttl d.uploaded_handles))
load_save_uploaded_handles os os' now later d fresh disk whole made commits opens empty same once
      valid h =
    let young = kept_young now d.uploaded_handle_ttl d.uploaded_handles in
    let bytes = registry_bytes young in
    let found =
      ap (lookup uploaded_handles_file_name)
        (save_uploaded_handles-commit_tmp os now d disk whole made)
      ∙ commit_tmp-commits os bytes disk (ground arith) (ground arith) in
    ap (λ (b : DurableBuffer). lookup h b.uploaded_handles)
      (load_uploaded_handles-some os' later fresh (save_uploaded_handles os now d disk) _ opens
        found)
    ∙ ap2 (λ (ttl : ℕ) (m : Assoc Handle ℕ). lookup h (load_loop (length bytes) later ttl bytes m))
        same empty
    ∙ load_loop-registry_bytes h (length bytes) later d.uploaded_handle_ttl young []
        (kept_young-IsMap now d.uploaded_handle_ttl d.uploaded_handles once)
        (kept_young-IsEntry now d.uploaded_handle_ttl d.uploaded_handles valid)
        (length-registry_bytes young)
    ∙ or_else-nothing h _
