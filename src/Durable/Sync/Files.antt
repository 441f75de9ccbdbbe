-- ===== src/Durable/Sync/Files.antt =====
-- What the two loops of `syncContentsToFile` write.
use map_reduce_rpc.Prelude.{
  ℕ, suc, ◌≡◌, refl, ap, ◌∙◌, sym, arith, Option, none, some, List, [], ◌∷◌, ◌++◌, if◌then◌else◌,
  list_eq, nat_eq, append_assoc, append-nil, ◌==◌, ==_iff, Bool-cases, inl, inr,
}
use map_reduce_rpc.Prelude.Assoc.{Assoc, lookup, store, lookup-store}
use map_reduce_rpc.Utils.MapLaws.{IsMap}
use map_reduce_rpc.Durable.Types.{Content, Error}
use map_reduce_rpc.Durable.Codec.{build_log_content}
use map_reduce_rpc.Durable.Names.{log_file_name}
use map_reduce_rpc.Durable.Disk.{Disk, Os, write_to_file, append_file, file_bytes}
use map_reduce_rpc.Durable.Buffer.{DurableBuffer}
use map_reduce_rpc.Durable.Sync.{or_empty, skips, add_content, file_buffers, write_files}

-- The contents that are written: the handle is valid when they are looked at.
unfoldable pub retained : (ℕ → ℕ) → DurableBuffer → ℕ → List Content → List Content
retained clock d i [] = []
retained clock d i (entry ∷ contents) =
    let rest = retained clock d (suc i) contents in
    if skips (clock i) d entry then rest else entry ∷ rest

-- The records that belong into the file `name`, in order.
unfoldable pub records_of : List ℕ → List Content → List ℕ
records_of name [] = []
records_of name (entry ∷ contents) =
    let rest = records_of name contents in
    if log_file_name entry.id == name then build_log_content entry.id entry ++ rest else rest

or_empty-add_content :
    (name : List ℕ) (entry : Content) (buffers : Assoc (List ℕ) (List ℕ)) (rest : List ℕ)
    → or_empty (lookup name (add_content entry buffers)) ++ rest
      ≡ or_empty (lookup name buffers)
        ++ (if log_file_name entry.id == name
            then build_log_content entry.id entry ++ rest
            else rest)
unfolding add_content
or_empty-add_content name entry buffers rest = elim (Bool-cases (log_file_name entry.id == name)) [
  | inl same ↦
      rw
        (
          lookup-store (log_file_name entry.id) name,
          same,
          ap (λ (n : List ℕ). or_empty (lookup n buffers))
              ((==_iff (log_file_name entry.id) name).0 same),
        )
        (append_assoc (or_empty (lookup name buffers)) (build_log_content entry.id entry) rest)
  | inr other ↦ rw (lookup-store (log_file_name entry.id) name, other) refl
]

-- The buffers hold, for every file, the records of the contents that are retained, in order.
pub file_buffers_lem :
    (clock : ℕ → ℕ) (d : DurableBuffer) (name : List ℕ) (i : ℕ) (contents : List Content)
    (buffers : Assoc (List ℕ) (List ℕ))
    → or_empty (lookup name (file_buffers clock d i contents buffers))
      ≡ or_empty (lookup name buffers) ++ records_of name (retained clock d i contents)
unfolding file_buffers retained records_of
file_buffers_lem clock d name i [] buffers = sym (append-nil _)
file_buffers_lem clock d name i (entry ∷ contents) buffers =
    elim (Bool-cases (skips (clock i) d entry)) [
      | inl skip ↦ rw skip (file_buffers_lem clock d name (suc i) contents buffers)
      | inr keep ↦ rw keep (
          file_buffers_lem clock d name (suc i) contents (add_content entry buffers)
          ∙ or_empty-add_content name entry buffers _)
    ]

IsMap-store : (k v : List ℕ) (m : Assoc (List ℕ) (List ℕ)) → IsMap m → IsMap (store k v m)
unfolding store lookup
IsMap-store k v [] h = (refl, tt)
IsMap-store k v ((j, w) ∷ m) (once, h) = elim (Bool-cases (j == k)) [
  | inl same ↦ rw same (rw (sym ((==_iff j k).0 same)) once, h)
  | inr other ↦
      rw other (ground (arith, lookup-store k j v m, ==_iff j k, ==_iff k j), IsMap-store k v m h)
]

pub file_buffers-IsMap :
    (clock : ℕ → ℕ) (d : DurableBuffer) (i : ℕ) (contents : List Content)
    (buffers : Assoc (List ℕ) (List ℕ))
    → IsMap buffers
    → IsMap (file_buffers clock d i contents buffers)
unfolding file_buffers add_content
file_buffers-IsMap clock d i [] buffers h = h
file_buffers-IsMap clock d i (entry ∷ contents) buffers h =
    elim (Bool-cases (skips (clock i) d entry)) [
      | inl skip ↦ rw skip (file_buffers-IsMap clock d (suc i) contents buffers h)
      | inr keep ↦ rw keep (
          file_buffers-IsMap clock d (suc i) contents (add_content entry buffers)
            (IsMap-store _ _ buffers h))
    ]

append_file-succeeds :
    (os : Os) (name bytes : List ℕ) (disk : Disk) (short : Option ℕ)
    → (append_file os name bytes disk short).1 ≡ none
    → (j : List ℕ)
    → file_bytes j (append_file os name bytes disk short).0
      ≡ (if name == j then file_bytes name disk ++ bytes else file_bytes j disk)
unfolding append_file
append_file-succeeds os name bytes disk none ok j = elim (Bool-cases (name == j)) [
  | inl same ↦ rw (lookup-store name j, same) refl
  | inr other ↦ rw (lookup-store name j, other) refl
]
append_file-succeeds os name bytes disk (some n) ok j = ground arith

write_to_file-succeeds :
    (os : Os) (name bytes : List ℕ) (disk : Disk)
    → (write_to_file os name bytes disk).1 ≡ none
    → (j : List ℕ)
    → file_bytes j (write_to_file os name bytes disk).0
      ≡ (if name == j then file_bytes name disk ++ bytes else file_bytes j disk)
unfolding write_to_file
write_to_file-succeeds os name bytes disk ok j = elim (Bool-cases (os.opens name)) [
  | inl opens ↦
      rw opens (append_file-succeeds os name bytes disk (os.short_write name) (ground arith) j)
  | inr shut ↦ ground arith
]

file_appended :
    (j name bytes : List ℕ) (buffers : Assoc (List ℕ) (List ℕ)) (disk : Disk) (now : List ℕ)
    → lookup j buffers ≡ none
    → now ≡ (if j == name then file_bytes j disk ++ bytes else file_bytes name disk)
    → now ++ or_empty (lookup name buffers)
      ≡ file_bytes name disk ++ or_empty (if j == name then some bytes else lookup name buffers)
file_appended j name bytes buffers disk now once e = elim (Bool-cases (j == name)) [
  | inl same ↦ let eq = (==_iff j name).0 same in rw (e, same, sym eq, once) (append-nil _)
  | inr other ↦ rw (e, other) refl
]

write_files-first :
    (os : Os) (j bytes : List ℕ) (buffers : Assoc (List ℕ) (List ℕ)) (disk : Disk)
    → (write_files os ((j, bytes) ∷ buffers) disk).1 ≡ none
    → ((write_to_file os j bytes disk).1 ≡ none)
      × (write_files os ((j, bytes) ∷ buffers) disk
          ≡ write_files os buffers (write_to_file os j bytes disk).0)
unfolding write_files
write_files-first os j bytes buffers disk ok = go (write_to_file os j bytes disk).1 refl
  where
    go :
        (r : Option Error)
        → (write_to_file os j bytes disk).1 ≡ r
        → ((write_to_file os j bytes disk).1 ≡ none)
          × (write_files os ((j, bytes) ∷ buffers) disk
              ≡ write_files os buffers (write_to_file os j bytes disk).0)
    go none e = (e, rw (e, write_files) refl)
    go (some r) e = ground arith

-- Files that are all written have the bytes of their buffers appended; no other file changes.
pub write_files-succeeds :
    (os : Os) (buffers : Assoc (List ℕ) (List ℕ)) (disk : Disk)
    → IsMap buffers
    → (write_files os buffers disk).1 ≡ none
    → (name : List ℕ)
    → file_bytes name (write_files os buffers disk).0
      ≡ file_bytes name disk ++ or_empty (lookup name buffers)
unfolding lookup
write_files-succeeds os [] disk h ok name = unfold write_files in sym (append-nil _)
write_files-succeeds os ((j, bytes) ∷ buffers) disk (once, h) ok name =
    let (first, same) = write_files-first os j bytes buffers disk ok in
    ap (λ (r : Disk × Option Error). file_bytes name r.0) same
    ∙ write_files-succeeds os buffers (write_to_file os j bytes disk).0 h
        (ap (λ (r : Disk × Option Error). r.1) (sym same) ∙ ok) name
    ∙ file_appended j name bytes buffers disk _ once
        (write_to_file-succeeds os j bytes disk first name)
