-- ===== src/Durable/Sync/Refine.antt =====
-- What `Flush` does to the ring and to the files.
use map_reduce_rpc.Prelude.{
  ℕ, zero, suc, ◌^◌, ◌≤◌, ◌≡◌, refl, ap, ◌∙◌, sym, arith, false, Option, none, some, List, [], ◌∷◌,
  ◌++◌, if◌then◌else◌, list_eq, nat_eq, append_assoc, append-nil, ◌==◌, Bool-cases, inl, inr, All,
  All-append, length, take, drop,
}
use map_reduce_rpc.Prelude.Assoc.{Assoc, lookup}
use map_reduce_rpc.Utils.MapLaws.{IsMap}
use map_reduce_rpc.RingBuffer.{RingBuffer, cap, drain}
use map_reduce_rpc.RingBuffer.Calls.{IsQueue, drain_refines}
use map_reduce_rpc.Durable.Types.{Content, Error, mkdir_failed, IsContent}
use map_reduce_rpc.Durable.Codec.{build_log_content, read_records}
use map_reduce_rpc.Durable.Codec.Torn.{encode_all}
use map_reduce_rpc.Durable.Codec.Whole.{read_records-All}
use map_reduce_rpc.Durable.Names.{log_file_name}
use map_reduce_rpc.Durable.Disk.{Disk, Os, file_bytes}
use map_reduce_rpc.Durable.Buffer.{DurableBuffer}
use map_reduce_rpc.Durable.Sync.{
  or_empty, skips, file_buffers, write_files, sync_contents_to_file, flush, sync_snapshot,
}
use map_reduce_rpc.Durable.Sync.Files.{
  retained, records_of, file_buffers_lem, file_buffers-IsMap, write_files-succeeds,
}

-- `range` visits every entry of a map once.
pub record IsRange (os : Os) : Type 0 where
  pub once : (m : Assoc (List ℕ) (List ℕ)) → IsMap m → IsMap (os.range m)
  pub same :
      (m : Assoc (List ℕ) (List ℕ)) (k : List ℕ) → IsMap m → lookup k (os.range m) ≡ lookup k m

take_all : {A : Type 0} (n : ℕ) (xs : List A) → length xs ≤ n → (take n xs ≡ xs) × (drop n xs ≡ [])
take_all zero [] h = (refl, refl)
take_all zero (x ∷ xs) h = absurd (omega arith)
take_all (suc n) [] h = (refl, refl)
take_all (suc n) (x ∷ xs) h = let (t, d) = take_all n xs (omega arith) in (ap (◌∷◌ x) t, d)

drain_all :
    {rb : RingBuffer Content} {k : ℕ} (q : List Content)
    → IsQueue rb k q
    → (log : RingBuffer Content) × (drain (cap rb) rb ≡ some (log, q)) × IsQueue log k []
drain_all {rb} {k} q h =
    let (all, gone) = take_all (2 ^ k) q h.holds.fits in
    let (log, drains, after) = drain_refines (2 ^ k) q h in
    (
      log,
      ap (λ (n : ℕ). drain n rb) h.holds.capacity
          ∙ drains
          ∙ ap (λ (l : List Content). some (log, l)) all,
      rw (sym gone) after,
    )

flush-snapshot :
    (os : Os) (d : DurableBuffer) (disk : Disk) (k : ℕ) (q : List Content)
    → IsQueue d.log k q
    → (log : RingBuffer Content) × IsQueue log k []
      × (flush os d disk ≡ some (sync_snapshot os d log q disk))
unfolding flush
flush-snapshot os d disk k q h =
    let (log, drains, after) = drain_all q h in (log, after, rw (drains, flush) refl)

-- `Flush` always returns and always empties the ring, whatever the file system does.
pub flush_empties :
    (os : Os) (d : DurableBuffer) (disk : Disk) (k : ℕ) (q : List Content)
    → IsQueue d.log k q
    → (log : RingBuffer Content) × (disk' : Disk) × (err : Option Error) × IsQueue log k []
      × (flush os d disk ≡ some (record d { log = log }, disk', err))
flush_empties os d disk k [] h =
    let (log, after, e) = flush-snapshot os d disk k [] h in (log, disk, none, after, e)
flush_empties os d disk k (c ∷ q) h =
    let (log, after, e) = flush-snapshot os d disk k (c ∷ q) h in
    (
      log,
      (sync_contents_to_file os d (c ∷ q) disk).0,
      (sync_contents_to_file os d (c ∷ q) disk).1,
      after,
      e,
    )

sync_contents_to_file-made :
    (os : Os) (d : DurableBuffer) (contents : List Content) (disk : Disk)
    → (sync_contents_to_file os d contents disk).1 ≡ none
    → (sync_contents_to_file os d contents disk
        ≡ write_files os (os.range (file_buffers os.clock d 0 contents [])) disk)
      × ((write_files os (os.range (file_buffers os.clock d 0 contents [])) disk).1 ≡ none)
unfolding sync_contents_to_file
sync_contents_to_file-made os d contents disk ok = ground arith

sync_contents_to_file-succeeds :
    (os : Os) (d : DurableBuffer) (contents : List Content) (disk : Disk)
    → IsRange os
    → (sync_contents_to_file os d contents disk).1 ≡ none
    → (name : List ℕ)
    → file_bytes name (sync_contents_to_file os d contents disk).0
      ≡ file_bytes name disk ++ records_of name (retained os.clock d 0 contents)
unfolding lookup
sync_contents_to_file-succeeds os d contents disk range ok name =
    let buffers : Assoc (List ℕ) (List ℕ) = file_buffers os.clock d 0 contents [] in
    let unique = file_buffers-IsMap os.clock d 0 contents [] tt in
    let (same, written) = sync_contents_to_file-made os d contents disk ok in
    ap (λ (r : Disk × Option Error). file_bytes name r.0) same
    ∙ write_files-succeeds os (os.range buffers) disk (range.once buffers unique) written name
    ∙ ap (λ (o : Option (List ℕ)). file_bytes name disk ++ or_empty o)
        (range.same buffers name unique)
    ∙ ap (◌++◌ (file_bytes name disk)) (file_buffers_lem os.clock d name 0 contents [])

-- After a `Flush` without an error, every file of the directory has the records of its contents
-- appended, in the order in which they were written. Left out are the contents whose handle had
-- expired when they were looked at.
pub flush_appends :
    (os : Os) (d : DurableBuffer) (disk : Disk) (k : ℕ) (q : List Content)
    → IsQueue d.log k q
    → IsRange os
    → (d' : DurableBuffer) (disk' : Disk) → flush os d disk ≡ some (d', disk', none)
    → (name : List ℕ)
    → file_bytes name disk' ≡ file_bytes name disk ++ records_of name (retained os.clock d 0 q)
unfolding retained records_of
flush_appends os d disk k [] h range d' disk' e name =
    let (log, after, same) = flush-snapshot os d disk k [] h in
    ground (arith, append-nil (file_bytes name disk))
flush_appends os d disk k (c ∷ q) h range d' disk' e name =
    let (log, after, same) = flush-snapshot os d disk k (c ∷ q) h in
    let ok : (sync_contents_to_file os d (c ∷ q) disk).1 ≡ none = ground arith in
    let left : disk' ≡ (sync_contents_to_file os d (c ∷ q) disk).0 = ground arith in
    ap (file_bytes name) left ∙ sync_contents_to_file-succeeds os d (c ∷ q) disk range ok name

-- The contents of the file `name`.
unfoldable pub contents_for : List ℕ → List Content → List Content
contents_for name [] = []
contents_for name (entry ∷ contents) =
    let rest = contents_for name contents in
    if log_file_name entry.id == name then entry ∷ rest else rest

pub records_of-contents_for :
    (name : List ℕ) (cs : List Content) → records_of name cs ≡ encode_all (contents_for name cs)
unfolding records_of contents_for
records_of-contents_for name [] = refl
records_of-contents_for name (c ∷ cs) = ground (arith, records_of-contents_for name cs)

contents_for-All :
    (P : Content → Type 0) (name : List ℕ) (cs : List Content)
    → All P cs
    → All P (contents_for name cs)
unfolding contents_for
contents_for-All P name [] h = tt
contents_for-All P name (c ∷ cs) (here, rest) = elim (Bool-cases (log_file_name c.id == name)) [
  | inl same ↦ rw same (here, contents_for-All P name cs rest)
  | inr other ↦ rw other (contents_for-All P name cs rest)
]

retained-All :
    (P : Content → Type 0) (clock : ℕ → ℕ) (d : DurableBuffer) (i : ℕ) (cs : List Content)
    → All P cs
    → All P (retained clock d i cs)
unfolding retained
retained-All P clock d i [] h = tt
retained-All P clock d i (c ∷ cs) (here, rest) = elim (Bool-cases (skips (clock i) d c)) [
  | inl skip ↦ rw skip (retained-All P clock d (suc i) cs rest)
  | inr keep ↦ rw keep (here, retained-All P clock d (suc i) cs rest)
]

encode_all-append : (cs ds : List Content) → encode_all (cs ++ ds) ≡ encode_all cs ++ encode_all ds
encode_all-append [] ds = refl
encode_all-append (c ∷ cs) ds =
    ap (◌++◌ (build_log_content c.id c)) (encode_all-append cs ds)
    ∙ sym (append_assoc (build_log_content c.id c) (encode_all cs) (encode_all ds))

-- What is flushed is what is replayed: a file of complete records, after a `Flush` without an error, is
-- read as its old contents followed by those that were flushed for it.
pub flush-read_records :
    (os : Os) (d : DurableBuffer) (disk : Disk) (k : ℕ) (q : List Content)
    → IsQueue d.log k q
    → IsRange os
    → All IsContent q
    → (d' : DurableBuffer) (disk' : Disk) → flush os d disk ≡ some (d', disk', none)
    → (name : List ℕ) (old : List Content) → All IsContent old
    → file_bytes name disk ≡ encode_all old
    → read_records (file_bytes name disk') ≡ old ++ contents_for name (retained os.clock d 0 q)
flush-read_records os d disk k q h range valid d' disk' e name old valid_old before =
    let new = contents_for name (retained os.clock d 0 q) in
    ap read_records (
      flush_appends os d disk k q h range d' disk' e name
      ∙ ap (λ (l : List ℕ). l ++ records_of name (retained os.clock d 0 q)) before
      ∙ ap (◌++◌ (encode_all old)) (records_of-contents_for name (retained os.clock d 0 q))
      ∙ sym (encode_all-append old new))
    ∙ read_records-All (old ++ new) (
        All-append IsContent old new valid_old
          (contents_for-All IsContent name _ (retained-All IsContent os.clock d 0 q valid)))

-- When the directory cannot be made, `Flush` reports the error, writes nothing, and yet what it took
-- from the ring is gone.
pub flush_loses :
    (os : Os) (d : DurableBuffer) (disk : Disk) (k : ℕ) (c : Content) (q : List Content)
    → IsQueue d.log k (c ∷ q)
    → os.mkdir_all ≡ false
    → (log : RingBuffer Content) × IsQueue log k []
      × (flush os d disk ≡ some (record d { log = log }, disk, some mkdir_failed))
flush_loses os d disk k c q h fails =
    let (log, after, e) = flush-snapshot os d disk k (c ∷ q) h in
    (log, after, e ∙ (unfold sync_contents_to_file in ground arith))
