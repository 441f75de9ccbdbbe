-- ===== src/Durable/Recovery/InOrder.antt =====
-- What `Replay` delivers from a directory of log files, said without the code's own sorting, test for
-- log files and reader.
use map_reduce_rpc.Prelude.{
  ℕ, ◌≡◌, ◌≢◌, ◌⊎◌, inl, inr, refl, sym, ap, ◌∙◌, arith, Bool, true, false, ◌&&◌, List, [], ◌∷◌,
  ◌++◌, length, eqb, All, Reorders, if◌then◌else◌, if-true, if-false, Bool-cases, nat_eq, Option,
  none, some,
}
use map_reduce_rpc.Prelude.Assoc.{lookup, is_some}
use map_reduce_rpc.Prelude.TextOrder.{text_less}
use map_reduce_rpc.Durable.Types.{Content, IsContent, handle_eq}
use map_reduce_rpc.Durable.Codec.{read_records}
use map_reduce_rpc.Durable.Codec.Torn.{encode_all, IsTorn, read_records-encode_all}
use map_reduce_rpc.Durable.Names.{is_download_log_file, dlog_ext}
use map_reduce_rpc.Durable.Names.Suffix.{log_file-named, log_file_stem}
use map_reduce_rpc.Durable.Disk.{Disk, Os, File}
use map_reduce_rpc.Durable.Buffer.{DurableBuffer, is_handle_uploaded, present}
use map_reduce_rpc.Durable.Recovery.{is_replayed, replay, insert_file, sort_files}
use map_reduce_rpc.Durable.Recovery.Replayed.{delivered, not_uploaded, visit_until, replay_lem}

-- Each file has a smaller name than all that follow.
abbrev pub IsAscending : Disk → Type 0
IsAscending [] = Unit
IsAscending (f ∷ files) = All (λ g. text_less f.0 g.0 ≡ true) files × IsAscending files

text_less_asym : (s t : List ℕ) → text_less s t ≡ true → text_less t s ≡ false
unfolding text_less
text_less_asym [] [] e = ground arith
text_less_asym [] (c ∷ t) e = refl
text_less_asym (b ∷ s) [] e = ground arith
text_less_asym (b ∷ s) (c ∷ t) e = ground (arith, text_less_asym s t)

insert_file-between :
    (f : List ℕ × File) (before after : Disk)
    → All (λ b. text_less b.0 f.0 ≡ true) before
    → All (λ g. text_less f.0 g.0 ≡ true) after
    → insert_file f (before ++ after) ≡ before ++ f ∷ after
unfolding insert_file
insert_file-between f [] [] less more = refl
insert_file-between f [] (g ∷ after) less (first, more) = if-false (text_less_asym f.0 g.0 first) _
insert_file-between f (b ∷ before) after (first, less) more =
    if-true first _ ∙ ap (◌∷◌ b) (insert_file-between f before after less more)

All-without :
    (P : List ℕ × File → Type 0) (f : List ℕ × File) (before after : Disk)
    → All P (before ++ f ∷ after)
    → P f × All P (before ++ after)
All-without P f [] after h = h
All-without P f (b ∷ before) after (here, rest) =
    let (own, others) = All-without P f before after rest in (own, (here, others))

without-IsAscending :
    (f : List ℕ × File) (before after : Disk)
    → IsAscending (before ++ f ∷ after)
    → All (λ b. text_less b.0 f.0 ≡ true) before
      × All (λ g. text_less f.0 g.0 ≡ true) after
      × IsAscending (before ++ after)
without-IsAscending f [] after (more, rest) = (tt, more, rest)
without-IsAscending f (b ∷ before) after (here, rest) =
    let (less, more, others) = without-IsAscending f before after rest in
    let (own, kept) = All-without (λ g. text_less b.0 g.0 ≡ true) f before after here in
    ((own, less), more, (kept, others))

-- Sorting gives the files in the ascending order of their names, which is the only one.
sort_files-Reorders :
    (disk files : Disk) → Reorders disk files → IsAscending files → sort_files disk ≡ files
unfolding sort_files
sort_files-Reorders [] files none_left h = sym none_left
sort_files-Reorders (f ∷ disk) files (before, after, e, rest) h =
    let (less, more, others) = without-IsAscending f before after (rw e at h) in
    ap (insert_file f) (sort_files-Reorders disk (before ++ after) rest others)
    ∙ insert_file-between f before after less more
    ∙ sym e

-- What a file delivers: a file that ends in .dlog and can be looked at and opened, the contents whose
-- records it has, up to a last record that is torn; any other file nothing.
abbrev pub Delivers : Os → List ℕ × File → List Content → Type 0
Delivers os (name, file) cs =
    ((stem : List ℕ) × (front : List ℕ) × (name ≡ stem ++ dlog_ext)
      × (os.info name ≡ true)
      × (os.opens name ≡ true)
      × All IsContent cs
      × IsTorn front
      × (file.bytes ≡ encode_all cs ++ front))
    ⊎ ((cs ≡ [])
        × (((stem : List ℕ) → name ≢ stem ++ dlog_ext) ⊎ ((os.info name && os.opens name) ≡ false)))

abbrev pub AllDeliver : Os → Disk → List (List Content) → Type 0
AllDeliver os [] [] = Unit
AllDeliver os [] (cs ∷ css) = ⊥
AllDeliver os (f ∷ files) [] = ⊥
AllDeliver os (f ∷ files) (cs ∷ css) = Delivers os f cs × AllDeliver os files css

-- The contents of handles that are not in the registry of uploaded ones.
unfoldable pub pending : DurableBuffer → List Content → List Content
pending d [] = []
pending d (c ∷ cs) =
    let rest = pending d cs in if is_some (lookup c.id d.uploaded_handles) then rest else c ∷ rest

abbrev pub flatten : List (List Content) → List Content
flatten [] = []
flatten (cs ∷ css) = cs ++ flatten css

not_uploaded-pending : (d : DurableBuffer) (cs : List Content) → not_uploaded d cs ≡ pending d cs
unfolding not_uploaded pending is_handle_uploaded
not_uploaded-pending d [] = refl
not_uploaded-pending d (c ∷ cs) = go (lookup c.id d.uploaded_handles) (not_uploaded-pending d cs)
  where
    go :
        {xs ys : List Content} (o : Option ℕ)
        → xs ≡ ys
        → (if present o then xs else c ∷ xs) ≡ (if is_some o then ys else c ∷ ys)
    go none e = ap (◌∷◌ c) e
    go (some t) e = e

pending-append :
    (d : DurableBuffer) (cs ds : List Content) → pending d (cs ++ ds) ≡ pending d cs ++ pending d ds
unfolding pending
pending-append d [] ds = refl
pending-append d (c ∷ cs) ds = elim (Bool-cases (is_some (lookup c.id d.uploaded_handles))) [
  | inl uploaded ↦ rw uploaded (pending-append d cs ds)
  | inr waits ↦ rw waits (ap (◌∷◌ c) (pending-append d cs ds))
]

-- The part of a file in the deliveries.
abbrev part_of : Os → DurableBuffer → List ℕ × File → List Content
part_of os d f = if is_replayed os f then not_uploaded d (read_records f.1.bytes) else []

part_of-Delivers :
    (os : Os) (d : DurableBuffer) (f : List ℕ × File) (cs : List Content)
    → Delivers os f cs
    → part_of os d f ≡ pending d cs
unfolding pending
part_of-Delivers os d (name, file) cs (inl (stem, front, named, info, opens, valid, torn, bytes)) =
    let log = ap is_download_log_file named ∙ log_file-named stem in
    let reads : read_records file.bytes ≡ cs =
      ap read_records bytes ∙ read_records-encode_all cs front valid torn in
    elim (Bool-cases (eqb (length file.bytes) 0)) [
      | inr some_bytes ↦
          rw (log, info, opens, some_bytes) (ap (not_uploaded d) reads ∙ not_uploaded-pending d cs)
      | inl no_bytes ↦
          rw (log, info, no_bytes) (ap (pending d) (sym (nothing_read file.bytes no_bytes) ∙ reads))
    ]
  where
    nothing_read : (bytes : List ℕ) → eqb (length bytes) 0 ≡ true → read_records bytes ≡ []
    nothing_read [] e = unfold read_records map_reduce_rpc.Durable.Codec.read_records_loop in refl
    nothing_read (b ∷ bytes) e = absurd (ground (arith, e))
part_of-Delivers os d (name, file) cs (inr (empty, inl other)) =
    elim (Bool-cases (is_download_log_file name)) [
      | inl log ↦ let (stem, named) = log_file_stem name log in absurd (other stem named)
      | inr no_log ↦ rw no_log (ap (pending d) (sym empty))
    ]
part_of-Delivers os d (name, file) cs (inr (empty, inr closed)) =
    let skipped : is_replayed os (name, file) ≡ false = ground (arith, closed) in
    if-false skipped _ ∙ ap (pending d) (sym empty)

delivered-pending :
    (os : Os) (d : DurableBuffer) (files : Disk) (css : List (List Content))
    → AllDeliver os files css
    → delivered os d files ≡ pending d (flatten css)
unfolding delivered pending
delivered-pending os d [] [] h = refl
delivered-pending os d [] (cs ∷ css) h = absurd h
delivered-pending os d (f ∷ files) [] h = absurd h
delivered-pending os d (f ∷ files) (cs ∷ css) (here, h) =
    split_off (is_replayed os f) (not_uploaded d (read_records f.1.bytes)) (delivered os d files)
    ∙ ap (λ (l : List Content). l ++ delivered os d files) (part_of-Delivers os d f cs here)
    ∙ ap (◌++◌ (pending d cs)) (delivered-pending os d files css h)
    ∙ sym (pending-append d cs (flatten css))
  where
    split_off :
        (b : Bool) (own rest : List Content)
        → (if b then own ++ rest else rest) ≡ (if b then own else []) ++ rest
    split_off true own rest = refl
    split_off false own rest = refl

-- Let `files` be the files of the directory in the ascending order of their names, each with the
-- contents that it delivers: a file whose name ends in .dlog and that can be looked at and opened
-- those whose records it consists of, up to a last record that is torn, and any other file none.
-- `Replay` then gives the visitor the contents of the files, one file after the other, those of
-- handles in the registry of uploaded ones left out, and stops when the visitor answers false; when
-- the directory cannot be read it gives none.
pub replay_in_order :
    {S : Type 0} (visitor : Content → S → S × Bool) (os : Os) (d : DurableBuffer)
    (disk files : Disk) (css : List (List Content)) (s : S)
    → Reorders disk files
    → IsAscending files
    → AllDeliver os files css
    → replay visitor os d disk s
      ≡ (visit_until visitor (if os.read_dir then pending d (flatten css) else []) s).0
replay_in_order visitor os d disk files css s same ascending deliver =
    replay_lem visitor os d disk s
    ∙ ap (λ (l : List Content). (visit_until visitor l s).0) (by_dir os.read_dir)
  where
    by_dir :
        (readable : Bool)
        → delivered os d (sort_files (if readable then disk else []))
          ≡ (if readable then pending d (flatten css) else [])
    by_dir true =
        ap (delivered os d) (sort_files-Reorders disk files same ascending)
        ∙ delivered-pending os d files css deliver
    by_dir false = unfold sort_files delivered in refl
