-- ===== src/Durable/Recovery/Replayed.antt =====
-- What `Replay` delivers, for every visitor.
use map_reduce_rpc.Prelude.{
  ◌≡◌, refl, ap, ◌∙◌, sym, Bool, true, false, List, [], ◌∷◌, ◌++◌, if◌then◌else◌, Bool-cases, inl,
  inr,
}
use map_reduce_rpc.Durable.Types.{Content}
use map_reduce_rpc.Durable.Codec.{read_records}
use map_reduce_rpc.Durable.Disk.{Disk, Os}
use map_reduce_rpc.Durable.Buffer.{DurableBuffer, is_handle_uploaded}
use map_reduce_rpc.Durable.Recovery.{
  unless_stopped, is_replayed, visit_records, visit_files, replay, sort_files,
}

unfoldable pub not_uploaded : DurableBuffer → List Content → List Content
not_uploaded d [] = []
not_uploaded d (c ∷ cs) =
    let rest = not_uploaded d cs in if is_handle_uploaded c.id d then rest else c ∷ rest

-- The contents in the files, file by file.
unfoldable pub delivered : Os → DurableBuffer → Disk → List Content
delivered os d [] = []
delivered os d (f ∷ files) =
    let rest = delivered os d files in
    if is_replayed os f then not_uploaded d (read_records f.1.bytes) ++ rest else rest

unless_stopped-ext :
    {S : Type 0} (r : S × Bool) (f g : S → S × Bool)
    → ((s : S) → f s ≡ g s)
    → unless_stopped r f ≡ unless_stopped r g
unless_stopped-ext (s, true) f g h = h s
unless_stopped-ext (s, false) f g h = refl

unless_stopped_assoc :
    {S : Type 0} (r : S × Bool) (f g : S → S × Bool)
    → unless_stopped r (λ s. unless_stopped (f s) g) ≡ unless_stopped (unless_stopped r f) g
unless_stopped_assoc (s, true) f g = refl
unless_stopped_assoc (s, false) f g = refl

module _ {S : Type 0} (visitor : Content → S → S × Bool) where
  -- The visitor on a list of contents, until it answers false.
  unfoldable pub visit_until : List Content → S → S × Bool
  visit_until [] s = (s, true)
  visit_until (c ∷ cs) s = unless_stopped (visitor c s) (λ s'. visit_until cs s')

  visit_records-not_uploaded :
      (d : DurableBuffer) (cs : List Content) (s : S)
      → visit_records visitor d cs s ≡ visit_until (not_uploaded d cs) s
  unfolding visit_records not_uploaded visit_until
  visit_records-not_uploaded d [] s = refl
  visit_records-not_uploaded d (c ∷ cs) s = elim (Bool-cases (is_handle_uploaded c.id d)) [
    | inl uploaded ↦ rw uploaded (visit_records-not_uploaded d cs s)
    | inr pending ↦
        rw pending (unless_stopped-ext (visitor c s) _ _ (λ s'. visit_records-not_uploaded d cs s'))
  ]

  visit_until-append :
      (cs ds : List Content) (s : S)
      → visit_until (cs ++ ds) s ≡ unless_stopped (visit_until cs s) (λ s'. visit_until ds s')
  unfolding visit_until
  visit_until-append [] ds s = refl
  visit_until-append (c ∷ cs) ds s =
      unless_stopped-ext (visitor c s) _ _ (λ s'. visit_until-append cs ds s')
      ∙ unless_stopped_assoc (visitor c s) _ _

  visit_files-delivered :
      (os : Os) (d : DurableBuffer) (files : Disk) (s : S)
      → visit_files visitor os d files s ≡ visit_until (delivered os d files) s
  unfolding visit_files delivered
  visit_files-delivered os d [] s = unfold visit_until in refl
  visit_files-delivered os d (f ∷ files) s = elim (Bool-cases (is_replayed os f)) [
    | inl read ↦ rw read (
        ap (λ (r : S × Bool). unless_stopped r (λ s'. visit_files visitor os d files s'))
          (visit_records-not_uploaded d (read_records f.1.bytes) s)
        ∙ unless_stopped-ext (visit_until (not_uploaded d (read_records f.1.bytes)) s) _ _
            (λ s'. visit_files-delivered os d files s')
        ∙ sym (visit_until-append (not_uploaded d (read_records f.1.bytes)) _ s))
    | inr skip ↦ rw skip (visit_files-delivered os d files s)
  ]

  -- `Replay` gives a visitor the records of the files that it reads, in the order in which it sorts them,
  -- and stops when the visitor answers false.
  pub replay_lem :
      (os : Os) (d : DurableBuffer) (disk : Disk) (s : S)
      → replay visitor os d disk s
        ≡ (visit_until (delivered os d (sort_files (if os.read_dir then disk else []))) s).0
  unfolding replay
  replay_lem os d disk s = ap (λ (r : S × Bool). r.0) (visit_files-delivered os d _ s)
