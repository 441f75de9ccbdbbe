-- ===== src/Durable/Names/Suffix.antt =====
-- The files that `isDownloadLogFile` takes are those whose names end in .dlog.
use map_reduce_rpc.Prelude.{
  ℕ, ◌≡◌, refl, sym, ap, ◌∙◌, Bool, true, false, List, [], ◌∷◌, ◌++◌, append-nil, if◌then◌else◌,
  Bool-cases, inl, inr, list_beq_iff, nat_eq,
}
use map_reduce_rpc.Durable.Names.{is_download_log_file, file_ext, dlog_ext, is_empty}

file_ext-suffix : (name : List ℕ) → (stem : List ℕ) × (name ≡ stem ++ file_ext name)
unfolding file_ext
file_ext-suffix [] = ([], refl)
file_ext-suffix (c ∷ s) =
    let (stem, e) = file_ext-suffix s in
    elim (Bool-cases (is_empty (file_ext s))) [
      | inr later ↦ (c ∷ stem, rw later (ap (◌∷◌ c) e))
      | inl last ↦ rw last (whole_or_nothing c s _)
    ]
  where
    whole_or_nothing :
        (c : ℕ) (s : List ℕ) (b : Bool)
        → (stem : List ℕ) × (c ∷ s ≡ stem ++ (if b then c ∷ s else []))
    whole_or_nothing c s true = ([], refl)
    whole_or_nothing c s false = (c ∷ s, sym (append-nil (c ∷ s)))

file_ext-dlog : (stem : List ℕ) → file_ext (stem ++ dlog_ext) ≡ dlog_ext
unfolding file_ext map_reduce_rpc.Durable.Names.has_slash
file_ext-dlog [] = refl
file_ext-dlog (c ∷ stem) = let later = file_ext-dlog stem in rw later refl

pub log_file-named : (stem : List ℕ) → is_download_log_file (stem ++ dlog_ext) ≡ true
unfolding is_download_log_file
log_file-named stem = (list_beq_iff (file_ext (stem ++ dlog_ext)) dlog_ext).1 (file_ext-dlog stem)

pub log_file_stem :
    (name : List ℕ) → is_download_log_file name ≡ true → (stem : List ℕ) × (name ≡ stem ++ dlog_ext)
unfolding is_download_log_file
log_file_stem name e =
    let (stem, splits) = file_ext-suffix name in
    (stem, splits ∙ ap (◌++◌ stem) ((list_beq_iff (file_ext name) dlog_ext).0 e))
