-- ===== src/Tests/Registry.antt =====
-- The registries of handles at work.
use map_reduce_rpc.Prelude.{
  ℕ, ◌+◌, ◌*◌, ◌^◌, ◌<◌, ◌≤◌, ◌≡◌, ◌⊎◌, ◌≢◌, inl, inr, ap, ◌∙◌, refl, arith, Bool, true, false,
  ◌&&◌, Option, none, some, List, [], ◌∷◌, ◌++◌, All, list_eq, nat_eq, if◌then◌else◌,
}
use map_reduce_rpc.Prelude.Text.{codes}
use map_reduce_rpc.Prelude.Assoc.{Assoc, lookup}
use map_reduce_rpc.Utils.Slices.{contains}
use map_reduce_rpc.Utils.MapLaws.{IsMap}
use map_reduce_rpc.Durable.Types.{handle_eq, Content}
use map_reduce_rpc.Durable.Names.{log_file_name, is_download_log_file, dlog_ext}
use map_reduce_rpc.Durable.Buffer.{
  DurableBuffer, kept_young, is_handle_uploaded, release_processing_handle,
}
use map_reduce_rpc.Durable.Registry.{
  get_completed_handles, get_uploaded_handles, save_uploaded_handles, load_uploaded_handles,
  mark_handles_uploaded, registry_bytes, uploaded_handles_file_name, tmp_name,
}
use map_reduce_rpc.Durable.Registry.Order.{IsSorted}
use map_reduce_rpc.Durable.Registry.Dispatch.{
  is_due, get_uploaded_handles_lem, release_redispatches,
}
use map_reduce_rpc.Durable.Registry.Persist.{
  load_save_uploaded_handles, save_uploaded_handles_atomic,
}
use map_reduce_rpc.Durable.Codec.Torn.{encode_all, IsTorn}
use map_reduce_rpc.Durable.Disk.{File}
use map_reduce_rpc.Durable.Names.Suffix.{log_file-named}
use map_reduce_rpc.Durable.Recovery.{replay}
use map_reduce_rpc.Durable.Recovery.Replayed.{visit_until}
use map_reduce_rpc.Durable.Recovery.InOrder.{IsAscending, pending, flatten, replay_in_order}
use map_reduce_rpc.Durable.Retention.{perform_log_deletion}
use map_reduce_rpc.Durable.Retention.Deletes.{perform_log_deletion_safe}
use map_reduce_rpc.Tests.Data.{
  handle_a, handle_b, empty_ring, buffer_with, sound_os, name_a, bytes_a, disk_a, content_a,
  content_a-IsContent,
}

-- `handle_b` is complete and `handle_a` is not; both are uploaded, and `handle_a` is being processed.
abbrev busy : DurableBuffer
busy =
    buffer_with empty_ring ((handle_b, true) ∷ (handle_a, false) ∷ [])
      ((handle_b, 115) ∷ (handle_a, 110) ∷ []) ((handle_a, 118) ∷ [])

busy-handles : IsMap busy.handles
unfolding lookup
busy-handles = (refl, (refl, tt))

busy-uploaded : IsMap busy.uploaded_handles
unfolding lookup
busy-uploaded = (refl, (refl, tt))

get_uploaded_handles_example :
    IsSorted (get_uploaded_handles 120 busy).1
    × (contains (get_uploaded_handles 120 busy).1 handle_b
        ≡ is_due 120 busy.processing_handle_ttl handle_b busy.uploaded_handles
            busy.processing_handles)
    × (lookup handle_b (get_uploaded_handles 120 busy).0.processing_handles ≡ (
        if is_due 120 busy.processing_handle_ttl handle_b busy.uploaded_handles
          busy.processing_handles
        then some 120
        else lookup handle_b busy.processing_handles))
get_uploaded_handles_example = get_uploaded_handles_lem 120 busy handle_b busy-uploaded

given_out : contains (get_uploaded_handles 120 busy).1 handle_b ≡ true
unfolding contains get_uploaded_handles map_reduce_rpc.Durable.Registry.sort_handles
    map_reduce_rpc.Durable.Registry.dispatch_loop lookup
    map_reduce_rpc.Durable.Registry.insert_handle map_reduce_rpc.Prelude.Assoc.store
given_out = refl

release_redispatches_example :
    contains (get_uploaded_handles 120 (release_processing_handle handle_a busy)).1 handle_a
    ≡ is_handle_uploaded handle_a busy
release_redispatches_example = release_redispatches 120 busy handle_a busy-uploaded

load_save_uploaded_handles_example :
    lookup handle_a
      (load_uploaded_handles sound_os 500
        (save_uploaded_handles sound_os 120 busy [])
        (buffer_with empty_ring [] [] [])).uploaded_handles
    ≡ lookup handle_a (
        kept_young 500 busy.uploaded_handle_ttl
          (kept_young 120 busy.uploaded_handle_ttl busy.uploaded_handles))
load_save_uploaded_handles_example =
    load_save_uploaded_handles sound_os sound_os 120 500 busy (buffer_with empty_ring [] [] []) []
      refl refl refl refl refl refl busy-uploaded
      (((omega arith, omega arith), omega arith), (((omega arith, omega arith), omega arith), tt))
      handle_a

save_uploaded_handles_atomic_example :
    (lookup uploaded_handles_file_name (save_uploaded_handles sound_os 120 busy disk_a)
      ≡ lookup uploaded_handles_file_name disk_a)
    ⊎ (lookup uploaded_handles_file_name (save_uploaded_handles sound_os 120 busy disk_a)
        ≡ some (record {
          bytes = registry_bytes (kept_young 120 busy.uploaded_handle_ttl busy.uploaded_handles);
          mod_time = 120;
        }))
save_uploaded_handles_atomic_example = save_uploaded_handles_atomic sound_os 120 busy disk_a refl

abbrev count_visits : Content → ℕ → ℕ × Bool
count_visits c n = (n + 1, true)

-- A directory that lists another file before its log file.
abbrev notes : List ℕ × File
notes = (codes "notes.txt", record { bytes = 1 ∷ 2 ∷ []; mod_time = 90 })

abbrev log_file_a : List ℕ × File
log_file_a = (name_a, record { bytes = bytes_a; mod_time = 120 })

abbrev empty_log : DurableBuffer
empty_log = buffer_with empty_ring [] [] []

nothing : IsTorn []
unfolding map_reduce_rpc.Durable.Codec.build_log_content map_reduce_rpc.Durable.Codec.le_bytes
nothing = record {
  content = content_a;
  valid = content_a-IsContent;
  next = _;
  back = _;
  cut = refl;
}

bytes_of_a : bytes_a ≡ encode_all (content_a ∷ []) ++ []
unfolding map_reduce_rpc.Durable.Codec.build_log_content map_reduce_rpc.Durable.Codec.le_bytes
bytes_of_a = refl

no_log_file : (stem : List ℕ) → codes "notes.txt" ≢ stem ++ dlog_ext
no_log_file stem e =
    let named : is_download_log_file (codes "notes.txt") ≡ true =
      ap is_download_log_file e ∙ log_file-named stem in
    absurd (unfold is_download_log_file in ground (arith, named))

names-IsAscending : IsAscending (log_file_a ∷ notes ∷ [])
unfolding map_reduce_rpc.Prelude.TextOrder.text_less
names-IsAscending = ((refl, tt), (tt, tt))

replay_example :
    replay count_visits sound_os empty_log (notes ∷ log_file_a ∷ []) 0
    ≡ (visit_until count_visits
        (if true then pending empty_log (flatten ((content_a ∷ []) ∷ [] ∷ [])) else [])
        0).0
replay_example =
    replay_in_order count_visits sound_os empty_log (notes ∷ log_file_a ∷ [])
      (log_file_a ∷ notes ∷ []) ((content_a ∷ []) ∷ [] ∷ []) 0
      (log_file_a ∷ [], [], refl, ([], [], refl, refl)) names-IsAscending
      (
        inl (
          codes "download_log_1-100",
          [],
          refl,
          refl,
          refl,
          (content_a-IsContent, tt),
          nothing,
          bytes_of_a,
        ),
        (inr (refl, inl no_log_file), tt),
      )

-- The handle of the file is not in the registry of uploaded ones.
perform_log_deletion_safe_example :
    lookup name_a (perform_log_deletion sound_os 400 401 402 empty_log disk_a).1
    ≡ lookup name_a disk_a
unfolding log_file_name map_reduce_rpc.Prelude.Text.decimal lookup
perform_log_deletion_safe_example =
    perform_log_deletion_safe sound_os 400 401 402 empty_log disk_a name_a (omega arith)
      (omega arith) refl refl (inr (inl (handle_a, (omega arith, omega arith), refl, refl)))
