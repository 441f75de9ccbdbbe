-- ===== src/Durable/Buffer.antt =====
-- The state of `DurableBuffer` in mrp/durable_buffer.go, its constructor, and the operations that need
-- no disk. The logger and the channels that stop `monitor` are left out.
pub mod Handles
pub mod Config
use map_reduce_rpc.Prelude.{
  ℕ, ◌+◌, ◌-◌, ◌*◌, ◌%◌, ◌^◌, ◌<◌, ◌≡◌, Bool, true, false, ◌&&◌, ◌||◌, not, Option, none, some,
  List, [], ◌∷◌, ltb, leb, eqb, if◌then◌else◌,
}
use map_reduce_rpc.Prelude.Words.{add64, sub64, slt64}
use map_reduce_rpc.Prelude.Assoc.{Assoc, lookup, store, delete}
use map_reduce_rpc.Prelude.Text.{codes}
use map_reduce_rpc.RingBuffer.{RingBuffer, new_ring_buffer}
use map_reduce_rpc.Durable.Types.{Handle, Content, handle_eq, overflow_drop_oldest, overflow_reject}

-- `float64`, of which the program multiplies a duration by a factor.
pub record Float64 : Type 1 where
  pub Num : Type 0
  pub from_int64 : ℕ → Num
  pub to_int64 : Num → ℕ
  pub mul : Num → Num → Num
  pub below_one : Num → Bool
  pub two : Num
  -- Integers below 2 ^ 53 are exact, and so is doubling.
  pub below_one-two : below_one two ≡ false
  pub double : (n : ℕ) → n < 2 ^ 53 → to_int64 (mul (from_int64 n) two) ≡ 2 * n

-- `SafeLogDeletionDuration`; durations are `int64` nanoseconds.
unfoldable pub safe_log_deletion_duration : (fl : Float64) → ℕ → ℕ → ℕ → Float64.Num fl → ℕ
safe_log_deletion_duration fl expiry cleanup recovery factor = fl.to_int64 (
    fl.mul (fl.from_int64 (add64 (add64 expiry cleanup) recovery))
      (if fl.below_one factor then fl.two else factor))

pub record DurableBuffer : Type 0 where
  pub recovery_mode : Bool
  pub in_recovery : Bool
  pub closed : Bool
  pub next_handle : ℕ
  pub last_timestamp : ℕ
  pub policy : ℕ
  pub capacity : ℕ
  pub log : RingBuffer Content
  pub handles : Assoc Handle Bool
  pub uploaded_handles : Assoc Handle ℕ
  pub processing_handles : Assoc Handle ℕ
  pub handle_expiry_duration : ℕ
  pub cleanup_time_interval : ℕ
  pub log_deletion_duration : ℕ
  pub uploaded_handle_ttl : ℕ
  pub processing_handle_ttl : ℕ
  pub log_dir : List ℕ

abbrev pub second : ℕ
second = 1_000_000_000

abbrev pub default_uploaded_handle_ttl : ℕ
default_uploaded_handle_ttl = 48 * 3600 * second

abbrev pub default_processing_handle_ttl : ℕ
default_processing_handle_ttl = 5 * 60 * second

abbrev pub zero_content : Content
zero_content = record { id = record { id = 0; time_stamp = 0 }; eof = false; bytes = [] }

-- `SetOverflowPolicy`: an unknown policy becomes drop-oldest.
unfoldable pub set_overflow_policy : ℕ → DurableBuffer → DurableBuffer
set_overflow_policy policy d = record d {
  policy =
      if not (eqb policy overflow_drop_oldest) && not (eqb policy overflow_reject)
      then overflow_drop_oldest
      else policy;
}

-- `duration <= 0`
abbrev pub not_positive : ℕ → Bool
not_positive duration = not (slt64 0 duration)

abbrev pub default_to : ℕ → ℕ → ℕ
default_to fallback duration = if not_positive duration then fallback else duration

abbrev pub at_least : ℕ → ℕ → ℕ
at_least lower duration = if slt64 duration lower then lower else duration

abbrev pub or_default_dir : List ℕ → List ℕ
or_default_dir [] = codes "./download_logs/"
or_default_dir (c ∷ s) = c ∷ s

-- `NewDurableBuffer` up to the loading of the uploaded handles and the start of `monitor`.
unfoldable pub new_durable_buffer : Float64 → ℕ → Bool → ℕ → ℕ → ℕ → List ℕ → DurableBuffer
unfolding set_overflow_policy
new_durable_buffer fl capacity recovery_mode expiry cleanup deletion log_dir =
    let expiry' = default_to (60 * second) expiry in
    let capacity' = if eqb capacity 0 then 1024 else capacity in
    let cleanup' = default_to (30 * second) cleanup in
    let deletion' = at_least (safe_log_deletion_duration fl expiry' cleanup' 0 fl.two) deletion in
    set_overflow_policy overflow_drop_oldest (record {
      recovery_mode = recovery_mode;
      in_recovery = false;
      closed = false;
      next_handle = 0;
      last_timestamp = 0;
      policy = 0;
      capacity = capacity';
      log = new_ring_buffer zero_content capacity';
      handles = [];
      uploaded_handles = [];
      processing_handles = [];
      handle_expiry_duration = expiry';
      cleanup_time_interval = cleanup';
      log_deletion_duration = deletion';
      uploaded_handle_ttl = at_least deletion' default_uploaded_handle_ttl;
      processing_handle_ttl = default_processing_handle_ttl;
      log_dir = or_default_dir log_dir;
    })

-- `NewDurableBufferWithPolicy`, up to the same point.
unfoldable pub new_durable_buffer_with_policy :
    Float64 → ℕ → Bool → ℕ → ℕ → ℕ → List ℕ → ℕ → DurableBuffer
new_durable_buffer_with_policy fl capacity recovery_mode expiry cleanup deletion log_dir policy =
    set_overflow_policy policy
      (new_durable_buffer fl capacity recovery_mode expiry cleanup deletion log_dir)

-- `SetUploadedHandleTTL`
unfoldable pub set_uploaded_handle_ttl : ℕ → DurableBuffer → DurableBuffer
set_uploaded_handle_ttl ttl d = record d {
  uploaded_handle_ttl =
      at_least d.log_deletion_duration (default_to default_uploaded_handle_ttl ttl);
}

-- `GenerateHandle`, with the reading of the clock. The compare-and-swap of a call that runs alone
-- succeeds at once.
unfoldable pub generate_handle : ℕ → DurableBuffer → DurableBuffer × Handle
generate_handle now d =
    let id = add64 d.next_handle 1 in
    let timestamp = if slt64 d.last_timestamp now then now else add64 d.last_timestamp 1 in
    (
      record d { next_handle = id; last_timestamp = timestamp },
      record { id = id; time_stamp = timestamp },
    )

-- `isHandleExpired`, with the reading of the clock.
unfoldable pub is_handle_expired : ℕ → Handle → DurableBuffer → Bool
is_handle_expired now handle d =
    if d.in_recovery
    then false
    else if eqb handle.id 0 || ltb d.next_handle handle.id
    then true
    else slt64 d.handle_expiry_duration (sub64 now handle.time_stamp)

-- `isHandleUploaded`
abbrev pub present : Option ℕ → Bool
present none = false
present (some t) = true

unfoldable pub is_handle_uploaded : Handle → DurableBuffer → Bool
is_handle_uploaded handle d = present (lookup handle d.uploaded_handles)

-- `now - since > ttl`
abbrev pub older_than : ℕ → ℕ → ℕ → Bool
older_than now since ttl = slt64 ttl (sub64 now since)

-- `ReleaseProcessingHandle`
unfoldable pub release_processing_handle : Handle → DurableBuffer → DurableBuffer
release_processing_handle handle d = record d {
  processing_handles = delete handle d.processing_handles;
}

abbrev pub kept_young : ℕ → ℕ → Assoc Handle ℕ → Assoc Handle ℕ
kept_young now ttl [] = []
kept_young now ttl ((h, since) ∷ m) =
    let rest = kept_young now ttl m in if older_than now since ttl then rest else (h, since) ∷ rest

-- `pruneProcessingHandles`: a `Range` that deletes what is older than the TTL.
unfoldable pub prune_processing_handles : ℕ → DurableBuffer → DurableBuffer
prune_processing_handles now d = record d {
  processing_handles = kept_young now d.processing_handle_ttl d.processing_handles;
}
