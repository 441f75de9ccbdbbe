-- ===== src/Durable/Buffer/Config.antt =====
-- The durations of a buffer.
use map_reduce_rpc.Prelude.{
  ℕ, ◌+◌, ◌*◌, ◌^◌, ◌<◌, ◌≤◌, ◌≡◌, ap, ◌∙◌, arith, Bool, true, List, if◌then◌else◌,
}
use map_reduce_rpc.Prelude.Words.{add64, slt64}
use map_reduce_rpc.Durable.Buffer.{
  Float64, DurableBuffer, new_durable_buffer, set_uploaded_handle_ttl, safe_log_deletion_duration,
  at_least, default_to, second, default_uploaded_handle_ttl,
}

-- Log files outlive two cycles of expiry and flush, and registry entries outlive the log files.
pub record IsConfigured (d : DurableBuffer) : Type 0 where
  pub expires : 0 < d.handle_expiry_duration
  pub flushes : 0 < d.cleanup_time_interval
  pub deletes : 2 * (d.handle_expiry_duration + d.cleanup_time_interval) ≤ d.log_deletion_duration
  pub registry : d.log_deletion_duration ≤ d.uploaded_handle_ttl
  pub word : d.uploaded_handle_ttl < 2 ^ 63

at_least-bounds :
    (lower duration : ℕ)
    → lower < 2 ^ 63
    → duration < 2 ^ 64
    → (lower ≤ at_least lower duration) × (at_least lower duration < 2 ^ 63)
at_least-bounds lower duration h word = ground arith

-- `bound` is any bound of the fallback and, when positive, of the duration.
default_to-bounds :
    (fallback duration bound : ℕ)
    → 0 < fallback
    → fallback < bound
    → bound < 2 ^ 63
    → duration < 2 ^ 64
    → slt64 duration bound ≡ true
    → (0 < default_to fallback duration) × (default_to fallback duration < bound)
default_to-bounds fallback duration bound positive below small word h = ground arith

safe_log_deletion_duration-two :
    (fl : Float64) (expiry cleanup : ℕ)
    → expiry < 2 ^ 51
    → cleanup < 2 ^ 51
    → safe_log_deletion_duration fl expiry cleanup 0 fl.two ≡ 2 * (expiry + cleanup)
unfolding safe_log_deletion_duration
safe_log_deletion_duration-two fl expiry cleanup e c =
    ap
      (λ (b : Bool).
        fl.to_int64
          (fl.mul (fl.from_int64 (add64 (add64 expiry cleanup) 0)) (if b then fl.two else fl.two)))
      fl.below_one-two
    ∙ ap (λ (n : ℕ). fl.to_int64 (fl.mul (fl.from_int64 n) fl.two)) sum
    ∙ fl.double (expiry + cleanup) (omega arith)
  where
    sum : add64 (add64 expiry cleanup) 0 ≡ expiry + cleanup
    sum = omega arith

-- A buffer of any arguments below 26 days keeps a log file for two cycles of expiry and flush, and an
-- entry of the registry for as long as the log file, whatever is zero or negative.
pub new_durable_buffer-IsConfigured :
    (fl : Float64) (capacity : ℕ) (recovery_mode : Bool) (expiry cleanup deletion : ℕ)
    (log_dir : List ℕ)
    → expiry < 2 ^ 64
    → cleanup < 2 ^ 64
    → deletion < 2 ^ 64
    → slt64 expiry (2 ^ 51) ≡ true
    → slt64 cleanup (2 ^ 51) ≡ true
    → IsConfigured (new_durable_buffer fl capacity recovery_mode expiry cleanup deletion log_dir)
unfolding new_durable_buffer
new_durable_buffer-IsConfigured fl capacity recovery_mode expiry cleanup deletion log_dir we wc wd e
      c =
    let (positive_e, small_e) =
      default_to-bounds (60 * second) expiry (2 ^ 51) (omega arith) (omega arith) (omega arith) we
        e in
    let (positive_c, small_c) =
      default_to-bounds (30 * second) cleanup (2 ^ 51) (omega arith) (omega arith) (omega arith) wc
        c in
    let least =
      safe_log_deletion_duration-two fl (default_to (60 * second) expiry)
        (default_to (30 * second) cleanup) small_e small_c in
    let (deletes, small_d) =
      at_least-bounds
        (safe_log_deletion_duration fl (default_to (60 * second) expiry)
          (default_to (30 * second) cleanup) 0 fl.two)
        deletion (omega (arith, least)) wd in
    let (registry, word) =
      at_least-bounds
        (at_least
          (safe_log_deletion_duration fl (default_to (60 * second) expiry)
            (default_to (30 * second) cleanup) 0 fl.two)
          deletion)
        default_uploaded_handle_ttl small_d (omega arith) in
    record {
      expires = positive_e;
      flushes = positive_c;
      deletes = omega (arith, deletes, least);
      registry = registry;
      word = word;
    }

-- `SetUploadedHandleTTL` keeps the durations consistent for any argument.
pub set_uploaded_handle_ttl-IsConfigured :
    (ttl : ℕ) (d : DurableBuffer)
    → ttl < 2 ^ 64
    → IsConfigured d
    → IsConfigured (set_uploaded_handle_ttl ttl d)
unfolding set_uploaded_handle_ttl
set_uploaded_handle_ttl-IsConfigured ttl d word h = record {
  expires = h.expires;
  flushes = h.flushes;
  deletes = h.deletes;
  registry =
      (at_least-bounds d.log_deletion_duration _ (omega (arith, h.registry, h.word))
        (ground arith)).0;
  word =
      (at_least-bounds d.log_deletion_duration _ (omega (arith, h.registry, h.word))
        (ground arith)).1;
}
