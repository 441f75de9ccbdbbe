-- ===== src/Durable/Names/RoundTrip.antt =====
-- A handle is read back from the name of its file.
use map_reduce_rpc.Prelude.{
  ℕ, ◌-◌, ◌^◌, ◌≤◌, ◌<◌, ◌≡◌, refl, ap, ◌∙◌, sym, arith, some, List, [], ◌∷◌, ◌++◌, append_assoc,
  ltb, length, length-append, take, take-append, inl, inr, Bool-cases, ltb→lt,
}
use map_reduce_rpc.Prelude.Text.{
  decimal, digits_value, strip_prefix, IsDigits, decimal-IsDigits, decimal-value, decimal-nonempty,
  span_digits-append, span_digits-end, strip_prefix-append,
}
use map_reduce_rpc.Durable.Types.{Handle, IsHandle}
use map_reduce_rpc.Durable.Names.{
  int_text, name_prefix, dlog_ext, log_file_name, file_ext, has_slash, is_download_log_file, signed,
  scan_part, skip_space, scan_uint, scan_int, scan_handle, parse_handle,
}

file_ext-append : (s : List ℕ) → file_ext (s ++ dlog_ext) ≡ dlog_ext
unfolding file_ext has_slash
file_ext-append [] = refl
file_ext-append (c ∷ s) = rw (file_ext-append s)

skip_digits :
    (ds rest : List ℕ) → IsDigits ds → 1 ≤ length ds → skip_space (ds ++ rest) ≡ ds ++ rest
unfolding skip_space
skip_digits [] rest h long = absurd (omega arith)
skip_digits (d ∷ ds) rest (hd, hds) long = ground arith

scan_uint-decimal :
    (n : ℕ) (rest : List ℕ)
    → n < 2 ^ 64
    → scan_uint (decimal n ++ b'-' ∷ rest) ≡ some (n, b'-' ∷ rest)
unfolding scan_uint
scan_uint-decimal n rest h =
    rw
      (
        skip_digits (decimal n) (b'-' ∷ rest) (decimal-IsDigits n) (decimal-nonempty n),
        span_digits-append (decimal n) rest b'-' (decimal-IsDigits n) refl,
      )
      (ground (arith, decimal-value n h, decimal-nonempty n))

signed_digits :
    (ds : List ℕ)
    → IsDigits ds
    → 1 ≤ length ds
    → digits_value ds < 2 ^ 63
    → signed (skip_space ds) ≡ some (digits_value ds, [])
unfolding skip_space
signed_digits [] h long small = absurd (omega arith)
signed_digits (d ∷ ds) (hd, hds) long small = ground (arith, span_digits-end (d ∷ ds) (hd, hds))

scan_int-int_text : (p : ℕ) → p < 2 ^ 64 → scan_int (int_text p) ≡ some (p, [])
unfolding scan_int int_text
scan_int-int_text p h = elim (Bool-cases (ltb p (2 ^ 63))) [
  | inl positive ↦ rw (
    positive,
    signed_digits (decimal p) (decimal-IsDigits p) (decimal-nonempty p)
        (rw (decimal-value p h) (ltb→lt _ _ positive)),
    decimal-value p h,
  )
  | inr negative ↦
      let q = 2 ^ 64 - p in
      let same = decimal-value q (ground arith) in
      rw negative (
        unfold skip_space in
        rw (span_digits-end (decimal q) (decimal-IsDigits q))
          (ground (arith, same, decimal-nonempty q)))
]

trim-append : (s e : List ℕ) → take (length (s ++ e) - length e) (s ++ e) ≡ s
trim-append s e =
    let same : length (s ++ e) - length e ≡ length s = omega (arith, length-append s e) in
    ap (λ (n : ℕ). take n (s ++ e)) same ∙ take-append s e

-- A name that ends in the extension is parsed without it.
parse_handle-ext :
    (s : List ℕ) → parse_handle (s ++ dlog_ext) ≡ scan_part (strip_prefix name_prefix s)
unfolding parse_handle is_download_log_file
parse_handle-ext s =
    rw (file_ext-append s)
      (ap (λ (t : List ℕ). scan_part (strip_prefix name_prefix t)) (trim-append s dlog_ext))

scan_handle-text :
    (h : Handle) → IsHandle h → scan_handle (decimal h.id ++ b'-' ∷ int_text h.time_stamp) ≡ some h
unfolding scan_handle
scan_handle-text h (small_id, small_time) = rw (
  scan_uint-decimal h.id (int_text h.time_stamp) small_id,
  scan_int-int_text h.time_stamp small_time,
)

-- The name of a .dlog file determines its handle: parsing the name gives the handle back, a negative
-- time stamp included.
pub parse_handle-log_file_name : (h : Handle) → IsHandle h → parse_handle (log_file_name h) ≡ some h
unfolding log_file_name
parse_handle-log_file_name h valid =
    ap parse_handle regroup
    ∙ parse_handle-ext (name_prefix ++ text)
    ∙ ap scan_part (strip_prefix-append name_prefix text)
    ∙ scan_handle-text h valid
  where
    text : List ℕ
    text = decimal h.id ++ b'-' ∷ int_text h.time_stamp

    regroup :
        name_prefix ++ (decimal h.id ++ (b'-' ∷ (int_text h.time_stamp ++ dlog_ext)))
        ≡ (name_prefix ++ text) ++ dlog_ext
    regroup = sym (
        append_assoc name_prefix text dlog_ext
        ∙ ap (◌++◌ name_prefix)
            (append_assoc (decimal h.id) (b'-' ∷ int_text h.time_stamp) dlog_ext))
