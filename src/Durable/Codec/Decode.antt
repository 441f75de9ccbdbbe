-- ===== src/Durable/Codec/Decode.antt =====
-- `decodeDlogFileContent` of mrp/coordinator.go, which fails where `Replay` stops.
use map_reduce_rpc.Prelude.{
  ℕ, zero, suc, ◌+◌, ◌≡◌, ◌≢◌, refl, ap, ◌∙◌, sym, arith, List, [], ◌∷◌, ◌++◌, append-nil,
  append_assoc, length, length-append, All, ◌<◌,
}
use map_reduce_rpc.Durable.Types.{Content, IsContent}
use map_reduce_rpc.Durable.Codec.{
  read_records, build_log_content, Read, read_bytes, read_number, read_bool, read_record, Decoded,
  decoded, failed, DecodeError, reading_handle_id, reading_timestamp, reading_data_length,
  reading_data, reading_eof_flag, or_fail, decode_loop, decode_dlog_file_content,
}
use map_reduce_rpc.Durable.Codec.RoundTrip.{read_record-append}
use map_reduce_rpc.Durable.Codec.Torn.{
  got-bind, encode_all, length-encode_all, IsTorn, IsTorn-not_got, read_records-encode_all,
}

-- One round of the loop on a record that can be read.
decode_loop-record :
    (fuel : ℕ) (file result : List ℕ) (c : Content) (rest : List ℕ)
    → read_record file ≡ Read.got c rest
    → decode_loop (suc fuel) file result ≡ decode_loop fuel rest (result ++ c.bytes)
unfolding read_record
decode_loop-record fuel file result c rest e =
    let (handle_id, file1, r1, e1) = got-bind (read_number 8 file) _ c rest e in
    let (timestamp, file2, r2, e2) = got-bind (read_number 8 file1) _ c rest e1 in
    let (data_len, file3, r3, e3) = got-bind (read_number 4 file2) _ c rest e2 in
    let (bytes, file4, r4, e4) = got-bind (read_bytes data_len file3) _ c rest e3 in
    let (eof, file5, r5, e5) = got-bind (read_bool file4) _ c rest e4 in
    unfold decode_loop in ground arith

-- The data of the records, one after the other.
abbrev pub all_bytes : List Content → List ℕ
all_bytes [] = []
all_bytes (c ∷ cs) = c.bytes ++ all_bytes cs

decode_loop-encode_all :
    (cs : List Content) (fuel : ℕ) (front result : List ℕ)
    → All IsContent cs
    → length cs < fuel
    → (spare : ℕ) × (decode_loop fuel (encode_all cs ++ front) result
        ≡ decode_loop (suc spare) front (result ++ all_bytes cs))
decode_loop-encode_all cs zero front result h enough = absurd (omega arith)
decode_loop-encode_all [] (suc fuel) front result h enough =
    (fuel, ap (decode_loop (suc fuel) front) (sym (append-nil result)))
decode_loop-encode_all (c ∷ cs) (suc fuel) front result (hc, hcs) enough =
    let (spare, rest) =
      decode_loop-encode_all cs fuel front (result ++ c.bytes) hcs (omega arith) in
    (
      spare,
      ap (λ (file : List ℕ). decode_loop (suc fuel) file result)
            (append_assoc (build_log_content c.id c) (encode_all cs) front)
          ∙ decode_loop-record fuel _ result c (encode_all cs ++ front)
              (read_record-append c (encode_all cs ++ front) hc)
          ∙ rest
          ∙ ap (decode_loop (suc spare) front) (append_assoc result c.bytes (all_bytes cs)),
    )

decode_loop-nil : (fuel : ℕ) (result : List ℕ) → decode_loop (suc fuel) [] result ≡ decoded result
unfolding decode_loop read_number read_bytes
decode_loop-nil fuel result = ground arith

-- The content of a file of complete records is their data, one after the other.
pub decode-encode_all :
    (cs : List Content)
    → All IsContent cs
    → decode_dlog_file_content (encode_all cs) ≡ decoded (all_bytes cs)
unfolding decode_dlog_file_content
decode-encode_all cs h =
    let few = length-encode_all cs (length (encode_all cs)) h (omega arith) in
    let (spare, e) =
      decode_loop-encode_all cs (length (encode_all cs) + 1) [] [] h (omega (arith, few)) in
    ap (λ (file : List ℕ). decode_loop (length (encode_all cs) + 1) file [])
      (sym (append-nil (encode_all cs)))
    ∙ e
    ∙ decode_loop-nil spare (all_bytes cs)

or_fail-failed :
    {A : Type 0} (code : DecodeError) (r : Read A) (f : A → List ℕ → Decoded)
    → ((a : A) (rest : List ℕ) → r ≡ Read.got a rest → (e : DecodeError) × (f a rest ≡ failed e))
    → (e : DecodeError) × (or_fail code r f ≡ failed e)
or_fail-failed code (Read.got a rest) f h = h a rest refl
or_fail-failed code Read.eof f h = (code, refl)
or_fail-failed code Read.unexpected_eof f h = (code, refl)

read_number-eof : (n : ℕ) (file : List ℕ) → read_number n file ≡ Read.eof → file ≡ []
unfolding read_number read_bytes
read_number-eof n [] e = refl
read_number-eof n (b ∷ file) e = absurd (ground arith)

decode_loop-not_got :
    (fuel : ℕ) (front result : List ℕ)
    → ((a : Content) (rest : List ℕ) → read_record front ≢ Read.got a rest)
    → front ≢ []
    → (e : DecodeError) × (decode_loop (suc fuel) front result ≡ failed e)
unfolding decode_loop
decode_loop-not_got fuel front result not_got not_empty = go (read_number 8 front) refl
  where
    go :
        (r : Read ℕ)
        → read_number 8 front ≡ r
        → (e : DecodeError) × (decode_loop (suc fuel) front result ≡ failed e)
    go Read.eof e = absurd (not_empty (read_number-eof 8 front e))
    go Read.unexpected_eof e = (reading_handle_id, rw (e, decode_loop))
    go (Read.got handle_id file) e =
        rw (e, decode_loop)
          (or_fail-failed reading_timestamp (read_number 8 file) _ λ timestamp file2 e2.
            or_fail-failed reading_data_length (read_number 4 file2) _ λ data_len file3 e3.
              or_fail-failed reading_data (read_bytes data_len file3) _ λ bytes file4 e4.
                or_fail-failed reading_eof_flag (read_bool file4) _ λ eof file5 e5. absurd (
                  not_got
                    (record {
                      id = record { id = handle_id; time_stamp = timestamp };
                      eof = eof;
                      bytes = bytes;
                    })
                    file5 (unfold read_record in rw (e, e2, e3, e4, e5))))

-- A file that ends inside a record is an error for `decodeDlogFileContent`, although the reading loop of
-- `Replay` has from the same file exactly the complete records before.
pub decode_torn :
    (cs : List Content) (front : List ℕ)
    → All IsContent cs
    → IsTorn front
    → front ≢ []
    → (e : DecodeError) × (decode_dlog_file_content (encode_all cs ++ front) ≡ failed e)
      × (read_records (encode_all cs ++ front) ≡ cs)
unfolding decode_dlog_file_content
decode_torn cs front h torn not_empty =
    let file = encode_all cs ++ front in
    let few =
      length-encode_all cs (length file) h (omega (arith, length-append (encode_all cs) front)) in
    let (spare, e) = decode_loop-encode_all cs (length file + 1) front [] h (omega (arith, few)) in
    let (code, f) =
      decode_loop-not_got spare front (all_bytes cs) (IsTorn-not_got torn) not_empty in
    (code, e ∙ f, read_records-encode_all cs front h torn)
