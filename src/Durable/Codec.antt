-- ===== src/Durable/Codec.antt =====
-- The records of a .dlog file: `buildLogContent` of mrp/durable_buffer.go writes them, the loop of
-- `Replay` there and `decodeDlogFileContent` of mrp/coordinator.go read them.
pub mod RoundTrip
pub mod Torn
pub mod Whole
pub mod Decode
use map_reduce_rpc.Prelude.{
  ℕ, zero, suc, ◌+◌, ◌-◌, ◌*◌, ◌/◌, ◌%◌, ◌^◌, Bool, true, false, not, List, [], ◌∷◌, ◌++◌, ltb, eqb,
  if◌then◌else◌, length, take, drop, range_loop,
}
use map_reduce_rpc.Durable.Types.{Handle, Content}

-- `binary.Write` of an unsigned number of `n` bytes, least significant byte first.
unfoldable pub le_bytes : ℕ → ℕ → List ℕ
le_bytes zero v = []
le_bytes (suc n) v = v % 256 ∷ le_bytes n (v / 256)

unfoldable pub from_le_bytes : List ℕ → ℕ
from_le_bytes [] = 0
from_le_bytes (b ∷ bs) = b + 256 * from_le_bytes bs

abbrev pub bool_byte : Bool → ℕ
bool_byte true = 1
bool_byte false = 0

-- `buildLogContent`: the length is cut down to 32 bits.
unfoldable pub build_log_content : Handle → Content → List ℕ
build_log_content handle entry =
    le_bytes 8 handle.id
    ++ (le_bytes 8 handle.time_stamp
        ++ (le_bytes 4 (length entry.bytes % 2 ^ 32) ++ (entry.bytes ++ bool_byte entry.eof ∷ [])))

-- The outcome of `binary.Read`, which reads all its bytes by `io.ReadFull` or fails.
pub data Read {ℓ} (A : Type ℓ) : Type ℓ where
  got : A → List ℕ → Read A
  eof : Read A
  unexpected_eof : Read A

unfoldable pub read_bytes : ℕ → List ℕ → Read (List ℕ)
read_bytes n file =
    if ltb (length file) n
    then if eqb (length file) 0 then Read.eof else Read.unexpected_eof
    else Read.got (take n file) (drop n file)

infixl 5 ◌>>=◌
abbrev pub ◌>>=◌ {ℓ κ} : {A : Type ℓ} {B : Type κ} → Read A → (A → List ℕ → Read B) → Read B
Read.got a rest >>= f = f a rest
Read.eof >>= f = Read.eof
Read.unexpected_eof >>= f = Read.unexpected_eof

unfoldable pub read_number : ℕ → List ℕ → Read ℕ
read_number n file = read_bytes n file >>= λ bs rest. Read.got (from_le_bytes bs) rest

unfoldable pub read_bool : List ℕ → Read Bool
read_bool file = read_number 1 file >>= λ b rest. Read.got (not (eqb b 0)) rest

-- The five reads of a record of `Replay`; any failure ends the file.
unfoldable pub read_record : List ℕ → Read Content
read_record file = read_number 8 file >>= λ handle_id file. read_number 8 file >>= λ timestamp file.
    read_number 4 file >>= λ data_length file. read_bytes data_length file >>= λ bytes file.
    read_bool file >>= λ eof file.
    Read.got
      (record { id = record { id = handle_id; time_stamp = timestamp }; eof = eof; bytes = bytes })
      file

-- The records that the loop of `Replay` reads from a file, up to the first failure. A record has more
-- than one byte, so the length of the file is enough fuel.
unfoldable pub read_records_loop : ℕ → List ℕ → List Content
read_records_loop zero file = []
read_records_loop (suc fuel) file = elim (read_record file) [
  | Read.got content rest ↦ content ∷ read_records_loop fuel rest
  | _ ↦ []
]

unfoldable pub read_records : List ℕ → List Content
read_records file = read_records_loop (length file) file

pub data DecodeError : Type 0 where
  reading_handle_id reading_timestamp reading_data_length reading_data reading_eof_flag :
      DecodeError

-- `stuck` is no Go value: the loop ran out of fuel.
pub data Decoded : Type 0 where
  decoded : List ℕ → Decoded
  failed : DecodeError → Decoded
  stuck : Decoded

abbrev pub or_fail {ℓ} : {A : Type ℓ} → DecodeError → Read A → (A → List ℕ → Decoded) → Decoded
or_fail e (Read.got a rest) f = f a rest
or_fail e Read.eof f = failed e
or_fail e Read.unexpected_eof f = failed e

-- `decodeDlogFileContent`: only an end of file before a record is no error.
unfoldable pub decode_loop : ℕ → List ℕ → List ℕ → Decoded
decode_loop zero file result = stuck
decode_loop (suc fuel) file result = elim (read_number 8 file) [
  | Read.eof ↦ decoded result
  | Read.unexpected_eof ↦ failed reading_handle_id
  | Read.got handle_id file ↦ or_fail reading_timestamp (read_number 8 file) λ timestamp file.
      or_fail reading_data_length (read_number 4 file) λ data_len file.
        or_fail reading_data (read_bytes data_len file) λ bytes file.
          or_fail reading_eof_flag (read_bool file)
            λ eof file. decode_loop fuel file (result ++ bytes)
]

unfoldable pub decode_dlog_file_content : List ℕ → Decoded
decode_dlog_file_content file = decode_loop (length file + 1) file []
