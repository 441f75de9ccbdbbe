-- ===== src/Durable/Codec/RoundTrip.antt =====
-- What is read back from a .dlog file: the complete records in order, whatever is torn at the end.
use native.Mathlib.Nat.{pow-suc, mod-eq_of_lt}
use map_reduce_rpc.Prelude.{
  ℕ, zero, suc, ◌+◌, ◌*◌, ◌/◌, ◌%◌, ◌^◌, ◌<◌, ◌≡◌, refl, ap, sym, arith, Bool, true, false, List,
  [], ◌∷◌, ◌++◌, append_assoc, length, take-append, drop-append, length-append,
}
use map_reduce_rpc.Durable.Types.{Content, IsContent}
use map_reduce_rpc.Durable.Codec.{
  le_bytes, from_le_bytes, bool_byte, build_log_content, Read, read_bytes, read_number, read_bool,
  read_record,
}

pub length-le_bytes : (n v : ℕ) → length (le_bytes n v) ≡ n
unfolding le_bytes
length-le_bytes zero v = refl
length-le_bytes (suc n) v = ap suc (length-le_bytes n (v / 256))

-- A number that fits `n` bytes is read back from them.
pub from_le_bytes-le_bytes : (n v : ℕ) → v < 256 ^ n → from_le_bytes (le_bytes n v) ≡ v
unfolding le_bytes from_le_bytes
from_le_bytes-le_bytes zero v h = omega arith
from_le_bytes-le_bytes (suc n) v h =
    omega (arith, pow-suc 256 n, from_le_bytes-le_bytes n (v / 256) (omega (arith, pow-suc 256 n)))

read_bytes-append :
    (n : ℕ) (xs rest : List ℕ) → n ≡ length xs → read_bytes n (xs ++ rest) ≡ Read.got xs rest
unfolding read_bytes
read_bytes-append n xs rest e =
    rw e (ground (arith, length-append xs rest, take-append xs rest, drop-append xs rest))

pub read_number-append :
    (n v : ℕ) (rest : List ℕ) → v < 256 ^ n → read_number n (le_bytes n v ++ rest) ≡ Read.got v rest
unfolding read_number
read_number-append n v rest h = rw (
  read_bytes-append n (le_bytes n v) rest (sym (length-le_bytes n v)),
  from_le_bytes-le_bytes n v h,
)

read_one : (b : ℕ) (rest : List ℕ) → read_number 1 (b ∷ rest) ≡ Read.got b rest
unfolding read_number from_le_bytes
read_one b rest =
    let value : b + 256 * 0 ≡ b = omega arith in
    rw (read_bytes-append 1 (b ∷ []) rest refl) (ap (λ (n : ℕ). Read.got n rest) value)

read_bool-append : (b : Bool) (rest : List ℕ) → read_bool (bool_byte b ∷ rest) ≡ Read.got b rest
unfolding read_bool
read_bool-append true rest = rw (read_one 1 rest)
read_bool-append false rest = rw (read_one 0 rest)

-- A record is read back from its bytes, and what follows it is left.
pub read_record-append :
    (c : Content) (rest : List ℕ)
    → IsContent c
    → read_record (build_log_content c.id c ++ rest) ≡ Read.got c rest
unfolding read_record build_log_content
read_record-append c rest h = rw (
  append_assoc (le_bytes 8 c.id.id),
  read_number-append 8 c.id.id _ h.handle.0,
  append_assoc (le_bytes 8 c.id.time_stamp),
  read_number-append 8 c.id.time_stamp _ h.handle.1,
  append_assoc (le_bytes 4 (length c.bytes % 2 ^ 32)),
  short,
  read_number-append 4 (length c.bytes) _ h.short,
  append_assoc c.bytes,
  read_bytes-append (length c.bytes) c.bytes _ refl,
  read_bool-append c.eof rest,
)
  where
    short : length c.bytes % 2 ^ 32 ≡ length c.bytes
    short = mod-eq_of_lt h.short
