-- ===== src/Utils/Hash.antt =====
-- `Ihash` of mrp/utils.go: 32-bit FNV-1a without its highest bit. A key is the list of its bytes.
use Prim.Native.Nat.{bit_and, bit_xor}
use map_reduce_rpc.Prelude.{ℕ, ◌*◌, ◌%◌, ◌^◌, List, range_loop}

-- `hash/fnv`: the offset basis, and one byte.
abbrev pub offset32 : ℕ
offset32 = 2166136261

abbrev pub prime32 : ℕ
prime32 = 16777619

unfoldable pub fnv_write : ℕ → List ℕ → ℕ
fnv_write sum bytes = range_loop (λ hash c. bit_xor hash c * prime32 % 2 ^ 32) bytes sum

unfoldable pub ihash : List ℕ → ℕ
unfolding fnv_write
ihash key = bit_and (fnv_write offset32 key) 0x7fffffff
