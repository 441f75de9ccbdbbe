-- ===== src/Durable/Names.antt =====
-- The names of .dlog files in mrp/durable_buffer.go: how they are made and how they are parsed.
pub mod RoundTrip
pub mod Suffix
use map_reduce_rpc.Prelude.{
  ℕ, ◌+◌, ◌-◌, ◌*◌, ◌^◌, Bool, true, false, ◌&&◌, ◌||◌, not, Option, none, some, List, [], ◌∷◌,
  ◌++◌, ltb, leb, eqb, if◌then◌else◌, length, take, list_beq, nat_eq,
}
use map_reduce_rpc.Prelude.Text.{codes, is_digit, decimal, span_digits, digits_value, strip_prefix}
use map_reduce_rpc.Durable.Types.{Handle}

-- `%d` of an `int64`.
unfoldable pub int_text : ℕ → List ℕ
int_text p = if ltb p (2 ^ 63) then decimal p else b'-' ∷ decimal (2 ^ 64 - p)

abbrev pub name_prefix : List ℕ
name_prefix = codes "download_log_"

abbrev pub dlog_ext : List ℕ
dlog_ext = codes ".dlog"

-- `fmt.Sprintf(downloadLogFileNameFormat, handle.Id, handle.TimeStamp)`
unfoldable pub log_file_name : Handle → List ℕ
unfolding int_text
log_file_name handle =
    name_prefix ++ (decimal handle.id ++ (b'-' ∷ (int_text handle.time_stamp ++ dlog_ext)))

abbrev pub is_empty : List ℕ → Bool
is_empty [] = true
is_empty (c ∷ s) = false

unfoldable pub has_slash : List ℕ → Bool
has_slash [] = false
has_slash (c ∷ s) = eqb c b'/' || has_slash s

-- `filepath.Ext`: from the last dot on, if no slash follows it.
unfoldable pub file_ext : List ℕ → List ℕ
file_ext [] = []
file_ext (c ∷ s) =
    let later = file_ext s in
    if not (is_empty later) then later else if eqb c b'.' && not (has_slash s) then c ∷ s else []

unfoldable pub is_download_log_file : List ℕ → Bool
unfolding file_ext has_slash
is_download_log_file name = list_beq (file_ext name) dlog_ext

-- `fmt.Sscanf` skips spaces before a number. A line break is no space for it, and no digit.
abbrev pub is_space : ℕ → Bool
is_space c = eqb c b' ' || eqb c 9 || eqb c 11 || eqb c 12 || eqb c 13

unfoldable pub skip_space : List ℕ → List ℕ
skip_space [] = []
skip_space (c ∷ s) = let rest = skip_space s in if is_space c then rest else c ∷ s

abbrev number_of : ℕ → List ℕ × List ℕ → Option (ℕ × List ℕ)
number_of bound (ds, rest) =
    if is_empty ds
    then none
    else if ltb (digits_value ds) bound
    then some (digits_value ds, rest)
    else none

-- `%d` into a `uint64`: no sign, and an error when it does not fit.
unfoldable pub scan_uint : List ℕ → Option (ℕ × List ℕ)
scan_uint s = number_of (2 ^ 64) (span_digits (skip_space s))

abbrev negated : Option (ℕ × List ℕ) → Option (ℕ × List ℕ)
negated none = none
negated (some (n, rest)) = some (if eqb n 0 then 0 else 2 ^ 64 - n, rest)

abbrev signed : List ℕ → Option (ℕ × List ℕ)
signed [] = none
signed (c ∷ s) =
    if eqb c b'-'
    then negated (number_of (2 ^ 63 + 1) (span_digits s))
    else if eqb c b'+'
    then number_of (2 ^ 63) (span_digits s)
    else number_of (2 ^ 63) (span_digits (c ∷ s))

-- `%d` into an `int64`, as its bit pattern.
unfoldable pub scan_int : List ℕ → Option (ℕ × List ℕ)
scan_int s = signed (skip_space s)

abbrev pub scan_timestamp : ℕ → Option (ℕ × List ℕ) → Option Handle
scan_timestamp handle_id none = none
scan_timestamp handle_id (some (timestamp, rest)) =
    some (record { id = handle_id; time_stamp = timestamp })

abbrev after_dash : ℕ → List ℕ → Option Handle
after_dash handle_id [] = none
after_dash handle_id (c ∷ s) = if eqb c b'-' then scan_timestamp handle_id (scan_int s) else none

abbrev after_id : Option (ℕ × List ℕ) → Option Handle
after_id none = none
after_id (some (handle_id, s)) = after_dash handle_id s

-- `fmt.Sscanf(handlePart, "%d-%d", …)`; what follows the second number is not looked at.
unfoldable pub scan_handle : List ℕ → Option Handle
scan_handle s = after_id (scan_uint s)

abbrev scan_part : Option (List ℕ) → Option Handle
scan_part none = none
scan_part (some handle_part) = scan_handle handle_part

-- `none` is any of the three errors.
unfoldable pub parse_handle : List ℕ → Option Handle
parse_handle file_name =
    if not (is_download_log_file file_name)
    then none
    else scan_part
        (strip_prefix name_prefix (take (length file_name - length (file_ext file_name)) file_name))
