-- ===== src/Plugins/CharFreq.antt =====
-- plugins/charfreq/charfreq.go; its `Reduce` is `Sum.reduce`.
use map_reduce_rpc.Prelude.{ℕ, Bool, ◌&&◌, ◌||◌, not, List, [], ◌∷◌, leb, if◌then◌else◌}
use map_reduce_rpc.Prelude.Trim.{is_white}
use map_reduce_rpc.Rpc.{KeyValue}
use map_reduce_rpc.Plugins.{to_lower, one_of}

-- `unicode.IsPrint`
abbrev pub is_print : ℕ → Bool
is_print r = leb 32 r && leb r 126

unfoldable pub map_loop : List ℕ → List KeyValue
map_loop [] = []
map_loop (r ∷ runes) =
    let rest = map_loop runes in
    if not (is_print r) || is_white r then rest else one_of (r ∷ []) ∷ rest

unfoldable pub map : List ℕ → List ℕ → List KeyValue
map filename contents = map_loop (to_lower contents)
