-- ===== src/Plugins/LineStats.antt =====
-- plugins/linestats/linestats.go; its `Reduce` is `Sum.reduce`.
use map_reduce_rpc.Prelude.{
  ℕ, suc, ◌+◌, List, [], ◌∷◌, not, eqb, if◌then◌else◌, length, Bool, false,
}
use map_reduce_rpc.Prelude.Text.{codes}
use map_reduce_rpc.Prelude.Trim.{ends_with, is_white}
use map_reduce_rpc.Durable.Names.{int_text}
use map_reduce_rpc.Rpc.{KeyValue}
use map_reduce_rpc.Plugins.{fields_loop}

-- `strings.Count(contents, "\n")`
unfoldable pub line_breaks : List ℕ → ℕ
line_breaks [] = 0
line_breaks (c ∷ s) = let rest = line_breaks s in if eqb c 10 then suc rest else rest

-- `len(contents) > 0 && contents[len(contents)-1] != '\n'`
abbrev pub has_partial_line : List ℕ → Bool
has_partial_line [] = false
has_partial_line (c ∷ s) = not (ends_with 10 (c ∷ s))

unfoldable pub lines : List ℕ → ℕ
lines contents =
    if has_partial_line contents then line_breaks contents + 1 else line_breaks contents

unfoldable pub map : List ℕ → List ℕ → List KeyValue
map filename contents =
    record { key = codes "lines"; value = int_text (lines contents) }
    ∷ record { key = codes "words"; value = int_text (length (fields_loop is_white [] contents)) }
    ∷ record { key = codes "chars"; value = int_text (length contents) }
    ∷ []
