-- ===== src/Plugins/TopWords.antt =====
-- plugins/topwords/topwords.go; its `Reduce` is `Sum.reduce`.
use map_reduce_rpc.Prelude.{ℕ, Bool, ◌||◌, List, [], ◌∷◌, ltb, if◌then◌else◌, length}
use map_reduce_rpc.Prelude.Text.{codes}
use map_reduce_rpc.Rpc.{KeyValue}
use map_reduce_rpc.Plugins.{tokenize, has_word, one_of}

unfoldable pub stopwords : List (List ℕ)
stopwords =
    codes "a"
    ∷ codes "an"
    ∷ codes "the"
    ∷ codes "and"
    ∷ codes "or"
    ∷ codes "but"
    ∷ codes "in"
    ∷ codes "on"
    ∷ codes "at"
    ∷ codes "to"
    ∷ codes "for"
    ∷ codes "of"
    ∷ codes "with"
    ∷ codes "by"
    ∷ codes "from"
    ∷ codes "as"
    ∷ codes "into"
    ∷ codes "is"
    ∷ codes "are"
    ∷ codes "was"
    ∷ codes "were"
    ∷ codes "be"
    ∷ codes "been"
    ∷ codes "being"
    ∷ codes "have"
    ∷ codes "has"
    ∷ codes "had"
    ∷ codes "do"
    ∷ codes "does"
    ∷ codes "did"
    ∷ codes "will"
    ∷ codes "would"
    ∷ codes "could"
    ∷ codes "should"
    ∷ codes "may"
    ∷ codes "might"
    ∷ codes "must"
    ∷ codes "shall"
    ∷ codes "can"
    ∷ codes "i"
    ∷ codes "me"
    ∷ codes "my"
    ∷ codes "we"
    ∷ codes "our"
    ∷ codes "you"
    ∷ codes "your"
    ∷ codes "he"
    ∷ codes "she"
    ∷ codes "it"
    ∷ codes "they"
    ∷ codes "them"
    ∷ codes "his"
    ∷ codes "her"
    ∷ codes "its"
    ∷ codes "their"
    ∷ codes "this"
    ∷ codes "that"
    ∷ codes "these"
    ∷ codes "those"
    ∷ codes "what"
    ∷ codes "which"
    ∷ codes "who"
    ∷ codes "not"
    ∷ codes "no"
    ∷ codes "so"
    ∷ codes "if"
    ∷ codes "then"
    ∷ codes "than"
    ∷ codes "up"
    ∷ codes "out"
    ∷ codes "about"
    ∷ codes "all"
    ∷ codes "also"
    ∷ codes "just"
    ∷ codes "more"
    ∷ codes "when"
    ∷ codes "there"
    ∷ codes "here"
    ∷ codes "how"
    ∷ codes "s"
    ∷ codes "t"
    ∷ codes "re"
    ∷ codes "ve"
    ∷ codes "ll"
    ∷ codes "d"
    ∷ []

-- `len(w) < 3 || stopwords[w]`
unfoldable pub is_skipped : List ℕ → Bool
is_skipped w = ltb (length w) 3 || has_word stopwords w

unfoldable pub map_loop : List (List ℕ) → List KeyValue
map_loop [] = []
map_loop (w ∷ words) = let rest = map_loop words in if is_skipped w then rest else one_of w ∷ rest

unfoldable pub map : List ℕ → List ℕ → List KeyValue
map filename contents = map_loop (tokenize contents)
