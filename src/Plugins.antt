-- ===== src/Plugins.antt =====
-- plugins/: the map and reduce functions that workers load, and the functions of Go's standard library
-- that they share, for texts in ASCII.
pub mod Sum
pub mod Wc
pub mod CharFreq
pub mod Bigram
pub mod Indexer
pub mod LineStats
pub mod TopWords
pub mod Sentiment
pub mod EmailExtract
pub mod UrlExtractor
pub mod NoCrash
pub mod Crash
pub mod EarlyExit
pub mod JobCount
pub mod Timing
pub mod Tokens
pub mod Totals
pub mod Counting
pub mod Shares
pub mod Merged
use map_reduce_rpc.Prelude.{
  ℕ, ◌+◌, ◌-◌, ◌^◌, Bool, true, false, ◌||◌, ◌&&◌, not, Option, none, some, List, [], ◌∷◌, ◌++◌,
  ltb, leb, eqb, if◌then◌else◌, length, ◌==◌, list_eq, nat_eq,
}
use map_reduce_rpc.Prelude.Text.{codes, is_digit, digits_value}
use map_reduce_rpc.Prelude.TextOrder.{text_less}
use map_reduce_rpc.Rpc.{KeyValue}

-- `unicode.IsLetter` and `unicode.ToLower`
abbrev pub is_letter : ℕ → Bool
is_letter r = (leb b'a' r && leb r b'z') || (leb b'A' r && leb r b'Z')

abbrev pub lower : ℕ → ℕ
lower r = if leb b'A' r && leb r b'Z' then r + 32 else r

-- `strings.ToLower`
unfoldable pub to_lower : List ℕ → List ℕ
to_lower [] = []
to_lower (c ∷ s) = lower c ∷ to_lower s

-- The words of a text: `word` is the one that is being read.
abbrev pub word_ends : List ℕ → List (List ℕ) → List (List ℕ)
word_ends [] words = words
word_ends (c ∷ word) words = (c ∷ word) ∷ words

unfoldable pub fields_loop : (ℕ → Bool) → List ℕ → List ℕ → List (List ℕ)
fields_loop sep word [] = word_ends word []
fields_loop sep word (c ∷ s) =
    let ended = word_ends word (fields_loop sep [] s) in
    let longer = fields_loop sep (word ++ c ∷ []) s in if sep c then ended else longer

abbrev pub not_letter : ℕ → Bool
not_letter r = not (is_letter r)

-- `strings.FieldsFunc` with the test that a character is no letter.
unfoldable pub letter_fields : List ℕ → List (List ℕ)
letter_fields s = fields_loop not_letter [] s

-- `tokenize` of plugins/bigram, plugins/topwords and plugins/sentiment.
unfoldable pub tokenize : List ℕ → List (List ℕ)
tokenize text = letter_fields (to_lower text)

-- A look into a `map[string]bool` of constant words.
unfoldable pub has_word : List (List ℕ) → List ℕ → Bool
has_word [] w = false
has_word (v ∷ vs) w = v == w || has_word vs w

-- A pair with the value "1".
abbrev pub one_of : List ℕ → KeyValue
one_of key = record { key = key; value = codes "1" }

unfoldable pub ones : List (List ℕ) → List KeyValue
ones [] = []
ones (w ∷ ws) = one_of w ∷ ones ws

abbrev all_digits : List ℕ → Bool
all_digits [] = true
all_digits (c ∷ s) = is_digit c && all_digits s

abbrev whole_number : ℕ → List ℕ → Option ℕ
whole_number bound s =
    if all_digits s && ltb (digits_value s) bound then some (digits_value s) else none

abbrev some_digits : ℕ → List ℕ → Option ℕ
some_digits bound [] = none
some_digits bound (c ∷ s) = whole_number bound (c ∷ s)

abbrev pub negated : Option ℕ → Option ℕ
negated none = none
negated (some n) = some (if eqb n 0 then 0 else 2 ^ 64 - n)

-- `strconv.Atoi`, whose result is the pattern of an `int64`.
unfoldable pub atoi : List ℕ → Option ℕ
atoi [] = none
atoi (c ∷ s) =
    if eqb c b'-'
    then negated (some_digits (2 ^ 63 + 1) s)
    else if eqb c b'+'
    then some_digits (2 ^ 63) s
    else some_digits (2 ^ 63) (c ∷ s)

-- `sort.Strings`. Texts that are equal for the order are the same, so there is one result.
unfoldable pub insert_text : List ℕ → List (List ℕ) → List (List ℕ)
insert_text s [] = s ∷ []
insert_text s (t ∷ ts) =
    let later = insert_text s ts in if text_less t s then t ∷ later else s ∷ t ∷ ts

unfoldable pub sort_strings : List (List ℕ) → List (List ℕ)
sort_strings [] = []
sort_strings (s ∷ ss) = insert_text s (sort_strings ss)

-- `strings.Join`
unfoldable pub join : List ℕ → List (List ℕ) → List ℕ
join sep [] = []
join sep (s ∷ []) = s
join sep (s ∷ t ∷ ts) = s ++ (sep ++ join sep (t ∷ ts))
