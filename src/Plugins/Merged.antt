-- ===== src/Plugins/Merged.antt =====
-- The pairs of a text that is cut into chunks.
use map_reduce_rpc.Prelude.{
  ℕ, ◌+◌, ◌≡◌, refl, ap, ◌∙◌, arith, false, ◌||◌, not, List, [], ◌∷◌, ◌++◌, Bool-cases, inl, inr,
}
use map_reduce_rpc.Prelude.Trim.{is_white}
use map_reduce_rpc.Plugins.{is_letter, lower, to_lower, tokenize, letter_fields, ones, one_of}
use map_reduce_rpc.Plugins.Wc
use map_reduce_rpc.Plugins.CharFreq
use map_reduce_rpc.Plugins.CharFreq.{is_print}
use map_reduce_rpc.Plugins.TopWords
use map_reduce_rpc.Plugins.Sentiment
use map_reduce_rpc.Plugins.LineStats.{line_breaks}
use map_reduce_rpc.Plugins.Tokens.{letter_fields-append}

to_lower-append : (a b : List ℕ) → to_lower (a ++ b) ≡ to_lower a ++ to_lower b
unfolding to_lower
to_lower-append [] b = refl
to_lower-append (c ∷ a) b = ap (◌∷◌ (lower c)) (to_lower-append a b)

lower_letter : (c : ℕ) → is_letter c ≡ false → is_letter (lower c) ≡ false
lower_letter c other = ground arith

tokenize-append :
    (a b : List ℕ) (c : ℕ) → is_letter c ≡ false → tokenize (a ++ c ∷ b) ≡ tokenize a ++ tokenize b
unfolding tokenize to_lower
tokenize-append a b c ends =
    ap letter_fields (to_lower-append a (c ∷ b))
    ∙ letter_fields-append (to_lower a) (to_lower b) (lower c) (lower_letter c ends)

ones-append : (ws vs : List (List ℕ)) → ones (ws ++ vs) ≡ ones ws ++ ones vs
unfolding ones
ones-append [] vs = refl
ones-append (w ∷ ws) vs = ap (◌∷◌ (one_of w)) (ones-append ws vs)

top_words-append :
    (ws vs : List (List ℕ))
    → TopWords.map_loop (ws ++ vs) ≡ TopWords.map_loop ws ++ TopWords.map_loop vs
unfolding TopWords.map_loop
top_words-append [] vs = refl
top_words-append (w ∷ ws) vs = elim (Bool-cases (TopWords.is_skipped w)) [
  | inl skipped ↦ rw skipped (top_words-append ws vs)
  | inr taken ↦ rw taken (ap (◌∷◌ (one_of w)) (top_words-append ws vs))
]

sentiment-append :
    (ws vs : List (List ℕ))
    → Sentiment.map_loop (ws ++ vs) ≡ Sentiment.map_loop ws ++ Sentiment.map_loop vs
unfolding Sentiment.map_loop
sentiment-append [] vs = refl
sentiment-append (w ∷ ws) vs =
    ap (◌∷◌ (one_of (Sentiment.category_key (Sentiment.category w)))) (sentiment-append ws vs)

char_freq-append :
    (a b : List ℕ) → CharFreq.map_loop (a ++ b) ≡ CharFreq.map_loop a ++ CharFreq.map_loop b
unfolding CharFreq.map_loop
char_freq-append [] b = refl
char_freq-append (c ∷ a) b = elim (Bool-cases (not (is_print c) || is_white c)) [
  | inl skipped ↦ rw skipped (char_freq-append a b)
  | inr taken ↦ rw taken (ap (◌∷◌ (one_of (c ∷ []))) (char_freq-append a b))
]

line_breaks-append : (a b : List ℕ) → line_breaks (a ++ b) ≡ line_breaks a + line_breaks b
unfolding line_breaks
line_breaks-append [] b = omega arith
line_breaks-append (c ∷ a) b = ground (arith, line_breaks-append a b)

-- Cutting a text at a character that is no letter keeps the pairs of plugins/wc, topwords and
-- sentiment: those of the parts, one after the other, are those of the whole.
pub cut_at_separator :
    (filename a b : List ℕ) (c : ℕ)
    → is_letter c ≡ false
    → (Wc.map filename (a ++ c ∷ b) ≡ Wc.map filename a ++ Wc.map filename b)
      × (TopWords.map filename (a ++ c ∷ b) ≡ TopWords.map filename a ++ TopWords.map filename b)
      × (Sentiment.map filename (a ++ c ∷ b) ≡ Sentiment.map filename a ++ Sentiment.map filename b)
unfolding Wc.map TopWords.map Sentiment.map
cut_at_separator filename a b c ends = (
  ap ones (letter_fields-append a b c ends) ∙ ones-append (letter_fields a) (letter_fields b),
  ap TopWords.map_loop (tokenize-append a b c ends) ∙ top_words-append (tokenize a) (tokenize b),
  ap Sentiment.map_loop (tokenize-append a b c ends) ∙ sentiment-append (tokenize a) (tokenize b),
)

-- The pairs of plugins/charfreq and the line breaks of plugins/linestats do not depend on where a text
-- is cut.
pub cut_anywhere :
    (filename a b : List ℕ)
    → (CharFreq.map filename (a ++ b) ≡ CharFreq.map filename a ++ CharFreq.map filename b)
      × (line_breaks (a ++ b) ≡ line_breaks a + line_breaks b)
unfolding CharFreq.map
cut_anywhere filename a b = (
  ap CharFreq.map_loop (to_lower-append a b) ∙ char_freq-append (to_lower a) (to_lower b),
  line_breaks-append a b,
)
