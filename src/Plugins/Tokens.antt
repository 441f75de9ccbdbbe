-- ===== src/Plugins/Tokens.antt =====
-- What splitting a text into words gives.
use map_reduce_rpc.Prelude.{
  ℕ, suc, ◌+◌, ◌≤◌, ◌≡◌, refl, ap, ◌∙◌, arith, Bool, true, false, not, List, [], ◌∷◌, ◌++◌,
  append_assoc, if◌then◌else◌, Bool-cases, inl, inr, length, length-append, All, All-append,
}
use map_reduce_rpc.Plugins.{word_ends, fields_loop, not_letter, is_letter, letter_fields, to_lower}

-- The texts one after the other.
unfoldable pub concat : List (List ℕ) → List ℕ
concat [] = []
concat (s ∷ ss) = s ++ concat ss

-- The characters that pass a test.
unfoldable pub keep : (ℕ → Bool) → List ℕ → List ℕ
keep p [] = []
keep p (c ∷ s) = let rest = keep p s in if p c then c ∷ rest else rest

-- A word has a character, and no separator.
abbrev pub IsWord : (ℕ → Bool) → List ℕ → Type 0
IsWord sep w = (1 ≤ length w) × All (λ c. sep c ≡ false) w

module _ (sep : ℕ → Bool) where
  concat-word_ends :
      (word : List ℕ) (ws : List (List ℕ)) → concat (word_ends word ws) ≡ word ++ concat ws
  unfolding concat
  concat-word_ends [] ws = refl
  concat-word_ends (c ∷ word) ws = refl

  concat-fields_loop :
      (word s : List ℕ) → concat (fields_loop sep word s) ≡ word ++ keep (λ c. not (sep c)) s
  unfolding fields_loop keep concat
  concat-fields_loop word [] = concat-word_ends word []
  concat-fields_loop word (c ∷ s) = elim (Bool-cases (sep c)) [
    | inl ends ↦
        rw ends
          (concat-word_ends word (fields_loop sep [] s) ∙ ap (◌++◌ word) (concat-fields_loop [] s))
    | inr goes_on ↦ rw goes_on (
        concat-fields_loop (word ++ c ∷ []) s
        ∙ append_assoc word (c ∷ []) (keep (λ c. not (sep c)) s))
  ]

  word_ends-IsWord :
      (word : List ℕ) (ws : List (List ℕ))
      → All (λ c. sep c ≡ false) word
      → All (IsWord sep) ws
      → All (IsWord sep) (word_ends word ws)
  word_ends-IsWord [] ws letters words = words
  word_ends-IsWord (c ∷ word) ws letters words = ((omega arith, letters), words)

  fields_loop-IsWord :
      (word s : List ℕ) → All (λ c. sep c ≡ false) word → All (IsWord sep) (fields_loop sep word s)
  unfolding fields_loop
  fields_loop-IsWord word [] letters = word_ends-IsWord word [] letters tt
  fields_loop-IsWord word (c ∷ s) letters = elim (Bool-cases (sep c)) [
    | inl ends ↦
        rw ends (word_ends-IsWord word (fields_loop sep [] s) letters (fields_loop-IsWord [] s tt))
    | inr goes_on ↦ rw goes_on (
        fields_loop-IsWord (word ++ c ∷ []) s
          (All-append (λ c. sep c ≡ false) word (c ∷ []) letters (goes_on, tt)))
  ]

  word_ends-append :
      (word : List ℕ) (ws vs : List (List ℕ)) → word_ends word (ws ++ vs) ≡ word_ends word ws ++ vs
  word_ends-append [] ws vs = refl
  word_ends-append (c ∷ word) ws vs = refl

  pub fields_loop-append :
      (word a b : List ℕ) (c : ℕ)
      → sep c ≡ true
      → fields_loop sep word (a ++ c ∷ b) ≡ fields_loop sep word a ++ fields_loop sep [] b
  unfolding fields_loop
  fields_loop-append word [] b c ends = rw ends (word_ends-append word [] (fields_loop sep [] b))
  fields_loop-append word (d ∷ a) b c ends = elim (Bool-cases (sep d)) [
    | inl cut ↦ rw cut (
        ap (word_ends word) (fields_loop-append [] a b c ends)
        ∙ word_ends-append word (fields_loop sep [] a) (fields_loop sep [] b))
    | inr goes_on ↦ rw goes_on (fields_loop-append (word ++ d ∷ []) a b c ends)
  ]

  length-word_ends :
      (word : List ℕ) (ws : List (List ℕ)) → length (word_ends word ws) ≤ length word + length ws
  length-word_ends [] ws = omega arith
  length-word_ends (c ∷ word) ws = omega arith

  pub length-fields_loop :
      (word s : List ℕ) → length (fields_loop sep word s) ≤ length word + length s
  unfolding fields_loop
  length-fields_loop [] [] = omega arith
  length-fields_loop (c ∷ word) [] = omega arith
  length-fields_loop word (c ∷ s) = elim (Bool-cases (sep c)) [
    | inl ends ↦
        rw ends
          (omega (arith, length-word_ends word (fields_loop sep [] s), length-fields_loop [] s))
    | inr goes_on ↦
        rw goes_on
          (omega (arith, length-fields_loop (word ++ c ∷ []) s, length-append word (c ∷ [])))
  ]

-- The words of a text, one after the other, are its letters in their order; every word has a letter,
-- and has letters only.
pub letter_fields_lem :
    (s : List ℕ)
    → (concat (letter_fields s) ≡ keep (λ c. not (not_letter c)) s)
      × All (IsWord not_letter) (letter_fields s)
unfolding letter_fields
letter_fields_lem s = (concat-fields_loop not_letter [] s, fields_loop-IsWord not_letter [] s tt)

pub letter_fields-append :
    (a b : List ℕ) (c : ℕ)
    → is_letter c ≡ false
    → letter_fields (a ++ c ∷ b) ≡ letter_fields a ++ letter_fields b
unfolding letter_fields
letter_fields-append a b c ends = fields_loop-append not_letter [] a b c (ap not ends)

pub length-letter_fields : (s : List ℕ) → length (letter_fields s) ≤ length s
unfolding letter_fields
length-letter_fields s = omega (arith, length-fields_loop not_letter [] s)

pub length-to_lower : (s : List ℕ) → length (to_lower s) ≡ length s
unfolding to_lower
length-to_lower [] = refl
length-to_lower (c ∷ s) = ap suc (length-to_lower s)
