-- ===== src/Plugins/Sentiment.antt =====
-- plugins/sentiment/sentiment.go; its `Reduce` is `Sum.reduce`.
use map_reduce_rpc.Prelude.{ℕ, List, [], ◌∷◌, ◌++◌, if◌then◌else◌}
use map_reduce_rpc.Prelude.Text.{codes}
use map_reduce_rpc.Rpc.{KeyValue}
use map_reduce_rpc.Plugins.{tokenize, has_word, one_of}

unfoldable pub positive_words : List (List ℕ)
positive_words =
    codes "good"
    ∷ codes "great"
    ∷ codes "excellent"
    ∷ codes "wonderful"
    ∷ codes "amazing"
    ∷ codes "fantastic"
    ∷ codes "outstanding"
    ∷ codes "superb"
    ∷ codes "brilliant"
    ∷ codes "love"
    ∷ codes "loved"
    ∷ codes "happy"
    ∷ codes "joy"
    ∷ codes "joyful"
    ∷ codes "beautiful"
    ∷ codes "perfect"
    ∷ codes "best"
    ∷ codes "better"
    ∷ codes "awesome"
    ∷ codes "pleasant"
    ∷ codes "positive"
    ∷ codes "success"
    ∷ codes "successful"
    ∷ codes "win"
    ∷ codes "winner"
    ∷ codes "won"
    ∷ codes "nice"
    ∷ codes "helpful"
    ∷ codes "hope"
    ∷ codes "hopeful"
    ∷ codes "thankful"
    ∷ codes "grateful"
    ∷ codes "kind"
    ∷ codes "kindness"
    ∷ codes "care"
    ∷ codes "caring"
    ∷ codes "bright"
    ∷ codes "celebrate"
    ∷ codes "celebration"
    ∷ codes "enjoy"
    ∷ codes "enjoyed"
    ∷ codes "impressive"
    ∷ codes "innovative"
    ∷ codes "creative"
    ∷ codes "proud"
    ∷ codes "trust"
    ∷ codes "trusted"
    ∷ codes "safe"
    ∷ codes "secure"
    ∷ codes "courage"
    ∷ codes "courageous"
    ∷ codes "strong"
    ∷ codes "strength"
    ∷ []

unfoldable pub negative_words : List (List ℕ)
negative_words =
    codes "bad"
    ∷ codes "terrible"
    ∷ codes "awful"
    ∷ codes "horrible"
    ∷ codes "dreadful"
    ∷ codes "poor"
    ∷ codes "worst"
    ∷ codes "hate"
    ∷ codes "hated"
    ∷ codes "fail"
    ∷ codes "failed"
    ∷ codes "failure"
    ∷ codes "sad"
    ∷ codes "unhappy"
    ∷ codes "miserable"
    ∷ codes "ugly"
    ∷ codes "wrong"
    ∷ codes "broken"
    ∷ codes "corrupt"
    ∷ codes "evil"
    ∷ codes "pain"
    ∷ codes "painful"
    ∷ codes "hurt"
    ∷ codes "loss"
    ∷ codes "lose"
    ∷ codes "lost"
    ∷ codes "crisis"
    ∷ codes "disaster"
    ∷ codes "problem"
    ∷ codes "problems"
    ∷ codes "issue"
    ∷ codes "issues"
    ∷ codes "trouble"
    ∷ codes "troubles"
    ∷ codes "dangerous"
    ∷ codes "damage"
    ∷ codes "damaged"
    ∷ codes "destroy"
    ∷ codes "destroyed"
    ∷ codes "weak"
    ∷ codes "weakness"
    ∷ codes "fear"
    ∷ codes "fearful"
    ∷ codes "angry"
    ∷ codes "anger"
    ∷ codes "rage"
    ∷ codes "violence"
    ∷ codes "violent"
    ∷ codes "attack"
    ∷ codes "attacked"
    ∷ codes "threat"
    ∷ codes "threatened"
    ∷ []

unfoldable pub category : List ℕ → List ℕ
category w =
    if has_word positive_words w
    then codes "positive"
    else if has_word negative_words w
    then codes "negative"
    else codes "neutral"

abbrev pub category_key : List ℕ → List ℕ
category_key name = codes "sentiment:" ++ name

unfoldable pub map_loop : List (List ℕ) → List KeyValue
map_loop [] = []
map_loop (w ∷ words) = one_of (category_key (category w)) ∷ map_loop words

unfoldable pub map : List ℕ → List ℕ → List KeyValue
map filename contents = map_loop (tokenize contents)
