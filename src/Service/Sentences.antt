-- ===== src/Service/Sentences.antt =====
-- How a transcript is cut into sentences: `isTerminator`, `sentenceCount` and
-- `incompleteTrailingFragment` of stack/backend/internal/service/live.go. A text is its code points.
use truth_in_stream.Prelude.{
  ℕ, suc, ◌+◌, ◌-◌, ◌/◌, max, Bool, true, false, not, ◌&&◌, ◌||◌, [], ◌∷◌, Runes, is_space, ltb,
  ◌==◌, if◌then◌else◌,
}

abbrev pub max_words_per_sentence : ℕ
max_words_per_sentence = 25

unfoldable pub is_terminator : ℕ → Bool
is_terminator r = r == b'.' || r == b'!' || r == b'?' || r == 0x2026

-- The variables of the loop of `sentenceCount`.
pub record Counting : Type 0 where
  pub terminators : ℕ
  pub words : ℕ
  pub prev_term : Bool
  pub in_word : Bool

unfoldable pub count_rune : Counting → ℕ → Counting
unfolding is_terminator
count_rune c r =
    let term = is_terminator r in
    record {
      terminators = if term && not c.prev_term then suc c.terminators else c.terminators;
      words = if not (is_space r) && not c.in_word then suc c.words else c.words;
      prev_term = term;
      in_word = not (is_space r);
    }

unfoldable pub count_runes : Counting → Runes → Counting
unfolding count_rune
count_runes c [] = c
count_runes c (r ∷ text) = count_runes (count_rune c r) text

unfoldable pub estimate : Counting → ℕ
estimate c =
    if c.words == 0
    then 0
    else max 1 (max c.terminators ((c.words + max_words_per_sentence - 1) / max_words_per_sentence))

abbrev pub before_text : Counting
before_text = record { terminators = 0; words = 0; prev_term = false; in_word = false }

unfoldable pub sentence_count : Runes → ℕ
unfolding estimate count_runes
sentence_count text = estimate (count_runes before_text text)

-- The words of the sentence that is still open, from the number so far and whether one is open.
unfoldable pub trailing_words : ℕ → Bool → Runes → ℕ
unfolding is_terminator
trailing_words words in_word [] = words
trailing_words words in_word (r ∷ text) =
    if is_space r
    then trailing_words words false text
    else if is_terminator r
    then trailing_words 0 false text
    else trailing_words (if in_word then words else suc words) true text

unfoldable pub incomplete_trailing_fragment : Runes → Bool
unfolding trailing_words
incomplete_trailing_fragment text =
    let words = trailing_words 0 false text in ltb 0 words && ltb words max_words_per_sentence
