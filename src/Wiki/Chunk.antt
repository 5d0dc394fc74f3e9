-- ===== src/Wiki/Chunk.antt =====
-- `Chunk` and its packer, stack/backend/internal/wiki/chunk.go, on texts as lists of bytes. The
-- token budgets are signed in the source: `floor` and `budget` are natural numbers here, which is
-- the same where the title leaves room for both.
pub mod Cuts
pub mod Rounds
pub mod Packing
pub mod Bounds
use truth_in_stream.Prelude.{
  ℕ, zero, suc, ◌+◌, ◌-◌, ◌*◌, ◌/◌, max, Bool, true, false, not, ◌&&◌, ◌||◌, List, [], ◌∷◌, ◌++◌,
  map, Option, none, some, length, take, drop, get_elem?, ltb, leb, ◌==◌, if◌then◌else◌,
}
use truth_in_stream.Wiki.Bytes.{
  Bytes, trim_space, trim_blanks, last_index, split_on, split_after, rune_start,
}

unfoldable pub tokens_for_len : ℕ → ℕ
tokens_for_len n = (n + 3) / 4

-- The cut at the index of the last blank; at 0 or without one there is none.
unfoldable pub cut_at : Option ℕ → Bytes → Bytes × Bytes
cut_at none s = ([], s)
cut_at (some zero) s = ([], s)
cut_at (some (suc i)) s = (take (suc i) s, trim_blanks (drop (suc i) s))

unfoldable pub cut_at_word : Bytes → ℕ → Bytes × Bytes
unfolding cut_at
cut_at_word s max_bytes =
    if max_bytes == 0
    then ([], s)
    else if leb (length s) max_bytes
    then (s, [])
    else cut_at (last_index b' ' (take max_bytes s)) s

-- The byte at an index, if there is one, starts a rune.
abbrev starts_rune : Option ℕ → Bool
starts_rune none = true
starts_rune (some b) = rune_start b

-- `for cut > 1 && !utf8.RuneStart(s[cut]) { cut-- }`
unfoldable pub back_to_rune : Bytes → ℕ → ℕ
back_to_rune s zero = zero
back_to_rune s (suc zero) = suc zero
back_to_rune s (suc (suc n)) =
    let earlier = back_to_rune s (suc n) in
    if starts_rune (get_elem? s (suc (suc n))) then suc (suc n) else earlier

unfoldable pub cut_at_rune : Bytes → ℕ → Bytes × Bytes
unfolding back_to_rune
cut_at_rune s max_bytes =
    let cut = back_to_rune s (max max_bytes 1) in
    if leb (length s) max_bytes then (s, []) else (take cut s, drop cut s)

pub record Packer : Type 0 where
  pub groups : List Bytes
  pub cur : Bytes

abbrev pub paragraph_sep : Bytes
paragraph_sep = b'\n' ∷ b'\n' ∷ []

unfoldable pub flush : Packer → Packer
unfolding trim_space
flush p =
    if ltb 0 (length p.cur)
    then record { groups = p.groups ++ trim_space p.cur ∷ []; cur = [] }
    else p

unfoldable pub write : Bytes → Bytes → Packer → Packer
write sep s p = record p { cur = (if ltb 0 (length p.cur) then p.cur ++ sep else p.cur) ++ s }

module _ (floor budget : ℕ) where
  unfoldable pub tokens : Packer → ℕ
  unfolding tokens_for_len
  tokens p = tokens_for_len (length p.cur)

  -- The text of a sentence that is left over, and what goes before it.
  pub record Rest : Type 0 where
    pub sep : Bytes
    pub left : Bytes

  -- A piece is cut off, written and closed.
  unfoldable pub put_piece : Bytes → Bytes × Bytes → Packer → Packer × Rest
  unfolding write flush
  put_piece sep (head, tail) p = (flush (write sep head p), record { sep = []; left = tail })

  unfoldable pub top_up : Bytes → Bytes → ℕ → Bytes × Bytes → Packer → Packer × Rest
  unfolding put_piece cut_at_rune flush
  top_up sep s free ([], tail) p =
      if length p.cur == 0
      then put_piece sep (cut_at_rune s free) p
      else (flush p, record { sep = []; left = s })
  top_up sep s free (b ∷ head, tail) p = put_piece sep (b ∷ head, tail) p

  -- One round of the loop of `addSentence`; the text left over is empty when it returns.
  unfoldable pub sentence_round : Bytes → Bytes → Packer → Packer × Rest
  unfolding tokens write flush cut_at_word top_up tokens_for_len
  sentence_round sep s p =
      let room = budget * 4 - length p.cur in
      let free = if ltb 0 (length p.cur) then room - length sep else room in
      if leb (tokens_for_len (length p.cur + length sep + length s)) budget
      then (write sep s p, record { sep = sep; left = [] })
      else if leb floor (tokens p)
      then (flush p, record { sep = []; left = s })
      else top_up sep s free (cut_at_word s free) p

  -- `none`: the fuel is spent with text left over.
  unfoldable pub sentence_rounds : ℕ → Bytes → Bytes → Packer → Option Packer
  unfolding sentence_round
  sentence_rounds fuel sep [] p = some p
  sentence_rounds zero sep (c ∷ s) p = none
  sentence_rounds (suc fuel) sep (c ∷ s) p =
      let (q, later) = sentence_round sep (c ∷ s) p in sentence_rounds fuel later.sep later.left q

  -- Two rounds for each byte, and one to close what stands before the sentence.
  abbrev pub sentence_fuel : Bytes → ℕ
  sentence_fuel s = suc (length s + length s)

  unfoldable pub add_sentence : Bytes → Bytes → Packer → Option Packer
  unfolding sentence_rounds
  add_sentence sep s p = sentence_rounds (sentence_fuel s) sep s p

  unfoldable pub add_sentences : Bytes → List Bytes → Packer → Option Packer
  unfolding add_sentence
  add_sentences sep [] p = some p
  add_sentences sep (s ∷ ss) p = elim (add_sentence sep s p) [
    | none ↦ none
    | some q ↦ add_sentences [] ss q
  ]

  unfoldable pub add_paragraph : Bytes → Packer → Option Packer
  unfolding tokens tokens_for_len write flush add_sentences split_after
  add_paragraph para p =
      let sep_len = if ltb 0 (length p.cur) then length paragraph_sep else 0 in
      let pieces = split_after b'.' b' ' para in
      if leb (tokens_for_len (length p.cur + sep_len + length para)) budget
      then some (write paragraph_sep para p)
      else if leb floor (tokens p) && leb (tokens_for_len (length para)) budget
      then some (write [] para (flush p))
      else add_sentences paragraph_sep (pieces.0 ∷ pieces.1) p

  unfoldable pub add_paragraphs : List Bytes → Packer → Option Packer
  unfolding add_paragraph
  add_paragraphs [] p = some p
  add_paragraphs (para ∷ paras) p = elim (add_paragraph para p) [
    | none ↦ none
    | some q ↦ add_paragraphs paras q
  ]

abbrev pub min_chunk_tokens : ℕ
min_chunk_tokens = 256

abbrev pub max_chunk_tokens : ℕ
max_chunk_tokens = 512

-- The packed groups after the last flush, each behind the prefix.
unfoldable pub finish : Bytes → Option Packer → Option (List Bytes)
unfolding flush
finish prefix none = none
finish prefix (some p) = some (map (λ g. prefix ++ g) (flush p).groups)

unfoldable pub chunk : Bytes → Bytes → Option (List Bytes)
unfolding trim_space tokens_for_len split_on add_paragraphs finish
chunk title lead =
    let prefix = title ++ paragraph_sep in
    let taken = tokens_for_len (length prefix) in
    let paras = split_on b'\n' b'\n' lead in
    let packed =
      add_paragraphs (min_chunk_tokens - taken) (max_chunk_tokens - taken) (paras.0 ∷ paras.1)
        (record { groups = []; cur = [] }) in
    if length (trim_space lead) == 0 then some [] else finish prefix packed
