-- ===== src/Wiki/Chunk/Packing.antt =====
-- The packer of stack/backend/internal/wiki/chunk.go returns, and keeps its budget.
use truth_in_stream.Prelude.{
  ℕ, zero, suc, ◌+◌, ◌≤◌, ◌<◌, ◌&&◌, List, [], ◌∷◌, Option, none, some, length, ltb, leb,
  if◌then◌else◌, arith, ◌≡◌, refl, ap, Bool-cases, &&_true, inl, inr,
}
use truth_in_stream.Wiki.Bytes.{Bytes, split_after}
use truth_in_stream.Wiki.Chunk.{
  tokens_for_len, Packer, paragraph_sep, flush, write, tokens, sentence_round, sentence_rounds,
  sentence_fuel, add_sentence, add_sentences, add_paragraph, add_paragraphs,
}
use truth_in_stream.Wiki.Chunk.Rounds.{
  tokens_for_len-le, measure, Fits, flush-Fits, length-write, length-write_exact, write-Fits,
  sentence_round-Round,
}

module _ (floor budget : ℕ) where
  -- The packer goes on, in its budget.
  abbrev pub Lasts : Option Packer → Type 0
  Lasts o = (q : Packer) × (o ≡ some q) × Fits floor budget q

  sentence_rounds-Lasts :
      (fuel : ℕ) (sep s : Bytes) (p : Packer)
      → Fits floor budget p
      → 0 < floor
      → 0 < budget
      → measure s p.cur ≤ fuel
      → Lasts (sentence_rounds floor budget fuel sep s p)
  unfolding sentence_rounds
  sentence_rounds-Lasts fuel sep [] p fits high pos enough = (p, refl, fits)
  sentence_rounds-Lasts zero sep (c ∷ s) p fits high pos enough = absurd (omega (arith, enough))
  sentence_rounds-Lasts (suc fuel) sep (c ∷ s) p fits high pos enough =
      let r = sentence_round floor budget sep (c ∷ s) p in
      let (fits', less) =
        sentence_round-Round floor budget sep (c ∷ s) p fits (omega arith) high pos in
      sentence_rounds-Lasts fuel r.1.sep r.1.left r.0 fits' high pos (omega (arith, less, enough))

  add_sentence-Lasts :
      (sep s : Bytes) (p : Packer)
      → Fits floor budget p
      → 0 < floor
      → 0 < budget
      → Lasts (add_sentence floor budget sep s p)
  unfolding add_sentence
  add_sentence-Lasts sep s p fits high pos =
      sentence_rounds-Lasts (sentence_fuel floor budget s) sep s p fits high pos (ground arith)

  -- What follows a step that goes on goes on.
  bind-Lasts :
      (o : Option Packer) (next : Packer → Option Packer)
      → Lasts o
      → ((q : Packer) → Fits floor budget q → Lasts (next q))
      → Lasts (elim o [ none ↦ none | some q ↦ next q ])
  bind-Lasts none next (q, e, fits) later = cc
  bind-Lasts (some q) next (q', e, fits) later = let same : q ≡ q' = cc e in later q (rw same fits)

  add_sentences-Lasts :
      (sep : Bytes) (ss : List Bytes) (p : Packer)
      → Fits floor budget p
      → 0 < floor
      → 0 < budget
      → Lasts (add_sentences floor budget sep ss p)
  unfolding add_sentences
  add_sentences-Lasts sep [] p fits high pos = (p, refl, fits)
  add_sentences-Lasts sep (s ∷ ss) p fits high pos =
      bind-Lasts (add_sentence floor budget sep s p) (add_sentences floor budget [] ss)
        (add_sentence-Lasts sep s p fits high pos)
        (λ q fits'. add_sentences-Lasts [] ss q fits' high pos)

  add_paragraph-Lasts :
      (para : Bytes) (p : Packer)
      → Fits floor budget p
      → 0 < floor
      → 0 < budget
      → Lasts (add_paragraph floor budget para p)
  unfolding add_paragraph
  add_paragraph-Lasts para p fits high pos =
      let sep_len = if ltb 0 (length p.cur) then length paragraph_sep else 0 in
      elim (Bool-cases (leb (tokens_for_len (length p.cur + sep_len + length para)) budget)) [
        | inl whole ↦ rw whole (
          write paragraph_sep para p,
          refl,
          write-Fits floor budget paragraph_sep para p fits (
              omega (
                arith,
                length-write_exact floor budget paragraph_sep para p,
                tokens_for_len-le (length p.cur + sep_len + length para) budget whole,
              )),
        )
        | inr long ↦
            rw long
              (elim (Bool-cases
                (leb floor (tokens floor budget p) && leb (tokens_for_len (length para)) budget)) [
                  | inl fresh ↦ rw fresh (
                      let (fits', closed) = flush-Fits floor budget p fits in
                      let alone =
                        (length-write floor budget [] para (flush p)).1 (ap length closed) in
                      let (enough, small) =
                        &&_true (leb floor (tokens floor budget p))
                          (leb (tokens_for_len (length para)) budget) fresh in
                      (
                        write [] para (flush p),
                        refl,
                        write-Fits floor budget [] para (flush p) fits'
                            (omega (arith, alone, tokens_for_len-le (length para) budget small)),
                      ))
                  | inr split ↦ rw split (
                      let pieces = split_after b'.' b' ' para in
                      add_sentences-Lasts paragraph_sep (pieces.0 ∷ pieces.1) p fits high pos)
                ])
      ]

  pub add_paragraphs-Lasts :
      (paras : List Bytes) (p : Packer)
      → Fits floor budget p
      → 0 < floor
      → 0 < budget
      → Lasts (add_paragraphs floor budget paras p)
  unfolding add_paragraphs
  add_paragraphs-Lasts [] p fits high pos = (p, refl, fits)
  add_paragraphs-Lasts (para ∷ paras) p fits high pos =
      bind-Lasts (add_paragraph floor budget para p) (add_paragraphs floor budget paras)
        (add_paragraph-Lasts para p fits high pos)
        (λ q fits'. add_paragraphs-Lasts paras q fits' high pos)
