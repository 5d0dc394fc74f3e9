-- ===== src/Wiki/Chunk/Bounds.antt =====
-- The chunks of stack/backend/internal/wiki/chunk.go.
use truth_in_stream.Prelude.{
  ℕ, ◌+◌, ◌-◌, ◌*◌, ◌≤◌, ◌<◌, List, [], ◌∷◌, ◌++◌, map, Option, none, some, length, length-append,
  ◌==◌, arith, ◌≡◌, refl, Bool-cases, inl, inr, All,
}
use truth_in_stream.Wiki.Bytes.{Bytes, trim_space, split_on}
use truth_in_stream.Wiki.Chunk.Rounds.{Fits, flush-Fits}
use truth_in_stream.Wiki.Chunk.Packing.{Lasts, add_paragraphs-Lasts}
use truth_in_stream.Wiki.Chunk.{
  tokens_for_len, Packer, paragraph_sep, flush, add_paragraphs, finish, chunk, min_chunk_tokens,
  max_chunk_tokens,
}

tokens_for_len_add : (a b k : ℕ) → b ≤ k * 4 → tokens_for_len (a + b) ≤ tokens_for_len a + k
unfolding tokens_for_len
tokens_for_len_add a b k h = omega (arith, h)

-- Groups in the budget make chunks in the limit.
prefixed :
    (prefix : Bytes) (budget : ℕ) (groups : List Bytes)
    → tokens_for_len (length prefix) + budget ≡ max_chunk_tokens
    → All (λ g. length g ≤ budget * 4) groups
    → All (λ c. tokens_for_len (length c) ≤ max_chunk_tokens) (map (λ g. prefix ++ g) groups)
prefixed prefix budget [] e h = tt
prefixed prefix budget (g ∷ groups) e (hg, h) = (
  rw (length-append prefix g)
      (omega (arith, e, tokens_for_len_add (length prefix) (length g) budget hg)),
  prefixed prefix budget groups e h,
)

abbrev Limited : Option (List Bytes) → Type 0
Limited o =
    (chunks : List Bytes) × (o ≡ some chunks)
    × All (λ c. tokens_for_len (length c) ≤ max_chunk_tokens) chunks

finish-Limited :
    (prefix : Bytes) (floor budget : ℕ) (o : Option Packer)
    → tokens_for_len (length prefix) + budget ≡ max_chunk_tokens
    → Lasts floor budget o
    → Limited (finish prefix o)
unfolding finish
finish-Limited prefix floor budget none e (q, absent, fits) = cc
finish-Limited prefix floor budget (some p) e (q, same, fits) =
    let p_is_q : p ≡ q = cc same in
    let fits_p : Fits floor budget p = rw p_is_q fits in
    (
      map (λ g. prefix ++ g) (flush p).groups,
      refl,
      prefixed prefix budget (flush p).groups e (flush-Fits floor budget p fits_p).0.0,
    )

-- Where the title with its separator is estimated at less than 256 tokens: packing an article
-- ends, within the two rounds for a byte that its sentences are given, and every chunk, title
-- included, is estimated at 512 tokens or less.
pub chunk-Limited :
    (title lead : Bytes)
    → tokens_for_len (length (title ++ paragraph_sep)) < min_chunk_tokens
    → (chunks : List Bytes) × (chunk title lead ≡ some chunks)
      × All (λ c. tokens_for_len (length c) ≤ max_chunk_tokens) chunks
unfolding chunk
chunk-Limited title lead short = elim (Bool-cases (length (trim_space lead) == 0)) [
  | inl t ↦ rw t ([], refl, tt)
  | inr t ↦ rw t (
      let prefix = title ++ paragraph_sep in
      let taken = tokens_for_len (length prefix) in
      let paras = split_on b'\n' b'\n' lead in
      finish-Limited prefix (min_chunk_tokens - taken) (max_chunk_tokens - taken)
        (add_paragraphs (min_chunk_tokens - taken) (max_chunk_tokens - taken) (paras.0 ∷ paras.1)
          (record { groups = []; cur = [] }))
        (omega (arith, short))
        (add_paragraphs-Lasts (min_chunk_tokens - taken) (max_chunk_tokens - taken)
          (paras.0 ∷ paras.1) (record { groups = []; cur = [] }) (tt, omega arith)
          (omega (arith, short)) (omega (arith, short))))
]
