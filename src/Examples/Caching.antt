-- ===== src/Examples/Caching.antt =====
-- The embedding cache at concrete inputs.
use truth_in_stream.Prelude.{
  ℕ, suc, String, List, [], ◌∷◌, map, length, none, some, Runes, codes, itoa, ◌=?◌, =?→≡, ◌≡◌, refl,
  Bool-cases, inl, inr, lookup, insert,
}
use truth_in_stream.Embed.Cached.{
  normalize_text, cache_key, document, Cache, embedded, Filler, new_cache, get, put, fill_misses,
  embed_cached,
}
use truth_in_stream.Embed.Cached.Answers.{IsTrue, embed_cached_answers}

normalize : normalize_text (codes " Snow \t is  white.") ≡ codes "Snow is white."
unfolding normalize_text
normalize = refl

digest : Runes → String
digest text = itoa (length text)

-- The vector of a text is its key.
abbrev vector_of : Runes → String
vector_of = cache_key digest (codes "voyage") document

abbrev filler : Filler String ℕ
filler = record {
  embed_documents = λ texts w. (some (map vector_of texts), suc w);
  embed_queries = λ texts w. (none, suc w);
}

abbrev warm : Cache String
warm = put (vector_of (codes "Snow")) (vector_of (codes "Snow")) (new_cache String)

warm-IsTrue : IsTrue digest (codes "voyage") document vector_of warm
unfolding get put lookup insert
warm-IsTrue text vec h = elim (Bool-cases (vector_of (codes "Snow") =? vector_of text)) [
  | inl e ↦
      let found = rw e at h in let same = =?→≡ (vector_of (codes "Snow")) (vector_of text) e in cc
  | inr e ↦ let lost = rw e at h in cc
]

abbrev texts : List Runes
texts = codes "Ice" ∷ codes " Snow" ∷ codes "Ice" ∷ []

embed_cached_answers_example :
    let r = embed_cached digest (codes "voyage") (some filler) document texts warm 0 in
    (r.0 ≡ embedded (map (λ text. some (vector_of text)) texts))
    × IsTrue digest (codes "voyage") document vector_of r.1
    × ((w' : ℕ)
        → embed_cached digest (codes "voyage") none document texts r.1 w'
          ≡ (embedded (map (λ text. some (vector_of text)) texts), r.1, w'))
unfolding fill_misses
embed_cached_answers_example =
    embed_cached_answers digest (codes "voyage") document vector_of (λ s t h. h) filler
      (λ ts w. refl) texts warm 0 warm-IsTrue
