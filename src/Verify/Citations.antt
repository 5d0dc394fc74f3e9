-- ===== src/Verify/Citations.antt =====
-- What the citation guard of stack/backend/internal/verify keeps.
use truth_in_stream.Prelude.{
  String, Bool, not, ◌&&◌, List, [], ◌∷◌, ◌++◌, ◌=?◌, if◌then◌else◌, any, keep, Dict, lookup,
  insert, lookup-insert, Runes, is_blank, contains, arith, ◌≡◌, refl, append-nil, append_assoc,
  Bool-cases, inl, inr, ap, ◌∙◌, sym, =?→≡, fun_ext,
}
use truth_in_stream.Verify.{Passage, Citation, texts_of, index_from, collect, valid_citations}

-- A citation quotes a passage: its span is not blank, and it stands in the text of some passage
-- that has the citation's id.
abbrev pub quotes : List Passage → Citation → Bool
quotes ps c =
    not (is_blank c.quoted_span)
    && any (λ p. (p.id =? c.evidence_id) && contains p.text c.quoted_span) ps

abbrev texts_with : String → List Passage → List Runes
texts_with id [] = []
texts_with id (p ∷ ps) = if p.id =? id then p.text ∷ texts_with id ps else texts_with id ps

texts_of-insert :
    (k j : String) (v : List Runes) (m : Dict (List Runes))
    → texts_of j (insert k v m) ≡ (if k =? j then v else texts_of j m)
texts_of-insert k j v m = ground (arith, lookup-insert k j v m)

texts_of_step :
    (id k : String) (t : Runes) (m : Dict (List Runes)) (rest : List Runes)
    → texts_of id (insert k (texts_of k m ++ t ∷ []) m) ++ rest
      ≡ texts_of id m ++ (if k =? id then t ∷ rest else rest)
texts_of_step id k t m rest = elim (Bool-cases (k =? id)) [
  | inl h ↦
      rw (texts_of-insert k id _ m, h, =?→≡ k id h) (append_assoc (texts_of id m) (t ∷ []) rest)
  | inr h ↦ rw (texts_of-insert k id _ m, h)
]

-- The index holds under an id the texts of the passages with that id, in order.
texts_of-index_from :
    (id : String) (m : Dict (List Runes)) (ps : List Passage)
    → texts_of id (index_from m ps) ≡ texts_of id m ++ texts_with id ps
unfolding index_from
texts_of-index_from id m [] = sym (append-nil _)
texts_of-index_from id m (p ∷ ps) =
    texts_of-index_from id (insert p.id (texts_of p.id m ++ p.text ∷ []) m) ps
    ∙ texts_of_step id p.id p.text m (texts_with id ps)

any-texts_with :
    (id : String) (span : Runes) (ps : List Passage)
    → any (λ t. contains t span) (texts_with id ps)
      ≡ any (λ p. (p.id =? id) && contains p.text span) ps
any-texts_with id span [] = refl
any-texts_with id span (p ∷ ps) = ground (arith, any-texts_with id span ps)

collect-keep :
    (m : Dict (List Runes)) (cs : List Citation)
    → collect m cs
      ≡ keep
          (λ c.
            not (is_blank c.quoted_span)
            && any (λ t. contains t c.quoted_span) (texts_of c.evidence_id m))
          cs
unfolding collect
collect-keep m [] = refl
collect-keep m (c ∷ cs) = ground (arith, collect-keep m cs)

-- The guard keeps, in their order, exactly the citations that quote a supplied passage.
pub valid_citations-keep :
    (cs : List Citation) (ps : List Passage) → valid_citations cs ps ≡ keep (quotes ps) cs
unfolding valid_citations lookup
valid_citations-keep cs ps =
    collect-keep (index_from [] ps) cs
    ∙ ap (λ q. keep q cs)
        (fun_ext (λ c.
          ap (λ b. not (is_blank c.quoted_span) && b)
            (ap (any (λ t. contains t c.quoted_span)) (texts_of-index_from c.evidence_id [] ps)
              ∙ any-texts_with c.evidence_id c.quoted_span ps)))
