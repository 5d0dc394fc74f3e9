-- ===== src/Service/Router/Taken.antt =====
-- The answers that the loop of stack/backend/internal/service/route.go has taken, and the end.
use truth_in_stream.Prelude.{
  ◌≤◌, false, List, [], ◌∷◌, ◌++◌, append-nil, append_assoc, any-append, any, length, Option, none,
  some, leb, ◌==◌, if◌then◌else◌, arith, ◌≡◌, refl, sym, ap, ◌∙◌, Bool-cases, inl, inr,
}
use truth_in_stream.Service.Router.{
  Evidence, Query, Router, append_unique, Progress, take_answer, conclude, broaden,
}
use truth_in_stream.Service.Router.Firsts.{firsts, append_unique-append, append_unique_lem}
use truth_in_stream.Service.Router.Described.{given, is_failure, merged, ask_web}

given-snoc :
    (answers : List (Option (List Evidence))) (es : List Evidence)
    → given (answers ++ some es ∷ []) ≡ given answers ++ es
given-snoc [] es = append-nil es
given-snoc (none ∷ answers) es = given-snoc answers es
given-snoc (some ds ∷ answers) es =
    ap (λ l. ds ++ l) (given-snoc answers es) ∙ sym (append_assoc ds (given answers) es)

given-snoc_none :
    (answers : List (Option (List Evidence))) → given (answers ++ none ∷ []) ≡ given answers
given-snoc_none [] = refl
given-snoc_none (none ∷ answers) = given-snoc_none answers
given-snoc_none (some ds ∷ answers) = ap (λ l. ds ++ l) (given-snoc_none answers)

module _ {World : Type 0} where
  -- The answers that a state of the loop has taken.
  abbrev pub After : List (Option (List Evidence)) → World → Progress World → Type 0
  After answers w p =
      (p.found ≡ append_unique ([], []) (given answers))
      × (p.failed ≡ any is_failure answers)
      × (p.world ≡ w)

  pub take_answer-After :
      (answers : List (Option (List Evidence))) (w : World) (b : Option (List Evidence) × World)
      (p : Progress World)
      → After answers w p
      → After (answers ++ b.0 ∷ []) b.1 (take_answer b p)
  unfolding take_answer
  take_answer-After answers w (none, v) p h = (
    h.0 ∙ ap (append_unique ([], [])) (sym (given-snoc_none answers)),
    rw (any-append is_failure answers (none ∷ [])) (ground arith),
    refl,
  )
  take_answer-After answers w (some es, v) p h = (
    ap (λ st. append_unique st es) h.0
        ∙ sym (append_unique-append ([], []) (given answers) es)
        ∙ ap (append_unique ([], [])) (sym (given-snoc answers es)),
    rw (any-append is_failure answers (some es ∷ [])) (ground (arith, h.1)),
    refl,
  )

  After-firsts :
      (answers : List (Option (List Evidence))) (w : World) (p : Progress World)
      → After answers w p
      → p.found.0 ≡ firsts (given answers)
  After-firsts answers w p h = ap (λ st. st.0) h.0 ∙ append_unique_lem (given answers)

  conclude-merged :
      (answers : List (Option (List Evidence))) (w : World) (p : Progress World)
      → After answers w p
      → conclude p ≡ (merged answers, w)
  unfolding conclude
  conclude-merged answers w p h = rw (After-firsts answers w p h, h.1, h.2) refl

  pub broaden_lem :
      (r : Router World) (q : Query) (answers : List (Option (List Evidence))) (p : Progress World)
      → 1 ≤ r.min_results
      → After answers p.world p
      → broaden r q p ≡ (
          if leb r.min_results (length (firsts (given answers)))
          then (merged answers, p.world)
          else if p.web_ran
          then (merged answers, p.world)
          else ask_web answers r q p.world)
  unfolding broaden
  broaden_lem r q answers p enough h =
      let got = After-firsts answers p.world p h in
      elim (Bool-cases (leb r.min_results (length (firsts (given answers))))) [
        | inl e ↦
            let some_got : (length (firsts (given answers)) == 0) ≡ false = ground (arith, e) in
            rw (got, e, some_got) refl
        | inr e ↦
            let few = ap (λ l. leb r.min_results (length l)) got ∙ e in
            let b = r.web.retrieve q p.world in
            rw (few, e)
              (λ i.
                if p.web_ran
                then conclude-merged answers p.world p h i
                else conclude-merged (answers ++ b.0 ∷ []) b.1 (take_answer b p)
                    (take_answer-After answers p.world b p h) i)
      ]
