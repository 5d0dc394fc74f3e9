-- ===== src/Service/Router/Answers.antt =====
-- What `Retrieve` of stack/backend/internal/service/route.go answers.
use truth_in_stream.Prelude.{
  ◌≤◌, String, Bool, true, false, not, ◌||◌, List, [], ◌∷◌, get_or, length, Option, none, some,
  Option-cases, Dict, lookup, Runes, is_blank, leb, ◌=?◌, if◌then◌else◌, arith, ◌≡◌, refl, sym, ap,
  ◌∙◌, Bool-cases, inl, inr,
}
use truth_in_stream.Service.Router.{
  ClaimType, is_verifiable, kind_web_search, Evidence, Query, Retriever, Router, append_unique,
  Progress, take_answer, ask_preferred, broaden, retrieve,
}
use truth_in_stream.Service.Router.Firsts.{firsts}
use truth_in_stream.Service.Router.Described.{
  given, merged, own_kind, IsOther, own_kind-IsOther, preferred_kinds_lem, source_of, ask_web,
  ask_sources, IsBuilt,
}
use truth_in_stream.Service.Router.Taken.{After, take_answer-After, broaden_lem}

module _ {World : Type 0} where
  take_answer-web_ran :
      (b : Option (List Evidence) × World) (p : Progress World)
      → ((take_answer b p).web_ran ≡ p.web_ran) × ((take_answer b p).world ≡ b.1)
  unfolding take_answer
  take_answer-web_ran (none, v) p = (refl, refl)
  take_answer-web_ran (some es, v) p = (refl, refl)

  ask_preferred_missing :
      (r : Router World) (q : Query) (kind : String) (p : Progress World)
      → lookup kind r.retrievers ≡ none
      → ask_preferred r q (kind ∷ []) p ≡ p
  unfolding ask_preferred
  ask_preferred_missing r q kind p h = rw (h, ask_preferred) refl

  ask_preferred_there :
      (r : Router World) (q : Query) (kind : String) (p : Progress World) (source : Retriever World)
      → lookup kind r.retrievers ≡ some source
      → ask_preferred r q (kind ∷ []) p
        ≡ take_answer
            (source.retrieve q p.world)
            (record p { web_ran = p.web_ran || kind =? kind_web_search })
  unfolding ask_preferred
  ask_preferred_there r q kind p source h = rw (h, ask_preferred) refl

  abbrev start : World → Progress World
  start w = record { found = ([], []); failed = false; web_ran = false; world = w }

  -- The end after one source was asked.
  broaden-asked :
      (r : Router World) (q : Query) (source : Retriever World) (ran : Bool) (w : World)
      → 1 ≤ r.min_results
      → let b = source.retrieve q w in
        broaden r q (take_answer b (record (start w) { web_ran = ran })) ≡ (
          if leb r.min_results (length (firsts (given (b.0 ∷ []))))
          then (merged (b.0 ∷ []), b.1)
          else if ran
          then (merged (b.0 ∷ []), b.1)
          else ask_web (b.0 ∷ []) r q b.1)
  unfolding append_unique
  broaden-asked r q source ran w enough =
      let b = source.retrieve q w in
      let p : Progress World = take_answer b (record (start w) { web_ran = ran }) in
      let h : After (b.0 ∷ []) b.1 p =
        take_answer-After [] w b (record (start w) { web_ran = ran }) (refl, refl, refl) in
      let kept = take_answer-web_ran b (record (start w) { web_ran = ran }) in
      broaden_lem r q (b.0 ∷ []) p enough (h.0, h.1, refl) ∙ λ i.
      if leb r.min_results (length (firsts (given (b.0 ∷ []))))
      then (merged (b.0 ∷ []), kept.1 i)
      else if kept.0 i
      then (merged (b.0 ∷ []), kept.1 i)
      else ask_web (b.0 ∷ []) r q (kept.1 i)

  -- The web is asked, where it is the preferred source or the preferred one is missing.
  broaden-web :
      (r : Router World) (q : Query) (w : World)
      → 1 ≤ r.min_results
      → broaden r q (take_answer (r.web.retrieve q w) (record (start w) { web_ran = true }))
        ≡ ask_web [] r q w
  broaden-web r q w enough =
      let b = r.web.retrieve q w in
      broaden-asked r q r.web true w enough
      ∙ elim (Bool-cases (leb r.min_results (length (firsts (given (b.0 ∷ [])))))) [
        | inl e ↦ rw e refl
        | inr e ↦ rw e refl
      ]

  broaden-start :
      (r : Router World) (q : Query) (w : World)
      → 1 ≤ r.min_results
      → broaden r q (start w) ≡ ask_web [] r q w
  unfolding append_unique
  broaden-start r q w enough =
      let none_yet : leb r.min_results 0 ≡ false = ground (arith, enough) in
      broaden_lem r q [] (start w) enough (refl, refl, refl) ∙ rw none_yet refl

  ask_kind :
      (r : Router World) (q : Query) (o : Option String) (w : World)
      → IsOther o
      → IsBuilt r
      → broaden r q (ask_preferred r q (get_or o kind_web_search ∷ []) (start w))
        ≡ ask_sources (source_of o r) r q w
  unfolding IsOther
  ask_kind r q none w other built =
      ap (broaden r q) (ask_preferred_there r q kind_web_search (start w) r.web built.web)
      ∙ broaden-web r q w built.enough
  ask_kind r q (some k) w other built = elim (Option-cases (lookup k r.retrievers)) [
    | inl missing ↦
        ap (broaden r q) (ask_preferred_missing r q k (start w) missing)
        ∙ broaden-start r q w built.enough
        ∙ ap (λ o. ask_sources o r q w) (sym missing)
    | inr (source, there) ↦
        ap (broaden r q) (ask_preferred_there r q k (start w) source there)
        ∙ ap
            (λ (ran : Bool).
              broaden r q (take_answer (source.retrieve q w) (record (start w) { web_ran = ran })))
            other
        ∙ broaden-asked r q source false w built.enough
        ∙ ap (λ o. ask_sources o r q w) (sym there)
  ]

  -- What a claim of a verifiable type is answered by a router that `NewRouter` made: the source of
  -- its type's own, if there is one, is asked first; the web is asked once, unless the own source
  -- gave at least `min_results` passages with a kind and with different ids. The answer is the first
  -- passage of every id, in order, of those that have a kind; it is an error only where there is none
  -- and a source failed. For a blank claim, a promise or an opinion no source is asked.
  pub retrieve_answers :
      (r : Router World) (claim : Runes) (ct : ClaimType) (hints : Dict String) (w : World)
      → IsBuilt r
      → retrieve r claim ct hints w ≡ (
          if is_blank claim || not (is_verifiable ct)
          then (some [], w)
          else ask_sources
              (source_of (own_kind ct) r)
              r
              (record { text = claim; lang = r.lang; hints = hints })
              w)
  unfolding retrieve
  retrieve_answers r claim ct hints w built =
      let q : Query = record { text = claim; lang = r.lang; hints = hints } in
      let asked =
        ap (λ ks. broaden r q (ask_preferred r q ks (start w))) (preferred_kinds_lem ct) in
      elim (Bool-cases (is_blank claim || not (is_verifiable ct))) [
        | inl e ↦ rw e refl
        | inr e ↦ rw e (asked ∙ ask_kind r q (own_kind ct) w (own_kind-IsOther ct) built)
      ]
