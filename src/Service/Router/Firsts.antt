-- ===== src/Service/Router/Firsts.antt =====
-- What `appendUnique` of stack/backend/internal/service/route.go keeps.
use truth_in_stream.Prelude.{
  Bool, true, false, not, ◌&&◌, ◌||◌, List, [], ◌∷◌, ◌++◌, append-nil, append_assoc, keep, Runes,
  ◌==◌, if◌then◌else◌, arith, ◌≡◌, refl, sym, ap, ◌∙◌, Bool-cases, &&_true, inl, inr,
}
use truth_in_stream.EvidenceIds.{id_string}
use truth_in_stream.Service.Router.{
  Evidence, same_runes, no_kind, is_among, append_new, append_unique,
}

same_runes→≡ : (s t : Runes) → same_runes s t ≡ true → s ≡ t
same_runes→≡ [] [] h = refl
same_runes→≡ [] (d ∷ t) h = absurd (ground (arith, h))
same_runes→≡ (c ∷ s) [] h = absurd (ground (arith, h))
same_runes→≡ (c ∷ s) (d ∷ t) h =
    let both = &&_true (c == d) (same_runes s t) h in
    let head : c ≡ d = ground (arith, both.0) in λ i. head i ∷ same_runes→≡ s t both.1 i

abbrev pub same_id : Evidence → Evidence → Bool
same_id e f = same_runes (id_string f.id) (id_string e.id)

-- The passages that have a kind, without those whose id an earlier one has.
abbrev pub firsts : List Evidence → List Evidence
firsts [] = []
firsts (e ∷ es) =
    let rest = firsts es in if no_kind e then rest else e ∷ keep (λ f. not (same_id e f)) rest

keep_both :
    (p q r : Evidence → Bool)
    → ((e : Evidence) → (q e && p e) ≡ r e)
    → (es : List Evidence) → keep p (keep q es) ≡ keep r es
keep_both p q r h [] = refl
keep_both p q r h (e ∷ es) = ground (arith, keep_both p q r h es, h e)

keep_all : (es : List Evidence) → keep (λ e. true) es ≡ es
keep_all [] = refl
keep_all (e ∷ es) = ap (λ l. e ∷ l) (keep_all es)

abbrev fresh : List Runes → Evidence → Bool
fresh seen e = not (is_among seen e)

-- What was seen already is dropped anyway.
among_same :
    (seen : List Runes) (e f : Evidence)
    → is_among seen e ≡ true
    → (not (same_id e f) && fresh seen f) ≡ fresh seen f
among_same seen e f h = elim (Bool-cases (same_id e f)) [
  | inr differ ↦ rw differ refl
  | inl same ↦
      let ids : id_string f.id ≡ id_string e.id =
        same_runes→≡ (id_string f.id) (id_string e.id) same in
      rw same (rw ids (rw h refl))
]

not_or : (a b : Bool) → (not a && not b) ≡ not (a || b)
not_or true b = refl
not_or false b = refl

append_new-dropped :
    (out : List Evidence) (seen : List Runes) (e : Evidence)
    → (no_kind e || is_among seen e) ≡ true
    → append_new e (out, seen) ≡ (out, seen)
unfolding append_new
append_new-dropped out seen e h = rw h refl

append_new-kept :
    (out : List Evidence) (seen : List Runes) (e : Evidence)
    → (no_kind e || is_among seen e) ≡ false
    → append_new e (out, seen) ≡ (out ++ e ∷ [], id_string e.id ∷ seen)
unfolding append_new
append_new-kept out seen e h = rw h refl

append_unique-firsts :
    (out : List Evidence) (seen : List Runes) (es : List Evidence)
    → (append_unique (out, seen) es).0 ≡ out ++ keep (fresh seen) (firsts es)
unfolding append_unique
append_unique-firsts out seen [] = sym (append-nil out)
append_unique-firsts out seen (e ∷ es) = elim (Bool-cases (no_kind e)) [
  | inl kindless ↦ rw kindless (
      ap (λ st. (append_unique st es).0) (append_new-dropped out seen e (ground (arith, kindless)))
      ∙ append_unique-firsts out seen es)
  | inr kind ↦ elim (Bool-cases (is_among seen e)) [
    | inl old ↦
        let apart = λ (f : Evidence). not (same_id e f) in
        rw (kind, old)
          (ap (λ st. (append_unique st es).0)
              (append_new-dropped out seen e (ground (arith, kind, old)))
            ∙ append_unique-firsts out seen es
            ∙ ap (λ l. out ++ l)
                (sym (
                  keep_both (fresh seen) apart (fresh seen) (λ f. among_same seen e f old)
                    (firsts es))))
    | inr new ↦
        let apart = λ (f : Evidence). not (same_id e f) in
        let ids = id_string e.id ∷ seen in
        rw (kind, new)
          (ap (λ st. (append_unique st es).0)
              (append_new-kept out seen e (ground (arith, kind, new)))
            ∙ append_unique-firsts (out ++ e ∷ []) ids es
            ∙ append_assoc out (e ∷ []) (keep (fresh ids) (firsts es))
            ∙ ap (λ l. out ++ e ∷ l)
                (sym (
                  keep_both (fresh seen) apart (fresh ids)
                    (λ f. not_or (same_id e f) (is_among seen f)) (firsts es))))
  ]
]

pub append_unique-append :
    (st : List Evidence × List Runes) (xs ys : List Evidence)
    → append_unique st (xs ++ ys) ≡ append_unique (append_unique st xs) ys
unfolding append_unique
append_unique-append st [] ys = refl
append_unique-append st (e ∷ xs) ys = append_unique-append (append_new e st) xs ys

-- From the start, `appendUnique` keeps the first passage of every id.
pub append_unique_lem : (es : List Evidence) → (append_unique ([], []) es).0 ≡ firsts es
append_unique_lem es = append_unique-firsts [] [] es ∙ keep_all (firsts es)
