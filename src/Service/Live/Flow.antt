-- ===== src/Service/Live/Flow.antt =====
-- Reasoning on the loop of stack/backend/internal/service/live.go, which returns early when a send
-- or an offer fails: a predicate on a run that has not returned, and a rule for each statement.
use truth_in_stream.Prelude.{
  ℕ, Bool, true, false, List, [], ◌∷◌, ◌++◌, ◌≡◌, refl, sym, ap, ◌∙◌, fun_ext, if◌then◌else◌,
}
use truth_in_stream.Prelude.Floats.{Floats}
use truth_in_stream.Service.Live.{Loop, and_then, Offer, Input, Settings, analyze_loop, step}

module _ (F : Floats) where
  -- One predicate on a loop that has returned, and one on a loop that goes on.
  abbrev pub Outcome : (Loop F → Type 0) → (Loop F → Type 0) → Bool × Loop F → Type 0
  Outcome E P (false, s) = E s
  Outcome E P (true, s) = P s

  pub and_then-Outcome :
      (E P Q : Loop F → Type 0) (r : Bool × Loop F) (next : Loop F → Bool × Loop F)
      → Outcome E P r
      → ((s : Loop F) → P s → Outcome E Q (next s))
      → Outcome E Q (and_then F r next)
  unfolding and_then
  and_then-Outcome E P Q (false, s) next h hnext = h
  and_then-Outcome E P Q (true, s) next h hnext = hnext s h

  pub if_then_else-Outcome :
      (E P : Loop F → Type 0) (b : Bool) (r q : Bool × Loop F)
      → (b ≡ true → Outcome E P r)
      → (b ≡ false → Outcome E P q)
      → Outcome E P (if b then r else q)
  if_then_else-Outcome E P true r q h k = h refl
  if_then_else-Outcome E P false r q h k = k refl

  pub Outcome-imp :
      (E P Q : Loop F → Type 0) (r : Bool × Loop F)
      → Outcome E P r
      → ((s : Loop F) → P s → Q s)
      → Outcome E Q r
  Outcome-imp E P Q (false, s) h imp = h
  Outcome-imp E P Q (true, s) h imp = imp s h

  -- The predicate holds unless the loop has returned.
  abbrev pub Holds : (Loop F → Type 0) → Bool × Loop F → Type 0
  Holds P (false, s) = Unit
  Holds P (true, s) = P s

  pub and_then-Holds :
      (P Q : Loop F → Type 0) (r : Bool × Loop F) (next : Loop F → Bool × Loop F)
      → Holds P r
      → ((s : Loop F) → P s → Holds Q (next s))
      → Holds Q (and_then F r next)
  unfolding and_then
  and_then-Holds P Q (false, s) next h hnext = tt
  and_then-Holds P Q (true, s) next h hnext = hnext s h

  pub Holds-imp :
      (P Q : Loop F → Type 0) (r : Bool × Loop F)
      → Holds P r
      → ((s : Loop F) → P s → Q s)
      → Holds Q r
  Holds-imp P Q (false, s) h imp = tt
  Holds-imp P Q (true, s) h imp = imp s h

  pub Holds-elim : (P : Loop F → Type 0) (r : Bool × Loop F) → r.0 ≡ true → Holds P r → P r.1
  Holds-elim P (true, s) h k = k
  Holds-elim P (false, s) h k = cc

  pub if_then_else-Holds :
      (P : Loop F → Type 0) (b : Bool) (r q : Bool × Loop F)
      → (b ≡ true → Holds P r)
      → (b ≡ false → Holds P q)
      → Holds P (if b then r else q)
  if_then_else-Holds P true r q h k = h refl
  if_then_else-Holds P false r q h k = k refl

  pub if_then_else-goes_on :
      (b : Bool) (r q : Bool × Loop F) → r.0 ≡ true → q.0 ≡ true → (if b then r else q).0 ≡ true
  if_then_else-goes_on true r q h k = h
  if_then_else-goes_on false r q h k = k

  pub and_then-goes_on :
      (r : Bool × Loop F) (next : Loop F → Bool × Loop F)
      → r.0 ≡ true
      → ((s : Loop F) → (next s).0 ≡ true)
      → (and_then F r next).0 ≡ true
  unfolding and_then
  and_then-goes_on (true, s) next h hnext = hnext s
  and_then-goes_on (false, s) next h hnext = h

  and_then_assoc :
      (r : Bool × Loop F) (f g : Loop F → Bool × Loop F)
      → and_then F (and_then F r f) g ≡ and_then F r (λ s. and_then F (f s) g)
  unfolding and_then
  and_then_assoc (false, s) f g = refl
  and_then_assoc (true, s) f g = refl

  module _ (sends : ℕ → Bool) (offers : ℕ → Offer) (cfg : Settings) where
    pub analyze_loop-append :
        (xs ys : List Input) (s : Loop F)
        → analyze_loop F sends offers cfg (xs ++ ys) s
          ≡ and_then F (analyze_loop F sends offers cfg xs s) (analyze_loop F sends offers cfg ys)
    unfolding analyze_loop and_then
    analyze_loop-append [] ys s = refl
    analyze_loop-append (i ∷ xs) ys s =
        ap (and_then F (step F sends offers cfg i s)) (fun_ext (analyze_loop-append xs ys))
        ∙ sym (
            and_then_assoc (step F sends offers cfg i s) (analyze_loop F sends offers cfg xs)
              (analyze_loop F sends offers cfg ys))
