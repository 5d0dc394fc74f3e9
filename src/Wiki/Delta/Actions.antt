-- ===== src/Wiki/Delta/Actions.antt =====
-- The calls of stack/backend/internal/wiki/delta.go as actions on a session that may fail.
use truth_in_stream.Prelude.{Bool, true, false, ◌∷◌, Option, none, some, ◌≡◌, refl}
use truth_in_stream.Wiki.Delta.{
  Call, DeltaError, call_failed, Outcome, ok, failed, diverges, Write, Session,
}

-- A part of the run, which may end it.
abbrev pub Action : Type 0 → Type 0 → Type 0 → Type 0
Action Value World A = Session Value World → Outcome A × Session Value World

module _ {Value World : Type 0} where
  unfoldable pub go_on :
      {A B : Type 0}
      → (A → Action Value World B)
      → Outcome A × Session Value World
      → Outcome B × Session Value World
  go_on k (ok a, s) = k a s
  go_on k (failed e, s) = (failed e, s)
  go_on k (diverges, s) = (diverges, s)

  -- These stay shut, so that the rules below see the calls of a chain.
  infixl 5 ◌>>=◌ ◌>>◌
  unfoldable pub ◌>>=◌ :
      {A B : Type 0} → Action Value World A → (A → Action Value World B) → Action Value World B
  unfolding go_on
  ◌>>=◌ m k s = go_on k (m s)

  unfoldable pub ◌>>◌ :
      {B : Type 0} → Action Value World (Unit {0}) → Action Value World B → Action Value World B
  unfolding go_on
  ◌>>◌ m k s = go_on (λ _. k) (m s)

  unfoldable pub give : {A : Type 0} → Outcome A → Action Value World A
  give out s = (out, s)

  abbrev pub return : {A : Type 0} → A → Action Value World A
  return a s = (ok a, s)

  unfoldable pub refuse_if : Bool → DeltaError → Action Value World (Unit {0})
  refuse_if true e s = (failed e, s)
  refuse_if false e s = (ok tt, s)

  unfoldable pub answer :
      {A : Type 0} → Call → Option A → Session Value World → Outcome A × Session Value World
  answer call none s = (failed (call_failed call), s)
  answer call (some a) s = (ok a, s)

  -- A call that reads, and its error.
  unfoldable pub ask : {A : Type 0} → Call → (World → Option A × World) → Action Value World A
  unfolding answer
  ask call f s = let r = f s.world in answer call r.0 (record s { world = r.1 })

  unfoldable pub confirm :
      Call → Write Value → Bool → Session Value World → Outcome (Unit {0}) × Session Value World
  confirm call write true s = (ok tt, record s { writes = write ∷ s.writes })
  confirm call write false s = (failed (call_failed call), s)

  -- A call that writes, and its error.
  unfoldable pub tell : Call → (World → Bool × World) → Write Value → Action Value World (Unit {0})
  unfolding confirm
  tell call f write s = let r = f s.world in confirm call write r.0 (record s { world = r.1 })

-- What holds of the end of a chain, by the ways in which its first action can end.
module _ {Value World A B : Type 0} (G : Outcome B × Session Value World → Type 0)
    (k : A → Action Value World B) where
  ended :
      (out : Outcome A) (s : Session Value World)
      → ((e : DeltaError) → out ≡ failed e → G (failed e, s))
      → (out ≡ diverges → G (diverges, s))
      → ((a : A) → out ≡ ok a → G (k a s))
      → G (go_on k (out, s))
  unfolding go_on
  ended (ok a) s h d g = g a refl
  ended (failed e) s h d g = h e refl
  ended diverges s h d g = d refl

  pub bind_rule :
      (m : Action Value World A) (s : Session Value World)
      → ((e : DeltaError) → (m s).0 ≡ failed e → G (failed e, (m s).1))
      → ((m s).0 ≡ diverges → G (diverges, (m s).1))
      → ((a : A) → (m s).0 ≡ ok a → G (k a (m s).1))
      → G ((m >>= k) s)
  unfolding ◌>>=◌
  bind_rule m s h d g = ended (m s).0 (m s).1 h d g

  answered :
      (call : Call) (o : Option A) (s : Session Value World)
      → G (failed (call_failed call), s)
      → ((a : A) → o ≡ some a → G (k a s))
      → G (go_on k (answer call o s))
  unfolding go_on answer
  answered call none s h g = h
  answered call (some a) s h g = g a refl

  -- The chain goes on in the world that the call leaves.
  pub ask_exact :
      (call : Call) (f : World → Option A × World) (s : Session Value World)
      → ((w : World) → G (failed (call_failed call), record s { world = w }))
      → ((a : A) → (f s.world).0 ≡ some a → G (k a (record s { world = (f s.world).1 })))
      → G ((ask call f >>= k) s)
  unfolding ask ◌>>=◌
  ask_exact call f s h g =
      answered call (f s.world).0 (record s { world = (f s.world).1 }) (h (f s.world).1) g

  pub ask_rule :
      (call : Call) (f : World → Option A × World) (s : Session Value World)
      → ((w : World) → G (failed (call_failed call), record s { world = w }))
      → ((a : A) (w : World) → (f s.world).0 ≡ some a → G (k a (record s { world = w })))
      → G ((ask call f >>= k) s)
  ask_rule call f s h g = ask_exact call f s h (λ a e. g a (f s.world).1 e)

module _ {Value World B : Type 0} (G : Outcome B × Session Value World → Type 0)
    (k : Action Value World B) where
  confirmed :
      (call : Call) (write : Write Value) (done : Bool) (s : Session Value World)
      → G (failed (call_failed call), s)
      → G (k (record s { writes = write ∷ s.writes }))
      → G (go_on (λ _. k) (confirm call write done s))
  unfolding go_on confirm
  confirmed call write true s h g = g
  confirmed call write false s h g = h

  pub tell_rule :
      (call : Call) (f : World → Bool × World) (write : Write Value) (s : Session Value World)
      → ((w : World) → G (failed (call_failed call), record s { world = w }))
      → ((w : World) → G (k (record { world = w; writes = write ∷ s.writes })))
      → G ((tell call f write >> k) s)
  unfolding tell ◌>>◌
  tell_rule call f write s h g =
      confirmed call write (f s.world).0 (record s { world = (f s.world).1 }) (h (f s.world).1)
        (g (f s.world).1)

  pub refuse_rule :
      (test : Bool) (e : DeltaError) (s : Session Value World)
      → G (failed e, s)
      → G (k s)
      → G ((refuse_if test e >> k) s)
  unfolding go_on refuse_if ◌>>◌
  refuse_rule true e s h g = h
  refuse_rule false e s h g = g
