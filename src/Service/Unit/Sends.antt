-- ===== src/Service/Unit/Sends.antt =====
-- The events that a unit of stack/backend/internal/service/verify_path.go sends on a live connection.
use truth_in_stream.Prelude.{
  ℕ, suc, String, Bool, true, List, [], ◌∷◌, ◌++◌, append-nil, append_assoc, map, ◌≡◌, refl, sym,
  ap, ◌∙◌, Bool-cases, inl, inr,
}
use truth_in_stream.Prelude.Floats.{Floats}
use truth_in_stream.Service.Events.{LiveEvent, World, send_event}
use truth_in_stream.Service.Shown.{IsLive}
use truth_in_stream.Service.Live.{UnitMember}
use truth_in_stream.Service.Unit.{send_each}
use truth_in_stream.Service.Unit.Caches.{cache-send}
use truth_in_stream.Service.Unit.Uncached.{Uncached}

module _ (F : Floats) (normalize : String → String) where
  abbrev W : Type 0
  W = World F

  pub send-live :
      (e : LiveEvent F) (w : W)
      → IsLive F normalize w
      → send_event F e w ≡ (true, record w { out = w.out ++ e ∷ []; asked = suc w.asked })
  unfolding send_event
  send-live e w live = rw (live w.asked) refl

  pub send_each-live :
      (event : UnitMember → LiveEvent F) (members : List UnitMember) (w : W)
      → IsLive F normalize w
      → (send_each F normalize event members w).out ≡ w.out ++ map event members
  unfolding send_each
  send_each-live event [] w live = sym (append-nil w.out)
  send_each-live event (m ∷ members) w live =
      let w1 : W = record w { out = w.out ++ event m ∷ []; asked = suc w.asked } in
      rw (send-live (event m) w live) (
        send_each-live event members w1 live
        ∙ append_assoc w.out (event m ∷ []) (map event members))

  pub cache-send_each :
      (event : UnitMember → LiveEvent F) (members : List UnitMember) (w : W)
      → (send_each F normalize event members w).cache ≡ w.cache
  unfolding send_each
  cache-send_each event [] w = refl
  cache-send_each event (m ∷ members) w =
      let sent = send_event F (event m) w in
      elim (Bool-cases sent.0) [
        | inl t ↦ rw t (cache-send_each event members sent.1 ∙ cache-send F normalize (event m) w)
        | inr t ↦ rw t (cache-send F normalize (event m) w)
      ]

  pub IsLive-after :
      (w w' : W) → Uncached F normalize w w' → IsLive F normalize w → IsLive F normalize w'
  IsLive-after w w' u live n = ap (λ (f : ℕ → Bool). f n) u.1 ∙ live n
