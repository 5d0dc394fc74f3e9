-- ===== src/Examples/Captures.antt =====
-- TV captures at concrete inputs.
use truth_in_stream.Prelude.{ℕ, Bool, true, false, List, [], ◌∷◌, none, arith, ◌≡◌, refl}
use truth_in_stream.Capture.Feed.{Round, send_feed, connected, sent, not_sent, closed}
use truth_in_stream.Capture.Feed.Safety.{Lawful, send_feed-Lawful}
use truth_in_stream.Capture.Restarts.{Life, SupervisorConfig, captured, alerted, waits, run}
use truth_in_stream.Capture.Restarts.Alerts.{expected, run-expected}

abbrev at : ℕ → Bool → Bool → Round
at now connects sends = record {
  frame = now ∷ [];
  now = now;
  connects = connects;
  sends = sends;
  failed_at = now;
}

abbrev rounds : List Round
rounds = at 1 true true ∷ at 2 true false ∷ at 3 true true ∷ at 9 true true ∷ []

send_feed-Lawful_example : (earliest : ℕ) × (k : ℕ) × Lawful 5 (send_feed 5 rounds) none earliest k
send_feed-Lawful_example = send_feed-Lawful 5 rounds

calls_of_rounds :
    send_feed 5 rounds
    ≡ connected 0 1
      ∷ sent 0 (1 ∷ [])
      ∷ not_sent 0 (2 ∷ []) 2
      ∷ closed 0
      ∷ connected 1 9
      ∷ sent 1 (9 ∷ [])
      ∷ closed 1
      ∷ []
unfolding send_feed
calls_of_rounds = refl

abbrev supervised : SupervisorConfig
supervised = record { backoff_base = 1; backoff_max = 3; healthy_reset = 10; max_attempts = 2 }

abbrev life : ℕ → Life
life ran = record { done_before = false; ran = ran; done_after = false; waited = true }

run-expected_example :
    run supervised (life 1 ∷ life 1 ∷ life 1 ∷ life 20 ∷ [])
    ≡ expected supervised 0 (life 1 ∷ life 1 ∷ life 1 ∷ life 20 ∷ [])
run-expected_example =
    run-expected supervised (omega arith) (omega arith) (life 1 ∷ life 1 ∷ life 1 ∷ life 20 ∷ [])

acts_of_lives :
    run supervised (life 1 ∷ life 1 ∷ life 1 ∷ life 20 ∷ [])
    ≡ captured
      ∷ waits 1
      ∷ captured
      ∷ alerted
      ∷ waits 2
      ∷ captured
      ∷ waits 3
      ∷ captured
      ∷ waits 1
      ∷ []
unfolding run
acts_of_lives = refl
