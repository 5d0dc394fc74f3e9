-- ===== src/Examples/Sessions.antt =====
-- Live sessions at concrete inputs.
use truth_in_stream.Prelude.{
  gather, ℕ, String, Bool, true, false, zero, List, [], ◌∷◌, ◌++◌, suc, codes, ◌≡◌, ◌≢◌, refl, All,
}
use truth_in_stream.Service.Events.{Segment}
use truth_in_stream.Service.Live.Ledger.{numbered, finals, settled, captioned}
use truth_in_stream.Service.Live.Delivery.{analyze_loop_delivers}
use truth_in_stream.Service.Live.Cuts.{Cut, analyze_loop_cuts}
use truth_in_stream.Service.Live.Holding.{ticks, analyze_loop_idles}
use truth_in_stream.Service.Live.{
  Input, tick, closed, transcript, Offer, taken, full, canceled, Settings, max_idle_holds, start,
  analyze_loop,
}
use truth_in_stream.Examples.Numbers.{tenths}

abbrev pub says : String → String → Segment
says speaker text = record { start = 0; end = 1; text = codes text; speaker = speaker }

abbrev settings : Settings
settings = record { max_sentences = 3; idle_flush = 2; max_hold = 6 }

abbrev pub inputs : List Input
inputs =
    transcript true (says "" "Well.")
    ∷ transcript false (says "A" "The sk")
    ∷ transcript true (says "A" "The sky is")
    ∷ tick
    ∷ transcript true (says "B" "Snow is white. Ice is cold. Fire is hot.")
    ∷ []

abbrev pub sends : ℕ → Bool
sends n = true

abbrev pub offers : ℕ → Offer
offers zero = taken
offers (suc n) = full

pub never_canceled : (n : ℕ) → offers n ≢ canceled
never_canceled zero h = cc
never_canceled (suc n) h = cc

analyze_loop_delivers_example :
    let end =
      (analyze_loop tenths sends offers settings (inputs ++ closed ∷ []) (start tenths)).1 in
    (gather (captioned tenths) end.effects ≡ numbered 0 (finals inputs))
    × (gather (settled tenths) end.effects ≡ numbered 0 (finals inputs))
analyze_loop_delivers_example =
    analyze_loop_delivers tenths sends offers settings (λ _. refl) never_canceled inputs
      (refl, (refl, (refl, (refl, (refl, tt)))))

analyze_loop_cuts_example :
    All (Cut tenths 3) (analyze_loop tenths sends offers settings inputs (start tenths)).1.effects
analyze_loop_cuts_example = analyze_loop_cuts tenths sends offers settings inputs

analyze_loop_idles_example :
    let r =
      analyze_loop tenths sends offers settings
        (inputs ++ ticks (suc (max_idle_holds settings)))
        (start tenths) in
    (r.0 ≡ true) × (r.1.unit.members ≡ []) × (r.1.armed ≡ false)
analyze_loop_idles_example =
    analyze_loop_idles tenths sends offers settings (λ _. refl) never_canceled inputs
      (refl, (refl, (refl, (refl, (refl, tt)))))
