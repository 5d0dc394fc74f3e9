-- ===== src/Service/Live.antt =====
-- The loop of the live analyzer, `analyzeLoop` of stack/backend/internal/service/live.go, with the
-- `liveUnit` that it fills and the `dispatch` that hands a unit to the worker pool. An `Input` is
-- what one `select` takes: the environment chooses, in any order. `sends` and `offers` answer the
-- loop's sends on the event channel and its offers to the queue; the loop's own effects on the two
-- channels are kept in order. A false result is the loop's return.
mod Flow
pub mod Ledger
mod Order
pub mod Delivery
mod Units
pub mod Cuts
mod Timer
pub mod Holding
use truth_in_stream.Prelude.{
  ℕ, suc, ◌+◌, ◌/◌, String, Bool, true, false, not, ◌&&◌, ◌||◌, List, [], ◌∷◌, ◌++◌, ◌=?◌, Runes,
  itoa, if◌then◌else◌, ltb, leb,
}
use truth_in_stream.Prelude.Floats.{Floats}
use truth_in_stream.Service.Events.{Segment, LiveEvent, interim, subtitle, skipped, not_checked}
use truth_in_stream.Service.Sentences.{sentence_count, incomplete_trailing_fragment}

pub record UnitMember : Type 0 where
  pub id : String
  pub seg : Segment

pub record PendingUnit : Type 0 where
  pub speaker : String
  pub members : List UnitMember

pub record LiveUnit : Type 0 where
  pub members : List UnitMember
  pub speaker : String
  pub sentences : ℕ

abbrev pub empty_unit : LiveUnit
empty_unit = record { members = []; speaker = ""; sentences = 0 }

unfoldable pub is_empty : LiveUnit → Bool
is_empty u = elim u.members [ [] ↦ true | _ ∷ _ ↦ false ]

unfoldable pub add : String → Segment → ℕ → LiveUnit → LiveUnit
add id seg sentences u = record {
  members = u.members ++ record { id = id; seg = seg } ∷ [];
  speaker = if (u.speaker =? "") && not (seg.speaker =? "") then seg.speaker else u.speaker;
  sentences = u.sentences + sentences;
}

-- The members after the first, each behind a blank.
unfoldable pub more_text : List UnitMember → Runes
more_text [] = []
more_text (m ∷ ms) = b' ' ∷ m.seg.text ++ more_text ms

unfoldable pub combined_text : List UnitMember → Runes
unfolding more_text
combined_text [] = []
combined_text (m ∷ ms) = m.seg.text ++ more_text ms

-- An unknown label on either side continues the turn.
unfoldable pub same_speaker : String → String → Bool
same_speaker incoming current = (incoming =? "") || (current =? "") || (incoming =? current)

-- What the `select` of `dispatch` takes.
pub data Offer : Type 0 where
  taken full canceled : Offer

pub data Input : Type 0 where
  done tick closed : Input
  transcript : Bool → Segment → Input

-- `maxIdleHolds` is `int(a.maxHold / a.idleFlush)`.
pub record Settings : Type 0 where
  pub max_sentences : ℕ
  pub idle_flush : ℕ
  pub max_hold : ℕ

abbrev pub max_idle_holds : Settings → ℕ
max_idle_holds cfg = cfg.max_hold / cfg.idle_flush

module _ (F : Floats) where
  pub data Effect : Type 0 where
    sent : LiveEvent F → Effect
    queued : PendingUnit → Effect

  pub record Loop : Type 0 where
    pub unit : LiveUnit
    pub seq : ℕ
    pub idle_holds : ℕ
    pub armed : Bool
    pub effects : List Effect
    pub asked : ℕ
    pub offered : ℕ

  -- Go on with the next statement unless the loop has returned.
  unfoldable pub and_then : Bool × Loop → (Loop → Bool × Loop) → Bool × Loop
  and_then (false, s) next = (false, s)
  and_then (true, s) next = next s

  abbrev pub start : Loop
  start = record {
    unit = empty_unit;
    seq = 0;
    idle_holds = 0;
    armed = false;
    effects = [];
    asked = 0;
    offered = 0;
  }

  module _ (sends : ℕ → Bool) (offers : ℕ → Offer) where
    -- `sendEvent`
    unfoldable pub send : LiveEvent F → Loop → Bool × Loop
    send e s =
        if sends s.asked
        then (true, record s { effects = s.effects ++ sent e ∷ []; asked = suc s.asked })
        else (false, record s { asked = suc s.asked })

    -- `not_checked` for each member of a unit that the full queue refuses
    unfoldable pub shed : List UnitMember → Loop → Bool × Loop
    unfolding and_then send
    shed [] s = (true, s)
    shed (m ∷ ms) s = and_then (send (skipped m.id m.seg not_checked) s) (shed ms)

    unfoldable pub answer_offer : Offer → PendingUnit → Loop → Bool × Loop
    unfolding shed
    answer_offer canceled u s = (false, s)
    answer_offer taken u s = (true, record s { effects = s.effects ++ queued u ∷ [] })
    answer_offer full u s = shed u.members s

    unfoldable pub dispatch : PendingUnit → Loop → Bool × Loop
    unfolding answer_offer
    dispatch u s = answer_offer (offers s.offered) u (record s { offered = suc s.offered })

    unfoldable pub flush : Loop → Bool × Loop
    unfolding dispatch is_empty
    flush s =
        if is_empty s.unit
        then (true, s)
        else dispatch (record { speaker = s.unit.speaker; members = s.unit.members })
            (record s { unit = empty_unit; armed = false; idle_holds = 0 })

    module _ (cfg : Settings) where
      -- a speaker change, or a segment that would exceed the cap
      unfoldable pub must_close : Segment → ℕ → LiveUnit → Bool
      unfolding is_empty same_speaker
      must_close seg sentences u =
          not (is_empty u)
          && (not (same_speaker seg.speaker u.speaker)
              || ltb cfg.max_sentences (u.sentences + sentences))

      unfoldable pub buffer : String → Segment → ℕ → Loop → Bool × Loop
      unfolding add flush
      buffer id seg sentences s =
          let t = record s { unit = add id seg sentences s.unit; idle_holds = 0; armed = true } in
          if leb cfg.max_sentences t.unit.sentences then flush t else (true, t)

      unfoldable pub on_subtitled : String → Segment → ℕ → Loop → Bool × Loop
      unfolding must_close buffer flush and_then
      on_subtitled id seg sentences s =
          and_then (if must_close seg sentences s.unit then flush s else (true, s))
            (buffer id seg sentences)

      unfoldable pub on_final : Segment → Loop → Bool × Loop
      unfolding on_subtitled send and_then sentence_count
      on_final seg s =
          and_then (send (subtitle (itoa s.seq) seg) (record s { seq = suc s.seq }))
            (on_subtitled (itoa s.seq) seg (sentence_count seg.text))

      -- whether the trailing text is held for the rest of its sentence
      unfoldable pub must_hold : Loop → Bool
      unfolding is_empty combined_text incomplete_trailing_fragment
      must_hold s =
          not (is_empty s.unit)
          && ltb s.idle_holds (max_idle_holds cfg)
          && incomplete_trailing_fragment (combined_text s.unit.members)

      -- A timer that fires is no longer armed.
      unfoldable pub on_tick : Loop → Bool × Loop
      unfolding flush must_hold
      on_tick fired =
          let s = record fired { armed = false } in
          if must_hold s
          then (true, record s { idle_holds = suc s.idle_holds; armed = true })
          else flush s

      -- The timer channel has nothing to take while the timer is not armed.
      unfoldable pub step : Input → Loop → Bool × Loop
      unfolding on_tick on_final flush send
      step done s = (false, s)
      step tick s = if s.armed then on_tick s else (true, s)
      step closed s = (false, (flush s).1)
      step (transcript false seg) s = send (interim seg) s
      step (transcript true seg) s = on_final seg s

      unfoldable pub analyze_loop : List Input → Loop → Bool × Loop
      unfolding step and_then
      analyze_loop [] s = (true, s)
      analyze_loop (i ∷ inputs) s = and_then (step i s) (analyze_loop inputs)
