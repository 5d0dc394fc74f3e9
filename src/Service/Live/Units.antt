-- ===== src/Service/Live/Units.antt =====
-- The unit that the loop of stack/backend/internal/service/live.go builds: whose speech it holds,
-- and how much of it.
use truth_in_stream.Prelude.{
  ℕ, ◌+◌, ◌≤◌, String, Bool, true, not, ◌&&◌, ◌||◌, List, [], ◌∷◌, ◌++◌, length, All, All-append,
  length-append, arith, ◌≡◌, refl, ap, inl, inr, ◌⊎◌, if◌then◌else◌, ◌=?◌, =?_refl, eq_iff,
}
use truth_in_stream.Service.Events.{Segment}
use truth_in_stream.Service.Sentences.{sentence_count}
use truth_in_stream.Service.Live.{add, same_speaker, LiveUnit, UnitMember}

-- The member's speaker is unknown, or the one named.
abbrev pub speaks_as : String → UnitMember → Bool
speaks_as speaker m = (m.seg.speaker =? "") || (m.seg.speaker =? speaker)

abbrev pub total_sentences : List UnitMember → ℕ
total_sentences [] = 0
total_sentences (m ∷ ms) = sentence_count m.seg.text + total_sentences ms

abbrev pub OneVoice : String → List UnitMember → Type 0
OneVoice speaker = All (λ m. speaks_as speaker m ≡ true)

abbrev pub Short : ℕ → List UnitMember → Type 0
Short cap ms = (total_sentences ms ≤ cap) ⊎ (length ms ≡ 1)

abbrev adopted : String → String → String
adopted incoming current = if (current =? "") && not (incoming =? "") then incoming else current

new_voice :
    (incoming current : String)
    → same_speaker incoming current ≡ true
    → ((incoming =? "") || (incoming =? adopted incoming current)) ≡ true
unfolding same_speaker
new_voice incoming current h = ground (arith, =?_refl incoming)

kept_voice :
    (incoming current earlier : String)
    → ((earlier =? "") || (earlier =? current)) ≡ true
    → ((earlier =? "") || (earlier =? adopted incoming current)) ≡ true
kept_voice incoming current earlier h =
    ground (arith, eq_iff current "", eq_iff earlier current, eq_iff earlier "")

kept_voices :
    (incoming current : String) (ms : List UnitMember)
    → OneVoice current ms
    → OneVoice (adopted incoming current) ms
kept_voices incoming current [] h = tt
kept_voices incoming current (m ∷ ms) (hm, h) =
    (kept_voice incoming current m.seg.speaker hm, kept_voices incoming current ms h)

total_sentences-append :
    (ms : List UnitMember) (m : UnitMember)
    → total_sentences (ms ++ m ∷ []) ≡ total_sentences ms + sentence_count m.seg.text
total_sentences-append [] m = omega arith
total_sentences-append (x ∷ ms) m = omega (arith, total_sentences-append ms m)

module _ (cap : ℕ) where
  -- The unit under construction.
  abbrev pub Sound : LiveUnit → Type 0
  Sound u =
      OneVoice u.speaker u.members
      × (u.sentences ≡ total_sentences u.members)
      × Short cap u.members
      × (u.members ≡ [] → u.speaker ≡ "")

  -- The segment may join the unit.
  abbrev pub Joins : Segment → LiveUnit → Type 0
  Joins seg u =
      (u.members ≡ [])
      ⊎ ((same_speaker seg.speaker u.speaker ≡ true)
          × (u.sentences + sentence_count seg.text ≤ cap))

  same_speaker_of_joined :
      (seg : Segment) (u : LiveUnit)
      → Sound u
      → Joins seg u
      → same_speaker seg.speaker u.speaker ≡ true
  unfolding same_speaker
  same_speaker_of_joined seg u (voices, total, short, unnamed) (inl none_yet) =
      rw (unnamed none_yet) (ground (arith, =?_refl ""))
  same_speaker_of_joined seg u sound (inr fits) = fits.0

  add-Short :
      (id : String) (seg : Segment) (u : LiveUnit)
      → Sound u
      → Joins seg u
      → Short cap (u.members ++ record { id = id; seg = seg } ∷ [])
  add-Short id seg u (voices, total, short, unnamed) (inl none_yet) = rw none_yet (inr refl)
  add-Short id seg u (voices, total, short, unnamed) (inr fits) = inl (
      omega
        (arith, total_sentences-append u.members (record { id = id; seg = seg }), total, fits.1))

  pub add-Sound :
      (id : String) (seg : Segment) (u : LiveUnit)
      → Sound u
      → Joins seg u
      → Sound (add id seg (sentence_count seg.text) u)
  unfolding add
  add-Sound id seg u sound joins =
      let (voices, total, short, unnamed) = sound in
      let m : UnitMember = record { id = id; seg = seg } in
      (
        All-append (λ x. speaks_as (adopted seg.speaker u.speaker) x ≡ true) u.members (m ∷ [])
            (kept_voices seg.speaker u.speaker u.members voices)
            (new_voice seg.speaker u.speaker (same_speaker_of_joined seg u sound joins), tt),
        omega (arith, total, total_sentences-append u.members m),
        add-Short id seg u sound joins,
        λ e. absurd (omega (arith, ap length e, length-append u.members (m ∷ []))),
      )
