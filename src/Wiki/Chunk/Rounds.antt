-- ===== src/Wiki/Chunk/Rounds.antt =====
-- One round of `addSentence`, stack/backend/internal/wiki/chunk.go: the budget is kept, and less work
-- is left.
use truth_in_stream.Prelude.{
  ℕ, ◌+◌, ◌-◌, ◌*◌, ◌≤◌, ◌<◌, true, false, [], ◌∷◌, ◌++◌, length, length-append, ltb, leb, ◌==◌,
  if◌then◌else◌, arith, ◌≡◌, refl, Bool-cases, inl, inr, All, All-append,
}
use truth_in_stream.Wiki.Bytes.{Bytes, trim_space}
use truth_in_stream.Wiki.Bytes.Lengths.{length-trim_space}
use truth_in_stream.Wiki.Chunk.Cuts.{Cut, cut_at_word-Cut, cut_at_rune-Cut}
use truth_in_stream.Wiki.Chunk.{
  tokens_for_len, cut_at_word, cut_at_rune, Packer, Rest, flush, write, tokens, put_piece, top_up,
  sentence_round,
}

pub tokens_for_len-le : (n budget : ℕ) → leb (tokens_for_len n) budget ≡ true → n ≤ budget * 4
unfolding tokens_for_len
tokens_for_len-le n budget h = ground (arith, h)

empty_text : (s : Bytes) → ltb 0 (length s) ≡ false → s ≡ []
empty_text [] h = refl
empty_text (c ∷ s) h = absurd (ground (arith, h))

-- How much work a text and a packer are: two rounds for a byte, one for text under construction.
abbrev pub measure : Bytes → Bytes → ℕ
measure left cur = length left + length left + (if ltb 0 (length cur) then 1 else 0)

whole_less : (s cur cur' : Bytes) → 0 < length s → measure [] cur' < measure s cur
whole_less s cur cur' h = ground (arith, h)

closed_less : (s cur : Bytes) → 0 < length cur → measure s [] < measure s cur
closed_less s cur h = ground (arith, h)

room_at_start : (n m sep : ℕ) → n ≡ 0 → (if ltb 0 n then m - n - sep else m - n) ≡ m
room_at_start n m sep h = ground (arith, h)

room_later :
    (n m sep : ℕ)
    → 0 < (if ltb 0 n then m - n - sep else m - n)
    → 0 < n
    → n + sep + (if ltb 0 n then m - n - sep else m - n) ≤ m
room_later n m sep pos started = ground (arith, pos, started)

module _ (floor budget : ℕ) where
  -- No group and no text under construction is longer than the budget.
  abbrev pub Fits : Packer → Type 0
  Fits p = All (λ g. length g ≤ budget * 4) p.groups × (length p.cur ≤ budget * 4)

  pub flush-Fits : (p : Packer) → Fits p → Fits (flush p) × ((flush p).cur ≡ [])
  unfolding flush
  flush-Fits p (groups, cur) = elim (Bool-cases (ltb 0 (length p.cur))) [
    | inl t ↦ rw t (
      (
        All-append (λ g. length g ≤ budget * 4) p.groups (trim_space p.cur ∷ []) groups
            (omega (arith, length-trim_space p.cur, cur), tt),
        omega arith,
      ),
      refl,
    )
    | inr t ↦ rw t ((groups, cur), empty_text p.cur t)
  ]

  pub length-write :
      (sep s : Bytes) (p : Packer)
      → (length (write sep s p).cur ≤ length p.cur + length sep + length s)
        × (length p.cur ≡ 0 → length (write sep s p).cur ≡ length s)
  unfolding write
  length-write sep s p = elim (Bool-cases (ltb 0 (length p.cur))) [
    | inl t ↦ rw t (
      omega (arith, length-append (p.cur ++ sep) s, length-append p.cur sep),
      λ e. absurd (ground (arith, t, e)),
    )
    | inr t ↦ rw (t, empty_text p.cur t) (omega arith, λ e. refl)
  ]

  pub length-write_exact :
      (sep s : Bytes) (p : Packer)
      → length (write sep s p).cur
        ≡ length p.cur + (if ltb 0 (length p.cur) then length sep else 0) + length s
  unfolding write
  length-write_exact sep s p = elim (Bool-cases (ltb 0 (length p.cur))) [
    | inl t ↦ rw t (omega (arith, length-append (p.cur ++ sep) s, length-append p.cur sep))
    | inr t ↦ rw (t, empty_text p.cur t) (omega arith)
  ]

  pub write-Fits :
      (sep s : Bytes) (p : Packer)
      → Fits p
      → length (write sep s p).cur ≤ budget * 4
      → Fits (write sep s p)
  unfolding write
  write-Fits sep s p fits small = (fits.0, small)

  piece_fits :
      (sep head : Bytes) (p : Packer) (free : ℕ)
      → (length p.cur ≡ 0 → free ≡ budget * 4)
      → (0 < free → 0 < length p.cur → length p.cur + length sep + free ≤ budget * 4)
      → 0 < free
      → length head ≤ free
      → length (write sep head p).cur ≤ budget * 4
  piece_fits sep head p free at_start later pos small =
      let (most, alone) = length-write sep head p in
      elim (Bool-cases (length p.cur == 0)) [
        | inl t ↦
            let none : length p.cur ≡ 0 = ground (arith, t) in
            omega (arith, alone none, at_start none, small)
        | inr t ↦
            let started : 0 < length p.cur = ground (arith, t) in
            omega (arith, most, later pos started, small)
      ]

  -- What a round must leave: a packer in its budget, and less work.
  abbrev Round : Bytes → Packer → Packer × Rest floor budget → Type 0
  Round s p (q, later) = Fits q × (measure later.left q.cur < measure s p.cur)

  put_piece-Round :
      (sep s : Bytes) (piece : Bytes × Bytes) (p : Packer)
      → Fits p
      → length (write sep piece.0 p).cur ≤ budget * 4
      → length piece.1 < length s
      → Round s p (put_piece floor budget sep piece p)
  unfolding put_piece
  put_piece-Round sep s (head, tail) p fits small less =
      let (fits', closed) = flush-Fits (write sep head p) (write-Fits sep head p fits small) in
      (fits', rw closed (omega (arith, less)))

  top_up-Round :
      (sep s : Bytes) (piece : Bytes × Bytes) (p : Packer) (free : ℕ)
      → Fits p
      → 0 < length s
      → 0 < budget
      → (length p.cur ≡ 0 → free ≡ budget * 4)
      → (0 < free → 0 < length p.cur → length p.cur + length sep + free ≤ budget * 4)
      → Cut s free piece
      → Round s p (top_up floor budget sep s free piece p)
  unfolding top_up
  top_up-Round sep s ([], tail) p free fits some_left pos at_start later cut =
      elim (Bool-cases (length p.cur == 0)) [
        | inl t ↦ rw t (
            let none_yet : length p.cur ≡ 0 = ground (arith, t) in
            let room : 0 < free = omega (arith, at_start none_yet, pos) in
            let (small, less) = cut_at_rune-Cut s free some_left room in
            put_piece-Round sep s (cut_at_rune s free) p fits
              (piece_fits sep (cut_at_rune s free).0 p free at_start later room small) less)
        | inr t ↦
            rw t (let (fits', closed) = flush-Fits p fits in (fits', rw closed (ground (arith, t))))
      ]
  top_up-Round sep s (b ∷ head, tail) p free fits some_left pos at_start later (inl none_cut) = cc
  top_up-Round sep s (b ∷ head, tail) p free fits some_left pos at_start later (inr (small, less)) =
      put_piece-Round sep s (b ∷ head, tail) p fits
        (piece_fits sep (b ∷ head) p free at_start later (omega (arith, small)) small) less

  high_enough :
      (p : Packer) → leb floor (tokens floor budget p) ≡ true → 0 < floor → 0 < length p.cur
  unfolding tokens tokens_for_len
  high_enough p h k = ground (arith, h, k)

  pub sentence_round-Round :
      (sep s : Bytes) (p : Packer)
      → Fits p
      → 0 < length s
      → 0 < floor
      → 0 < budget
      → Round s p (sentence_round floor budget sep s p)
  unfolding sentence_round
  sentence_round-Round sep s p fits some_left high pos =
      elim (Bool-cases (leb (tokens_for_len (length p.cur + length sep + length s)) budget)) [
        | inl whole ↦ rw whole (
          write-Fits sep s p fits (
              omega (
                arith,
                (length-write sep s p).0,
                tokens_for_len-le (length p.cur + length sep + length s) budget whole,
              )),
          whole_less s p.cur (write sep s p).cur some_left,
        )
        | inr long ↦ rw long (elim (Bool-cases (leb floor (tokens floor budget p))) [
          | inl enough ↦ rw enough (
              let (fits', closed) = flush-Fits p fits in
              (fits', rw closed (closed_less s p.cur (high_enough p enough high))))
          | inr short ↦ rw short (
              let room = budget * 4 - length p.cur in
              let free = if ltb 0 (length p.cur) then room - length sep else room in
              top_up-Round sep s (cut_at_word s free) p free fits some_left pos
                (room_at_start (length p.cur) (budget * 4) (length sep))
                (room_later (length p.cur) (budget * 4) (length sep))
                (cut_at_word-Cut s free some_left))
        ])
      ]
