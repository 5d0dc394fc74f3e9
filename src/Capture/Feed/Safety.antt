-- ===== src/Capture/Feed/Safety.antt =====
-- How stack/backend/internal/tvcapture/supervisor.go treats its feed connections.
use truth_in_stream.Prelude.{
  ℕ, suc, ◌+◌, ◌≤◌, List, [], ◌∷◌, ◌++◌, Option, none, some, ltb, arith, ◌≡◌, refl, Bool-cases, inl,
  inr,
}
use truth_in_stream.Capture.Feed.{
  Round, Call, connected, not_connected, sent, not_sent, closed, Feed, idle_feed, send_on,
  connect_and_send, take_frame, frames_loop, close_sink, send_feed,
}

module _ (reconnect_backoff : ℕ) where
  -- The lawful runs of calls, each with the connection that it leaves open, the time before which
  -- no connection may be tried, and how many were opened: a connection is tried only when none is
  -- open and the backoff since the last failure is over, and it is a new one; frames go to the open
  -- one; a failure on it closes it.
  pub data Lawful : List Call → Option ℕ → ℕ → ℕ → Type 0 where
    no_calls : Lawful [] none 0 0
    opens :
        {calls : List Call} {earliest k now : ℕ}
        → Lawful calls none earliest k
        → earliest ≤ now
        → Lawful (calls ++ connected k now ∷ []) (some k) earliest (suc k)
    refuses :
        {calls : List Call} {earliest k now : ℕ} (at : ℕ)
        → Lawful calls none earliest k
        → earliest ≤ now
        → Lawful (calls ++ not_connected now at ∷ []) none (at + reconnect_backoff) k
    delivers :
        {calls : List Call} {earliest k n : ℕ} (frame : List ℕ)
        → Lawful calls (some n) earliest k
        → Lawful (calls ++ sent n frame ∷ []) (some n) earliest k
    breaks :
        {calls : List Call} {earliest k n : ℕ} (frame : List ℕ) (at : ℕ)
        → Lawful calls (some n) earliest k
        → Lawful (calls ++ not_sent n frame at ∷ closed n ∷ []) none (at + reconnect_backoff) k
    closes :
        {calls : List Call} {earliest k n : ℕ}
        → Lawful calls (some n) earliest k
        → Lawful (calls ++ closed n ∷ []) none earliest k

  abbrev Sound : Feed → Type 0
  Sound s = Lawful s.calls s.sink s.next_retry s.opened

  send_on-Sound :
      (n : ℕ) (r : Round) (s : Feed)
      → Lawful s.calls (some n) s.next_retry s.opened
      → Sound (send_on reconnect_backoff n r s)
  unfolding send_on
  send_on-Sound n r s h = elim (Bool-cases r.sends) [
    | inl t ↦ rw t (delivers r.frame h)
    | inr t ↦ rw t (breaks r.frame r.failed_at h)
  ]

  connect_and_send-Sound :
      (r : Round) (s : Feed)
      → Lawful s.calls none s.next_retry s.opened
      → s.sink ≡ none
      → s.next_retry ≤ r.now
      → Sound (connect_and_send reconnect_backoff r s)
  unfolding connect_and_send
  connect_and_send-Sound r s h off late = elim (Bool-cases r.connects) [
    | inl t ↦ rw t (
        send_on-Sound s.opened r
          (record s { opened = suc s.opened; calls = s.calls ++ connected s.opened r.now ∷ [] })
          (opens h late))
    | inr t ↦ rw (t, off) (refuses r.failed_at h late)
  ]

  take_frame-Sound :
      (o : Option ℕ) (r : Round) (s : Feed)
      → s.sink ≡ o
      → Sound s
      → Sound (take_frame reconnect_backoff o r s)
  unfolding take_frame
  take_frame-Sound (some n) r s e h = send_on-Sound n r s (rw e at h)
  take_frame-Sound none r s e h = elim (Bool-cases (ltb r.now s.next_retry)) [
    | inl t ↦ rw t h
    | inr t ↦ rw t (connect_and_send-Sound r s (rw e at h) e (ground (arith, t)))
  ]

  frames_loop-Sound :
      (rounds : List Round) (s : Feed) → Sound s → Sound (frames_loop reconnect_backoff rounds s)
  unfolding frames_loop
  frames_loop-Sound [] s h = h
  frames_loop-Sound (r ∷ rounds) s h =
      frames_loop-Sound rounds (take_frame reconnect_backoff s.sink r s)
        (take_frame-Sound s.sink r s refl h)

  close_sink-Lawful :
      (o : Option ℕ) (calls : List Call) (earliest k : ℕ)
      → Lawful calls o earliest k
      → Lawful (close_sink reconnect_backoff o calls) none earliest k
  unfolding close_sink
  close_sink-Lawful none calls earliest k h = h
  close_sink-Lawful (some n) calls earliest k h = closes h

  -- Whatever connects, sends or fails: the calls of a run are lawful and leave no connection open.
  -- So at most one connection is open at a time, each one is closed exactly once, frames go only to
  -- an open one, and no attempt to connect starts before the backoff since the last failure.
  pub send_feed-Lawful :
      (rounds : List Round)
      → (earliest : ℕ) × (k : ℕ) × Lawful (send_feed reconnect_backoff rounds) none earliest k
  unfolding send_feed
  send_feed-Lawful rounds =
      let s = frames_loop reconnect_backoff rounds idle_feed in
      (
        s.next_retry,
        s.opened,
        close_sink-Lawful s.sink s.calls s.next_retry s.opened
            (frames_loop-Sound rounds idle_feed no_calls),
      )
