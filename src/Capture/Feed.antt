-- ===== src/Capture/Feed.antt =====
-- `sendFeed` of stack/backend/internal/tvcapture/supervisor.go: one channel's frames go to a feed
-- connection that is opened when it is needed and dropped when it fails. Times are natural numbers;
-- the zero time, before the first failure, is 0. A `Round` holds a frame and what the loop meets
-- with it: the clock when it tests `nextRetry`, whether connecting and sending succeed, and the
-- clock when it sets `nextRetry`. The calls on connections are kept in order, with their times.
pub mod Safety
use truth_in_stream.Prelude.{
  ℕ, suc, ◌+◌, Bool, true, false, List, [], ◌∷◌, ◌++◌, Option, none, some, ltb, if◌then◌else◌,
}

pub record Round : Type 0 where
  pub frame : List ℕ
  pub now : ℕ
  pub connects : Bool
  pub sends : Bool
  pub failed_at : ℕ

-- A connection is named by its number.
pub data Call : Type 0 where
  connected : ℕ → ℕ → Call
  not_connected : ℕ → ℕ → Call
  sent : ℕ → List ℕ → Call
  not_sent : ℕ → List ℕ → ℕ → Call
  closed : ℕ → Call

pub record Feed : Type 0 where
  pub sink : Option ℕ
  pub opened : ℕ
  pub next_retry : ℕ
  pub calls : List Call

abbrev pub idle_feed : Feed
idle_feed = record { sink = none; opened = 0; next_retry = 0; calls = [] }

module _ (reconnect_backoff : ℕ) where
  -- The frame goes out on an open connection, which a failure closes.
  unfoldable pub send_on : ℕ → Round → Feed → Feed
  send_on n r s =
      if r.sends
      then record s { sink = some n; calls = s.calls ++ sent n r.frame ∷ [] }
      else record s {
        sink = none;
        next_retry = r.failed_at + reconnect_backoff;
        calls = s.calls ++ not_sent n r.frame r.failed_at ∷ closed n ∷ [];
      }

  unfoldable pub connect_and_send : Round → Feed → Feed
  unfolding send_on
  connect_and_send r s =
      if r.connects
      then send_on s.opened r
          (record s { opened = suc s.opened; calls = s.calls ++ connected s.opened r.now ∷ [] })
      else record s {
        next_retry = r.failed_at + reconnect_backoff;
        calls = s.calls ++ not_connected r.now r.failed_at ∷ [];
      }

  unfoldable pub take_frame : Option ℕ → Round → Feed → Feed
  unfolding send_on connect_and_send
  take_frame (some n) r s = send_on n r s
  take_frame none r s = if ltb r.now s.next_retry then s else connect_and_send r s

  unfoldable pub frames_loop : List Round → Feed → Feed
  unfolding take_frame
  frames_loop [] s = s
  frames_loop (r ∷ rounds) s = frames_loop rounds (take_frame s.sink r s)

  unfoldable pub close_sink : Option ℕ → List Call → List Call
  close_sink none calls = calls
  close_sink (some n) calls = calls ++ closed n ∷ []

  -- All calls of one run, to the close on the way out.
  unfoldable pub send_feed : List Round → List Call
  unfolding frames_loop close_sink
  send_feed rounds = let s = frames_loop rounds idle_feed in close_sink s.sink s.calls
