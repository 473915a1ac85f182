-- ===== src/Flow/Credit.antt =====
-- `WindowState::acquire_credit`, `add_conn_credit` and `add_stream_credit` in atomic steps. A task
-- registers with two notifiers before it loads a credit; the Boolean of a state tells if one of them
-- fired since. A task that gets no credit sleeps unless one did, and starts its loop again once one
-- fires. What the loop counts of the time it slept is left out.
use kanotls.Prelude.{ℕ, List, [], ◌∷◌, Bool, true, false, if◌then◌else◌, ◌==◌, ◌&&◌}
use kanotls.Flow.{i64_add, i64_sub, i64_le}

-- What the tasks share: `conn_credit`, the credit of each stream, and two flags.
pub record Shared : Type 0 where
  pub conn_credit : ℕ
  pub stream_credit : ℕ → ℕ
  pub peer_flow_control : Bool
  pub is_closed : Bool

-- Where a task of a stream stands that asks for `n` bytes.
pub data Task : Type 0 where
  -- before the test of `peer_flow_control`
  calling : ℕ → ℕ → Task
  -- at the top of the loop
  looping : ℕ → ℕ → Task
  -- the session is open, and the task is about to register
  unclosed : ℕ → ℕ → Task
  -- registered
  registered : ℕ → ℕ → Bool → Task
  -- `conn_credit` is loaded
  conn_loaded : ℕ → ℕ → ℕ → Bool → Task
  -- the connection's credit is taken
  conn_taken : ℕ → ℕ → Bool → Task
  -- the stream's credit is loaded
  stream_loaded : ℕ → ℕ → ℕ → Bool → Task
  -- the stream had too little, and the connection's credit is to be given back
  rolling_back : ℕ → ℕ → Bool → Task
  -- asleep until a notifier fires
  waiting : ℕ → ℕ → Task
  -- both are taken
  acquired : ℕ → ℕ → Task
  -- returned with no credit taken: no flow control, or the session is closed
  bypassed : ℕ → ℕ → Task

-- The `select!` at the end of the loop.
abbrev pub sleep : ℕ → ℕ → Bool → Task
sleep sid n fired = if fired then looping sid n else waiting sid n

abbrev pub update : (ℕ → ℕ) → ℕ → ℕ → ℕ → ℕ
update f i v j = if i == j then v else f j

-- `compare_exchange` succeeds if the value is still the one that was loaded.
unfoldable pub advance : Shared → Task → Shared × Task
advance s (calling sid n) = if s.peer_flow_control then (s, looping sid n) else (s, bypassed sid n)
advance s (looping sid n) = if s.is_closed then (s, bypassed sid n) else (s, unclosed sid n)
advance s (unclosed sid n) = (s, registered sid n false)
advance s (registered sid n fired) = (s, conn_loaded sid n s.conn_credit fired)
advance s (conn_loaded sid n conn fired) =
    if i64_le n conn && s.conn_credit == conn
    then (record s { conn_credit = i64_sub conn n }, conn_taken sid n fired)
    else (s, sleep sid n fired)
advance s (conn_taken sid n fired) = (s, stream_loaded sid n (s.stream_credit sid) fired)
advance s (stream_loaded sid n stream fired) =
    if i64_le n stream && s.stream_credit sid == stream
    then (
      record s { stream_credit = update s.stream_credit sid (i64_sub stream n) },
      acquired sid n,
    )
    else (s, rolling_back sid n fired)
advance s (rolling_back sid n fired) =
    (record s { conn_credit = i64_add s.conn_credit n }, sleep sid n fired)
advance s (waiting sid n) = (s, waiting sid n)
advance s (acquired sid n) = (s, acquired sid n)
advance s (bypassed sid n) = (s, bypassed sid n)

-- A notifier of the task fires.
unfoldable pub wake : Task → Task
wake (calling sid n) = calling sid n
wake (looping sid n) = looping sid n
wake (unclosed sid n) = unclosed sid n
wake (registered sid n fired) = registered sid n true
wake (conn_loaded sid n conn fired) = conn_loaded sid n conn true
wake (conn_taken sid n fired) = conn_taken sid n true
wake (stream_loaded sid n stream fired) = stream_loaded sid n stream true
wake (rolling_back sid n fired) = rolling_back sid n true
wake (waiting sid n) = looping sid n
wake (acquired sid n) = acquired sid n
wake (bypassed sid n) = bypassed sid n

abbrev pub stream_of : Task → ℕ
stream_of (calling sid n) = sid
stream_of (looping sid n) = sid
stream_of (unclosed sid n) = sid
stream_of (registered sid n fired) = sid
stream_of (conn_loaded sid n conn fired) = sid
stream_of (conn_taken sid n fired) = sid
stream_of (stream_loaded sid n stream fired) = sid
stream_of (rolling_back sid n fired) = sid
stream_of (waiting sid n) = sid
stream_of (acquired sid n) = sid
stream_of (bypassed sid n) = sid

-- `notify_waiters` of the connection and of a stream.
abbrev pub wake_all : List Task → List Task
wake_all [] = []
wake_all (t ∷ ts) = wake t ∷ wake_all ts

abbrev pub wake_stream : ℕ → List Task → List Task
wake_stream sid [] = []
wake_stream sid (t ∷ ts) = (if stream_of t == sid then wake t else t) ∷ wake_stream sid ts

unfoldable pub add_conn_credit : Shared → ℕ → Shared
add_conn_credit s increment = record s { conn_credit = i64_add s.conn_credit increment }

unfoldable pub add_stream_credit : Shared → ℕ → ℕ → Shared
add_stream_credit s sid increment = record s {
  stream_credit = update s.stream_credit sid (i64_add (s.stream_credit sid) increment);
}
