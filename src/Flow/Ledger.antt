-- ===== src/Flow/Ledger.antt =====
-- However the tasks interleave, no credit is lost or made: what the tasks have taken, what they hold
-- for the moment and what is left add up to the window and the updates.
use kanotls.Prelude.{ℕ, ◌+◌, ◌<◌, ◌≡◌, ◌^◌, ap, All, List, [], ◌∷◌, if◌then◌else◌, ◌==◌, arith}
use kanotls.Flow.Credit.{add_conn_credit, add_stream_credit}
use kanotls.Flow.Tasks.{
  System, Event, arrives, runs, conn_update, stream_update, stream_notified, closes, happen, run,
  start,
}
use kanotls.Flow.Accounts.{
  conn_held, granted, total, IsAsked, advance_at-IsAsked, advance_at-conn, advance_at-stream,
  wake_all-totals, wake_stream-totals,
}

-- The credit that a schedule brings.
abbrev pub conn_brought : Event → ℕ
conn_brought (arrives sid n) = 0
conn_brought (runs i) = 0
conn_brought (conn_update increment) = increment
conn_brought (stream_update sid increment) = 0
conn_brought (stream_notified sid) = 0
conn_brought closes = 0

abbrev pub stream_brought : ℕ → Event → ℕ
stream_brought sid (arrives j n) = 0
stream_brought sid (runs i) = 0
stream_brought sid (conn_update increment) = 0
stream_brought sid (stream_update j increment) = if j == sid then increment else 0
stream_brought sid (stream_notified j) = 0
stream_brought sid closes = 0

abbrev pub supply : (Event → ℕ) → List Event → ℕ
supply f [] = 0
supply f (e ∷ es) = f e + supply f es

-- A task asks for a length, which is below 2 ^ 63.
abbrev pub IsRequest : Event → Type 0
IsRequest (arrives sid n) = n < 2 ^ 63
IsRequest (runs i) = Unit {0}
IsRequest (conn_update increment) = Unit {0}
IsRequest (stream_update sid increment) = Unit {0}
IsRequest (stream_notified sid) = Unit {0}
IsRequest closes = Unit {0}

-- The connection's account of a system, and a stream's.
abbrev conn_account : System → ℕ
conn_account y = y.shared.conn_credit + total conn_held y.tasks

abbrev stream_account : ℕ → System → ℕ
stream_account sid y = y.shared.stream_credit sid + total (granted sid) y.tasks

happen-IsAsked :
    (y : System) (e : Event) → IsRequest e → All IsAsked y.tasks → All IsAsked (happen y e).tasks
unfolding happen IsAsked
happen-IsAsked y (arrives sid n) r h = (r, h)
happen-IsAsked y (runs i) r h = advance_at-IsAsked i y.shared y.tasks h
happen-IsAsked y (conn_update increment) r h = (wake_all-totals y.tasks 0 h).2
happen-IsAsked y (stream_update sid increment) r h = (wake_stream-totals sid y.tasks 0 h).2
happen-IsAsked y (stream_notified sid) r h = (wake_stream-totals sid y.tasks 0 h).2
happen-IsAsked y closes r h = h

happen-conn :
    (y : System) (e : Event)
    → All IsAsked y.tasks
    → conn_account y + conn_brought e < 2 ^ 63
    → conn_account (happen y e) ≡ conn_account y + conn_brought e
unfolding happen add_conn_credit add_stream_credit
happen-conn y (arrives sid n) h b = omega arith
happen-conn y (runs i) h b = omega (arith, advance_at-conn i y.shared y.tasks h (omega arith))
happen-conn y (conn_update increment) h b = omega (arith, wake_all-totals y.tasks 0 h)
happen-conn y (stream_update sid increment) h b = omega (arith, wake_stream-totals sid y.tasks 0 h)
happen-conn y (stream_notified sid) h b = omega (arith, wake_stream-totals sid y.tasks 0 h)
happen-conn y closes h b = omega arith

happen-stream :
    (y : System) (e : Event) (sid : ℕ)
    → All IsAsked y.tasks
    → stream_account sid y + stream_brought sid e < 2 ^ 63
    → stream_account sid (happen y e) ≡ stream_account sid y + stream_brought sid e
unfolding happen add_conn_credit add_stream_credit
happen-stream y (arrives j n) sid h b = omega arith
happen-stream y (runs i) sid h b =
    omega (arith, advance_at-stream i y.shared y.tasks sid h (omega arith))
happen-stream y (conn_update increment) sid h b = omega (arith, wake_all-totals y.tasks sid h)
happen-stream y (stream_update j increment) sid h b =
    let same = wake_stream-totals j y.tasks sid h in
    ground (arith, same, ap y.shared.stream_credit {x = j} {y = sid})
happen-stream y (stream_notified j) sid h b = omega (arith, wake_stream-totals j y.tasks sid h)
happen-stream y closes sid h b = omega arith

run-conn :
    (y : System) (es : List Event)
    → All IsAsked y.tasks
    → All IsRequest es
    → conn_account y + supply conn_brought es < 2 ^ 63
    → conn_account (run y es) ≡ conn_account y + supply conn_brought es
unfolding run
run-conn y [] h r b = omega arith
run-conn y (e ∷ es) h r b =
    let once = happen-conn y e h (omega arith) in
    omega
      (arith, once, run-conn (happen y e) es (happen-IsAsked y e r.0 h) r.1 (omega (arith, once)))

run-stream :
    (y : System) (es : List Event) (sid : ℕ)
    → All IsAsked y.tasks
    → All IsRequest es
    → stream_account sid y + supply (stream_brought sid) es < 2 ^ 63
    → stream_account sid (run y es) ≡ stream_account sid y + supply (stream_brought sid) es
unfolding run
run-stream y [] sid h r b = omega arith
run-stream y (e ∷ es) sid h r b =
    let once = happen-stream y e sid h (omega arith) in
    omega (
      arith,
      once,
      run-stream (happen y e) es sid (happen-IsAsked y e r.0 h) r.1 (omega (arith, once)),
    )

-- Under every schedule of the tasks' atomic steps, of WINDOW_UPDATEs, of other notifications and of
-- a close, no credit is lost or made as long as the credit given stays below 2 ^ 63: the
-- connection's credit and what the tasks took or hold of it add up to the window and the
-- connection's updates, and a stream's credit and what its tasks were granted add up to its window
-- and its updates.
pub credit_conserved :
    (conn_window stream_window sid : ℕ) (es : List Event)
    → All IsRequest es
    → conn_window + supply conn_brought es < 2 ^ 63
    → stream_window + supply (stream_brought sid) es < 2 ^ 63
    → ((run (start conn_window stream_window) es).shared.conn_credit
          + total conn_held (run (start conn_window stream_window) es).tasks
        ≡ conn_window + supply conn_brought es)
      × ((run (start conn_window stream_window) es).shared.stream_credit sid
            + total (granted sid) (run (start conn_window stream_window) es).tasks
          ≡ stream_window + supply (stream_brought sid) es)
credit_conserved conn_window stream_window sid es r b c = (
  omega (arith, run-conn (start conn_window stream_window) es tt r (omega arith)),
  omega (arith, run-stream (start conn_window stream_window) es sid tt r (omega arith)),
)
