-- ===== src/Tests/Flows.antt =====
-- Runs of the flow control (crates/session/src/session/window.rs) and the theorems about it at concrete
-- inputs.
use kanotls.Prelude.{◌+◌, ◌-◌, ◌≡◌, refl, [], ◌∷◌, true, false, List, Bool, ℕ, arith}
use kanotls.Flow.Credit.{Shared, waiting, acquired, advance, add_conn_credit, wake}
use kanotls.Flow.Tasks.{Event, arrives, runs, conn_update, advance_at, happen, run, start}
use kanotls.Flow.Accounts.{conn_held, granted, total}
use kanotls.Flow.Ledger.{supply, conn_brought, stream_brought, credit_conserved}
use kanotls.Flow.Refund.{receive_all, bytes_in, receive_all-credit}
use kanotls.Flow.Sleep.{race, IsAmong, race_sleeps}

-- A task asks for 30 of a window of 20, sleeps, and gets them after an update.
abbrev schedule : List Event
schedule =
    arrives 4 30
    ∷ runs 0
    ∷ runs 0
    ∷ runs 0
    ∷ runs 0
    ∷ runs 0
    ∷ conn_update 15
    ∷ runs 0
    ∷ runs 0
    ∷ runs 0
    ∷ runs 0
    ∷ runs 0
    ∷ runs 0
    ∷ []

schedule_runs : (run (start 20 40) schedule).tasks ≡ acquired 4 30 ∷ []
unfolding run happen advance_at advance add_conn_credit wake
schedule_runs = refl

credit_conserved_example :
    ((run (start 20 40) schedule).shared.conn_credit
        + total conn_held (run (start 20 40) schedule).tasks
      ≡ 20 + supply conn_brought schedule)
    × ((run (start 20 40) schedule).shared.stream_credit 4
          + total (granted 4) (run (start 20 40) schedule).tasks
        ≡ 40 + supply (stream_brought 4) schedule)
credit_conserved_example =
    credit_conserved 20 40 4 schedule
      (omega arith, (tt, (tt, (tt, (tt, (tt, (tt, (tt, (tt, (tt, (tt, (tt, (tt, tt)))))))))))))
      (omega arith) (omega arith)

abbrev opened : Shared
opened = record {
  conn_credit = 100;
  stream_credit = λ _. 50;
  peer_flow_control = true;
  is_closed = false;
}

race_sleeps_example :
    ((run (start 100 100) (race 4 30 6 20)).shared.conn_credit ≡ 100 - 30)
    × IsAmong
        (waiting 6 20)
        (run (run (start 100 100) (race 4 30 6 20)) (runs 0 ∷ runs 1 ∷ arrives 8 1 ∷ [])).tasks
race_sleeps_example =
    race_sleeps 100 100 4 30 6 20 (runs 0 ∷ runs 1 ∷ arrives 8 1 ∷ []) (omega arith) (omega arith)
      (omega arith) (tt, (tt, (tt, tt)))

abbrev arrivals : List (ℕ × Bool)
arrivals = (30, true) ∷ (80, false) ∷ (5, true) ∷ []

receive_all-credit_example :
    (receive_all 100 0 arrivals).0 + (receive_all 100 0 arrivals).1 ≡ 0 + bytes_in arrivals
receive_all-credit_example = receive_all-credit 100 0 arrivals (omega arith)
