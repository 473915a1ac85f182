-- ===== src/Flow/Progress.antt =====
-- A task that finds credit enough gets it.
use kanotls.Prelude.{ℕ, zero, suc, ◌-◌, ◌≤◌, ◌<◌, ◌≡◌, ◌^◌, if◌then◌else◌, arith, ◌&&◌, not}
use kanotls.Flow.Credit.{Shared, Task, calling, acquired, bypassed, advance, update}

pub advances : ℕ → Shared → Task → Shared × Task
advances zero s t = (s, t)
advances (suc k) s t = advances k (advance s t).0 (advance s t).1

-- A task that asks for credit and is not disturbed has it after seven steps, if the connection and
-- the stream have that much and less than 2 ^ 63, and both have less by just that; without flow
-- control, or once the session is closed, it goes on without credit and takes none.
pub acquire_alone :
    (s : Shared) (sid n : ℕ)
    → n ≤ s.conn_credit
    → s.conn_credit < 2 ^ 63
    → n ≤ s.stream_credit sid
    → s.stream_credit sid < 2 ^ 63
    → advances 7 s (calling sid n) ≡ (
        if s.peer_flow_control && not s.is_closed
        then (
          record s {
            conn_credit = s.conn_credit - n;
            stream_credit = update s.stream_credit sid (s.stream_credit sid - n);
          },
          acquired sid n,
        )
        else (s, bypassed sid n))
unfolding advances advance
acquire_alone s sid n h hc k kc = ground arith
