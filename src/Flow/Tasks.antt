-- ===== src/Flow/Tasks.antt =====
-- Any number of tasks, in any order of their steps: a schedule is a list of events.
use kanotls.Prelude.{ℕ, zero, suc, List, [], ◌∷◌, true, false}
use kanotls.Flow.Credit.{
  Shared, Task, calling, advance, add_conn_credit, add_stream_credit, wake_all, wake_stream,
}

pub record System : Type 0 where
  pub shared : Shared
  pub tasks : List Task

pub data Event : Type 0 where
  -- a task of a stream asks for credit
  arrives : ℕ → ℕ → Event
  -- the task at a position makes its next step
  runs : ℕ → Event
  -- a WINDOW_UPDATE of the connection, of a stream
  conn_update : ℕ → Event
  stream_update : ℕ → ℕ → Event
  -- a stream's notifier fires for another reason: data arrived, or the stream ends
  stream_notified : ℕ → Event
  -- the writer closes, which fires no notifier by itself
  closes : Event

unfoldable pub advance_at : ℕ → Shared → List Task → Shared × List Task
advance_at i s [] = (s, [])
advance_at zero s (t ∷ ts) = let next = advance s t in (next.0, next.1 ∷ ts)
advance_at (suc i) s (t ∷ ts) = let next = advance_at i s ts in (next.0, t ∷ next.1)

unfoldable pub happen : System → Event → System
happen y (arrives sid n) = record y { tasks = calling sid n ∷ y.tasks }
happen y (runs i) =
    let next = advance_at i y.shared y.tasks in record { shared = next.0; tasks = next.1 }
happen y (conn_update increment) = record {
  shared = add_conn_credit y.shared increment;
  tasks = wake_all y.tasks;
}
happen y (stream_update sid increment) = record {
  shared = add_stream_credit y.shared sid increment;
  tasks = wake_stream sid y.tasks;
}
happen y (stream_notified sid) = record y { tasks = wake_stream sid y.tasks }
happen y closes = record y { shared = record (y.shared) { is_closed = true } }

unfoldable pub run : System → List Event → System
unfolding happen
run y [] = y
run y (e ∷ es) = run (happen y e) es

-- A session as it starts: full windows and no task.
abbrev pub start : ℕ → ℕ → System
start conn_window stream_window = record {
  shared = record {
    conn_credit = conn_window;
    stream_credit = λ _. stream_window;
    peer_flow_control = true;
    is_closed = false;
  };
  tasks = [];
}
