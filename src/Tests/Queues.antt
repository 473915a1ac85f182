-- ===== src/Tests/Queues.antt =====
-- Runs of the pending queues (crates/session/src/session/pending.rs) and the theorems about them at
-- concrete inputs.
use kanotls.Prelude.{◌≤◌, ◌≡◌, refl, [], ◌∷◌, some, true}
use kanotls.Prelude.Maps.{lookup}
use kanotls.Pending.{
  BufferedPayload, PendingData, StreamQueue, no_data, push_back, pop_front, remove_stream, clear,
}
use kanotls.Pending.Ledger.{
  IsBalanced, no_data-IsBalanced, push_back-IsBalanced, operations-IsBalanced,
}
use kanotls.Pending.Opening.{
  PendingOpenStreams, PendingOpenStream, none_open, insert_new, remove_open, clear_open, push_data,
  take_ready, set_buffered_fin, release_reservation,
}
use kanotls.Pending.Opening.Accounts.{
  IsConsistent, operations-IsConsistent, insert_new-IsConsistent, none_open-IsConsistent,
}

abbrev three_bytes : BufferedPayload
three_bytes = record { bytes = 1 ∷ 2 ∷ 3 ∷ []; accounted = true }

abbrev one_waits : PendingData
one_waits = record {
  queues = (4, record { items = three_bytes ∷ []; bytes = 3 }) ∷ [];
  total_bytes = 3;
}

push_back_runs : push_back no_data 4 three_bytes ≡ one_waits
unfolding push_back
push_back_runs = refl

one_waits-IsBalanced : IsBalanced one_waits
one_waits-IsBalanced =
    rw push_back_runs at (push_back-IsBalanced no_data no_data-IsBalanced 4 three_bytes)

operations-IsBalanced_example :
    IsBalanced (push_back one_waits 4 three_bytes)
    × IsBalanced (pop_front one_waits 4).1
    × IsBalanced (remove_stream one_waits 4).1
    × IsBalanced (clear one_waits 3).0
    × ((q : StreamQueue) → lookup 4 one_waits.queues ≡ some q → q.bytes ≤ one_waits.total_bytes)
operations-IsBalanced_example = operations-IsBalanced one_waits 4 3 three_bytes one_waits-IsBalanced

abbrev fresh_entry : PendingOpenStreams
fresh_entry = (insert_new none_open 4 3).0

operations-IsConsistent_example :
    IsConsistent (insert_new fresh_entry 4 3).0
    × IsConsistent (remove_open fresh_entry 4 3).0
    × IsConsistent (clear_open fresh_entry 3).0
    × IsConsistent (push_data fresh_entry 4 three_bytes 3).1
    × IsConsistent (take_ready fresh_entry 4).1
    × IsConsistent (set_buffered_fin fresh_entry 4).1
    × IsConsistent (release_reservation fresh_entry 4).1
    × ((s : PendingOpenStream)
        → lookup 4 fresh_entry.streams ≡ some s
        → s.bytes ≤ fresh_entry.total_bytes)
operations-IsConsistent_example =
    operations-IsConsistent fresh_entry 4 3 three_bytes
      (insert_new-IsConsistent none_open none_open-IsConsistent 4 3)
