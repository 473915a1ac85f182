-- ===== src/Flow/Sleep.antt =====
-- A task that sleeps without having registered what happened before it: `acquire_credit` sleeps after a
-- `compare_exchange` that another task's overtook, although credit is left.
use kanotls.Prelude.{
  ℕ, zero, suc, ◌+◌, ◌-◌, ◌≤◌, ◌<◌, ◌≡◌, ◌^◌, ap, ◌⊎◌, List, [], ◌∷◌, ◌++◌, arith, All, inl, inr,
}
use kanotls.Flow.Credit.{Shared, Task, waiting, advance}
use kanotls.Flow.Tasks.{
  System, Event, arrives, runs, conn_update, stream_update, stream_notified, closes, advance_at,
  happen, run, start,
}

-- No notifier fires.
abbrev pub IsQuiet : Event → Type 0
IsQuiet (arrives sid n) = Unit {0}
IsQuiet (runs i) = Unit {0}
IsQuiet (conn_update increment) = ⊥
IsQuiet (stream_update sid increment) = ⊥
IsQuiet (stream_notified sid) = ⊥
IsQuiet closes = Unit {0}

-- The task is one of these.
abbrev pub IsAmong : Task → List Task → Type 0
IsAmong t [] = ⊥
IsAmong t (u ∷ us) = (u ≡ t) ⊎ IsAmong t us

advance_at-waiting :
    (i : ℕ) (s : Shared) (ts : List Task) (sid n : ℕ)
    → IsAmong (waiting sid n) ts
    → IsAmong (waiting sid n) (advance_at i s ts).1
unfolding advance_at advance
advance_at-waiting i s [] sid n h = h
advance_at-waiting zero s (t ∷ ts) sid n (inl e) = inl (ap (λ u. (advance s u).1) e)
advance_at-waiting zero s (t ∷ ts) sid n (inr h) = inr h
advance_at-waiting (suc i) s (t ∷ ts) sid n (inl e) = inl e
advance_at-waiting (suc i) s (t ∷ ts) sid n (inr h) = inr (advance_at-waiting i s ts sid n h)

run-waiting :
    (y : System) (es : List Event) (sid n : ℕ)
    → All IsQuiet es
    → IsAmong (waiting sid n) y.tasks
    → IsAmong (waiting sid n) (run y es).tasks
unfolding run happen
run-waiting y [] sid n q h = h
run-waiting y (arrives j m ∷ es) sid n q h =
    run-waiting (happen y (arrives j m)) es sid n q.1 (inr h)
run-waiting y (runs i ∷ es) sid n q h =
    run-waiting (happen y (runs i)) es sid n q.1 (advance_at-waiting i y.shared y.tasks sid n h)
run-waiting y (conn_update increment ∷ es) sid n q h = absurd q.0
run-waiting y (stream_update j increment ∷ es) sid n q h = absurd q.0
run-waiting y (stream_notified j ∷ es) sid n q h = absurd q.0
run-waiting y (closes ∷ es) sid n q h = run-waiting (happen y closes) es sid n q.1 h

-- Two tasks load the connection's credit one after the other, and then take what they loaded.
abbrev pub race : ℕ → ℕ → ℕ → ℕ → List Event
race a n b m =
    arrives b m ∷ arrives a n ∷ (runs 0 ∷ runs 0 ∷ runs 0 ∷ runs 0 ∷ [])
    ++ ((runs 1 ∷ runs 1 ∷ runs 1 ∷ runs 1 ∷ []) ++ (runs 0 ∷ runs 1 ∷ []))

race_lem :
    (window stream_window a n b m : ℕ)
    → 0 < n
    → n + m ≤ window
    → window < 2 ^ 63
    → ((run (start window stream_window) (race a n b m)).shared.conn_credit ≡ window - n)
      × IsAmong (waiting b m) (run (start window stream_window) (race a n b m)).tasks
unfolding run happen advance_at advance
race_lem window stream_window a n b m p h w = (ground arith, inr (inl (ground arith)))

-- Two streams ask at once for at least one byte each, and the windows have room for both. Under a
-- schedule in which the one takes its credit between the other's load and `compare_exchange`, the other
-- one is asleep with its credit untouched, and it stays asleep under every further schedule without a
-- WINDOW_UPDATE or another notification of its stream, whatever the tasks do and even if the writer
-- closes.
pub race_sleeps :
    (window stream_window a n b m : ℕ) (es : List Event)
    → 0 < n
    → n + m ≤ window
    → window < 2 ^ 63
    → All IsQuiet es
    → ((run (start window stream_window) (race a n b m)).shared.conn_credit ≡ window - n)
      × IsAmong (waiting b m) (run (run (start window stream_window) (race a n b m)) es).tasks
race_sleeps window stream_window a n b m es p h w q =
    let raced = race_lem window stream_window a n b m p h w in
    (raced.0, run-waiting (run (start window stream_window) (race a n b m)) es b m q raced.1)
