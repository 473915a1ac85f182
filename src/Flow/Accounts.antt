-- ===== src/Flow/Accounts.antt =====
-- What the tasks of crates/session/src/session/window.rs have taken and hold of the credit, and what
-- a task's step and a waking change of it.
use kanotls.Prelude.{
  ℕ, zero, suc, ◌+◌, ◌<◌, ◌≡◌, ◌^◌, refl, ap, All, List, [], ◌∷◌, Bool, true, false, if◌then◌else◌,
  ◌==◌, arith,
}
use kanotls.Flow.Credit.{
  Shared, Task, calling, looping, unclosed, registered, conn_loaded, conn_taken, stream_loaded,
  rolling_back, waiting, acquired, bypassed, advance, wake, wake_all, wake_stream, stream_of,
}
use kanotls.Flow.Tasks.{advance_at}

-- The connection's credit that a task holds or has taken.
abbrev pub conn_held : Task → ℕ
conn_held (calling sid n) = 0
conn_held (looping sid n) = 0
conn_held (unclosed sid n) = 0
conn_held (registered sid n w) = 0
conn_held (waiting sid n) = 0
conn_held (conn_loaded sid n c w) = 0
conn_held (conn_taken sid n w) = n
conn_held (stream_loaded sid n c w) = n
conn_held (rolling_back sid n w) = n
conn_held (acquired sid n) = n
conn_held (bypassed sid n) = 0

-- The bytes that a task may send on a stream.
abbrev pub granted : ℕ → Task → ℕ
granted sid (calling j n) = 0
granted sid (looping j n) = 0
granted sid (unclosed j n) = 0
granted sid (registered j n w) = 0
granted sid (waiting j n) = 0
granted sid (conn_loaded j n c w) = 0
granted sid (conn_taken j n w) = 0
granted sid (stream_loaded j n c w) = 0
granted sid (rolling_back j n w) = 0
granted sid (acquired j n) = if j == sid then n else 0
granted sid (bypassed j n) = 0

abbrev pub total : (Task → ℕ) → List Task → ℕ
total f [] = 0
total f (t ∷ ts) = f t + total f ts

-- The bytes that a task asks for: a length is below 2 ^ 63.
abbrev pub asked : Task → ℕ
asked (calling sid n) = n
asked (looping sid n) = n
asked (unclosed sid n) = n
asked (registered sid n w) = n
asked (waiting sid n) = n
asked (conn_loaded sid n c w) = n
asked (conn_taken sid n w) = n
asked (stream_loaded sid n c w) = n
asked (rolling_back sid n w) = n
asked (acquired sid n) = n
asked (bypassed sid n) = n

pub advance-conn :
    (s : Shared) (t : Task)
    → s.conn_credit + conn_held t < 2 ^ 63
    → asked t < 2 ^ 63
    → (advance s t).0.conn_credit + conn_held (advance s t).1 ≡ s.conn_credit + conn_held t
unfolding advance
advance-conn s (calling sid n) h k = ground arith
advance-conn s (looping sid n) h k = ground arith
advance-conn s (unclosed sid n) h k = ground arith
advance-conn s (registered sid n w) h k = ground arith
advance-conn s (waiting sid n) h k = ground arith
advance-conn s (conn_loaded sid n c w) h k = ground arith
advance-conn s (conn_taken sid n w) h k = ground arith
advance-conn s (stream_loaded sid n c w) h k = ground arith
advance-conn s (rolling_back sid n w) h k = ground arith
advance-conn s (acquired sid n) h k = ground arith
advance-conn s (bypassed sid n) h k = ground arith

pub advance-stream :
    (s : Shared) (t : Task) (sid : ℕ)
    → s.stream_credit sid + granted sid t < 2 ^ 63
    → asked t < 2 ^ 63
    → (advance s t).0.stream_credit sid + granted sid (advance s t).1
      ≡ s.stream_credit sid + granted sid t
unfolding advance
advance-stream s (calling j n) sid h k = ground arith
advance-stream s (looping j n) sid h k = ground arith
advance-stream s (unclosed j n) sid h k = ground arith
advance-stream s (registered j n w) sid h k = ground arith
advance-stream s (waiting j n) sid h k = ground arith
advance-stream s (conn_loaded j n c w) sid h k = ground arith
advance-stream s (conn_taken j n w) sid h k = ground arith
advance-stream s (stream_loaded j n c w) sid h k =
    ground (arith, ap s.stream_credit {x = j} {y = sid})
advance-stream s (rolling_back j n w) sid h k = ground arith
advance-stream s (acquired j n) sid h k = ground arith
advance-stream s (bypassed j n) sid h k = ground arith

unfoldable pub IsAsked : Task → Type 0
IsAsked t = asked t < 2 ^ 63

pub advance-asked : (s : Shared) (t : Task) → asked (advance s t).1 ≡ asked t
unfolding advance
advance-asked s (calling sid n) = ground arith
advance-asked s (looping sid n) = ground arith
advance-asked s (unclosed sid n) = ground arith
advance-asked s (registered sid n w) = refl
advance-asked s (waiting sid n) = ground arith
advance-asked s (conn_loaded sid n c w) = ground arith
advance-asked s (conn_taken sid n w) = refl
advance-asked s (stream_loaded sid n c w) = ground arith
advance-asked s (rolling_back sid n w) = ground arith
advance-asked s (acquired sid n) = refl
advance-asked s (bypassed sid n) = refl

pub advance_at-IsAsked :
    (i : ℕ) (s : Shared) (ts : List Task) → All IsAsked ts → All IsAsked (advance_at i s ts).1
unfolding advance_at IsAsked
advance_at-IsAsked i s [] h = tt
advance_at-IsAsked zero s (t ∷ ts) h = (omega (arith, h.0, advance-asked s t), h.1)
advance_at-IsAsked (suc i) s (t ∷ ts) h = (h.0, advance_at-IsAsked i s ts h.1)

pub advance_at-conn :
    (i : ℕ) (s : Shared) (ts : List Task)
    → All IsAsked ts
    → s.conn_credit + total conn_held ts < 2 ^ 63
    → (advance_at i s ts).0.conn_credit + total conn_held (advance_at i s ts).1
      ≡ s.conn_credit + total conn_held ts
unfolding advance_at IsAsked
advance_at-conn i s [] h b = refl
advance_at-conn zero s (t ∷ ts) h b = omega (arith, advance-conn s t (omega arith) h.0)
advance_at-conn (suc i) s (t ∷ ts) h b = omega (arith, advance_at-conn i s ts h.1 (omega arith))

pub advance_at-stream :
    (i : ℕ) (s : Shared) (ts : List Task) (sid : ℕ)
    → All IsAsked ts
    → s.stream_credit sid + total (granted sid) ts < 2 ^ 63
    → (advance_at i s ts).0.stream_credit sid + total (granted sid) (advance_at i s ts).1
      ≡ s.stream_credit sid + total (granted sid) ts
unfolding advance_at IsAsked
advance_at-stream i s [] sid h b = refl
advance_at-stream zero s (t ∷ ts) sid h b = omega (arith, advance-stream s t sid (omega arith) h.0)
advance_at-stream (suc i) s (t ∷ ts) sid h b =
    omega (arith, advance_at-stream i s ts sid h.1 (omega arith))

-- Waking a task changes none of its accounts.
pub wake_same :
    (t : Task) (j : ℕ)
    → (conn_held (wake t) ≡ conn_held t)
      × (granted j (wake t) ≡ granted j t)
      × (asked (wake t) ≡ asked t)
unfolding wake
wake_same (calling sid n) j = (refl, refl, refl)
wake_same (looping sid n) j = (refl, refl, refl)
wake_same (unclosed sid n) j = (refl, refl, refl)
wake_same (registered sid n w) j = (refl, refl, refl)
wake_same (conn_loaded sid n c w) j = (refl, refl, refl)
wake_same (conn_taken sid n w) j = (refl, refl, refl)
wake_same (stream_loaded sid n c w) j = (refl, refl, refl)
wake_same (rolling_back sid n w) j = (refl, refl, refl)
wake_same (waiting sid n) j = (refl, refl, refl)
wake_same (acquired sid n) j = (refl, refl, refl)
wake_same (bypassed sid n) j = (refl, refl, refl)

pub wake_all-totals :
    (ts : List Task) (j : ℕ)
    → All IsAsked ts
    → (total conn_held (wake_all ts) ≡ total conn_held ts)
      × (total (granted j) (wake_all ts) ≡ total (granted j) ts)
      × All IsAsked (wake_all ts)
unfolding IsAsked
wake_all-totals [] j h = (refl, refl, tt)
wake_all-totals (t ∷ ts) j h =
    let one = wake_same t j in
    let more = wake_all-totals ts j h.1 in
    (omega (arith, one, more), omega (arith, one, more), (omega (arith, one, h), more.2))

pub wake_if :
    (woken : Bool) (t : Task) (j : ℕ)
    → (conn_held (if woken then wake t else t) ≡ conn_held t)
      × (granted j (if woken then wake t else t) ≡ granted j t)
      × (asked (if woken then wake t else t) ≡ asked t)
wake_if true t j = wake_same t j
wake_if false t j = (refl, refl, refl)

pub wake_stream-totals :
    (sid : ℕ) (ts : List Task) (j : ℕ)
    → All IsAsked ts
    → (total conn_held (wake_stream sid ts) ≡ total conn_held ts)
      × (total (granted j) (wake_stream sid ts) ≡ total (granted j) ts)
      × All IsAsked (wake_stream sid ts)
unfolding IsAsked
wake_stream-totals sid [] j h = (refl, refl, tt)
wake_stream-totals sid (t ∷ ts) j h =
    let one = wake_if (stream_of t == sid) t j in
    let more = wake_stream-totals sid ts j h.1 in
    (omega (arith, one, more), omega (arith, one, more), (omega (arith, one, h), more.2))
