-- ===== src/Session/Dispatch/Payloads.antt =====
-- `Session::handle_frame` of crates/session/src/session.rs: what answers while a frame is handled, and
-- the payload of a PSH frame.
use kanotls.Prelude.{
  ℕ, List, [], ◌∷◌, ◌++◌, Option, none, some, Result, ok, Bool, true, false, if◌then◌else◌, ◌&&◌,
  ◌||◌, length,
}
use kanotls.Prelude.Maps.{lookup}
use kanotls.Frame.{Frame}
use kanotls.Pending.{BufferedPayload, new_payload, drop_payload}
use kanotls.Pending
use kanotls.Pending.Opening.{insert_new, remove_open}
use kanotls.Pending.Opening
use kanotls.Flow.Receive.{note_conn_received}
use kanotls.Session.{Session}
use kanotls.Session.Close.{close_stream_fire_and_forget}
use kanotls.Session.Store.{store_pending_data, store_pending_open_data}
use kanotls.Session.Flush.{channel_of, set_channel, sent, full, gone, try_send}

-- What the rest of the process answers while a frame is handled.
pub record Env : Type 0 where
  -- whether the control queue takes a WINDOW_UPDATE, and whether it takes the other packets
  pub update_taken : Bool
  pub queue_takes : Bool
  -- another task holds the lock on the pending data
  pub pending_locked : Bool
  -- the answer of `on_new_stream`, if it is set
  pub new_stream : Option Bool
  -- the drawn size of a reply, and the drawn size of the settings
  pub drawn : ℕ
  pub large_settings : Bool

pub data DispatchError : Type 0 where
  unknown_cmd : ℕ → DispatchError
  rejection_not_queued : DispatchError

abbrev pub Outcome : Type 0
Outcome = Result DispatchError (Unit {0}) × Session

abbrev pub fine : Session → Outcome
fine s = (ok tt, s)

abbrev add_packet : Option (List ℕ) → List (List ℕ) → List (List ℕ)
add_packet none packets = packets
add_packet (some packet) packets = packets ++ (packet ∷ [])

-- Connection credit is given back for every payload that arrives.
unfoldable pub count_received : Env → ℕ → Session → Session
unfolding note_conn_received
count_received env n s =
    let noted =
      note_conn_received s.conn_wu_threshold s.conn_consumed_since_wu n env.update_taken in
    record s { outbox = add_packet noted.0 s.outbox; conn_consumed_since_wu = noted.1 }

-- A payload goes behind what waits already, or the stream is closed.
unfoldable pub store_or_close : Env → ℕ → BufferedPayload → Session → Session
unfolding store_pending_data close_stream_fire_and_forget
store_or_close env sid payload s =
    let stored = store_pending_data sid payload s in
    if stored.0 then stored.1 else close_stream_fire_and_forget env.queue_takes sid stored.1

unfoldable pub deliver : Env → ℕ → List ℕ → Session → Session
unfolding Pending.contains new_payload drop_payload try_send channel_of set_channel store_or_close
deliver env sid bytes s =
    let has_pending = env.pending_locked || Pending.contains s.pending_data sid in
    let made = new_payload bytes s.buffered_stream_bytes in
    let counted = record s { buffered_stream_bytes = made.1 } in
    let waiting = store_or_close env sid made.0 counted in
    if has_pending then waiting else elim (try_send (channel_of s sid) made.0) [
      | sent c ↦ set_channel sid c counted
      | full ↦ waiting
      | gone ↦ record s { buffered_stream_bytes = drop_payload made.0 made.1 }
    ]

abbrev pub is_some {ℓ} : {A : Type ℓ} → Option A → Bool
is_some none = false
is_some (some a) = true

-- The four cases of `PshDispatch`.
unfoldable pub dispatch_psh : Env → ℕ → List ℕ → Session → Session
unfolding lookup new_payload store_pending_data deliver
dispatch_psh env sid bytes s =
    let made = new_payload bytes s.buffered_stream_bytes in
    let waiting = (store_pending_data sid made.0 (record s { buffered_stream_bytes = made.1 })).1 in
    let delivered = deliver env sid bytes s in
    elim (lookup sid s.streams) [
      | none ↦ s
      | some handle ↦
          if s.is_client && is_some handle.synack_waits
          then waiting
          else if handle.read_closed
          then s
          else delivered
    ]

unfoldable pub on_psh : Env → Frame → Session → Session
unfolding Opening.contains count_received store_pending_open_data dispatch_psh
on_psh env frame s0 =
    let s = count_received env (length frame.payload) s0 in
    let stored = store_pending_open_data frame.stream_id frame.payload s in
    if Opening.contains s.pending_open_streams frame.stream_id && stored.0
    then stored.1
    else dispatch_psh env frame.stream_id frame.payload s
