-- ===== src/Session/Inbox.antt =====
-- crates/session/src/stream.rs and crates/session/src/server.rs: one pass of the loop of `read`. What a
-- stream has received stands in its channel, and behind that in the pending data.
pub mod Order
pub mod Arrival
pub mod Race
pub mod Gap
pub mod Synack
use kanotls.Prelude.{
  ℕ, List, [], ◌∷◌, ◌++◌, Option, none, some, Bool, true, false, if◌then◌else◌, not,
}
use kanotls.Prelude.Maps.{lookup}
use kanotls.Pending.{BufferedPayload, PendingData, into_bytes, pop_front, or_default}
use kanotls.Pending
use kanotls.Session.{Session, Channel, member, set_remove}
use kanotls.Session.Flush.{channel_of, set_channel}

-- `data_rx.try_recv()`
abbrev pub try_recv_from : Channel → List BufferedPayload → Option BufferedPayload × Channel
try_recv_from c [] = (none, c)
try_recv_from c (p ∷ ps) = (some p, record c { items = ps })

unfoldable pub try_recv : ℕ → Session → Option BufferedPayload × Session
unfolding channel_of set_channel
try_recv sid s =
    let received = try_recv_from (channel_of s sid) (channel_of s sid).items in
    (received.0, set_channel sid received.1 s)

-- `payload.into_bytes()`
unfoldable pub hand_out : BufferedPayload → Session → List ℕ × Session
unfolding into_bytes
hand_out payload s =
    let given = into_bytes payload s.buffered_stream_bytes in
    (given.0, record s { buffered_stream_bytes = given.1 })

-- A FIN that waited behind the pending data.
unfoldable pub take_queued_pending_fin : Bool → ℕ → Bool → Session → Bool × Session
take_queued_pending_fin fin_locked sid read_closed s =
    if fin_locked
    then (read_closed, s)
    else if member sid s.pending_fin
    then (true, record s { pending_fin = set_remove sid s.pending_fin })
    else (read_closed, s)

-- What is read, whether the reader has seen the end, and the session. The locks may be held elsewhere.
unfoldable pub try_drain_pending_data :
    Bool → Bool → ℕ → Bool → Session → Option (List ℕ) × Bool × Session
unfolding pop_front Pending.contains hand_out take_queued_pending_fin
try_drain_pending_data locked fin_locked sid read_closed s =
    let popped = pop_front s.pending_data sid in
    let rest = record s { pending_data = popped.1 } in
    let ended = take_queued_pending_fin fin_locked sid read_closed rest in
    if locked then (none, read_closed, s) else elim popped.0 [
      | none ↦ (none, ended.0, ended.1)
      | some payload ↦
          let drained =
            if not (Pending.contains popped.1 sid) then ended else (read_closed, rest) in
          let given = hand_out payload drained.1 in (some given.0, drained.0, given.1)
    ]

pub data Polled : Type 0 where
  data_read : List ℕ → Polled
  end_of_stream : Polled
  must_wait : Polled

-- A pass in which `meanwhile` happens between the look at the channel and the look at the pending data:
-- the tasks of a session run on several threads.
unfoldable pub read_pass :
    (Session → Session) → Bool → Bool → ℕ → Bool → Session → Polled × Bool × Session
unfolding try_recv hand_out try_drain_pending_data
read_pass meanwhile locked fin_locked sid read_closed s =
    let received = try_recv sid s in
    let drained = try_drain_pending_data locked fin_locked sid read_closed (meanwhile s) in
    elim received.0 [
      | some payload ↦
          let given = hand_out payload received.1 in (data_read given.0, read_closed, given.1)
      | none ↦ elim drained.0 [
        | some bytes ↦ (data_read bytes, drained.1, drained.2)
        | none ↦ ((if drained.1 then end_of_stream else must_wait), drained.1, drained.2)
      ]
    ]

-- What a stream has received and its reader has not read, in order.
unfoldable pub waiting : Session → ℕ → List BufferedPayload
unfolding channel_of lookup
waiting s sid = (channel_of s sid).items ++ (or_default (lookup sid s.pending_data.queues)).items
