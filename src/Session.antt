-- ===== src/Session.antt =====
-- crates/session/src/session.rs: the state that a session's read loop and its users share, and the
-- operations on its tables. Locks that are taken for one operation make it one step.
pub mod Shaper
pub mod Store
pub mod Close
pub mod Replies
pub mod Flush
pub mod Dispatch
pub mod Counts
pub mod Inbox
pub mod Syn
pub mod Goaway
pub mod Walk
use kanotls.Prelude.{
  ℕ, zero, suc, ◌+◌, ◌-◌, ◌*◌, ◌%◌, ◌^◌, List, [], ◌∷◌, ◌++◌, Option, none, some, Result, ok, err,
  Bool, true, false, if◌then◌else◌, ltb, leb, ◌==◌, ◌&&◌, ◌||◌, not, length, min, max,
}
use kanotls.Prelude.Maps.{lookup, insert, remove, has_key}
use kanotls.Pending.{BufferedPayload, PendingData, no_data, drop_payloads, remove_stream}
use kanotls.Pending.Opening.{PendingOpenStreams, none_open}
use kanotls.Flow.Receive.{saturating_add}
use kanotls.Frame.Padding.{decode_padding_goaway}

abbrev pub max_pending_stream_frames : ℕ
max_pending_stream_frames = 4096

abbrev pub max_pending_stream_bytes : ℕ
max_pending_stream_bytes = 64 * 1024 * 1024

abbrev pub max_pending_streams : ℕ
max_pending_streams = 1024

abbrev pub stream_channel_capacity : ℕ
stream_channel_capacity = 128

abbrev pub max_stream_overflow_bytes : ℕ
max_stream_overflow_bytes = 32 * 1024 * 1024

-- The two `mpsc` channels of a stream, which both ends hold: payloads, and at most one FIN.
pub record Channel : Type 0 where
  pub items : List BufferedPayload
  pub receiver_open : Bool
  pub fin_queued : Bool

abbrev pub new_channel : Channel
new_channel = record { items = []; receiver_open = true; fin_queued = false }

-- `synack_waits` is `synack_tx`: some sender, with or without a receiver that still listens.
pub record StreamHandle : Type 0 where
  pub synack_waits : Option Bool
  pub read_closed : Bool
  pub send_credit : ℕ

-- `peer_goaway_last_stream_id` before a GOAWAY: `u64::MAX`.
abbrev pub goaway_not_received : ℕ
goaway_not_received = 18446744073709551615

-- What is queued for the writer stands in `outbox`, what a oneshot sent to an opener in `synacks`.
pub record Session : Type 0 where
  pub is_client : Bool
  pub post_script_off : Bool
  pub max_streams_per_session : ℕ
  pub conn_wu_threshold : ℕ
  pub streams : List (ℕ × StreamHandle)
  pub channels : List (ℕ × Channel)
  pub capacity_stream_count : ℕ
  pub next_id : ℕ
  pub alive : Bool
  pub pending_inbound_streams : ℕ
  pub pending_open_streams : PendingOpenStreams
  pub pending_data : PendingData
  pub pending_fin : List ℕ
  pub closing_streams : List ℕ
  pub buffered_stream_bytes : ℕ
  pub peer_stream_high_water : ℕ
  pub peer_goaway_last_stream_id : ℕ
  pub peer_flow_control : Bool
  pub conn_credit : ℕ
  pub conn_consumed_since_wu : ℕ
  pub settings_received : Bool
  pub outbox : List (List ℕ)
  pub synacks : List (ℕ × List ℕ)

-- Sets of stream ids. The order is that of insertion; the sources do not rely on an order.
abbrev pub member : ℕ → List ℕ → Bool
member x [] = false
member x (y ∷ ys) = (y == x) || member x ys

abbrev pub set_insert : ℕ → List ℕ → List ℕ
set_insert x xs = if member x xs then xs else x ∷ xs

abbrev pub set_remove : ℕ → List ℕ → List ℕ
set_remove x [] = []
set_remove x (y ∷ ys) = if y == x then ys else y ∷ set_remove x ys

-- A packet is queued if the control queue has room for it.
abbrev pub try_write : Bool → List (List ℕ) → Session → Session
try_write queue_takes packets s =
    if queue_takes then record s { outbox = s.outbox ++ packets } else s

abbrev pub wrapping_sub : ℕ → ℕ → ℕ
wrapping_sub a b = (a + 2 ^ 64 - b) % 2 ^ 64

unfoldable pub register_stream_locked : ℕ → StreamHandle → Session → Session
unfolding insert
register_stream_locked sid handle s = record s {
  streams = insert sid handle s.streams;
  channels = insert sid new_channel s.channels;
  capacity_stream_count = (s.capacity_stream_count + 1) % 2 ^ 64;
}

unfoldable pub unregister_stream_locked : ℕ → Session → Session
unfolding lookup remove
unregister_stream_locked sid s = elim (lookup sid s.streams) [
  | none ↦ s
  | some handle ↦ record s {
    streams = remove sid s.streams;
    capacity_stream_count =
        if handle.read_closed
        then s.capacity_stream_count
        else wrapping_sub s.capacity_stream_count 1;
  }
]

unfoldable pub mark_stream_read_closed_locked : ℕ → Session → Session
unfolding lookup insert
mark_stream_read_closed_locked sid s = elim (lookup sid s.streams) [
  | none ↦ s
  | some handle ↦ if handle.read_closed then s else record s {
    streams = insert sid (record handle { read_closed = true }) s.streams;
    capacity_stream_count = wrapping_sub s.capacity_stream_count 1;
  }
]

abbrev pub active_stream_count : Session → ℕ
active_stream_count s = s.capacity_stream_count

-- The compare-and-exchange loop ends with the value that it last loaded.
unfoldable pub try_reserve_inbound_stream : Session → Bool × Session
try_reserve_inbound_stream s =
    if leb s.max_streams_per_session
      (saturating_add (active_stream_count s) s.pending_inbound_streams)
    then (false, s)
    else (true, record s { pending_inbound_streams = s.pending_inbound_streams + 1 })

-- `checked_sub`: at 0 nothing changes.
unfoldable pub release_inbound_stream_reservation : Session → Session
release_inbound_stream_reservation s = record s {
  pending_inbound_streams = s.pending_inbound_streams - 1;
}

unfoldable pub next_stream_id : Session → Option ℕ × Session
next_stream_id s =
    if (s.next_id == 0) || (s.next_id == 4294967295)
    then (none, record s { alive = false })
    else (some s.next_id, record s { next_id = s.next_id + 1 })

-- `fetch_min` with the id of the peer's GOAWAY; a server takes none.
unfoldable pub note_peer_goaway : List ℕ → Session → Session
unfolding decode_padding_goaway
note_peer_goaway payload s =
    if s.is_client
    then elim (decode_padding_goaway payload) [
      | none ↦ s
      | some last ↦ record s { peer_goaway_last_stream_id = min s.peer_goaway_last_stream_id last }
    ]
    else s

unfoldable pub peer_never_processed : Session → ℕ → Bool
peer_never_processed s stream_id =
    if s.peer_goaway_last_stream_id == goaway_not_received
    then false
    else ltb s.peer_goaway_last_stream_id stream_id
