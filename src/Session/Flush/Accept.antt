-- ===== src/Session/Flush/Accept.antt =====
-- crates/session/src/session.rs and crates/session/src/server.rs: what waited for the server's `accept`
-- is handed to the stream that it makes.
use kanotls.Prelude.{
  ℕ, zero, suc, List, [], ◌∷◌, ◌++◌, Option, none, some, Bool, true, false, if◌then◌else◌, ◌&&◌,
  ◌||◌, not,
}
use kanotls.Pending.{BufferedPayload, drop_payloads}
use kanotls.Pending.Opening.{take_ready, remove_open}
use kanotls.Pending.Opening
use kanotls.Session.{
  Session, Channel, StreamHandle, register_stream_locked, unregister_stream_locked,
  mark_stream_read_closed_locked, release_inbound_stream_reservation,
}
use kanotls.Session.Close.{Submission, close_stream}
use kanotls.Session.Store.{store_pending_data, release_pending_open_reservation}
use kanotls.Session.Flush.{channel_of, set_channel, sent, full, gone, try_send, send_fin, is_nil}

pub data PendingAcceptFlushResult : Type 0 where
  still_open : PendingAcceptFlushResult
  peer_half_closed : PendingAcceptFlushResult
  peer_closed : PendingAcceptFlushResult
  closed_locally : PendingAcceptFlushResult

-- Every payload is tried: the channel, what found it full, and whether the receiver is gone. Without a
-- receiver the list is what is dropped.
unfoldable pub send_ready :
    Channel → List BufferedPayload → List BufferedPayload → Channel × List BufferedPayload × Bool
unfolding try_send
send_ready c overflow [] = (c, overflow, false)
send_ready c overflow (p ∷ ps) = elim (try_send c p) [
  | sent c' ↦ send_ready c' overflow ps
  | full ↦ send_ready c (overflow ++ (p ∷ [])) ps
  | gone ↦ (c, overflow ++ (p ∷ ps), true)
]

-- The answers of `store_pending_data` are ignored here.
unfoldable pub store_all : ℕ → List BufferedPayload → Session → Session
unfolding store_pending_data
store_all sid [] s = s
store_all sid (p ∷ ps) s = store_all sid ps (store_pending_data sid p s).1

unfoldable pub forget_entry : ℕ → Session → Session
unfolding remove_open
forget_entry sid s =
    let removed = remove_open s.pending_open_streams sid s.buffered_stream_bytes in
    record s { pending_open_streams = removed.0; buffered_stream_bytes = removed.1 }

-- The FIN that had waited.
unfoldable pub end_accepted : Bool → ℕ → Session → PendingAcceptFlushResult × Session
unfolding channel_of set_channel mark_stream_read_closed_locked unregister_stream_locked
    forget_entry
end_accepted delivered_data sid s =
    let told = set_channel sid (send_fin (channel_of s sid)) s in
    if delivered_data
    then (peer_half_closed, forget_entry sid (mark_stream_read_closed_locked sid told))
    else (peer_closed, forget_entry sid (unregister_stream_locked sid told))

-- How a round ends: the function returns, the next round begins, or `close_stream` never returns.
pub data RoundEnd : Type 0 where
  returned : PendingAcceptFlushResult → RoundEnd
  next_round : RoundEnd
  awaiting_writer : RoundEnd

-- The stream's receiver is gone: it is closed, and its entry is removed once the FIN is flushed.
unfoldable pub close_accepted : Submission → ℕ → Session → RoundEnd × Session
unfolding close_stream forget_entry
close_accepted w sid s =
    let closed = close_stream w sid s in
    if closed.0
    then (returned closed_locally, forget_entry sid closed.1)
    else (awaiting_writer, closed.1)

-- One round, which hands over what is ready: how it ends, and what the next round starts from.
unfoldable pub flush_round : Submission → ℕ → Bool → Session → RoundEnd × Bool × Session
unfolding take_ready channel_of set_channel send_ready store_all forget_entry end_accepted
    drop_payloads close_accepted
flush_round w sid delivered s =
    let taken = take_ready s.pending_open_streams sid in
    let drained = record s { pending_open_streams = taken.1 } in
    elim taken.0 [
      | none ↦ (returned still_open, delivered, s)
      | some (payloads, fin) ↦
          let sending = send_ready (channel_of s sid) [] payloads in
          let handed = set_channel sid sending.0 drained in
          let now = delivered || not (is_nil payloads) in
          let stored = store_all sid sending.1 handed in
          let ended = end_accepted now sid stored in
          let closed = close_accepted w sid (record handed {
            buffered_stream_bytes = drop_payloads sending.1 s.buffered_stream_bytes;
          }) in
          if is_nil payloads && not fin
          then (returned still_open, delivered, forget_entry sid drained)
          else if sending.2
          then (closed.0, now, closed.1)
          else if fin
          then (returned ended.0, now, ended.1)
          else (next_round, now, stored)
    ]

-- The rounds follow each other until one ends; `next_round` stands for fuel that ran out.
unfoldable pub flush_pending_accept_stream :
    ℕ → Submission → ℕ → Bool → Session → RoundEnd × Session
unfolding flush_round
flush_pending_accept_stream zero w sid delivered s = (next_round, s)
flush_pending_accept_stream (suc fuel) w sid delivered s =
    let round = flush_round w sid delivered s in
    elim round.0 [
      | next_round ↦ flush_pending_accept_stream fuel w sid round.1 round.2
      | returned result ↦ (returned result, round.2)
      | awaiting_writer ↦ (awaiting_writer, round.2)
    ]

-- The fuel of `accept_stream`: one round hands over, a second finds the entry empty.
abbrev pub accept_rounds : ℕ
accept_rounds = 2

-- `ServerSessionHandler::accept_stream` for an id that was announced.
unfoldable pub accept_stream : Submission → ℕ → ℕ → Session → Option RoundEnd × Session
unfolding Opening.contains register_stream_locked release_pending_open_reservation
    release_inbound_stream_reservation flush_pending_accept_stream
accept_stream w stream_window sid s =
    let handle : StreamHandle = record {
      synack_waits = none;
      read_closed = false;
      send_credit = stream_window;
    } in
    let released = release_pending_open_reservation sid (register_stream_locked sid handle s) in
    let registered =
      if released.0 then release_inbound_stream_reservation released.1 else released.1 in
    let flushed = flush_pending_accept_stream accept_rounds w sid false registered in
    if Opening.contains s.pending_open_streams sid then (some flushed.0, flushed.1) else (none, s)
