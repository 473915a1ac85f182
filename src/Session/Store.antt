-- ===== src/Session/Store.antt =====
-- crates/session/src/session.rs: what is kept for later, within the limits.
use kanotls.Prelude.{
  ℕ, ◌*◌, List, Option, none, some, Bool, true, false, if◌then◌else◌, ltb, leb, ◌&&◌, not, length,
}
use kanotls.Pending.{
  BufferedPayload, PendingData, len, new_payload, drop_payload, push_back, stream_count,
  stream_bytes,
}
use kanotls.Pending
use kanotls.Pending.Opening.{PendingOpenStreams, push_data, set_buffered_fin, release_reservation}
use kanotls.Pending.Opening
use kanotls.Flow.Receive.{saturating_add}
use kanotls.Session.{
  Session, max_pending_stream_frames, max_pending_stream_bytes, max_pending_streams,
  max_stream_overflow_bytes, member, set_insert, release_inbound_stream_reservation,
}

abbrev pub overflow_limit : Session → ℕ
overflow_limit s =
    if s.peer_flow_control then max_stream_overflow_bytes * 2 else max_stream_overflow_bytes

-- The four limits of `store_pending_data`.
unfoldable pub may_store : Session → ℕ → ℕ → Bool
unfolding Pending.contains stream_count stream_bytes Pending.stream_frames
may_store s sid n =
    not (ltb max_pending_stream_bytes (saturating_add s.pending_data.total_bytes n))
    && (not (
          not (Pending.contains s.pending_data sid)
          && leb max_pending_streams (stream_count s.pending_data))
        && (not (ltb (overflow_limit s) (saturating_add (stream_bytes s.pending_data sid) n))
            && not (leb max_pending_stream_frames (Pending.stream_frames s.pending_data sid))))

-- A payload that is refused is dropped.
unfoldable pub store_pending_data : ℕ → BufferedPayload → Session → Bool × Session
unfolding may_store push_back drop_payload
store_pending_data sid payload s =
    if may_store s sid (len payload)
    then (true, record s { pending_data = push_back s.pending_data sid payload })
    else (false, record s { buffered_stream_bytes = drop_payload payload s.buffered_stream_bytes })

unfoldable pub store_pending_fin : ℕ → Session → Session
store_pending_fin sid s =
    if leb max_pending_streams (length s.pending_fin) && not (member sid s.pending_fin)
    then s
    else record s { pending_fin = set_insert sid s.pending_fin }

-- `true` if there is an entry, also where a limit makes that the bytes are dropped.
unfoldable pub store_pending_open_data : ℕ → List ℕ → Session → Bool × Session
unfolding Opening.contains Opening.stream_frames new_payload push_data
store_pending_open_data sid bytes s =
    if not (Opening.contains s.pending_open_streams sid)
    then (false, s)
    else if ltb max_pending_stream_bytes
        (saturating_add s.pending_open_streams.total_bytes (length bytes))
    then (true, s)
    else if leb max_pending_stream_frames (Opening.stream_frames s.pending_open_streams sid)
    then (true, s)
    else let made = new_payload bytes s.buffered_stream_bytes in
      let pushed = push_data s.pending_open_streams sid made.0 made.1 in
      (true, record s { pending_open_streams = pushed.1; buffered_stream_bytes = pushed.2 })

abbrev pub is_first : Option Bool → Bool
is_first none = false
is_first (some first) = first

unfoldable pub store_pending_open_fin : ℕ → Session → Bool × Session
unfolding set_buffered_fin release_reservation release_inbound_stream_reservation
store_pending_open_fin sid s =
    let marked = set_buffered_fin s.pending_open_streams sid in
    let released = release_reservation marked.1 sid in
    let after = record s { pending_open_streams = released.1 } in
    if marked.0
    then (true, (if is_first released.0 then release_inbound_stream_reservation after else after))
    else (false, s)

unfoldable pub release_pending_open_reservation : ℕ → Session → Bool × Session
unfolding release_reservation
release_pending_open_reservation sid s =
    let released = release_reservation s.pending_open_streams sid in
    (is_first released.0, record s { pending_open_streams = released.1 })
