-- ===== src/Session/Inbox/Gap.antt =====
-- Payloads that a limit drops before the stream is accepted.
use kanotls.Prelude.{
  ℕ, ◌+◌, ◌≡◌, refl, sym, ◌∙◌, List, [], ◌∷◌, ◌++◌, some, ok, true, false, leb, ltb, length, arith,
}
use kanotls.Prelude.Maps.{lookup, has_key, lookup-insert}
use kanotls.Frame.{Frame, cmd_psh}
use kanotls.Flow.Receive.{saturating_add}
use kanotls.Pending.{new_payload}
use kanotls.Pending.Opening.{PendingOpenStream, push_data}
use kanotls.Pending.Opening
use kanotls.Session.{Session, max_pending_stream_bytes, max_pending_stream_frames}
use kanotls.Session.Store.{store_pending_open_data}
use kanotls.Session.Dispatch.{Env, count_received, on_psh, handle_frame}

dropped :
    (env : Env) (frame : Frame) (s : Session)
    → frame.cmd ≡ cmd_psh
    → Opening.contains s.pending_open_streams frame.stream_id ≡ true
    → ltb max_pending_stream_bytes
        (saturating_add s.pending_open_streams.total_bytes (length frame.payload))
      ≡ true
    → handle_frame env frame s ≡ (ok tt, count_received env (length frame.payload) s)
unfolding handle_frame on_psh store_pending_open_data count_received
dropped env frame s psh there over =
    rw (handle_frame, psh, on_psh, there, store_pending_open_data, over) refl

lookup-has_key {ℓ} :
    {V : Type ℓ} (k : ℕ) (m : List (ℕ × V)) (v : V) → lookup k m ≡ some v → has_key k m ≡ true
unfolding lookup has_key
lookup-has_key k [] v e = cc
lookup-has_key k ((j, w) ∷ m) v e = ground (arith, lookup-has_key k m v)

-- The entry with one payload more.
abbrev pub with_payload : PendingOpenStream → List ℕ → PendingOpenStream
with_payload e bytes = record e {
  buffered_data = e.buffered_data ++ (record { bytes = bytes; accounted = true } ∷ []);
  bytes = e.bytes + length bytes;
}

push_data-found :
    (o : Opening.PendingOpenStreams) (sid counter : ℕ) (bytes : List ℕ) (e : PendingOpenStream)
    → lookup sid o.streams ≡ some e
    → lookup sid (push_data o sid (record { bytes = bytes; accounted = true }) counter).1.streams
      ≡ some (with_payload e bytes)
unfolding push_data
push_data-found o sid counter bytes e found =
    rw (push_data, found) (lookup-insert sid sid (with_payload e bytes) o.streams ∙ ground arith)

kept :
    (env : Env) (frame : Frame) (s : Session) (e : PendingOpenStream)
    → frame.cmd ≡ cmd_psh
    → Opening.contains s.pending_open_streams frame.stream_id ≡ true
    → lookup frame.stream_id s.pending_open_streams.streams ≡ some e
    → ltb max_pending_stream_bytes
        (saturating_add s.pending_open_streams.total_bytes (length frame.payload))
      ≡ false
    → leb max_pending_stream_frames (Opening.stream_frames s.pending_open_streams frame.stream_id)
      ≡ false
    → ((handle_frame env frame s).0 ≡ ok tt)
      × (lookup frame.stream_id (handle_frame env frame s).1.pending_open_streams.streams
          ≡ some (with_payload e frame.payload))
unfolding handle_frame on_psh store_pending_open_data count_received new_payload
kept env frame s e psh there found fits frames =
    rw (handle_frame, psh, on_psh, there, store_pending_open_data, fits, frames)
      (refl, push_data-found s.pending_open_streams frame.stream_id _ frame.payload e found)

-- For a stream that waits for `accept`: of two PSH frames in a row, the first too long for the
-- limit on the buffered bytes and the second not, with fewer frames buffered than their limit, both
-- are handled without an error, and the second payload is buffered directly behind the payloads
-- before the first.
pub handle_psh_gap :
    (env : Env) (first second : Frame) (s : Session) (e : PendingOpenStream)
    → first.cmd ≡ cmd_psh
    → second.cmd ≡ cmd_psh
    → second.stream_id ≡ first.stream_id
    → lookup first.stream_id s.pending_open_streams.streams ≡ some e
    → ltb max_pending_stream_bytes
        (saturating_add s.pending_open_streams.total_bytes (length first.payload))
      ≡ true
    → ltb max_pending_stream_bytes
        (saturating_add s.pending_open_streams.total_bytes (length second.payload))
      ≡ false
    → leb max_pending_stream_frames (length e.buffered_data) ≡ false
    → ((handle_frame env first s).0 ≡ ok tt)
      × ((handle_frame env second (handle_frame env first s).1).0 ≡ ok tt)
      × (lookup first.stream_id
            (handle_frame env second (handle_frame env first s).1).1.pending_open_streams.streams
          ≡ some (with_payload e second.payload))
unfolding count_received Opening.contains Opening.stream_frames
handle_psh_gap env first second s e psh psh' same found over fits frames =
    let there : has_key first.stream_id s.pending_open_streams.streams ≡ true =
      lookup-has_key first.stream_id s.pending_open_streams.streams e found in
    let there' : has_key second.stream_id s.pending_open_streams.streams ≡ true = rw same there in
    let found' : lookup second.stream_id s.pending_open_streams.streams ≡ some e = rw same found in
    let few : leb max_pending_stream_frames
          (Opening.stream_frames s.pending_open_streams second.stream_id)
        ≡ false =
      rw (Opening.stream_frames, found') frames in
    let lost = dropped env first s psh there over in
    let (fine_again, stored) =
      kept env second (count_received env (length first.payload) s) e psh' there' found' fits few in
    rw lost (refl, fine_again, rw (sym same) stored)
