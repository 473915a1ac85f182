-- ===== src/Session/Inbox/Arrival.antt =====
-- What arrives for an open stream goes behind what waits, or the stream is closed.
use kanotls.Prelude.{
  ℕ, ◌+◌, ◌≡◌, refl, ap, sym, ◌∙◌, ◌⊎◌, inl, inr, List, [], ◌∷◌, ◌++◌, none, some, ok, Option-cases,
  Bool, true, false, Bool-cases, ◌&&◌, ◌||◌, not, leb, length, arith, append-nil, append_assoc,
}
use kanotls.Prelude.Maps.{lookup, insert, IsMap, lookup-insert, lookup-remove, lookup-no_key}
use kanotls.Frame.{Frame, cmd_psh}
use kanotls.Pending.Opening
use kanotls.Pending.{
  BufferedPayload, PendingData, StreamQueue, new_payload, drop_payload, len, push_back, or_default,
}
use kanotls.Pending
use kanotls.Session.{
  Session, StreamHandle, Channel, member, max_pending_streams, stream_channel_capacity,
  unregister_stream_locked,
}
use kanotls.Session.Counts.Steps.{either}
use kanotls.Session.Close.{
  remember_closing_stream, remove_stream_state, clear_pending_client_stream_state,
  finish_closing_stream, close_stream_fire_and_forget,
}
use kanotls.Session.Store.{may_store, store_pending_data}
use kanotls.Session.Flush.{channel_of, set_channel, or_new, sent, full, try_send}
use kanotls.Session.Dispatch.{
  Env, is_some, count_received, dispatch_psh, on_psh, handle_frame, store_or_close, deliver,
}
use kanotls.Session.Inbox.{waiting}
use kanotls.Session.Inbox.Order.{queue_of}

pub push_back-queue :
    (d : PendingData) (sid : ℕ) (p : BufferedPayload)
    → queue_of (push_back d sid p) sid ≡ queue_of d sid ++ (p ∷ [])
unfolding push_back
push_back-queue d sid p =
    let q = or_default (lookup sid d.queues) in
    let q' : StreamQueue = record { items = q.items ++ (p ∷ []); bytes = q.bytes + len p } in
    let put : lookup sid (insert sid q' d.queues) ≡ some q' =
      lookup-insert sid sid q' d.queues ∙ ground arith in
    ap (λ o. (or_default o).items) put

-- The payload is behind what waits, or the stream is no longer there.
abbrev pub Arrived : ℕ → BufferedPayload → Session → Session → Type 0
Arrived sid p s r =
    (waiting r sid ≡ waiting s sid ++ (p ∷ []))
    ⊎ ((may_store s sid (len p) ≡ false) × (lookup sid r.streams ≡ none))

unregister-gone :
    (sid : ℕ) (s : Session)
    → IsMap s.streams
    → lookup sid (unregister_stream_locked sid s).streams ≡ none
unfolding unregister_stream_locked
unregister-gone sid s m = elim (Option-cases (lookup sid s.streams)) [
  | inl e ↦ rw (e, unregister_stream_locked) e
  | inr (h, e) ↦ rw (e, unregister_stream_locked) (lookup-remove sid sid s.streams m ∙ ground arith)
]

finish-gone :
    (sid : ℕ) (s : Session)
    → IsMap s.streams
    → lookup sid (finish_closing_stream sid s).streams ≡ none
unfolding finish_closing_stream remember_closing_stream remove_stream_state
    clear_pending_client_stream_state
finish-gone sid s m = unregister-gone sid (remember_closing_stream sid s) (
    either (λ (r : Session). IsMap r.streams)
      (not (member sid s.closing_streams) && leb max_pending_streams (length s.closing_streams)) m
      m)

close_stream-gone :
    (takes : Bool) (sid : ℕ) (s : Session)
    → IsMap s.streams
    → lookup sid (close_stream_fire_and_forget takes sid s).streams ≡ none
unfolding close_stream_fire_and_forget
close_stream-gone takes sid s m =
    either (λ (r : Session). lookup sid r.streams ≡ none) takes (finish-gone sid s m)
      (finish-gone sid s m)

store_or_close-Arrived :
    (env : Env) (sid : ℕ) (p : BufferedPayload) (s : Session)
    → IsMap s.streams
    → Arrived sid p s (store_or_close env sid p s)
unfolding store_or_close store_pending_data waiting channel_of
store_or_close-Arrived env sid p s m =
    let items = (or_new (lookup sid s.channels)).items in
    elim (Bool-cases (may_store s sid (len p))) [
      | inl room ↦
          rw (store_or_close, store_pending_data, room)
            (inl (
              ap (λ q. items ++ q) (push_back-queue s.pending_data sid p)
              ∙ sym (append_assoc items (queue_of s.pending_data sid) (p ∷ []))))
      | inr refused ↦
          let lost : Session = record s {
            buffered_stream_bytes = drop_payload p s.buffered_stream_bytes;
          } in
          rw (store_or_close, store_pending_data, refused)
            (inr (refl, close_stream-gone env.queue_takes sid lost m))
    ]

pub try_send-open :
    (c : Channel) (p : BufferedPayload)
    → c.receiver_open ≡ true
    → (try_send c p ≡ full) ⊎ (try_send c p ≡ sent (record c { items = c.items ++ (p ∷ []) }))
unfolding try_send
try_send-open c p e = elim (Bool-cases (leb stream_channel_capacity (length c.items))) [
  | inl no_room ↦ inl (rw (e, no_room) refl)
  | inr room ↦ inr (rw (e, room) refl)
]

pub no_queue : (d : PendingData) (sid : ℕ) → Pending.contains d sid ≡ false → queue_of d sid ≡ []
unfolding Pending.contains
no_queue d sid e = rw (queue_of, lookup-no_key sid d.queues e) refl

deliver-Arrived :
    (env : Env) (sid : ℕ) (bytes : List ℕ) (s : Session)
    → IsMap s.streams
    → (channel_of s sid).receiver_open ≡ true
    → Arrived sid (new_payload bytes s.buffered_stream_bytes).0 s (deliver env sid bytes s)
unfolding deliver waiting channel_of set_channel
deliver-Arrived env sid bytes s m listens =
    let made = new_payload bytes s.buffered_stream_bytes in
    let p = made.0 in
    let counted : Session = record s { buffered_stream_bytes = made.1 } in
    let stored : Arrived sid p s (store_or_close env sid p counted) =
      store_or_close-Arrived env sid p counted m in
    let c = channel_of s sid in
    elim (Bool-cases (env.pending_locked || Pending.contains s.pending_data sid)) [
      | inl behind ↦ rw (deliver, behind) stored
      | inr first ↦ elim (try_send-open c p listens) [
        | inl no_room ↦ rw (deliver, first, no_room) stored
        | inr room ↦
            let none_behind : Pending.contains s.pending_data sid ≡ false = ground (arith, first) in
            let empty = no_queue s.pending_data sid none_behind in
            let grown : Channel = record c { items = c.items ++ (p ∷ []) } in
            let put : lookup sid (insert sid grown s.channels) ≡ some grown =
              lookup-insert sid sid grown s.channels ∙ ground arith in
            let before : waiting s sid ≡ c.items =
              ap (λ q. c.items ++ q) empty ∙ append-nil c.items in
            let after : (or_new (lookup sid (insert sid grown s.channels))).items
                  ++ queue_of s.pending_data sid
                ≡ c.items ++ (p ∷ []) =
              ap (λ h. (or_new h).items ++ queue_of s.pending_data sid) put
              ∙ ap (λ q. (c.items ++ (p ∷ [])) ++ q) empty
              ∙ append-nil (c.items ++ (p ∷ [])) in
            rw (deliver, first, room) (inl (after ∙ ap (λ q. q ++ (p ∷ [])) (sym before)))
      ]
    ]

-- A stream whose payloads are handed on: it is registered, its opener has been answered, and it is open
-- for reading.
abbrev pub IsDelivered : ℕ → Session → Type 0
IsDelivered sid s =
    (h : StreamHandle) × (lookup sid s.streams ≡ some h)
    × (s.is_client && is_some h.synack_waits ≡ false)
    × (h.read_closed ≡ false)
    × (Opening.contains s.pending_open_streams sid ≡ false)
    × ((channel_of s sid).receiver_open ≡ true)

-- The payload of a PSH for a stream that is registered, answered, open for reading and not waiting
-- for `accept`, whose receiver is there, goes behind everything that waits for the stream's reader;
-- or the limits do not let it wait, and the stream is closed. The frame is handled without an error
-- either way.
pub handle_psh-Arrived :
    (env : Env) (frame : Frame) (s : Session)
    → frame.cmd ≡ cmd_psh
    → IsMap s.streams
    → IsDelivered frame.stream_id s
    → ((handle_frame env frame s).0 ≡ ok tt)
      × Arrived frame.stream_id
          (new_payload frame.payload s.buffered_stream_bytes).0
          s
          (handle_frame env frame s).1
unfolding handle_frame on_psh count_received dispatch_psh waiting
handle_psh-Arrived env frame s psh m (h, there, answered, open_for_reading, accepted, listens) =
    let counted = count_received env (length frame.payload) s in
    let sid = frame.stream_id in
    let arrived = deliver-Arrived env sid frame.payload counted m listens in
    let dispatched : Arrived sid (new_payload frame.payload s.buffered_stream_bytes).0 s
        (dispatch_psh env sid frame.payload counted) =
      rw (dispatch_psh, there, answered, open_for_reading) arrived in
    rw (handle_frame, psh, accepted) (refl, dispatched)
