-- ===== src/Session/Inbox/Race.antt =====
-- Frames that come between the reader's look at the channel and its look at the pending data.
use kanotls.Prelude.{
  ℕ, ◌+◌, ◌≤◌, ◌≡◌, refl, ap, sym, subst, ◌∙◌, List, [], ◌∷◌, ◌++◌, Bool, true, false, ◌||◌, leb,
  length, arith, length-append,
}
use kanotls.Prelude.Maps.{lookup, IsMap, insert-IsMap}
use kanotls.Pending.{
  BufferedPayload, PendingData, StreamQueue, new_payload, len, push_back, pop_front, or_default,
}
use kanotls.Pending
use kanotls.Session.{Session, Channel, stream_channel_capacity}
use kanotls.Session.Store.{may_store, store_pending_data}
use kanotls.Session.Flush.{channel_of, set_channel, try_send}
use kanotls.Session.Dispatch.{Env, store_or_close, deliver}
use kanotls.Session.Inbox.{read_pass, data_read}
use kanotls.Session.Inbox.Order.{
  queue_of, channel_of-set_channel, pop_front-queue, drain_lem, try_recv-empty,
}
use kanotls.Session.Inbox.Arrival.{push_back-queue, no_queue}

-- The payloads of one stream, one after the other.
unfoldable pub deliver_all : Env → ℕ → List (List ℕ) → Session → Session
unfolding deliver
deliver_all env sid [] s = s
deliver_all env sid (bytes ∷ more) s = deliver_all env sid more (deliver env sid bytes s)

deliver_room :
    (env : Env) (sid : ℕ) (bytes : List ℕ) (s : Session)
    → env.pending_locked || Pending.contains s.pending_data sid ≡ false
    → (channel_of s sid).receiver_open ≡ true
    → leb stream_channel_capacity (length (channel_of s sid).items) ≡ false
    → deliver env sid bytes s
      ≡ set_channel sid
          (record (channel_of s sid) {
            items =
                (channel_of s sid).items ++ ((new_payload bytes s.buffered_stream_bytes).0 ∷ []);
          })
          (record s { buffered_stream_bytes = (new_payload bytes s.buffered_stream_bytes).1 })
unfolding deliver try_send
deliver_room env sid bytes s alone listens room = rw (deliver, alone, try_send, listens, room) refl

neither : (b c : Bool) → b ≡ false → c ≡ false → b || c ≡ false
neither b c e f = rw (e, f) refl

-- What stays as it was while the channel takes `n` payloads.
abbrev Filled : ℕ → ℕ → Session → Session → Type 0
Filled sid n s r =
    (r.pending_data ≡ s.pending_data)
    × (r.peer_flow_control ≡ s.peer_flow_control)
    × ((channel_of r sid).receiver_open ≡ true)
    × (length (channel_of r sid).items ≡ length (channel_of s sid).items + n)

deliver_all-Filled :
    (env : Env) (sid : ℕ) (payloads : List (List ℕ)) (s : Session)
    → env.pending_locked || Pending.contains s.pending_data sid ≡ false
    → (channel_of s sid).receiver_open ≡ true
    → length (channel_of s sid).items + length payloads ≤ stream_channel_capacity
    → Filled sid (length payloads) s (deliver_all env sid payloads s)
unfolding deliver_all
deliver_all-Filled env sid [] s alone listens room = (refl, refl, listens, omega arith)
deliver_all-Filled env sid (bytes ∷ more) s alone listens room =
    let c = channel_of s sid in
    let made = new_payload bytes s.buffered_stream_bytes in
    let grown : Channel = record c { items = c.items ++ (made.0 ∷ []) } in
    let counted : Session = record s { buffered_stream_bytes = made.1 } in
    let r = set_channel sid grown counted in
    let step : deliver env sid bytes s ≡ r =
      deliver_room env sid bytes s alone listens (ground (arith, room)) in
    let at : channel_of r sid ≡ grown = channel_of-set_channel sid grown counted in
    let size : length (channel_of r sid).items ≡ length c.items + 1 =
      ap (λ (k : Channel). length k.items) at ∙ length-append c.items (made.0 ∷ []) in
    let (kept, credit, open_end, full_size) =
      deliver_all-Filled env sid more r alone (ap (λ (k : Channel). k.receiver_open) at ∙ listens)
        (ground (arith, room, size)) in
    subst (λ t. Filled sid (length (bytes ∷ more)) s (deliver_all env sid more t)) (sym step)
      (kept, credit, open_end, ground (arith, full_size, size))

deliver_full :
    (env : Env) (sid : ℕ) (bytes : List ℕ) (s : Session)
    → env.pending_locked || Pending.contains s.pending_data sid ≡ false
    → (channel_of s sid).receiver_open ≡ true
    → leb stream_channel_capacity (length (channel_of s sid).items) ≡ true
    → may_store s sid (length bytes) ≡ true
    → (deliver env sid bytes s).pending_data
      ≡ push_back s.pending_data sid (new_payload bytes s.buffered_stream_bytes).0
unfolding deliver try_send store_or_close store_pending_data
deliver_full env sid bytes s alone listens none_left room =
    rw (deliver, alone, try_send, listens, none_left, store_or_close, store_pending_data, room) refl

push_back-IsMap :
    (d : PendingData) (sid : ℕ) (p : BufferedPayload)
    → IsMap d.queues
    → IsMap (push_back d sid p).queues
unfolding push_back
push_back-IsMap d sid p m =
    let q = or_default (lookup sid d.queues) in
    insert-IsMap sid (record { items = q.items ++ (p ∷ []); bytes = q.bytes + len p }) d.queues m

may_store-same :
    (sid n : ℕ) (s r : Session)
    → r.pending_data ≡ s.pending_data
    → r.peer_flow_control ≡ s.peer_flow_control
    → may_store r sid n ≡ may_store s sid n
unfolding may_store
may_store-same sid n s r kept credit = rw (may_store, kept, credit) refl

-- If between the reader's look at an empty channel and its look at the pending data, where nothing
-- waits, 128 payloads and one more are delivered, the stream's receiver is there, no lock is held,
-- and the limits let the last one wait, then the pass hands out the last payload, ahead of the 128
-- earlier ones.
pub read_pass_overtakes :
    (env : Env) (fin_locked : Bool) (sid : ℕ) (closed : Bool) (s : Session)
    (earlier : List (List ℕ)) (later : List ℕ)
    → IsMap s.pending_data.queues
    → env.pending_locked ≡ false
    → Pending.contains s.pending_data sid ≡ false
    → (channel_of s sid).receiver_open ≡ true
    → (channel_of s sid).items ≡ []
    → length earlier ≡ stream_channel_capacity
    → may_store s sid (length later) ≡ true
    → ((read_pass
          (λ t. deliver env sid later (deliver_all env sid earlier t))
          false
          fin_locked
          sid
          closed
          s).0
        ≡ data_read later)
unfolding read_pass new_payload
read_pass_overtakes env fin_locked sid closed s earlier later m free alone listens empty many room =
    let filled = deliver_all env sid earlier s in
    let r = deliver env sid later filled in
    let p = (new_payload later filled.buffered_stream_bytes).0 in
    let (kept, credit, listening, size) =
      deliver_all-Filled env sid earlier s (neither env.pending_locked _ free alone) listens
        (rw (empty, many) (omega arith)) in
    let stored : r.pending_data ≡ push_back s.pending_data sid p =
      deliver_full env sid later filled
        (neither env.pending_locked _ free (ap (λ d. Pending.contains d sid) kept ∙ alone))
        listening (rw (size, empty, many) refl)
        (may_store-same sid (length later) s filled kept credit ∙ room)
      ∙ ap (λ d. push_back d sid p) kept in
    let queue : queue_of r.pending_data sid ≡ p ∷ [] =
      ap (λ d. queue_of d sid) stored
      ∙ push_back-queue s.pending_data sid p
      ∙ ap (λ q. q ++ (p ∷ [])) (no_queue s.pending_data sid alone) in
    let map : IsMap r.pending_data.queues = rw stored (push_back-IsMap s.pending_data sid p m) in
    let first = (pop_front-queue r.pending_data sid p [] map queue).0 in
    rw (read_pass, try_recv-empty sid s empty, (drain_lem fin_locked sid closed r p first).0) refl
