-- ===== src/Session/Flush.antt =====
-- crates/session/src/session.rs: what waited is handed to the stream's channel.
pub mod Accept
pub mod Entries
pub mod Ends
use kanotls.Prelude.{
  ℕ, zero, suc, ◌+◌, ◌-◌, List, [], ◌∷◌, ◌++◌, Option, none, some, Result, ok, err, Bool, true,
  false, if◌then◌else◌, ltb, leb, not, length, ◌==◌, ◌&&◌,
}
use kanotls.Prelude.Maps.{lookup, insert}
use kanotls.Pending.{BufferedPayload, PendingData, drop_payloads, remove_stream, push_back}
use kanotls.Session.{
  Session, Channel, new_channel, StreamHandle, stream_channel_capacity, member, set_insert,
  set_remove, unregister_stream_locked,
}
use kanotls.Session.Close.{or_nothing, close_stream_fire_and_forget, clear_closing_stream}

abbrev pub or_new : Option Channel → Channel
or_new none = new_channel
or_new (some c) = c

unfoldable pub channel_of : Session → ℕ → Channel
unfolding lookup
channel_of s sid = or_new (lookup sid s.channels)

unfoldable pub set_channel : ℕ → Channel → Session → Session
unfolding insert
set_channel sid c s = record s { channels = insert sid c s.channels }

-- The answers of `try_send`.
pub data Sent : Type 0 where
  sent : Channel → Sent
  full : Sent
  gone : Sent

unfoldable pub try_send : Channel → BufferedPayload → Sent
try_send c payload =
    if not c.receiver_open
    then gone
    else if leb stream_channel_capacity (length c.items)
    then full
    else sent (record c { items = c.items ++ (payload ∷ []) })

-- `fin_tx.try_send(())`, whose channel holds one FIN.
abbrev pub send_fin : Channel → Channel
send_fin c = if c.receiver_open then record c { fin_queued = true } else c

-- One after the other, until the channel is full or its receiver is gone: what is left, and whether the
-- receiver is gone.
unfoldable pub send_all : Channel → List BufferedPayload → Channel × List BufferedPayload × Bool
unfolding try_send
send_all c [] = (c, [], false)
send_all c (p ∷ ps) = elim (try_send c p) [
  | sent c' ↦ send_all c' ps
  | full ↦ (c, p ∷ ps, false)
  | gone ↦ (c, p ∷ ps, true)
]

unfoldable pub push_all_back : PendingData → ℕ → List BufferedPayload → PendingData
unfolding push_back
push_all_back d sid [] = d
push_all_back d sid (p ∷ ps) = push_all_back (push_back d sid p) sid ps

-- `pending_fin` of `flush_client_pending_stream`: with everything delivered the stream ends here.
unfoldable pub end_flush : ℕ → Bool → Session → Session
unfolding channel_of set_channel unregister_stream_locked clear_closing_stream
end_flush sid all_delivered s =
    if all_delivered
    then (clear_closing_stream sid
        (unregister_stream_locked sid (set_channel sid (send_fin (channel_of s sid)) s))).1
    else record s { pending_fin = set_insert sid s.pending_fin }

abbrev pub is_nil {ℓ} : {A : Type ℓ} → List A → Bool
is_nil [] = true
is_nil (x ∷ xs) = false

unfoldable pub flush_client_pending_stream : Bool → ℕ → Session → Session
unfolding lookup remove_stream drop_payloads send_all push_all_back channel_of set_channel end_flush
    close_stream_fire_and_forget
flush_client_pending_stream queue_takes sid s =
    let removed = remove_stream s.pending_data sid in
    let had_fin = member sid s.pending_fin in
    let taken = record s { pending_data = removed.1; pending_fin = set_remove sid s.pending_fin } in
    let sending = send_all (channel_of s sid) (or_nothing removed.0) in
    let kept =
      set_channel sid sending.0
        (record taken { pending_data = push_all_back removed.1 sid sending.1 }) in
    let ended = end_flush sid (is_nil sending.1) kept in
    let closed = close_stream_fire_and_forget queue_takes sid (
      set_channel sid sending.0 (record taken {
        buffered_stream_bytes = drop_payloads sending.1 s.buffered_stream_bytes;
      })) in
    elim (lookup sid s.streams) [
      | none ↦ s
      | some handle ↦ if sending.2 then closed else (if had_fin then ended else kept)
    ]
