-- ===== src/Session/Dispatch.antt =====
-- `Session::handle_frame` of crates/session/src/session.rs: what the read loop does with a frame. The
-- frame is handled in one step; the wakeups of readers and what is only logged are left out.
pub mod Payloads
use kanotls.Prelude.{
  ℕ, max, List, [], ◌∷◌, ◌++◌, Option, none, some, err, Bool, true, false, if◌then◌else◌, ◌==◌,
  ◌&&◌, ◌||◌, not, get_or,
}
use kanotls.Prelude.Maps.{lookup, insert, has_key}
use kanotls.Frame.{Frame, cmd_psh, cmd_syn, cmd_fin, cmd_synack, cmd_settings, cmd_padding}
use kanotls.Frame.Padding.{
  padding_flag_request, padding_flag_goaway, padding_flag_window_update,
  decode_padding_window_update, encode_padding_reply_sized,
}
use kanotls.Pending
use kanotls.Pending.Opening.{insert_new, remove_open}
use kanotls.Pending.Opening
use kanotls.Flow.{i64_add}
use kanotls.ControlSize.{settings_ack_wire}
use kanotls.Session.{
  Session, member, try_write, try_reserve_inbound_stream, release_inbound_stream_reservation,
  mark_stream_read_closed_locked, note_peer_goaway,
}
use kanotls.Session.Close.{remove_stream_state, clear_closing_stream}
use kanotls.Session.Store.{store_pending_fin, store_pending_open_fin}
use kanotls.Session.Replies.{
  Reason, settings_not_received, duplicate_stream_id, max_streams_reached, server_overloaded,
  not_accepted, synack_rejection, announces_flow_control, h2_server_opening, padding_replies,
}
use kanotls.Session.Flush.{channel_of, set_channel, full, send_fin, flush_client_pending_stream}
pub use kanotls.Session.Dispatch.Payloads.{
  Env, DispatchError, unknown_cmd, rejection_not_queued, Outcome, fine, is_some,
}
unfoldable pub use kanotls.Session.Dispatch.Payloads.{
  count_received, store_or_close, deliver, dispatch_psh, on_psh,
}

-- A full control queue makes an error of the refusal.
unfoldable pub send_synack_rejection : Env → ℕ → Reason → Session → Outcome
unfolding synack_rejection
send_synack_rejection env sid reason s =
    if env.queue_takes
    then fine (record s { outbox = s.outbox ++ (synack_rejection sid reason ∷ []) })
    else (err rejection_not_queued, s)

-- The entry is made, and taken back if nobody wants the stream.
unfoldable pub open_inbound : Env → ℕ → Session → Outcome
unfolding insert_new remove_open release_inbound_stream_reservation send_synack_rejection
open_inbound env sid s =
    let inserted = insert_new s.pending_open_streams sid s.buffered_stream_bytes in
    let entered = record s {
      pending_open_streams = inserted.0;
      buffered_stream_bytes = inserted.1;
    } in
    let removed = remove_open inserted.0 sid inserted.1 in
    let undone =
      release_inbound_stream_reservation
        (record s { pending_open_streams = removed.0; buffered_stream_bytes = removed.1 }) in
    elim env.new_stream [
      | none ↦ send_synack_rejection env sid not_accepted undone
      | some accepted ↦
          if accepted then fine entered else send_synack_rejection env sid server_overloaded undone
    ]

unfoldable pub on_syn : Env → ℕ → Session → Outcome
unfolding has_key Opening.contains try_reserve_inbound_stream open_inbound send_synack_rejection
on_syn env sid s0 =
    let s = record s0 { peer_stream_high_water = max s0.peer_stream_high_water sid } in
    let reserved = try_reserve_inbound_stream s in
    if not s.settings_received
    then send_synack_rejection env sid settings_not_received s
    else if has_key sid s.streams || Opening.contains s.pending_open_streams sid
    then send_synack_rejection env sid duplicate_stream_id s
    else if not reserved.0
    then send_synack_rejection env sid max_streams_reached s
    else open_inbound env sid reserved.1

-- `synack_tx.take()`: the sender, and the table without it.
unfoldable pub take_synack : ℕ → Session → Option Bool × Session
unfolding lookup insert
take_synack sid s = elim (lookup sid s.streams) [
  | none ↦ (none, s)
  | some handle ↦ (
    handle.synack_waits,
    record s { streams = insert sid (record handle { synack_waits = none }) s.streams },
  )
]

abbrev pub tell_opener : Bool → ℕ → List ℕ → Session → Session
tell_opener listens sid words s =
    if listens then record s { synacks = s.synacks ++ ((sid, words) ∷ []) } else s

-- "stream closed before SYNACK"
abbrev pub closed_before_synack : List ℕ
closed_before_synack =
    115 ∷ 116 ∷ 114 ∷ 101 ∷ 97 ∷ 109 ∷ 32 ∷ 99 ∷ 108 ∷ 111 ∷ 115 ∷ 101 ∷ 100 ∷ 32 ∷ 98 ∷ 101 ∷ 102
    ∷ 111 ∷ 114 ∷ 101 ∷ 32 ∷ 83 ∷ 89 ∷ 78 ∷ 65 ∷ 67 ∷ 75 ∷ []

-- The FIN of a stream that is open.
unfoldable pub fin_open : ℕ → Session → Session
unfolding lookup clear_closing_stream mark_stream_read_closed_locked channel_of set_channel
fin_open sid s =
    let marked = mark_stream_read_closed_locked sid s in
    let told = set_channel sid (send_fin (channel_of marked sid)) marked in
    elim (lookup sid s.streams) [ none ↦ s | some handle ↦ (clear_closing_stream sid told).1 ]

unfoldable pub fin_known : ℕ → Session → Session
unfolding store_pending_open_fin clear_closing_stream fin_open
fin_known sid s =
    let stored = store_pending_open_fin sid s in
    let cleared = clear_closing_stream sid s in
    if stored.0 then stored.1 else if cleared.0 then cleared.1 else fin_open sid s

unfoldable pub on_fin : ℕ → Session → Session
unfolding take_synack store_pending_fin fin_known
on_fin sid s =
    let taken = take_synack sid s in
    if s.is_client
    then elim taken.0 [
      | none ↦ fin_known sid taken.1
      | some listens ↦ store_pending_fin sid (tell_opener listens sid closed_before_synack taken.1)
    ]
    else fin_known sid s

unfoldable pub on_synack : Env → Frame → Session → Session
unfolding take_synack Pending.contains remove_stream_state flush_client_pending_stream
on_synack env frame s =
    let sid = frame.stream_id in
    let taken = take_synack sid s in
    let told = tell_opener true sid frame.payload taken.1 in
    elim taken.0 [
      | none ↦ s
      | some listens ↦
          if not listens
          then remove_stream_state sid taken.1
          else if Pending.contains s.pending_data sid || member sid s.pending_fin
          then flush_client_pending_stream env.queue_takes sid told
          else told
    ]

-- The server waits for room with its opening packets: there `queue_takes` is false if the writer is closed.
unfoldable pub on_settings : Env → List ℕ → Session → Session
unfolding announces_flow_control encode_padding_reply_sized h2_server_opening
on_settings env payload s =
    let noted = record s {
      settings_received = true;
      peer_flow_control = s.peer_flow_control || announces_flow_control payload;
    } in
    if s.settings_received
    then noted
    else if s.is_client
    then try_write env.queue_takes (encode_padding_reply_sized settings_ack_wire ∷ []) noted
    else try_write env.queue_takes (h2_server_opening s.post_script_off env.large_settings) noted

-- A WINDOW_UPDATE of the connection, or of a stream that is registered.
unfoldable pub on_window_update : ℕ → List ℕ → Session → Session
unfolding decode_padding_window_update lookup insert
on_window_update sid payload s = elim (decode_padding_window_update payload) [
  | none ↦ s
  | some increment ↦
      if sid == 0
      then record s { conn_credit = i64_add s.conn_credit increment }
      else elim (lookup sid s.streams) [
        | none ↦ s
        | some handle ↦ record s {
          streams =
              insert sid (record handle { send_credit = i64_add handle.send_credit increment })
                s.streams;
        }
      ]
]

unfoldable pub on_padding : Env → Frame → Session → Session
unfolding note_peer_goaway on_window_update padding_replies
on_padding env frame s =
    let flag = get_or frame.payload 0 padding_flag_request in
    if flag == padding_flag_goaway
    then note_peer_goaway frame.payload s
    else if flag == padding_flag_window_update
    then on_window_update frame.stream_id frame.payload s
    else if flag == padding_flag_request
    then try_write env.queue_takes (padding_replies env.drawn frame.payload) s
    else s

unfoldable pub handle_frame : Env → Frame → Session → Outcome
unfolding on_psh on_syn on_fin on_synack on_settings on_padding
handle_frame env frame s =
    if frame.cmd == cmd_psh
    then fine (on_psh env frame s)
    else if frame.cmd == cmd_syn
    then on_syn env frame.stream_id s
    else if frame.cmd == cmd_fin
    then fine (on_fin frame.stream_id s)
    else if frame.cmd == 0
    then fine s
    else if frame.cmd == cmd_synack
    then fine (on_synack env frame s)
    else if frame.cmd == cmd_settings
    then fine (on_settings env frame.payload s)
    else if frame.cmd == cmd_padding
    then fine (on_padding env frame s)
    else (err (unknown_cmd frame.cmd), s)
