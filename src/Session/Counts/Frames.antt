-- ===== src/Session/Counts/Frames.antt =====
-- `handle_frame` keeps the counts.
use kanotls.Prelude.{
  ℕ, ◌+◌, ◌-◌, ◌<◌, ◌≡◌, refl, List, [], ◌∷◌, some, none, Option-cases, true, Bool-cases, inl, inr,
  arith, not, leb, ◌==◌, ◌||◌, max, get_or,
}
use kanotls.Prelude.Maps.{lookup, insert, remove, has_key, lookup-insert, lookup-no_key}
use kanotls.Frame.{Frame, cmd_psh, cmd_syn, cmd_fin, cmd_synack, cmd_settings, cmd_padding}
use kanotls.Frame.Padding.{
  padding_flag_request, padding_flag_goaway, padding_flag_window_update,
  decode_padding_window_update, decode_padding_goaway, encode_padding_reply_sized,
}
use kanotls.Pending.Opening.{PendingOpenStreams, insert_new, remove_open, default_stream}
use kanotls.Pending.Opening
use kanotls.Flow.Receive.{saturating_add}
use kanotls.ControlSize.{settings_ack_wire}
use kanotls.Session.{
  Session, try_reserve_inbound_stream, release_inbound_stream_reservation, note_peer_goaway,
}
use kanotls.Session.Replies.{
  settings_not_received, duplicate_stream_id, max_streams_reached, server_overloaded, not_accepted,
  announces_flow_control, h2_server_opening, padding_replies,
}
use kanotls.Session.Dispatch.{
  Env, Outcome, open_inbound, on_syn, on_settings, on_window_update, on_padding, handle_frame,
}
use kanotls.Session.Counts.Tables.{IsCounted, update_handle, insert_entry, remove_entry}
use kanotls.Session.Counts.Steps.{either, try_write-IsCounted}
use kanotls.Session.Counts.Payloads.{
  on_psh-IsCounted, rejection-IsCounted, inserted_entries, removed_entries,
}
use kanotls.Session.Counts.Streams.{on_fin-IsCounted, on_synack-IsCounted}

-- A room that is reserved is used for the entry, or given back with it.
open_inbound-IsCounted :
    (env : Env) (sid : ℕ) (s : Session)
    → IsCounted s
    → lookup sid s.pending_open_streams.streams ≡ none
    → s.capacity_stream_count + s.pending_inbound_streams < s.max_streams_per_session
    → IsCounted
        (open_inbound env sid
          (record s { pending_inbound_streams = s.pending_inbound_streams + 1 })).1
unfolding open_inbound release_inbound_stream_reservation
open_inbound-IsCounted env sid s c missing room =
    let o = s.pending_open_streams in
    let inserted = insert_new o sid s.buffered_stream_bytes in
    let removed = remove_open inserted.0 sid inserted.1 in
    let entered = insert_entry c sid missing room in
    let made = inserted_entries o sid s.buffered_stream_bytes missing in
    let found : lookup sid (insert sid default_stream o.streams) ≡ some default_stream =
      ground (arith, lookup-insert sid sid default_stream o.streams) in
    let gone : removed.0.streams ≡ remove sid (insert sid default_stream o.streams) =
      rw (removed_entries inserted.0 sid inserted.1 default_stream (rw made found), made) refl in
    let undone : IsCounted (record s {
      pending_open_streams = removed.0;
      buffered_stream_bytes = removed.1;
      pending_inbound_streams = s.pending_inbound_streams + 1 - 1;
    }) =
      rw gone (remove_entry entered sid default_stream found refl) in
    elim (Option-cases env.new_stream) [
      | inl e ↦ rw (open_inbound, e) (rejection-IsCounted env sid not_accepted _ undone)
      | inr (accepted, e) ↦
          rw (open_inbound, e)
            (either (λ (r : Outcome). IsCounted r.1) accepted (rw made entered)
              (rejection-IsCounted env sid server_overloaded _ undone))
    ]

on_syn-IsCounted :
    (env : Env) (sid : ℕ) (s : Session) → IsCounted s → IsCounted (on_syn env sid s).1
unfolding on_syn try_reserve_inbound_stream Opening.contains
on_syn-IsCounted env sid s0 c =
    let s : Session = record s0 { peer_stream_high_water = max s0.peer_stream_high_water sid } in
    let P : Outcome → Type 0 = λ r. IsCounted r.1 in
    let taken = has_key sid s.streams || Opening.contains s.pending_open_streams sid in
    let room = saturating_add s.capacity_stream_count s.pending_inbound_streams in
    either P (not s.settings_received) (rejection-IsCounted env sid settings_not_received s c)
      (elim (Bool-cases taken) [
        | inl dup ↦ rw dup (rejection-IsCounted env sid duplicate_stream_id s c)
        | inr new ↦ elim (Bool-cases (leb s.max_streams_per_session room)) [
          | inl none_left ↦
              rw (new, none_left) (rejection-IsCounted env sid max_streams_reached s c)
          | inr left ↦
              rw (new, left)
                (open_inbound-IsCounted env sid s c
                  (lookup-no_key sid s.pending_open_streams.streams (ground (arith, new)))
                  (ground (arith, left)))
        ]
      ])

on_settings-IsCounted :
    (env : Env) (payload : List ℕ) (s : Session)
    → IsCounted s
    → IsCounted (on_settings env payload s)
unfolding on_settings
on_settings-IsCounted env payload s c =
    let noted : Session = record s {
      settings_received = true;
      peer_flow_control = s.peer_flow_control || announces_flow_control payload;
    } in
    either IsCounted s.settings_received {x = noted} c (
      either IsCounted s.is_client
        (try_write-IsCounted env.queue_takes (encode_padding_reply_sized settings_ack_wire ∷ [])
          noted c)
        (try_write-IsCounted env.queue_takes
          (h2_server_opening s.post_script_off env.large_settings) noted c))

on_window_update-IsCounted :
    (sid : ℕ) (payload : List ℕ) (s : Session)
    → IsCounted s
    → IsCounted (on_window_update sid payload s)
unfolding on_window_update
on_window_update-IsCounted sid payload s c =
    elim (Option-cases (decode_padding_window_update payload)) [
      | inl e ↦ rw (on_window_update, e) c
      | inr (increment, e) ↦ elim (Bool-cases (sid == 0)) [
        | inl conn ↦ rw (on_window_update, e, conn) c
        | inr stream ↦ elim (Option-cases (lookup sid s.streams)) [
          | inl none_there ↦ rw (on_window_update, e, stream, none_there) c
          | inr (h, there) ↦
              rw (on_window_update, e, stream, there) (update_handle c sid h _ there refl)
        ]
      ]
    ]

note_peer_goaway-IsCounted :
    (payload : List ℕ) (s : Session) → IsCounted s → IsCounted (note_peer_goaway payload s)
unfolding note_peer_goaway
note_peer_goaway-IsCounted payload s c = elim (Bool-cases s.is_client) [
  | inr server ↦ rw (note_peer_goaway, server) c
  | inl client ↦ elim (Option-cases (decode_padding_goaway payload)) [
    | inl e ↦ rw (note_peer_goaway, client, e) c
    | inr (last, e) ↦ rw (note_peer_goaway, client, e) c
  ]
]

on_padding-IsCounted :
    (env : Env) (frame : Frame) (s : Session) → IsCounted s → IsCounted (on_padding env frame s)
unfolding on_padding
on_padding-IsCounted env frame s c =
    let flag = get_or frame.payload 0 padding_flag_request in
    either IsCounted (flag == padding_flag_goaway) (note_peer_goaway-IsCounted frame.payload s c) (
      either IsCounted (flag == padding_flag_window_update)
        (on_window_update-IsCounted frame.stream_id frame.payload s c)
        (either IsCounted (flag == padding_flag_request)
          (try_write-IsCounted env.queue_takes (padding_replies env.drawn frame.payload) s c) c))

-- Whatever frame comes and whatever the channels and queues answer, the session's counters keep
-- right: `capacity_stream_count` is the number of registered streams that are open for reading,
-- `pending_inbound_streams` that of the announced streams that hold a reservation, no id stands
-- twice, and the two counts together stay within the session's limit, which is below 2 ^ 63.
pub handle_frame-IsCounted :
    (env : Env) (frame : Frame) (s : Session) → IsCounted s → IsCounted (handle_frame env frame s).1
unfolding handle_frame
handle_frame-IsCounted env frame s c =
    let P : Outcome → Type 0 = λ r. IsCounted r.1 in
    either P (frame.cmd == cmd_psh) (on_psh-IsCounted env frame s c) (
      either P (frame.cmd == cmd_syn) (on_syn-IsCounted env frame.stream_id s c) (
        either P (frame.cmd == cmd_fin) (on_fin-IsCounted frame.stream_id s c) (
          either P (frame.cmd == 0) c (
            either P (frame.cmd == cmd_synack) (on_synack-IsCounted env frame s c) (
              either P (frame.cmd == cmd_settings) (on_settings-IsCounted env frame.payload s c)
                (either P (frame.cmd == cmd_padding) (on_padding-IsCounted env frame s c) c))))))
